-- ===== src/Monitor/Oldest.antt =====
-- What is removed from a full cache of nonces: an oldest entry, whatever the order of the map.
use ntpsec_rs.Prelude.{
  ℕ, ◌≤◌, ◌<◌, ◌≡◌, refl, sym, ◌∙◌, ap, subst, arith, List, [], ◌∷◌, ◌++◌, length, ltb,
  if◌then◌else◌, true, false, Bool-cases, ◌⊎◌, inl, inr, All,
}
use ntpsec_rs.Prelude.Bytes.{same_bytes, same_bytes_refl}
use ntpsec_rs.Monitor.{NonceEntry, remove_nonce, oldest_of, remove_oldest_of, remove_oldest}

abbrev pub IsIn : NonceEntry → List NonceEntry → Type 0
IsIn e [] = ⊥
IsIn e (x ∷ xs) = (x ≡ e) ⊎ IsIn e xs

-- A way through a map meets its entries and nothing else.
pub record IsOrder (order : List NonceEntry → List NonceEntry) : Type 0 where
  pub held : (es : List NonceEntry) (e : NonceEntry) → IsIn e (order es) → IsIn e es
  pub met : (es : List NonceEntry) (e : NonceEntry) → IsIn e es → IsIn e (order es)

same_bytes_sym : (xs ys : List ℕ) → same_bytes xs ys ≡ same_bytes ys xs
unfolding same_bytes
same_bytes_sym [] [] = refl
same_bytes_sym [] (y ∷ ys) = refl
same_bytes_sym (x ∷ xs) [] = refl
same_bytes_sym (x ∷ xs) (y ∷ ys) = ground (arith, same_bytes_sym xs ys)

abbrev older : NonceEntry → NonceEntry → NonceEntry
older best e = if ltb e.created best.created then e else best

older-le :
    (best e : NonceEntry)
    → ((older best e).created ≤ best.created) × ((older best e).created ≤ e.created)
older-le best e = elim (Bool-cases (ltb e.created best.created)) [
  | inl d ↦ rw d (ground (arith, d), omega arith)
  | inr d ↦ rw d (omega arith, ground (arith, d))
]

older-cases : (best e : NonceEntry) → (older best e ≡ best) ⊎ (older best e ≡ e)
older-cases best e = elim (Bool-cases (ltb e.created best.created)) [
  | inl d ↦ rw d (inr refl)
  | inr d ↦ rw d (inl refl)
]

oldest_of-le :
    (best : NonceEntry) (es : List NonceEntry) → (oldest_of best es).created ≤ best.created
unfolding oldest_of
oldest_of-le best [] = omega arith
oldest_of-le best (e ∷ es) = omega (arith, oldest_of-le (older best e) es, (older-le best e).0)

oldest_of-least :
    (best : NonceEntry) (es : List NonceEntry) (e : NonceEntry)
    → IsIn e (best ∷ es)
    → (oldest_of best es).created ≤ e.created
unfolding oldest_of
oldest_of-least best es e (inl same) =
    subst (λ t. (oldest_of best es).created ≤ t.created) same (oldest_of-le best es)
oldest_of-least best [] e (inr h) = absurd h
oldest_of-least best (x ∷ es) e (inr (inl same)) =
    subst (λ t. (oldest_of best (x ∷ es)).created ≤ t.created) same
      (omega (arith, oldest_of-le (older best x) es, (older-le best x).1))
oldest_of-least best (x ∷ es) e (inr (inr h)) = oldest_of-least (older best x) es e (inr h)

oldest_of-IsIn : (best : NonceEntry) (es : List NonceEntry) → IsIn (oldest_of best es) (best ∷ es)
unfolding oldest_of
oldest_of-IsIn best [] = inl refl
oldest_of-IsIn best (e ∷ es) = keep (older-cases best e) (oldest_of-IsIn (older best e) es)
  where
    keep :
        (older best e ≡ best) ⊎ (older best e ≡ e)
        → IsIn (oldest_of (older best e) es) (older best e ∷ es)
        → IsIn (oldest_of (older best e) es) (best ∷ e ∷ es)
    keep (inl same) (inl h) = inl (sym same ∙ h)
    keep (inr same) (inl h) = inr (inl (sym same ∙ h))
    keep c (inr h) = inr (inr h)

length-remove_nonce-le :
    (nonce : List ℕ) (es : List NonceEntry) → length (remove_nonce nonce es) ≤ length es
unfolding remove_nonce
length-remove_nonce-le nonce [] = omega arith
length-remove_nonce-le nonce (e ∷ es) = ground (arith, length-remove_nonce-le nonce es)

length-remove_nonce-lt :
    (e : NonceEntry) (es : List NonceEntry)
    → IsIn e es
    → length (remove_nonce e.nonce es) < length es
unfolding remove_nonce
length-remove_nonce-lt e [] h = absurd h
length-remove_nonce-lt e (x ∷ es) (inl same) =
    let hit : same_bytes x.nonce e.nonce ≡ true =
      subst (λ t. same_bytes x.nonce t.nonce ≡ true) same (same_bytes_refl x.nonce) in
    rw hit (omega (arith, length-remove_nonce-le e.nonce es))
length-remove_nonce-lt e (x ∷ es) (inr h) = elim (Bool-cases (same_bytes x.nonce e.nonce)) [
  | inl d ↦ rw d (omega (arith, length-remove_nonce-lt e es h))
  | inr d ↦ rw d (omega (arith, length-remove_nonce-lt e es h))
]

remove_nonce-append :
    (nonce : List ℕ) (es : List NonceEntry) (e : NonceEntry)
    → same_bytes e.nonce nonce ≡ false
    → remove_nonce nonce (es ++ e ∷ []) ≡ remove_nonce nonce es ++ e ∷ []
unfolding remove_nonce
remove_nonce-append nonce [] e h = rw h refl
remove_nonce-append nonce (x ∷ es) e h = ground (arith, remove_nonce-append nonce es e h)

pub All-remove_nonce :
    (P : NonceEntry → Type 0) (nonce : List ℕ) (es : List NonceEntry)
    → All P es
    → All P (remove_nonce nonce es)
unfolding remove_nonce
All-remove_nonce P nonce [] h = _
All-remove_nonce P nonce (e ∷ es) h = elim (Bool-cases (same_bytes e.nonce nonce)) [
  | inl d ↦ rw d (All-remove_nonce P nonce es h.1)
  | inr d ↦ rw d (h.0, All-remove_nonce P nonce es h.1)
]

All-IsIn :
    (P : NonceEntry → Type 0) (es : List NonceEntry) (e : NonceEntry) → All P es → IsIn e es → P e
All-IsIn P [] e h i = absurd i
All-IsIn P (x ∷ es) e h (inl same) = subst P same h.0
All-IsIn P (x ∷ es) e h (inr i) = All-IsIn P es e h.1 i

IsIn-append :
    (es : List NonceEntry) (last e : NonceEntry) → IsIn e (es ++ last ∷ []) → IsIn e es ⊎ (last ≡ e)
IsIn-append [] last e (inl same) = inr same
IsIn-append [] last e (inr h) = absurd h
IsIn-append (x ∷ es) last e (inl same) = inl (inl same)
IsIn-append (x ∷ es) last e (inr h) = elim (IsIn-append es last e h) [
  | inl i ↦ inl (inr i)
  | inr same ↦ inr same
]

-- What stands in front of the newest entry: older entries with other nonces.
abbrev pub IsOlder : NonceEntry → NonceEntry → Type 0
IsOlder newest e = (e.created < newest.created) × (same_bytes e.nonce newest.nonce ≡ false)

module _ (order : List NonceEntry → List NonceEntry) (h : IsOrder order) where
  pub All-remove_oldest :
      (P : NonceEntry → Type 0) (es : List NonceEntry) → All P es → All P (remove_oldest order es)
  unfolding remove_oldest remove_oldest_of
  All-remove_oldest P es all = removed (order es)
    where
      removed : (on_way : List NonceEntry) → All P (remove_oldest_of on_way es)
      removed [] = all
      removed (o ∷ on_way) = All-remove_nonce P (oldest_of o on_way).nonce es all

  pub length-remove_oldest :
      (x : NonceEntry) (es : List NonceEntry)
      → length (remove_oldest order (x ∷ es)) < length (x ∷ es)
  unfolding remove_oldest remove_oldest_of
  length-remove_oldest x es = removed (order (x ∷ es)) (h.held (x ∷ es)) (h.met (x ∷ es))
    where
      removed :
          (on_way : List NonceEntry)
          → ((e : NonceEntry) → IsIn e on_way → IsIn e (x ∷ es))
          → ((e : NonceEntry) → IsIn e (x ∷ es) → IsIn e on_way)
          → length (remove_oldest_of on_way (x ∷ es)) < length (x ∷ es)
      removed [] held met = absurd (met x (inl refl))
      removed (o ∷ on_way) held met =
          length-remove_nonce-lt (oldest_of o on_way) (x ∷ es)
            (held (oldest_of o on_way) (oldest_of-IsIn o on_way))

  -- An entry in front of the newest one is removed.
  pub remove_oldest-append :
      (newest x : NonceEntry) (es : List NonceEntry)
      → All (IsOlder newest) (x ∷ es)
      → (front : List NonceEntry) × ((remove_oldest order (x ∷ (es ++ newest ∷ []))
            ≡ front ++ newest ∷ [])
          × (length front ≤ length es)
          × All (IsOlder newest) front)
  unfolding remove_oldest remove_oldest_of
  remove_oldest-append newest x es older = removed (order all) (h.held all) (h.met all)
    where
      all : List NonceEntry
      all = x ∷ (es ++ newest ∷ [])

      removed :
          (on_way : List NonceEntry)
          → ((e : NonceEntry) → IsIn e on_way → IsIn e all)
          → ((e : NonceEntry) → IsIn e all → IsIn e on_way)
          → (front : List NonceEntry) × ((remove_oldest_of on_way all ≡ front ++ newest ∷ [])
              × (length front ≤ length es)
              × All (IsOlder newest) front)
      removed [] held met = absurd (met x (inl refl))
      removed (o ∷ on_way) held met =
          let oldest = oldest_of o on_way in
          let least : oldest.created ≤ x.created = oldest_of-least o on_way x (met x (inl refl)) in
          elim (IsIn-append (x ∷ es) newest oldest (held oldest (oldest_of-IsIn o on_way))) [
            | inr same ↦ absurd (omega (arith, least, older.0.0, ap (λ e. e.created) same))
            | inl front ↦
                let other = All-IsIn (IsOlder newest) (x ∷ es) oldest older front in
                (
                  remove_nonce oldest.nonce (x ∷ es),
                  (
                    remove_nonce-append oldest.nonce (x ∷ es) newest
                        (same_bytes_sym newest.nonce oldest.nonce ∙ other.1),
                    omega (arith, length-remove_nonce-lt oldest (x ∷ es) front),
                    All-remove_nonce (IsOlder newest) oldest.nonce (x ∷ es) older,
                  ),
                )
          ]
