-- ===== src/Monitor/Nonces.antt =====
-- What requests and checks leave in the cache of nonces.
use ntpsec_rs.Prelude.{
  ℕ, zero, suc, ◌+◌, ◌≤◌, ◌<◌, ◌≡◌, refl, sym, ◌∙◌, arith, some, List, [], ◌∷◌, ◌++◌, length,
  length-append, All, All-append, ltb, false, Bool-cases, ◌⊎◌, inl, inr, false≢true,
}
use ntpsec_rs.Prelude.Bytes.{same_bytes}
use ntpsec_rs.Monitor.{
  nonce_cutoff, NonceEntry, NonceCache, retain_fresh, purge_expired, remove_nonce, has_nonce,
  remove_oldest, trim_loop, trimmed, generate_nonce, verify_nonce,
}
use ntpsec_rs.Monitor.Oldest.{
  IsOrder, IsOlder, All-remove_nonce, All-remove_oldest, length-remove_oldest, remove_oldest-append,
}

-- The calls of a cache, each with the clock; the random nonce of a request is an argument.
pub data Call : Type 0 where
  request : ℕ → ℕ → List ℕ → Call
  check : ℕ → List ℕ → Call

-- The entry is of another nonce.
abbrev pub IsOther : List ℕ → NonceEntry → Type 0
IsOther nonce e = same_bytes e.nonce nonce ≡ false

-- No call gives out this nonce again.
abbrev pub AreOthers : List ℕ → List Call → Type 0
AreOthers nonce [] = Unit
AreOthers nonce (request now later other ∷ calls) =
    (same_bytes other nonce ≡ false) × AreOthers nonce calls
AreOthers nonce (check now other ∷ calls) = AreOthers nonce calls

pub has_nonce-IsOther :
    (nonce : List ℕ) (es : List NonceEntry) → All (IsOther nonce) es → has_nonce nonce es ≡ false
unfolding has_nonce
has_nonce-IsOther nonce [] h = refl
has_nonce-IsOther nonce (e ∷ es) h = rw h.0 (has_nonce-IsOther nonce es h.1)

All-IsOther-remove_nonce :
    (nonce : List ℕ) (es : List NonceEntry) → All (IsOther nonce) (remove_nonce nonce es)
unfolding remove_nonce
All-IsOther-remove_nonce nonce [] = _
All-IsOther-remove_nonce nonce (e ∷ es) = elim (Bool-cases (same_bytes e.nonce nonce)) [
  | inl d ↦ rw d (All-IsOther-remove_nonce nonce es)
  | inr d ↦ rw d (d, All-IsOther-remove_nonce nonce es)
]

pub All-retain_fresh :
    (P : NonceEntry → Type 0) (oldest : ℕ) (es : List NonceEntry)
    → All P es
    → All P (retain_fresh oldest es)
unfolding retain_fresh
All-retain_fresh P oldest [] h = _
All-retain_fresh P oldest (e ∷ es) h = elim (Bool-cases (ltb oldest e.created)) [
  | inl d ↦ rw d (h.0, All-retain_fresh P oldest es h.1)
  | inr d ↦ rw d (All-retain_fresh P oldest es h.1)
]

All-and :
    (P Q : NonceEntry → Type 0) (es : List NonceEntry)
    → All P es
    → All Q es
    → All (λ e. P e × Q e) es
All-and P Q [] p q = _
All-and P Q (e ∷ es) p q = ((p.0, q.0), All-and P Q es p.1 q.1)

-- Purging and removing leave no more entries than there were.
length-retain_fresh-le :
    (oldest : ℕ) (es : List NonceEntry) → length (retain_fresh oldest es) ≤ length es
unfolding retain_fresh
length-retain_fresh-le oldest [] = omega arith
length-retain_fresh-le oldest (e ∷ es) = ground (arith, length-retain_fresh-le oldest es)

length-remove_nonce-le :
    (nonce : List ℕ) (es : List NonceEntry) → length (remove_nonce nonce es) ≤ length es
unfolding remove_nonce
length-remove_nonce-le nonce [] = omega arith
length-remove_nonce-le nonce (e ∷ es) = ground (arith, length-remove_nonce-le nonce es)

pub retain_fresh-append :
    (oldest : ℕ) (xs ys : List NonceEntry)
    → retain_fresh oldest (xs ++ ys) ≡ retain_fresh oldest xs ++ retain_fresh oldest ys
unfolding retain_fresh
retain_fresh-append oldest [] ys = refl
retain_fresh-append oldest (x ∷ xs) ys = ground (arith, retain_fresh-append oldest xs ys)

pub has_nonce-append :
    (nonce : List ℕ) (xs ys : List NonceEntry)
    → has_nonce nonce xs ≡ false
    → has_nonce nonce (xs ++ ys) ≡ has_nonce nonce ys
unfolding has_nonce
has_nonce-append nonce [] ys h = refl
has_nonce-append nonce (x ∷ xs) ys h = ground (arith, has_nonce-append nonce xs ys)

-- The check tells whether the nonce is there and fresh, and removes it.
pub verify_nonce-has_nonce :
    (now : ℕ) (nonce : List ℕ) (c : NonceCache)
    → ((verify_nonce now nonce c).0 ≡ has_nonce nonce (retain_fresh (nonce_cutoff now) c.nonces))
      × ((verify_nonce now nonce c).1.max_nonces ≡ c.max_nonces)
unfolding verify_nonce purge_expired
verify_nonce-has_nonce now nonce c =
    elim (Bool-cases (has_nonce nonce (retain_fresh (nonce_cutoff now) c.nonces))) [
      | inl e ↦ rw e (refl, refl)
      | inr e ↦ rw e (refl, refl)
    ]

IsOther-has_nonce :
    (nonce : List ℕ) (es : List NonceEntry) → has_nonce nonce es ≡ false → All (IsOther nonce) es
unfolding has_nonce
IsOther-has_nonce nonce [] h = _
IsOther-has_nonce nonce (e ∷ es) h = elim (Bool-cases (same_bytes e.nonce nonce)) [
  | inl d ↦ absurd (false≢true (sym h ∙ ground (arith, d)))
  | inr d ↦ (d, IsOther-has_nonce nonce es (ground (arith, h, d)))
]

-- After its check a nonce is not in the cache.
pub verify_nonce-IsOther :
    (now : ℕ) (nonce : List ℕ) (c : NonceCache)
    → All (IsOther nonce) (verify_nonce now nonce c).1.nonces
unfolding verify_nonce purge_expired
verify_nonce-IsOther now nonce c =
    let fresh = retain_fresh (nonce_cutoff now) c.nonces in
    elim (Bool-cases (has_nonce nonce fresh)) [
      | inl e ↦ rw e (All-IsOther-remove_nonce nonce fresh)
      | inr e ↦ rw e (IsOther-has_nonce nonce fresh e)
    ]

-- What holds of all entries holds of those that a check leaves, which are no more.
pub verify_nonce-All :
    (P : NonceEntry → Type 0) (now : ℕ) (nonce : List ℕ) (c : NonceCache)
    → All P c.nonces
    → All P (verify_nonce now nonce c).1.nonces
      × (length (verify_nonce now nonce c).1.nonces ≤ length c.nonces)
unfolding verify_nonce purge_expired
verify_nonce-All P now nonce c h =
    let oldest = nonce_cutoff now in
    let fresh = retain_fresh oldest c.nonces in
    let kept = All-retain_fresh P oldest c.nonces h in
    elim (Bool-cases (has_nonce nonce fresh)) [
      | inl e ↦ rw e (
        All-remove_nonce P nonce fresh kept,
        omega (arith, length-remove_nonce-le nonce fresh, length-retain_fresh-le oldest c.nonces),
      )
      | inr e ↦ rw e (kept, length-retain_fresh-le oldest c.nonces)
    ]

-- An entry of another nonce, or one that was made by then.
abbrev pub IsBy : List ℕ → ℕ → NonceEntry → Type 0
IsBy nonce later e = IsOther nonce e ⊎ (e.created ≤ later)

module _ (order : List NonceEntry → List NonceEntry) (h : IsOrder order) where
  trim_loop-fits :
      (P : NonceEntry → Type 0) (fuel max_nonces : ℕ) (es : List NonceEntry)
      → length es < fuel
      → All P es
      → (t : List NonceEntry) × ((trim_loop order fuel max_nonces es ≡ some t)
          × (length t ≤ max_nonces)
          × All P t)
  unfolding trim_loop
  trim_loop-fits P zero max_nonces es k all = absurd (omega arith)
  trim_loop-fits P (suc fuel) max_nonces [] k all = ([], (ground arith, omega arith, all))
  trim_loop-fits P (suc fuel) max_nonces (x ∷ es) k all =
      elim (Bool-cases (ltb max_nonces (length (x ∷ es)))) [
        | inr fits ↦ (x ∷ es, (rw fits refl, ground (arith, fits), all))
        | inl over ↦
            let (t, (run, few, kept)) =
              trim_loop-fits P fuel max_nonces (remove_oldest order (x ∷ es))
                (omega (arith, length-remove_oldest order h x es, k))
                (All-remove_oldest order h P (x ∷ es) all) in
            (t, (rw over run, few, kept))
      ]

  trimmed-some :
      (max_nonces : ℕ) (es t : List NonceEntry)
      → trim_loop order (suc (length es)) max_nonces es ≡ some t
      → trimmed order max_nonces es ≡ t
  unfolding trimmed
  trimmed-some max_nonces es t e = rw (trimmed, e) refl

  -- A request adds its entry at most, and leaves a cache within its size.
  pub generate_nonce-All :
      (P : NonceEntry → Type 0) (now later : ℕ) (nonce : List ℕ) (c : NonceCache)
      → P (record { nonce = nonce; created = later })
      → All P c.nonces
      → All P (generate_nonce order now later nonce c).1.nonces
        × (length (generate_nonce order now later nonce c).1.nonces ≤ c.max_nonces)
  unfolding generate_nonce purge_expired
  generate_nonce-All P now later nonce c new all =
      let fresh = retain_fresh (nonce_cutoff now) c.nonces in
      let e : NonceEntry = record { nonce = nonce; created = later } in
      let es = remove_nonce nonce fresh ++ e ∷ [] in
      let kept =
        All-remove_nonce P nonce fresh (All-retain_fresh P (nonce_cutoff now) c.nonces all) in
      let (t, (run, few, rest)) =
        trim_loop-fits P (suc (length es)) c.max_nonces es (omega arith)
          (All-append P (remove_nonce nonce fresh) (e ∷ []) kept (new, _)) in
      let same = trimmed-some c.max_nonces es t run in rw same (rest, few)

  trim_loop-append :
      (fuel max_nonces : ℕ) (e : NonceEntry) (es : List NonceEntry)
      → 1 ≤ max_nonces
      → length es + 1 < fuel
      → All (IsOlder e) es
      → (front : List NonceEntry) × ((trim_loop order fuel max_nonces (es ++ e ∷ [])
            ≡ some (front ++ e ∷ []))
          × All (IsOlder e) front)
  unfolding trim_loop
  trim_loop-append zero max_nonces e es one k older = absurd (omega arith)
  trim_loop-append (suc fuel) max_nonces e [] one k older = ([], (ground arith, _))
  trim_loop-append (suc fuel) max_nonces e (x ∷ es) one k older =
      elim (Bool-cases (ltb max_nonces (length (x ∷ (es ++ e ∷ []))))) [
        | inr fits ↦ (x ∷ es, (rw fits refl, older))
        | inl over ↦
            let (shorter, (gone, count, left)) = remove_oldest-append order h e x es older in
            let (front, (run, kept)) =
              trim_loop-append fuel max_nonces e shorter one (omega (arith, count, k)) left in
            (front, (rw (over, gone) run, kept))
      ]

  -- The new nonce is the newest entry, which the trimming spares.
  pub generate_nonce_lem :
      (now later : ℕ) (nonce : List ℕ) (c : NonceCache)
      → 1 ≤ c.max_nonces
      → All (λ e. e.created < later) c.nonces
      → (front : List NonceEntry) × (((generate_nonce order now later nonce c).1.nonces
            ≡ front ++ record { nonce = nonce; created = later } ∷ [])
          × All (IsOther nonce) front)
  unfolding generate_nonce purge_expired
  generate_nonce_lem now later nonce c one earlier =
      let fresh = retain_fresh (nonce_cutoff now) c.nonces in
      let kept = remove_nonce nonce fresh in
      let e : NonceEntry = record { nonce = nonce; created = later } in
      let before =
        All-remove_nonce (λ x. x.created < later) nonce fresh
          (All-retain_fresh (λ x. x.created < later) (nonce_cutoff now) c.nonces earlier) in
      let (front, (run, older)) =
        trim_loop-append (suc (length (kept ++ e ∷ []))) c.max_nonces e kept one
          (omega (arith, length-append kept (e ∷ [])))
          (All-and (λ x. x.created < later) (IsOther nonce) kept before
            (All-IsOther-remove_nonce nonce fresh)) in
      (
        front,
        (trimmed-some c.max_nonces (kept ++ e ∷ []) (front ++ e ∷ []) run, others front older),
      )
    where
      others :
          (front : List NonceEntry)
          → All (IsOlder (record { nonce = nonce; created = later })) front
          → All (IsOther nonce) front
      others [] o = _
      others (x ∷ xs) o = (o.0.1, others xs o.1)
