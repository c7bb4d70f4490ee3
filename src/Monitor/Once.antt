-- ===== src/Monitor/Once.antt =====
-- The life of a nonce over all calls of its cache.
use ntpsec_rs.Prelude.{
  ℕ, ◌+◌, ◌≤◌, ◌<◌, ◌≡◌, refl, ◌∙◌, ap, arith, List, [], ◌∷◌, ◌++◌, length, All, leb, ltb, ◌&&◌,
  false, Bool-cases, inl, inr,
}
use ntpsec_rs.Prelude.Bytes.{same_bytes_refl}
use ntpsec_rs.Monitor.{
  nonce_expiry, nonce_cutoff, NonceEntry, NonceCache, retain_fresh, has_nonce, generate_nonce,
  verify_nonce,
}
use ntpsec_rs.Monitor.Oldest.{IsOrder}
use ntpsec_rs.Monitor.Nonces.{
  Call, request, check, IsOther, AreOthers, IsBy, has_nonce-IsOther, All-retain_fresh,
  retain_fresh-append, has_nonce-append, verify_nonce-has_nonce, verify_nonce-IsOther,
  verify_nonce-All, generate_nonce-All, generate_nonce_lem,
}

abbrev pub after_calls : (List NonceEntry → List NonceEntry) → List Call → NonceCache → NonceCache
after_calls order [] c = c
after_calls order (request now later nonce ∷ calls) c =
    after_calls order calls (generate_nonce order now later nonce c).1
after_calls order (check now nonce ∷ calls) c = after_calls order calls (verify_nonce now nonce c).1

-- The entries that the calls make.
abbrev AllNew : (NonceEntry → Type 0) → List Call → Type 0
AllNew P [] = Unit
AllNew P (request now later nonce ∷ calls) =
    P (record { nonce = nonce; created = later }) × AllNew P calls
AllNew P (check now nonce ∷ calls) = AllNew P calls

AllNew-AreOthers :
    (P : NonceEntry → Type 0) (nonce : List ℕ) (calls : List Call)
    → ((e : NonceEntry) → IsOther nonce e → P e)
    → AreOthers nonce calls
    → AllNew P calls
AllNew-AreOthers P nonce [] f h = _
AllNew-AreOthers P nonce (request now later other ∷ calls) f h =
    (f (record { nonce = other; created = later }) h.0, AllNew-AreOthers P nonce calls f h.1)
AllNew-AreOthers P nonce (check now other ∷ calls) f h = AllNew-AreOthers P nonce calls f h

-- What holds of all entries, and the size of the cache, over every sequence of calls.
after_calls-All :
    (order : List NonceEntry → List NonceEntry) (P : NonceEntry → Type 0) (calls : List Call)
    (c : NonceCache)
    → IsOrder order
    → AllNew P calls
    → All P c.nonces
    → length c.nonces ≤ c.max_nonces
    → All P (after_calls order calls c).nonces
      × (length (after_calls order calls c).nonces ≤ c.max_nonces)
unfolding generate_nonce
after_calls-All order P [] c h new all few = (all, few)
after_calls-All order P (request now later nonce ∷ calls) c h new all few =
    let made = generate_nonce-All order h P now later nonce c new.0 all in
    after_calls-All order P calls (generate_nonce order now later nonce c).1 h new.1 made.0 made.1
after_calls-All order P (check now nonce ∷ calls) c h new all few =
    let left = verify_nonce-All P now nonce c all in
    let same = (verify_nonce-has_nonce now nonce c).1 in
    let rest =
      after_calls-All order P calls (verify_nonce now nonce c).1 h new left.0
        (omega (arith, left.1, few, same)) in
    (rest.0, omega (arith, rest.1, same))

after_calls-max_nonces :
    (order : List NonceEntry → List NonceEntry) (calls : List Call) (c : NonceCache)
    → (after_calls order calls c).max_nonces ≡ c.max_nonces
unfolding generate_nonce
after_calls-max_nonces order [] c = refl
after_calls-max_nonces order (request now later nonce ∷ calls) c =
    after_calls-max_nonces order calls (generate_nonce order now later nonce c).1
after_calls-max_nonces order (check now nonce ∷ calls) c =
    after_calls-max_nonces order calls (verify_nonce now nonce c).1
    ∙ (verify_nonce-has_nonce now nonce c).1

has_nonce-late :
    (nonce : List ℕ) (later oldest : ℕ) (es : List NonceEntry)
    → later ≤ oldest
    → All (IsBy nonce later) es
    → has_nonce nonce (retain_fresh oldest es) ≡ false
unfolding has_nonce retain_fresh
has_nonce-late nonce later oldest [] le h = refl
has_nonce-late nonce later oldest (e ∷ es) le (inl other, hs) =
    ground (arith, other, has_nonce-late nonce later oldest es le hs)
has_nonce-late nonce later oldest (e ∷ es) le (inr by, hs) =
    ground (arith, by, le, has_nonce-late nonce later oldest es le hs)

-- A nonce that is not in the cache is refused.
verify_nonce-IsOther_refused :
    (now : ℕ) (nonce : List ℕ) (c : NonceCache)
    → All (IsOther nonce) c.nonces
    → (verify_nonce now nonce c).0 ≡ false
verify_nonce-IsOther_refused now nonce c h =
    (verify_nonce-has_nonce now nonce c).0
    ∙ has_nonce-IsOther nonce (retain_fresh (nonce_cutoff now) c.nonces)
        (All-retain_fresh (IsOther nonce) (nonce_cutoff now) c.nonces h)

verify_nonce-late :
    (now later : ℕ) (nonce : List ℕ) (c : NonceCache)
    → All (IsBy nonce later) c.nonces
    → ((verify_nonce now nonce c).0 && leb (later + nonce_expiry) now) ≡ false
unfolding nonce_cutoff
verify_nonce-late now later nonce c h = elim (Bool-cases (leb (later + nonce_expiry) now)) [
  | inr soon ↦ ground (arith, soon)
  | inl late ↦
      let reached : later ≤ nonce_cutoff now = ground (arith, late) in
      let refused =
        (verify_nonce-has_nonce now nonce c).0
        ∙ has_nonce-late nonce later (nonce_cutoff now) c.nonces reached h in
      ground (arith, refused)
]

-- The newest entry decides whether its nonce is accepted.
verify_nonce-newest :
    (now : ℕ) (front : List NonceEntry) (e : NonceEntry) (c : NonceCache)
    → nonce_expiry ≤ now
    → c.nonces ≡ front ++ e ∷ []
    → All (IsOther e.nonce) front
    → (verify_nonce now e.nonce c).0 ≡ ltb now (e.created + nonce_expiry)
unfolding has_nonce retain_fresh nonce_cutoff
verify_nonce-newest now front e c long made h =
    (verify_nonce-has_nonce now e.nonce c).0
    ∙ ap (λ t. has_nonce e.nonce (retain_fresh (nonce_cutoff now) t)) made
    ∙ ap (has_nonce e.nonce) (retain_fresh-append (nonce_cutoff now) front (e ∷ []))
    ∙ has_nonce-append e.nonce (retain_fresh (nonce_cutoff now) front)
        (retain_fresh (nonce_cutoff now) (e ∷ []))
        (has_nonce-IsOther e.nonce (retain_fresh (nonce_cutoff now) front)
          (All-retain_fresh (IsOther e.nonce) (nonce_cutoff now) front h))
    ∙ ground (arith, same_bytes_refl e.nonce, long)

-- The life of a nonce that is made at `now` and checked at `first` and `second`, with other calls
-- before the first check and behind it.
pub record IsOnce (order : List NonceEntry → List NonceEntry) (now later first second : ℕ)
    (nonce : List ℕ) (before behind : List Call) (c : NonceCache) : Type 0 where
  pub prompt :
      (verify_nonce first nonce (generate_nonce order now later nonce c).1).0
      ≡ ltb first (later + nonce_expiry)
  pub late :
      ((verify_nonce first nonce
          (after_calls order before (generate_nonce order now later nonce c).1)).0
        && leb (later + nonce_expiry) first)
      ≡ false
  pub again :
      (verify_nonce second nonce (
        after_calls order behind
          (verify_nonce first nonce
            (after_calls order before (generate_nonce order now later nonce c).1)).1)).0
      ≡ false
  pub bounded :
      length (after_calls order before (generate_nonce order now later nonce c).1).nonces
      ≤ c.max_nonces

-- A new nonce is accepted by a check that follows at once exactly if it comes within thirty seconds.
-- Whatever other requests and checks come between, it is refused after thirty seconds, it is refused
-- once it has been checked, and the cache stays within its size; other requests may evict it before.
-- The map may be gone through in any order. The cache has room for at least one nonce, its nonces were
-- made before this one, no later request draws the same nonce, and the first check comes thirty
-- seconds or more after the earliest instant that can be represented.
pub verify_nonce-generate_nonce :
    (order : List NonceEntry → List NonceEntry) (now later first second : ℕ) (nonce : List ℕ)
    (before behind : List Call) (c : NonceCache)
    → IsOrder order
    → 1 ≤ c.max_nonces
    → All (λ e. e.created < later) c.nonces
    → nonce_expiry ≤ first
    → AreOthers nonce before
    → AreOthers nonce behind
    → IsOnce order now later first second nonce before behind c
unfolding generate_nonce
verify_nonce-generate_nonce order now later first second nonce before behind c h one earlier long
      between since =
    let made = (generate_nonce order now later nonce c).1 in
    let (front, (there, other)) = generate_nonce_lem order h now later nonce c one earlier in
    let e : NonceEntry = record { nonce = nonce; created = later } in
    let new =
      generate_nonce-All order h (IsBy nonce later) now later nonce c (inr (omega arith))
        (by c.nonces earlier) in
    let run =
      after_calls-All order (IsBy nonce later) before made h
        (AllNew-AreOthers (IsBy nonce later) nonce before (λ x o. inl o) between) new.0 new.1 in
    let waiting = after_calls order before made in
    let checked = (verify_nonce first nonce waiting).1 in
    let gone = verify_nonce-IsOther first nonce waiting in
    let less = verify_nonce-All (IsBy nonce later) first nonce waiting run.0 in
    record {
      prompt = verify_nonce-newest first front e made long there other;
      late = verify_nonce-late first later nonce waiting run.0;
      again =
          verify_nonce-IsOther_refused second nonce (after_calls order behind checked)
            (after_calls-All order (IsOther nonce) behind checked h
              (AllNew-AreOthers (IsOther nonce) nonce behind (λ x o. o) since) gone
              (omega (
                arith,
                less.1,
                run.1,
                after_calls-max_nonces order before made,
                (verify_nonce-has_nonce first nonce waiting).1,
              ))).0;
      bounded = run.1;
    }
  where
    by : (es : List NonceEntry) → All (λ e. e.created < later) es → All (IsBy nonce later) es
    by [] a = _
    by (x ∷ xs) a = (inr (omega (arith, a.0)), by xs a.1)
