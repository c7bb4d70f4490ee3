-- ===== src/Nts/State/Fifo.antt =====
-- The cookies of `NtsState` under a sequence of calls: a queue of at most eight.
use ntpsec_rs.Prelude.{
  ℕ, ◌+◌, ◌-◌, ◌≤◌, ◌≡◌, refl, ap, ◌∙◌, sym, Option, none, some, List, [], ◌∷◌, ◌++◌, length,
  length-append, append-nil, append_assoc, ltb, if◌then◌else◌, inl, inr, Bool-cases, arith,
}
use ntpsec_rs.Nts.State.{
  NtsState, nts_max_cookies, add_cookie, pop_from, pop_cookie, cookie_count, is_nts_ready,
}

-- A call of `add_cookie` or of `pop_cookie`.
pub data Call : Type 0 where
  add : List ℕ → Call
  pop : Call

unfoldable pub hand_out : Option (List ℕ) → List (List ℕ) × NtsState → List (List ℕ) × NtsState
hand_out none r = r
hand_out (some cookie) r = (cookie ∷ r.0, r.1)

-- The cookies that a sequence of calls hands out, and the state behind it.
unfoldable pub run : List Call → NtsState → List (List ℕ) × NtsState
run [] s = ([], s)
run (add cookie ∷ calls) s = run calls (add_cookie cookie s)
run (pop ∷ calls) s = hand_out (pop_cookie s).0 (run calls (pop_cookie s).1)

-- The cookies that a jar which holds `n` keeps of those a sequence of calls brings.
unfoldable pub admitted : ℕ → List Call → List (List ℕ)
admitted n [] = []
admitted n (add cookie ∷ calls) =
    if ltb n nts_max_cookies then cookie ∷ admitted (n + 1) calls else admitted n calls
admitted n (pop ∷ calls) = admitted (n - 1) calls

-- The two states differ in their cookies only.
pub record IsFifo (calls : List Call) (s : NtsState) (r : List (List ℕ) × NtsState) : Type 0 where
  pub in_order : r.0 ++ r.1.cookies ≡ s.cookies ++ admitted (cookie_count s) calls
  pub bound : cookie_count r.1 ≤ nts_max_cookies
  pub ready : is_nts_ready r.1 ≡ is_nts_ready s

run-add :
    (cookie : List ℕ) (calls : List Call) (s : NtsState) (r : List (List ℕ) × NtsState)
    → IsFifo calls (add_cookie cookie s) r
    → IsFifo (add cookie ∷ calls) s r
unfolding add_cookie admitted cookie_count is_nts_ready
run-add cookie calls s r = elim (Bool-cases (ltb (length s.cookies) nts_max_cookies)) [
  | inl room ↦ rw room (λ h. record {
    in_order = rw room (
        h.in_order
        ∙ ap (λ n. (s.cookies ++ cookie ∷ []) ++ admitted n calls)
            (length-append s.cookies (cookie ∷ []))
        ∙ append_assoc s.cookies (cookie ∷ []) (admitted (length s.cookies + 1) calls));
    bound = h.bound;
    ready = h.ready;
  })
  | inr full ↦
      rw full (λ h. record { in_order = rw full h.in_order; bound = h.bound; ready = h.ready })
]

run-pop :
    (calls : List Call) (s : NtsState) (cookies : List (List ℕ)) (r : List (List ℕ) × NtsState)
    → s.cookies ≡ cookies
    → IsFifo calls (pop_from cookies s).1 r
    → IsFifo (pop ∷ calls) s (hand_out (pop_from cookies s).0 r)
unfolding pop_from admitted cookie_count is_nts_ready hand_out
run-pop calls s [] r e h = record {
  in_order = h.in_order ∙ ap (λ n. s.cookies ++ admitted n calls) (omega (arith, ap length e));
  bound = h.bound;
  ready = h.ready;
}
run-pop calls s (c ∷ cookies) r e h = record {
  in_order =
      ap (λ xs. c ∷ xs) h.in_order
      ∙ ap (λ n. c ∷ cookies ++ admitted n calls) (omega arith)
      ∙ sym (ap (λ xs. xs ++ admitted (length xs - 1) calls) e);
  bound = h.bound;
  ready = h.ready;
}

add_cookie-le :
    (cookie : List ℕ) (s : NtsState)
    → cookie_count s ≤ nts_max_cookies
    → cookie_count (add_cookie cookie s) ≤ nts_max_cookies
unfolding add_cookie cookie_count
add_cookie-le cookie s le = elim (Bool-cases (ltb (length s.cookies) nts_max_cookies)) [
  | inl room ↦ rw room (rw (length-append s.cookies (cookie ∷ [])) (ground (arith, room)))
  | inr full ↦ rw full le
]

pop_from-le :
    (cookies : List (List ℕ)) (s : NtsState)
    → s.cookies ≡ cookies
    → cookie_count s ≤ nts_max_cookies
    → cookie_count (pop_from cookies s).1 ≤ nts_max_cookies
unfolding pop_from cookie_count
pop_from-le [] s e le = le
pop_from-le (c ∷ cookies) s e le = omega (arith, ap length e, le)

-- Whatever the order of the calls, cookies are handed out in the order in which they came, and
-- none is lost but those that come while eight are held; no more than eight are held in the end, and
-- the calls do not change whether the association has its keys. The state holds at most eight before.
pub run-IsFifo :
    (calls : List Call) (s : NtsState)
    → cookie_count s ≤ nts_max_cookies
    → IsFifo calls s (run calls s)
unfolding run pop_cookie admitted
run-IsFifo [] s le = record { in_order = sym (append-nil s.cookies); bound = le; ready = refl }
run-IsFifo (add cookie ∷ calls) s le =
    run-add cookie calls s (run calls (add_cookie cookie s))
      (run-IsFifo calls (add_cookie cookie s) (add_cookie-le cookie s le))
run-IsFifo (pop ∷ calls) s le =
    run-pop calls s s.cookies (run calls (pop_cookie s).1) refl
      (run-IsFifo calls (pop_cookie s).1 (pop_from-le s.cookies s refl le))
