-- ===== src/Timer/Due.antt =====
-- What fires, and when the entries that stay are due.
use ntpsec_rs.Prelude.{
  ℕ, ◌+◌, ◌*◌, ◌/◌, ◌^◌, ◌≤◌, ◌<◌, ◌≡◌, refl, ◌∙◌, ap, arith, ◌==◌, ◌||◌, List, [], ◌∷◌, ltb,
  if◌then◌else◌, All, true, false, Bool-cases, inl, inr, ◌⊎◌,
}
use native.Mathlib.Nat.{div-add-mod', mod-lt}
use ntpsec_rs.Prelude.Int.{
  ℤ, pos, negsuc, pos_part, neg_part, ltb_ℤ, leb_ℤ, add64, sub64, ◌<ℤ◌, ◌≤ℤ◌, add64_parts,
  sub64_parts,
}
use ntpsec_rs.Timer.{TimerEvent, TimerEntry, TimerQueue, missed, advance_past, pop_loop, pop_due}

-- Times far below the range of an `i64`, and an interval of 32 bits.
pub record IsEntry (e : TimerEntry) : Type 0 where
  pub late : pos_part e.due < 2 ^ 60
  pub early : neg_part e.due < 2 ^ 60
  pub interval : e.interval < 2 ^ 32

abbrev pub IsTime : ℤ → Type 0
IsTime now = (pos_part now < 2 ^ 60) × (neg_part now < 2 ^ 60)

-- The next multiple of the interval above a distance.
next_multiple : (a n : ℕ) → 0 < n → (a < (a / n + 1) * n) × ((a / n + 1) * n ≤ a + n)
next_multiple a n h = (omega (arith, div-add-mod' a n, mod-lt a h), omega (arith, div-add-mod' a n))

one_sign : (z : ℤ) → (pos_part z ≡ 0) ⊎ (neg_part z ≡ 0)
one_sign (pos n) = inr refl
one_sign (negsuc n) = inl refl

later_by :
    (now due : ℤ) (step : ℕ)
    → IsTime now
    → IsTime due
    → due ≤ℤ now
    → pos_part (sub64 now due) < step
    → step < 2 ^ 62
    → now <ℤ add64 due (pos step)
later_by now due step t d k h b =
    let gap = sub64_parts now due (omega arith, omega arith) (omega arith, omega arith) in
    let jump = add64_parts due (pos step) (omega arith, omega arith) (omega arith, omega arith) in
    elim (one_sign (sub64 now due)) [
      | inl none_left ↦ omega (arith, gap, jump, none_left)
      | inr positive ↦ omega (arith, gap, jump, positive)
    ]

gap_bound :
    (now due : ℤ) → IsTime now → IsTime due → due ≤ℤ now → pos_part (sub64 now due) < 2 ^ 61 + 1
gap_bound now due t d k =
    let gap = sub64_parts now due (omega arith, omega arith) (omega arith, omega arith) in
    elim (one_sign (sub64 now due)) [
      | inl none_left ↦ omega (arith, gap, none_left)
      | inr positive ↦ omega (arith, gap, positive)
    ]

advance_past-due :
    (now : ℤ) (e : TimerEntry)
    → IsTime now
    → IsEntry e
    → 0 < e.interval
    → leb_ℤ e.due now ≡ true
    → now <ℤ (advance_past now e).0.due
unfolding advance_past missed
advance_past-due now e t h p k =
    let live : ((e.interval == 0) || ltb_ℤ now e.due) ≡ false = ground arith in
    let before : e.due ≤ℤ now = ground arith in
    let time : IsTime e.due = (h.late, h.early) in
    let above = next_multiple (pos_part (sub64 now e.due)) e.interval p in
    rw live (
      later_by now e.due ((pos_part (sub64 now e.due) / e.interval + 1) * e.interval) t time before
        above.0 (omega (arith, above.1, gap_bound now e.due t time before, h.interval)))

pop_loop-later :
    (now : ℤ) (es : List TimerEntry)
    → IsTime now
    → All IsEntry es
    → All (λ e. now <ℤ e.due) (pop_loop now es).1
unfolding pop_loop
pop_loop-later now [] t h = h
pop_loop-later now (e ∷ es) t (h, hs) =
    let rest = pop_loop-later now es t hs in
    elim (Bool-cases (leb_ℤ e.due now)) [
      | inl due ↦ elim (Bool-cases (ltb 0 e.interval)) [
        | inl repeats ↦
            rw (due, repeats) (advance_past-due now e t h (ground (arith, repeats)) due, rest)
        | inr once ↦ rw (due, once) rest
      ]
      | inr waits ↦ rw waits (ground (arith, waits), rest)
    ]

-- The events of the entries that are due, in their order.
abbrev pub due_events : ℤ → List TimerEntry → List TimerEvent
due_events now [] = []
due_events now (e ∷ es) =
    let rest = due_events now es in if leb_ℤ e.due now then e.event ∷ rest else rest

pop_loop-due_events : (now : ℤ) (es : List TimerEntry) → (pop_loop now es).0 ≡ due_events now es
unfolding pop_loop
pop_loop-due_events now [] = refl
pop_loop-due_events now (e ∷ es) =
    let rest = pop_loop-due_events now es in
    elim (Bool-cases (leb_ℤ e.due now)) [
      | inl due ↦ rw due (ap (λ t. e.event ∷ t) rest)
      | inr waits ↦ rw waits rest
    ]

-- What fires are the events of exactly the entries that are due, in their order, and every entry that
-- stays in the queue is due later than now, when all times are far from the ends of an `i64`; so the
-- same call again fires nothing.
pub pop_due_lem :
    (now : ℤ) (q : TimerQueue)
    → IsTime now
    → All IsEntry q.entries
    → ((pop_due now q).0 ≡ due_events now q.entries)
      × All (λ e. now <ℤ e.due) (pop_due now q).1.entries
      × ((pop_due now (pop_due now q).1).0 ≡ [])
unfolding pop_due
pop_due_lem now q t h =
    let later = pop_loop-later now q.entries t h in
    (
      pop_loop-due_events now q.entries,
      later,
      pop_loop-due_events now (pop_loop now q.entries).1
          ∙ none_due (pop_loop now q.entries).1 later,
    )
  where
    none_due : (es : List TimerEntry) → All (λ e. now <ℤ e.due) es → due_events now es ≡ []
    none_due [] h = refl
    none_due (e ∷ es) (h, hs) =
        let waits : leb_ℤ e.due now ≡ false = ground arith in rw waits (none_due es hs)
