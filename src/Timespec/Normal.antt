-- ===== src/Timespec/Normal.antt =====
-- Normalisation keeps the time and brings the nanoseconds below one second.
use ntpsec_rs.Prelude.{
  ◌+◌, ◌-◌, ◌*◌, ◌^◌, ◌<◌, ◌≡◌, ◌⊎◌, refl, arith, ◌||◌, ◌&&◌, Bool-cases, inl, inr,
}
use ntpsec_rs.Prelude.Int.{
  ℤ, pos, negsuc, pos_part, neg_part, ltb_ℤ, leb_ℤ, add64, sub64, add64_parts, sub64_parts, quot,
  rem,
}
use ntpsec_rs.Timespec.{NtpTimespec, ns_per_sec, carry, borrow, normalize}

-- Far enough from the ends of an `i64` that no sum of two wraps.
abbrev pub IsNear : NtpTimespec → Type 0
IsNear t =
    (pos_part t.seconds < 2 ^ 60)
    × (neg_part t.seconds < 2 ^ 60)
    × (pos_part t.nanos < 2 ^ 60)
    × (neg_part t.nanos < 2 ^ 60)

-- The same time, compared without subtraction.
abbrev pub IsSame : NtpTimespec → NtpTimespec → Type 0
IsSame a b =
    pos_part a.seconds * ns_per_sec
      + pos_part a.nanos
      + (neg_part b.seconds * ns_per_sec + neg_part b.nanos)
    ≡ pos_part b.seconds * ns_per_sec
      + pos_part b.nanos
      + (neg_part a.seconds * ns_per_sec + neg_part a.nanos)

quot-rem :
    (z : ℤ)
    → (pos_part (quot z ns_per_sec) * ns_per_sec + pos_part (rem z ns_per_sec) ≡ pos_part z)
      × (neg_part (quot z ns_per_sec) * ns_per_sec + neg_part (rem z ns_per_sec) ≡ neg_part z)
      × (pos_part (rem z ns_per_sec) < ns_per_sec)
      × (neg_part (rem z ns_per_sec) < ns_per_sec)
unfolding quot rem
quot-rem (pos n) = (omega arith, omega arith, omega arith, omega arith)
quot-rem (negsuc n) = ground arith

one_side : (z : ℤ) → (pos_part z ≡ 0) ⊎ (neg_part z ≡ 0)
one_side (pos n) = inr refl
one_side (negsuc n) = inl refl

-- What the first part gives.
record IsCarried (a b : NtpTimespec) : Type 0 where
  pub same : IsSame a b
  pub below : pos_part b.nanos < ns_per_sec
  pub above : neg_part b.nanos < ns_per_sec
  pub seconds_pos : pos_part b.seconds < 2 ^ 62
  pub seconds_neg : neg_part b.seconds < 2 ^ 62

carry-IsCarried : (t : NtpTimespec) → IsNear t → IsCarried t (carry t)
unfolding carry
carry-IsCarried t h =
    elim (Bool-cases (leb_ℤ (pos ns_per_sec) t.nanos || leb_ℤ t.nanos (negsuc (ns_per_sec - 1)))) [
      | inl e ↦ rw e (
          let parts = quot-rem t.nanos in
          let sum =
            add64_parts t.seconds (quot t.nanos ns_per_sec) (omega arith, omega arith)
              (omega (arith, parts), omega (arith, parts)) in
          let one = one_side (add64 t.seconds (quot t.nanos ns_per_sec)) in
          record {
            same = omega (arith, sum, parts);
            below = omega (arith, parts);
            above = omega (arith, parts);
            seconds_pos = omega (arith, sum, parts, one);
            seconds_neg = omega (arith, sum, parts, one);
          })
      | inr e ↦ rw e (record {
        same = refl;
        below = ground (arith, e);
        above = ground (arith, e);
        seconds_pos = omega arith;
        seconds_neg = omega arith;
      })
    ]

-- The nanoseconds stay below one second to both sides, and have the sign of the seconds unless these
-- are zero.
pub record IsNormal (t : NtpTimespec) : Type 0 where
  pub below : pos_part t.nanos < ns_per_sec
  pub above : neg_part t.nanos < ns_per_sec
  pub later : 0 < pos_part t.seconds → neg_part t.nanos ≡ 0
  pub earlier : 0 < neg_part t.seconds → pos_part t.nanos ≡ 0

borrow-IsNormal : (t b : NtpTimespec) → IsCarried t b → IsSame t (borrow b) × IsNormal (borrow b)
unfolding borrow
borrow-IsNormal t b h = elim (Bool-cases (ltb_ℤ (pos 0) b.seconds && ltb_ℤ b.nanos (pos 0))) [
  | inl e ↦
      let secs =
        sub64_parts b.seconds (pos 1) (h.seconds_pos, h.seconds_neg) (omega arith, omega arith) in
      let nanos =
        add64_parts b.nanos (pos ns_per_sec) (omega (arith, h.below), omega (arith, h.above))
          (omega arith, omega arith) in
      let side = one_side (sub64 b.seconds (pos 1)) in
      let other = one_side (add64 b.nanos (pos ns_per_sec)) in
      let late : 0 < pos_part b.seconds = ground (arith, e, one_side b.seconds) in
      let back : 0 < neg_part b.nanos = ground (arith, e, one_side b.nanos) in
      let one = one_side b.seconds in
      let two = one_side b.nanos in
      rw e (
        omega (arith, secs, nanos, side, other, one, two, late, back, h.same),
        record {
          below = omega (arith, nanos, other, two, back, h.above);
          above = omega (arith, nanos, other, two, back, h.above);
          later = λ k. omega (arith, nanos, other, two, back, h.above);
          earlier = λ k. absurd (omega (arith, secs, side, one, late, k));
        },
      )
  | inr e ↦ elim (Bool-cases (ltb_ℤ b.seconds (pos 0) && ltb_ℤ (pos 0) b.nanos)) [
    | inl d ↦
        let secs =
          add64_parts b.seconds (pos 1) (h.seconds_pos, h.seconds_neg) (omega arith, omega arith) in
        let nanos =
          sub64_parts b.nanos (pos ns_per_sec) (omega (arith, h.below), omega (arith, h.above))
            (omega arith, omega arith) in
        let side = one_side (add64 b.seconds (pos 1)) in
        let other = one_side (sub64 b.nanos (pos ns_per_sec)) in
        let early : 0 < neg_part b.seconds = ground (arith, d, one_side b.seconds) in
        let forth : 0 < pos_part b.nanos = ground (arith, d, one_side b.nanos) in
        let one = one_side b.seconds in
        let two = one_side b.nanos in
        rw (e, d)
          (
            omega (arith, secs, nanos, side, other, one, two, early, forth, h.same),
            record {
              below = omega (arith, nanos, other, two, forth, h.below);
              above = omega (arith, nanos, other, two, forth, h.below);
              later = λ k. absurd (omega (arith, secs, side, one, early, k));
              earlier = λ k. omega (arith, nanos, other, two, forth, h.below);
            },
          )
    | inr d ↦
        rw (e, d)
          (
            h.same,
            record {
              below = h.below;
              above = h.above;
              later = λ k. ground (arith, e, one_side b.seconds, one_side b.nanos);
              earlier = λ k. ground (arith, d, one_side b.seconds, one_side b.nanos);
            },
          )
  ]
]

-- A time whose parts are within 2 ^ 60 is the same after normalisation, its nanoseconds are below one
-- second, and they have the sign of the seconds unless these are zero.
pub normalize-IsNormal :
    (t : NtpTimespec) → IsNear t → IsSame t (normalize t) × IsNormal (normalize t)
unfolding normalize
normalize-IsNormal t h = borrow-IsNormal t (carry t) (carry-IsCarried t h)
