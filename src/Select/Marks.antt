-- ===== src/Select/Marks.antt =====
-- The flash bits that the intersection and the reachability test set and clear.
use ntpsec_rs.Prelude.{
  ℕ, ◌+◌, ◌-◌, ◌^◌, ◌≡◌, refl, ap, arith, bit_and, Option, List, [], ◌∷◌, is_empty, ◌==◌, map,
  if◌then◌else◌, true, false, Bool-cases, inl, inr, ==_iff,
}
use ntpsec_rs.Prelude.Bits.{bit, bit-or, bit-and, bit-le-one, bit_of_zero}
use ntpsec_rs.Types.{NtpTs64}
use ntpsec_rs.Float.{Float}
use ntpsec_rs.Peer.{Peer}
use ntpsec_rs.Select.{test5, test9, fail, set_flag, clear_flag, passes}
use ntpsec_rs.Select.Intersection.{
  overlaps, mark, count_survivors, intersection_of, clock_intersection,
}

test5_set : (x : ℕ) → bit 4 (set_flag test5 x) ≡ 1
unfolding set_flag bit
test5_set x = omega (arith, bit-or 4 x test5, bit-le-one 4 x)

test5_cleared : (x : ℕ) → bit 4 (clear_flag test5 x) ≡ 0
unfolding clear_flag bit
test5_cleared x = omega (arith, bit-and 4 x (2 ^ 32 - 1 - test5))

pub test9_set : (x : ℕ) → bit 8 (set_flag test9 x) ≡ 1
unfolding set_flag bit
test9_set x = omega (arith, bit-or 8 x test9, bit-le-one 8 x)

test9-set_test5 : (x : ℕ) → bit 8 (set_flag test5 x) ≡ bit 8 x
unfolding set_flag bit
test9-set_test5 x = omega (arith, bit-or 8 x test5)

test9-clear_test5 : (x : ℕ) → bit 8 (clear_flag test5 x) ≡ bit 8 x
unfolding clear_flag bit
test9-clear_test5 x = omega (arith, bit-and 8 x (2 ^ 32 - 1 - test5), bit-le-one 8 x)

pub passes_test9 : (x : ℕ) → passes x ≡ true → bit 8 x ≡ 0
unfolding passes bit
passes_test9 x h =
    let none_set : bit_and x fail ≡ 0 = (==_iff (bit_and x fail) 0).0 h in
    omega (arith, bit-and 8 x fail, ap (bit 8) none_set, bit_of_zero 8)

module _ (f : Float) where
  -- The peers but for their flash bits.
  abbrev pub forget_flash : Peer f → Peer f
  forget_flash p = record p { flash = 0 }

  -- How many peers do not have TEST5.
  abbrev pub count_clear : List (Peer f) → ℕ
  count_clear [] = 0
  count_clear (p ∷ ps) = let rest = count_clear ps in if bit 4 p.flash == 0 then rest + 1 else rest

  count_survivors-mark :
      (now : NtpTs64) (interval : Option (f.F × f.F)) (peers : List (Peer f))
      → count_survivors f now interval peers ≡ count_clear (map (mark f now interval) peers)
  unfolding count_survivors mark
  count_survivors-mark now interval [] = refl
  count_survivors-mark now interval (p ∷ ps) = elim (Bool-cases (overlaps f now interval p)) [
    | inl e ↦ rw (e, test5_cleared p.flash) (ap (λ t. t + 1) (count_survivors-mark now interval ps))
    | inr e ↦ rw (e, test5_set p.flash) (count_survivors-mark now interval ps)
  ]

  mark_forget :
      (now : NtpTs64) (interval : Option (f.F × f.F)) (p : Peer f)
      → forget_flash (mark f now interval p) ≡ forget_flash p
  unfolding mark
  mark_forget now interval p = elim (Bool-cases (overlaps f now interval p)) [
    | inl e ↦ rw e refl
    | inr e ↦ rw e refl
  ]

  pub mark_test9 :
      (now : NtpTs64) (interval : Option (f.F × f.F)) (p : Peer f)
      → bit 8 (mark f now interval p).flash ≡ bit 8 p.flash
  unfolding mark
  mark_test9 now interval p = elim (Bool-cases (overlaps f now interval p)) [
    | inl e ↦ rw e (test9-clear_test5 p.flash)
    | inr e ↦ rw e (test9-set_test5 p.flash)
  ]

  forget_all :
      (now : NtpTs64) (interval : Option (f.F × f.F)) (peers : List (Peer f))
      → map forget_flash (map (mark f now interval) peers) ≡ map forget_flash peers
  forget_all now interval [] = refl
  forget_all now interval (p ∷ ps) =
      λ i. mark_forget now interval p i ∷ forget_all now interval ps i

  test9_all :
      (now : NtpTs64) (interval : Option (f.F × f.F)) (peers : List (Peer f))
      → map (λ p. bit 8 p.flash) (map (mark f now interval) peers) ≡ map (λ p. bit 8 p.flash) peers
  test9_all now interval [] = refl
  test9_all now interval (p ∷ ps) = λ i. mark_test9 now interval p i ∷ test9_all now interval ps i

  -- The intersection returns the number of the peers that it leaves without TEST5. It changes nothing
  -- of a peer but its flash bits, and of these not TEST9.
  pub clock_intersection-count_clear :
      (now : NtpTs64) (peers : List (Peer f))
      → is_empty peers ≡ false
      → ((clock_intersection f now peers).0 ≡ count_clear (clock_intersection f now peers).1)
        × (map forget_flash (clock_intersection f now peers).1 ≡ map forget_flash peers)
        × (map (λ p. bit 8 p.flash) (clock_intersection f now peers).1
            ≡ map (λ p. bit 8 p.flash) peers)
  unfolding clock_intersection
  clock_intersection-count_clear now peers h =
      let interval = intersection_of f now peers in
      rw h (
        count_survivors-mark now interval peers,
        forget_all now interval peers,
        test9_all now interval peers,
      )
