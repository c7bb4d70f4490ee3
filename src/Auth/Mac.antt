-- ===== src/Auth/Mac.antt =====
-- The check of a MAC compares it with the computed one.
use ntpsec_rs.Prelude.{
  ℕ, ◌≡◌, refl, ap, subst, Option, none, some, List, [], ◌∷◌, arith, length, true, ◌&&◌, ◌==◌, ◌↔◌,
  bit_or, bit_xor, some_eq, ==_refl,
}
use ntpsec_rs.Prelude.Bits.{xor_self, eq_of_xor, zeros_of_or}
use ntpsec_rs.Auth.{Digests, NtpAuthKey, differences, mac, mac_is, verify_mac}

differences_self : (xs : List ℕ) → differences 0 xs xs ≡ 0
unfolding differences
differences_self [] = refl
differences_self (x ∷ xs) = rw (xor_self x) (differences_self xs)

differences-acc : (acc : ℕ) (xs ys : List ℕ) → differences acc xs ys ≡ 0 → acc ≡ 0
unfolding differences
differences-acc acc [] ys h = h
differences-acc acc (x ∷ xs) [] h = h
differences-acc acc (x ∷ xs) (y ∷ ys) h =
    (zeros_of_or acc (bit_xor x y) (differences-acc (bit_or acc (bit_xor x y)) xs ys h)).0

eq_of_differences :
    (acc : ℕ) (xs ys : List ℕ) → length xs ≡ length ys → differences acc xs ys ≡ 0 → xs ≡ ys
unfolding differences
eq_of_differences acc [] [] l h = refl
eq_of_differences acc [] (y ∷ ys) l h = absurd (omega arith)
eq_of_differences acc (x ∷ xs) [] l h = absurd (omega arith)
eq_of_differences acc (x ∷ xs) (y ∷ ys) l h =
    let seen = zeros_of_or acc (bit_xor x y) (differences-acc (bit_or acc (bit_xor x y)) xs ys h) in
    λ i.
      eq_of_xor x y seen.1 i ∷ eq_of_differences (bit_or acc (bit_xor x y)) xs ys (omega arith) h i

mac_is_iff :
    (o : Option (List ℕ)) (expected : List ℕ) → (mac_is o expected ≡ true) ↔ (o ≡ some expected)
unfolding mac_is
mac_is_iff none expected = (λ h. cc, λ h. cc)
mac_is_iff (some computed) expected = (forward, backward)
  where
    forward :
        ((length computed == length expected) && (differences 0 computed expected == 0)) ≡ true
        → some computed ≡ some expected
    forward h = ap some (eq_of_differences 0 computed expected (ground arith) (ground arith))

    backward :
        some computed ≡ some expected
        → ((length computed == length expected) && (differences 0 computed expected == 0)) ≡ true
    backward h =
        subst (λ t. ((length computed == length t) && (differences 0 computed t == 0)) ≡ true)
          (some_eq h) (rw (==_refl (length computed), differences_self computed) refl)

module _ (digests : Digests) where
  -- A MAC is accepted exactly if it is the one that the key computes over the packet.
  pub verify_mac_iff :
      (key : NtpAuthKey) (pkt expected : List ℕ)
      → (verify_mac digests key pkt expected ≡ true) ↔ (mac digests key pkt ≡ some expected)
  unfolding verify_mac
  verify_mac_iff key pkt expected = mac_is_iff (mac digests key pkt) expected
