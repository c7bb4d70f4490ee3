-- ===== src/Prelude/Bits.antt =====
-- Bit fields of a word as arithmetic. A shift is `/` or `*` by a power of two, a low mask is `%`,
-- and `|` is the native `bit_or`, whose laws at variables are proved here.
use Prim.Native.Nat.{ℕ, zero, suc, ◌+◌, ◌*◌, ◌/◌, ◌%◌, ◌^◌, ◌≤◌, ◌<◌, min, max}
use Prim.Native.Nat.{bit_and, bit_or, bit_xor, digits, differ, bit_xor-bitwise}
use Prim.Native.Nat.{bit_and-bitwise, bit_or-bitwise}
use native.Mathlib.Nat.{pow-suc, div-div-eq-div-mul}
use mathlib.Core.Path.{◌≡◌, refl, ap, sym, ◌∙◌}
use native.Mathlib.Omega.{arith}

-- x >> k and the low k bits of x.
abbrev pub shr : ℕ → ℕ → ℕ
shr x k = x / 2 ^ k

abbrev pub low : ℕ → ℕ → ℕ
low x k = x % 2 ^ k

-- Bit i of x.
unfoldable pub bit : ℕ → ℕ → ℕ
bit i x = x / 2 ^ i % 2

module _ (f : ℕ → ℕ → ℕ) (z : ℕ → ℕ) where
  enough_digits : (n m a b : ℕ) → a ≤ n → a ≤ m → digits z f n a b ≡ digits z f m a b
  enough_digits zero zero zero b p q = refl
  enough_digits zero zero (suc a) b p q = absurd (omega arith)
  enough_digits zero (suc m) zero b p q = refl
  enough_digits zero (suc m) (suc a) b p q = absurd (omega arith)
  enough_digits (suc n) zero zero b p q = refl
  enough_digits (suc n) zero (suc a) b p q = absurd (omega arith)
  enough_digits (suc n) (suc m) zero b p q = refl
  enough_digits (suc n) (suc m) (suc a) b p q =
      ap (λ t. t * 2 + f (suc a % 2) (b % 2))
        (enough_digits n m (suc a / 2) (b / 2) (omega arith) (omega arith))

pub or_step : (a b : ℕ) → bit_or a b ≡ bit_or (a / 2) (b / 2) * 2 + max (a % 2) (b % 2)
or_step zero b = omega (arith, bit_or-bitwise 0 b, bit_or-bitwise 0 (b / 2))
or_step (suc a) b = omega (
  arith,
  bit_or-bitwise (suc a) b,
  bit_or-bitwise (suc a / 2) (b / 2),
  enough_digits max (λ y. y) a (suc a / 2) (suc a / 2) (b / 2) (omega arith) (omega arith),
)

pub and_step : (a b : ℕ) → bit_and a b ≡ bit_and (a / 2) (b / 2) * 2 + min (a % 2) (b % 2)
and_step zero b = omega (arith, bit_and-bitwise 0 b, bit_and-bitwise 0 (b / 2))
and_step (suc a) b = omega (
  arith,
  bit_and-bitwise (suc a) b,
  bit_and-bitwise (suc a / 2) (b / 2),
  enough_digits min (λ y. 0) a (suc a / 2) (suc a / 2) (b / 2) (omega arith) (omega arith),
)

zero-or_fuel : (n a : ℕ) → a ≤ n → bit_or 0 a ≡ a
zero-or_fuel n zero h = refl
zero-or_fuel zero (suc a) h = absurd (omega arith)
zero-or_fuel (suc n) (suc a) h =
    omega (arith, or_step 0 (suc a), zero-or_fuel n (suc a / 2) (omega arith))

pub zero-or : (a : ℕ) → bit_or 0 a ≡ a
zero-or a = zero-or_fuel a a (omega arith)

or-zero_fuel : (n a : ℕ) → a ≤ n → bit_or a 0 ≡ a
or-zero_fuel n zero h = refl
or-zero_fuel zero (suc a) h = absurd (omega arith)
or-zero_fuel (suc n) (suc a) h =
    omega (arith, or_step (suc a) 0, or-zero_fuel n (suc a / 2) (omega arith))

pub or-zero : (a : ℕ) → bit_or a 0 ≡ a
or-zero a = or-zero_fuel a a (omega arith)

and-zero_fuel : (n a : ℕ) → a ≤ n → bit_and a 0 ≡ 0
and-zero_fuel n zero h = refl
and-zero_fuel zero (suc a) h = absurd (omega arith)
and-zero_fuel (suc n) (suc a) h =
    omega (arith, and_step (suc a) 0, and-zero_fuel n (suc a / 2) (omega arith))

pub and-zero : (a : ℕ) → bit_and a 0 ≡ 0
and-zero a = and-zero_fuel a a (omega arith)

-- Two fields that do not overlap are put together by a sum.
pub or_fields : (k q r : ℕ) → r < 2 ^ k → bit_or (q * 2 ^ k) r ≡ q * 2 ^ k + r
or_fields zero q r h = let e : r ≡ 0 = omega arith in rw e (omega (arith, or-zero (q * 2 ^ 0)))
or_fields (suc k) q r h = omega (
  arith,
  or_step (q * 2 ^ suc k) r,
  pow-suc 2 k,
  ap (λ (t : ℕ). q * t) (pow-suc 2 k),
  ap (λ (t : ℕ). bit_or t (r / 2)) (half_shifted k q),
  or_fields k q (r / 2) (omega (arith, pow-suc 2 k)),
)
  where
    half_shifted : (k q : ℕ) → q * 2 ^ suc k / 2 ≡ q * 2 ^ k
    half_shifted k q = omega (arith, ap (λ (t : ℕ). q * t) (pow-suc 2 k))

bit-half : (i x : ℕ) → bit (suc i) x ≡ bit i (x / 2)
unfolding bit
bit-half i x =
    ap (λ t. t % 2)
      (ap (λ (t : ℕ). x / t) (omega (arith, pow-suc 2 i)) ∙ sym (div-div-eq-div-mul x 2 (2 ^ i)))

bit-zero : (x : ℕ) → bit 0 x ≡ x % 2
unfolding bit
bit-zero x = omega arith

-- A bit of `a | b` is the larger of the two bits.
pub bit-or : (i a b : ℕ) → bit i (bit_or a b) ≡ max (bit i a) (bit i b)
bit-or zero a b = omega (arith, bit-zero (bit_or a b), bit-zero a, bit-zero b, or_step a b)
bit-or (suc i) a b = omega (
  arith,
  bit-half i (bit_or a b),
  bit-half i a,
  bit-half i b,
  bit-or i (a / 2) (b / 2),
  ap (bit i) (half_or a b),
)
  where
    half_or : (a b : ℕ) → bit_or a b / 2 ≡ bit_or (a / 2) (b / 2)
    half_or a b = omega (arith, or_step a b)

-- `a & (1 << i)` is bit i of `a`, in its place.
pub and_pow : (i a : ℕ) → bit_and a (2 ^ i) ≡ bit i a * 2 ^ i
and_pow zero a = omega (arith, and_step a 1, and-zero (a / 2), bit-zero a)
and_pow (suc i) a = omega (
  arith,
  and_step a (2 ^ suc i),
  pow-suc 2 i,
  ap (λ (t : ℕ). bit_and (a / 2) t) (half_pow i),
  and_pow i (a / 2),
  ap (λ (t : ℕ). t * 2 ^ i) (bit-half i a),
  ap (λ (t : ℕ). bit (suc i) a * t) (pow-suc 2 i),
)
  where
    half_pow : (i : ℕ) → 2 ^ suc i / 2 ≡ 2 ^ i
    half_pow i = omega (arith, pow-suc 2 i)

pub bit-le-one : (i x : ℕ) → bit i x ≤ 1
unfolding bit
bit-le-one i x = omega arith

pub xor_step : (a b : ℕ) → bit_xor a b ≡ bit_xor (a / 2) (b / 2) * 2 + differ (a % 2) (b % 2)
xor_step zero b = omega (arith, bit_xor-bitwise 0 b, bit_xor-bitwise 0 (b / 2))
xor_step (suc a) b = omega (
  arith,
  bit_xor-bitwise (suc a) b,
  bit_xor-bitwise (suc a / 2) (b / 2),
  enough_digits differ (λ y. y) a (suc a / 2) (suc a / 2) (b / 2) (omega arith) (omega arith),
)

differ_self : (a : ℕ) → differ a a ≡ 0
differ_self zero = refl
differ_self (suc a) = differ_self a

differ-zero : (a b : ℕ) → differ a b ≡ 0 → a ≡ b
differ-zero zero zero h = refl
differ-zero zero (suc b) h = absurd (omega arith)
differ-zero (suc a) zero h = absurd (omega arith)
differ-zero (suc a) (suc b) h = ap suc (differ-zero a b h)

xor_self_fuel : (n a : ℕ) → a ≤ n → bit_xor a a ≡ 0
xor_self_fuel n zero h = refl
xor_self_fuel zero (suc a) h = absurd (omega arith)
xor_self_fuel (suc n) (suc a) h = omega (
  arith,
  xor_step (suc a) (suc a),
  xor_self_fuel n (suc a / 2) (omega arith),
  differ_self (suc a % 2),
)

pub xor_self : (a : ℕ) → bit_xor a a ≡ 0
xor_self a = xor_self_fuel a a (omega arith)

eq_of_xor_fuel : (n a b : ℕ) → a + b ≤ n → bit_xor a b ≡ 0 → a ≡ b
eq_of_xor_fuel n zero zero h e = refl
eq_of_xor_fuel zero (suc a) b h e = absurd (omega arith)
eq_of_xor_fuel zero zero (suc b) h e = absurd (omega arith)
eq_of_xor_fuel (suc n) (suc a) b h e = omega (
  arith,
  eq_of_xor_fuel n (suc a / 2) (b / 2) (omega arith) (omega (arith, xor_step (suc a) b)),
  differ-zero (suc a % 2) (b % 2) (omega (arith, xor_step (suc a) b)),
)
eq_of_xor_fuel (suc n) zero (suc b) h e = omega (
  arith,
  eq_of_xor_fuel n (0 / 2) (suc b / 2) (omega arith) (omega (arith, xor_step 0 (suc b))),
  differ-zero (0 % 2) (suc b % 2) (omega (arith, xor_step 0 (suc b))),
)

-- Only equal numbers have no bit that differs.
pub eq_of_xor : (a b : ℕ) → bit_xor a b ≡ 0 → a ≡ b
eq_of_xor a b e = eq_of_xor_fuel (a + b) a b (omega arith) e

zeros_of_or_fuel : (n a b : ℕ) → a + b ≤ n → bit_or a b ≡ 0 → (a ≡ 0) × (b ≡ 0)
zeros_of_or_fuel n zero zero h e = (refl, refl)
zeros_of_or_fuel zero (suc a) b h e = absurd (omega arith)
zeros_of_or_fuel zero zero (suc b) h e = absurd (omega arith)
zeros_of_or_fuel (suc n) (suc a) b h e =
    let halves =
      zeros_of_or_fuel n (suc a / 2) (b / 2) (omega arith) (omega (arith, or_step (suc a) b)) in
    (omega (arith, or_step (suc a) b, halves.0), omega (arith, or_step (suc a) b, halves.1))
zeros_of_or_fuel (suc n) zero (suc b) h e = (refl, omega (arith, zero-or (suc b)))

pub zeros_of_or : (a b : ℕ) → bit_or a b ≡ 0 → (a ≡ 0) × (b ≡ 0)
zeros_of_or a b e = zeros_of_or_fuel (a + b) a b (omega arith) e

-- Zero has no bit.
pub bit_of_zero : (i : ℕ) → bit i 0 ≡ 0
bit_of_zero zero = bit-zero 0
bit_of_zero (suc i) = bit-half i 0 ∙ bit_of_zero i

-- A bit of `a & b` is the smaller of the two bits.
pub bit-and : (i a b : ℕ) → bit i (bit_and a b) ≡ min (bit i a) (bit i b)
bit-and zero a b = omega (arith, bit-zero (bit_and a b), bit-zero a, bit-zero b, and_step a b)
bit-and (suc i) a b = omega (
  arith,
  bit-half i (bit_and a b),
  bit-half i a,
  bit-half i b,
  bit-and i (a / 2) (b / 2),
  ap (bit i) (half_and a b),
)
  where
    half_and : (a b : ℕ) → bit_and a b / 2 ≡ bit_and (a / 2) (b / 2)
    half_and a b = omega (arith, and_step a b)
