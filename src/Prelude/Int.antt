-- ===== src/Prelude/Int.antt =====
-- Signed integers over the native numbers, under the library's names, and the wrapping arithmetic of
-- Rust's `i64`. Sums and orders go through the two parts of an integer, which `omega` reads.
use ntpsec_rs.Prelude.{
  ℕ, suc, ◌+◌, ◌-◌, ◌*◌, ◌/◌, ◌%◌, ◌^◌, ◌≤◌, ◌<◌, ◌≡◌, Bool, arith, ltb, leb, if◌then◌else◌,
}

-- `negsuc n` is -(n + 1).
pub data ℤ : Type 0 where
  pos : ℕ → ℤ
  negsuc : ℕ → ℤ

abbrev pub pos_part : ℤ → ℕ
pos_part (pos n) = n
pos_part (negsuc n) = 0

abbrev pub neg_part : ℤ → ℕ
neg_part (pos n) = 0
neg_part (negsuc n) = suc n

-- a - b, as an integer.
abbrev pub sub_ℕ : ℕ → ℕ → ℤ
sub_ℕ a b = if leb b a then pos (a - b) else negsuc (b - a - 1)

infix 50 ◌≤ℤ◌ ◌<ℤ◌
abbrev pub ◌≤ℤ◌ : ℤ → ℤ → Type 0
a ≤ℤ b = pos_part a + neg_part b ≤ pos_part b + neg_part a

abbrev pub ◌<ℤ◌ : ℤ → ℤ → Type 0
a <ℤ b = pos_part a + neg_part b < pos_part b + neg_part a

abbrev pub ltb_ℤ : ℤ → ℤ → Bool
ltb_ℤ a b = ltb (pos_part a + neg_part b) (pos_part b + neg_part a)

abbrev pub leb_ℤ : ℤ → ℤ → Bool
leb_ℤ a b = leb (pos_part a + neg_part b) (pos_part b + neg_part a)

-- `as u64` and `as i64`: the two readings of 64 bits.
unfoldable pub u64_of_ℤ : ℤ → ℕ
u64_of_ℤ (pos n) = n % 2 ^ 64
u64_of_ℤ (negsuc n) = 2 ^ 64 - 1 - n % 2 ^ 64

unfoldable pub i64_of_u64 : ℕ → ℤ
i64_of_u64 w = if ltb w (2 ^ 63) then pos w else negsuc (2 ^ 64 - 1 - w)

-- The value that 64-bit two's complement keeps of a result.
unfoldable pub wrap64 : ℤ → ℤ
unfolding u64_of_ℤ i64_of_u64
wrap64 z = i64_of_u64 (u64_of_ℤ z)

infixl 65 ◌+ℤ◌ ◌-ℤ◌
unfoldable pub ◌+ℤ◌ : ℤ → ℤ → ℤ
a +ℤ b = sub_ℕ (pos_part a + pos_part b) (neg_part a + neg_part b)

unfoldable pub ◌-ℤ◌ : ℤ → ℤ → ℤ
a -ℤ b = sub_ℕ (pos_part a + neg_part b) (neg_part a + pos_part b)

-- `i64` addition and subtraction.
unfoldable pub add64 : ℤ → ℤ → ℤ
unfolding wrap64 ◌+ℤ◌
add64 a b = wrap64 (a +ℤ b)

unfoldable pub sub64 : ℤ → ℤ → ℤ
unfolding wrap64 ◌-ℤ◌
sub64 a b = wrap64 (a -ℤ b)

-- Inside the range of an `i64` the value is kept.
abbrev pub IsI64 : ℤ → Type 0
IsI64 z = (pos_part z < 2 ^ 63) × (neg_part z ≤ 2 ^ 63)

-- Far enough from the ends that one sum or difference stays inside.
abbrev pub IsSmall : ℤ → Type 0
IsSmall z = (pos_part z < 2 ^ 62) × (neg_part z < 2 ^ 62)

pub wrap64-id : (z : ℤ) → IsI64 z → wrap64 z ≡ z
unfolding wrap64
wrap64-id (pos n) h = ground arith
wrap64-id (negsuc n) h = ground arith

pub i64_of_u64-u64_of_ℤ : (z : ℤ) → IsI64 z → i64_of_u64 (u64_of_ℤ z) ≡ z
unfolding u64_of_ℤ i64_of_u64
i64_of_u64-u64_of_ℤ (pos n) h = ground arith
i64_of_u64-u64_of_ℤ (negsuc n) h = ground arith

pub u64_of_ℤ-lt : (z : ℤ) → u64_of_ℤ z < 2 ^ 64
unfolding u64_of_ℤ
u64_of_ℤ-lt (pos n) = omega arith
u64_of_ℤ-lt (negsuc n) = omega arith

-- With these, `omega` works with sums and differences shut.
pub sub64_parts :
    (a b : ℤ)
    → IsSmall a
    → IsSmall b
    → pos_part (sub64 a b) + neg_part a + pos_part b
      ≡ neg_part (sub64 a b) + pos_part a + neg_part b
unfolding sub64
sub64_parts a b p q = rw (wrap64-id (a -ℤ b) (small a b p q)) (exact a b)
  where
    small : (a b : ℤ) → IsSmall a → IsSmall b → IsI64 (a -ℤ b)
    small a b p q = ground arith

    exact :
        (a b : ℤ)
        → pos_part (a -ℤ b) + neg_part a + pos_part b ≡ neg_part (a -ℤ b) + pos_part a + neg_part b
    exact a b = ground arith

pub add64_parts :
    (a b : ℤ)
    → IsSmall a
    → IsSmall b
    → pos_part (add64 a b) + neg_part a + neg_part b
      ≡ neg_part (add64 a b) + pos_part a + pos_part b
unfolding add64
add64_parts a b p q = rw (wrap64-id (a +ℤ b) (small a b p q)) (exact a b)
  where
    small : (a b : ℤ) → IsSmall a → IsSmall b → IsI64 (a +ℤ b)
    small a b p q = ground arith

    exact :
        (a b : ℤ)
        → pos_part (a +ℤ b) + neg_part a + neg_part b ≡ neg_part (a +ℤ b) + pos_part a + pos_part b
    exact a b = ground arith

pub eq_of_parts : (a b : ℤ) → pos_part a + neg_part b ≡ pos_part b + neg_part a → a ≡ b
eq_of_parts a b h = ground arith

-- `/` and `%` of an `i64` by a positive number, which truncate towards zero, and a multiple.
unfoldable pub quot : ℤ → ℕ → ℤ
quot (pos a) n = pos (a / n)
quot (negsuc a) n = sub_ℕ 0 (suc a / n)

unfoldable pub rem : ℤ → ℕ → ℤ
rem (pos a) n = pos (a % n)
rem (negsuc a) n = sub_ℕ 0 (suc a % n)

unfoldable pub times : ℤ → ℕ → ℤ
times (pos a) n = pos (a * n)
times (negsuc a) n = sub_ℕ 0 (suc a * n)
