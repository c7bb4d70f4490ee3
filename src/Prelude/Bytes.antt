-- ===== src/Prelude/Bytes.antt =====
-- Byte strings as lists of numbers below 256, with the big-endian forms of Rust's `to_be_bytes` and
-- `from_be_bytes`.
use ntpsec_rs.Prelude.{
  ℕ, zero, suc, ◌+◌, ◌-◌, ◌*◌, ◌/◌, ◌%◌, ◌^◌, ◌≤◌, ◌<◌, ◌≡◌, refl, ap, List, [], ◌∷◌, ◌++◌, arith,
  length, get_or, take, drop, All, Bool, true, false, ◌&&◌, ◌==◌,
}

abbrev pub IsByte : ℕ → Type 0
IsByte b = b < 256

abbrev pub IsU16 : ℕ → Type 0
IsU16 n = n < 2 ^ 16

abbrev pub IsU32 : ℕ → Type 0
IsU32 n = n < 2 ^ 32

abbrev pub be16 : ℕ → List ℕ
be16 n = n / 2 ^ 8 % 256 ∷ n % 256 ∷ []

abbrev pub be32 : ℕ → List ℕ
be32 n = n / 2 ^ 24 % 256 ∷ n / 2 ^ 16 % 256 ∷ n / 2 ^ 8 % 256 ∷ n % 256 ∷ []

unfoldable pub from_be16 : ℕ → ℕ → ℕ
from_be16 a b = a * 2 ^ 8 + b

unfoldable pub from_be32 : ℕ → ℕ → ℕ → ℕ → ℕ
from_be32 a b c d = a * 2 ^ 24 + b * 2 ^ 16 + c * 2 ^ 8 + d

-- `data[i]`, at an index that the code has checked.
abbrev pub byte_at : List ℕ → ℕ → ℕ
byte_at bs i = get_or bs i 0

-- `data[from..to]`
abbrev pub slice : List ℕ → ℕ → ℕ → List ℕ
slice bs from to = take (to - from) (drop from bs)

pub from_be16-be16 : (n : ℕ) → IsU16 n → from_be16 (n / 2 ^ 8 % 256) (n % 256) ≡ n
unfolding from_be16
from_be16-be16 n h = omega arith

pub from_be32-be32 :
    (n : ℕ)
    → IsU32 n
    → from_be32 (n / 2 ^ 24 % 256) (n / 2 ^ 16 % 256) (n / 2 ^ 8 % 256) (n % 256) ≡ n
unfolding from_be32
from_be32-be32 n h = omega arith

pub from_be16-lt : (a b : ℕ) → IsByte a → IsByte b → IsU16 (from_be16 a b)
unfolding from_be16
from_be16-lt a b p q = omega arith

pub from_be32-lt :
    (a b c d : ℕ) → IsByte a → IsByte b → IsByte c → IsByte d → IsU32 (from_be32 a b c d)
unfolding from_be32
from_be32-lt a b c d p q r s = omega arith

pub be16-from_be16 : (a b : ℕ) → IsByte a → IsByte b → be16 (from_be16 a b) ≡ a ∷ b ∷ []
unfolding from_be16
be16-from_be16 a b p q = ground arith

pub be32-from_be32 :
    (a b c d : ℕ)
    → IsByte a
    → IsByte b
    → IsByte c
    → IsByte d
    → be32 (from_be32 a b c d) ≡ a ∷ b ∷ c ∷ d ∷ []
unfolding from_be32
be32-from_be32 a b c d p q r s = ground arith

-- The bytes from index `i` on, read one by one.
abbrev pub window : List ℕ → ℕ → ℕ → List ℕ
window bs i zero = []
window bs i (suc n) = byte_at bs i ∷ window bs (suc i) n

window-suc : (b : ℕ) (bs : List ℕ) (i n : ℕ) → window (b ∷ bs) (suc i) n ≡ window bs i n
window-suc b bs i zero = refl
window-suc b bs i (suc n) = ap (λ t. byte_at bs i ∷ t) (window-suc b bs (suc i) n)

-- Reading the first `n` bytes one by one is taking a prefix.
pub window-eq-take : (n : ℕ) (bs : List ℕ) → n ≤ length bs → window bs 0 n ≡ take n bs
window-eq-take zero bs h = refl
window-eq-take (suc n) [] h = absurd (omega arith)
window-eq-take (suc n) (b ∷ bs) h =
    ap (λ t. b ∷ t) (ground (arith, window-suc b bs 0 n, window-eq-take n bs))

pub IsByte-byte_at : (bs : List ℕ) (i : ℕ) → All IsByte bs → IsByte (byte_at bs i)
IsByte-byte_at [] i h = omega arith
IsByte-byte_at (b ∷ bs) zero h = h.0
IsByte-byte_at (b ∷ bs) (suc i) h = IsByte-byte_at bs i h.1

-- The eight bytes of an `i64` or a `u64`.
abbrev pub be64 : ℕ → List ℕ
be64 n = be32 (n / 2 ^ 32 % 2 ^ 32) ++ be32 (n % 2 ^ 32)

-- `==` on byte strings.
unfoldable pub same_bytes : List ℕ → List ℕ → Bool
same_bytes [] [] = true
same_bytes [] (y ∷ ys) = false
same_bytes (x ∷ xs) [] = false
same_bytes (x ∷ xs) (y ∷ ys) = (x == y) && same_bytes xs ys

pub same_bytes_refl : (xs : List ℕ) → same_bytes xs xs ≡ true
unfolding same_bytes
same_bytes_refl [] = refl
same_bytes_refl (x ∷ xs) = ground (arith, same_bytes_refl xs)
