-- ===== src/Float/Toy.antt =====
-- Natural numbers in place of `f64`, for the examples.
use ntpsec_rs.Prelude.{◌+◌, ◌-◌, ◌*◌, ◌/◌, ◌^◌, ℕ, min, max, some, true}
use ntpsec_rs.Prelude.Int.{pos_part}
use ntpsec_rs.Float.{Float}
use Prim.Native.Nat.{compare}

abbrev pub toy : Float
toy = record {
  F = ℕ;
  literal = λ m k. m / 10 ^ k;
  of_ℕ = λ n. n;
  of_ℤ = λ z. pos_part z;
  infinity = 0;
  add = λ a b. a + b;
  sub = λ a b. a - b;
  mul = λ a b. a * b;
  div = λ a b. a / b;
  sqrt = λ a. a;
  abs = λ a. a;
  max = λ a b. max a b;
  min = λ a b. min a b;
  neg = λ a. a;
  clamp = λ lo hi a. min (max a lo) hi;
  powi = λ a n. a ^ pos_part n;
  fract = λ a. 0;
  trunc = λ a. a;
  is_finite = λ a. true;
  partial_cmp = λ a b. some (compare a b);
}
