-- ===== src/Float.antt =====
-- The `f64` of Rust as the daemon computes with it: a parameter of the model, with no law. The order
-- is the one of `PartialOrd`, where a NaN compares with nothing.
pub mod Toy
use ntpsec_rs.Prelude.{ℕ, ◌^◌, Option, none, some, Bool, true, false}
use ntpsec_rs.Prelude.Int.{ℤ}
use ntpsec_rs.Types.{NtpTs64}
use Prim.Native.Nat.{Ordering}

pub record Float : Type 1 where
  pub F : Type 0
  -- `literal m k` is the literal `m` divided by ten to the `k`, as in 0.128.
  pub literal : ℕ → ℕ → F
  -- `as f64`
  pub of_ℕ : ℕ → F
  pub of_ℤ : ℤ → F
  pub infinity : F
  pub add : F → F → F
  pub sub : F → F → F
  pub mul : F → F → F
  pub div : F → F → F
  pub sqrt : F → F
  pub abs : F → F
  pub max : F → F → F
  pub min : F → F → F
  pub neg : F → F
  -- `v.clamp(lo, hi)` with the value last
  pub clamp : F → F → F → F
  pub powi : F → ℤ → F
  pub fract : F → F
  -- The integer part, which is 0 for a NaN and for what is below 1.
  pub trunc : F → ℕ
  pub is_finite : F → Bool
  pub partial_cmp : F → F → Option Ordering

module _ (f : Float) where
  abbrev pub zero : f.F
  zero = f.literal 0 0

  -- `a < b`, `a > b`, `a <= b` and `a >= b`
  abbrev pub lt : f.F → f.F → Bool
  lt a b = elim (f.partial_cmp a b) [ some Ordering.lt ↦ true | _ ↦ false ]

  abbrev pub gt : f.F → f.F → Bool
  gt a b = elim (f.partial_cmp a b) [ some Ordering.gt ↦ true | _ ↦ false ]

  abbrev pub le : f.F → f.F → Bool
  le a b = elim (f.partial_cmp a b) [
    | some Ordering.lt ↦ true
    | some Ordering.eq ↦ true
    | _ ↦ false
  ]

  abbrev pub ge : f.F → f.F → Bool
  ge a b = elim (f.partial_cmp a b) [
    | some Ordering.gt ↦ true
    | some Ordering.eq ↦ true
    | _ ↦ false
  ]

  -- `partial_cmp(..).unwrap_or(Equal)`
  abbrev pub cmp_or_equal : f.F → f.F → Ordering
  cmp_or_equal a b = elim (f.partial_cmp a b) [ none ↦ Ordering.eq | some o ↦ o ]

  -- `ntp_ts64_to_double` of ntp_fp.rs
  unfoldable pub ntp_ts64_to_double : NtpTs64 → f.F
  ntp_ts64_to_double ts = f.add (f.of_ℤ ts.seconds) (f.div (f.of_ℕ ts.fraction) (f.of_ℕ (2 ^ 32)))
