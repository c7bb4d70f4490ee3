-- ===== src/Proto/Filter.antt =====
-- `ClockFilter` of ntp_proto.rs: a shift register of eight samples, and the sample of least delay.
-- The comparison of two `f64` delays is a parameter.
pub mod Window
pub mod Least
use ntpsec_rs.Prelude.{
  ◌≢◌, ◌⊎◌, ℕ, zero, suc, ◌+◌, ◌-◌, ◌≤◌, ◌<◌, ◌≡◌, refl, sym, ◌∙◌, ap, arith, min, Option, none,
  some, List, [], ◌∷◌, ◌++◌, length, take, replicate, if◌then◌else◌, Bool, true, false, All,
  Bool-cases, inl, inr, subst,
}
use ntpsec_rs.Proto.{ntp_shift}

pub record ClockFilter {ℓ} (A : Type ℓ) : Type ℓ where
  pub entries : List (Option A)
  pub count : ℕ

module _ {ℓ} {A : Type ℓ} where
  abbrev pub new : ClockFilter A
  new = record { entries = replicate ntp_shift none; count = 0 }

  -- Every entry moves down one place, and the last falls out.
  unfoldable pub add_sample : A → ClockFilter A → ClockFilter A
  add_sample entry f = record {
    entries = take ntp_shift (some entry ∷ f.entries);
    count = min f.count (ntp_shift - 1) + 1;
  }

  -- `filter_map(|e| e.as_ref())`
  unfoldable pub some_of : List (Option A) → List A
  some_of [] = []
  some_of (none ∷ es) = some_of es
  some_of (some a ∷ es) = a ∷ some_of es

  unfoldable pub samples : ClockFilter A → List A
  unfolding some_of
  samples f = some_of f.entries

  abbrev pub add_all : List A → ClockFilter A → ClockFilter A
  add_all [] f = f
  add_all (x ∷ xs) f = add_all xs (add_sample x f)

  abbrev pub Member : A → List A → Type ℓ
  Member a [] = a ≢ a
  Member a (x ∷ xs) = (a ≡ x) ⊎ Member a xs

  module _ (greater : A → A → Bool) where
    -- `min_by` keeps the earlier of two that compare equal; delays that do not compare count as
    -- equal, so that `greater` is false of them.
    unfoldable pub min_by : A → List A → A
    min_by best [] = best
    min_by best (x ∷ xs) = min_by (if greater best x then x else best) xs

    unfoldable pub min_of : List A → Option A
    unfolding min_by
    min_of [] = none
    min_of (x ∷ xs) = some (min_by x xs)

    unfoldable pub filter : ClockFilter A → Option A
    unfolding min_of samples
    filter f = min_of (samples f)

    -- One of the samples, and no sample compares less.
    pub record IsLeast (a : A) (xs : List A) : Type ℓ where
      pub member : Member a xs
      pub least : All (λ x. greater a x ≡ false) xs

    abbrev pub IsFiltered : List A → Option A → Type ℓ
    IsFiltered xs none = xs ≡ []
    IsFiltered xs (some a) = IsLeast a xs

    -- What the comparison does on delays that are numbers.
    pub record IsOrder : Type ℓ where
      pub reflexive : (a : A) → greater a a ≡ false
      pub transitive : (a b c : A) → greater a b ≡ false → greater b c ≡ false → greater a c ≡ false
      pub total : (a b : A) → greater a b ≡ true → greater b a ≡ false
