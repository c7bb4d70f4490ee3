-- ===== src/Proto/Filter/Window.antt =====
-- The register holds the last eight samples, the newest first.
use ntpsec_rs.Prelude.{
  ℕ, zero, suc, ◌+◌, ◌≤◌, ◌≡◌, refl, ◌∙◌, ap, arith, min, Option, none, some, List, [], ◌∷◌, ◌++◌,
  map, length, take, replicate,
}
use ntpsec_rs.Proto.Filter.{ClockFilter, new, add_sample, some_of, samples, add_all}

-- The elements of the first list in front of the second, the last one first.
abbrev pub newest_first {ℓ} : {A : Type ℓ} → List A → List A → List A
newest_first [] ys = ys
newest_first (x ∷ xs) ys = newest_first xs (x ∷ ys)

take-suc_take {ℓ} :
    {A : Type ℓ} (n : ℕ) (x : A) (xs : List A) → take n (x ∷ take n xs) ≡ take n (x ∷ xs)
take-suc_take zero x xs = refl
take-suc_take (suc n) x [] = refl
take-suc_take (suc n) x (y ∷ xs) = ap (λ t. x ∷ t) (take-suc_take n y xs)

module _ {ℓ} {A : Type ℓ} where
  newest_first-map :
      (xs ys : List A) (es : List (Option A))
      → newest_first (map some xs) (map some ys ++ es) ≡ map some (newest_first xs ys) ++ es
  newest_first-map [] ys es = refl
  newest_first-map (x ∷ xs) ys es = newest_first-map xs (x ∷ ys) es

  some_of-take_nones : (n k : ℕ) → some_of {A = A} (take n (replicate k none)) ≡ []
  unfolding some_of
  some_of-take_nones zero k = refl
  some_of-take_nones (suc n) zero = refl
  some_of-take_nones (suc n) (suc k) = some_of-take_nones n k

  some_of-take :
      (n k : ℕ) (xs : List A) → some_of (take n (map some xs ++ replicate k none)) ≡ take n xs
  unfolding some_of
  some_of-take zero k xs = refl
  some_of-take (suc n) zero [] = refl
  some_of-take (suc n) (suc k) [] = some_of-take_nones n k
  some_of-take (suc n) k (x ∷ xs) = ap (λ t. x ∷ t) (some_of-take n k xs)

  entries-add_all :
      (xs : List A) (f : ClockFilter A) (es : List (Option A))
      → f.entries ≡ take 8 es
      → (add_all xs f).entries ≡ take 8 (newest_first (map some xs) es)
  unfolding add_sample
  entries-add_all [] f es h = h
  entries-add_all (x ∷ xs) f es h =
      entries-add_all xs (add_sample x f) (some x ∷ es)
        (ap (λ (t : List (Option A)). take 8 (some x ∷ t)) h ∙ take-suc_take 8 (some x) es)

  count-add_all :
      (xs : List A) (f : ClockFilter A)
      → f.count ≤ 8
      → (add_all xs f).count ≡ min (f.count + length xs) 8
  unfolding add_sample
  count-add_all [] f h = omega arith
  count-add_all (x ∷ xs) f h = count-add_all xs (add_sample x f) (omega arith) ∙ omega arith

  -- From a cleared filter, the samples are the last eight that were added, the newest first, and the
  -- count is their number.
  pub samples-add_all :
      (xs : List A)
      → (samples (add_all xs new) ≡ take 8 (newest_first xs []))
        × ((add_all xs new).count ≡ min (length xs) 8)
  unfolding samples
  samples-add_all xs = (
    ap some_of (
          entries-add_all xs new (replicate 8 none) refl
          ∙ ap (take 8) (newest_first-map xs [] (replicate 8 none)))
        ∙ some_of-take 8 8 (newest_first xs []),
    count-add_all xs new (omega arith) ∙ omega arith,
  )
