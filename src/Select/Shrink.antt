-- ===== src/Select/Shrink.antt =====
-- What the two loops of `clock_cluster` keep.
use ntpsec_rs.Prelude.{
  ℕ, zero, suc, ◌≤◌, ◌<◌, ◌≡◌, ◌≢◌, refl, sym, subst, arith, inl, inr, Option, some, List, [], ◌∷◌,
  length, is_empty, ltb, ◌==◌, ◌||◌, Bool, true, false, Bool-cases, All,
}
use ntpsec_rs.Float.{Float}
use ntpsec_rs.Float as Float
use ntpsec_rs.Select.Cluster.{ntp_minclock, is_prefer, kept, select_jitter, prune_loop}

module _ (f : Float) where
  abbrev pub AllIndices : (ℕ → Type 0) → List (ℕ × f.F) → Type 0
  AllIndices P xs = All (λ x. P x.0) xs

  abbrev pub Distinct : List (ℕ × f.F) → Type 0
  Distinct [] = Unit
  Distinct (x ∷ xs) = AllIndices (λ i. x.0 ≢ i) xs × Distinct xs

  abbrev pub has : ℕ → List (ℕ × f.F) → Bool
  has i [] = false
  has i (x ∷ xs) = (x.0 == i) || has i xs

  -- What a list that lost some places keeps of the one before: every property of all indices, that
  -- they differ, the preferred peer, and that there is one.
  pub record IsShrunk (pa : Option ℕ) (xs ys : List (ℕ × f.F)) : Type 1 where
    pub all : (P : ℕ → Type 0) → AllIndices P xs → AllIndices P ys
    pub distinct : Distinct xs → Distinct ys
    pub prefer : (i : ℕ) → pa ≡ some i → has i xs ≡ true → has i ys ≡ true
    pub some_left : is_empty xs ≡ false → is_empty ys ≡ false

  pub IsShrunk-refl : (pa : Option ℕ) (xs : List (ℕ × f.F)) → IsShrunk pa xs xs
  IsShrunk-refl pa xs = record {
    all = λ P h. h;
    distinct = λ h. h;
    prefer = λ i e h. h;
    some_left = λ h. h;
  }

  pub IsShrunk-trans :
      (pa : Option ℕ) (xs ys zs : List (ℕ × f.F))
      → IsShrunk pa xs ys
      → IsShrunk pa ys zs
      → IsShrunk pa xs zs
  IsShrunk-trans pa xs ys zs a b = record {
    all = λ P h. b.all P (a.all P h);
    distinct = λ h. b.distinct (a.distinct h);
    prefer = λ i e h. b.prefer i e (a.prefer i e h);
    some_left = λ h. b.some_left (a.some_left h);
  }

  All-kept :
      (pa : Option ℕ) (t : f.F) (P : ℕ → Type 0) (xs : List (ℕ × f.F))
      → AllIndices P xs
      → AllIndices P (kept f pa t xs)
  unfolding kept
  All-kept pa t P [] h = _
  All-kept pa t P ((i, j) ∷ xs) h = elim (Bool-cases (is_prefer f pa i)) [
    | inl e ↦ rw e (h.0, All-kept pa t P xs h.1)
    | inr e ↦ elim (Bool-cases (Float.gt f j t)) [
      | inl d ↦ rw (e, d) (All-kept pa t P xs h.1)
      | inr d ↦ rw (e, d) (h.0, All-kept pa t P xs h.1)
    ]
  ]

  Distinct-kept :
      (pa : Option ℕ) (t : f.F) (xs : List (ℕ × f.F)) → Distinct xs → Distinct (kept f pa t xs)
  unfolding kept
  Distinct-kept pa t [] h = _
  Distinct-kept pa t ((i, j) ∷ xs) h = elim (Bool-cases (is_prefer f pa i)) [
    | inl e ↦ rw e (All-kept pa t (λ k. i ≢ k) xs h.0, Distinct-kept pa t xs h.1)
    | inr e ↦ elim (Bool-cases (Float.gt f j t)) [
      | inl d ↦ rw (e, d) (Distinct-kept pa t xs h.1)
      | inr d ↦ rw (e, d) (All-kept pa t (λ k. i ≢ k) xs h.0, Distinct-kept pa t xs h.1)
    ]
  ]

  has-kept :
      (i : ℕ) (t : f.F) (xs : List (ℕ × f.F))
      → has i xs ≡ true
      → has i (kept f (some i) t xs) ≡ true
  unfolding kept is_prefer
  has-kept i t [] h = h
  has-kept i t ((k, j) ∷ xs) h = elim (Bool-cases (k == i)) [
    | inl e ↦ ground (arith, e)
    | inr e ↦ elim (Bool-cases (Float.gt f j t)) [
      | inl d ↦ rw (e, d) (has-kept i t xs (rw e at h))
      | inr d ↦ rw (e, d, e) (has-kept i t xs (rw e at h))
    ]
  ]

  length-kept :
      (pa : Option ℕ) (t : f.F) (xs : List (ℕ × f.F)) → length (kept f pa t xs) ≤ length xs
  unfolding kept
  length-kept pa t [] = omega arith
  length-kept pa t ((i, j) ∷ xs) = ground (arith, length-kept pa t xs)

  kept-IsShrunk :
      (pa : Option ℕ) (t : f.F) (xs : List (ℕ × f.F))
      → is_empty (kept f pa t xs) ≡ false
      → IsShrunk pa xs (kept f pa t xs)
  kept-IsShrunk pa t xs nonempty = record {
    all = λ P h. All-kept pa t P xs h;
    distinct = λ h. Distinct-kept pa t xs h;
    prefer = λ i e h. subst (λ o. has i (kept f o t xs) ≡ true) (sym e) (has-kept i t xs h);
    some_left = λ h. nonempty;
  }

  pub prune_loop-IsShrunk :
      (fuel : ℕ) (pa : Option ℕ) (xs : List (ℕ × f.F))
      → length xs < fuel
      → (ys : List (ℕ × f.F)) × (prune_loop f fuel pa xs ≡ some ys) × IsShrunk pa xs ys
  unfolding prune_loop
  prune_loop-IsShrunk zero pa xs h = absurd (omega arith)
  prune_loop-IsShrunk (suc fuel) pa xs h = elim (Bool-cases (ltb ntp_minclock (length xs))) [
    | inr few ↦ (xs, rw few refl, IsShrunk-refl pa xs)
    | inl many ↦ elim (Bool-cases (Float.le f (select_jitter f xs) (Float.zero f))) [
      | inl flat ↦ (xs, rw (many, flat) refl, IsShrunk-refl pa xs)
      | inr spread ↦ elim (Bool-cases (length survivors == length xs)) [
        | inl same ↦ (xs, rw (many, spread, same) refl, IsShrunk-refl pa xs)
        | inr fewer ↦ elim (Bool-cases (is_empty survivors)) [
          | inl nobody ↦ (xs, rw (many, spread, fewer, nobody) refl, IsShrunk-refl pa xs)
          | inr somebody ↦
              let (ys, run, rest) =
                prune_loop-IsShrunk fuel pa survivors
                  (ground (arith, length-kept pa threshold xs, fewer)) in
              (
                ys,
                rw (many, spread, fewer, somebody) run,
                IsShrunk-trans pa xs survivors ys (kept-IsShrunk pa threshold xs somebody) rest,
              )
        ]
      ]
    ]
  ]
    where
      threshold : f.F
      threshold = f.mul (f.literal 3 0) (select_jitter f xs)

      survivors : List (ℕ × f.F)
      survivors = kept f pa threshold xs
