-- ===== src/Select/Trim.antt =====
-- The second loop of `clock_cluster` ends with at most three peers.
use ntpsec_rs.Prelude.{
  ℕ, zero, suc, ◌+◌, ◌≤◌, ◌<◌, ◌≡◌, ◌≢◌, refl, sym, ◌∙◌, ap, subst, arith, ◌⊎◌, inl, inr, Option,
  none, some, List, [], ◌∷◌, length, is_empty, ltb, ◌==◌, true, false, false≢true, Bool-cases,
  Option-cases, some_eq, ==_iff,
}
use ntpsec_rs.Float.{Float}
use ntpsec_rs.Float as Float
use ntpsec_rs.Select.Cluster.{
  ntp_minclock, is_prefer, worst_from, remove_place, trim_loop, prune_and_trim,
}
use ntpsec_rs.Select.Shrink.{
  AllIndices, Distinct, has, IsShrunk, IsShrunk-refl, IsShrunk-trans, prune_loop-IsShrunk,
}

module _ (f : Float) where
  -- Place `m` holds a peer that is not preferred.
  abbrev IsOrdinary : Option ℕ → ℕ → List (ℕ × f.F) → Type 0
  IsOrdinary pa m [] = false ≡ true
  IsOrdinary pa zero (x ∷ xs) = is_prefer f pa x.0 ≡ false
  IsOrdinary pa (suc m) (x ∷ xs) = IsOrdinary pa m xs

  -- The worst place is the best one so far or an ordinary place of the rest.
  abbrev IsWorst : Option ℕ → Option (ℕ × f.F) → ℕ → List (ℕ × f.F) → ℕ → Type 0
  IsWorst pa none k xs w = (m : ℕ) × (w ≡ k + m) × IsOrdinary pa m xs
  IsWorst pa (some b) k xs w = (w ≡ b.0) ⊎ ((m : ℕ) × (w ≡ k + m) × IsOrdinary pa m xs)

  IsWorst-suc :
      (pa : Option ℕ) (best : Option (ℕ × f.F)) (k w : ℕ) (x : ℕ × f.F) (xs : List (ℕ × f.F))
      → IsWorst pa best (suc k) xs w
      → IsWorst pa best k (x ∷ xs) w
  IsWorst-suc pa none k w x xs (m, e, o) = (suc m, omega (arith, e), o)
  IsWorst-suc pa (some b) k w x xs (inl e) = inl e
  IsWorst-suc pa (some b) k w x xs (inr (m, e, o)) = inr (suc m, omega (arith, e), o)

  -- The new best place is this one.
  IsWorst-newer :
      (pa : Option ℕ) (best : Option (ℕ × f.F)) (k w : ℕ) (x : ℕ × f.F) (xs : List (ℕ × f.F))
      → is_prefer f pa x.0 ≡ false
      → IsWorst pa (some (k, x.1)) (suc k) xs w
      → IsWorst pa best k (x ∷ xs) w
  IsWorst-newer pa none k w x xs o (inl e) = (0, omega (arith, e), o)
  IsWorst-newer pa none k w x xs o (inr (m, e, p)) = (suc m, omega (arith, e), p)
  IsWorst-newer pa (some b) k w x xs o (inl e) = inr (0, omega (arith, e), o)
  IsWorst-newer pa (some b) k w x xs o (inr (m, e, p)) = inr (suc m, omega (arith, e), p)

  worst_from-IsWorst :
      (pa : Option ℕ) (best : Option (ℕ × f.F)) (k w : ℕ) (xs : List (ℕ × f.F))
      → worst_from f pa best k xs ≡ some w
      → IsWorst pa best k xs w
  unfolding worst_from
  worst_from-IsWorst pa none k w [] h = cc
  worst_from-IsWorst pa (some b) k w [] h = inl (sym (some_eq h))
  worst_from-IsWorst pa none k w ((i, j) ∷ xs) h = elim (Bool-cases (is_prefer f pa i)) [
    | inl e ↦
        IsWorst-suc pa none k w (i, j) xs (worst_from-IsWorst pa none (suc k) w xs (rw e at h))
    | inr e ↦
        IsWorst-newer pa none k w (i, j) xs e
          (worst_from-IsWorst pa (some (k, j)) (suc k) w xs (rw e at h))
  ]
  worst_from-IsWorst pa (some (v, jv)) k w ((i, j) ∷ xs) h = elim (Bool-cases (is_prefer f pa i)) [
    | inl e ↦
        IsWorst-suc pa (some (v, jv)) k w (i, j) xs
          (worst_from-IsWorst pa (some (v, jv)) (suc k) w xs (rw e at h))
    | inr e ↦ elim (Bool-cases (Float.gt f jv j)) [
      | inl d ↦
          IsWorst-suc pa (some (v, jv)) k w (i, j) xs
            (worst_from-IsWorst pa (some (v, jv)) (suc k) w xs (rw (e, d) at h))
      | inr d ↦
          IsWorst-newer pa (some (v, jv)) k w (i, j) xs e
            (worst_from-IsWorst pa (some (k, j)) (suc k) w xs (rw (e, d) at h))
    ]
  ]

  -- Without a worst place every peer is the preferred one.
  worst_from-none :
      (pa : Option ℕ) (best : Option (ℕ × f.F)) (k : ℕ) (xs : List (ℕ × f.F))
      → worst_from f pa best k xs ≡ none
      → (best ≡ none) × AllIndices f (λ i. is_prefer f pa i ≡ true) xs
  unfolding worst_from
  worst_from-none pa none k [] h = (refl, _)
  worst_from-none pa (some b) k [] h = cc
  worst_from-none pa none k ((i, j) ∷ xs) h = elim (Bool-cases (is_prefer f pa i)) [
    | inl e ↦ (refl, (e, (worst_from-none pa none (suc k) xs (rw e at h)).1))
    | inr e ↦ cc ((worst_from-none pa (some (k, j)) (suc k) xs (rw e at h)).0)
  ]
  worst_from-none pa (some (v, jv)) k ((i, j) ∷ xs) h = elim (Bool-cases (is_prefer f pa i)) [
    | inl e ↦ cc ((worst_from-none pa (some (v, jv)) (suc k) xs (rw e at h)).0)
    | inr e ↦ elim (Bool-cases (Float.gt f jv j)) [
      | inl d ↦ cc ((worst_from-none pa (some (v, jv)) (suc k) xs (rw (e, d) at h)).0)
      | inr d ↦ cc ((worst_from-none pa (some (k, j)) (suc k) xs (rw (e, d) at h)).0)
    ]
  ]

  All-remove_place :
      (P : ℕ → Type 0) (w : ℕ) (xs : List (ℕ × f.F))
      → AllIndices f P xs
      → AllIndices f P (remove_place f w xs)
  unfolding remove_place
  All-remove_place P w [] h = _
  All-remove_place P zero (x ∷ xs) h = h.1
  All-remove_place P (suc w) (x ∷ xs) h = (h.0, All-remove_place P w xs h.1)

  Distinct-remove_place :
      (w : ℕ) (xs : List (ℕ × f.F)) → Distinct f xs → Distinct f (remove_place f w xs)
  unfolding remove_place
  Distinct-remove_place w [] h = _
  Distinct-remove_place zero (x ∷ xs) h = h.1
  Distinct-remove_place (suc w) (x ∷ xs) h =
      (All-remove_place (λ k. x.0 ≢ k) w xs h.0, Distinct-remove_place w xs h.1)

  has-remove_place :
      (i w : ℕ) (xs : List (ℕ × f.F))
      → IsOrdinary (some i) w xs
      → has f i xs ≡ true
      → has f i (remove_place f w xs) ≡ true
  unfolding remove_place is_prefer
  has-remove_place i w [] o h = h
  has-remove_place i zero (x ∷ xs) o h = rw o at h
  has-remove_place i (suc w) (x ∷ xs) o h = elim (Bool-cases (x.0 == i)) [
    | inl e ↦ rw e refl
    | inr e ↦ rw e (has-remove_place i w xs o (rw e at h))
  ]

  length-remove_place :
      (pa : Option ℕ) (w : ℕ) (xs : List (ℕ × f.F))
      → IsOrdinary pa w xs
      → suc (length (remove_place f w xs)) ≡ length xs
  unfolding remove_place
  length-remove_place pa w [] o = absurd (false≢true o)
  length-remove_place pa zero (x ∷ xs) o = refl
  length-remove_place pa (suc w) (x ∷ xs) o = ap suc (length-remove_place pa w xs o)

  length-eq-nonempty : (xs : List (ℕ × f.F)) → 0 < length xs → is_empty xs ≡ false
  length-eq-nonempty [] h = absurd (omega arith)
  length-eq-nonempty (x ∷ xs) h = refl

  -- Two distinct places are not both the preferred one.
  never :
      (pa : Option ℕ) (xs : List (ℕ × f.F))
      → ntp_minclock < length xs
      → Distinct f xs
      → AllIndices f (λ i. is_prefer f pa i ≡ true) xs
      → false ≡ true
  unfolding is_prefer
  never pa [] h d a = absurd (omega arith)
  never pa (x ∷ []) h d a = absurd (omega arith)
  never none (x ∷ y ∷ xs) h d a = a.0
  never (some i) (x ∷ y ∷ xs) h d a =
      absurd (d.0.0 ((==_iff x.0 i).0 a.0 ∙ sym ((==_iff y.0 i).0 a.1.0)))

  some_worst :
      (pa : Option ℕ) (xs : List (ℕ × f.F))
      → ntp_minclock < length xs
      → Distinct f xs
      → (w : ℕ) × (worst_from f pa none 0 xs ≡ some w) × IsOrdinary pa w xs
  unfolding is_prefer
  some_worst pa xs h d = elim (Option-cases (worst_from f pa none 0 xs)) [
    | inl bad ↦ absurd (false≢true (never pa xs h d (worst_from-none pa none 0 xs bad).1))
    | inr (w, good) ↦
        let (m, e, o) = worst_from-IsWorst pa none 0 w xs good in
        (w, good, subst (λ t. IsOrdinary pa t xs) (omega (arith, e)) o)
  ]

  remove_place-IsShrunk :
      (pa : Option ℕ) (w : ℕ) (xs : List (ℕ × f.F))
      → IsOrdinary pa w xs
      → 1 < length xs
      → IsShrunk f pa xs (remove_place f w xs)
  remove_place-IsShrunk pa w xs o h = record {
    all = λ P k. All-remove_place P w xs k;
    distinct = λ k. Distinct-remove_place w xs k;
    prefer = λ i e k. has-remove_place i w xs (subst (λ t. IsOrdinary t w xs) e o) k;
    some_left = λ k.
        length-eq-nonempty (remove_place f w xs) (omega (arith, length-remove_place pa w xs o));
  }

  trim_loop-IsShrunk :
      (fuel : ℕ) (pa : Option ℕ) (xs : List (ℕ × f.F))
      → length xs < fuel
      → Distinct f xs
      → (ys : List (ℕ × f.F)) × (trim_loop f fuel pa xs ≡ some ys)
        × IsShrunk f pa xs ys
        × (length ys ≤ ntp_minclock)
  unfolding trim_loop
  trim_loop-IsShrunk zero pa xs h d = absurd (omega arith)
  trim_loop-IsShrunk (suc fuel) pa xs h d = elim (Bool-cases (ltb ntp_minclock (length xs))) [
    | inr few ↦ (xs, rw few refl, IsShrunk-refl f pa xs, ground (arith, few))
    | inl many ↦
        let (w, worst, o) = some_worst pa xs (ground (arith, many)) d in
        let gone = remove_place-IsShrunk pa w xs o (ground (arith, many)) in
        let (ys, run, rest, few) =
          trim_loop-IsShrunk fuel pa (remove_place f w xs)
            (omega (arith, length-remove_place pa w xs o)) (gone.distinct d) in
        (ys, rw (many, worst) run, IsShrunk-trans f pa xs (remove_place f w xs) ys gone rest, few)
  ]

  -- Both loops end, and leave at most three peers.
  pub prune_and_trim-IsShrunk :
      (pa : Option ℕ) (xs : List (ℕ × f.F))
      → Distinct f xs
      → (ys : List (ℕ × f.F)) × (prune_and_trim f pa xs ≡ some ys)
        × IsShrunk f pa xs ys
        × (length ys ≤ ntp_minclock)
  unfolding prune_and_trim
  prune_and_trim-IsShrunk pa xs d =
      let (ys, first, a) = prune_loop-IsShrunk f (suc (length xs)) pa xs (omega arith) in
      let (zs, second, b, few) =
        trim_loop-IsShrunk (suc (length ys)) pa ys (omega arith) (a.distinct d) in
      (zs, rw (prune_and_trim, first) second, IsShrunk-trans f pa xs ys zs a b, few)
