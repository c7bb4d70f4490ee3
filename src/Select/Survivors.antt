-- ===== src/Select/Survivors.antt =====
-- The survivors of `clock_cluster`.
use ntpsec_rs.Prelude.{
  ℕ, suc, ◌+◌, ◌≤◌, ◌≡◌, ◌≢◌, refl, sym, ◌∙◌, ap, subst, arith, inl, inr, some, List, [], ◌∷◌,
  length, is_empty, leb, ◌==◌, ◌||◌, map, Bool, true, false, Bool-cases, All,
}
use ntpsec_rs.Float.{Float}
use ntpsec_rs.Peer.{Peer, get_elem?}
use ntpsec_rs.Select.{passes}
use ntpsec_rs.Select.Cluster.{
  ntp_minclock, passing, prefer_position, offset_at, jitters, zip, indices_of, prune_and_trim,
  clock_cluster,
}
use ntpsec_rs.Select.Shrink.{AllIndices, Distinct, has, IsShrunk}
use ntpsec_rs.Select.Trim.{prune_and_trim-IsShrunk}

-- Whether a number is in a list.
abbrev pub member : ℕ → List ℕ → Bool
member i [] = false
member i (k ∷ ks) = (k == i) || member i ks

All-map_implies : (P Q : ℕ → Type 0) (xs : List ℕ) → ((i : ℕ) → P i → Q i) → All P xs → All Q xs
All-map_implies P Q [] g h = _
All-map_implies P Q (x ∷ xs) g h = (g x h.0, All-map_implies P Q xs g h.1)

abbrev DistinctNumbers : List ℕ → Type 0
DistinctNumbers [] = Unit
DistinctNumbers (x ∷ xs) = All (λ k. x ≢ k) xs × DistinctNumbers xs

module _ (f : Float) where
  -- An index of a peer that passes.
  abbrev pub IsPassing : List (Peer f) → ℕ → Type 0
  IsPassing peers i = (p : Peer f) × (get_elem? f i peers ≡ some p) × (passes p.flash ≡ true)

  -- The same, where indices count from `i`.
  abbrev IsPassingFrom : ℕ → List (Peer f) → ℕ → Type 0
  IsPassingFrom i peers k = (m : ℕ) × (k ≡ i + m) × IsPassing peers m

  IsPassingFrom-cons :
      (i k : ℕ) (q : Peer f) (peers : List (Peer f))
      → IsPassingFrom (suc i) peers k
      → IsPassingFrom i (q ∷ peers) k
  unfolding get_elem?
  IsPassingFrom-cons i k q peers (m, e, h) = (suc m, omega (arith, e), h)

  passing-IsPassingFrom :
      (i : ℕ) (peers : List (Peer f)) → All (IsPassingFrom i peers) (passing f i peers)
  unfolding passing get_elem?
  passing-IsPassingFrom i [] = _
  passing-IsPassingFrom i (p ∷ ps) =
      let rest =
        All-map_implies (IsPassingFrom (suc i) ps) (IsPassingFrom i (p ∷ ps)) (passing f (suc i) ps)
          (λ k. IsPassingFrom-cons i k p ps) (passing-IsPassingFrom (suc i) ps) in
      elim (Bool-cases (passes p.flash)) [
        | inl e ↦ rw e ((0, omega arith, (p, refl, e)), rest)
        | inr e ↦ rw e rest
      ]

  passing-DistinctNumbers : (i : ℕ) (peers : List (Peer f)) → DistinctNumbers (passing f i peers)
  unfolding passing
  passing-DistinctNumbers i [] = _
  passing-DistinctNumbers i (p ∷ ps) = elim (Bool-cases (passes p.flash)) [
    | inl e ↦ rw e (
      All-map_implies (IsPassingFrom (suc i) ps) (λ k. i ≢ k) (passing f (suc i) ps)
          (λ k h same. absurd (omega (arith, h.1, same))) (passing-IsPassingFrom (suc i) ps),
      passing-DistinctNumbers (suc i) ps,
    )
    | inr e ↦ rw e (passing-DistinctNumbers (suc i) ps)
  ]

  indices_of-zip :
      (is : List ℕ) (js : List f.F) → length is ≡ length js → indices_of f (zip f is js) ≡ is
  unfolding zip
  indices_of-zip [] js h = refl
  indices_of-zip (i ∷ is) [] h = absurd (omega arith)
  indices_of-zip (i ∷ is) (j ∷ js) h = ap (λ t. i ∷ t) (indices_of-zip is js (omega arith))

  length-jitters : (all os : List f.F) (i : ℕ) → length (jitters f all i os) ≡ length os
  unfolding jitters
  length-jitters all [] i = refl
  length-jitters all (o ∷ os) i = ap suc (length-jitters all os (suc i))

  length-offsets :
      (peers : List (Peer f)) (is : List ℕ) → length (map (offset_at f peers) is) ≡ length is
  length-offsets peers [] = refl
  length-offsets peers (i ∷ is) = ap suc (length-offsets peers is)

  -- The list of pairs and its indices.
  AllIndices-All :
      (P : ℕ → Type 0) (xs : List (ℕ × f.F)) → AllIndices f P xs → All P (indices_of f xs)
  AllIndices-All P [] h = _
  AllIndices-All P ((i, j) ∷ xs) h = (h.0, AllIndices-All P xs h.1)

  All-AllIndices :
      (P : ℕ → Type 0) (xs : List (ℕ × f.F)) → All P (indices_of f xs) → AllIndices f P xs
  All-AllIndices P [] h = _
  All-AllIndices P ((i, j) ∷ xs) h = (h.0, All-AllIndices P xs h.1)

  DistinctNumbers-Distinct :
      (xs : List (ℕ × f.F)) → DistinctNumbers (indices_of f xs) → Distinct f xs
  DistinctNumbers-Distinct [] h = _
  DistinctNumbers-Distinct ((i, j) ∷ xs) h =
      (All-AllIndices (λ k. i ≢ k) xs h.0, DistinctNumbers-Distinct xs h.1)

  has-member : (i : ℕ) (xs : List (ℕ × f.F)) → has f i xs ≡ member i (indices_of f xs)
  has-member i [] = refl
  has-member i ((k, j) ∷ xs) = ap (λ t. (k == i) || t) (has-member i xs)

  is_empty-indices_of : (xs : List (ℕ × f.F)) → is_empty (indices_of f xs) ≡ is_empty xs
  is_empty-indices_of [] = refl
  is_empty-indices_of ((i, j) ∷ xs) = refl

  length-indices_of : (xs : List (ℕ × f.F)) → length (indices_of f xs) ≡ length xs
  length-indices_of [] = refl
  length-indices_of ((i, j) ∷ xs) = ap suc (length-indices_of xs)

  -- What clustering promises: it ends, every survivor is the index of a peer that passes all tests,
  -- there are at most three, there is one if a peer passes, and the preferred peer survives if it
  -- passes.
  pub record IsSelection (peers : List (Peer f)) : Type 0 where
    pub survivors : List ℕ
    pub result : clock_cluster f peers ≡ some survivors
    pub valid : All (IsPassing peers) survivors
    pub few : length survivors ≤ 3
    pub some_left : is_empty (passing f 0 peers) ≡ false → is_empty survivors ≡ false
    pub preferred :
        (i : ℕ)
        → prefer_position f 0 peers ≡ some i
        → member i (passing f 0 peers) ≡ true
        → member i survivors ≡ true

  passing_valid : (peers : List (Peer f)) → All (IsPassing peers) (passing f 0 peers)
  passing_valid peers =
      All-map_implies (IsPassingFrom 0 peers) (IsPassing peers) (passing f 0 peers)
        (λ k h. subst (IsPassing peers) (omega (arith, h.1)) h.2) (passing-IsPassingFrom 0 peers)

  -- Clustering ends on every list of peers; its survivors are at most three, each the index of a peer
  -- without a failed test; one survives if one passes, and the first peer with the prefer flag
  -- survives if it passes.
  pub clock_cluster-IsSelection : (peers : List (Peer f)) → IsSelection peers
  unfolding clock_cluster
  clock_cluster-IsSelection peers = elim (Bool-cases (leb (length (passing f 0 peers)) 1)) [
    | inl few ↦ record {
      survivors = passing f 0 peers;
      result = rw few refl;
      valid = passing_valid peers;
      few = ground (arith, few);
      some_left = λ h. h;
      preferred = λ i e h. h;
    }
    | inr many ↦ record {
      survivors = indices_of f ys;
      result = rw (many, run) refl;
      valid = AllIndices-All (IsPassing peers) ys (
          kept.all (IsPassing peers) (
            All-AllIndices (IsPassing peers) pairs
              (subst (All (IsPassing peers)) (sym same) (passing_valid peers))));
      few = omega (arith, few, length-indices_of ys);
      some_left = λ h.
          is_empty-indices_of ys
          ∙ kept.some_left (sym (is_empty-indices_of pairs) ∙ ap is_empty same ∙ h);
      preferred = λ i e h.
          sym (has-member i ys) ∙ kept.prefer i e (has-member i pairs ∙ ap (member i) same ∙ h);
    }
  ]
    where
      indices : List ℕ
      indices = passing f 0 peers

      offsets : List f.F
      offsets = map (offset_at f peers) indices

      pairs : List (ℕ × f.F)
      pairs = zip f indices (jitters f offsets 0 offsets)

      same : indices_of f pairs ≡ indices
      same =
          indices_of-zip indices (jitters f offsets 0 offsets)
            (sym (length-jitters offsets offsets 0 ∙ length-offsets peers indices))

      ended :
          (ys : List (ℕ × f.F)) × (prune_and_trim f (prefer_position f 0 peers) pairs ≡ some ys)
          × IsShrunk f (prefer_position f 0 peers) pairs ys
          × (length ys ≤ ntp_minclock)
      ended = prune_and_trim-IsShrunk f (prefer_position f 0 peers) pairs (
          DistinctNumbers-Distinct pairs
            (subst DistinctNumbers (sym same) (passing-DistinctNumbers 0 peers)))

      ys : List (ℕ × f.F)
      ys = ended.0

      run : prune_and_trim f (prefer_position f 0 peers) pairs ≡ some ys
      run = ended.1

      kept : IsShrunk f (prefer_position f 0 peers) pairs ys
      kept = ended.2

      few : length ys ≤ ntp_minclock
      few = ended.3
