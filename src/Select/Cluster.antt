-- ===== src/Select/Cluster.antt =====
-- `clock_cluster` of ntp_proto.rs: at most three of the passing peers survive. The two vectors
-- `indices` and `peer_jitter`, from which the same places are removed, are one list of pairs.
use ntpsec_rs.Prelude.{
  ℕ, zero, suc, ◌-◌, ◌==◌, Option, none, some, List, [], ◌∷◌, length, is_empty, ltb, leb, map, not,
  if◌then◌else◌, Bool, false,
}
use ntpsec_rs.Float.{Float}
use ntpsec_rs.Float as Float
use ntpsec_rs.Peer.{Peer, contains, prefer}
use ntpsec_rs.Select.{passes}

abbrev pub ntp_minclock : ℕ
ntp_minclock = 3

module _ (f : Float) where
  -- `(0..n).filter(..)`, from index `i` on.
  unfoldable pub passing : ℕ → List (Peer f) → List ℕ
  unfolding passes
  passing i [] = []
  passing i (p ∷ ps) = let rest = passing (suc i) ps in if passes p.flash then i ∷ rest else rest

  -- `position(|p| p.flags.contains(PREFER))`, from index `i` on.
  unfoldable pub prefer_position : ℕ → List (Peer f) → Option ℕ
  prefer_position i [] = none
  prefer_position i (p ∷ ps) =
      let rest = prefer_position (suc i) ps in if contains p.flags prefer then some i else rest

  -- `peers[i].offset`, for an index in range.
  unfoldable pub offset_at : List (Peer f) → ℕ → f.F
  offset_at [] i = Float.zero f
  offset_at (p ∷ ps) zero = p.offset
  offset_at (p ∷ ps) (suc i) = offset_at ps i

  -- The inner loop over `j`, which leaves out the place `i`.
  unfoldable pub sum_others : ℕ → f.F → ℕ → List f.F → f.F → f.F
  sum_others i offset_i j [] sum = sum
  sum_others i offset_i j (o ∷ os) sum =
      let d = f.sub offset_i o in
      sum_others i offset_i (suc j) os (if i == j then sum else f.add sum (f.mul d d))

  -- The peer jitters of the places from `i` on, where `all` are the offsets of all places.
  unfoldable pub jitters : List f.F → ℕ → List f.F → List f.F
  unfolding sum_others
  jitters all i [] = []
  jitters all i (o ∷ os) =
      f.sqrt (f.div (sum_others i o 0 all (Float.zero f)) (f.of_ℕ (length all - 1)))
      ∷ jitters all (suc i) os

  unfoldable pub zip : List ℕ → List f.F → List (ℕ × f.F)
  zip [] js = []
  zip (i ∷ is) [] = []
  zip (i ∷ is) (j ∷ js) = (i, j) ∷ zip is js

  unfoldable pub sum_sq : List (ℕ × f.F) → f.F → f.F
  sum_sq [] sum = sum
  sum_sq ((i, j) ∷ xs) sum = sum_sq xs (f.add sum (f.mul j j))

  unfoldable pub select_jitter : List (ℕ × f.F) → f.F
  unfolding sum_sq
  select_jitter xs = f.sqrt (f.div (sum_sq xs (Float.zero f)) (f.of_ℕ (length xs)))

  -- `prefer_associd.map_or(false, |pa| index == pa)`
  unfoldable pub is_prefer : Option ℕ → ℕ → Bool
  is_prefer none i = false
  is_prefer (some pa) i = i == pa

  -- The places that are not pushed to `to_remove`.
  unfoldable pub kept : Option ℕ → f.F → List (ℕ × f.F) → List (ℕ × f.F)
  unfolding is_prefer
  kept pa threshold [] = []
  kept pa threshold ((i, j) ∷ xs) =
      let rest = kept pa threshold xs in
      if is_prefer pa i
      then (i, j) ∷ rest
      else if Float.gt f j threshold
      then rest
      else (i, j) ∷ rest

  -- The first loop; `none` is no Rust value, the fuel has run out.
  unfoldable pub prune_loop : ℕ → Option ℕ → List (ℕ × f.F) → Option (List (ℕ × f.F))
  unfolding select_jitter kept
  prune_loop zero pa xs = none
  prune_loop (suc fuel) pa xs =
      let jitter = select_jitter xs in
      let survivors = kept pa (f.mul (f.literal 3 0) jitter) xs in
      let rest = prune_loop fuel pa survivors in
      if not (ltb ntp_minclock (length xs))
      then some xs
      else if Float.le f jitter (Float.zero f)
      then some xs
      else if length survivors == length xs
      then some xs
      else if is_empty survivors
      then some xs
      else rest

  -- `max_by` keeps the later of two unless the earlier is greater; places count from `k`.
  unfoldable pub worst_from : Option ℕ → Option (ℕ × f.F) → ℕ → List (ℕ × f.F) → Option ℕ
  unfolding is_prefer
  worst_from pa none k [] = none
  worst_from pa (some (w, jw)) k [] = some w
  worst_from pa best k ((i, j) ∷ xs) =
      let same = worst_from pa best (suc k) xs in
      let newer = worst_from pa (some (k, j)) (suc k) xs in
      if is_prefer pa i
      then same
      else elim best [ none ↦ newer | some (w, jw) ↦ if Float.gt f jw j then same else newer ]

  unfoldable pub remove_place : ℕ → List (ℕ × f.F) → List (ℕ × f.F)
  remove_place k [] = []
  remove_place zero (x ∷ xs) = xs
  remove_place (suc k) (x ∷ xs) = x ∷ remove_place k xs

  -- The second loop; `none` is no Rust value, the fuel has run out.
  unfoldable pub trim_loop : ℕ → Option ℕ → List (ℕ × f.F) → Option (List (ℕ × f.F))
  unfolding worst_from remove_place
  trim_loop zero pa xs = none
  trim_loop (suc fuel) pa xs =
      if not (ltb ntp_minclock (length xs)) then some xs else elim (worst_from pa none 0 xs) [
        | none ↦ some xs
        | some w ↦ trim_loop fuel pa (remove_place w xs)
      ]

  abbrev pub indices_of : List (ℕ × f.F) → List ℕ
  indices_of [] = []
  indices_of ((i, j) ∷ xs) = i ∷ indices_of xs

  -- Each loop removes a peer in a round, so one round more than there are peers is enough.
  unfoldable pub prune_and_trim : Option ℕ → List (ℕ × f.F) → Option (List (ℕ × f.F))
  unfolding prune_loop trim_loop
  prune_and_trim pa xs = elim (prune_loop (suc (length xs)) pa xs) [
    | none ↦ none
    | some ys ↦ trim_loop (suc (length ys)) pa ys
  ]

  unfoldable pub clock_cluster : List (Peer f) → Option (List ℕ)
  unfolding passing prefer_position offset_at jitters zip prune_and_trim
  clock_cluster peers =
      let indices = passing 0 peers in
      let offsets = map (offset_at peers) indices in
      if leb (length indices) 1
      then some indices
      else elim (prune_and_trim (prefer_position 0 peers)
          (zip indices (jitters offsets 0 offsets))) [
            | none ↦ none
            | some xs ↦ some (indices_of xs)
          ]
