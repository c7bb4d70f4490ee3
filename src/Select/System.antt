-- ===== src/Select/System.antt =====
-- `clock_combine` and `SystemState::update_from_peers` of ntp_proto.rs: the offset of the survivors, and
-- the system peer.
use ntpsec_rs.Prelude.{
  ℕ, ◌+◌, min, Option, none, some, List, [], ◌∷◌, length, ◌==◌, map, if◌then◌else◌,
}
use ntpsec_rs.Types.{NtpTs64}
use ntpsec_rs.Types.Leap.{LeapIndicator, alarm}
use ntpsec_rs.Proto.{is_reachable}
use ntpsec_rs.Float.{Float}
use ntpsec_rs.Float as Float
use ntpsec_rs.Peer.{Peer, contains, prefer, get_elem?}
use ntpsec_rs.Select.{synch, test9, set_flag, clear_flag, root_distance, root_dispersion}
use ntpsec_rs.Select.Intersection.{clock_intersection}
use ntpsec_rs.Select.Cluster.{clock_cluster}

abbrev pub ntp_maxstrat : ℕ
ntp_maxstrat = 16

module _ (f : Float) where
  -- `peers[idx]` for every index, each of which is in range.
  unfoldable pub peers_at : List (Peer f) → List ℕ → List (Peer f)
  unfolding get_elem?
  peers_at peers [] = []
  peers_at peers (i ∷ is) = elim (get_elem? f i peers) [
    | none ↦ peers_at peers is
    | some p ↦ p ∷ peers_at peers is
  ]

  pub record Sums : Type 0 where
    pub weight : f.F
    pub offset : f.F
    pub jitter_sq : f.F

  unfoldable pub weight_of : NtpTs64 → Peer f → f.F
  weight_of now p =
      let d = synch f now p in
      if Float.gt f d (Float.zero f) then f.div (f.literal 1 0) d else f.literal 1 0

  unfoldable pub add_all : NtpTs64 → List (Peer f) → Sums → Sums
  unfolding weight_of
  add_all now [] s = s
  add_all now (p ∷ ps) s =
      let w = weight_of now p in
      add_all now ps (record {
        weight = f.add s.weight w;
        offset = f.add s.offset (f.mul w p.offset);
        jitter_sq = f.add s.jitter_sq (f.mul (f.mul w p.jitter) p.jitter);
      })

  abbrev pub no_sums : Sums
  no_sums = record { weight = Float.zero f; offset = Float.zero f; jitter_sq = Float.zero f }

  unfoldable pub combine : NtpTs64 → List (Peer f) → f.F × f.F
  unfolding add_all
  combine now [] = (Float.zero f, Float.zero f)
  combine now (p ∷ []) = (p.offset, p.jitter)
  combine now (p ∷ q ∷ ps) =
      let s = add_all now (p ∷ q ∷ ps) no_sums in
      (f.div s.offset s.weight, f.sqrt (f.div s.jitter_sq s.weight))

  unfoldable pub clock_combine : List (Peer f) → List ℕ → NtpTs64 → f.F × f.F
  unfolding combine peers_at
  clock_combine peers survivors now = combine now (peers_at peers survivors)

  -- The fields that `update_from_peers` writes.
  pub record SystemState : Type 0 where
    pub leap : LeapIndicator
    pub stratum : ℕ
    pub root_delay : f.F
    pub root_dispersion : f.F
    pub reference_id : ℕ
    pub reference_time : NtpTs64
    pub peer_count : ℕ
    pub sys_jitter : f.F
    pub sys_offset : f.F
    pub sys_rootdist : f.F

  unfoldable pub mark_unreachable : Peer f → Peer f
  unfolding is_reachable set_flag clear_flag
  mark_unreachable p =
      if is_reachable p.reach
      then record p { flash = clear_flag test9 p.flash }
      else record p { flash = set_flag test9 p.flash }

  unfoldable pub unsynchronized : SystemState → SystemState
  unsynchronized s = record s {
    leap = alarm;
    stratum = ntp_maxstrat;
    peer_count = 0;
    sys_offset = Float.zero f;
    sys_jitter = Float.zero f;
    sys_rootdist = f.infinity;
    reference_id = 0;
  }

  -- `survivors.find(|i| peers[i].flags.contains(PREFER)).unwrap_or(first)`
  unfoldable pub find_prefer : List (Peer f) → ℕ → List ℕ → ℕ
  unfolding get_elem?
  find_prefer peers first [] = first
  find_prefer peers first (i ∷ is) = elim (get_elem? f i peers) [
    | none ↦ find_prefer peers first is
    | some p ↦ if contains p.flags prefer then i else find_prefer peers first is
  ]

  unfoldable pub synchronize : NtpTs64 → Option (Peer f) → f.F × f.F → ℕ → SystemState → SystemState
  unfolding root_distance root_dispersion
  synchronize now none combined count s = s
  synchronize now (some p) (combined_offset, combined_jitter) count s = record {
    leap = p.leap;
    stratum = min (min (p.stratum + 1) 255) ntp_maxstrat;
    reference_id = p.reference_id;
    reference_time = p.receive_time;
    root_delay = p.root_delay;
    root_dispersion = root_dispersion f p now;
    sys_jitter = combined_jitter;
    sys_offset = combined_offset;
    sys_rootdist = root_distance f p now;
    peer_count = count;
  }

  -- The fuel of the clustering is enough, so that `none` stands for no run of the code.
  unfoldable pub clustered : List (Peer f) → List ℕ
  clustered peers = elim (clock_cluster f peers) [ none ↦ [] | some survivors ↦ survivors ]

  -- The steps 4 to 6, for the survivors of the clustering.
  unfoldable pub select : NtpTs64 → List (Peer f) → List ℕ → SystemState → Option ℕ × SystemState
  unfolding unsynchronized clock_combine find_prefer synchronize get_elem?
  select now peers [] s = (none, unsynchronized s)
  select now peers (i ∷ is) s =
      let sys_peer = find_prefer peers i (i ∷ is) in
      (
        some sys_peer,
        synchronize now (get_elem? f sys_peer peers) (clock_combine peers (i ∷ is) now)
            (length (i ∷ is)) s,
      )

  -- The result, where `none` is `usize::MAX`, with the new state and the marked peers.
  unfoldable pub update_from_peers :
      NtpTs64 → List (Peer f) → SystemState → (Option ℕ × SystemState) × List (Peer f)
  unfolding mark_unreachable clock_intersection clustered select
  update_from_peers now peers s =
      let r = clock_intersection f now (map mark_unreachable peers) in
      if r.0 == 0 then ((none, unsynchronized s), r.1) else (select now r.1 (clustered r.1) s, r.1)
