-- ===== src/Select/Outcome.antt =====
-- What an update of the system state leaves behind.
use ntpsec_rs.Prelude.{
  ℕ, zero, suc, ◌+◌, ◌≤◌, ◌≡◌, refl, sym, ◌∙◌, ap, subst, arith, min, Option, none, some, List, [],
  ◌∷◌, length, is_empty, ◌==◌, map, true, Bool-cases, Option-cases, some_eq, inl, inr, All,
}
use ntpsec_rs.Prelude.Bits.{bit}
use ntpsec_rs.Types.{NtpTs64}
use ntpsec_rs.Types.Leap.{alarm}
use ntpsec_rs.Proto.{is_reachable}
use ntpsec_rs.Float.{Float}
use ntpsec_rs.Peer.{Peer, get_elem?, contains, prefer}
use ntpsec_rs.Select.{passes}
use ntpsec_rs.Select.Intersection.{overlaps, mark, intersection_of, clock_intersection}
use ntpsec_rs.Select.Survivors.{IsPassing, clock_cluster-IsSelection}
use ntpsec_rs.Select.Marks.{passes_test9, test9_set, mark_test9}
use ntpsec_rs.Select.System.{
  SystemState, mark_unreachable, unsynchronized, find_prefer, synchronize, clustered, select,
  update_from_peers,
}

module _ (f : Float) where
  -- A peer without TEST9 is reachable.
  abbrev IsHonest : Peer f → Type 0
  IsHonest p = bit 8 p.flash ≡ 0 → is_reachable p.reach ≡ true

  mark_unreachable-IsHonest : (p : Peer f) → IsHonest (mark_unreachable f p)
  unfolding mark_unreachable
  mark_unreachable-IsHonest p = elim (Bool-cases (is_reachable p.reach)) [
    | inl e ↦ rw e (λ h. e)
    | inr e ↦ rw e (λ h. absurd (omega (arith, h, test9_set p.flash)))
  ]

  mark_reach :
      (now : NtpTs64) (interval : Option (f.F × f.F)) (p : Peer f)
      → (mark f now interval p).reach ≡ p.reach
  unfolding mark
  mark_reach now interval p = elim (Bool-cases (overlaps f now interval p)) [
    | inl e ↦ rw e refl
    | inr e ↦ rw e refl
  ]

  IsHonest-marked :
      (now : NtpTs64) (interval : Option (f.F × f.F)) (peers : List (Peer f))
      → All IsHonest peers
      → All IsHonest (map (mark f now interval) peers)
  IsHonest-marked now interval [] h = _
  IsHonest-marked now interval (p ∷ ps) h = (
    λ e. ap is_reachable (mark_reach now interval p) ∙ h.0 (sym (mark_test9 f now interval p) ∙ e),
    IsHonest-marked now interval ps h.1,
  )

  IsHonest-map_unreachable : (peers : List (Peer f)) → All IsHonest (map (mark_unreachable f) peers)
  IsHonest-map_unreachable [] = _
  IsHonest-map_unreachable (p ∷ ps) = (mark_unreachable-IsHonest p, IsHonest-map_unreachable ps)

  IsHonest-clock_intersection :
      (now : NtpTs64) (peers : List (Peer f))
      → All IsHonest peers
      → All IsHonest (clock_intersection f now peers).1
  unfolding clock_intersection
  IsHonest-clock_intersection now peers h = elim (Bool-cases (is_empty peers)) [
    | inl e ↦ rw e h
    | inr e ↦ rw e (IsHonest-marked now (intersection_of f now peers) peers h)
  ]

  All-get_elem? :
      (P : Peer f → Type 0) (i : ℕ) (peers : List (Peer f)) (p : Peer f)
      → All P peers
      → get_elem? f i peers ≡ some p
      → P p
  unfolding get_elem?
  All-get_elem? P i [] p h e = cc
  All-get_elem? P zero (q ∷ qs) p h e = subst P (some_eq e) h.0
  All-get_elem? P (suc i) (q ∷ qs) p h e = All-get_elem? P i qs p h.1 e

  -- The system peer is one of the survivors.
  All-find_prefer :
      (P : ℕ → Type 0) (peers : List (Peer f)) (first : ℕ) (is : List ℕ)
      → P first
      → All P is
      → P (find_prefer f peers first is)
  unfolding find_prefer
  All-find_prefer P peers first [] h hs = h
  All-find_prefer P peers first (i ∷ is) h hs = elim (Option-cases (get_elem? f i peers)) [
    | inl e ↦ rw (find_prefer, e) (All-find_prefer P peers first is h hs.1)
    | inr (p, e) ↦ elim (Bool-cases (contains p.flags prefer)) [
      | inl d ↦ rw (find_prefer, e, d) hs.0
      | inr d ↦ rw (find_prefer, e, d) (All-find_prefer P peers first is h hs.1)
    ]
  ]

  -- A system peer that was selected from the marked peers.
  pub record IsSynchronized (peers : List (Peer f)) (i : ℕ) (s : SystemState f) : Type 0 where
    pub peer : Peer f
    pub at_index : get_elem? f i peers ≡ some peer
    pub passed : passes peer.flash ≡ true
    pub reachable : is_reachable peer.reach ≡ true
    pub leap : s.leap ≡ peer.leap
    pub stratum : s.stratum ≡ min (peer.stratum + 1) 16
    pub reference_id : s.reference_id ≡ peer.reference_id
    pub some_peer : 1 ≤ s.peer_count
    pub few_peers : s.peer_count ≤ 3

  pub record IsUnsynchronized (s : SystemState f) : Type 0 where
    pub leap : s.leap ≡ alarm
    pub stratum : s.stratum ≡ 16
    pub reference_id : s.reference_id ≡ 0
    pub no_peer : s.peer_count ≡ 0

  abbrev pub IsUpdated : (Option ℕ × SystemState f) × List (Peer f) → Type 0
  IsUpdated ((none, s), peers) = IsUnsynchronized s
  IsUpdated ((some i, s), peers) = IsSynchronized peers i s

  unsynchronized-IsUnsynchronized : (s : SystemState f) → IsUnsynchronized (unsynchronized f s)
  unfolding unsynchronized
  unsynchronized-IsUnsynchronized s = record {
    leap = refl;
    stratum = refl;
    reference_id = refl;
    no_peer = refl;
  }

  select-IsUpdated :
      (now : NtpTs64) (peers : List (Peer f)) (survivors : List ℕ) (s : SystemState f)
      → All IsHonest peers
      → All (IsPassing f peers) survivors
      → length survivors ≤ 3
      → IsUpdated (select f now peers survivors s, peers)
  unfolding select synchronize
  select-IsUpdated now peers [] s honest valid few = unsynchronized-IsUnsynchronized s
  select-IsUpdated now peers (i ∷ is) s honest valid few =
      let (p, found, passed) = All-find_prefer (IsPassing f peers) peers i (i ∷ is) valid.0 valid in
      rw found (record {
        peer = p;
        at_index = found;
        passed = passed;
        reachable =
            All-get_elem? IsHonest (find_prefer f peers i (i ∷ is)) peers p honest found
              (passes_test9 p.flash passed);
        leap = refl;
        stratum = omega arith;
        reference_id = refl;
        some_peer = omega arith;
        few_peers = few;
      })

  -- An update either selects a system peer, which passes all tests and is reachable, takes its leap
  -- indicator and reference and a stratum above its own, at most 16, and counts one to three
  -- survivors, or it selects none and leaves the system with the alarm, stratum 16 and no survivor.
  pub update_from_peers-IsUpdated :
      (now : NtpTs64) (peers : List (Peer f)) (s : SystemState f)
      → IsUpdated (update_from_peers f now peers s)
  unfolding update_from_peers clustered
  update_from_peers-IsUpdated now peers s =
      let r = clock_intersection f now (map (mark_unreachable f) peers) in
      let c = clock_cluster-IsSelection f r.1 in
      elim (Bool-cases (r.0 == 0)) [
        | inl e ↦ rw e (unsynchronized-IsUnsynchronized s)
        | inr e ↦
            rw (e, clustered, c.result)
              (select-IsUpdated now r.1 c.survivors s
                (IsHonest-clock_intersection now (map (mark_unreachable f) peers)
                  (IsHonest-map_unreachable peers))
                c.valid c.few)
      ]
