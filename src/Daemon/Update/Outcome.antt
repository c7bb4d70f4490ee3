-- ===== src/Daemon/Update/Outcome.antt =====
-- What a run of the selection leaves behind.
use ntpsec_rs.Prelude.{
  ℕ, ◌+◌, ◌%◌, ◌≤◌, ◌≡◌, refl, sym, ◌∙◌, ap, subst, arith, Option, none, some, List, [], ◌∷◌, ◌++◌,
  is_empty, ltb, ◌==◌, if◌then◌else◌, Bool, true, false, Bool-cases, some_eq, inl, inr,
}
use ntpsec_rs.Types.{NtpTs64}
use ntpsec_rs.Float.{Float}
use ntpsec_rs.Peer.{Peer, PeerTable, get_elem?}
use ntpsec_rs.Select.System.{SystemState, update_from_peers}
use ntpsec_rs.Select.Outcome.{
  IsSynchronized, IsUnsynchronized, IsUpdated, update_from_peers-IsUpdated,
}
use ntpsec_rs.Discipline.{local_clock}
use ntpsec_rs.Daemon.{
  DaemonEngine, DaemonAction, Handled, adjust_clock, persist_drift, send, log, status,
}
use ntpsec_rs.Daemon.Update.{
  track_system_peer, find_pps_peer, effective_offset, discipline_by, discipline, selected, refresh,
  refreshed, run_selection,
}
use ntpsec_rs.Daemon.Update.Same.{Same, write_back-Same, get-Same, update_from_peers-Same}

module _ (f : Float) where
  -- How often the clock is adjusted.
  abbrev pub adjustments : List (DaemonAction f) → ℕ
  adjustments [] = 0
  adjustments (adjust_clock a ∷ actions) = adjustments actions + 1
  adjustments (a ∷ actions) = adjustments actions

  adjustments-append :
      (xs ys : List (DaemonAction f)) → adjustments (xs ++ ys) ≡ adjustments xs + adjustments ys
  adjustments-append [] ys = omega arith
  adjustments-append (send to bytes ∷ xs) ys = adjustments-append xs ys
  adjustments-append (adjust_clock a ∷ xs) ys = omega (arith, adjustments-append xs ys)
  adjustments-append (persist_drift v ∷ xs) ys = adjustments-append xs ys
  adjustments-append (log m ∷ xs) ys = adjustments-append xs ys

  effective_offset-adjustments :
      (o : Option (Peer f)) (v : f.F) → adjustments (effective_offset f o v).1 ≡ 0
  unfolding effective_offset
  effective_offset-adjustments none v = refl
  effective_offset-adjustments (some p) v = refl

  quiet_if :
      (b : Bool) (a : DaemonAction f)
      → adjustments (a ∷ []) ≡ 0
      → adjustments (if b then a ∷ [] else []) ≡ 0
  quiet_if true a h = h
  quiet_if false a h = refl

  discipline_by-adjustments :
      (o : f.F × List (DaemonAction f)) (now : NtpTs64) (e : DaemonEngine f)
      → adjustments o.1 ≡ 0
      → adjustments (discipline_by f o now e).0 ≡ 1
  unfolding discipline_by
  discipline_by-adjustments (offset, actions) now e h =
      let r = local_clock f offset now e.loop_filter in
      let drift : List (DaemonAction f) =
        if r.1.update_count % 100 == 0 then persist_drift r.1.frequency ∷ [] else [] in
      let text : List (DaemonAction f) =
        if r.1.update_count % 10 == 0 then log status ∷ [] else [] in
      omega (
        arith,
        adjustments-append actions (adjust_clock r.0 ∷ (drift ++ text)),
        adjustments-append drift text,
        quiet_if (r.1.update_count % 100 == 0) (persist_drift r.1.frequency) refl,
        quiet_if (r.1.update_count % 10 == 0) (log status) refl,
        h,
      )

  -- The discipline of a system with a survivor and of one without.
  discipline-some :
      (now : NtpTs64) (e : DaemonEngine f)
      → 1 ≤ e.system.core.peer_count
      → adjustments (discipline f now e).0 ≡ 1
  unfolding discipline
  discipline-some now e h =
      let pps = find_pps_peer f e.peers.peers in
      let some_peer : ltb 0 e.system.core.peer_count ≡ true = ground (arith, h) in
      rw some_peer (
        discipline_by-adjustments (effective_offset f pps e.system.core.sys_offset) now e
          (effective_offset-adjustments pps e.system.core.sys_offset))

  discipline-none :
      (now : NtpTs64) (e : DaemonEngine f)
      → e.system.core.peer_count ≡ 0
      → discipline f now e ≡ ([], e)
  unfolding discipline
  discipline-none now e h = rw h refl

  discipline-keeps :
      (now : NtpTs64) (e : DaemonEngine f)
      → ((discipline f now e).1.peers ≡ e.peers)
        × ((discipline f now e).1.system_peer_id ≡ e.system_peer_id)
        × ((discipline f now e).1.system_peer_associd ≡ e.system_peer_associd)
        × ((discipline f now e).1.system.core ≡ e.system.core)
  unfolding discipline discipline_by
  discipline-keeps now e = elim (Bool-cases (ltb 0 e.system.core.peer_count)) [
    | inl some_peer ↦ rw some_peer (refl, refl, refl, refl)
    | inr no_peer ↦ rw no_peer (refl, refl, refl, refl)
  ]

  -- A run either leaves a system peer, known by index and by identifier, with what the system has from
  -- it and one adjustment of the clock; or no system peer, an unsynchronized system and no action.
  pub data Outcome (h : Handled f) : Type 0 where
    synchronized :
        (i : ℕ)
        → (sync : IsSynchronized f h.1.peers.peers i h.1.system.core) → h.1.system_peer_id ≡ some i
        → h.1.system_peer_associd ≡ some sync.peer.associd
        → adjustments h.0 ≡ 1
        → Outcome h
    unsynchronized :
        IsUnsynchronized f h.1.system.core
        → h.1.system_peer_id ≡ none
        → h.1.system_peer_associd ≡ none
        → h.0 ≡ []
        → Outcome h

  -- The state between selection and discipline.
  abbrev IsTracked : (Option ℕ × SystemState f) × List (Peer f) → DaemonEngine f → Type 0
  IsTracked ((none, core), marked) e =
      (e.system.core ≡ core)
      × (e.peers.peers ≡ marked)
      × (e.system_peer_id ≡ none)
      × (e.system_peer_associd ≡ none)
  IsTracked ((some i, core), marked) e =
      (e.system.core ≡ core)
      × (e.peers.peers ≡ marked)
      × (e.system_peer_id ≡ some i)
      × ((p : Peer f) → get_elem? f i marked ≡ some p → e.system_peer_associd ≡ some p.associd)

  selected-IsTracked :
      (u : (Option ℕ × SystemState f) × List (Peer f)) (e : DaemonEngine f)
      → Same f u.1 e.peers.peers
      → IsUpdated f u
      → IsTracked u (selected f u e)
  unfolding selected track_system_peer
  selected-IsTracked ((none, core), marked) e same h =
      (refl, write_back-Same f marked e.peers.peers same, refl, refl)
  selected-IsTracked ((some i, core), marked) e same h =
      let (q, (there, same_associd)) = get-Same f i marked e.peers.peers h.peer same h.at_index in
      rw (track_system_peer, there)
        (
          refl,
          write_back-Same f marked e.peers.peers same,
          refl,
          λ p found.
              ap some
                (same_associd ∙ ap (λ (x : Peer f). x.associd) (some_eq (sym h.at_index ∙ found))),
        )

  synchronized-Outcome :
      (h : Handled f) (i : ℕ) (marked : List (Peer f)) (core : SystemState f)
      (sync : IsSynchronized f marked i core)
      → h.1.peers.peers ≡ marked
      → h.1.system.core ≡ core
      → h.1.system_peer_id ≡ some i
      → h.1.system_peer_associd ≡ some sync.peer.associd
      → adjustments h.0 ≡ 1
      → Outcome h
  synchronized-Outcome h i marked core sync same_peers same_core id associd once =
      synchronized i
        (record {
          peer = sync.peer;
          at_index = ap (get_elem? f i) same_peers ∙ sync.at_index;
          passed = sync.passed;
          reachable = sync.reachable;
          leap = ap (λ (c : SystemState f). c.leap) same_core ∙ sync.leap;
          stratum = ap (λ (c : SystemState f). c.stratum) same_core ∙ sync.stratum;
          reference_id = ap (λ (c : SystemState f). c.reference_id) same_core ∙ sync.reference_id;
          some_peer = rw same_core sync.some_peer;
          few_peers = rw same_core sync.few_peers;
        })
        id associd once

  refreshed-Outcome :
      (now : NtpTs64) (u : (Option ℕ × SystemState f) × List (Peer f)) (t : DaemonEngine f)
      → IsUpdated f u
      → IsTracked u t
      → Outcome (refreshed f now (discipline f now t))
  unfolding refreshed refresh
  refreshed-Outcome now ((none, core), marked) t h tracked =
      rw (discipline-none now t (ap (λ (c : SystemState f). c.peer_count) tracked.0 ∙ h.no_peer))
        (unsynchronized (subst (IsUnsynchronized f) (sym tracked.0) h) tracked.2 tracked.3 refl)
  refreshed-Outcome now ((some i, core), marked) t h tracked =
      let keeps = discipline-keeps now t in
      synchronized-Outcome (refreshed f now (discipline f now t)) i marked core h
        (ap (λ (ps : PeerTable f). ps.peers) keeps.0 ∙ tracked.1) (keeps.3 ∙ tracked.0)
        (keeps.1 ∙ tracked.2) (keeps.2 ∙ tracked.3 h.peer h.at_index)
        (discipline-some now t (rw tracked.0 h.some_peer))

  -- A run of the selection over at least one peer ends in one of two ways. Either there is a system peer
  -- in the table, which is reachable and passes all tests; the daemon knows it by its index and by its
  -- association identifier, the system has its leap indicator, its reference and the next stratum, and
  -- the clock is adjusted exactly once. Or there is none, the system is unsynchronized, and the clock
  -- is left alone.
  pub run_selection-Outcome :
      (now : NtpTs64) (e : DaemonEngine f)
      → is_empty e.peers.peers ≡ false
      → Outcome (run_selection f now e)
  unfolding run_selection
  run_selection-Outcome now e h =
      let u = update_from_peers f now e.peers.peers e.system.core in
      let updated = update_from_peers-IsUpdated f now e.peers.peers e.system.core in
      rw h (
        refreshed-Outcome now u (selected f u e) updated (
          selected-IsTracked u e (update_from_peers-Same f now e.peers.peers e.system.core h)
            updated))
