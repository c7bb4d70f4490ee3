-- ===== src/Daemon/Update.antt =====
-- The selection with its discipline of the clock (`run_selection`), the status word of the system, and
-- the samples of reference clocks.
pub mod Status
pub mod Same
pub mod Outcome
use ntpsec_rs.Prelude.{
  ℕ, zero, suc, ◌+◌, ◌*◌, ◌%◌, ◌^◌, ◌||◌, ◌&&◌, bit_or, min, Option, none, some, List, [], ◌∷◌,
  ◌++◌, is_empty, ltb, ◌==◌, not, if◌then◌else◌, Bool,
}
use ntpsec_rs.Prelude.Bits.{low}
use ntpsec_rs.Prelude.Int.{ℤ, pos, ltb_ℤ, sub64, pos_part}
use ntpsec_rs.Types.{NtpTs64, NtpPacket, leap_indicator}
use ntpsec_rs.Types.Leap as Leap
use ntpsec_rs.Fp.{ntp_ts_to_ntpts}
use ntpsec_rs.Proto.{is_reachable}
use ntpsec_rs.Float.{Float}
use ntpsec_rs.Float as Float
use ntpsec_rs.Peer.{Peer, contains, prefer, get_elem?}
use ntpsec_rs.Peer.Poll.{accept_sample}
use ntpsec_rs.Select.System.{SystemState, update_from_peers, ntp_maxstrat}
use ntpsec_rs.Discipline.{local_clock}
use ntpsec_rs.Daemon.{
  System, DaemonEngine, DaemonAction, LogMessage, Handled, adjust_clock, persist_drift, log,
  saturating_next, with_peer, pps_override, status, unknown_refclock, refclock_crazy,
  refclock_selected,
}
use ntpsec_rs.Daemon.Response.{is_crazy}

module _ (f : Float) where
  -- The source is 0 without synchronization, 1 at stratum 1 and 3 otherwise; there is no event code.
  unfoldable pub clock_source : ℕ → ℕ
  clock_source stratum = if ltb stratum ntp_maxstrat then (if stratum == 1 then 1 else 3) else 0

  unfoldable pub compute_system_status : System f → ℕ
  unfolding Leap.to_bits clock_source
  compute_system_status s =
      bit_or
        (bit_or
          (bit_or (Leap.to_bits s.core.leap * 2 ^ 14) (low (clock_source s.core.stratum) 6 * 2 ^ 8))
          (low (min s.core.peer_count 15) 4 * 2 ^ 4))
        (low 0 4)

  unfoldable pub is_pps : Peer f → Bool
  unfolding is_reachable
  is_pps p =
      contains p.flags prefer
      && ((p.stratum == 0)
          && (is_reachable p.reach
              && (Float.lt f p.jitter (f.literal 1 3)
                  && Float.lt f (f.abs p.offset) (f.literal 1 3))))

  unfoldable pub find_pps_peer : List (Peer f) → Option (Peer f)
  unfolding is_pps
  find_pps_peer [] = none
  find_pps_peer (p ∷ ps) = if is_pps p then some p else find_pps_peer ps

  -- The seven fields that the loop copies.
  unfoldable pub write_back : List (Peer f) → List (Peer f) → List (Peer f)
  write_back (q ∷ qs) (p ∷ ps) =
      record q {
        offset = p.offset;
        delay = p.delay;
        dispersion = p.dispersion;
        jitter = p.jitter;
        stratum = p.stratum;
        leap = p.leap;
        flash = p.flash;
      }
      ∷ write_back qs ps
  write_back qs ps = qs

  -- The index of the system peer with its identifier, where the index is in range.
  unfoldable pub track_system_peer : Option ℕ → DaemonEngine f → DaemonEngine f
  unfolding get_elem?
  track_system_peer none e = record e {
    system_peer_id = none;
    system_peer_associd = none;
    system = record e.system {
      sys_peer_associd = 0;
      sel_broken = saturating_next e.system.sel_broken;
    };
  }
  track_system_peer (some i) e = elim (get_elem? f i e.peers.peers) [
    | none ↦ record e {
      system_peer_id = none;
      system_peer_associd = none;
      system = record e.system {
        sys_peer_associd = 0;
        sel_broken = saturating_next e.system.sel_broken;
      };
    }
    | some p ↦ record e {
      system_peer_id = some i;
      system_peer_associd = some p.associd;
      system = record e.system { sys_peer_associd = p.associd };
    }
  ]

  -- The offset for the loop filter, with what is logged for it.
  unfoldable pub effective_offset : Option (Peer f) → f.F → f.F × List (DaemonAction f)
  effective_offset none sys_offset = (sys_offset, [])
  effective_offset (some p) sys_offset = (p.offset, log (pps_override p.offset) ∷ [])

  -- `actions` are those before the discipline.
  unfoldable pub discipline_by : f.F × List (DaemonAction f) → NtpTs64 → DaemonEngine f → Handled f
  unfolding local_clock
  discipline_by (offset, actions) now e =
      let (adj, l) = local_clock f offset now e.loop_filter in
      (
        actions
            ++ adjust_clock adj
              ∷ ((if l.update_count % 100 == 0 then persist_drift l.frequency ∷ [] else [])
                  ++ (if l.update_count % 10 == 0 then log status ∷ [] else [])),
        record e { loop_filter = l; system = record e.system { sys_wander = l.wander } },
      )

  unfoldable pub discipline : NtpTs64 → DaemonEngine f → Handled f
  unfolding effective_offset find_pps_peer discipline_by
  discipline now e =
      if ltb 0 e.system.core.peer_count
      then discipline_by (effective_offset (find_pps_peer e.peers.peers) e.system.core.sys_offset)
          now e
      else ([], e)

  unfoldable pub flash_of : List (Peer f) → ℕ → ℕ
  flash_of [] agg = agg
  flash_of (p ∷ ps) agg = flash_of ps (bit_or agg p.flash)

  unfoldable pub uptime : NtpTs64 → System f → ℕ
  uptime now s =
      if ltb_ℤ (pos 0) s.start_time.seconds
      then pos_part (sub64 now.seconds s.start_time.seconds)
      else s.uptime_secs

  -- Uptime, status word and flash bits.
  unfoldable pub refresh : NtpTs64 → DaemonEngine f → DaemonEngine f
  unfolding uptime compute_system_status flash_of
  refresh now e = record e {
    system = record e.system {
      uptime_secs = uptime now e.system;
      sys_status = compute_system_status e.system;
      sys_flash = flash_of e.peers.peers 0;
    };
  }

  -- The state behind the selection itself.
  unfoldable pub selected :
      (Option ℕ × SystemState f) × List (Peer f) → DaemonEngine f → DaemonEngine f
  unfolding track_system_peer write_back
  selected ((chosen, core), marked) e =
      let tracked =
        track_system_peer chosen (record e { system = record e.system { core = core } }) in
      record tracked { peers = record { peers = write_back tracked.peers.peers marked } }

  unfoldable pub refreshed : NtpTs64 → Handled f → Handled f
  unfolding refresh
  refreshed now (actions, e) = (actions, refresh now e)

  unfoldable pub run_selection : NtpTs64 → DaemonEngine f → Handled f
  unfolding update_from_peers selected discipline refreshed
  run_selection now e =
      if is_empty e.peers.peers
      then ([], e)
      else refreshed now
          (discipline now (selected (update_from_peers f now e.peers.peers e.system.core) e))

  -- `position(|p| p.associd == associd)` with the peer.
  unfoldable pub find_associd : ℕ → ℕ → List (Peer f) → Option (ℕ × Peer f)
  find_associd associd i [] = none
  find_associd associd i (p ∷ ps) =
      if p.associd == associd then some (i, p) else find_associd associd (suc i) ps

  unfoldable pub refclock_sampled : NtpPacket → f.F → ℤ → NtpTs64 → Peer f → Peer f
  unfolding accept_sample leap_indicator ntp_ts_to_ntpts
  refclock_sampled packet offset precision rx_time p =
      accept_sample f offset (f.literal 1 3) (f.powi (f.literal 2 0) precision) rx_time (record p {
        stratum = 0;
        leap = leap_indicator packet;
        precision = packet.precision;
        root_delay = Float.zero f;
        root_dispersion = Float.zero f;
        reference_id = packet.reference_id;
        reference_time = ntp_ts_to_ntpts packet.reference_ts;
        receive_time = rx_time;
        transmit_time = ntp_ts_to_ntpts packet.transmit_ts;
      })

  unfoldable pub is_system_peer : ℕ → DaemonEngine f → Bool
  is_system_peer associd e = elim e.system_peer_associd [
    | none ↦ Bool.false
    | some i ↦ i == associd
  ]

  unfoldable pub note_selected : ℕ → Handled f → Handled f
  unfolding is_system_peer
  note_selected associd (actions, e) =
      if is_system_peer associd e
      then (actions ++ log (refclock_selected associd) ∷ [], e)
      else (actions, e)

  unfoldable pub handle_refclock_sample : ℕ → NtpPacket → NtpTs64 → DaemonEngine f → Handled f
  unfolding find_associd is_crazy refclock_sampled run_selection note_selected ntp_ts_to_ntpts
  handle_refclock_sample associd packet rx_time e = elim (find_associd associd 0 e.peers.peers) [
    | none ↦ (log (unknown_refclock associd) ∷ [], e)
    | some (i, p) ↦
        let offset =
          f.sub (Float.ntp_ts64_to_double f (ntp_ts_to_ntpts packet.transmit_ts))
            (Float.ntp_ts64_to_double f rx_time) in
        if is_crazy f offset
        then (log (refclock_crazy associd offset) ∷ [], e)
        else note_selected associd (
            run_selection rx_time
              (with_peer f i (refclock_sampled packet offset e.precision rx_time p) e))
  ]
