-- ===== src/Daemon/Response.antt =====
-- `handle_server_response`: a packet of mode 4 against the requests that await one.
pub mod Effect
use ntpsec_rs.Prelude.{
  ℕ, ◌+◌, ◌*◌, ◌/◌, ◌%◌, ◌^◌, ◌||◌, ◌&&◌, Option, none, some, List, [], ◌∷◌, leb, ◌==◌, not,
  if◌then◌else◌, Bool,
}
use ntpsec_rs.Prelude.Int.{ℤ, leb_ℤ}
use ntpsec_rs.Types.{NtpTs64, NtpPacket, leap_indicator, mode}
use ntpsec_rs.Fp.{ntp_ts_to_ntpts}
use ntpsec_rs.Auth.{is_auth_enabled}
use ntpsec_rs.Proto.{record_failure}
use ntpsec_rs.Float.{Float}
use ntpsec_rs.Float as Float
use ntpsec_rs.Peer.{Peer, get}
use ntpsec_rs.Peer.Poll.{accept_sample, poll_update}
use ntpsec_rs.Select.System.{ntp_maxstrat}
use ntpsec_rs.Daemon.{
  ReceivedDatagram, PendingRequest, DaemonEngine, DaemonAction, LogMessage, Handled, log, with_peer,
  duplicate_packet, kiss_of_death, crazy_offset, auth_not_wired,
}
use ntpsec_rs.Daemon.Pending.{find_pending_request, request_at, remove_request}

-- `==` on the derived `PartialEq` of a time.
unfoldable pub same_ts64 : NtpTs64 → NtpTs64 → Bool
same_ts64 a b = leb_ℤ a.seconds b.seconds && leb_ℤ b.seconds a.seconds && (a.fraction == b.fraction)

module _ (f : Float) where
  unfoldable pub compute_offsets : NtpTs64 → NtpTs64 → NtpTs64 → NtpTs64 → f.F × f.F
  compute_offsets t1 t2 t3 t4 =
      let s1 = Float.ntp_ts64_to_double f t1 in
      let s2 = Float.ntp_ts64_to_double f t2 in
      let s3 = Float.ntp_ts64_to_double f t3 in
      let s4 = Float.ntp_ts64_to_double f t4 in
      (f.div (f.add (f.sub s2 s1) (f.sub s3 s4)) (f.literal 2 0), f.sub (f.sub s4 s1) (f.sub s3 s2))

  -- `ntp_short_to_double` of the two halves of the word.
  unfoldable pub short_to_double : ℕ → f.F
  short_to_double v =
      f.add (f.of_ℕ (v / 2 ^ 16 % 2 ^ 16)) (f.div (f.of_ℕ (v % 2 ^ 16)) (f.literal 65536 0))

  unfoldable pub is_crazy : f.F → Bool
  is_crazy offset = not (f.is_finite offset) || Float.gt f (f.abs offset) (f.literal 1000000 0)

  -- The variables that the packet gives.
  unfoldable pub with_header : NtpPacket → Peer f → Peer f
  unfolding short_to_double ntp_ts_to_ntpts leap_indicator
  with_header pkt p = record p {
    stratum = pkt.stratum;
    leap = leap_indicator pkt;
    precision = pkt.precision;
    root_delay = short_to_double pkt.root_delay;
    root_dispersion = short_to_double pkt.root_dispersion;
    reference_id = pkt.reference_id;
    reference_time = ntp_ts_to_ntpts pkt.reference_ts;
  }

  -- `ntp_short_to_double(..) + (1u64 << peer.hpoll) as f64 * 1e-6`
  abbrev pub sample_dispersion : NtpPacket → Peer f → f.F
  sample_dispersion pkt p =
      f.add (short_to_double pkt.root_dispersion) (f.mul (f.of_ℕ (2 ^ p.hpoll)) (f.literal 1 6))

  -- The peer behind a response that is taken.
  unfoldable pub sampled : NtpPacket → f.F → f.F → NtpTs64 → NtpTs64 → Peer f → Peer f
  unfolding with_header accept_sample poll_update
  sampled pkt offset delay t1 now p =
      let accepted =
        accept_sample f offset (f.max delay (Float.zero f)) (sample_dispersion pkt p) now
          (with_header pkt p) in
      poll_update f (record accepted { originate_time = t1 })

  abbrev pub without_request : ℕ → DaemonEngine f → DaemonEngine f
  without_request i e = record e { pending_requests = remove_request i e.pending_requests }

  abbrev pub failed : Peer f → Peer f
  failed p = record p { reach = record_failure p.reach }

  -- The offset and delay, and then the sample.
  unfoldable pub measured :
      ℕ → PendingRequest → Peer f → NtpPacket → NtpTs64 → f.F × f.F → DaemonEngine f → Handled f
  unfolding is_crazy sampled
  measured i req p pkt now (offset, delay) e =
      if is_crazy offset then (log crazy_offset ∷ [], without_request i e) else (
        if is_auth_enabled e.auth then log auth_not_wired ∷ [] else [],
        without_request i (with_peer f req.peer_id (sampled pkt offset delay req.full_t1 now p) e),
      )

  unfoldable pub for_peer :
      ℕ → PendingRequest → Peer f → NtpPacket → NtpTs64 → DaemonEngine f → Handled f
  unfolding same_ts64 measured compute_offsets ntp_ts_to_ntpts
  for_peer i req p pkt now e =
      if same_ts64 p.originate_time req.full_t1
      then (log duplicate_packet ∷ [], e)
      else if pkt.stratum == 0
      then (
        log (kiss_of_death pkt.reference_id) ∷ [],
        without_request i (with_peer f req.peer_id (failed p) e),
      )
      else if leb ntp_maxstrat pkt.stratum
      then ([], without_request i (with_peer f req.peer_id (failed p) e))
      else measured i req p pkt now
          (compute_offsets req.full_t1 (ntp_ts_to_ntpts pkt.receive_ts)
            (ntp_ts_to_ntpts pkt.transmit_ts) now)
          e

  -- `pending_requests[i]`, at an index that was found, and `peers.get_mut(peer_id)`.
  unfoldable pub for_request :
      ℕ → Option PendingRequest → NtpPacket → NtpTs64 → DaemonEngine f → Handled f
  unfolding for_peer get
  for_request i none pkt now e = ([], e)
  for_request i (some req) pkt now e = elim (get f req.peer_id e.peers) [
    | none ↦ ([], e)
    | some p ↦ for_peer i req p pkt now e
  ]

  unfoldable pub found : Option ℕ → NtpPacket → NtpTs64 → DaemonEngine f → Handled f
  unfolding for_request request_at
  found none pkt now e = ([], e)
  found (some i) pkt now e = for_request i (request_at i e.pending_requests) pkt now e

  unfoldable pub handle_server_response : NtpPacket → ReceivedDatagram → DaemonEngine f → Handled f
  unfolding found find_pending_request mode
  handle_server_response pkt d e =
      found (find_pending_request pkt.originate_ts d.source (mode pkt) e.pending_requests) pkt
        d.rx_timestamp e
