-- ===== src/Daemon/Receive.antt =====
-- `handle_packet`: what the daemon does with a datagram. The handler of mode 6 is an argument.
pub mod Reply
pub mod Symmetric
use ntpsec_rs.Prelude.{
  ℕ, ◌+◌, ◌%◌, ◌^◌, ◌||◌, ◌&&◌, Option, none, some, List, [], ◌∷◌, ◌++◌, length, is_empty, ltb, leb,
  ◌==◌, not, if◌then◌else◌, Bool, true, false, Result, ok, err,
}
use ntpsec_rs.Prelude.Bits.{shr}
use ntpsec_rs.Prelude.Bytes.{same_bytes, byte_at}
use ntpsec_rs.Prelude.Int.{ℤ, pos}
use ntpsec_rs.Types.{NtpTs64, NtpPacket}
use ntpsec_rs.Types.Mode.{
  NtpMode, reserved, sym_active, sym_passive, client, server, broadcast, ntp_control, private,
}
use ntpsec_rs.Types.Mode as Mode
use ntpsec_rs.Types.Version as Version
use ntpsec_rs.Types.Version.{v4}
use ntpsec_rs.Types.Header.{encode_header, decode_header, HeaderError}
use ntpsec_rs.Fp.{ntp_ts_to_ntpts}
use ntpsec_rs.Restrict.{NetAddr, RestrictAction, accept, discard, send_kod, ignore, check, has_flag}
use ntpsec_rs.Timer.{schedule_poll}
use ntpsec_rs.Monitor.{is_rate_limited, same_source}
use ntpsec_rs.Proto.Packets.{same_mode, build_kod_packet, build_response}
use ntpsec_rs.Float.{Float}
use ntpsec_rs.Float as Float
use ntpsec_rs.Peer.{Peer, PeerAddr, new, add, same_addr}
use ntpsec_rs.Select.System.{ntp_maxstrat}
use ntpsec_rs.Daemon.{
  ReceivedDatagram, ServerCounters, DaemonEngine, DaemonAction, LogMessage, Handled, send, log,
  saturating_next, with_counters, same_netaddr, is_ipv4_loopback, peer_addr, system_view,
  empty_packet, kod_for_control, bad_packet_header, loopcast, packet_too_short, created_passive,
  unknown_broadcast, broadcast_offset, private_mode,
}
use ntpsec_rs.Daemon.Associd.{allocate_associd}
use ntpsec_rs.Daemon.Response.{handle_server_response}

abbrev pub count_thisver : ServerCounters → ServerCounters
count_thisver c = record c { thisver = saturating_next c.thisver }

abbrev pub count_oldver : ServerCounters → ServerCounters
count_oldver c = record c { oldver = saturating_next c.oldver }

abbrev pub count_rejected : ServerCounters → ServerCounters
count_rejected c = record c { rejected = saturating_next c.rejected }

abbrev pub count_restricted : ServerCounters → ServerCounters
count_restricted c = record c { restricted = saturating_next c.restricted }

abbrev pub count_kodsent : ServerCounters → ServerCounters
count_kodsent c = record c { kodsent = saturating_next c.kodsent }

abbrev pub count_limited : ServerCounters → ServerCounters
count_limited c = record c { limited = saturating_next c.limited }

abbrev pub count_badlength : ServerCounters → ServerCounters
count_badlength c = record c { badlength = saturating_next c.badlength }

abbrev pub count_declined : ServerCounters → ServerCounters
count_declined c = record c { declined = saturating_next c.declined }

abbrev pub count_received : ServerCounters → ServerCounters
count_received c = record c { received = saturating_next c.received }

-- Versions 3 and 4 count as this version; `from_bits` makes 4 of the unknown ones.
unfoldable pub count_version : ℕ → ServerCounters → ServerCounters
unfolding Version.from_bits Version.to_bits
count_version first c =
    if leb 3 (Version.to_bits (Version.from_bits (shr first 3)))
    then count_thisver c
    else count_oldver c

-- A client, or a symmetric active peer.
unfoldable pub is_request : NtpMode → Bool
is_request client = true
is_request sym_active = true
is_request m = false

module _ (f : Float) where
  -- A kiss-o'-death with its code, back to the source.
  unfoldable pub kiss : NtpPacket → ℕ → ℕ → ℕ → ℕ → ReceivedDatagram → DaemonAction f
  unfolding build_kod_packet encode_header
  kiss pkt a b c d dgram = send dgram.source (encode_header (build_kod_packet pkt a b c d))

  unfoldable pub respond : NtpPacket → ReceivedDatagram → DaemonEngine f → DaemonAction f
  unfolding build_response system_view encode_header
  respond pkt d e =
      send d.source (
        encode_header (build_response pkt none (system_view f e.system) d.rx_timestamp e.precision))

  unfoldable pub handle_request : NtpPacket → ReceivedDatagram → DaemonEngine f → Handled f
  unfolding respond
  handle_request pkt d e =
      if leb ntp_maxstrat e.system.core.stratum
      then ([], with_counters f count_declined e)
      else (respond pkt d e ∷ [], with_counters f count_received e)

  -- The closure of `any`: an association with this address and port.
  unfoldable pub any_with_addr : PeerAddr → List (Peer f) → Bool
  unfolding same_addr
  any_with_addr addr [] = false
  any_with_addr addr (p ∷ ps) = same_addr f p.srcaddr addr || any_with_addr addr ps

  abbrev pub passive_peer : ReceivedDatagram → ℕ → Peer f
  passive_peer d associd = record (new f (peer_addr d.source) sym_active v4 4 10) {
    hmode = sym_passive;
    pmode = sym_passive;
    associd = associd;
  }

  -- `None` still moves the next identifier on.
  unfoldable pub create_passive : ReceivedDatagram → Option ℕ × ℕ → DaemonEngine f → Handled f
  unfolding new add schedule_poll peer_addr
  create_passive d (none, next) e = ([], record e { next_associd = next })
  create_passive d (some associd, next) e = (
    log (created_passive associd) ∷ [],
    record e {
      next_associd = next;
      peers = add f (passive_peer d associd) e.peers;
      timers = schedule_poll (length e.peers.peers) (pos 0) 0 e.timers;
    },
  )

  unfoldable pub associate : ReceivedDatagram → DaemonEngine f → Handled f
  unfolding any_with_addr create_passive peer_addr
  associate d e =
      if any_with_addr (peer_addr d.source) e.peers.peers
      then ([], e)
      else create_passive d (allocate_associd f e.next_associd e.peers) e

  -- The response comes behind the actions before it.
  unfoldable pub respond_passive : NtpPacket → ReceivedDatagram → Handled f → Handled f
  unfolding respond
  respond_passive pkt d (actions, e) =
      if leb ntp_maxstrat e.system.core.stratum
      then (actions, e)
      else (actions ++ respond pkt d e ∷ [], e)

  unfoldable pub handle_passive : NtpPacket → ReceivedDatagram → DaemonEngine f → Handled f
  unfolding respond_passive associate
  handle_passive pkt d e = respond_passive pkt d (associate d (with_counters f count_received e))

  -- The closure of `any`: a broadcast association with this address.
  unfoldable pub any_broadcast : PeerAddr → List (Peer f) → Bool
  unfolding same_mode same_source
  any_broadcast addr [] = false
  any_broadcast addr (p ∷ ps) =
      same_mode p.hmode broadcast && same_source p.srcaddr.sock addr.sock || any_broadcast addr ps

  abbrev pub one_way_offset : NtpPacket → ReceivedDatagram → f.F
  one_way_offset pkt d =
      f.sub (Float.ntp_ts64_to_double f (ntp_ts_to_ntpts pkt.transmit_ts))
        (Float.ntp_ts64_to_double f d.rx_timestamp)

  -- The offset is logged and used for nothing else.
  unfoldable pub handle_broadcast : NtpPacket → ReceivedDatagram → DaemonEngine f → Handled f
  unfolding any_broadcast peer_addr ntp_ts_to_ntpts
  handle_broadcast pkt d e =
      let offset = one_way_offset pkt d in
      let e' = with_counters f count_received e in
      if not (any_broadcast (peer_addr d.source) e.peers.peers)
      then (log unknown_broadcast ∷ [], e')
      else if Float.lt f (f.abs offset) (f.literal 1 0) && f.is_finite offset
      then (log (broadcast_offset offset) ∷ [], e')
      else ([], e')

  -- The last case is `unreachable!`: mode 6 has left before.
  unfoldable pub handle_mode : NtpMode → NtpPacket → ReceivedDatagram → DaemonEngine f → Handled f
  unfolding handle_request handle_server_response handle_passive handle_broadcast
  handle_mode client pkt d e = handle_request pkt d e
  handle_mode sym_active pkt d e = handle_request pkt d e
  handle_mode server pkt d e = handle_server_response f pkt d (with_counters f count_received e)
  handle_mode sym_passive pkt d e = handle_passive pkt d e
  handle_mode broadcast pkt d e = handle_broadcast pkt d e
  handle_mode private pkt d e = (log private_mode ∷ [], with_counters f count_rejected e)
  handle_mode reserved pkt d e = ([], e)
  handle_mode ntp_control pkt d e = ([], e)

  unfoldable pub handle_sized : NtpMode → NtpPacket → ReceivedDatagram → DaemonEngine f → Handled f
  unfolding handle_mode
  handle_sized mode pkt d e =
      if ltb (length d.bytes) 48
      then (log packet_too_short ∷ [], with_counters f count_badlength e)
      else handle_mode mode pkt d e

  -- The code is RATE, and KOD is bit 8.
  unfoldable pub handle_limited : ℕ → NtpPacket → ReceivedDatagram → DaemonEngine f → Handled f
  unfolding kiss has_flag
  handle_limited flags pkt d e =
      let e' = with_counters f count_limited e in
      if has_flag 8 flags
      then (kiss pkt b'R' b'A' b'T' b'E' d ∷ [], with_counters f count_kodsent e')
      else ([], e')

  unfoldable pub handle_accepted :
      ℕ → NtpMode → NtpPacket → ReceivedDatagram → DaemonEngine f → Handled f
  unfolding is_request is_rate_limited handle_limited handle_sized
  handle_accepted flags mode pkt d e =
      if is_request mode && (is_rate_limited f d.source e.monitor).0
      then handle_limited flags pkt d e
      else handle_sized mode pkt d e

  -- The code is DENY.
  unfoldable pub handle_checked :
      RestrictAction × ℕ → NtpMode → NtpPacket → ReceivedDatagram → DaemonEngine f → Handled f
  unfolding handle_accepted kiss
  handle_checked (accept, flags) mode pkt d e = handle_accepted flags mode pkt d e
  handle_checked (discard, flags) mode pkt d e = ([], with_counters f count_restricted e)
  handle_checked (ignore, flags) mode pkt d e = ([], with_counters f count_restricted e)
  handle_checked (send_kod, flags) mode pkt d e = (
    kiss pkt b'D' b'E' b'N' b'Y' d ∷ [],
    with_counters f count_kodsent (with_counters f count_restricted e),
  )

  unfoldable pub handle_decoded :
      NtpMode → Result HeaderError NtpPacket → ReceivedDatagram → DaemonEngine f → Handled f
  unfolding handle_checked same_netaddr is_ipv4_loopback check
  handle_decoded mode (err h) d e = (log bad_packet_header ∷ [], with_counters f count_rejected e)
  handle_decoded mode (ok pkt) d e =
      if same_netaddr d.source d.destination && not (is_ipv4_loopback d.source)
      then (log loopcast ∷ [], with_counters f count_rejected e)
      else handle_checked (check e.restrictions d.source mode) mode pkt d e

  abbrev pub first_byte : ReceivedDatagram → ℕ
  first_byte d = byte_at d.bytes 0

  unfoldable pub handle_time_packet : NtpMode → ReceivedDatagram → DaemonEngine f → Handled f
  unfolding count_version decode_header handle_decoded
  handle_time_packet mode d e =
      handle_decoded mode (decode_header d.bytes) d
        (with_counters f (count_version (first_byte d)) e)

  module _ (handle_control : List ℕ → NetAddr → DaemonEngine f → Handled f) where
    unfoldable pub handle_control_packet :
        RestrictAction × ℕ → ReceivedDatagram → DaemonEngine f → Handled f
    handle_control_packet (accept, flags) d e = handle_control d.bytes d.source e
    handle_control_packet (discard, flags) d e = ([], e)
    handle_control_packet (ignore, flags) d e = ([], e)
    handle_control_packet (send_kod, flags) d e = (log kod_for_control ∷ [], e)

    unfoldable pub handle_packet : ReceivedDatagram → DaemonEngine f → Handled f
    unfolding handle_control_packet handle_time_packet same_mode check Mode.from_bits
    handle_packet d e =
        if is_empty d.bytes
        then (log empty_packet ∷ [], e)
        else if same_mode (Mode.from_bits (first_byte d)) ntp_control
        then handle_control_packet (check e.restrictions d.source ntp_control) d e
        else handle_time_packet (Mode.from_bits (first_byte d)) d e
