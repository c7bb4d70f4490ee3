-- ===== src/Daemon/Examples.antt =====
-- Two daemons at concrete inputs, with natural numbers in place of floating point.
use ntpsec_rs.Prelude.{ℕ, ◌≡◌, refl, arith, List, [], ◌∷◌, replicate, false, some, none}
use ntpsec_rs.Prelude.Int.{pos, negsuc, u64_of_ℤ}
use ntpsec_rs.Types.{NtpTs64, NtpPacket, IsPacket}
use ntpsec_rs.Proto.Packets.{same_mode, build_response}
use ntpsec_rs.Float.{ntp_ts64_to_double}
use ntpsec_rs.Daemon.{same_netaddr, is_ipv4_loopback, system_view}
use ntpsec_rs.Daemon.Response.{same_ts64, is_crazy, compute_offsets}
use ntpsec_rs.Daemon.Tick.Delivery.{IsAdmitted, IsUsable}
use ntpsec_rs.Types.Leap.{no_warning}
use ntpsec_rs.Types.Mode.{client, server, sym_active, sym_passive}
use ntpsec_rs.Types.Version as Version
use ntpsec_rs.Types.Version.{v4}
use ntpsec_rs.Fp.{ntp_ts_to_ntpts}
use ntpsec_rs.Restrict.{NetAddr, inet, accept}
use ntpsec_rs.Restrict as Restrict
use ntpsec_rs.Auth as Auth
use ntpsec_rs.Monitor as Monitor
use ntpsec_rs.Peer as Peer
use ntpsec_rs.Peer.{PeerAddr}
use ntpsec_rs.Float.Toy.{toy}
use ntpsec_rs.Discipline as Discipline
use ntpsec_rs.Discipline.{pll_fll}
use ntpsec_rs.Timer.{poll}
use ntpsec_rs.Select.System.{SystemState}
use ntpsec_rs.Daemon.{DaemonEngine, Handled, ReceivedDatagram, ServerCounters}
use ntpsec_rs.Prelude.{All}
use ntpsec_rs.Types.{mode}
use ntpsec_rs.Types.Mode as Mode
use ntpsec_rs.Types.Mode.{ntp_control}
use ntpsec_rs.Types.Header.{encode_header}
use ntpsec_rs.Daemon.{peer_addr}
use ntpsec_rs.Daemon.Response.{handle_server_response}
use ntpsec_rs.Daemon.Response.Effect.{IsHandled, handle_server_response-IsHandled}
use ntpsec_rs.Daemon.Receive.{first_byte, handle_mode, passive_peer}
use ntpsec_rs.Daemon.Receive.Reply.{IsQuiet, handle_packet-IsQuiet}
use ntpsec_rs.Daemon.Receive.Symmetric.{IsKept, ExpectsPassive, handle_mode-IsKept}
use ntpsec_rs.Proto.{record_success}
use ntpsec_rs.Daemon.Update.{run_selection}
use ntpsec_rs.Daemon.Update.Outcome.{Outcome, run_selection-Outcome}
use ntpsec_rs.Daemon.Tick.{expected_mode, push_pending}
use ntpsec_rs.Daemon.Tick.Delivery.{datagram}
use ntpsec_rs.Daemon.Associd.{allocate_associd_with, IsFree, allocate_associd_with-IsFree}
use ntpsec_rs.Daemon.Receive.{handle_packet, is_request}
use ntpsec_rs.Daemon.Tick.{request_of, destination_of, fire}
use ntpsec_rs.Daemon.Tick.Exchange.{response_to, IsExchanged, exchange-IsExchanged}

abbrev pub client_addr : NetAddr
client_addr = record { family = 4; addr = 10 ∷ 0 ∷ 0 ∷ 7 ∷ replicate 12 0; port = 123 }

abbrev server_addr : PeerAddr
server_addr = record {
  sock = record { family = inet; sin_addr = 10 ∷ 0 ∷ 0 ∷ 1 ∷ []; sin6_addr = replicate 16 0 };
  port = 123;
}

abbrev at : ℕ → NtpTs64
at n = record { seconds = pos n; fraction = 0 }

abbrev no_counters : ServerCounters
no_counters = record {
  badauth = 0;
  badlength = 0;
  declined = 0;
  delayed = 0;
  kodsent = 0;
  limited = 0;
  oldver = 0;
  received = 0;
  rejected = 0;
  restricted = 0;
  thisver = 0;
}

abbrev pub core : ℕ → SystemState toy
core stratum = record {
  leap = no_warning;
  stratum = stratum;
  root_delay = 0;
  root_dispersion = 0;
  reference_id = 0;
  reference_time = at 0;
  peer_count = 0;
  sys_jitter = 0;
  sys_offset = 0;
  sys_rootdist = 0;
}

abbrev pub daemon : ℕ → List (Peer.Peer toy) → DaemonEngine toy
daemon stratum peers = record {
  system = record {
    core = core stratum;
    poll = 4;
    start_time = at 0;
    sys_wander = 0;
    sys_status = 0;
    sys_flash = 0;
    uptime_secs = 0;
    server_counters = no_counters;
    sel_broken = 0;
    sys_peer_associd = 0;
  };
  peers = record { peers = peers };
  loop_filter = Discipline.new toy pll_fll;
  timers = record { entries = [] };
  auth = Auth.empty;
  restrictions = Restrict.empty;
  monitor = Monitor.new;
  precision = negsuc 19;
  system_peer_associd = none;
  system_peer_id = none;
  next_associd = 1;
  pending_requests = [];
}

abbrev a_peer : Peer.Peer toy
a_peer = Peer.new toy server_addr client v4 6 10

abbrev asking : DaemonEngine toy
asking = daemon 16 (a_peer ∷ [])

abbrev pub serving : DaemonEngine toy
serving = daemon 2 []

-- Mode 6 plays no part here.
abbrev no_control : List ℕ → NetAddr → DaemonEngine toy → Handled toy
no_control bytes source e = ([], e)

allocate_associd_with-IsFree_example : IsFree (λ c. false) (allocate_associd_with 0 (λ c. false))
allocate_associd_with-IsFree_example = allocate_associd_with-IsFree 0 (λ c. false) (omega arith)

abbrev request : NtpPacket
request = request_of toy a_peer (at 100) asking

abbrev response : NtpPacket
response = response_to toy no_control request (at 105) serving

present : Peer.get toy 0 asking.peers ≡ some a_peer
unfolding Peer.get
present = refl

plain : same_mode a_peer.hmode sym_active ≡ false
unfolding same_mode Peer.new
plain = refl

request-IsPacket : IsPacket request
unfolding request_of Peer.new
request-IsPacket = record {
  li_vn_mode = omega arith;
  stratum = omega arith;
  poll = omega arith;
  precision_pos = omega arith;
  precision_neg = omega arith;
  root_delay = omega arith;
  root_dispersion = omega arith;
  reference_id = omega arith;
  reference_ts = record { seconds = omega arith; fraction = omega arith };
  originate_ts = record { seconds = omega arith; fraction = omega arith };
  receive_ts = record { seconds = omega arith; fraction = omega arith };
  transmit_ts = record { seconds = omega arith; fraction = omega arith };
}

response-IsPacket : IsPacket response
unfolding request_of build_response system_view Peer.new Version.from_bits
response-IsPacket = record {
  li_vn_mode = omega arith;
  stratum = omega arith;
  poll = omega arith;
  precision_pos = omega arith;
  precision_neg = omega arith;
  root_delay = omega arith;
  root_dispersion = omega arith;
  reference_id = omega arith;
  reference_ts = record { seconds = omega arith; fraction = omega arith };
  originate_ts = record { seconds = omega arith; fraction = omega arith };
  receive_ts = record { seconds = omega arith; fraction = omega arith };
  transmit_ts = record { seconds = omega arith; fraction = omega arith };
}

at_server : IsAdmitted toy no_control client client_addr (destination_of toy a_peer) serving
unfolding same_netaddr is_ipv4_loopback destination_of Peer.new Restrict.check is_request
    Monitor.is_rate_limited
at_server = record { no_loop = refl; flags = 0; accepted = refl; unlimited = refl }

at_client : IsAdmitted toy no_control server (destination_of toy a_peer) client_addr asking
unfolding same_netaddr is_ipv4_loopback destination_of Peer.new Restrict.check is_request
at_client = record { no_loop = refl; flags = 0; accepted = refl; unlimited = refl }

usable : IsUsable toy no_control response (at 100) (at 110) a_peer
unfolding request_of build_response system_view Peer.new same_ts64 is_crazy compute_offsets
    ntp_ts64_to_double ntp_ts_to_ntpts u64_of_ℤ
usable = record { new = refl; no_kiss = refl; synchronized = refl; sane = refl }

exchange-IsExchanged_example :
    IsExchanged toy no_control asking serving 0 a_peer client_addr (at 100) (at 105) (at 110)
exchange-IsExchanged_example =
    exchange-IsExchanged toy no_control asking serving 0 a_peer client_addr (at 100) (at 105)
      (at 110) present plain (omega arith) request-IsPacket response-IsPacket refl at_server
      at_client tt usable

-- The client that waits for the response, and the response as it comes.
abbrev waiting : DaemonEngine toy
waiting = (fire toy (at 100) (poll 0) asking).1

abbrev response_datagram : ReceivedDatagram
response_datagram =
    datagram toy no_control response (destination_of toy a_peer) client_addr (at 110)

handle_server_response-IsHandled_example :
    IsHandled toy response response_datagram waiting
      (handle_server_response toy response response_datagram waiting).1
handle_server_response-IsHandled_example =
    handle_server_response-IsHandled toy response response_datagram waiting

abbrev request_datagram : ReceivedDatagram
request_datagram = datagram toy no_control request client_addr (destination_of toy a_peer) (at 105)

time_mode : same_mode (Mode.from_bits (first_byte toy request_datagram)) ntp_control ≡ false
unfolding same_mode Mode.from_bits encode_header request_of Peer.new
time_mode = refl

handle_packet-IsQuiet_example :
    IsQuiet toy request_datagram (handle_packet toy no_control request_datagram serving).0
handle_packet-IsQuiet_example =
    handle_packet-IsQuiet toy no_control request_datagram serving time_mode

-- A symmetric active peer, behind a poll.
abbrev active : DaemonEngine toy
active =
    (fire toy (at 100) (poll 0) (daemon 16 (Peer.new toy server_addr sym_active v4 6 10 ∷ []))).1

active-ExpectsPassive : All ExpectsPassive active.pending_requests
unfolding fire Peer.new expected_mode push_pending
active-ExpectsPassive = (refl, tt)

from_server : mode response ≡ server
unfolding mode build_response Mode.from_bits request_of Peer.new system_view Version.from_bits
from_server = refl

handle_mode-IsKept_example :
    IsKept toy active (handle_mode toy server response response_datagram active).1
handle_mode-IsKept_example =
    handle_mode-IsKept toy server response response_datagram active from_server
      active-ExpectsPassive

-- A peer that a symmetric passive packet from 10.0.0.7 creates is polled at 7.0.0.10.
polled_elsewhere :
    destination_of toy (passive_peer toy request_datagram 1)
    ≡ record { family = 4; addr = 7 ∷ 0 ∷ 0 ∷ 10 ∷ replicate 12 0; port = 123 }
unfolding destination_of Peer.new peer_addr
polled_elsewhere = refl

-- The peer after a sample from a server of stratum 2.
abbrev reached : Peer.Peer toy
reached = record a_peer { reach = record_success a_peer.reach; stratum = 2 }

run_selection-Outcome_example : Outcome toy (run_selection toy (at 110) (daemon 16 (reached ∷ [])))
run_selection-Outcome_example = run_selection-Outcome toy (at 110) (daemon 16 (reached ∷ [])) refl
