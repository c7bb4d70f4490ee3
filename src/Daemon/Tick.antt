-- ===== src/Daemon/Tick.antt =====
-- `tick`: the timers that are due, and the requests that they send. The statistics files are left out.
pub mod Delivery
pub mod Exchange
use ntpsec_rs.Prelude.{
  ℕ, ◌+◌, ◌%◌, ◌^◌, Option, none, some, List, [], ◌∷◌, ◌++◌, length, drop, map, ltb, if◌then◌else◌,
  replicate,
}
use ntpsec_rs.Prelude.Int.{ℤ, pos, add64}
use ntpsec_rs.Types.{NtpTs64, NtpPacket}
use ntpsec_rs.Types.Mode.{NtpMode, sym_active, sym_passive, server}
use ntpsec_rs.Types.Header.{encode_header}
use ntpsec_rs.Restrict.{NetAddr}
use ntpsec_rs.Timer.{
  TimerEvent, poll, reachability, housekeeping, leap_file_reload, stats_write, schedule_poll_once,
  pop_due,
}
use ntpsec_rs.Proto.{record_failure}
use ntpsec_rs.Proto.Packets.{same_mode, build_request}
use ntpsec_rs.Float.{Float}
use ntpsec_rs.Peer.{Peer, get}
use ntpsec_rs.Daemon.{
  PendingRequest, DaemonEngine, DaemonAction, Handled, send, sockaddr_to_netaddr, system_view,
  peer_view,
}
use ntpsec_rs.Daemon.Update.{run_selection}

abbrev pub localhost : NetAddr
localhost = record { family = 4; addr = 127 ∷ 0 ∷ 0 ∷ 1 ∷ replicate 12 0; port = 123 }

abbrev pub max_pending : ℕ
max_pending = 1000

module _ (f : Float) where
  unfoldable pub destination_of : Peer f → NetAddr
  unfolding sockaddr_to_netaddr
  destination_of p = elim (sockaddr_to_netaddr p.srcaddr) [ none ↦ localhost | some a ↦ a ]

  unfoldable pub expected_mode : Peer f → NtpMode
  unfolding same_mode
  expected_mode p = if same_mode p.hmode sym_active then sym_passive else server

  unfoldable pub request_of : Peer f → NtpTs64 → DaemonEngine f → NtpPacket
  unfolding build_request system_view
  request_of p now e = build_request (peer_view f p) (system_view f e.system) now e.precision

  unfoldable pub push_pending : PendingRequest → List PendingRequest → List PendingRequest
  push_pending r rs =
      let pushed = rs ++ r ∷ [] in if ltb max_pending (length pushed) then drop 1 pushed else pushed

  -- `(1u64 << peer.hpoll) as u32`, for an exponent below 64.
  abbrev pub poll_interval : Peer f → ℕ
  poll_interval p = 2 ^ p.hpoll % 2 ^ 32

  unfoldable pub send_poll : ℕ → Peer f → NtpTs64 → DaemonEngine f → Handled f
  unfolding destination_of expected_mode request_of push_pending schedule_poll_once encode_header
  send_poll id p now e = (
    send (destination_of p) (encode_header (request_of p now e)) ∷ [],
    record e {
      pending_requests =
          push_pending
            (record {
              peer_id = id;
              wire_t1 = (request_of p now e).transmit_ts;
              full_t1 = now;
              destination = destination_of p;
              expected_mode = expected_mode p;
            })
            e.pending_requests;
      timers = schedule_poll_once id (add64 now.seconds (pos (poll_interval p))) e.timers;
    },
  )

  abbrev pub silent : Peer f → Peer f
  silent p = record p { reach = record_failure p.reach }

  unfoldable pub fire : NtpTs64 → TimerEvent → DaemonEngine f → Handled f
  unfolding get send_poll run_selection
  fire now (poll id) e = elim (get f id e.peers) [ none ↦ ([], e) | some p ↦ send_poll id p now e ]
  fire now housekeeping e = run_selection f now e
  fire now reachability e = ([], record e { peers = record { peers = map silent e.peers.peers } })
  fire now leap_file_reload e = ([], e)
  fire now stats_write e = ([], e)

  unfoldable pub behind : List (DaemonAction f) → Handled f → Handled f
  behind actions r = (actions ++ r.0, r.1)

  unfoldable pub fire_all : NtpTs64 → List TimerEvent → DaemonEngine f → Handled f
  unfolding fire behind
  fire_all now [] e = ([], e)
  fire_all now (event ∷ events) e = let r = fire now event e in behind r.0 (fire_all now events r.1)

  unfoldable pub tick : NtpTs64 → DaemonEngine f → Handled f
  unfolding fire_all pop_due
  tick now e =
      let (due, q) = pop_due now.seconds e.timers in fire_all now due (record e { timers = q })
