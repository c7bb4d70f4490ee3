-- ===== src/Daemon.antt =====
-- The daemon of crates/ntpsec-rs-core/src/daemon_engine.rs: the state of the engine, the datagrams and
-- actions of ntp_io.rs, and the packets and timers that it handles. Text that is only logged is left
-- out, and so are the statistics files and the configuration that no handler reads.
pub mod Associd
pub mod Pending
pub mod Response
pub mod Receive
pub mod Update
pub mod Tick
pub mod Vars
pub mod PeerStatus
pub mod Write
pub mod Control
mod Examples
use ntpsec_rs.Prelude.{
  ℕ, zero, suc, ◌∷◌, ◌+◌, ◌-◌, ◌*◌, ◌%◌, ◌^◌, ◌&&◌, bit_or, min, Option, none, some, List, [], ◌++◌,
  take, replicate, ltb, ◌==◌, not, if◌then◌else◌, Bool, true, false,
}
use ntpsec_rs.Prelude.Bytes.{same_bytes, byte_at}
use ntpsec_rs.Prelude.Int.{ℤ}
use ntpsec_rs.Types.{NtpTs, NtpTs64, NtpPacket}
use ntpsec_rs.Types.Mode.{NtpMode}
use ntpsec_rs.Restrict.{NetAddr, RestrictList, AddressFamily, inet, inet6, unspec}
use ntpsec_rs.Timer.{TimerQueue}
use ntpsec_rs.Auth.{AuthKeyStore}
use ntpsec_rs.Monitor.{MonList}
use ntpsec_rs.Monitor as Monitor
use ntpsec_rs.Proto.Packets.{PeerView, SystemView}
use ntpsec_rs.Float.{Float}
use ntpsec_rs.Float as Float
use ntpsec_rs.Peer.{Peer, PeerTable, PeerAddr}
use ntpsec_rs.Select.System.{SystemState}
use ntpsec_rs.Discipline.{Adjustment, LoopFilter}

-- The derived `==` on addresses.
unfoldable pub same_netaddr : NetAddr → NetAddr → Bool
unfolding same_bytes
same_netaddr a b = (a.family == b.family) && (same_bytes a.addr b.addr && (a.port == b.port))

unfoldable pub is_ipv4_loopback : NetAddr → Bool
is_ipv4_loopback a = if not (a.family == 4) then false else byte_at a.addr 0 == 127

unfoldable pub sockaddr_to_netaddr : PeerAddr → Option NetAddr
sockaddr_to_netaddr a = elim a.sock.family [
  | inet ↦ some (record { family = 4; addr = a.sock.sin_addr ++ replicate 12 0; port = a.port })
  | inet6 ↦ some (record { family = 6; addr = a.sock.sin6_addr; port = a.port })
  | unspec ↦ none
]

-- `netaddr_to_sockaddr` of ntp_monitor.rs with the port that it stores.
unfoldable pub peer_addr : NetAddr → PeerAddr
unfolding Monitor.netaddr_to_sockaddr
peer_addr a = record { sock = Monitor.netaddr_to_sockaddr a; port = a.port }

-- Where a datagram came from and when; the interface and the provenance of the time are not read.
pub record ReceivedDatagram : Type 0 where
  pub bytes : List ℕ
  pub source : NetAddr
  pub destination : NetAddr
  pub rx_timestamp : NtpTs64

pub record PendingRequest : Type 0 where
  pub peer_id : ℕ
  pub wire_t1 : NtpTs
  pub full_t1 : NtpTs64
  pub destination : NetAddr
  pub expected_mode : NtpMode

pub record ServerCounters : Type 0 where
  pub badauth : ℕ
  pub badlength : ℕ
  pub declined : ℕ
  pub delayed : ℕ
  pub kodsent : ℕ
  pub limited : ℕ
  pub oldver : ℕ
  pub received : ℕ
  pub rejected : ℕ
  pub restricted : ℕ
  pub thisver : ℕ

-- `saturating_add(1)` on a `u64`.
unfoldable pub saturating_next : ℕ → ℕ
saturating_next n = min (n + 1) (2 ^ 64 - 1)

module _ (f : Float) where
  -- What a logged text reports.
  pub data LogMessage : Type 0 where
    shutdown empty_packet kod_for_control bad_packet_header loopcast packet_too_short bad_control :
        LogMessage
    unknown_broadcast private_mode duplicate_packet auth_not_wired crazy_offset : LogMessage
    created_passive kiss_of_death unknown_refclock refclock_selected : ℕ → LogMessage
    broadcast_offset pps_override : f.F → LogMessage
    refclock_crazy : ℕ → f.F → LogMessage
    status : LogMessage

  pub data DaemonAction : Type 0 where
    send : NetAddr → List ℕ → DaemonAction
    adjust_clock : Adjustment f → DaemonAction
    persist_drift : f.F → DaemonAction
    log : LogMessage → DaemonAction

  -- `SystemState`: `core` has the fields that the selection writes.
  pub record System : Type 0 where
    pub core : SystemState f
    pub poll : ℕ
    pub start_time : NtpTs64
    pub sys_wander : f.F
    pub sys_status : ℕ
    pub sys_flash : ℕ
    pub uptime_secs : ℕ
    pub server_counters : ServerCounters
    pub sel_broken : ℕ
    pub sys_peer_associd : ℕ

  pub record DaemonEngine : Type 0 where
    pub system : System
    pub peers : PeerTable f
    pub loop_filter : LoopFilter f
    pub timers : TimerQueue
    pub auth : AuthKeyStore
    pub restrictions : RestrictList
    pub monitor : MonList
    pub precision : ℤ
    pub system_peer_associd : Option ℕ
    pub system_peer_id : Option ℕ
    pub next_associd : ℕ
    pub pending_requests : List PendingRequest

  -- A handler gives the actions for the shell and the new engine.
  abbrev pub Handled : Type 0
  Handled = List DaemonAction × DaemonEngine

  abbrev pub with_counters : (ServerCounters → ServerCounters) → DaemonEngine → DaemonEngine
  with_counters count e = record e {
    system = record e.system { server_counters = count e.system.server_counters };
  }

  -- `v as u16`
  abbrev pub to_u16 : f.F → ℕ
  to_u16 v = min (f.trunc v) 65535

  unfoldable pub f64_to_ntp_short : f.F → ℕ
  f64_to_ntp_short v =
      if Float.lt f v (Float.zero f)
      then 0
      else bit_or (to_u16 v * 2 ^ 16) (to_u16 (f.mul (f.fract v) (f.literal 65536 0)))

  -- The short form of `v.max(0.0).min(65535.0)`.
  abbrev pub short_of : f.F → ℕ
  short_of v = f64_to_ntp_short (f.min (f.max v (Float.zero f)) (f.literal 65535 0))

  -- What the packets take from the state.
  unfoldable pub system_view : System → SystemView
  unfolding f64_to_ntp_short
  system_view s = record {
    leap = s.core.leap;
    stratum = s.core.stratum;
    poll = s.poll;
    root_delay = short_of s.core.root_delay;
    root_dispersion = short_of s.core.root_dispersion;
    reference_id = s.core.reference_id;
    reference_time = s.core.reference_time;
  }

  abbrev pub peer_view : Peer f → PeerView
  peer_view p = record { leap = p.leap; version = p.version; hmode = p.hmode; hpoll = p.hpoll }

  -- `get_mut(i)` and what is written through it.
  unfoldable pub put_peer : ℕ → Peer f → List (Peer f) → List (Peer f)
  put_peer i p [] = []
  put_peer zero p (q ∷ qs) = p ∷ qs
  put_peer (suc i) p (q ∷ qs) = q ∷ put_peer i p qs

  abbrev pub with_peer : ℕ → Peer f → DaemonEngine → DaemonEngine
  with_peer i p e = record e { peers = record { peers = put_peer i p e.peers.peers } }
