-- ===== src/Peer.antt =====
-- The associations of crates/ntpsec-rs-core/src/ntp_peer.rs: the state of a peer and the table of
-- peers. An `f64` is of the parameter.
pub mod Poll
mod Examples
use ntpsec_rs.Prelude.{
  ℕ, zero, suc, ◌+◌, ◌&&◌, bit_and, Option, none, some, List, [], ◌∷◌, ◌++◌, length, is_empty, ltb,
  ◌==◌, not, if◌then◌else◌, Bool, true, false,
}
use ntpsec_rs.Prelude.Bytes.{same_bytes}
use ntpsec_rs.Prelude.Int.{ℤ, pos}
use ntpsec_rs.Types.{NtpTs64}
use ntpsec_rs.Types.Leap.{LeapIndicator, alarm}
use ntpsec_rs.Types.Mode.{NtpMode, reserved}
use ntpsec_rs.Types.Version.{NtpVersion}
use ntpsec_rs.Restrict.{SockAddr, AddressFamily, inet, inet6, unspec}
use ntpsec_rs.Proto.{Reachability, unreached, is_reachable}
use ntpsec_rs.Proto.Filter.{ClockFilter}
use ntpsec_rs.Proto.Filter as Filter
use ntpsec_rs.Float.{Float}
use ntpsec_rs.Float as Float

-- An address with its port.
pub record PeerAddr : Type 0 where
  pub sock : SockAddr
  pub port : ℕ

abbrev pub zero_ts : NtpTs64
zero_ts = record { seconds = pos 0; fraction = 0 }

-- The bits of `PeerFlags` that the code asks for.
abbrev pub prefer : ℕ
prefer = 4

abbrev pub iburst : ℕ
iburst = 16

-- `PeerFlags::contains`
abbrev pub contains : ℕ → ℕ → Bool
contains flags flag = bit_and flags flag == flag

module _ (f : Float) where
  pub record ClockFilterEntry : Type 0 where
    pub offset : f.F
    pub delay : f.F
    pub dispersion : f.F
    pub time : NtpTs64

  pub record Peer : Type 0 where
    pub srcaddr : PeerAddr
    pub dstadr : Option PeerAddr
    pub hmode : NtpMode
    pub pmode : NtpMode
    pub version : NtpVersion
    pub stratum : ℕ
    pub poll_interval : ℕ
    pub minpoll : ℕ
    pub maxpoll : ℕ
    pub clock_filter : ClockFilter ClockFilterEntry
    pub reach : Reachability
    pub offset : f.F
    pub delay : f.F
    pub dispersion : f.F
    pub jitter : f.F
    pub hpoll : ℕ
    pub ppoll : ℕ
    pub flash : ℕ
    pub leap : LeapIndicator
    pub precision : ℤ
    pub root_delay : f.F
    pub root_dispersion : f.F
    pub reference_id : ℕ
    pub reference_time : NtpTs64
    pub originate_time : NtpTs64
    pub receive_time : NtpTs64
    pub transmit_time : NtpTs64
    pub keyid : ℕ
    pub flags : ℕ
    pub burst : ℕ
    pub retry : ℕ
    pub associd : ℕ

  unfoldable pub new : PeerAddr → NtpMode → NtpVersion → ℕ → ℕ → Peer
  new srcaddr hmode version minpoll maxpoll = record {
    srcaddr = srcaddr;
    dstadr = none;
    hmode = hmode;
    pmode = reserved;
    version = version;
    stratum = 16;
    poll_interval = minpoll;
    minpoll = minpoll;
    maxpoll = maxpoll;
    clock_filter = Filter.new;
    reach = unreached;
    offset = Float.zero f;
    delay = Float.zero f;
    dispersion = Float.zero f;
    jitter = Float.zero f;
    hpoll = minpoll;
    ppoll = 0;
    flash = 0;
    leap = alarm;
    precision = pos 0;
    root_delay = Float.zero f;
    root_dispersion = Float.zero f;
    reference_id = 0;
    reference_time = zero_ts;
    originate_time = zero_ts;
    receive_time = zero_ts;
    transmit_time = zero_ts;
    keyid = 0;
    flags = 0;
    burst = 0;
    retry = 0;
    associd = 0;
  }

  unfoldable pub is_sync : Peer → Bool
  unfolding is_reachable
  is_sync p = ltb p.stratum 16 && is_reachable p.reach

  pub record PeerTable : Type 0 where
    pub peers : List Peer

  abbrev pub no_peers : PeerTable
  no_peers = record { peers = [] }

  unfoldable pub add : Peer → PeerTable → PeerTable
  add p t = record { peers = t.peers ++ p ∷ [] }

  -- `Vec::remove`, which is called with an index in range.
  unfoldable pub remove_at : ℕ → List Peer → List Peer
  remove_at i [] = []
  remove_at zero (p ∷ ps) = ps
  remove_at (suc i) (p ∷ ps) = p ∷ remove_at i ps

  unfoldable pub remove : ℕ → PeerTable → PeerTable
  unfolding remove_at
  remove i t = if ltb i (length t.peers) then record { peers = remove_at i t.peers } else t

  unfoldable pub get_elem? : ℕ → List Peer → Option Peer
  get_elem? i [] = none
  get_elem? zero (p ∷ ps) = some p
  get_elem? (suc i) (p ∷ ps) = get_elem? i ps

  unfoldable pub get : ℕ → PeerTable → Option Peer
  unfolding get_elem?
  get i t = get_elem? i t.peers

  -- `retain(|p| p.associd != associd)`
  unfoldable pub retain_others : ℕ → List Peer → List Peer
  retain_others associd [] = []
  retain_others associd (p ∷ ps) =
      let rest = retain_others associd ps in if p.associd == associd then rest else p ∷ rest

  unfoldable pub remove_by_associd : ℕ → PeerTable → PeerTable
  unfolding retain_others
  remove_by_associd associd t = record { peers = retain_others associd t.peers }

  -- Equal families, and equal addresses and ports by the family.
  unfoldable pub same_addr : PeerAddr → PeerAddr → Bool
  unfolding same_bytes
  same_addr a b = elim a.sock.family [
    | inet ↦ elim b.sock.family [
      | inet ↦ same_bytes a.sock.sin_addr b.sock.sin_addr && (a.port == b.port)
      | _ ↦ false
    ]
    | inet6 ↦ elim b.sock.family [
      | inet6 ↦ same_bytes a.sock.sin6_addr b.sock.sin6_addr && (a.port == b.port)
      | _ ↦ false
    ]
    | unspec ↦ false
  ]

  unfoldable pub find_addr : PeerAddr → List Peer → Option Peer
  unfolding same_addr
  find_addr addr [] = none
  find_addr addr (p ∷ ps) = if same_addr p.srcaddr addr then some p else find_addr addr ps

  unfoldable pub find_by_addr : PeerAddr → PeerTable → Option Peer
  unfolding find_addr
  find_by_addr addr t = find_addr addr t.peers
