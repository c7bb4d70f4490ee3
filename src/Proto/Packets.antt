-- ===== src/Proto/Packets.antt =====
-- The checks on a received packet and the packets that ntp_proto.rs builds.
use ntpsec_rs.Prelude.{
  ℕ, ◌≤◌, ◌<◌, ◌≡◌, refl, arith, ◌||◌, ◌&&◌, bit_or, ltb, leb, ◌==◌, ◌↔◌, not, if◌then◌else◌, Bool,
  true, false, Option, none, some, ok,
}
use ntpsec_rs.Prelude.Bits.{shr, zeros_of_or}
use ntpsec_rs.Prelude.Bytes.{IsByte, from_be32, from_be32-lt}
use ntpsec_rs.Prelude.Int.{ℤ, pos}
use ntpsec_rs.Types.{
  NtpTs64, NtpPacket, zeroed, IsTs, IsPacket, leap_indicator, version, mode, set_li_vn_mode,
}
use ntpsec_rs.Types.Leap.{LeapIndicator, alarm}
use ntpsec_rs.Types.Mode.{NtpMode, sym_active, sym_passive, client, server}
use ntpsec_rs.Types.Mode as Mode
use ntpsec_rs.Types.Version.{NtpVersion}
use ntpsec_rs.Types.Version as Version
use ntpsec_rs.Types.Fields.{set_li_vn_mode_fields}
use ntpsec_rs.Types.Header.{encode_header, decode_header}
use ntpsec_rs.Types.RoundTrip.{decode_header-encode_header}
use ntpsec_rs.Fp.{ntp_ts64_to_wire}

-- The bits of `FlashBits` that the checks set.
abbrev pub test2 : ℕ
test2 = 2

abbrev pub test3 : ℕ
test3 = 4

abbrev pub test4 : ℕ
test4 = 8

unfoldable pub is_alarm : LeapIndicator → Bool
is_alarm alarm = true
is_alarm li = false

-- `==` on the derived `PartialEq` of a mode.
unfoldable pub same_mode : NtpMode → NtpMode → Bool
unfolding Mode.to_bits
same_mode m n = Mode.to_bits m == Mode.to_bits n

abbrev pub flag : Bool → ℕ → ℕ
flag b mask = if b then mask else 0

-- Each `flash |= …` in its order.
unfoldable pub validate_packet : NtpPacket → ℕ → NtpMode → ℕ
unfolding is_alarm same_mode leap_indicator mode version Version.to_bits
validate_packet pkt len expected_mode =
    let short = flag (ltb len 48) test2 in
    let unsynchronized = flag (leb 16 pkt.stratum) test3 in
    let li_alarm = flag (is_alarm (leap_indicator pkt)) test4 in
    let bad_mode =
      flag (not (same_mode (mode pkt) expected_mode) && not (same_mode (mode pkt) sym_passive))
        test2 in
    let vn = Version.to_bits (version pkt) in
    let bad_version = flag (ltb vn 3 || ltb 4 vn) test2 in
    bit_or (bit_or (bit_or (bit_or (bit_or 0 short) unsynchronized) li_alarm) bad_mode) bad_version

unfoldable pub build_kod_packet : NtpPacket → ℕ → ℕ → ℕ → ℕ → NtpPacket
unfolding set_li_vn_mode version
build_kod_packet request a b c d = record zeroed {
  li_vn_mode = set_li_vn_mode alarm (version request) server;
  stratum = 0;
  poll = request.poll;
  precision = pos 0;
  root_delay = 0;
  root_dispersion = 0;
  reference_id = from_be32 a b c d;
  originate_ts = request.transmit_ts;
}

-- The fields of `Peer` and `SystemState` that the packets read; the root delay and dispersion are
-- there as `f64_to_ntp_short` gives them.
pub record PeerView : Type 0 where
  pub leap : LeapIndicator
  pub version : NtpVersion
  pub hmode : NtpMode
  pub hpoll : ℕ

pub record SystemView : Type 0 where
  pub leap : LeapIndicator
  pub stratum : ℕ
  pub poll : ℕ
  pub root_delay : ℕ
  pub root_dispersion : ℕ
  pub reference_id : ℕ
  pub reference_time : NtpTs64

unfoldable pub leap_of : Option PeerView → SystemView → LeapIndicator
leap_of none system = system.leap
leap_of (some p) system = p.leap

unfoldable pub poll_of : Option PeerView → SystemView → ℕ
poll_of none system = system.poll
poll_of (some p) system = p.hpoll

unfoldable pub build_response : NtpPacket → Option PeerView → SystemView → NtpTs64 → ℤ → NtpPacket
unfolding set_li_vn_mode version leap_of poll_of ntp_ts64_to_wire
build_response request peer system now precision = record zeroed {
  li_vn_mode = set_li_vn_mode (leap_of peer system) (version request) server;
  stratum = system.stratum;
  poll = poll_of peer system;
  precision = precision;
  root_delay = system.root_delay;
  root_dispersion = system.root_dispersion;
  reference_id = system.reference_id;
  reference_ts = ntp_ts64_to_wire system.reference_time;
  originate_ts = request.transmit_ts;
  receive_ts = ntp_ts64_to_wire now;
  transmit_ts = ntp_ts64_to_wire now;
}

unfoldable pub build_request : PeerView → SystemView → NtpTs64 → ℤ → NtpPacket
unfolding set_li_vn_mode same_mode ntp_ts64_to_wire
build_request peer system now precision = record zeroed {
  li_vn_mode =
      set_li_vn_mode system.leap peer.version
        (if same_mode peer.hmode sym_active then sym_active else client);
  stratum = system.stratum;
  poll = peer.hpoll;
  precision = precision;
  transmit_ts = ntp_ts64_to_wire now;
}

-- What a packet must be to pass.
pub record IsPassed (pkt : NtpPacket) (len : ℕ) (expected_mode : NtpMode) : Type 0 where
  pub long : 48 ≤ len
  pub synchronized : pkt.stratum < 16
  pub no_alarm : is_alarm (leap_indicator pkt) ≡ false
  pub known_mode : (same_mode (mode pkt) expected_mode || same_mode (mode pkt) sym_passive) ≡ true
  pub known_version : 3 ≤ Version.to_bits (version pkt)

flag-zero : (b : Bool) (n : ℕ) → 0 < n → flag b n ≡ 0 → b ≡ false
flag-zero true n p h = absurd (omega arith)
flag-zero false n p h = refl

abbrev flags_of : Bool → Bool → Bool → Bool → Bool → ℕ
flags_of a b c d e =
    bit_or
      (bit_or (bit_or (bit_or (bit_or 0 (flag a test2)) (flag b test3)) (flag c test4))
        (flag d test2))
      (flag e test2)

flags_of-zero :
    (a b c d e : Bool)
    → flags_of a b c d e ≡ 0
    → (a ≡ false) × (b ≡ false) × (c ≡ false) × (d ≡ false) × (e ≡ false)
flags_of-zero a b c d e h =
    let five =
      zeros_of_or
        (bit_or (bit_or (bit_or (bit_or 0 (flag a test2)) (flag b test3)) (flag c test4))
          (flag d test2))
        (flag e test2) h in
    let four =
      zeros_of_or (bit_or (bit_or (bit_or 0 (flag a test2)) (flag b test3)) (flag c test4))
        (flag d test2) five.0 in
    let three =
      zeros_of_or (bit_or (bit_or 0 (flag a test2)) (flag b test3)) (flag c test4) four.0 in
    let two = zeros_of_or (bit_or 0 (flag a test2)) (flag b test3) three.0 in
    let one = zeros_of_or 0 (flag a test2) two.0 in
    (
      flag-zero a test2 (omega arith) one.1,
      flag-zero b test3 (omega arith) two.1,
      flag-zero c test4 (omega arith) three.1,
      flag-zero d test2 (omega arith) four.1,
      flag-zero e test2 (omega arith) five.1,
    )

zero_of_flags :
    (a b c d e : Bool)
    → a ≡ false
    → b ≡ false
    → c ≡ false
    → d ≡ false
    → e ≡ false
    → flags_of a b c d e ≡ 0
zero_of_flags a b c d e ha hb hc hd he = rw (ha, hb, hc, hd, he) refl

version-le : (pkt : NtpPacket) → Version.to_bits (version pkt) ≤ 4
unfolding version Version.to_bits
version-le pkt = bounded (Version.from_bits (shr pkt.li_vn_mode 3))
  where
    bounded : (v : NtpVersion) → Version.to_bits v ≤ 4
    bounded v = ground arith

-- A packet sets no flash bit exactly if it is long enough, synchronized, without alarm, in the
-- expected mode or symmetric passive, and reads as version 3 or 4.
pub validate_packet_iff :
    (pkt : NtpPacket) (len : ℕ) (expected_mode : NtpMode)
    → (validate_packet pkt len expected_mode ≡ 0) ↔ IsPassed pkt len expected_mode
unfolding validate_packet
validate_packet_iff pkt len expected_mode = (forward, backward)
  where
    bad_mode : Bool
    bad_mode = not (same_mode (mode pkt) expected_mode) && not (same_mode (mode pkt) sym_passive)

    vn : ℕ
    vn = Version.to_bits (version pkt)

    bad_version : Bool
    bad_version = ltb vn 3 || ltb 4 vn

    forward :
        flags_of
            (ltb len 48)
            (leb 16 pkt.stratum)
            (is_alarm (leap_indicator pkt))
            bad_mode
            bad_version
          ≡ 0
        → IsPassed pkt len expected_mode
    forward h =
        let all =
          flags_of-zero (ltb len 48) (leb 16 pkt.stratum) (is_alarm (leap_indicator pkt)) bad_mode
            bad_version h in
        record {
          long = ground (arith, all.0);
          synchronized = ground (arith, all.1);
          no_alarm = all.2;
          known_mode = ground (arith, all.3);
          known_version = ground (arith, all.4);
        }

    backward :
        IsPassed pkt len expected_mode
        → flags_of
            (ltb len 48)
            (leb 16 pkt.stratum)
            (is_alarm (leap_indicator pkt))
            bad_mode
            bad_version
          ≡ 0
    backward h =
        zero_of_flags (ltb len 48) (leb 16 pkt.stratum) (is_alarm (leap_indicator pkt)) bad_mode
          bad_version (ground (arith, h.long)) (ground (arith, h.synchronized)) h.no_alarm
          (ground (arith, h.known_mode)) (ground (arith, h.known_version, version-le pkt))

-- What a client reads from a kiss-o'-death: an alarm with stratum 0 from a server in the client's own
-- version, the kiss code, and the client's own transmit time as the originate time.
pub decode_header-build_kod_packet :
    (request : NtpPacket) (a b c d : ℕ)
    → IsPacket request
    → IsByte a
    → IsByte b
    → IsByte c
    → IsByte d
    → (decode_header (encode_header (build_kod_packet request a b c d))
        ≡ ok (build_kod_packet request a b c d))
      × (leap_indicator (build_kod_packet request a b c d) ≡ alarm)
      × (version (build_kod_packet request a b c d) ≡ version request)
      × (mode (build_kod_packet request a b c d) ≡ server)
      × ((build_kod_packet request a b c d).stratum ≡ 0)
      × ((build_kod_packet request a b c d).originate_ts ≡ request.transmit_ts)
unfolding build_kod_packet
decode_header-build_kod_packet request a b c d h ha hb hc hd =
    let fields =
      set_li_vn_mode_fields alarm (version request) server (build_kod_packet request a b c d)
        refl in
    (
      decode_header-encode_header (build_kod_packet request a b c d) (fits fields.0),
      fields.1,
      fields.2,
      fields.3,
      refl,
      refl,
    )
  where
    no_ts : IsTs (record { seconds = 0; fraction = 0 })
    no_ts = record { seconds = omega arith; fraction = omega arith }

    fits :
        (build_kod_packet request a b c d).li_vn_mode < 256
        → IsPacket (build_kod_packet request a b c d)
    fits first = record {
      li_vn_mode = first;
      stratum = omega arith;
      poll = h.poll;
      precision_pos = omega arith;
      precision_neg = omega arith;
      root_delay = omega arith;
      root_dispersion = omega arith;
      reference_id = from_be32-lt a b c d ha hb hc hd;
      reference_ts = no_ts;
      originate_ts = h.transmit_ts;
      receive_ts = no_ts;
      transmit_ts = no_ts;
    }

-- A response answers the request: it comes from a server in the request's version with the leap
-- indicator of the peer, or else of the system, its originate time is the request's transmit time,
-- and its receive and transmit times are the same.
pub build_response_lem :
    (request : NtpPacket) (peer : Option PeerView) (system : SystemView) (now : NtpTs64)
    (precision : ℤ)
    → (leap_indicator (build_response request peer system now precision) ≡ leap_of peer system)
      × (version (build_response request peer system now precision) ≡ version request)
      × (mode (build_response request peer system now precision) ≡ server)
      × ((build_response request peer system now precision).originate_ts ≡ request.transmit_ts)
      × ((build_response request peer system now precision).receive_ts
          ≡ (build_response request peer system now precision).transmit_ts)
unfolding build_response
build_response_lem request peer system now precision =
    let fields =
      set_li_vn_mode_fields (leap_of peer system) (version request) server
        (build_response request peer system now precision) refl in
    (fields.1, fields.2, fields.3, refl, refl)
