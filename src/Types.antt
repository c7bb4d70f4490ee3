-- ===== src/Types.antt =====
-- The wire types of crates/ntpsec-rs-core/src/ntp_types.rs: leap indicator, mode, version, the
-- timestamps and the 48-byte packet header. The codecs and the proofs are in the modules below.
pub mod Leap
pub mod Mode
pub mod Version
pub mod Fields
pub mod Header
pub mod RoundTrip
pub mod Walk
pub mod Split
pub mod Mac
mod Examples
use ntpsec_rs.Prelude.{ℕ, ◌-◌, ◌*◌, ◌%◌, ◌^◌, ◌<◌, bit_or, ltb, if◌then◌else◌}
use ntpsec_rs.Prelude.Bits.{shr}
use ntpsec_rs.Prelude.Bytes.{IsByte, IsU32}
use Leap
use Leap.{LeapIndicator}
use Mode
use Mode.{NtpMode}
use Version
use Version.{NtpVersion}
use ntpsec_rs.Prelude.Int.{ℤ, pos, negsuc, pos_part, neg_part}

pub record NtpTs : Type 0 where
  pub seconds : ℕ
  pub fraction : ℕ

-- The seconds are an `i64`.
pub record NtpTs64 : Type 0 where
  pub seconds : ℤ
  pub fraction : ℕ

-- An `i8` and its byte: `as u8`, `as i8`.
unfoldable pub u8_of_i8 : ℤ → ℕ
u8_of_i8 (pos n) = n % 256
u8_of_i8 (negsuc n) = 255 - n % 256

unfoldable pub i8_of_u8 : ℕ → ℤ
i8_of_u8 b = if ltb b 128 then pos b else negsuc (255 - b)

-- `precision` is an `i8`; all other fields are unsigned.
pub record NtpPacket : Type 0 where
  pub li_vn_mode : ℕ
  pub stratum : ℕ
  pub poll : ℕ
  pub precision : ℤ
  pub root_delay : ℕ
  pub root_dispersion : ℕ
  pub reference_id : ℕ
  pub reference_ts : NtpTs
  pub originate_ts : NtpTs
  pub receive_ts : NtpTs
  pub transmit_ts : NtpTs

abbrev pub zero_ts : NtpTs
zero_ts = record { seconds = 0; fraction = 0 }

abbrev pub zeroed : NtpPacket
zeroed = record {
  li_vn_mode = 0;
  stratum = 0;
  poll = 0;
  precision = pos 0;
  root_delay = 0;
  root_dispersion = 0;
  reference_id = 0;
  reference_ts = zero_ts;
  originate_ts = zero_ts;
  receive_ts = zero_ts;
  transmit_ts = zero_ts;
}

-- The ranges of the Rust field types.
pub record IsTs (t : NtpTs) : Type 0 where
  pub seconds : IsU32 t.seconds
  pub fraction : IsU32 t.fraction

pub record IsPacket (p : NtpPacket) : Type 0 where
  pub li_vn_mode : IsByte p.li_vn_mode
  pub stratum : IsByte p.stratum
  pub poll : IsByte p.poll
  pub precision_pos : pos_part p.precision < 128
  pub precision_neg : neg_part p.precision < 129
  pub root_delay : IsU32 p.root_delay
  pub root_dispersion : IsU32 p.root_dispersion
  pub reference_id : IsU32 p.reference_id
  pub reference_ts : IsTs p.reference_ts
  pub originate_ts : IsTs p.originate_ts
  pub receive_ts : IsTs p.receive_ts
  pub transmit_ts : IsTs p.transmit_ts

unfoldable pub leap_indicator : NtpPacket → LeapIndicator
leap_indicator p = Leap.from_bits (shr p.li_vn_mode 6)

unfoldable pub version : NtpPacket → NtpVersion
version p = Version.from_bits (shr p.li_vn_mode 3)

unfoldable pub mode : NtpPacket → NtpMode
mode p = Mode.from_bits p.li_vn_mode

-- The shifts of the `u8` values drop nothing: the largest are 3 << 6 and 4 << 3.
unfoldable pub set_li_vn_mode : LeapIndicator → NtpVersion → NtpMode → ℕ
unfolding Leap.to_bits Version.to_bits Mode.to_bits
set_li_vn_mode li vn m =
    bit_or (bit_or (Leap.to_bits li * 2 ^ 6 % 256) (Version.to_bits vn * 2 ^ 3 % 256))
      (Mode.to_bits m)
