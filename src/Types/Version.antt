-- ===== src/Types/Version.antt =====
-- The protocol version of ntp_types.rs, and its bits.
use ntpsec_rs.Prelude.{ℕ, ◌+◌, ◌*◌, ◌<◌, ◌≡◌, arith, ◌==◌, if◌then◌else◌}
use ntpsec_rs.Prelude.Bits.{low}

pub data NtpVersion : Type 0 where
  v1 v2 v3 v4 : NtpVersion

unfoldable pub from_bits : ℕ → NtpVersion
from_bits bits =
    let b = low bits 3 in if b == 1 then v1 else if b == 2 then v2 else if b == 3 then v3 else v4

unfoldable pub to_bits : NtpVersion → ℕ
to_bits v1 = 1
to_bits v2 = 2
to_bits v3 = 3
to_bits v4 = 4

-- Higher bits do not matter.
pub from_bits-to_bits : (vn : NtpVersion) (n : ℕ) → from_bits (n * 8 + to_bits vn) ≡ vn
unfolding from_bits to_bits
from_bits-to_bits v1 n = ground arith
from_bits-to_bits v2 n = ground arith
from_bits-to_bits v3 n = ground arith
from_bits-to_bits v4 n = ground arith

pub to_bits-lt : (vn : NtpVersion) → to_bits vn < 8
unfolding to_bits
to_bits-lt v1 = omega arith
to_bits-lt vn = ground arith
