-- ===== src/Types/Mode.antt =====
-- The association mode of ntp_types.rs, and its bits.
use ntpsec_rs.Prelude.{ℕ, ◌+◌, ◌*◌, ◌<◌, ◌≡◌, arith, ◌==◌, if◌then◌else◌}
use ntpsec_rs.Prelude.Bits.{low}

pub data NtpMode : Type 0 where
  reserved sym_active sym_passive client server broadcast ntp_control private : NtpMode

unfoldable pub from_bits : ℕ → NtpMode
from_bits bits =
    let b = low bits 3 in
    if b == 0
    then reserved
    else if b == 1
    then sym_active
    else if b == 2
    then sym_passive
    else if b == 3
    then client
    else if b == 4
    then server
    else if b == 5
    then broadcast
    else if b == 6
    then ntp_control
    else private

unfoldable pub to_bits : NtpMode → ℕ
to_bits reserved = 0
to_bits sym_active = 1
to_bits sym_passive = 2
to_bits client = 3
to_bits server = 4
to_bits broadcast = 5
to_bits ntp_control = 6
to_bits private = 7

-- Higher bits do not matter.
pub from_bits-to_bits : (m : NtpMode) (n : ℕ) → from_bits (n * 8 + to_bits m) ≡ m
unfolding from_bits to_bits
from_bits-to_bits reserved n = ground arith
from_bits-to_bits sym_active n = ground arith
from_bits-to_bits sym_passive n = ground arith
from_bits-to_bits client n = ground arith
from_bits-to_bits server n = ground arith
from_bits-to_bits broadcast n = ground arith
from_bits-to_bits ntp_control n = ground arith
from_bits-to_bits private n = ground arith

pub to_bits-lt : (m : NtpMode) → to_bits m < 8
unfolding to_bits
to_bits-lt reserved = omega arith
to_bits-lt m = ground arith
