-- ===== src/Types/Leap.antt =====
-- The leap indicator of ntp_types.rs, and its bits.
use ntpsec_rs.Prelude.{ℕ, ◌+◌, ◌*◌, ◌<◌, ◌≡◌, arith, ◌==◌, if◌then◌else◌}
use ntpsec_rs.Prelude.Bits.{low}

pub data LeapIndicator : Type 0 where
  no_warning add_leap_second remove_leap_second alarm : LeapIndicator

unfoldable pub from_bits : ℕ → LeapIndicator
from_bits bits =
    let b = low bits 2 in
    if b == 0
    then no_warning
    else if b == 1
    then add_leap_second
    else if b == 2
    then remove_leap_second
    else alarm

unfoldable pub to_bits : LeapIndicator → ℕ
to_bits no_warning = 0
to_bits add_leap_second = 1
to_bits remove_leap_second = 2
to_bits alarm = 3

-- Higher bits do not matter.
pub from_bits-to_bits : (li : LeapIndicator) (n : ℕ) → from_bits (n * 4 + to_bits li) ≡ li
unfolding from_bits to_bits
from_bits-to_bits no_warning n = ground arith
from_bits-to_bits add_leap_second n = ground arith
from_bits-to_bits remove_leap_second n = ground arith
from_bits-to_bits alarm n = ground arith

pub to_bits-lt : (li : LeapIndicator) → to_bits li < 4
unfolding to_bits
to_bits-lt no_warning = omega arith
to_bits-lt li = ground arith
