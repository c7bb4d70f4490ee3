-- ===== src/Fp.antt =====
-- The conversions of crates/ntpsec-rs-core/src/ntp_fp.rs that use no floating point: Unix time to NTP
-- time and back, the wire form, and the era of a wire timestamp. `i64` results wrap.
pub mod Convert
pub mod Era
mod Examples
use ntpsec_rs.Prelude.{ℕ, ◌+◌, ◌-◌, ◌*◌, ◌/◌, ◌%◌, ◌^◌, if◌then◌else◌}
use ntpsec_rs.Prelude.Int.{
  ℤ, pos, negsuc, neg_part, pos_part, leb_ℤ, add64, sub64, u64_of_ℤ, wrap64,
}
use ntpsec_rs.Types.{NtpTs, NtpTs64}

abbrev pub ntp_to_unix_offset : ℕ
ntp_to_unix_offset = 2208988800

-- The seconds of both conversions.
unfoldable pub unix_to_ntp_secs : ℤ → ℤ
unix_to_ntp_secs secs =
    if leb_ℤ (pos 0) secs
    then add64 secs (pos ntp_to_unix_offset)
    else sub64 (add64 secs (pos ntp_to_unix_offset)) (pos 1)

-- `((units as u64) << 32) / per_sec`, negated for negative units, `as u32`.
unfoldable pub unit_frac : ℕ → ℤ → ℕ
unit_frac per_sec (pos n) = n * 2 ^ 32 % 2 ^ 64 / per_sec % 2 ^ 32
unit_frac per_sec (negsuc n) = (2 ^ 64 - (n + 1) * 2 ^ 32 % 2 ^ 64 / per_sec) % 2 ^ 64 % 2 ^ 32

unfoldable pub tv_to_ntp : ℤ → ℤ → NtpTs64
unfolding unix_to_ntp_secs unit_frac
tv_to_ntp secs usec = record { seconds = unix_to_ntp_secs secs; fraction = unit_frac 1000000 usec }

unfoldable pub ts_to_ntp : ℤ → ℤ → NtpTs64
unfolding unix_to_ntp_secs unit_frac
ts_to_ntp secs nsec = record {
  seconds = unix_to_ntp_secs secs;
  fraction = unit_frac 1000000000 nsec;
}

unfoldable pub ntp_to_ts : NtpTs64 → ℤ × ℕ
ntp_to_ts ntp =
    (sub64 ntp.seconds (pos ntp_to_unix_offset), ntp.fraction * 1000000000 % 2 ^ 64 / 2 ^ 32)

unfoldable pub ntp_to_tv : NtpTs64 → ℤ × ℕ
ntp_to_tv ntp =
    (sub64 ntp.seconds (pos ntp_to_unix_offset), ntp.fraction * 1000000 % 2 ^ 64 / 2 ^ 32)

-- `seconds as u32`
unfoldable pub ntp_ts64_to_wire : NtpTs64 → NtpTs
ntp_ts64_to_wire ts = record { seconds = u64_of_ℤ ts.seconds % 2 ^ 32; fraction = ts.fraction }

unfoldable pub ntp_ts_to_ntpts : NtpTs → NtpTs64
ntp_ts_to_ntpts ts = record { seconds = pos ts.seconds; fraction = ts.fraction }

-- `(z >> 31) << 31` on an `i64`: down to a multiple of 2 ^ 31.
unfoldable pub floor31 : ℤ → ℤ
floor31 (pos n) = pos (n / 2 ^ 31 * 2 ^ 31)
floor31 (negsuc n) = negsuc (n / 2 ^ 31 * 2 ^ 31 + 2 ^ 31 - 1)

unfoldable pub correct_era : NtpTs → NtpTs64 → NtpTs64
unfolding floor31
correct_era wire_ts now = record {
  seconds = add64 (pos wire_ts.seconds) (floor31 (sub64 now.seconds (pos wire_ts.seconds)));
  fraction = wire_ts.fraction;
}
