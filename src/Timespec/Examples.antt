-- ===== src/Timespec/Examples.antt =====
-- The theorem on normalisation at a concrete time, and the first second of GPS time.
use ntpsec_rs.Prelude.{◌≡◌, refl, arith}
use ntpsec_rs.Prelude.Int.{pos, negsuc, sub64, ◌-ℤ◌, wrap64, u64_of_ℤ, i64_of_u64}
use ntpsec_rs.Timespec.{NtpTimespec, normalize, gps_to_ntp, gps_fraction}
use ntpsec_rs.Timespec.Normal.{IsSame, IsNormal, normalize-IsNormal}

-- Five seconds and minus two and a half.
abbrev mixed : NtpTimespec
mixed = record { seconds = pos 5; nanos = negsuc 2499999999 }

normalize-IsNormal_example : IsSame mixed (normalize mixed) × IsNormal (normalize mixed)
normalize-IsNormal_example =
    normalize-IsNormal mixed (omega arith, omega arith, omega arith, omega arith)

-- The start of GPS time, 1980-01-06, becomes a time ten years before the start of NTP time.
gps_start : gps_to_ntp (pos 0) (pos 0) ≡ record { seconds = negsuc 315964799; fraction = 0 }
unfolding gps_to_ntp gps_fraction sub64 ◌-ℤ◌ wrap64 u64_of_ℤ i64_of_u64
gps_start = refl
