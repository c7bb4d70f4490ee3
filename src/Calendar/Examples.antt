-- ===== src/Calendar/Examples.antt =====
-- The theorem on dates at a concrete date, and known days.
use ntpsec_rs.Prelude.{◌-◌, ◌≤◌, ◌≡◌, refl, arith, get_or}
use ntpsec_rs.Prelude.Int.{
  pos, negsuc, add64, sub64, ◌+ℤ◌, ◌-ℤ◌, wrap64, u64_of_ℤ, i64_of_u64, quot, times,
}
use ntpsec_rs.Calendar.{
  is_leap_year, month_table, ymd_to_yd, yd_to_ymd, unix_seconds_to_ymd, unix_seconds_to_hms,
  days_of, civil_from_days, second_of_day,
}
use ntpsec_rs.Calendar.Yearday.{yd_to_ymd-ymd_to_yd}

in_february : 29 ≤ get_or (month_table (pos 2024)) (2 - 1) 0
unfolding month_table is_leap_year
in_february = omega arith

yd_to_ymd-ymd_to_yd_example : yd_to_ymd (pos 2024) (ymd_to_yd (pos 2024) 2 29) ≡ (2, 29)
yd_to_ymd-ymd_to_yd_example =
    yd_to_ymd-ymd_to_yd (pos 2024) 2 29 (omega arith) (omega arith) (omega arith) in_february

first_day_of_2024 : unix_seconds_to_ymd (pos 1704067200) ≡ (pos 2024, (1, 1))
unfolding unix_seconds_to_ymd days_of civil_from_days add64 sub64 ◌+ℤ◌ ◌-ℤ◌ wrap64 u64_of_ℤ
    i64_of_u64 quot times
first_day_of_2024 = refl

last_day_of_1969 : unix_seconds_to_ymd (negsuc 0) ≡ (pos 1969, (12, 31))
unfolding unix_seconds_to_ymd days_of civil_from_days add64 sub64 ◌+ℤ◌ ◌-ℤ◌ wrap64 u64_of_ℤ
    i64_of_u64 quot times
last_day_of_1969 = refl

-- A midnight before 1970 is read as the hour 24 of its day.
midnight_of_1969 : unix_seconds_to_hms (negsuc 86399) ≡ (24, (0, 0))
unfolding unix_seconds_to_hms second_of_day
midnight_of_1969 = refl
