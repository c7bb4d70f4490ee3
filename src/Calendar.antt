-- ===== src/Calendar.antt =====
-- The calendar of crates/ntpsec-rs-core/src/ntp_calendar.rs, with the dates and times of day of
-- ntp_fp.rs.
pub mod Yearday
mod Examples
use ntpsec_rs.Prelude.{
  ℕ, zero, suc, ◌+◌, ◌-◌, ◌*◌, ◌/◌, ◌%◌, ◌||◌, ◌&&◌, List, [], ◌∷◌, ltb, leb, ◌==◌, not,
  if◌then◌else◌, Bool,
}
use ntpsec_rs.Prelude.Int.{ℤ, pos, pos_part, neg_part, ltb_ℤ, leb_ℤ, add64, sub64, quot, rem, times}
use ntpsec_rs.Types.{NtpTs64}
use ntpsec_rs.Fp.{ntp_to_ts}

abbrev pub days_per_month : List ℕ
days_per_month = 31 ∷ 28 ∷ 31 ∷ 30 ∷ 31 ∷ 30 ∷ 31 ∷ 31 ∷ 30 ∷ 31 ∷ 30 ∷ 31 ∷ []

abbrev pub days_per_month_leap : List ℕ
days_per_month_leap = 31 ∷ 29 ∷ 31 ∷ 30 ∷ 31 ∷ 30 ∷ 31 ∷ 31 ∷ 30 ∷ 31 ∷ 30 ∷ 31 ∷ []

-- A remainder of an `i64` is zero exactly if the one of its size is.
abbrev pub divisible : ℤ → ℕ → Bool
divisible y n = (pos_part y + neg_part y) % n == 0

unfoldable pub is_leap_year : ℤ → Bool
is_leap_year y = (divisible y 4 && not (divisible y 100)) || divisible y 400

unfoldable pub month_table : ℤ → List ℕ
unfolding is_leap_year
month_table y = if is_leap_year y then days_per_month_leap else days_per_month

-- `for i in 0..n { doy += month_table[i] }`, for at most twelve rounds.
unfoldable pub add_months : ℕ → List ℕ → ℕ → ℕ
add_months zero table doy = doy
add_months (suc n) [] doy = doy
add_months (suc n) (t ∷ ts) doy = add_months n ts (doy + t)

-- The month counts from 1.
unfoldable pub ymd_to_yd : ℤ → ℕ → ℕ → ℕ
unfolding month_table add_months
ymd_to_yd y m d = add_months (m - 1) (month_table y) d

unfoldable pub find_month : ℕ → List ℕ → ℕ → ℕ × ℕ
find_month i [] remaining = (12, 31)
find_month i (t ∷ ts) remaining =
    let rest = find_month (suc i) ts (remaining - t) in
    if leb remaining t then (i + 1, remaining) else rest

unfoldable pub yd_to_ymd : ℤ → ℕ → ℕ × ℕ
unfolding month_table find_month
yd_to_ymd y yd = find_month 0 (month_table y) yd

-- Days since the Unix epoch, rounded down.
unfoldable pub days_of : ℤ → ℤ
unfolding sub64 quot
days_of secs = if leb_ℤ (pos 0) secs then quot secs 86400 else quot (sub64 secs (pos 86399)) 86400

-- `doe` is not negative.
unfoldable pub civil_from_days : ℤ → ℤ × (ℕ × ℕ)
unfolding add64 sub64 quot times
civil_from_days days =
    let z = add64 days (pos 719468) in
    let era = quot (if leb_ℤ (pos 0) z then z else sub64 z (pos 146096)) 146097 in
    let doe = pos_part (sub64 z (times era 146097)) in
    let yoe = (doe - doe / 1460 + doe / 36524 - doe / 146096) / 365 in
    let y = add64 (pos yoe) (times era 400) in
    let doy = doe - (365 * yoe + yoe / 4 - yoe / 100) in
    let mp = (5 * doy + 2) / 153 in
    let d = doy - (153 * mp + 2) / 5 + 1 in
    let m = if ltb mp 10 then mp + 3 else mp - 9 in (if leb m 2 then add64 y (pos 1) else y, (m, d))

unfoldable pub unix_seconds_to_ymd : ℤ → ℤ × (ℕ × ℕ)
unfolding days_of civil_from_days
unix_seconds_to_ymd secs = civil_from_days (days_of secs)

unfoldable pub second_of_day : ℤ → ℕ
second_of_day secs =
    if leb_ℤ (pos 0) secs then pos_part secs % 86400 else 86400 - neg_part secs % 86400

unfoldable pub unix_seconds_to_hms : ℤ → ℕ × (ℕ × ℕ)
unfolding second_of_day
unix_seconds_to_hms secs = let s = second_of_day secs in (s / 3600, (s % 3600 / 60, s % 60))

pub record NtpCalendar : Type 0 where
  pub year : ℤ
  pub month : ℕ
  pub day : ℕ
  pub hour : ℕ
  pub minute : ℕ
  pub second : ℕ
  pub weekday : ℕ

-- `((days + 4) % 7 + 7) % 7`
unfoldable pub weekday_of : ℤ → ℕ
unfolding days_of add64 rem
weekday_of secs = pos_part (rem (add64 (rem (add64 (days_of secs) (pos 4)) 7) (pos 7)) 7)

unfoldable pub from_ntp : NtpTs64 → NtpCalendar
unfolding ntp_to_ts unix_seconds_to_ymd unix_seconds_to_hms weekday_of
from_ntp ts =
    let secs = (ntp_to_ts ts).0 in
    let ymd = unix_seconds_to_ymd secs in
    let hms = unix_seconds_to_hms secs in
    record {
      year = ymd.0;
      month = ymd.1.0;
      day = ymd.1.1;
      hour = hms.0;
      minute = hms.1.0;
      second = hms.1.1;
      weekday = weekday_of secs;
    }
