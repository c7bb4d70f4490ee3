-- ===== src/Leap/Examples.antt =====
-- The theorem on leap files at a concrete file, and the announcement years after the event.
use ntpsec_rs.Prelude.{◌&&◌, ◌≡◌, refl, some, is_some, List, [], ◌∷◌, true, ok}
use ntpsec_rs.Prelude.Int.{pos, ltb_ℤ, sub64, ◌-ℤ◌, wrap64, u64_of_ℤ, i64_of_u64}
use ntpsec_rs.Types.{NtpTs64}
use ntpsec_rs.Types.Leap.{add_leap_second}
use ntpsec_rs.Leap.{
  LeapLine, comment, fields, new, load_leapfile, loaded, parse_lines, sort_onto, insert_entry,
  query, query_entries, announces, indicator_of,
}
use ntpsec_rs.Leap.Announce.{any_line_reached, query-load_leapfile}

-- The first two lines of data of a leap file, where the second field is TAI - UTC.
abbrev lines : List LeapLine
lines =
    comment
    ∷ fields (some (pos 2272060800)) (some (pos 10))
    ∷ fields (some (pos 2287785600)) (some (pos 11))
    ∷ []

abbrev expiration : NtpTs64
expiration = record { seconds = pos 3944332800; fraction = 0 }

-- In 2024, without a leap second in sight.
abbrev now : NtpTs64
now = record { seconds = pos 3913056000; fraction = 0 }

loads : (load_leapfile (some expiration) true lines new).0 ≡ ok tt
unfolding load_leapfile loaded parse_lines
loads = refl

query-load_leapfile_example :
    is_some (query now (load_leapfile (some expiration) true lines new).1)
    ≡ (ltb_ℤ now.seconds expiration.seconds && any_line_reached now lines)
query-load_leapfile_example = query-load_leapfile expiration now true lines new loads

announced_in_2024 :
    query now (load_leapfile (some expiration) true lines new).1 ≡ some add_leap_second
unfolding load_leapfile loaded parse_lines sort_onto insert_entry query query_entries announces
    indicator_of sub64 ◌-ℤ◌ wrap64 u64_of_ℤ i64_of_u64
announced_in_2024 = refl
