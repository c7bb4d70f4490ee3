-- ===== src/Fp/Examples.antt =====
-- The theorems on NTP time at concrete inputs.
use ntpsec_rs.Prelude.{◌+◌, ◌≤◌, ◌≡◌, refl, arith}
use ntpsec_rs.Prelude.Int.{pos, pos_part, neg_part}
use ntpsec_rs.Fp.{ntp_to_ts, ts_to_ntp, correct_era}
use ntpsec_rs.Fp.Convert.{ntp_to_ts-ts_to_ntp}
use ntpsec_rs.Fp.Era.{correct_era_ahead}

ntp_to_ts-ts_to_ntp_example :
    ((ntp_to_ts (ts_to_ntp (pos 1700000000) (pos 123456789))).0 ≡ pos 1700000000)
    × ((ntp_to_ts (ts_to_ntp (pos 1700000000) (pos 123456789))).1 ≤ 123456789)
    × (123456789 ≤ (ntp_to_ts (ts_to_ntp (pos 1700000000) (pos 123456789))).1 + 1)
ntp_to_ts-ts_to_ntp_example = ntp_to_ts-ts_to_ntp 1700000000 123456789 (omega arith) (omega arith)

correct_era_ahead_example :
    pos_part
        (correct_era
          (record { seconds = 3900000001; fraction = 1 })
          (record { seconds = pos 3900000000; fraction = 0 })).seconds
      + 2147483648
    ≡ 3900000001
      + neg_part
          (correct_era
            (record { seconds = 3900000001; fraction = 1 })
            (record { seconds = pos 3900000000; fraction = 0 })).seconds
correct_era_ahead_example =
    correct_era_ahead (record { seconds = 3900000001; fraction = 1 })
      (record { seconds = pos 3900000000; fraction = 0 }) 3900000000 (omega arith) refl
      (omega arith) (omega arith)
