-- ===== src/Fp/Era.antt =====
-- The era that `correct_era` gives a wire timestamp.
use ntpsec_rs.Prelude.{ℕ, ◌+◌, ◌^◌, ◌≤◌, ◌<◌, ◌≡◌, arith}
use ntpsec_rs.Prelude.Bytes.{IsU32}
use ntpsec_rs.Prelude.Int.{pos, pos_part, neg_part, add64, sub64}
use ntpsec_rs.Types.{NtpTs, NtpTs64}
use ntpsec_rs.Fp.{correct_era}

-- A timestamp that is not ahead of `now` and less than 2 ^ 31 seconds behind keeps its seconds.
pub correct_era_behind :
    (wire : NtpTs) (now : NtpTs64) (n : ℕ)
    → IsU32 wire.seconds
    → now.seconds ≡ pos n
    → wire.seconds ≤ n
    → n < wire.seconds + 2 ^ 31
    → (correct_era wire now).seconds ≡ pos wire.seconds
unfolding correct_era add64 sub64
correct_era_behind wire now n h e lo hi = rw e (ground arith)

-- A timestamp that is ahead of `now`, by up to 2 ^ 31 seconds, is moved 2 ^ 31 seconds back.
pub correct_era_ahead :
    (wire : NtpTs) (now : NtpTs64) (n : ℕ)
    → IsU32 wire.seconds
    → now.seconds ≡ pos n
    → n < wire.seconds
    → wire.seconds ≤ n + 2 ^ 31
    → pos_part (correct_era wire now).seconds + 2 ^ 31
      ≡ wire.seconds + neg_part (correct_era wire now).seconds
unfolding correct_era add64 sub64
correct_era_ahead wire now n h e lo hi = rw e (ground arith)
