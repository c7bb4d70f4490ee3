-- ===== src/Fp/Convert.antt =====
-- Unix time to NTP time and back.
use ntpsec_rs.Prelude.{ℕ, ◌+◌, ◌^◌, ◌≤◌, ◌<◌, ◌≡◌, arith}
use ntpsec_rs.Prelude.Int.{pos, negsuc, add64, sub64}
use ntpsec_rs.Fp.{ts_to_ntp, tv_to_ntp, ntp_to_ts, ntp_to_tv}

-- From 1970 on, a time with nanoseconds survives the way to NTP time and back, but for one
-- nanosecond that truncation may cost.
pub ntp_to_ts-ts_to_ntp :
    (secs nsec : ℕ)
    → secs < 2 ^ 61
    → nsec < 1000000000
    → ((ntp_to_ts (ts_to_ntp (pos secs) (pos nsec))).0 ≡ pos secs)
      × ((ntp_to_ts (ts_to_ntp (pos secs) (pos nsec))).1 ≤ nsec)
      × (nsec ≤ (ntp_to_ts (ts_to_ntp (pos secs) (pos nsec))).1 + 1)
unfolding ntp_to_ts ts_to_ntp add64 sub64
ntp_to_ts-ts_to_ntp secs nsec hs hn = (ground arith, omega arith, omega arith)

pub ntp_to_tv-tv_to_ntp :
    (secs usec : ℕ)
    → secs < 2 ^ 61
    → usec < 1000000
    → ((ntp_to_tv (tv_to_ntp (pos secs) (pos usec))).0 ≡ pos secs)
      × ((ntp_to_tv (tv_to_ntp (pos secs) (pos usec))).1 ≤ usec)
      × (usec ≤ (ntp_to_tv (tv_to_ntp (pos secs) (pos usec))).1 + 1)
unfolding ntp_to_tv tv_to_ntp add64 sub64
ntp_to_tv-tv_to_ntp secs usec hs hn = (ground arith, omega arith, omega arith)

-- Before 1970, with nanoseconds counted forward from the second as in a `timespec`, the way to NTP
-- time and back loses a whole second.
pub ntp_to_ts-ts_to_ntp_before_1970 :
    (n nsec : ℕ)
    → n < 2 ^ 61
    → nsec < 1000000000
    → (ntp_to_ts (ts_to_ntp (negsuc n) (pos nsec))).0 ≡ negsuc (n + 1)
unfolding ntp_to_ts ts_to_ntp add64 sub64
ntp_to_ts-ts_to_ntp_before_1970 n nsec hs hn = ground arith
