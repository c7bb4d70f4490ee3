-- ===== src/Timespec.antt =====
-- `NtpTimespec` of crates/ntpsec-rs-core/src/timespecops.rs, and the GPS time of gpstolfp.rs.
pub mod Normal
mod Examples
use ntpsec_rs.Prelude.{ℕ, ◌+◌, ◌-◌, ◌*◌, ◌/◌, ◌%◌, ◌^◌, ◌||◌, ◌&&◌, if◌then◌else◌, Bool}
use ntpsec_rs.Prelude.Int.{
  ℤ, pos, negsuc, pos_part, neg_part, ltb_ℤ, leb_ℤ, add64, sub64, quot, rem,
}
use ntpsec_rs.Types.{NtpTs64}
use ntpsec_rs.Fp.{ts_to_ntp, ntp_to_ts}
use Prim.Native.Nat.{Ordering, compare}

pub record NtpTimespec : Type 0 where
  pub seconds : ℤ
  pub nanos : ℤ

abbrev pub ns_per_sec : ℕ
ns_per_sec = 1000000000

-- The first part of `normalize`.
unfoldable pub carry : NtpTimespec → NtpTimespec
unfolding add64 quot rem
carry t =
    if leb_ℤ (pos ns_per_sec) t.nanos || leb_ℤ t.nanos (negsuc (ns_per_sec - 1))
    then record {
      seconds = add64 t.seconds (quot t.nanos ns_per_sec);
      nanos = rem t.nanos ns_per_sec;
    }
    else t

-- The second part.
unfoldable pub borrow : NtpTimespec → NtpTimespec
unfolding add64 sub64
borrow t =
    if ltb_ℤ (pos 0) t.seconds && ltb_ℤ t.nanos (pos 0)
    then record { seconds = sub64 t.seconds (pos 1); nanos = add64 t.nanos (pos ns_per_sec) }
    else if ltb_ℤ t.seconds (pos 0) && ltb_ℤ (pos 0) t.nanos
    then record { seconds = add64 t.seconds (pos 1); nanos = sub64 t.nanos (pos ns_per_sec) }
    else t

unfoldable pub normalize : NtpTimespec → NtpTimespec
unfolding carry borrow
normalize t = borrow (carry t)

unfoldable pub new : ℤ → ℤ → NtpTimespec
unfolding normalize
new secs nanos = normalize (record { seconds = secs; nanos = nanos })

unfoldable pub add : NtpTimespec → NtpTimespec → NtpTimespec
unfolding normalize
add a b = normalize (record { seconds = add64 a.seconds b.seconds; nanos = add64 a.nanos b.nanos })

unfoldable pub sub : NtpTimespec → NtpTimespec → NtpTimespec
unfolding normalize
sub a b = normalize (record { seconds = sub64 a.seconds b.seconds; nanos = sub64 a.nanos b.nanos })

-- `cmp` of two `i64`.
unfoldable pub cmp_ℤ : ℤ → ℤ → Ordering
cmp_ℤ a b = compare (pos_part a + neg_part b) (pos_part b + neg_part a)

unfoldable pub cmp : NtpTimespec → NtpTimespec → Ordering
unfolding cmp_ℤ
cmp a b = elim (cmp_ℤ a.seconds b.seconds) [
  | Ordering.eq ↦ cmp_ℤ a.nanos b.nanos
  | Ordering.lt ↦ Ordering.lt
  | Ordering.gt ↦ Ordering.gt
]

unfoldable pub to_ntp : NtpTimespec → NtpTs64
to_ntp t = ts_to_ntp t.seconds t.nanos

unfoldable pub from_ntp : NtpTs64 → NtpTimespec
unfolding new
from_ntp ts = new (ntp_to_ts ts).0 (pos (ntp_to_ts ts).1)

abbrev pub gps_epoch_offset : ℕ
gps_epoch_offset = 315964800

-- `gps_nsecs as u64 * 2 ^ 32 / 10 ^ 9`, as a `u32`.
unfoldable pub gps_fraction : ℤ → ℕ
gps_fraction (pos n) = n * 2 ^ 32 % 2 ^ 64 / 1000000000 % 2 ^ 32
gps_fraction (negsuc n) = 0

unfoldable pub gps_to_ntp : ℤ → ℤ → NtpTs64
unfolding gps_fraction sub64
gps_to_ntp gps_secs gps_nsecs = record {
  seconds = sub64 gps_secs (pos gps_epoch_offset);
  fraction = gps_fraction gps_nsecs;
}

unfoldable pub ntp_to_gps : NtpTs64 → ℤ × ℤ
unfolding add64
ntp_to_gps ntp =
    (add64 ntp.seconds (pos gps_epoch_offset), pos (ntp.fraction * 1000000000 % 2 ^ 64 / 2 ^ 32))
