-- ===== src/Proto.antt =====
-- The peer protocol of crates/ntpsec-rs-core/src/ntp_proto.rs: reachability, poll interval, kiss
-- rate limit, clock filter, the checks on a received packet, and the packets that are sent.
pub mod Filter
pub mod Polls
pub mod Packets
mod Examples
use ntpsec_rs.Prelude.{
  ℕ, zero, suc, ◌+◌, ◌-◌, ◌*◌, ◌/◌, ◌%◌, ◌^◌, ◌||◌, ◌&&◌, bit_or, min, max, Option, none, some,
  List, [], ◌∷◌, ◌++◌, length, take, ltb, leb, ◌==◌, not, if◌then◌else◌, Bool, true, false,
  is_empty,
}
use ntpsec_rs.Prelude.Int.{ℤ, pos, leb_ℤ, sub64}
use ntpsec_rs.Types.{NtpTs64}

abbrev pub ntp_shift : ℕ
ntp_shift = 8

pub record Reachability : Type 0 where
  pub register : ℕ
  pub count : ℕ

abbrev pub unreached : Reachability
unreached = record { register = 0; count = 0 }

-- `(register << 1) | 1` on a byte: the low bit is free.
unfoldable pub record_success : Reachability → Reachability
record_success r = record {
  register = bit_or (r.register * 2 % 256) 1;
  count = min (min (r.count + 1) 255) ntp_shift;
}

unfoldable pub record_failure : Reachability → Reachability
record_failure r = record { register = r.register * 2 % 256; count = r.count - 1 }

unfoldable pub is_reachable : Reachability → Bool
is_reachable r = not (r.register == 0)

pub record PollInterval : Type 0 where
  pub min_poll : ℕ
  pub max_poll : ℕ
  pub current : ℕ

-- `current + 1` on a byte.
unfoldable pub increase : PollInterval → PollInterval
increase p = record p { current = min ((p.current + 1) % 256) p.max_poll }

unfoldable pub decrease : PollInterval → PollInterval
decrease p = record p { current = max (p.current - 1) p.min_poll }

unfoldable pub reset : PollInterval → PollInterval
reset p = record p { current = p.min_poll }

pub record RateLimit : Type 0 where
  pub last_kod : NtpTs64
  pub kod_count : ℕ

unfoldable pub should_send_kod : NtpTs64 → RateLimit → Bool
unfolding sub64
should_send_kod now r = leb_ℤ (pos 10) (sub64 now.seconds r.last_kod.seconds) || (r.kod_count == 0)

unfoldable pub record_kod : NtpTs64 → RateLimit → RateLimit
record_kod now r = record { last_kod = now; kod_count = min (r.kod_count + 1) (2 ^ 32 - 1) }
