-- ===== src/Select.antt =====
-- The selection of the system peer, of crates/ntpsec-rs-core/src/ntp_proto.rs: intersection,
-- clustering, combination, and the state of the system. An `f64` is of the parameter.
pub mod Intersection
pub mod Cluster
pub mod System
pub mod Shrink
pub mod Trim
pub mod Survivors
pub mod Marks
pub mod Outcome
mod Examples
use ntpsec_rs.Prelude.{
  ℕ, zero, suc, ◌-◌, ◌^◌, bit_and, bit_or, List, [], ◌∷◌, ◌==◌, if◌then◌else◌, Bool,
}
use ntpsec_rs.Types.{NtpTs64}
use ntpsec_rs.Float.{Float}
use ntpsec_rs.Float as Float
use ntpsec_rs.Peer.{Peer}

-- The bits of `FlashBits`.
abbrev pub test5 : ℕ
test5 = 16

abbrev pub test9 : ℕ
test9 = 256

abbrev pub fail : ℕ
fail = 0x3ff

-- `flash |= b` and `flash &= !b`
unfoldable pub set_flag : ℕ → ℕ → ℕ
set_flag b flash = bit_or flash b

unfoldable pub clear_flag : ℕ → ℕ → ℕ
clear_flag b flash = bit_and flash (2 ^ 32 - 1 - b)

-- `FlashBits::from_bits_truncate(flash) == FlashBits::PASS`
unfoldable pub passes : ℕ → Bool
passes flash = bit_and flash fail == 0

module _ (f : Float) where
  -- `phi`, 15 parts per million.
  abbrev pub phi : f.F
  phi = f.literal 15 6

  abbrev pub elapsed : Peer f → NtpTs64 → f.F
  elapsed p now =
      f.sub (Float.ntp_ts64_to_double f now) (Float.ntp_ts64_to_double f p.reference_time)

  unfoldable pub root_distance : Peer f → NtpTs64 → f.F
  root_distance p now =
      f.add (f.add (f.add (f.div p.root_delay (f.literal 2 0)) p.root_dispersion) p.dispersion)
        (f.mul phi (elapsed p now))

  unfoldable pub root_dispersion : Peer f → NtpTs64 → f.F
  root_dispersion p now = f.add (f.add p.root_dispersion p.dispersion) (f.mul phi (elapsed p now))

  -- The half-width of a peer's confidence interval, also the distance that the weights are made of.
  abbrev pub synch : NtpTs64 → Peer f → f.F
  synch now p =
      f.max
        (f.add
          (f.add (f.add (f.div p.root_delay (f.literal 2 0)) p.root_dispersion)
            (f.mul phi (f.max (elapsed p now) (Float.zero f))))
          p.jitter)
        (f.literal 1 3)
