-- ===== src/Daemon/Update/Status.antt =====
-- The status word of the system, as a control client reads it.
use ntpsec_rs.Prelude.{ℕ, ◌<◌, ◌≡◌, refl, arith, min}
use ntpsec_rs.Prelude.Bits.{low}
use ntpsec_rs.Types.Leap as Leap
use ntpsec_rs.Control.Status.{
  make, decode_li, decode_source, decode_event_count, decode_event_code, decode-make,
}
use ntpsec_rs.Float.{Float}
use ntpsec_rs.Daemon.{System}
use ntpsec_rs.Daemon.Update.{clock_source, compute_system_status}

module _ (f : Float) where
  compute_system_status-eq-make :
      (s : System f)
      → compute_system_status f s
        ≡ make
            (Leap.to_bits s.core.leap)
            (clock_source f s.core.stratum)
            (min s.core.peer_count 15)
            0
  unfolding compute_system_status make
  compute_system_status-eq-make s =
      let whole : low (Leap.to_bits s.core.leap) 2 ≡ Leap.to_bits s.core.leap =
        omega (arith, Leap.to_bits-lt s.core.leap) in
      rw whole refl

  clock_source-lt : (stratum : ℕ) → clock_source f stratum < 64
  unfolding clock_source
  clock_source-lt stratum = ground arith

  -- A control client reads from the status word the leap indicator, the clock source, which is 0 for
  -- the strata from 16 on, 1 for stratum 1 and 3 for the others, the number of survivors up to 15, and
  -- no event.
  pub decode-compute_system_status :
      (s : System f)
      → (decode_li (compute_system_status f s) ≡ Leap.to_bits s.core.leap)
        × (decode_source (compute_system_status f s) ≡ clock_source f s.core.stratum)
        × (decode_event_count (compute_system_status f s) ≡ min s.core.peer_count 15)
        × (decode_event_code (compute_system_status f s) ≡ 0)
  decode-compute_system_status s =
      let fields =
        decode-make (Leap.to_bits s.core.leap) (clock_source f s.core.stratum)
          (min s.core.peer_count 15) 0 in
      rw (compute_system_status-eq-make s) (
        omega (arith, fields.0, Leap.to_bits-lt s.core.leap),
        omega (arith, fields.1, clock_source-lt s.core.stratum),
        omega (arith, fields.2),
        omega (arith, fields.3),
      )
