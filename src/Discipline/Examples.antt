-- ===== src/Discipline/Examples.antt =====
-- The loop filter at a concrete offset, with natural numbers in place of floating point.
use ntpsec_rs.Prelude.{◌≡◌, refl, true}
use ntpsec_rs.Prelude.Int.{pos}
use ntpsec_rs.Types.{NtpTs64}
use ntpsec_rs.Float.Toy.{toy}
use ntpsec_rs.Discipline.{step, panic, LoopFilter, pll_fll, new, local_clock}

abbrev now : NtpTs64
now = record { seconds = pos 3900000000; fraction = 0 }

abbrev set_clock : LoopFilter toy
set_clock = record (new toy pll_fll) { clock_set = true }

-- The first offset is a step, however large it is.
first_is_step : (local_clock toy 2000 now (new toy pll_fll)).0 ≡ step 2000
unfolding local_clock new
first_is_step = refl

-- Later an offset above 1000 seconds is a panic.
later_is_panic : (local_clock toy 2000 now set_clock).0 ≡ panic 2000
unfolding local_clock new
later_is_panic = refl
