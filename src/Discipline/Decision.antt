-- ===== src/Discipline/Decision.antt =====
-- What the loop filter does with an offset.
use ntpsec_rs.Prelude.{◌≡◌, ◌||◌, ◌&&◌, ◌⊎◌, not, true, false}
use ntpsec_rs.Types.{NtpTs64}
use ntpsec_rs.Float.{Float}
use ntpsec_rs.Float as Float
use ntpsec_rs.Discipline.{
  Adjustment, step, slew, panic, ignore, LoopFilter, clamp_freq, step_clock, slew_clock,
  is_panic_offset, decide,
}

module _ (f : Float) where
  -- What holds after each adjustment: `l` is the filter before, `r` the one behind.
  abbrev pub IsDecided : f.F → NtpTs64 → LoopFilter f → Adjustment f → LoopFilter f → Type 0
  IsDecided offset now l (step o) r =
      (o ≡ offset)
      × ((is_panic_offset f offset l && l.clock_set) ≡ false)
      × ((Float.gt f (f.abs offset) l.step_threshold || not l.clock_set) ≡ true)
      × (r.clock_set ≡ true)
      × (r.last_update ≡ now)
      × (r.phase ≡ Float.zero f)
      × (r.step_slew_active ≡ true)
  IsDecided offset now l (slew o frequency) r =
      (l.clock_set ≡ true)
      × (Float.gt f (f.abs offset) l.step_threshold ≡ false)
      × (is_panic_offset f offset l ≡ false)
      × (r.last_update ≡ now)
      × (r.phase ≡ Float.zero f)
      × (frequency ≡ r.frequency)
      × ((frequency ≡ l.frequency) ⊎ ((v : f.F) × (frequency ≡ clamp_freq f v)))
  IsDecided offset now l (panic o) r =
      (o ≡ offset)
      × (l.clock_set ≡ true)
      × (is_panic_offset f offset l ≡ true)
      × (r.frequency ≡ l.frequency)
      × (r.last_update ≡ l.last_update)
      × (r.phase ≡ l.phase)
  IsDecided offset now l ignore r = ⊥

  -- The three outcomes, each with what led to it.
  pub data Decided (offset : f.F) (now : NtpTs64) (l : LoopFilter f) : Type 0 where
    stepped :
        (is_panic_offset f offset l && l.clock_set) ≡ false
        → (Float.gt f (f.abs offset) l.step_threshold || not l.clock_set) ≡ true
        → decide f offset now l ≡ step_clock f offset now l
        → Decided offset now l
    panicked :
        l.clock_set ≡ true
        → is_panic_offset f offset l ≡ true
        → decide f offset now l ≡ (panic offset, l)
        → Decided offset now l
    slewed :
        l.clock_set ≡ true
        → Float.gt f (f.abs offset) l.step_threshold ≡ false
        → is_panic_offset f offset l ≡ false
        → decide f offset now l ≡ slew_clock f l.discipline_type offset now l
        → Decided offset now l
