-- ===== src/Discipline.antt =====
-- The clock discipline of crates/ntpsec-rs-core/src/ntp_loopfilter.rs: the loop filter, which turns an
-- offset into a step, a slew or a panic. An `f64` is of the parameter. `adjtimex` tells the kernel the
-- offset, and its result is only logged.
pub mod Decision
mod Examples
use ntpsec_rs.Prelude.{
  ℕ, ◌+◌, ◌*◌, ◌%◌, ◌^◌, ◌||◌, ◌&&◌, min, max, Option, none, some, ltb, not, if◌then◌else◌, Bool,
  true, false,
}
use ntpsec_rs.Prelude.Int.{ℤ, pos, sub64, leb_ℤ}
use ntpsec_rs.Types.{NtpTs64}
use ntpsec_rs.Float.{Float}
use ntpsec_rs.Float as Float

pub data DisciplineType : Type 0 where
  pll pll_fll fll kernel_pll : DisciplineType

abbrev pub min_tc : ℕ
min_tc = 3

abbrev pub max_tc : ℕ
max_tc = 17

module _ (f : Float) where
  pub data Adjustment : Type 0 where
    step : f.F → Adjustment
    slew : f.F → f.F → Adjustment
    panic : f.F → Adjustment
    ignore : Adjustment

  pub record LoopFilter : Type 0 where
    pub discipline_type : DisciplineType
    pub offset : f.F
    pub frequency : f.F
    pub phase : f.F
    pub jitter : f.F
    pub wander : f.F
    pub tc : ℕ
    pub poll : ℕ
    pub update_count : ℕ
    pub last_update : NtpTs64
    pub step_threshold : f.F
    pub panic_threshold : f.F
    pub clock_set : Bool
    pub initial_slew : Bool
    pub max_error : f.F
    pub est_error : f.F
    pub last_step_time : ℤ
    pub step_slew_active : Bool

  unfoldable pub new : DisciplineType → LoopFilter
  new discipline = record {
    discipline_type = discipline;
    offset = Float.zero f;
    frequency = Float.zero f;
    phase = Float.zero f;
    jitter = Float.zero f;
    wander = Float.zero f;
    tc = 6;
    poll = 0;
    update_count = 0;
    last_update = record { seconds = pos 0; fraction = 0 };
    step_threshold = f.literal 128 3;
    panic_threshold = f.literal 1000 0;
    clock_set = false;
    initial_slew = false;
    max_error = Float.zero f;
    est_error = Float.zero f;
    last_step_time = pos 0;
    step_slew_active = false;
  }

  abbrev pub or_kept : Option f.F → f.F → f.F
  or_kept none kept = kept
  or_kept (some v) kept = v

  unfoldable pub configure : Option f.F → Option f.F → LoopFilter → LoopFilter
  configure step_threshold panic_threshold l = record l {
    step_threshold = or_kept step_threshold l.step_threshold;
    panic_threshold = or_kept panic_threshold l.panic_threshold;
  }

  abbrev pub since_update : NtpTs64 → LoopFilter → f.F
  since_update now l =
      f.sub (Float.ntp_ts64_to_double f now) (Float.ntp_ts64_to_double f l.last_update)

  unfoldable pub elapsed : NtpTs64 → LoopFilter → f.F
  elapsed now l =
      if l.clock_set
      then f.min (f.max (since_update now l) (Float.zero f)) (f.literal 3600 0)
      else Float.zero f

  -- `average += (sample - average) * 0.25`
  abbrev pub toward : f.F → f.F → f.F
  toward average sample = f.add average (f.mul (f.sub sample average) (f.literal 25 2))

  -- The bookkeeping before the decision. The counter is a `u64`.
  unfoldable pub measured : f.F → NtpTs64 → LoopFilter → LoopFilter
  unfolding elapsed
  measured offset now l =
      let count = (l.update_count + 1) % 2 ^ 64 in
      let change = f.sub offset l.offset in
      record l {
        update_count = count;
        jitter = if l.clock_set then toward l.jitter (f.abs change) else f.abs offset;
        wander =
            if ltb 1 count && Float.gt f (elapsed now l) (Float.zero f)
            then toward l.wander (f.abs (f.div change (elapsed now l)))
            else l.wander;
        offset = offset;
        tc = min (max l.tc min_tc) max_tc;
      }

  abbrev pub clamp_freq : f.F → f.F
  clamp_freq v = f.clamp (f.neg (f.literal 500 0)) (f.literal 500 0) v

  -- The frequency after a step.
  unfoldable pub stepped_frequency : f.F → NtpTs64 → LoopFilter → f.F
  stepped_frequency offset now l =
      if l.clock_set
        && (Float.gt f (f.abs offset) l.step_threshold
            && Float.gt f (since_update now l) (Float.zero f))
      then clamp_freq (
          f.mul
            (f.add l.frequency (f.mul (f.div offset (since_update now l)) (f.literal 1000000 0)))
            (f.literal 5 1))
      else l.frequency

  unfoldable pub step_clock : f.F → NtpTs64 → LoopFilter → Adjustment × LoopFilter
  unfolding stepped_frequency
  step_clock offset now l = (
    step offset,
    record l {
      phase = Float.zero f;
      frequency = stepped_frequency offset now l;
      last_update = now;
      clock_set = true;
      offset = Float.zero f;
      last_step_time = now.seconds;
      step_slew_active = true;
    },
  )

  -- `(1u64 << self.tc) as f64`
  abbrev pub tau : LoopFilter → f.F
  tau l = f.of_ℕ (2 ^ l.tc)

  -- The contributions of phase and frequency.
  abbrev pub pll_delta : f.F → LoopFilter → f.F
  pll_delta offset l = f.div offset (f.mul (tau l) (f.literal 16 0))

  abbrev pub fll_delta : f.F → LoopFilter → f.F
  fll_delta offset l = f.div (f.sub offset l.phase) (tau l)

  -- `self.phase` after its update is the slew, and is then reset.
  unfoldable pub slew_by : f.F → f.F → NtpTs64 → LoopFilter → Adjustment × LoopFilter
  slew_by delta offset now l =
      let frequency = clamp_freq (f.add l.frequency (f.mul delta (f.literal 1000000 0))) in
      (
        slew (f.add l.phase (f.sub offset delta)) frequency,
        record l {
          frequency = frequency;
          phase = Float.zero f;
          last_update = now;
          clock_set = true;
        },
      )

  unfoldable pub slew_clock : DisciplineType → f.F → NtpTs64 → LoopFilter → Adjustment × LoopFilter
  unfolding slew_by
  slew_clock pll offset now l = slew_by (pll_delta offset l) offset now l
  slew_clock pll_fll offset now l =
      slew_by (f.add (pll_delta offset l) (f.mul (fll_delta offset l) (f.literal 5 1))) offset now l
  slew_clock fll offset now l = slew_by (fll_delta offset l) offset now l
  slew_clock kernel_pll offset now l = (
    slew (Float.zero f) l.frequency,
    record l { last_update = now; clock_set = true; offset = Float.zero f; phase = Float.zero f },
  )

  unfoldable pub is_panic_offset : f.F → LoopFilter → Bool
  is_panic_offset offset l =
      Float.gt f (f.abs offset) l.panic_threshold && Float.gt f l.panic_threshold (Float.zero f)

  unfoldable pub decide : f.F → NtpTs64 → LoopFilter → Adjustment × LoopFilter
  unfolding is_panic_offset step_clock slew_clock
  decide offset now l =
      if is_panic_offset offset l
      then (if not l.clock_set then step_clock offset now l else (panic offset, l))
      else if Float.gt f (f.abs offset) l.step_threshold || not l.clock_set
      then step_clock offset now l
      else slew_clock l.discipline_type offset now l

  unfoldable pub local_clock : f.F → NtpTs64 → LoopFilter → Adjustment × LoopFilter
  unfolding measured decide
  local_clock offset now l = decide offset now (measured offset now l)

  unfoldable pub is_freq_suppressed : NtpTs64 → LoopFilter → Bool
  is_freq_suppressed now l =
      l.step_slew_active && not (leb_ℤ (pos 30) (sub64 now.seconds l.last_step_time))

  unfoldable pub end_step_slew : LoopFilter → LoopFilter
  end_step_slew l = record l { step_slew_active = false }

  unfoldable pub set_tc : ℕ → LoopFilter → LoopFilter
  set_tc tc l = record l { tc = min (max tc min_tc) max_tc }

  unfoldable pub set_frequency : f.F → LoopFilter → LoopFilter
  set_frequency freq l = record l { frequency = freq }
