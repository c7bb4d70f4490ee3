-- ===== src/Peer/Poll.antt =====
-- What a sample and a poll do to a peer: `filter_jitter`, `accept_sample` and `poll_update` of
-- ntp_proto.rs, and the bounds of the host's poll exponent.
use ntpsec_rs.Prelude.{
  ℕ, ◌+◌, ◌-◌, ◌/◌, ◌%◌, ◌^◌, ◌≤◌, ◌<◌, ◌≡◌, refl, arith, ◌&&◌, min, max, Option, none, some, List,
  [], ◌∷◌, length, ltb, ◌==◌, not, if◌then◌else◌, Bool, Bool-cases, inl, inr,
}
use ntpsec_rs.Types.{NtpTs64}
use ntpsec_rs.Proto.{record_success, is_reachable}
use ntpsec_rs.Proto.Filter.{ClockFilter, add_sample, samples, filter}
use ntpsec_rs.Float.{Float}
use ntpsec_rs.Float as Float
use ntpsec_rs.Peer.{Peer, ClockFilterEntry, contains, iburst}

module _ (f : Float) where
  unfoldable pub sum_squares : f.F → List (ClockFilterEntry f) → f.F → f.F
  sum_squares peer_offset [] sum = sum
  sum_squares peer_offset (s ∷ ss) sum =
      let d = f.sub s.offset peer_offset in sum_squares peer_offset ss (f.add sum (f.mul d d))

  unfoldable pub filter_jitter : ClockFilter (ClockFilterEntry f) → f.F → f.F
  unfolding samples sum_squares
  filter_jitter c peer_offset =
      let n = length (samples c) in
      if ltb n 2
      then Float.zero f
      else f.sqrt (
          f.div (sum_squares peer_offset (samples c) (Float.zero f))
            (f.sub (f.of_ℕ n) (f.literal 1 0)))

  -- The order of `min_by`: a delay that does not compare counts as equal.
  abbrev pub greater : ClockFilterEntry f → ClockFilterEntry f → Bool
  greater a b = Float.gt f a.delay b.delay

  -- `if let Some(filtered) = peer.clock_filter.filter()`
  unfoldable pub use_filtered : Option (ClockFilterEntry f) → Peer f → Peer f
  use_filtered none p = p
  use_filtered (some e) p = record p {
    offset = e.offset;
    delay = e.delay;
    dispersion = e.dispersion;
  }

  -- An exponent below 64, as the shift of a `u64` requires.
  unfoldable pub accept_sample : f.F → f.F → f.F → NtpTs64 → Peer f → Peer f
  unfolding add_sample filter use_filtered filter_jitter record_success
  accept_sample offset delay dispersion now p =
      let entry : ClockFilterEntry f = record {
        offset = offset;
        delay = f.max delay (Float.zero f);
        dispersion = f.add dispersion (f.mul (f.of_ℕ (2 ^ p.hpoll)) (f.literal 1 6));
        time = now;
      } in
      let filled : Peer f = record p { clock_filter = add_sample entry p.clock_filter } in
      let updated : Peer f = use_filtered (filter greater filled.clock_filter) filled in
      record updated {
        jitter = filter_jitter updated.clock_filter updated.offset;
        reach = record_success updated.reach;
        receive_time = now;
      }

  -- The start of a burst.
  unfoldable pub arm_burst : Peer f → Peer f
  unfolding is_reachable
  arm_burst p =
      if contains p.flags iburst && (not (is_reachable p.reach) && (p.burst == 0))
      then record p { burst = 8; retry = 0 }
      else p

  -- The exponent outside a burst; the sums are those of a byte.
  unfoldable pub adapted_hpoll : Peer f → ℕ
  unfolding is_reachable
  adapted_hpoll p =
      if not (is_reachable p.reach)
      then max (p.hpoll - 2) p.minpoll
      else if Float.lt f (f.abs p.offset) (f.literal 128 3)
      then min ((p.hpoll + 1) % 256) p.maxpoll
      else if not (Float.lt f (f.abs p.offset) (f.literal 1 0))
      then max (p.hpoll - 1) p.minpoll
      else if ltb p.hpoll ((p.minpoll + p.maxpoll) % 256 / 2)
      then min (min (p.hpoll + 1) 255) p.maxpoll
      else p.hpoll

  unfoldable pub poll_update : Peer f → Peer f
  unfolding arm_burst adapted_hpoll
  poll_update p =
      let q = arm_burst p in
      if ltb 0 q.burst
      then record q { hpoll = min 5 (max q.minpoll 5); burst = q.burst - 1 }
      else record q { hpoll = adapted_hpoll q }

  -- The configured bounds, and an exponent that a burst may have set to 5.
  pub record IsPolled (p : Peer f) : Type 0 where
    pub ordered : p.minpoll ≤ p.maxpoll
    pub byte : p.maxpoll < 255
    pub least : min p.minpoll 5 ≤ p.hpoll
    pub most : p.hpoll ≤ max p.maxpoll 5

  arm_burst_lem :
      (p : Peer f)
      → ((arm_burst p).minpoll ≡ p.minpoll)
        × ((arm_burst p).maxpoll ≡ p.maxpoll)
        × ((arm_burst p).hpoll ≡ p.hpoll)
  unfolding arm_burst
  arm_burst_lem p =
      elim (Bool-cases
        (contains p.flags iburst && (not (is_reachable p.reach) && (p.burst == 0)))) [
          | inl e ↦ rw e (refl, refl, refl)
          | inr e ↦ rw e (refl, refl, refl)
        ]

  adapted_hpoll-le :
      (p : Peer f)
      → IsPolled p
      → (min p.minpoll 5 ≤ adapted_hpoll p) × (adapted_hpoll p ≤ max p.maxpoll 5)
  unfolding adapted_hpoll
  adapted_hpoll-le p h = ground (arith, h.ordered, h.byte, h.least, h.most)

  IsPolled-arm_burst : (p : Peer f) → IsPolled p → IsPolled (arm_burst p)
  IsPolled-arm_burst p h =
      let same = arm_burst_lem p in
      record {
        ordered = omega (arith, same.0, same.1, h.ordered);
        byte = omega (arith, same.1, h.byte);
        least = omega (arith, same.0, same.2, h.least);
        most = omega (arith, same.1, same.2, h.most);
      }

  -- A poll update keeps the exponent between the smaller of 5 and the configured minimum and the
  -- larger of 5 and the configured maximum, in a burst and outside, whatever the measured offset; it
  -- keeps the configured bounds, of which the upper one is below 255.
  pub poll_update-IsPolled : (p : Peer f) → IsPolled p → IsPolled (poll_update p)
  unfolding poll_update
  poll_update-IsPolled p h = elim (Bool-cases (ltb 0 (arm_burst p).burst)) [
    | inl e ↦
        rw e
          (record { ordered = k.ordered; byte = k.byte; least = omega arith; most = omega arith })
    | inr e ↦ rw e (record {
      ordered = k.ordered;
      byte = k.byte;
      least = (adapted_hpoll-le (arm_burst p) k).0;
      most = (adapted_hpoll-le (arm_burst p) k).1;
    })
  ]
    where
      k : IsPolled (arm_burst p)
      k = IsPolled-arm_burst p h
