-- ===== src/Select/Intersection.antt =====
-- `clock_intersection` of ntp_proto.rs: the interval that enough peers agree on, and the peers outside
-- it.
use ntpsec_rs.Prelude.{
  ℕ, zero, suc, ◌+◌, ◌-◌, ◌%◌, ◌^◌, ◌&&◌, Option, none, some, List, [], ◌∷◌, length, is_empty, ltb,
  leb, map, if◌then◌else◌, Bool, true, false,
}
use ntpsec_rs.Types.{NtpTs64}
use ntpsec_rs.Float.{Float}
use ntpsec_rs.Float as Float
use ntpsec_rs.Peer.{Peer}
use ntpsec_rs.Select.{synch, test5, set_flag, clear_flag}
use Prim.Native.Nat.{Ordering}

-- The numbers 1, 0 and -1 of the source.
pub data EndpointType : Type 0 where
  enter vote leave : EndpointType

-- `b.cmp(a)` of the two numbers.
unfoldable pub reverse_cmp : EndpointType → EndpointType → Ordering
reverse_cmp enter enter = Ordering.eq
reverse_cmp enter vote = Ordering.lt
reverse_cmp enter leave = Ordering.lt
reverse_cmp vote enter = Ordering.gt
reverse_cmp vote vote = Ordering.eq
reverse_cmp vote leave = Ordering.lt
reverse_cmp leave enter = Ordering.gt
reverse_cmp leave vote = Ordering.gt
reverse_cmp leave leave = Ordering.eq

abbrev pub is_vote : EndpointType → ℕ
is_vote vote = 1
is_vote enter = 0
is_vote leave = 0

-- A `usize`, whose subtraction wraps.
unfoldable pub count_after : EndpointType → ℕ → ℕ
count_after enter count = count + 1
count_after vote count = count
count_after leave count = (count + 2 ^ 64 - 1) % 2 ^ 64

module _ (f : Float) where
  pub record Endpoint : Type 0 where
    pub value : f.F
    pub kind : EndpointType

  unfoldable pub endpoints_of : NtpTs64 → List (Peer f) → List Endpoint
  endpoints_of now [] = []
  endpoints_of now (p ∷ ps) =
      record { value = f.sub p.offset (synch f now p); kind = enter }
      ∷ record { value = p.offset; kind = vote }
      ∷ record { value = f.add p.offset (synch f now p); kind = leave }
      ∷ endpoints_of now ps

  -- Whether `a` sorts strictly behind `b`.
  unfoldable pub behind : Endpoint → Endpoint → Bool
  unfolding reverse_cmp
  behind a b = elim (Float.cmp_or_equal f a.value b.value) [
    | Ordering.lt ↦ false
    | Ordering.gt ↦ true
    | Ordering.eq ↦ elim (reverse_cmp a.kind b.kind) [ Ordering.gt ↦ true | _ ↦ false ]
  ]

  -- `sort_by` is stable: an endpoint comes behind the earlier ones that it is not before.
  unfoldable pub insert : Endpoint → List Endpoint → List Endpoint
  unfolding behind
  insert e [] = e ∷ []
  insert e (x ∷ xs) = let rest = insert e xs in if behind x e then e ∷ x ∷ xs else x ∷ rest

  unfoldable pub sort_onto : List Endpoint → List Endpoint → List Endpoint
  unfolding insert
  sort_onto sorted [] = sorted
  sort_onto sorted (e ∷ es) = sort_onto (insert e sorted) es

  -- The variables of one scan; `interval_start` is only read in an interval.
  pub record Scan : Type 0 where
    pub count : ℕ
    pub in_interval : Bool
    pub interval_start : f.F
    pub mid_count : ℕ

  abbrev pub scan_start : Scan
  scan_start = record {
    count = 0;
    in_interval = false;
    interval_start = f.sub f.infinity f.infinity;
    mid_count = 0;
  }

  -- What the loop's body does once the count is up to date: an interval, or the next state.
  unfoldable pub scan_step : ℕ → Endpoint → Scan → Option (f.F × f.F) × Scan
  scan_step m e s =
      if s.in_interval
      then (let mids = s.mid_count + is_vote e.kind in
          if ltb s.count m
          then (if leb m mids
              then (some (s.interval_start, e.value), s)
              else (none, record s { in_interval = false; mid_count = 0 }))
          else (none, record s { mid_count = mids }))
      else if leb m s.count
      then (
        none,
        record s { in_interval = true; interval_start = e.value; mid_count = is_vote e.kind },
      )
      else (none, s)

  unfoldable pub scan_from :
      Option (f.F × f.F) × Scan → (Scan → Option (f.F × f.F) × Scan) → Option (f.F × f.F) × Scan
  scan_from (some interval, s) go_on = (some interval, s)
  scan_from (none, s) go_on = go_on s

  unfoldable pub scan : ℕ → List Endpoint → Scan → Option (f.F × f.F) × Scan
  unfolding count_after scan_step scan_from
  scan m [] s = (none, s)
  scan m (e ∷ es) s =
      scan_from (scan_step m e (record s { count = count_after e.kind s.count })) (scan m es)

  unfoldable pub last_value : List Endpoint → f.F
  last_value [] = Float.zero f
  last_value (e ∷ []) = e.value
  last_value (e ∷ d ∷ es) = last_value (d ∷ es)

  -- The loop `for allow in 0..n`: the majority `n - allow` falls from `n` to 1.
  unfoldable pub find_interval : ℕ → List Endpoint → Option (f.F × f.F)
  unfolding scan last_value
  find_interval zero endpoints = none
  find_interval (suc k) endpoints =
      let r = scan (suc k) endpoints scan_start in
      let rest = find_interval k endpoints in
      elim r.0 [
        | some interval ↦ some interval
        | none ↦
            if r.1.in_interval && leb (suc k) r.1.mid_count
            then some (r.1.interval_start, last_value endpoints)
            else rest
      ]

  -- Whether a peer's confidence interval meets the intersection.
  unfoldable pub overlaps : NtpTs64 → Option (f.F × f.F) → Peer f → Bool
  overlaps now none p = false
  overlaps now (some (intersection_start, intersection_end)) p =
      Float.ge f (f.add p.offset (synch f now p)) intersection_start
      && Float.le f (f.sub p.offset (synch f now p)) intersection_end

  unfoldable pub mark : NtpTs64 → Option (f.F × f.F) → Peer f → Peer f
  unfolding overlaps set_flag clear_flag
  mark now interval p =
      if overlaps now interval p
      then record p { flash = clear_flag test5 p.flash }
      else record p { flash = set_flag test5 p.flash }

  unfoldable pub count_survivors : NtpTs64 → Option (f.F × f.F) → List (Peer f) → ℕ
  unfolding overlaps
  count_survivors now interval [] = 0
  count_survivors now interval (p ∷ ps) =
      let rest = count_survivors now interval ps in
      if overlaps now interval p then rest + 1 else rest

  unfoldable pub intersection_of : NtpTs64 → List (Peer f) → Option (f.F × f.F)
  unfolding find_interval sort_onto endpoints_of
  intersection_of now peers = find_interval (length peers) (sort_onto [] (endpoints_of now peers))

  -- The number of survivors, and the marked peers. No peers have no interval.
  unfoldable pub clock_intersection : NtpTs64 → List (Peer f) → ℕ × List (Peer f)
  unfolding intersection_of count_survivors mark
  clock_intersection now peers =
      let interval = intersection_of now peers in
      if is_empty peers
      then (0, peers)
      else (count_survivors now interval peers, map (mark now interval) peers)
