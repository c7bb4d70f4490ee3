-- ===== src/Proto/Polls.antt =====
-- `Reachability`, `PollInterval` and `RateLimit`, and `poll_update`, of ntp_proto.rs.
use ntpsec_rs.Prelude.{
  ℕ, ◌+◌, ◌*◌, ◌%◌, ◌^◌, ◌≤◌, ◌<◌, ◌≡◌, refl, ◌∙◌, ap, arith, ◌||◌, bit_or, List, [], ◌∷◌, length,
  ◌==◌, not, if◌then◌else◌, Bool, true, false,
}
use native.Mathlib.Nat.{pow-suc}
use ntpsec_rs.Prelude.Bits.{or_fields}
use ntpsec_rs.Prelude.Int.{pos, IsSmall, leb_ℤ, sub64}
use ntpsec_rs.Types.{NtpTs64}
use ntpsec_rs.Proto.{
  Reachability, record_success, record_failure, is_reachable, PollInterval, increase, decrease,
  reset, RateLimit, should_send_kod, record_kod,
}

-- The outcomes of successive polls, the oldest first.
abbrev pub record_all : List Bool → Reachability → Reachability
record_all [] r = r
record_all (true ∷ outcomes) r = record_all outcomes (record_success r)
record_all (false ∷ outcomes) r = record_all outcomes (record_failure r)

abbrev pub any_of : List Bool → Bool
any_of [] = false
any_of (b ∷ bs) = b || any_of bs

-- The register as it would be with room for every outcome.
value : List Bool → ℕ → ℕ
value [] acc = acc
value (b ∷ bs) acc = value bs (acc * 2 + (if b then 1 else 0))

success_register : (r : Reachability) → (record_success r).register ≡ (r.register * 2 + 1) % 256
unfolding record_success
success_register r =
    ap (λ t. bit_or t 1) (omega arith)
    ∙ or_fields 1 (r.register % 128) 1 (omega arith)
    ∙ omega arith

value_mod : (bs : List Bool) (a b : ℕ) → a % 256 ≡ b % 256 → value bs a % 256 ≡ value bs b % 256
unfolding value
value_mod [] a b h = h
value_mod (x ∷ bs) a b h =
    value_mod bs (a * 2 + (if x then 1 else 0)) (b * 2 + (if x then 1 else 0)) (ground arith)

record_all_register :
    (bs : List Bool) (r : Reachability)
    → r.register < 256
    → (record_all bs r).register ≡ value bs r.register % 256
unfolding value record_failure
record_all_register [] r h = omega arith
record_all_register (true ∷ bs) r h =
    record_all_register bs (record_success r) (omega (arith, success_register r))
    ∙ value_mod bs (record_success r).register (r.register * 2 + 1)
        (omega (arith, success_register r))
record_all_register (false ∷ bs) r h =
    record_all_register bs (record_failure r) (smaller r)
    ∙ value_mod bs (record_failure r).register (r.register * 2 + 0) (shifted r)
  where
    smaller : (r : Reachability) → (record_failure r).register < 256
    smaller r = omega arith

    shifted : (r : Reachability) → (record_failure r).register % 256 ≡ (r.register * 2 + 0) % 256
    shifted r = omega arith

value_shift : (bs : List Bool) (a : ℕ) → value bs a ≡ a * 2 ^ length bs + value bs 0
unfolding value
value_shift [] a = omega arith
value_shift (b ∷ bs) a =
    let x : ℕ = if b then 1 else 0 in
    value_shift bs (a * 2 + x)
    ∙ omega (arith, value_shift bs (0 * 2 + x), ap (λ (t : ℕ). a * t) (pow-suc 2 (length bs)))

value-pos : (bs : List Bool) (a : ℕ) → 0 < a → 0 < value bs a
unfolding value
value-pos [] a h = h
value-pos (b ∷ bs) a h = value-pos bs (a * 2 + (if b then 1 else 0)) (ground arith)

value-any_of : (bs : List Bool) → not (value bs 0 == 0) ≡ any_of bs
unfolding value
value-any_of [] = refl
value-any_of (true ∷ bs) = ground (arith, value-pos bs 1)
value-any_of (false ∷ bs) = value-any_of bs

value-lt : (bs : List Bool) → value bs 0 < 2 ^ length bs
unfolding value
value-lt [] = omega arith
value-lt (true ∷ bs) = omega (arith, value_shift bs 1, value-lt bs, pow-suc 2 (length bs))
value-lt (false ∷ bs) = omega (arith, value-lt bs, pow-suc 2 (length bs))

-- After eight more polls a peer is reachable exactly if one of these eight succeeded, whatever the
-- register, a byte, held before.
pub record_all-window :
    (r : Reachability) (bs : List Bool)
    → r.register < 256
    → length bs ≡ 8
    → is_reachable (record_all bs r) ≡ any_of bs
unfolding is_reachable
record_all-window r bs h n =
    ap (λ t. not (t == 0)) (record_all_register bs r h) ∙ eight bs r.register n
  where
    eight : (bs : List Bool) (a : ℕ) → length bs ≡ 8 → not (value bs a % 256 == 0) ≡ any_of bs
    eight bs a n =
        ap (λ t. not (t == 0))
          (omega
            (arith, value_shift bs a, value-lt bs, ap (λ k. 2 ^ k) n, ap (λ (k : ℕ). a * 2 ^ k) n))
        ∙ value-any_of bs

-- The bounds that a poll interval keeps.
pub record IsPoll (p : PollInterval) : Type 0 where
  pub least : p.min_poll ≤ p.current
  pub most : p.current ≤ p.max_poll
  pub byte : p.max_poll < 255

-- Raising, lowering and resetting keep the interval between its bounds, and raising and lowering move
-- it by at most one step, up and down. The upper bound must be below 255, where the byte would wrap.
pub poll_interval-IsPoll :
    (p : PollInterval)
    → IsPoll p
    → IsPoll (increase p)
      × IsPoll (decrease p)
      × IsPoll (reset p)
      × (p.current ≤ (increase p).current)
      × ((increase p).current ≤ p.current + 1)
      × ((decrease p).current ≤ p.current)
      × (p.current ≤ (decrease p).current + 1)
unfolding increase decrease reset
poll_interval-IsPoll p h = (
  record { least = omega (arith, h.least, h.most, h.byte); most = omega arith; byte = h.byte },
  record { least = omega arith; most = omega (arith, h.least, h.most); byte = h.byte },
  record { least = omega arith; most = omega (arith, h.least, h.most); byte = h.byte },
  omega (arith, h.least, h.most, h.byte),
  omega (arith, h.most, h.byte),
  omega (arith, h.least),
  omega arith,
)

-- After a kiss-o'-death at one time the next is sent exactly from ten seconds later on.
pub should_send_kod-record_kod :
    (r : RateLimit) (sent now : NtpTs64)
    → IsSmall sent.seconds
    → IsSmall now.seconds
    → should_send_kod now (record_kod sent r) ≡ leb_ℤ (pos 10) (sub64 now.seconds sent.seconds)
unfolding should_send_kod record_kod
should_send_kod-record_kod r sent now hs hn = ground arith
