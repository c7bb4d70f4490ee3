-- ===== src/Daemon/Associd.antt =====
-- The allocation of association identifiers.
use ntpsec_rs.Prelude.{
  ℕ, zero, suc, ◌+◌, ◌-◌, ◌%◌, ◌≤◌, ◌<◌, ◌≡◌, ◌≢◌, refl, ◌⊎◌, inl, inr, arith, Option, none, some,
  List, [], ◌∷◌, ◌==◌, ◌||◌, if◌then◌else◌, Bool, true, false, Bool-cases,
}
use native.Mathlib.Decide.{ℕ_discrete}
use ntpsec_rs.Float.{Float}
use ntpsec_rs.Peer.{Peer, PeerTable}

abbrev pub u16_max : ℕ
u16_max = 65535

-- `0` is no identifier.
abbrev pub candidate : ℕ → ℕ
candidate next = if next == 0 then 1 else next

abbrev pub after : ℕ → ℕ
after c = if c == u16_max then 1 else c + 1

-- The loop, with its rounds left: the identifier and the new `next`.
unfoldable pub allocate_loop : ℕ → ℕ → (ℕ → Bool) → Option ℕ × ℕ
allocate_loop zero next is_used = (none, next)
allocate_loop (suc rounds) next is_used =
    let rest = allocate_loop rounds (after (candidate next)) is_used in
    if is_used (candidate next) then rest else (some (candidate next), after (candidate next))

unfoldable pub allocate_associd_with : ℕ → (ℕ → Bool) → Option ℕ × ℕ
unfolding allocate_loop
allocate_associd_with next is_used = allocate_loop u16_max next is_used

module _ (f : Float) where
  unfoldable pub any_associd : ℕ → List (Peer f) → Bool
  any_associd c [] = false
  any_associd c (p ∷ ps) = (p.associd == c) || any_associd c ps

  unfoldable pub allocate_associd : ℕ → PeerTable f → Option ℕ × ℕ
  unfolding any_associd allocate_associd_with
  allocate_associd next t = allocate_associd_with next (λ c. any_associd c t.peers)

-- An identifier in its range.
abbrev pub IsAssocid : ℕ → Type 0
IsAssocid c = (1 ≤ c) × (c ≤ u16_max)

-- The distance from `a` up to `b` in the circle of the identifiers.
abbrev ahead : ℕ → ℕ → ℕ
ahead a b = (b + u16_max - a) % u16_max

-- What the outcome of a number of rounds says of the identifiers.
abbrev IsAllocated : ℕ → ℕ → (ℕ → Bool) → Option ℕ × ℕ → Type 0
IsAllocated rounds next is_used (some c, n) = IsAssocid c × (is_used c ≡ false) × (n ≡ after c)
IsAllocated rounds next is_used (none, n) =
    (c : ℕ) → IsAssocid c → ahead (candidate next) c < rounds → is_used c ≡ true

ahead-after : (a c : ℕ) → IsAssocid a → IsAssocid c → c ≢ a → ahead (after a) c + 1 ≡ ahead a c
ahead-after a c p r ne = ground arith

candidate-IsAssocid : (next : ℕ) → next ≤ u16_max → IsAssocid (candidate next)
candidate-IsAssocid next h = ground arith

candidate-after : (a : ℕ) → candidate (after a) ≡ after a
candidate-after a = ground arith

ahead_next :
    (next c : ℕ)
    → next ≤ u16_max
    → IsAssocid c
    → (c ≡ candidate next)
      ⊎ (ahead (candidate (after (candidate next))) c + 1 ≡ ahead (candidate next) c)
ahead_next next c h r = elim (ℕ_discrete c (candidate next)) [
  | yes e ↦ inl e
  | no ne ↦ inr (
      rw (candidate-after (candidate next))
        (ahead-after (candidate next) c (candidate-IsAssocid next h) r ne))
]

-- One more round in front, whose candidate is in use.
IsAllocated-suc :
    (rounds next : ℕ) (is_used : ℕ → Bool) (r : Option ℕ × ℕ)
    → next ≤ u16_max
    → is_used (candidate next) ≡ true
    → IsAllocated rounds (after (candidate next)) is_used r
    → IsAllocated (suc rounds) next is_used r
IsAllocated-suc rounds next is_used (some c, n) h used k = k
IsAllocated-suc rounds next is_used (none, n) h used k = λ c r lt. elim (ahead_next next c h r) [
  | inl e ↦ rw e used
  | inr e ↦ k c r (omega (arith, e, lt))
]

allocate_loop_lem :
    (rounds next : ℕ) (is_used : ℕ → Bool)
    → next ≤ u16_max
    → IsAllocated rounds next is_used (allocate_loop rounds next is_used)
unfolding allocate_loop
allocate_loop_lem zero next is_used h = λ c r lt. absurd (omega arith)
allocate_loop_lem (suc rounds) next is_used h = elim (Bool-cases (is_used (candidate next))) [
  | inl used ↦ rw used (
      IsAllocated-suc rounds next is_used (allocate_loop rounds (after (candidate next)) is_used) h
        used (allocate_loop_lem rounds (after (candidate next)) is_used (ground (arith, h))))
  | inr free ↦ rw free (ground (arith, h), free, refl)
]

-- The meaning of a result: an identifier between 1 and 65535 that is not in use, and where the search
-- goes on; or the proof that there is none.
abbrev pub IsFree : (ℕ → Bool) → Option ℕ × ℕ → Type 0
IsFree is_used (some c, n) = IsAssocid c × (is_used c ≡ false) × (n ≡ after c)
IsFree is_used (none, n) = (c : ℕ) → IsAssocid c → is_used c ≡ true

IsFree-IsAllocated :
    (next : ℕ) (is_used : ℕ → Bool) (r : Option ℕ × ℕ)
    → IsAllocated u16_max next is_used r
    → IsFree is_used r
IsFree-IsAllocated next is_used (some c, n) h = h
IsFree-IsAllocated next is_used (none, n) h = λ c r. h c r (omega arith)

-- The allocation of an identifier gives one between 1 and 65535 that is not in use, from which the
-- next search goes on, and it gives none only if all of them are in use.
pub allocate_associd_with-IsFree :
    (next : ℕ) (is_used : ℕ → Bool)
    → next ≤ u16_max
    → IsFree is_used (allocate_associd_with next is_used)
unfolding allocate_associd_with
allocate_associd_with-IsFree next is_used h =
    IsFree-IsAllocated next is_used (allocate_loop u16_max next is_used)
      (allocate_loop_lem u16_max next is_used h)
