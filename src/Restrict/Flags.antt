-- ===== src/Restrict/Flags.antt =====
-- Which flags an address gets.
use ntpsec_rs.Prelude.{
  ℕ, ◌≤◌, ◌≡◌, refl, ◌∙◌, ap, arith, ◌||◌, max, bit_or, List, [], ◌∷◌, ◌++◌, ◌==◌, if◌then◌else◌,
  Bool, true, false, Bool-cases, inl, inr,
}
use ntpsec_rs.Prelude.Bits.{bit, bit-or, bit-le-one, bit_of_zero}
use ntpsec_rs.Types.Mode.{NtpMode}
use ntpsec_rs.Restrict.{
  NetAddr, SockAddr, RestrictEntry, RestrictList, add_entry, addr_matches, evaluate_loop, evaluate,
  default_flags, check, action_for, has_flag, ignore, netaddr_to_sockaddr,
}

-- Whether an entry matches, and the largest value of one flag bit among those that do.
abbrev pub any_match : SockAddr → List RestrictEntry → Bool
any_match addr [] = false
any_match addr (e ∷ es) = addr_matches addr e.addr e.mask || any_match addr es

abbrev pub bit_of_matches : ℕ → SockAddr → List RestrictEntry → ℕ
bit_of_matches i addr [] = 0
bit_of_matches i addr (e ∷ es) =
    let rest = bit_of_matches i addr es in
    if addr_matches addr e.addr e.mask then max (bit i e.flags) rest else rest

evaluate_loop-matched :
    (addr : SockAddr) (es : List RestrictEntry) (flags : ℕ) (matched : Bool)
    → (evaluate_loop addr es flags matched).1 ≡ (matched || any_match addr es)
unfolding evaluate_loop
evaluate_loop-matched addr [] flags matched = ground arith
evaluate_loop-matched addr (e ∷ es) flags matched = ground (
  arith,
  evaluate_loop-matched addr es (bit_or flags e.flags) true,
  evaluate_loop-matched addr es flags matched,
)

evaluate_loop-bit :
    (i : ℕ) (addr : SockAddr) (es : List RestrictEntry) (flags : ℕ) (matched : Bool)
    → bit i (evaluate_loop addr es flags matched).0 ≡ max (bit i flags) (bit_of_matches i addr es)
unfolding evaluate_loop
evaluate_loop-bit i addr [] flags matched = omega arith
evaluate_loop-bit i addr (e ∷ es) flags matched =
    elim (Bool-cases (addr_matches addr e.addr e.mask)) [
      | inl hit ↦ rw hit (
          omega (
            arith,
            evaluate_loop-bit i addr es (bit_or flags e.flags) true,
            bit-or i flags e.flags,
          ))
      | inr miss ↦ rw miss (evaluate_loop-bit i addr es flags matched)
    ]

-- An address has a flag exactly if some matching entry has it; the default of its family counts only
-- when no entry matches, so that a matching entry without flags lifts the default.
pub evaluate-bit :
    (l : RestrictList) (addr : SockAddr) (i : ℕ)
    → bit i (evaluate l addr) ≡ (
        if any_match addr l.entries
        then bit_of_matches i addr l.entries
        else bit i (default_flags l addr.family))
unfolding evaluate
evaluate-bit l addr i = elim (Bool-cases (any_match addr l.entries)) [
  | inl hit ↦
      let seen : (evaluate_loop addr l.entries 0 false).1 ≡ true =
        evaluate_loop-matched addr l.entries 0 false ∙ hit in
      rw (hit, seen) (evaluate_loop-bit i addr l.entries 0 false ∙ omega (arith, bit_of_zero i))
  | inr miss ↦
      let unseen : (evaluate_loop addr l.entries 0 false).1 ≡ false =
        evaluate_loop-matched addr l.entries 0 false ∙ miss in
      rw (miss, unseen) refl
]

any_match-append :
    (addr : SockAddr) (es : List RestrictEntry) (e : RestrictEntry)
    → addr_matches addr e.addr e.mask ≡ true
    → any_match addr (es ++ e ∷ []) ≡ true
any_match-append addr [] e h = ground arith
any_match-append addr (x ∷ es) e h = ground (arith, any_match-append addr es e)

bit_of_matches-append :
    (i : ℕ) (addr : SockAddr) (es : List RestrictEntry) (e : RestrictEntry)
    → addr_matches addr e.addr e.mask ≡ true
    → bit_of_matches i addr (es ++ e ∷ []) ≡ max (bit_of_matches i addr es) (bit i e.flags)
bit_of_matches-append i addr [] e h = rw h (omega arith)
bit_of_matches-append i addr (x ∷ es) e h = elim (Bool-cases (addr_matches addr x.addr x.mask)) [
  | inl hit ↦ rw hit (omega (arith, bit_of_matches-append i addr es e h))
  | inr miss ↦ rw miss (bit_of_matches-append i addr es e h)
]

bit_of_matches-le-one :
    (i : ℕ) (addr : SockAddr) (es : List RestrictEntry) → bit_of_matches i addr es ≤ 1
bit_of_matches-le-one i addr [] = omega arith
bit_of_matches-le-one i addr (x ∷ es) = elim (Bool-cases (addr_matches addr x.addr x.mask)) [
  | inl hit ↦ rw hit (omega (arith, bit_of_matches-le-one i addr es, bit-le-one i x.flags))
  | inr miss ↦ rw miss (bit_of_matches-le-one i addr es)
]

-- Once an entry with IGNORE that matches an address is added, every packet from it is ignored, in
-- every mode and whatever the other entries and the defaults say.
pub check-add_entry_ignore :
    (l : RestrictList) (e : RestrictEntry) (addr : NetAddr) (mode : NtpMode)
    → addr_matches (netaddr_to_sockaddr addr) e.addr e.mask ≡ true
    → bit 0 e.flags ≡ 1
    → (check (add_entry e l) addr mode).0 ≡ ignore
unfolding check add_entry action_for has_flag
check-add_entry_ignore l e addr mode h ignores = rw wins refl
  where
    found : SockAddr
    found = netaddr_to_sockaddr addr

    one : bit 0 (evaluate (add_entry e l) found) ≡ 1
    one =
        evaluate-bit (add_entry e l) found 0
        ∙ rw (any_match-append found l.entries e h) (
            bit_of_matches-append 0 found l.entries e h
            ∙ omega (arith, bit_of_matches-le-one 0 found l.entries))

    wins : (bit 0 (evaluate (add_entry e l) found) == 1) ≡ true
    wins = ap (λ t. t == 1) one
