-- ===== src/Nts/Padding.antt =====
-- Padding to a multiple of four bytes, as a loop and as a count.
use ntpsec_rs.Prelude.{
  ℕ, zero, suc, ◌+◌, ◌-◌, ◌*◌, ◌/◌, ◌%◌, ◌≤◌, ◌≡◌, sym, ◌∙◌, List, [], ◌∷◌, ◌++◌, arith, length,
  replicate, append-nil, append_assoc, length-append, ◌==◌, if◌then◌else◌, Bool-cases, inl, inr,
}

-- `(n + 3) & !3`
abbrev pub round_up4 : ℕ → ℕ
round_up4 n = (n + 3) / 4 * 4

-- `(4 - n % 4) % 4`
abbrev pub pad_len : ℕ → ℕ
pad_len n = (4 - n % 4) % 4

-- `while buf.len() % 4 != 0 { buf.push(0) }`; three rounds are enough.
unfoldable pub pad_loop : ℕ → List ℕ → List ℕ
pad_loop zero buf = buf
pad_loop (suc fuel) buf =
    let longer = pad_loop fuel (buf ++ 0 ∷ []) in if length buf % 4 == 0 then buf else longer

pad_loop-replicate :
    (fuel : ℕ) (buf : List ℕ)
    → pad_len (length buf) ≤ fuel
    → pad_loop fuel buf ≡ buf ++ replicate (pad_len (length buf)) 0
unfolding pad_loop
pad_loop-replicate zero buf h =
    let none_left : pad_len (length buf) ≡ 0 = omega arith in rw none_left (sym (append-nil buf))
pad_loop-replicate (suc fuel) buf h = elim (Bool-cases (length buf % 4 == 0)) [
  | inl done ↦
      let none_left : pad_len (length buf) ≡ 0 = ground arith in
      rw (done, none_left) (sym (append-nil buf))
  | inr more ↦
      let longer : length (buf ++ 0 ∷ []) ≡ suc (length buf) =
        omega (arith, length-append buf (0 ∷ [])) in
      let one_less : pad_len (length buf) ≡ suc (pad_len (length (buf ++ 0 ∷ []))) =
        ground (arith, longer) in
      rw (more, one_less)
        (pad_loop-replicate fuel (buf ++ 0 ∷ []) (omega (arith, one_less))
          ∙ append_assoc buf (0 ∷ []) (replicate (pad_len (length (buf ++ 0 ∷ []))) 0))
]

-- The loop ends by its test within three rounds, and adds the fewest zeros that reach a multiple of
-- four.
pub pad_loop_lem : (buf : List ℕ) → pad_loop 3 buf ≡ buf ++ replicate (pad_len (length buf)) 0
pad_loop_lem buf = pad_loop-replicate 3 buf (omega arith)
