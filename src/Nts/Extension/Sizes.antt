-- ===== src/Nts/Extension/Sizes.antt =====
-- The sizes that nts_extens.rs reports, and the fields that do not survive the wire.
use ntpsec_rs.Prelude.{
  ℕ, ◌+◌, ◌≤◌, ◌<◌, ◌≡◌, refl, ◌∙◌, ap, List, [], ◌∷◌, ◌++◌, arith, none, length, replicate,
  length-append, length-replicate, ok, ltb, ◌↔◌, Bool-cases, inl, inr,
}
use ntpsec_rs.Prelude.Bytes.{from_be16-be16}
use ntpsec_rs.Nts.Padding.{round_up4, pad_len}
use ntpsec_rs.Nts.Extension.{
  ExtensionField, encode, decode, wire_size, validate_total, validate_extension_fields_total_size,
  max_total_size,
}
use ntpsec_rs.Nts.Extension.RoundTrip.{encode-wire}

length-encode :
    (f : ExtensionField)
    → length f.payload < 65532
    → length (encode f) ≡ round_up4 (length f.payload + 4)
length-encode f h = omega (
  arith,
  ap length (encode-wire f [] h),
  length-append (encode f) [],
  length-append {A = ℕ} f.payload (replicate (pad_len (length f.payload)) 0 ++ []),
  length-append {A = ℕ} (replicate (pad_len (length f.payload)) 0) [],
  length-replicate {A = ℕ} (pad_len (length f.payload)) 0,
)

-- `wire_size` is the size of the encoding, up to 65528 payload bytes.
pub wire_size-eq-length-encode :
    (f : ExtensionField) → length f.payload ≤ 65528 → wire_size f ≡ length (encode f)
unfolding wire_size
wire_size-eq-length-encode f h = omega (arith, length-encode f (omega arith))

-- With 65529 to 65531 payload bytes the padded length wraps to 0, though the encoding has 65536 bytes.
pub wire_size_wraps :
    (f : ExtensionField)
    → 65528 < length f.payload
    → length f.payload < 65532
    → (wire_size f ≡ 0) × (length (encode f) ≡ 65536)
unfolding wire_size
wire_size_wraps f lo hi = (omega arith, omega (arith, length-encode f hi))

-- A field of 4093 to 65531 payload bytes is encoded, and the encoding is refused by `decode`.
pub decode_refuses_long :
    (f : ExtensionField) (rest : List ℕ)
    → 4092 < length f.payload
    → length f.payload < 65532
    → decode (encode f ++ rest) ≡ none
unfolding decode
decode_refuses_long f rest lo hi =
    ap decode (encode-wire f rest hi)
    ∙ rw (from_be16-be16 (length f.payload + 4) (omega arith)) (ground arith)

-- The validation accepts a list exactly when the sum of the reported sizes is at most 65535; it is
-- the sizes after wrapping that it adds up.
abbrev pub total_wire_size : List ExtensionField → ℕ
total_wire_size [] = 0
total_wire_size (f ∷ fs) = wire_size f + total_wire_size fs

validate_total-ok_iff :
    (fs : List ExtensionField) (total : ℕ)
    → total ≤ max_total_size
    → (validate_total total fs ≡ ok tt) ↔ (total + total_wire_size fs ≤ max_total_size)
unfolding validate_total
validate_total-ok_iff [] total h = (λ e. omega arith, λ k. refl)
validate_total-ok_iff (f ∷ fs) total h =
    elim (Bool-cases (ltb max_total_size (total + wire_size f))) [
      | inl over ↦ rw over (λ e. cc, λ k. absurd (ground arith))
      | inr fits ↦
          let (to, from) = validate_total-ok_iff fs (total + wire_size f) (ground arith) in
          rw fits (λ e. omega (arith, to e), λ k. from (omega arith))
    ]

pub validate_iff :
    (fs : List ExtensionField)
    → (validate_extension_fields_total_size fs ≡ ok tt) ↔ (total_wire_size fs ≤ max_total_size)
unfolding validate_extension_fields_total_size
validate_iff fs =
    let (to, from) = validate_total-ok_iff fs 0 (omega arith) in
    (λ e. omega (arith, to e), λ k. from (omega arith))
