-- ===== src/Nts/Extension.antt =====
-- `ExtensionFieldHeader` and `ExtensionField` of nts_extens.rs. `u16` sums wrap.
pub mod RoundTrip
pub mod Sizes
use ntpsec_rs.Prelude.{
  ℕ, zero, suc, ◌+◌, ◌-◌, ◌%◌, ◌^◌, ◌*◌, Option, none, some, List, [], ◌∷◌, ◌++◌, length, is_empty,
  drop, ltb, if◌then◌else◌, true, false, Result, ok, err,
}
use ntpsec_rs.Prelude.Bytes.{be16, from_be16, byte_at, slice}
use ntpsec_rs.Nts.Padding.{round_up4, pad_loop}

pub record ExtensionFieldHeader : Type 0 where
  pub field_type : ℕ
  pub length : ℕ

pub record ExtensionField : Type 0 where
  pub field_type : ℕ
  pub payload : List ℕ

abbrev pub max_total_size : ℕ
max_total_size = 65535

unfoldable pub new_header : ℕ → ℕ → ExtensionFieldHeader
new_header field_type payload_len = record {
  field_type = field_type;
  length = (payload_len + 4) % 2 ^ 16;
}

-- `saturating_sub`
unfoldable pub payload_length : ExtensionFieldHeader → ℕ
payload_length h = h.length - 4

unfoldable pub padded_length : ExtensionFieldHeader → ℕ
padded_length h = round_up4 h.length % 2 ^ 16

unfoldable pub encode : ExtensionField → List ℕ
unfolding new_header
encode f =
    let header = new_header f.field_type (length f.payload % 2 ^ 16) in
    pad_loop 3 (be16 header.field_type ++ (be16 header.length ++ f.payload))

abbrev pub max_ext_len : ℕ
max_ext_len = 4096

unfoldable pub decode : List ℕ → Option (ExtensionField × List ℕ)
decode bytes =
    let field_len = from_be16 (byte_at bytes 2) (byte_at bytes 3) in
    let padded_len = round_up4 field_len in
    if ltb (length bytes) 4
    then none
    else if ltb field_len 4
    then none
    else if ltb max_ext_len field_len
    then none
    else if ltb (length bytes) padded_len
    then none
    else some (
      record {
        field_type = from_be16 (byte_at bytes 0) (byte_at bytes 1);
        payload = slice bytes 4 field_len;
      },
      drop padded_len bytes,
    )

unfoldable pub after_field :
    Option (ExtensionField × List ℕ)
    → Option (List ExtensionField)
    → (ExtensionField → List ℕ → Option (List ExtensionField))
    → Option (List ExtensionField)
after_field none stop go_on = stop
after_field (some (field, rest)) stop go_on = go_on field rest

-- The loop of `decode_all`; `none` is no Rust value, the fuel has run out.
unfoldable pub decode_loop : ℕ → List ℕ → ℕ → List ExtensionField → Option (List ExtensionField)
unfolding after_field
decode_loop zero remain total_payload fields = none
decode_loop (suc fuel) remain total_payload fields =
    let stop = some fields in
    let go_on = λ (field : ExtensionField) (rest : List ℕ).
      let total = total_payload + length field.payload in
      let next = decode_loop fuel rest total (fields ++ field ∷ []) in
      if ltb max_total_size total then stop else next in
    if is_empty remain then stop else after_field (decode remain) stop go_on

-- A field takes at least four bytes, so one round more than there are bytes is enough.
unfoldable pub decode_all : List ℕ → Option (List ExtensionField)
unfolding decode_loop decode
decode_all bytes = decode_loop (suc (length bytes)) bytes 0 []

unfoldable pub wire_size : ExtensionField → ℕ
unfolding new_header padded_length
wire_size f = padded_length (new_header f.field_type (length f.payload % 2 ^ 16))

-- `usize` sums do not wrap: the loop returns before the total passes 2 * 65535.
unfoldable pub validate_total : ℕ → List ExtensionField → Result ℕ (Unit {0})
unfolding wire_size
validate_total total [] = ok tt
validate_total total (f ∷ fs) =
    let rest = validate_total (total + wire_size f) fs in
    if ltb max_total_size (total + wire_size f) then err (total + wire_size f) else rest

unfoldable pub validate_extension_fields_total_size : List ExtensionField → Result ℕ (Unit {0})
unfolding validate_total
validate_extension_fields_total_size fields = validate_total 0 fields
