-- ===== src/Nts/Record.antt =====
-- `NtsKeRecord` of nts.rs: the records of the key-establishment protocol.
pub mod RoundTrip
use ntpsec_rs.Prelude.{
  ℕ, zero, suc, ◌+◌, ◌%◌, ◌^◌, bit_or, Option, none, some, List, [], ◌∷◌, ◌++◌, length, is_empty,
  drop, ltb, if◌then◌else◌,
}
use ntpsec_rs.Prelude.Bytes.{be16, from_be16, byte_at, slice}

pub record NtsKeRecord : Type 0 where
  pub record_type : ℕ
  pub body : List ℕ

abbrev pub critical_bit : ℕ
critical_bit = 0x8000

unfoldable pub new_critical : ℕ → List ℕ → NtsKeRecord
new_critical record_type body = record {
  record_type = bit_or record_type critical_bit;
  body = body;
}

unfoldable pub encode : NtsKeRecord → List ℕ
encode r = be16 r.record_type ++ (be16 (length r.body % 2 ^ 16) ++ r.body)

unfoldable pub decode : List ℕ → Option (NtsKeRecord × List ℕ)
decode bytes =
    let body_len = from_be16 (byte_at bytes 2) (byte_at bytes 3) in
    if ltb (length bytes) 4
    then none
    else if ltb (length bytes) (4 + body_len)
    then none
    else some (
      record {
        record_type = from_be16 (byte_at bytes 0) (byte_at bytes 1);
        body = slice bytes 4 (4 + body_len);
      },
      drop (4 + body_len) bytes,
    )

unfoldable pub after_record {ℓ} :
    {B : Type ℓ} → Option (NtsKeRecord × List ℕ) → B → (NtsKeRecord → List ℕ → B) → B
after_record none stop go_on = stop
after_record (some (rec, rest)) stop go_on = go_on rec rest

-- The loop of `decode_all`; `none` is no Rust value, the fuel has run out.
unfoldable pub decode_loop : ℕ → List ℕ → List NtsKeRecord → Option (List NtsKeRecord × List ℕ)
unfolding after_record
decode_loop zero remain records = none
decode_loop (suc fuel) remain records =
    let stop = some (records, remain) in
    let go_on =
      λ (rec : NtsKeRecord) (rest : List ℕ). decode_loop fuel rest (records ++ rec ∷ []) in
    if is_empty remain then stop else after_record (decode remain) stop go_on

-- A record takes at least four bytes, so one round more than there are bytes is enough.
unfoldable pub decode_all : List ℕ → Option (List NtsKeRecord × List ℕ)
unfolding decode_loop decode
decode_all bytes = decode_loop (suc (length bytes)) bytes []
