-- ===== src/Control.antt =====
-- The mode 6 protocol of crates/ntpsec-rs-core/src/ntp_control.rs: opcode, status words, message
-- header, and the exchange with its authenticator.
pub mod Status
pub mod Codec
pub mod Exchange
mod Examples
use ntpsec_rs.Prelude.{
  ℕ, ◌+◌, ◌-◌, ◌*◌, ◌^◌, ◌%◌, Option, none, some, List, [], ◌∷◌, ◌++◌, length, drop, bit_or, ltb,
  ◌==◌, not, if◌then◌else◌, Bool, true, false,
}
use ntpsec_rs.Prelude.Bits.{low, bit}
use ntpsec_rs.Prelude.Bytes.{be16, from_be16, byte_at}

pub record ControlOpcode : Type 0 where
  pub response : Bool
  pub error : Bool
  pub more : Bool
  pub op : ℕ

unfoldable pub new : Bool → Bool → Bool → ℕ → ControlOpcode
new response error more op = record {
  response = response;
  error = error;
  more = more;
  op = low op 5;
}

-- The masks 0x80, 0x40, 0x20 and 0x1F.
unfoldable pub from_u8 : ℕ → ControlOpcode
unfolding bit
from_u8 v = record {
  response = not (bit 7 v == 0);
  error = not (bit 6 v == 0);
  more = not (bit 5 v == 0);
  op = low v 5;
}

unfoldable pub to_u8 : ControlOpcode → ℕ
to_u8 oc =
    bit_or
      (bit_or (bit_or (if oc.response then 0x80 else 0) (if oc.error then 0x40 else 0))
        (if oc.more then 0x20 else 0))
      oc.op

pub record ControlMessage : Type 0 where
  pub li_vn_mode : ℕ
  pub opcode : ℕ
  pub sequence : ℕ
  pub status : ℕ
  pub associd : ℕ
  pub offset : ℕ
  pub count : ℕ

unfoldable pub encode : ControlMessage → List ℕ
encode m =
    m.li_vn_mode
    ∷ m.opcode
    ∷ (be16 m.sequence ++ (be16 m.status ++ (be16 m.associd ++ (be16 m.offset ++ be16 m.count))))

unfoldable pub decode : List ℕ → Option (ControlMessage × List ℕ)
decode data_bytes =
    if ltb (length data_bytes) 12
    then none
    else some (
      record {
        li_vn_mode = byte_at data_bytes 0;
        opcode = byte_at data_bytes 1;
        sequence = from_be16 (byte_at data_bytes 2) (byte_at data_bytes 3);
        status = from_be16 (byte_at data_bytes 4) (byte_at data_bytes 5);
        associd = from_be16 (byte_at data_bytes 6) (byte_at data_bytes 7);
        offset = from_be16 (byte_at data_bytes 8) (byte_at data_bytes 9);
        count = from_be16 (byte_at data_bytes 10) (byte_at data_bytes 11);
      },
      drop 12 data_bytes,
    )

-- `(err_code as u16) << 8`
unfoldable pub build_error_response : ControlMessage → ℕ → List ℕ
unfolding encode new from_u8 to_u8
build_error_response req err_code = encode (record {
  li_vn_mode = req.li_vn_mode;
  opcode = to_u8 (new true true false (from_u8 req.opcode).op);
  sequence = req.sequence;
  status = err_code * 2 ^ 8 % 2 ^ 16;
  associd = req.associd;
  offset = 0;
  count = 0;
})
