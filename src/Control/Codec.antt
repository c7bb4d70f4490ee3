-- ===== src/Control/Codec.antt =====
-- Opcodes and message headers are read back.
use ntpsec_rs.Prelude.{
  ℕ, ◌+◌, ◌*◌, ◌/◌, ◌%◌, ◌^◌, ◌<◌, ◌≡◌, ◌∙◌, arith, some, List, [], ◌++◌, bit_or, Bool, true, false,
  not, ◌==◌, if◌then◌else◌, length, ltb,
}
use ntpsec_rs.Prelude.Bits.{low, bit, or_fields}
use ntpsec_rs.Prelude.Bytes.{IsU16, from_be16-be16}
use ntpsec_rs.Control.{
  ControlOpcode, ControlMessage, new, from_u8, to_u8, encode, decode, build_error_response,
}

-- The flags as a number.
flags_of : ControlOpcode → ℕ
flags_of oc =
    (if oc.response then 4 else 0) + (if oc.error then 2 else 0) + (if oc.more then 1 else 0)

flags-or :
    (response error more : Bool) (op : ℕ)
    → op < 32
    → bit_or
        (bit_or
          (bit_or (if response then 0x80 else 0) (if error then 0x40 else 0))
          (if more then 0x20 else 0))
        op
      ≡ ((if response then 4 else 0) + (if error then 2 else 0) + (if more then 1 else 0)) * 2 ^ 5
        + op
flags-or true true true op h = or_fields 5 7 op h
flags-or true true false op h = or_fields 5 6 op h
flags-or true false true op h = or_fields 5 5 op h
flags-or true false false op h = or_fields 5 4 op h
flags-or false true true op h = or_fields 5 3 op h
flags-or false true false op h = or_fields 5 2 op h
flags-or false false true op h = or_fields 5 1 op h
flags-or false false false op h = or_fields 5 0 op h

to_u8-sum : (oc : ControlOpcode) → oc.op < 32 → to_u8 oc ≡ flags_of oc * 2 ^ 5 + oc.op
unfolding to_u8 flags_of
to_u8-sum oc h = flags-or oc.response oc.error oc.more oc.op h

-- An opcode whose operation fits five bits is read back with its three flags.
pub opcode_from_u8-to_u8 : (oc : ControlOpcode) → oc.op < 32 → from_u8 (to_u8 oc) ≡ oc
unfolding from_u8 bit flags_of
opcode_from_u8-to_u8 oc h =
    rw (to_u8-sum oc h)
      (λ i. record { response = response i; error = error i; more = more i; op = op i })
  where
    v : ℕ
    v = flags_of oc * 2 ^ 5 + oc.op

    response : not (v / 2 ^ 7 % 2 == 0) ≡ oc.response
    response = ground arith

    error : not (v / 2 ^ 6 % 2 == 0) ≡ oc.error
    error = ground arith

    more : not (v / 2 ^ 5 % 2 == 0) ≡ oc.more
    more = ground arith

    op : low v 5 ≡ oc.op
    op = ground arith

-- The ranges of the Rust field types that the codec cuts to.
pub record IsMessage (m : ControlMessage) : Type 0 where
  pub sequence : IsU16 m.sequence
  pub status : IsU16 m.status
  pub associd : IsU16 m.associd
  pub offset : IsU16 m.offset
  pub count : IsU16 m.count

-- A message header is read back, and what follows it is left.
pub message_decode-encode :
    (m : ControlMessage) (rest : List ℕ) → IsMessage m → decode (encode m ++ rest) ≡ some (m, rest)
unfolding decode encode
message_decode-encode m rest h =
    let long : ltb (length (encode m ++ rest)) 12 ≡ false = ground arith in
    rw long (λ i. some (
      record {
        li_vn_mode = m.li_vn_mode;
        opcode = m.opcode;
        sequence = from_be16-be16 m.sequence h.sequence i;
        status = from_be16-be16 m.status h.status i;
        associd = from_be16-be16 m.associd h.associd i;
        offset = from_be16-be16 m.offset h.offset i;
        count = from_be16-be16 m.count h.count i;
      },
      rest,
    ))

-- The response to a bad request: it echoes the sequence and association, and its opcode is the
-- request's operation, marked as a response and an error; the code is the high byte of the status.
pub decode-build_error_response :
    (req : ControlMessage) (err_code : ℕ)
    → IsMessage req
    → err_code < 256
    → decode (build_error_response req err_code)
      ≡ some (
        record {
          li_vn_mode = req.li_vn_mode;
          opcode =
              to_u8 (record { response = true; error = true; more = false; op = req.opcode % 32 });
          sequence = req.sequence;
          status = err_code * 256;
          associd = req.associd;
          offset = 0;
          count = 0;
        },
        [],
      )
unfolding build_error_response new from_u8 encode
decode-build_error_response req err_code h k =
    message_decode-encode (response (req.opcode % 2 ^ 5 % 2 ^ 5) (err_code * 2 ^ 8 % 2 ^ 16)) []
      fits
    ∙ λ i. some (
      response ((let op : req.opcode % 2 ^ 5 % 2 ^ 5 ≡ req.opcode % 32 = omega arith in op) i)
          ((let code : err_code * 2 ^ 8 % 2 ^ 16 ≡ err_code * 256 = omega arith in code) i),
      [],
    )
  where
    response : ℕ → ℕ → ControlMessage
    response op status = record {
      li_vn_mode = req.li_vn_mode;
      opcode = to_u8 (record { response = true; error = true; more = false; op = op });
      sequence = req.sequence;
      status = status;
      associd = req.associd;
      offset = 0;
      count = 0;
    }

    fits : IsMessage (response (req.opcode % 2 ^ 5 % 2 ^ 5) (err_code * 2 ^ 8 % 2 ^ 16))
    fits = record {
      sequence = h.sequence;
      status = omega arith;
      associd = h.associd;
      offset = omega arith;
      count = omega arith;
    }
