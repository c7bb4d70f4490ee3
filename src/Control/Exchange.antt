-- ===== src/Control/Exchange.antt =====
-- `ControlExchange` of ntp_control.rs: a request or response with its payload, padding and
-- authenticator, how it is built, parsed and checked.
pub mod Signed
use ntpsec_rs.Prelude.{
  ℕ, suc, ◌+◌, ◌-◌, ◌*◌, ◌/◌, ◌%◌, ◌^◌, Option, none, some, List, [], ◌∷◌, ◌++◌, length, drop, take,
  min, replicate, ltb, leb, ◌==◌, ◌||◌, not, if◌then◌else◌, Bool, true, false, Result, ok, err,
}
use ntpsec_rs.Prelude.Bytes.{be32, from_be32, byte_at, slice}
use ntpsec_rs.Auth.{Digests, NtpAuthKey, AuthKeyStore}
use ntpsec_rs.Auth as Auth
use ntpsec_rs.Control.{ControlMessage, ControlOpcode, new, from_u8, to_u8, encode, decode}

pub record ControlExchange : Type 0 where
  pub request : ControlMessage
  pub payload : List ℕ
  pub auth_keyid : Option ℕ
  pub auth_data : List ℕ

pub data ExchangeError : Type 0 where
  too_short payload_exceeds : ℕ → ExchangeError

-- `(payload_len + 3) & !3`
unfoldable pub align4 : ℕ → ℕ
align4 n = (n + 3) / 4 * 4

unfoldable pub keyid_of : List ℕ → Option ℕ
keyid_of remaining =
    if leb 4 (length remaining)
    then some (
        from_be32 (byte_at remaining 0) (byte_at remaining 1) (byte_at remaining 2)
          (byte_at remaining 3))
    else none

unfoldable pub auth_data_of : List ℕ → List ℕ
auth_data_of remaining = if ltb 4 (length remaining) then drop 4 remaining else []

unfoldable pub parse_body :
    List ℕ → Option (ControlMessage × List ℕ) → Result ExchangeError ControlExchange
unfolding align4 keyid_of auth_data_of
parse_body bytes none = err (too_short (length bytes))
parse_body bytes (some (msg, after_header)) =
    let payload_end = msg.offset + msg.count in
    let auth_offset = align4 msg.count in
    let remaining =
      if leb auth_offset (length after_header) then drop auth_offset after_header else [] in
    if ltb (length after_header) payload_end
    then err (payload_exceeds payload_end)
    else ok (record {
      request = msg;
      payload = slice after_header msg.offset payload_end;
      auth_keyid = keyid_of remaining;
      auth_data = auth_data_of remaining;
    })

unfoldable pub parse : List ℕ → Result ExchangeError ControlExchange
unfolding decode parse_body
parse bytes = parse_body bytes (decode bytes)

abbrev pub max_payload : ℕ
max_payload = 468

-- `(4 - (len & 3)) & 3` zeros.
unfoldable pub pad4 : List ℕ → List ℕ
pad4 bytes = bytes ++ replicate ((4 - length bytes % 4) % 4) 0

unfoldable pub response_header : ControlMessage → List ℕ → ℕ → ℕ → ControlMessage
unfolding new from_u8 to_u8
response_header req resp_data sequence status =
    let oc = from_u8 req.opcode in
    record {
      li_vn_mode = req.li_vn_mode;
      opcode = to_u8 (new true false (oc.more || ltb max_payload (length resp_data)) oc.op);
      sequence = sequence;
      status = status;
      associd = req.associd;
      offset = 0;
      count = min (length resp_data) max_payload;
    }

unfoldable pub sign_with : ℕ → List ℕ → Option (List ℕ) → List ℕ
sign_with id padded none = padded
sign_with id padded (some mac) = padded ++ (be32 id ++ mac)

module _ (digests : Digests) where
  unfoldable pub signed : Option NtpAuthKey → List ℕ → List ℕ
  unfolding pad4 sign_with
  signed none buf = buf
  signed (some key) buf = sign_with key.id (pad4 buf) (Auth.mac digests key (pad4 buf))

  unfoldable pub build_response : ControlMessage → List ℕ → ℕ → ℕ → Option NtpAuthKey → List ℕ
  unfolding encode signed response_header
  build_response req resp_data sequence status auth_key = signed auth_key (
      encode (response_header req resp_data sequence status)
      ++ take (min (length resp_data) max_payload) resp_data)

  unfoldable pub verify_by : ControlExchange → Option NtpAuthKey → Bool
  unfolding pad4
  verify_by x none = false
  verify_by x (some key) =
      Auth.verify_mac digests key (pad4 (encode x.request ++ x.payload)) x.auth_data

  unfoldable pub lookup : AuthKeyStore → Option ℕ → Option NtpAuthKey
  lookup store none = none
  lookup store (some keyid) = Auth.get_key keyid store

  unfoldable pub verify_mac : ControlExchange → AuthKeyStore → Bool
  unfolding verify_by lookup
  verify_mac x store = verify_by x (lookup store x.auth_keyid)
