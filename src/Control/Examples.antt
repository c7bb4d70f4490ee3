-- ===== src/Control/Examples.antt =====
-- The theorems on mode 6 messages at concrete inputs, with a toy digest.
use ntpsec_rs.Prelude.{
  ℕ, ◌≡◌, refl, List, [], ◌∷◌, ◌++◌, some, none, true, false, ok, arith, replicate, take,
}
use ntpsec_rs.Auth.{Digests, NtpAuthKey, AuthKeyStore, md5}
use ntpsec_rs.Auth as Auth
use ntpsec_rs.Control.{ControlOpcode, ControlMessage, encode}
use ntpsec_rs.Control.Codec.{IsMessage}
use ntpsec_rs.Control.Exchange.{parse, pad4, response_header, build_response, verify_mac}
use ntpsec_rs.Control.Exchange.Signed.{exchange_of, parse-build_response}

abbrev readvar : ControlOpcode
readvar = record { response = true; error = false; more = true; op = 2 }

abbrev a_request : ControlMessage
a_request = record {
  li_vn_mode = 0x16;
  opcode = 2;
  sequence = 7;
  status = 0;
  associd = 1;
  offset = 0;
  count = 0;
}

a_request-IsMessage : IsMessage a_request
a_request-IsMessage = record {
  sequence = omega arith;
  status = omega arith;
  associd = omega arith;
  offset = omega arith;
  count = omega arith;
}

abbrev toy_digests : Digests
toy_digests = record {
  md5_of = λ bytes. bytes ++ replicate 20 0;
  sha1_of = λ bytes. bytes ++ replicate 20 0;
  cmac_of = λ key bytes. some (key ++ bytes);
}

abbrev a_key : NtpAuthKey
a_key = record { id = 10; digest = md5; key_data = 1 ∷ 2 ∷ [] }

abbrev a_store : AuthKeyStore
a_store = record { keys = a_key ∷ []; trusted_keys = []; control_key = none }

abbrev text : List ℕ
text = 65 ∷ 66 ∷ 67 ∷ 68 ∷ 69 ∷ []

abbrev a_header : ControlMessage
a_header = response_header a_request text 7 9

abbrev a_mac : List ℕ
a_mac = take 16 (1 ∷ 2 ∷ (pad4 (encode a_header ++ text) ++ replicate 20 0))

mac_of_text : Auth.mac toy_digests a_key (pad4 (encode a_header ++ text)) ≡ some a_mac
unfolding Auth.mac
mac_of_text = refl

a_key_known : Auth.get_key 10 a_store ≡ some a_key
unfolding Auth.get_key
a_key_known = refl

parse-build_response_example :
    (parse (build_response toy_digests a_request text 7 9 (some a_key))
      ≡ ok (exchange_of a_header text 10 a_mac))
    × (verify_mac toy_digests (exchange_of a_header text 10 a_mac) a_store ≡ true)
parse-build_response_example =
    parse-build_response toy_digests a_request text a_mac 7 9 a_key a_store (omega arith)
      (omega arith) (omega arith) (omega arith) (omega arith) mac_of_text a_key_known
