-- ===== src/Ke/Accepted.antt =====
-- The request of nts_client.rs as nts_server.rs reads it.
use ntpsec_rs.Prelude.{
  ℕ, ◌≡◌, refl, ◌∙◌, ap, Option, none, some, List, [], ◌∷◌, length, true, ok, ◌>>=◌,
}
use ntpsec_rs.Prelude.Bytes.{from_be16}
use ntpsec_rs.Auth.{contains}
use ntpsec_rs.Nts.Record.{NtsKeRecord, decode_all, decode_loop, decode, after_record}
use ntpsec_rs.Nts.Handshake.{raw_type, is_critical, decoded, any_ntpv4}
use ntpsec_rs.Ke.Client.{request_wire}
use ntpsec_rs.Ke.Server.{
  NtsServerConfig, ServerError, process_nts_ke_request, build_nts_ke_response, cookie_record,
  seal_cookies, generate_nts_ke_cookies, keylen, first_32, exported, check_alpn, check_request,
  handle_nts_ke_connection, nts_max_cookies, keep_first, select,
}
use ntpsec_rs.Ke.Server as Server

selects_15 :
    (supported : List ℕ)
    → contains 15 supported ≡ true
    → select supported (0 ∷ 15 ∷ []) none ≡ some 15
unfolding select from_be16
selects_15 supported h = rw h refl

abbrev request_records : List NtsKeRecord
request_records =
    record { record_type = 0x8001; body = 0 ∷ 0 ∷ [] }
    ∷ record { record_type = 0x8004; body = 0 ∷ 15 ∷ [] }
    ∷ record { record_type = 0x8000; body = [] }
    ∷ []

decoded_request : decoded request_wire ≡ (request_records, [])
unfolding decoded decode_all decode_loop decode after_record from_be16 request_wire
decoded_request = refl

steps-request :
    (supported : List ℕ)
    → Server.steps supported 0 request_records Server.start
      ≡ ok (record {
        next_proto_count = 1;
        selected_aead = select supported (0 ∷ 15 ∷ []) none;
        has_eom = true;
        eom_position = 2;
      })
unfolding Server.steps Server.step Server.next_protocol_step Server.aead_step Server.eom_step
    raw_type is_critical any_ntpv4 from_be16
steps-request supported = refl

process_nts_ke_request-decoded :
    (bytes : List ℕ) (config : NtsServerConfig) (rs : List NtsKeRecord) (q : Server.Scan)
    → decoded bytes ≡ (rs, [])
    → Server.steps config.aead_algorithms 0 rs Server.start ≡ ok q
    → process_nts_ke_request bytes config ≡ Server.finish (length rs) [] q
unfolding process_nts_ke_request
process_nts_ke_request-decoded bytes config rs q e loop =
    ap
      (λ d. Server.steps config.aead_algorithms 0 d.0 Server.start >>= λ s.
        Server.finish (length d.0) d.1 s)
      e
    ∙ ap (λ r. r >>= λ s. Server.finish (length rs) [] s) loop

finish-request :
    (selected : Option ℕ)
    → selected ≡ some 15
    → Server.finish 3 [] (record {
      next_proto_count = 1;
      selected_aead = selected;
      has_eom = true;
      eom_position = 2;
    })
      ≡ ok 15
unfolding Server.finish
finish-request selected h = rw h refl

-- The request of the client is accepted by a server that supports its algorithm.
pub process_nts_ke_request-request_wire :
    (config : NtsServerConfig)
    → contains 15 config.aead_algorithms ≡ true
    → process_nts_ke_request request_wire config ≡ ok 15
process_nts_ke_request-request_wire config h =
    process_nts_ke_request-decoded request_wire config request_records _ decoded_request
      (steps-request config.aead_algorithms)
    ∙ finish-request (select config.aead_algorithms (0 ∷ 15 ∷ []) none)
        (selects_15 config.aead_algorithms h)
