-- ===== src/Ke/Examples.antt =====
-- The theorems on key establishment at concrete inputs, with a toy cipher that puts sixteen zeros in
-- front and an exporter that fills a key with the direction.
use ntpsec_rs.Prelude.{
  ℕ, ◌≡◌, refl, sym, ◌∙◌, ap, Option, none, some, List, [], ◌∷◌, ◌++◌, arith, length,
  length-replicate, drop, replicate, All, some_eq, ok, false, true, is_empty,
}
use ntpsec_rs.Prelude.Bytes.{be16, from_be16, byte_at, same_bytes}
use ntpsec_rs.Auth.{contains}
use ntpsec_rs.Nts.Siv.{Siv, IsSiv}
use ntpsec_rs.Nts.Record.{decode_all, decode_loop, decode, after_record}
use ntpsec_rs.Nts.Cipher.{CookieCipher, CookieKey, last_key, headers_of}
use ntpsec_rs.Nts.Cipher as Cipher
use ntpsec_rs.Nts.Handshake.{decoded, raw_type, is_critical, any_ntpv4}
use ntpsec_rs.Nts.Handshake.Accept.{agreed}
use ntpsec_rs.Ke.{IsExporter, exporter_context, ntske}
use ntpsec_rs.Ke.Server.{
  NtsServerConfig, process_nts_ke_request, build_nts_ke_response, handle_nts_ke_connection, select,
}
use ntpsec_rs.Ke.Server as Server
use ntpsec_rs.Ke.Client.{request_wire, handshake}
use ntpsec_rs.Ke.Request.{first_supported, offers_in, process_nts_ke_request-first_supported}
use ntpsec_rs.Ke.Sealing.{IsSealing, IsRandom, IsCookieOf}
use ntpsec_rs.Ke.Agreement.{handshake-handle_nts_ke_connection}
use ntpsec_rs.Ke.Session.{NtsServerSession, protect_response, append_cookie, append_authenticator}
use ntpsec_rs.Ke.Protect.{IsAuthentic, protect_response-IsAuthentic}

abbrev toy_siv : Siv
toy_siv = record {
  encrypt = λ key headers plaintext. some (replicate 16 0 ++ plaintext);
  decrypt = λ key headers sealed. some (drop 16 sealed);
}

toy_siv-IsSiv : IsSiv toy_siv
toy_siv-IsSiv = record {
  opens = λ key headers plaintext sealed e. ap (λ t. some (drop 16 t)) (sym (some_eq e));
  tagged = λ key headers plaintext sealed e. ap length (sym (some_eq e)) ∙ omega arith;
}

toy_siv-IsSealing : IsSealing toy_siv
toy_siv-IsSealing = record {
  seals = λ key headers plaintext h. (replicate 16 0 ++ plaintext, refl);
}

abbrev export : ℕ → List ℕ → Option (List ℕ)
export n context = some (replicate n (byte_at context 4))

export-IsExporter : IsExporter export
export-IsExporter = record {
  fills = λ n context key e. ap length (sym (some_eq e)) ∙ length-replicate n (byte_at context 4);
}

abbrev random : ℕ → Option (List ℕ)
random i = some (replicate 16 i)

random-IsRandom : IsRandom random
random-IsRandom = record { draws = λ i. (replicate 16 i, refl, refl) }

abbrev newest : CookieKey
newest = record { key_id = 7; key = replicate 32 1 }

abbrev cipher : CookieCipher
cipher = record { keys = newest ∷ []; server_identity = none }

newest_last : last_key cipher.keys ≡ some newest
unfolding last_key
newest_last = refl

abbrev config : NtsServerConfig
config = record {
  key_file = "key.pem";
  cert_file = "cert.pem";
  aead_algorithms = 16 ∷ 15 ∷ [];
  cookie_cipher = cipher;
}

supports_15 : contains 15 config.aead_algorithms ≡ true
unfolding contains
supports_15 = refl

abbrev c2s : List ℕ
c2s = replicate 32 0

abbrev s2c : List ℕ
s2c = replicate 32 1

exported_c2s : export 32 (exporter_context 15 0) ≡ some c2s
unfolding exporter_context
exported_c2s = refl

exported_s2c : export 32 (exporter_context 15 1) ≡ some s2c
unfolding exporter_context
exported_s2c = refl

keys_differ : same_bytes c2s s2c ≡ false
unfolding same_bytes
keys_differ = refl

handshake-handle_nts_ke_connection_example :
    (cookies : List (List ℕ)) × (handle_nts_ke_connection toy_siv config
        (record { alpn_protocol = some ntske; received = request_wire; export = export })
        random
      ≡ ok (cookies, build_nts_ke_response 15 cookies))
    × (handshake (record {
      alpn_protocol = some ntske;
      received = build_nts_ke_response 15 cookies;
      export = export;
    })
        ≡ ok (agreed cookies c2s s2c))
    × (length cookies ≡ 8)
    × All (IsCookieOf toy_siv cipher (be16 15 ++ (c2s ++ s2c))) cookies
handshake-handle_nts_ke_connection_example =
    handshake-handle_nts_ke_connection toy_siv config newest export random c2s s2c toy_siv-IsSiv
      toy_siv-IsSealing export-IsExporter random-IsRandom supports_15 newest_last (omega arith)
      exported_c2s exported_s2c keys_differ

-- A request that offers 18, 15 and 16, and the same to a server that supports 16 and 15.
abbrev offers : List ℕ
offers = 128 ∷ 1 ∷ 0 ∷ 2 ∷ 0 ∷ 0 ∷ 128 ∷ 4 ∷ 0 ∷ 6 ∷ 0 ∷ 18 ∷ 0 ∷ 15 ∷ 0 ∷ 16 ∷ 128 ∷ 0 ∷ 0 ∷ 0 ∷ []

picks_15 : process_nts_ke_request offers config ≡ ok 15
unfolding process_nts_ke_request decoded decode_all decode_loop decode after_record from_be16
    Server.steps Server.step Server.next_protocol_step Server.aead_step Server.eom_step
    Server.finish select contains raw_type is_critical any_ntpv4
picks_15 = refl

process_nts_ke_request-first_supported_example :
    (first_supported config.aead_algorithms (offers_in (decoded offers).0) ≡ some 15)
    × (contains 15 config.aead_algorithms ≡ true)
    × (is_empty (decoded offers).1 ≡ true)
process_nts_ke_request-first_supported_example =
    process_nts_ke_request-first_supported offers config 15 picks_15

abbrev session : NtsServerSession
session = record { c2s_key = c2s; s2c_key = s2c; cookies = []; sequence = 5 }

abbrev header : List ℕ
header = replicate 48 9

protects : (protect_response toy_siv cipher (some (replicate 16 5)) 15 header session).0 ≡ ok tt
unfolding protect_response append_cookie append_authenticator Cipher.encrypt last_key headers_of
protects = refl

protect_response-IsAuthentic_example :
    IsAuthentic toy_siv cipher 15 session
      (protect_response toy_siv cipher (some (replicate 16 5)) 15 header session).1
protect_response-IsAuthentic_example =
    protect_response-IsAuthentic toy_siv cipher newest (replicate 16 5) 15 header session
      toy_siv-IsSiv newest_last (omega arith) refl refl refl refl protects
