-- ===== src/Nts/Examples.antt =====
-- The theorems on NTS at concrete inputs, with a toy cipher that puts sixteen zeros in front.
use ntpsec_rs.Prelude.{
  ℕ, ◌≡◌, refl, sym, ◌∙◌, ap, none, some, List, [], ◌∷◌, ◌++◌, arith, length, drop, replicate, All,
  some_eq, ok, is_empty, false,
}
use ntpsec_rs.Prelude.Int.{pos}
use ntpsec_rs.Prelude.Bytes.{IsByte, be16, be32, from_be16}
use ntpsec_rs.Nts.Siv.{Siv, IsSiv}
use ntpsec_rs.Nts.Record.{NtsKeRecord, decode_all, decode_loop, decode, after_record}
use ntpsec_rs.Nts.Record.RoundTrip.{IsSequence, encode_all, decode_all-IsSequence}
use ntpsec_rs.Nts.Extension.{ExtensionField, max_total_size}
use ntpsec_rs.Nts.Extension as Extension
use ntpsec_rs.Nts.Extension.RoundTrip.{IsField, fields_decode_all-encode_all}
use ntpsec_rs.Nts.Extension.RoundTrip as Fields
use ntpsec_rs.Nts.Cipher.{CookieCipher, CookieKey, last_key, headers_of}
use ntpsec_rs.Nts.Cipher as Cipher
use ntpsec_rs.Nts.Cookie.{NtsCookie, SystemTime, encode_plaintext, stamped}
use ntpsec_rs.Nts.Cookie as Cookie
use ntpsec_rs.Nts.Cookie.RoundTrip.{IsCookie}
use ntpsec_rs.Nts.Cookie.Expiry.{check_at, cookie_decrypt-encrypt}
use ntpsec_rs.Nts.Handshake.{new, decoded, handshake_with_data}
use ntpsec_rs.Nts.Handshake.Outcome.{IsOutcome, handshake_with_data-IsOutcome}
use ntpsec_rs.Nts.Handshake.Accept.{server_response, agreed, client_with, handshake_derives_keys}

abbrev toy_siv : Siv
toy_siv = record {
  encrypt = λ key headers plaintext. some (replicate 16 0 ++ plaintext);
  decrypt = λ key headers sealed. some (drop 16 sealed);
}

toy_siv-IsSiv : IsSiv toy_siv
toy_siv-IsSiv = record {
  opens = λ key headers plaintext sealed e. ap (λ t. some (drop 16 t)) (sym (some_eq e));
  tagged = λ key headers plaintext sealed e. ap length (sym (some_eq e)) ∙ omega arith;
}

abbrev two_records : List NtsKeRecord
two_records =
    record { record_type = 0x8001; body = 0 ∷ 0 ∷ [] }
    ∷ record { record_type = 0x8000; body = [] }
    ∷ []

-- The two records, and three bytes in which no record can be read.
abbrev two_records_bytes : List ℕ
two_records_bytes = 128 ∷ 1 ∷ 0 ∷ 2 ∷ 0 ∷ 0 ∷ 128 ∷ 0 ∷ 0 ∷ 0 ∷ 9 ∷ 9 ∷ 9 ∷ []

decode_all-IsSequence_example : IsSequence two_records_bytes (decode_all two_records_bytes)
decode_all-IsSequence_example = decode_all-IsSequence two_records_bytes two_records_bytes-IsByte
  where
    two_records_bytes-IsByte : All IsByte two_records_bytes
    two_records_bytes-IsByte = omega arith

abbrev request : List ℕ
request = 128 ∷ 1 ∷ 0 ∷ 2 ∷ 0 ∷ 0 ∷ []

asked : is_empty (decoded request).0 ≡ false
unfolding decoded decode_all decode_loop decode after_record from_be16
asked = refl

abbrev cookies : List (List ℕ)
cookies = (1 ∷ 2 ∷ 3 ∷ []) ∷ (4 ∷ []) ∷ []

handshake_with_data-IsOutcome_example :
    IsOutcome two_records_bytes
      (new "ntp.example" 4460)
      (handshake_with_data toy_siv request two_records_bytes none (new "ntp.example" 4460))
handshake_with_data-IsOutcome_example =
    handshake_with_data-IsOutcome toy_siv request two_records_bytes none (new "ntp.example" 4460)

abbrev cipher : CookieCipher
cipher = record { keys = record { key_id = 7; key = replicate 32 1 } ∷ []; server_identity = none }

abbrev newest : CookieKey
newest = record { key_id = 7; key = replicate 32 1 }

newest_last : last_key cipher.keys ≡ some newest
unfolding last_key
newest_last = refl

abbrev nonce : List ℕ
nonce = replicate 16 5

abbrev envelope_of : List ℕ → List ℕ
envelope_of plaintext = be32 7 ++ (nonce ++ (replicate 16 0 ++ plaintext))

sealed_envelope :
    (plaintext : List ℕ)
    → Cipher.encrypt toy_siv cipher (some nonce) plaintext ≡ ok (envelope_of plaintext)
unfolding Cipher.encrypt last_key headers_of
sealed_envelope plaintext = refl

abbrev c2s : List ℕ
c2s = replicate 32 3

abbrev s2c : List ℕ
s2c = replicate 32 4

abbrev envelope : List ℕ
envelope = envelope_of (be16 15 ++ (c2s ++ s2c))

handshake_derives_keys_example :
    handshake_with_data toy_siv request
      (encode_all (server_response (envelope ∷ cookies)))
      (some cipher)
      (new "ntp.example" 4460)
    ≡ (
      ok (agreed (envelope ∷ cookies) c2s s2c),
      client_with (envelope ∷ cookies) (new "ntp.example" 4460),
    )
handshake_derives_keys_example =
    handshake_derives_keys toy_siv request nonce c2s s2c envelope cookies cipher newest
      (new "ntp.example" 4460) toy_siv-IsSiv asked (omega arith, (omega arith, (omega arith, _)))
      newest_last (omega arith) refl refl refl (sealed_envelope (be16 15 ++ (c2s ++ s2c)))

abbrev cookie : NtsCookie
cookie = record {
  server_id = replicate 32 1;
  c2s_key = replicate 32 2;
  s2c_key = replicate 32 3;
  timestamp = record { seconds = pos 0; fraction = 0 };
  aead = 15;
}

abbrev at_noon : SystemTime
at_noon = record { secs = 1700000000; nanos = 5 }

abbrev an_hour_later : SystemTime
an_hour_later = record { secs = 1700003600; nanos = 0 }

abbrev sealed_cookie : List ℕ
sealed_cookie = replicate 16 0 ++ encode_plaintext (stamped at_noon cookie)

cookie_sealed : Cookie.encrypt toy_siv at_noon cookie (replicate 32 8) ≡ ok sealed_cookie
unfolding Cookie.encrypt
cookie_sealed = refl

cookie-IsCookie : IsCookie cookie
cookie-IsCookie = record {
  server_id = refl;
  c2s_key = refl;
  s2c_key = refl;
  seconds = (omega arith, omega arith);
  fraction = omega arith;
  aead = omega arith;
}

cookie_decrypt-encrypt_example :
    Cookie.decrypt toy_siv an_hour_later sealed_cookie (replicate 32 8)
    ≡ check_at at_noon an_hour_later cookie
cookie_decrypt-encrypt_example =
    cookie_decrypt-encrypt toy_siv toy_siv-IsSiv at_noon an_hour_later cookie (replicate 32 8)
      sealed_cookie (record { secs = omega arith; nanos = omega arith })
      (record { secs = omega arith; nanos = omega arith }) cookie-IsCookie cookie_sealed

abbrev fields : List ExtensionField
fields =
    record { field_type = 0x104; payload = 1 ∷ 2 ∷ 3 ∷ [] }
    ∷ record { field_type = 0x204; payload = [] }
    ∷ []

fields_decode_all-encode_all_example : Extension.decode_all (Fields.encode_all fields) ≡ some fields
fields_decode_all-encode_all_example =
    fields_decode_all-encode_all fields
      (
        record { field_type = omega arith; fits = omega arith },
        (record { field_type = omega arith; fits = omega arith }, _),
      )
      (omega arith)
