-- ===== src/Nts/Handshake/Accept.antt =====
-- A response as a server builds it is accepted, with its cookies in order.
use ntpsec_rs.Prelude.{
  ℕ, suc, ◌+◌, ◌≡◌, refl, sym, ◌∙◌, ap, Option, none, some, List, [], ◌∷◌, ◌++◌, arith, length,
  take, drop, take-append, drop-append, ltb, is_empty, replicate, true, false, ok, map, All,
  append-nil, append_assoc, length-append, ◌^◌, ◌<◌,
}
use ntpsec_rs.Prelude.Bytes.{from_be16, be16, IsU32}
use ntpsec_rs.Nts.Siv.{Siv, IsSiv}
use ntpsec_rs.Nts.Cipher.{CookieCipher, CookieKey, last_key}
use ntpsec_rs.Nts.Cipher as Cipher
use ntpsec_rs.Nts.Cipher.RoundTrip.{decrypt-encrypt}
use ntpsec_rs.Nts.Record.{NtsKeRecord}
use ntpsec_rs.Nts.Record.RoundTrip.{IsRecord, encode_all, decode_all-encode_all}
use ntpsec_rs.Nts.Handshake.{
  aead_aes_siv_cmac256, NtsKeNegotiation, NtsKeProtocolClient, Progress, start, raw_type,
  is_critical, any_ntpv4, next_protocol_step, aead_step, eom_step, step, steps, aead_or_err, finish,
  decoded, agree, negotiate, establish, derive, handshake_with_data, from_u16, with_plaintext,
  with_keys, split_keys, established,
}

abbrev pub cookie_record : List ℕ → NtsKeRecord
cookie_record body = record { record_type = 5; body = body }

-- The records of `build_nts_ke_response`: Next Protocol with NTPv4, the algorithm 15, the cookies,
-- End of Message.
abbrev pub server_response : List (List ℕ) → List NtsKeRecord
server_response cookies =
    record { record_type = 0x8001; body = 0 ∷ 0 ∷ [] }
    ∷ record { record_type = 4; body = 0 ∷ 15 ∷ [] }
    ∷ (map cookie_record cookies ++ record { record_type = 0x8000; body = [] } ∷ [])

steps-cookies :
    (i : ℕ) (cookies : List (List ℕ)) (p : Progress)
    → p.has_eom ≡ false
    → steps i (map cookie_record cookies ++ record { record_type = 0x8000; body = [] } ∷ []) p
      ≡ ok (record p {
        cookies = p.cookies ++ cookies;
        has_eom = true;
        eom_position = i + length cookies;
      })
unfolding steps step raw_type is_critical eom_step
steps-cookies i [] p h = rw h (λ j. ok (record p {
  cookies = sym (append-nil p.cookies) j;
  has_eom = true;
  eom_position = (let same : i ≡ i + 0 = omega arith in same) j;
}))
steps-cookies i (c ∷ cs) p h =
    steps-cookies (i + 1) cs (record p { cookies = p.cookies ++ c ∷ [] }) h ∙ λ j. ok (record p {
      cookies = append_assoc p.cookies (c ∷ []) cs j;
      has_eom = true;
      eom_position = (let same : i + 1 + length cs ≡ i + suc (length cs) = omega arith in same) j;
    })

-- The progress after that response.
abbrev pub accepted : List (List ℕ) → Progress
accepted cookies = record {
  aead_algorithm = some aead_aes_siv_cmac256;
  aead_count = 1;
  cookies = cookies;
  server_offer = [];
  next_proto_count = 1;
  selected_ntpv4 = true;
  has_eom = true;
  eom_position = 2 + length cookies;
}

length-map : (cookies : List (List ℕ)) → length (map cookie_record cookies) ≡ length cookies
length-map [] = refl
length-map (c ∷ cs) = ap suc (length-map cs)

steps-server_response :
    (cookies : List (List ℕ)) → steps 0 (server_response cookies) start ≡ ok (accepted cookies)
unfolding steps step raw_type is_critical next_protocol_step aead_step any_ntpv4 from_u16 from_be16
steps-server_response cookies =
    steps-cookies 2 cookies
      (record start {
        aead_algorithm = some aead_aes_siv_cmac256;
        aead_count = 1;
        next_proto_count = 1;
        selected_ntpv4 = true;
      })
      refl

count-server_response :
    (cookies : List (List ℕ)) → length (server_response cookies) ≡ 3 + length cookies
count-server_response cookies = omega (
  arith,
  length-append (map cookie_record cookies) (record { record_type = 0x8000; body = [] } ∷ []),
  length-map cookies,
)

finish-accepted :
    (count : ℕ) (cookies : List (List ℕ))
    → count ≡ 3 + length cookies
    → is_empty cookies ≡ false
    → finish count (accepted cookies) ≡ ok aead_aes_siv_cmac256
unfolding finish aead_or_err
finish-accepted count cookies e h = ground arith

agree-server_response :
    (cookies : List (List ℕ))
    → is_empty cookies ≡ false
    → agree (server_response cookies) ≡ ok (accepted cookies, aead_aes_siv_cmac256)
unfolding agree
agree-server_response cookies h =
    rw
      (
        steps-server_response cookies,
        finish-accepted (length (server_response cookies)) cookies (count-server_response cookies)
            h,
      )
      refl

All-IsRecord :
    (cookies : List (List ℕ))
    → All (λ b. length b < 2 ^ 16) cookies
    → All IsRecord (map cookie_record cookies ++ record { record_type = 0x8000; body = [] } ∷ [])
All-IsRecord [] h = (record { record_type = omega arith; fits = omega arith }, h)
All-IsRecord (c ∷ cs) h = (record { record_type = omega arith; fits = h.0 }, All-IsRecord cs h.1)

decoded-encode_all : (rs : List NtsKeRecord) → All IsRecord rs → decoded (encode_all rs) ≡ (rs, [])
unfolding decoded
decoded-encode_all rs h = rw (decoded, decode_all-encode_all rs h) refl

negotiate-decoded :
    (bytes : List ℕ) (rs : List NtsKeRecord) → decoded bytes ≡ (rs, []) → negotiate bytes ≡ agree rs
unfolding negotiate
negotiate-decoded bytes rs e = rw e refl

pub decoded-server_response :
    (cookies : List (List ℕ))
    → All (λ b. length b < 2 ^ 16) cookies
    → decoded (encode_all (server_response cookies)) ≡ (server_response cookies, [])
decoded-server_response cookies fits =
    decoded-encode_all (server_response cookies) (first, (second, All-IsRecord cookies fits))
  where
    first : IsRecord (record { record_type = 0x8001; body = 0 ∷ 0 ∷ [] })
    first = record { record_type = omega arith; fits = omega arith }

    second : IsRecord (record { record_type = 4; body = 0 ∷ 15 ∷ [] })
    second = record { record_type = omega arith; fits = omega arith }

pub negotiate-server_response :
    (cookies : List (List ℕ))
    → is_empty cookies ≡ false
    → All (λ b. length b < 2 ^ 16) cookies
    → negotiate (encode_all (server_response cookies)) ≡ ok (accepted cookies, aead_aes_siv_cmac256)
negotiate-server_response cookies h fits =
    negotiate-decoded (encode_all (server_response cookies)) (server_response cookies)
      (decoded-server_response cookies fits)
    ∙ agree-server_response cookies h

take_32 : (x rest : List ℕ) → length x ≡ 32 → take 32 (x ++ rest) ≡ x
take_32 x rest h = ap (λ n. take n (x ++ rest)) (sym h) ∙ take-append x rest

drop_32 : (x rest : List ℕ) → length x ≡ 32 → drop 32 (x ++ rest) ≡ rest
drop_32 x rest h = ap (λ n. drop n (x ++ rest)) (sym h) ∙ drop-append x rest

split_keys_lem :
    (c2s s2c : List ℕ)
    → length c2s ≡ 32
    → length s2c ≡ 32
    → split_keys (be16 15 ++ (c2s ++ s2c)) ≡ ok (c2s, s2c)
unfolding split_keys
split_keys_lem c2s s2c hc hs = rw long (λ i. ok (take_32 c2s s2c hc i, second i))
  where
    long : ltb (length (be16 15 ++ (c2s ++ s2c))) 66 ≡ false
    long = ground (arith, length-append c2s s2c, hc, hs)

    second : take 32 (drop 32 (c2s ++ s2c)) ≡ s2c
    second = ap (take 32) (drop_32 c2s s2c hc ∙ sym (append-nil s2c)) ∙ take_32 s2c [] hs

-- The client after a handshake, and what it negotiated.
abbrev pub agreed : List (List ℕ) → List ℕ → List ℕ → NtsKeNegotiation
agreed cookies c2s s2c = record {
  aead_algorithm = aead_aes_siv_cmac256;
  cookies = cookies;
  c2s_key = c2s;
  s2c_key = s2c;
  server_offer = [];
}

abbrev pub client_with : List (List ℕ) → NtsKeProtocolClient → NtsKeProtocolClient
client_with cookies c = record c {
  aead = some aead_aes_siv_cmac256;
  cookies = cookies;
  state = established;
}

module _ (siv : Siv) where
  handshake_negotiated :
      (request response : List ℕ) (cipher : Option CookieCipher) (c : NtsKeProtocolClient)
      → is_empty (decoded request).0 ≡ false
      → handshake_with_data siv request response cipher c ≡ derive siv cipher c (negotiate response)
  unfolding handshake_with_data
  handshake_negotiated request response cipher c h = rw h refl

  -- The response of a server to a request that holds a record, with at least one cookie that fits a
  -- record, is accepted; without a cookie cipher the keys are zero.
  pub handshake_accepts :
      (request : List ℕ) (cookies : List (List ℕ)) (c : NtsKeProtocolClient)
      → is_empty (decoded request).0 ≡ false
      → is_empty cookies ≡ false
      → All (λ b. length b < 2 ^ 16) cookies
      → handshake_with_data siv request (encode_all (server_response cookies)) none c
        ≡ (ok (agreed cookies (replicate 32 0) (replicate 32 0)), client_with cookies c)
  unfolding derive establish
  handshake_accepts request cookies c asked some_cookie fits =
      handshake_negotiated request (encode_all (server_response cookies)) none c asked
      ∙ ap (derive siv none c) (negotiate-server_response cookies some_cookie fits)
      ∙ last
    where
      last :
          derive siv none c (ok (accepted cookies, aead_aes_siv_cmac256))
          ≡ (ok (agreed cookies (replicate 32 0) (replicate 32 0)), client_with cookies c)
      last = refl

  -- With the server's cookie cipher, the client finds in the first cookie the two keys that the
  -- server sealed there, under the laws of AES-SIV and with a 16-byte nonce.
  pub handshake_derives_keys :
      (request nonce c2s s2c envelope : List ℕ) (others : List (List ℕ)) (cipher : CookieCipher)
      (k : CookieKey) (c : NtsKeProtocolClient)
      → IsSiv siv
      → is_empty (decoded request).0 ≡ false
      → All (λ b. length b < 2 ^ 16) (envelope ∷ others)
      → last_key cipher.keys ≡ some k
      → IsU32 k.key_id
      → length nonce ≡ 16
      → length c2s ≡ 32
      → length s2c ≡ 32
      → Cipher.encrypt siv cipher (some nonce) (be16 15 ++ (c2s ++ s2c)) ≡ ok envelope
      → handshake_with_data siv request
          (encode_all (server_response (envelope ∷ others)))
          (some cipher)
          c
        ≡ (ok (agreed (envelope ∷ others) c2s s2c), client_with (envelope ∷ others) c)
  unfolding derive with_plaintext with_keys establish
  handshake_derives_keys request nonce c2s s2c envelope others cipher k c laws asked fits newest
        id_fits nonce_fits hc hs sealed =
      handshake_negotiated request (encode_all (server_response (envelope ∷ others))) (some cipher)
        c asked
      ∙ ap (derive siv (some cipher) c) (negotiate-server_response (envelope ∷ others) refl fits)
      ∙ ap (with_plaintext aead_aes_siv_cmac256 (accepted (envelope ∷ others)) c) opened
      ∙ ap (with_keys aead_aes_siv_cmac256 (accepted (envelope ∷ others)) c)
          (split_keys_lem c2s s2c hc hs)
    where
      opened : Cipher.decrypt siv cipher envelope ≡ ok (be16 15 ++ (c2s ++ s2c))
      opened =
          decrypt-encrypt siv laws cipher nonce (be16 15 ++ (c2s ++ s2c)) envelope k newest id_fits
            nonce_fits sealed
