-- ===== src/Ke/Agreement.antt =====
-- The client of nts_client.rs and the server of nts_server.rs over one TLS session.
use ntpsec_rs.Prelude.{
  ℕ, ◌+◌, ◌^◌, ◌<◌, ◌≡◌, refl, sym, ◌∙◌, ap, Option, some, List, [], ◌∷◌, ◌++◌, arith, length, take,
  take_length, ltb, is_empty, true, false, All, ok, length-append,
}
use ntpsec_rs.Prelude.Bytes.{be16, IsU32, same_bytes}
use ntpsec_rs.Auth.{contains}
use ntpsec_rs.Nts.Siv.{Siv, IsSiv}
use ntpsec_rs.Nts.Handshake.{from_u16}
use ntpsec_rs.Nts.Handshake.Accept.{agreed}
use ntpsec_rs.Nts.Cipher.{CookieCipher, CookieKey, last_key}
use ntpsec_rs.Ke.{IsExporter, ntske, exporter_context, to_u16, key_length}
use ntpsec_rs.Ke.Client.{step, steps, agree, negotiate, request_wire, handshake, lift}
use ntpsec_rs.Ke.Server.{
  NtsServerConfig, build_nts_ke_response, generate_nts_ke_cookies, keylen, first_32, exported,
  check_alpn, check_request, handle_nts_ke_connection, nts_max_cookies,
}
use ntpsec_rs.Ke.Client as Client
use ntpsec_rs.Ke.Response.{negotiate-response}
use ntpsec_rs.Ke.Accepted.{process_nts_ke_request-request_wire}
use ntpsec_rs.Ke.Sealing.{IsSealing, IsRandom, IsCookieOf, seal_cookies_total}

first_32_lem : (key : List ℕ) → length key ≡ 32 → first_32 key ≡ ok key
unfolding first_32
first_32_lem key h =
    let long : ltb (length key) 32 ≡ false = ground (arith, h) in
    rw long (ap ok (ap (λ n. take n key) (sym h) ∙ take_length key))

is_empty-length : (xs : List (List ℕ)) → length xs ≡ 8 → is_empty xs ≡ false
is_empty-length [] h = absurd (omega arith)
is_empty-length (x ∷ xs) h = refl

-- The client's part.
handshake-response :
    (export : ℕ → List ℕ → Option (List ℕ)) (c2s s2c : List ℕ) (cookies : List (List ℕ))
    → export 32 (exporter_context 15 0) ≡ some c2s
    → export 32 (exporter_context 15 1) ≡ some s2c
    → same_bytes c2s s2c ≡ false
    → is_empty cookies ≡ false
    → All (λ b. length b < 2 ^ 16) cookies
    → handshake (record {
      alpn_protocol = some ntske;
      received = build_nts_ke_response 15 cookies;
      export = export;
    })
      ≡ ok (agreed cookies c2s s2c)
unfolding handshake Client.check_alpn lift Client.exported to_u16 same_bytes
handshake-response export c2s s2c cookies e0 e1 different some_cookie fits =
    rw (negotiate-response cookies some_cookie fits, e0, e1, different) refl

module _ (siv : Siv) where
  All-fits :
      (cipher : CookieCipher) (plaintext : List ℕ) (cookies : List (List ℕ))
      → length plaintext ≡ 66
      → All (IsCookieOf siv cipher plaintext) cookies
      → All (λ b. length b < 2 ^ 16) cookies
  All-fits cipher plaintext [] h all = _
  All-fits cipher plaintext (c ∷ cs) h all = (
    omega (arith, let size : length c ≡ 36 + length plaintext = all.0.size in size, h),
    All-fits cipher plaintext cs h all.1,
  )

  -- The server's part, up to the cookies.
  handle-request :
      (config : NtsServerConfig) (export : ℕ → List ℕ → Option (List ℕ))
      (random : ℕ → Option (List ℕ)) (c2s s2c : List ℕ) (cookies : List (List ℕ))
      → contains 15 config.aead_algorithms ≡ true
      → export 32 (exporter_context 15 0) ≡ some c2s
      → export 32 (exporter_context 15 1) ≡ some s2c
      → length c2s ≡ 32
      → length s2c ≡ 32
      → generate_nts_ke_cookies siv 15 c2s s2c config.cookie_cipher random ≡ ok cookies
      → handle_nts_ke_connection siv config
          (record { alpn_protocol = some ntske; received = request_wire; export = export })
          random
        ≡ ok (cookies, build_nts_ke_response 15 cookies)
  unfolding handle_nts_ke_connection check_request keylen from_u16 key_length exported request_wire
      check_alpn same_bytes
  handle-request config export random c2s s2c cookies supported e0 e1 h0 h1 made =
      rw
        (
          process_nts_ke_request-request_wire config supported,
          e0,
          e1,
          first_32_lem c2s h0,
          first_32_lem s2c h1,
          made,
        )
        refl

  -- A client and a server over one TLS session, which both ends export the same two different keys
  -- from, agree: the server accepts the client's request if it supports its algorithm, the client
  -- accepts the server's response and ends with the exported keys and the server's eight cookies,
  -- each of which the server opens again to the algorithm and the two keys. AES-SIV, the exporter
  -- and the random source do what they document, and the cipher has a key.
  pub handshake-handle_nts_ke_connection :
      (config : NtsServerConfig) (k : CookieKey) (export : ℕ → List ℕ → Option (List ℕ))
      (random : ℕ → Option (List ℕ)) (c2s s2c : List ℕ)
      → IsSiv siv
      → IsSealing siv
      → IsExporter export
      → IsRandom random
      → contains 15 config.aead_algorithms ≡ true
      → last_key config.cookie_cipher.keys ≡ some k
      → IsU32 k.key_id
      → export 32 (exporter_context 15 0) ≡ some c2s
      → export 32 (exporter_context 15 1) ≡ some s2c
      → same_bytes c2s s2c ≡ false
      → (cookies : List (List ℕ)) × (handle_nts_ke_connection siv config
            (record { alpn_protocol = some ntske; received = request_wire; export = export })
            random
          ≡ ok (cookies, build_nts_ke_response 15 cookies))
        × (handshake (record {
          alpn_protocol = some ntske;
          received = build_nts_ke_response 15 cookies;
          export = export;
        })
            ≡ ok (agreed cookies c2s s2c))
        × (length cookies ≡ 8)
        × All (IsCookieOf siv config.cookie_cipher (be16 15 ++ (c2s ++ s2c))) cookies
  unfolding generate_nts_ke_cookies
  handshake-handle_nts_ke_connection config k export random c2s s2c laws total filled draws
        supported newest id_fits e0 e1 different =
      let (cookies, made, count, all) =
        seal_cookies_total siv config.cookie_cipher k random (be16 15 ++ (c2s ++ s2c)) 0
          nts_max_cookies [] laws total draws newest id_fits (omega (arith, size)) _ in
      (
        cookies,
        handle-request config export random c2s s2c cookies supported e0 e1 h0 h1 made,
        handshake-response export c2s s2c cookies e0 e1 different (is_empty-length cookies count)
            (All-fits config.cookie_cipher (be16 15 ++ (c2s ++ s2c)) cookies size all),
        count,
        all,
      )
    where
      h0 : length c2s ≡ 32
      h0 = filled.fills 32 (exporter_context 15 0) c2s e0

      h1 : length s2c ≡ 32
      h1 = filled.fills 32 (exporter_context 15 1) s2c e1

      size : length (be16 15 ++ (c2s ++ s2c)) ≡ 66
      size = omega (arith, length-append c2s s2c, h0, h1)
