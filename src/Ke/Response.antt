-- ===== src/Ke/Response.antt =====
-- The two loops over a server's response, in nts_client.rs and in nts.rs, and what they make of the
-- response of nts_server.rs.
use ntpsec_rs.Prelude.{
  ℕ, ◌+◌, ◌^◌, ◌<◌, ◌≡◌, refl, sym, ◌∙◌, ap, subst, List, [], ◌∷◌, ◌++◌, length, is_empty, ◌==◌,
  false, All, map, ok, ◌>>=◌,
}
use ntpsec_rs.Nts.Record.{NtsKeRecord, new_critical, encode}
use ntpsec_rs.Nts.Record.RoundTrip.{encode_all}
use ntpsec_rs.Nts.Handshake.{
  HandshakeError, Progress, start, raw_type, is_critical, decoded, any_ntpv4, from_u16,
  aead_aes_siv_cmac256,
}
use ntpsec_rs.Nts.Handshake as Offline
use ntpsec_rs.Nts.Handshake.Accept.{
  server_response, accepted, decoded-server_response, negotiate-server_response,
}
use ntpsec_rs.Ke.{flat_map_encode}
use ntpsec_rs.Ke.Client.{step, steps, agree, negotiate}
use ntpsec_rs.Ke.Server.{build_nts_ke_response, cookie_record}

-- The record is no Warning.
abbrev pub IsPlain : NtsKeRecord → Type 0
IsPlain r = (raw_type r == 3) ≡ false

step-plain :
    (i : ℕ) (rec : NtsKeRecord) (p : Progress) → IsPlain rec → step i rec p ≡ Offline.step i rec p
unfolding step Offline.step
step-plain i rec p h = rw h refl

steps-plain :
    (i : ℕ) (recs : List NtsKeRecord) (p : Progress)
    → All IsPlain recs
    → steps i recs p ≡ Offline.steps i recs p
unfolding steps Offline.steps
steps-plain i [] p h = refl
steps-plain i (rec ∷ recs) p h =
    rw (step-plain i rec p h.0)
      (λ j. Offline.step i rec p >>= λ q. steps-plain (i + 1) recs q h.1 j)

-- The client over TLS and the offline client agree on every response without a Warning record.
pub negotiate-plain :
    (response : List ℕ)
    → All IsPlain (decoded response).0
    → negotiate response ≡ Offline.negotiate response
unfolding negotiate Offline.negotiate agree Offline.agree
negotiate-plain response h = rw (steps-plain 0 (decoded response).0 start h) refl

flat_map_encode-encode_all : (rs : List NtsKeRecord) → flat_map_encode rs ≡ encode_all rs
unfolding flat_map_encode
flat_map_encode-encode_all [] = refl
flat_map_encode-encode_all (r ∷ rs) = ap (λ t. encode r ++ t) (flat_map_encode-encode_all rs)

build_nts_ke_response-encode_all :
    (cookies : List (List ℕ))
    → build_nts_ke_response 15 cookies ≡ encode_all (server_response cookies)
unfolding build_nts_ke_response new_critical
build_nts_ke_response-encode_all cookies = flat_map_encode-encode_all (server_response cookies)

All-IsPlain :
    (cookies : List (List ℕ))
    → All IsPlain (map cookie_record cookies ++ record { record_type = 0x8000; body = [] } ∷ [])
unfolding raw_type
All-IsPlain [] = (refl, _)
All-IsPlain (c ∷ cs) = (refl, All-IsPlain cs)

pub negotiate-response :
    (cookies : List (List ℕ))
    → is_empty cookies ≡ false
    → All (λ b. length b < 2 ^ 16) cookies
    → negotiate (build_nts_ke_response 15 cookies) ≡ ok (accepted cookies, aead_aes_siv_cmac256)
unfolding raw_type
negotiate-response cookies some_cookie fits =
    ap negotiate (build_nts_ke_response-encode_all cookies)
    ∙ negotiate-plain (encode_all (server_response cookies)) (
        subst (λ t. All IsPlain t.0) (sym (decoded-server_response cookies fits))
          (refl, (refl, All-IsPlain cookies)))
    ∙ negotiate-server_response cookies some_cookie fits
