-- ===== src/Ke/Server.antt =====
-- The server side of nts_server.rs: the request is validated, the cookies are sealed and the response
-- is built. Writing the response and closing the connection are I/O.
use ntpsec_rs.Prelude.{
  ℕ, zero, suc, ◌+◌, ◌-◌, ◌%◌, ◌^◌, ◌||◌, Option, none, some, List, [], ◌∷◌, ◌++◌, map, length,
  is_empty, take, ltb, ◌==◌, if◌then◌else◌, Bool, true, false, not, Result, ok, err, ◌>>=◌, String,
}
use ntpsec_rs.Prelude.Bytes.{be16, from_be16, same_bytes}
use ntpsec_rs.Auth.{contains}
use ntpsec_rs.Nts.Siv.{Siv}
use ntpsec_rs.Nts.Record.{NtsKeRecord, new_critical}
use ntpsec_rs.Nts.Handshake.{raw_type, is_critical, any_ntpv4, decoded, from_u16}
use ntpsec_rs.Nts.Cipher.{CookieCipher, CipherError, encrypt}
use ntpsec_rs.Ke.{Connection, ntske, key_length, exporter_context, flat_map_encode}

pub record NtsServerConfig : Type 0 where
  pub key_file : String
  pub cert_file : String
  pub aead_algorithms : List ℕ
  pub cookie_cipher : CookieCipher

-- The causes, each with what the source's message prints. `slice_panic` is no `Err` of the code but
-- the panic of a slice of a key that is too short.
pub data ServerError : Type 0 where
  next_protocol_not_critical duplicate_next_protocol ntpv4_not_offered duplicate_eom
        eom_not_critical missing_next_protocol no_supported_aead missing_eom eom_not_final
        alpn_not_negotiated empty_request export_failed slice_panic :
      ServerError
  next_protocol_length aead_length eom_not_empty unsupported_critical trailing_data :
      ℕ → ServerError
  client_error alpn_unexpected : List ℕ → ServerError
  cookie_not_sealed : CipherError → ServerError

-- The local variables of the loop over the request's records.
pub record Scan : Type 0 where
  pub next_proto_count : ℕ
  pub selected_aead : Option ℕ
  pub has_eom : Bool
  pub eom_position : ℕ

abbrev pub start : Scan
start = record {
  next_proto_count = 0;
  selected_aead = none;
  has_eom = false;
  eom_position = 2 ^ 64 - 1;
}

unfoldable pub next_protocol_step : NtsKeRecord → Scan → Result ServerError Scan
unfolding is_critical any_ntpv4
next_protocol_step rec s =
    if not (is_critical rec)
    then err next_protocol_not_critical
    else if ltb 1 (s.next_proto_count + 1)
    then err duplicate_next_protocol
    else if ltb (length rec.body) 2 || not (length rec.body % 2 == 0)
    then err (next_protocol_length (length rec.body))
    else if not (any_ntpv4 rec.body)
    then err ntpv4_not_offered
    else ok (record s { next_proto_count = s.next_proto_count + 1 })

-- `if selected_aead.is_none() { selected_aead = Some(aead_id) }`
abbrev pub keep_first : Option ℕ → ℕ → Option ℕ
keep_first none id = some id
keep_first (some a) id = some a

-- The loop over `body.chunks_exact(2)`.
unfoldable pub select : List ℕ → List ℕ → Option ℕ → Option ℕ
unfolding contains
select supported [] selected = selected
select supported (a ∷ []) selected = selected
select supported (a ∷ b ∷ rest) selected =
    select supported rest
      (if contains (from_be16 a b) supported then keep_first selected (from_be16 a b) else selected)

unfoldable pub aead_step : List ℕ → NtsKeRecord → Scan → Result ServerError Scan
unfolding select
aead_step supported rec s =
    if ltb (length rec.body) 2 || not (length rec.body % 2 == 0)
    then err (aead_length (length rec.body))
    else ok (record s { selected_aead = select supported rec.body s.selected_aead })

unfoldable pub eom_step : ℕ → NtsKeRecord → Scan → Result ServerError Scan
unfolding is_critical
eom_step position rec s =
    if s.has_eom
    then err duplicate_eom
    else if not (is_critical rec)
    then err eom_not_critical
    else if not (is_empty rec.body)
    then err (eom_not_empty (length rec.body))
    else ok (record s { has_eom = true; eom_position = position })

-- The body of the loop.
unfoldable pub step : List ℕ → ℕ → NtsKeRecord → Scan → Result ServerError Scan
unfolding raw_type is_critical next_protocol_step aead_step eom_step
step supported position rec s =
    let t = raw_type rec in
    if t == 2
    then err (client_error rec.body)
    else if t == 3
    then ok s
    else if t == 1
    then next_protocol_step rec s
    else if t == 4
    then aead_step supported rec s
    else if t == 0
    then eom_step position rec s
    else if is_critical rec
    then err (unsupported_critical t)
    else ok s

unfoldable pub steps : List ℕ → ℕ → List NtsKeRecord → Scan → Result ServerError Scan
unfolding step
steps supported position [] s = ok s
steps supported position (rec ∷ recs) s = do
  q ← step supported position rec s
  steps supported (position + 1) recs q

-- The checks after the loop.
unfoldable pub finish : ℕ → List ℕ → Scan → Result ServerError ℕ
finish count trailing s =
    if s.next_proto_count == 0 then err missing_next_protocol else elim s.selected_aead [
      | none ↦ err no_supported_aead
      | some aead ↦
          if not s.has_eom
          then err missing_eom
          else if not (s.eom_position == count - 1)
          then err eom_not_final
          else if not (is_empty trailing)
          then err (trailing_data (length trailing))
          else ok aead
    ]

-- The second part of the source's pair is an empty list.
unfoldable pub process_nts_ke_request : List ℕ → NtsServerConfig → Result ServerError ℕ
unfolding decoded steps finish
process_nts_ke_request bytes config = do
  s ← steps config.aead_algorithms 0 (decoded bytes).0 start
  finish (length (decoded bytes).0) (decoded bytes).1 s

abbrev pub cookie_record : List ℕ → NtsKeRecord
cookie_record body = record { record_type = 5; body = body }

unfoldable pub build_nts_ke_response : ℕ → List (List ℕ) → List ℕ
unfolding new_critical flat_map_encode
build_nts_ke_response aead_selected cookies = flat_map_encode (
    new_critical 1 (be16 0)
    ∷ record { record_type = 4; body = be16 aead_selected }
    ∷ (map cookie_record cookies ++ new_critical 0 [] ∷ []))

abbrev pub nts_max_cookies : ℕ
nts_max_cookies = 8

-- `AeadAlgorithm::from_u16(aead).map(|a| a.key_length()).unwrap_or(32)`
unfoldable pub keylen : ℕ → ℕ
unfolding from_u16 key_length
keylen aead = elim (from_u16 aead) [ none ↦ 32 | some a ↦ key_length a ]

-- `&key[..32]`
unfoldable pub first_32 : List ℕ → Result ServerError (List ℕ)
first_32 key = if ltb (length key) 32 then err slice_panic else ok (take 32 key)

unfoldable pub exported : Option (List ℕ) → Result ServerError (List ℕ)
exported none = err export_failed
exported (some key) = ok key

unfoldable pub check_alpn : Option (List ℕ) → Result ServerError (Unit {0})
unfolding same_bytes
check_alpn none = err alpn_not_negotiated
check_alpn (some p) = if same_bytes p ntske then ok tt else err (alpn_unexpected p)

unfoldable pub check_request : List ℕ → Result ServerError (Unit {0})
check_request request_data = if is_empty request_data then err empty_request else ok tt

module _ (siv : Siv) where
  -- The loop with `?`; the `i`-th round draws the `i`-th nonce.
  unfoldable pub seal_cookies :
      CookieCipher
      → (ℕ → Option (List ℕ))
      → List ℕ
      → ℕ
      → ℕ
      → List (List ℕ)
      → Result ServerError (List (List ℕ))
  seal_cookies cipher random plaintext i zero cookies = ok cookies
  seal_cookies cipher random plaintext i (suc rounds) cookies =
      elim (encrypt siv cipher (random i) plaintext) [
        | err e ↦ err (cookie_not_sealed e)
        | ok sealed ↦ seal_cookies cipher random plaintext (i + 1) rounds (cookies ++ sealed ∷ [])
      ]

  unfoldable pub generate_nts_ke_cookies :
      ℕ
      → List ℕ
      → List ℕ
      → CookieCipher
      → (ℕ → Option (List ℕ))
      → Result ServerError (List (List ℕ))
  unfolding seal_cookies
  generate_nts_ke_cookies aead c2s_key s2c_key cipher random =
      seal_cookies cipher random (be16 aead ++ (c2s_key ++ s2c_key)) 0 nts_max_cookies []

  -- What the handler does between the TLS handshake and writing: the cookies that it returns and the
  -- response that it sends.
  unfoldable pub handle_nts_ke_connection :
      NtsServerConfig
      → Connection
      → (ℕ → Option (List ℕ))
      → Result ServerError (List (List ℕ) × List ℕ)
  unfolding check_alpn check_request exported first_32 keylen generate_nts_ke_cookies
  handle_nts_ke_connection config conn random = do
    u ← check_alpn conn.alpn_protocol
    v ← check_request conn.received
    aead ← process_nts_ke_request conn.received config
    c2s ← exported (conn.export (keylen aead) (exporter_context aead 0))
    s2c ← exported (conn.export (keylen aead) (exporter_context aead 1))
    c2s_key ← first_32 c2s
    s2c_key ← first_32 s2c
    cookies ← generate_nts_ke_cookies aead c2s_key s2c_key config.cookie_cipher random
    ok (cookies, build_nts_ke_response aead cookies)
