-- ===== src/Nts/Handshake.antt =====
-- `NtsKeProtocolClient::handshake_with_data` of nts.rs: the client reads the records of a server's
-- response, refuses what the protocol forbids and keeps the cookies.
pub mod Steps
pub mod Outcome
pub mod Accept
use ntpsec_rs.Prelude.{
  ℕ, zero, suc, ◌+◌, ◌-◌, ◌*◌, ◌^◌, ◌%◌, ◌||◌, ◌&&◌, bit_and, Option, none, some, List, [], ◌∷◌,
  ◌++◌, length, replicate, is_empty, ltb, ◌==◌, if◌then◌else◌, Bool, true, false, not, Result, ok,
  err, ◌>>=◌, String,
}
use ntpsec_rs.Prelude.Bytes.{from_be16, byte_at, slice}
use ntpsec_rs.Nts.Siv.{Siv}
use ntpsec_rs.Nts.Record.{NtsKeRecord, critical_bit, decode_all}
use ntpsec_rs.Nts.Cipher.{CookieCipher, CipherError}
use ntpsec_rs.Nts.Cipher as Cipher

pub data AeadAlgorithm : Type 0 where
  aead_aes_siv_cmac256 aead_aes_siv_cmac512 aead_aes_gcm128 : AeadAlgorithm

unfoldable pub from_u16 : ℕ → Option AeadAlgorithm
from_u16 v =
    if v == 15
    then some aead_aes_siv_cmac256
    else if v == 16
    then some aead_aes_siv_cmac512
    else if v == 18
    then some aead_aes_gcm128
    else none

-- The causes, each with what the source's message prints.
pub data HandshakeError : Type 0 where
  empty_request duplicate_next_protocol next_protocol_not_critical duplicate_aead duplicate_eom
        eom_not_critical eom_not_final missing_next_protocol ntpv4_not_selected missing_eom no_aead
        no_cookies :
      HandshakeError
  trailing_data unsupported_critical next_protocol_length aead_length aead_not_offered eom_not_empty
        plaintext_too_short :
      ℕ → HandshakeError
  server_error : List ℕ → HandshakeError
  cookie_not_opened : CipherError → HandshakeError

pub data NtsKeState : Type 0 where
  idle connecting negotiating established : NtsKeState
  error : HandshakeError → NtsKeState

pub record NtsKeNegotiation : Type 0 where
  pub aead_algorithm : AeadAlgorithm
  pub cookies : List (List ℕ)
  pub c2s_key : List ℕ
  pub s2c_key : List ℕ
  pub server_offer : List NtsKeRecord

pub record NtsKeProtocolClient : Type 0 where
  pub state : NtsKeState
  pub host : String
  pub port : ℕ
  pub cookies : List (List ℕ)
  pub aead : Option AeadAlgorithm

unfoldable pub new : String → ℕ → NtsKeProtocolClient
new host port = record { state = idle; host = host; port = port; cookies = []; aead = none }

unfoldable pub reset : NtsKeProtocolClient → NtsKeProtocolClient
reset c = record c { state = idle; cookies = []; aead = none }

-- The local variables of the loop over the response's records.
pub record Progress : Type 0 where
  pub aead_algorithm : Option AeadAlgorithm
  pub aead_count : ℕ
  pub cookies : List (List ℕ)
  pub server_offer : List NtsKeRecord
  pub next_proto_count : ℕ
  pub selected_ntpv4 : Bool
  pub has_eom : Bool
  pub eom_position : ℕ

abbrev pub start : Progress
start = record {
  aead_algorithm = none;
  aead_count = 0;
  cookies = [];
  server_offer = [];
  next_proto_count = 0;
  selected_ntpv4 = false;
  has_eom = false;
  eom_position = 2 ^ 64 - 1;
}

-- `record_type & !NTS_KE_RECORD_CRITICAL_BIT`
unfoldable pub raw_type : NtsKeRecord → ℕ
raw_type rec = bit_and rec.record_type 0x7fff

unfoldable pub is_critical : NtsKeRecord → Bool
is_critical rec = not (bit_and rec.record_type critical_bit == 0)

-- `body.chunks_exact(2)`, and whether a chunk is the protocol 0.
unfoldable pub any_ntpv4 : List ℕ → Bool
any_ntpv4 [] = false
any_ntpv4 (a ∷ []) = false
any_ntpv4 (a ∷ b ∷ rest) = (from_be16 a b == 0) || any_ntpv4 rest

unfoldable pub next_protocol_step : NtsKeRecord → Progress → Result HandshakeError Progress
unfolding is_critical any_ntpv4
next_protocol_step rec p =
    if not (is_critical rec)
    then err next_protocol_not_critical
    else if ltb 1 (p.next_proto_count + 1)
    then err duplicate_next_protocol
    else if ltb (length rec.body) 2 || not (length rec.body % 2 == 0)
    then err (next_protocol_length (length rec.body))
    else ok (record p {
      next_proto_count = p.next_proto_count + 1;
      selected_ntpv4 = p.selected_ntpv4 || any_ntpv4 rec.body;
    })

unfoldable pub aead_step : NtsKeRecord → Progress → Result HandshakeError Progress
unfolding from_u16
aead_step rec p =
    let alg_id = from_be16 (byte_at rec.body 0) (byte_at rec.body 1) in
    if ltb 1 (p.aead_count + 1)
    then err duplicate_aead
    else if not (length rec.body == 2)
    then err (aead_length (length rec.body))
    else if not (alg_id == 15)
    then err (aead_not_offered alg_id)
    else ok (record p { aead_count = p.aead_count + 1; aead_algorithm = from_u16 alg_id })

unfoldable pub eom_step : ℕ → NtsKeRecord → Progress → Result HandshakeError Progress
unfolding is_critical
eom_step position rec p =
    if p.has_eom
    then err duplicate_eom
    else if not (is_critical rec)
    then err eom_not_critical
    else if not (is_empty rec.body)
    then err (eom_not_empty (length rec.body))
    else ok (record p { has_eom = true; eom_position = position })

-- The body of the loop.
unfoldable pub step : ℕ → NtsKeRecord → Progress → Result HandshakeError Progress
unfolding raw_type is_critical
step position rec p =
    let t = raw_type rec in
    let known = (t == 4) || (t == 5) || (t == 1) || (t == 0) in
    if t == 2
    then err (server_error rec.body)
    else if t == 3
    then ok p
    else if is_critical rec && not known
    then err (unsupported_critical t)
    else if t == 1
    then next_protocol_step rec p
    else if t == 4
    then aead_step rec p
    else if t == 5
    then ok (record p { cookies = p.cookies ++ rec.body ∷ [] })
    else if t == 0
    then eom_step position rec p
    else ok (record p { server_offer = p.server_offer ++ rec ∷ [] })

unfoldable pub steps : ℕ → List NtsKeRecord → Progress → Result HandshakeError Progress
steps position [] p = ok p
steps position (rec ∷ recs) p = do q ← step position rec p; steps (position + 1) recs q

unfoldable pub aead_or_err : Option AeadAlgorithm → Result HandshakeError AeadAlgorithm
aead_or_err none = err no_aead
aead_or_err (some a) = ok a

-- The checks after the loop, up to the derivation of the keys.
unfoldable pub finish : ℕ → Progress → Result HandshakeError AeadAlgorithm
unfolding aead_or_err
finish count p =
    if p.has_eom && not (p.eom_position == count - 1)
    then err eom_not_final
    else if p.next_proto_count == 0
    then err missing_next_protocol
    else if not p.selected_ntpv4
    then err ntpv4_not_selected
    else if not p.has_eom
    then err missing_eom
    else do a ← aead_or_err p.aead_algorithm; if is_empty p.cookies then err no_cookies else ok a

-- The fuel of `decode_all` is enough, so that `none` stands for no run of the code.
unfoldable pub decoded : List ℕ → List NtsKeRecord × List ℕ
decoded bytes = elim (decode_all bytes) [ none ↦ ([], bytes) | some p ↦ p ]

abbrev pub first_of : List (List ℕ) → List ℕ
first_of [] = []
first_of (x ∷ xs) = x

unfoldable pub fail :
    HandshakeError
    → NtsKeState
    → NtsKeProtocolClient
    → Result HandshakeError NtsKeNegotiation × NtsKeProtocolClient
fail e s c = (err e, record c { state = s })

unfoldable pub split_keys : List ℕ → Result HandshakeError (List ℕ × List ℕ)
split_keys plaintext =
    if ltb (length plaintext) 66
    then err (plaintext_too_short (length plaintext))
    else ok (slice plaintext 2 34, slice plaintext 34 66)

-- The last lines: the fields of the client and the negotiation.
unfoldable pub establish :
    AeadAlgorithm
    → Progress
    → List ℕ × List ℕ
    → NtsKeProtocolClient
    → Result HandshakeError NtsKeNegotiation × NtsKeProtocolClient
establish a p keys c = (
  ok (record {
    aead_algorithm = a;
    cookies = p.cookies;
    c2s_key = keys.0;
    s2c_key = keys.1;
    server_offer = p.server_offer;
  }),
  record c { aead = some a; cookies = p.cookies; state = established },
)

-- The loop and the checks after it.
unfoldable pub agree : List NtsKeRecord → Result HandshakeError (Progress × AeadAlgorithm)
agree records = do p ← steps 0 records start; a ← finish (length records) p; ok (p, a)

unfoldable pub negotiate : List ℕ → Result HandshakeError (Progress × AeadAlgorithm)
unfolding decoded agree
negotiate response =
    let trailing = (decoded response).1 in
    if not (is_empty trailing)
    then err (trailing_data (length trailing))
    else agree (decoded response).0

unfoldable pub with_keys :
    AeadAlgorithm
    → Progress
    → NtsKeProtocolClient
    → Result HandshakeError (List ℕ × List ℕ)
    → Result HandshakeError NtsKeNegotiation × NtsKeProtocolClient
unfolding fail establish
with_keys a p c (err e) = fail e (error e) c
with_keys a p c (ok keys) = establish a p keys c

-- A cookie that does not open leaves through `?`, with the state as it stands.
unfoldable pub with_plaintext :
    AeadAlgorithm
    → Progress
    → NtsKeProtocolClient
    → Result CipherError (List ℕ)
    → Result HandshakeError NtsKeNegotiation × NtsKeProtocolClient
unfolding fail with_keys split_keys
with_plaintext a p c (err e) = fail (cookie_not_opened e) negotiating c
with_plaintext a p c (ok plaintext) = with_keys a p c (split_keys plaintext)

module _ (siv : Siv) where
  unfoldable pub derive :
      Option CookieCipher
      → NtsKeProtocolClient
      → Result HandshakeError (Progress × AeadAlgorithm)
      → Result HandshakeError NtsKeNegotiation × NtsKeProtocolClient
  unfolding fail establish with_plaintext
  derive cipher c (err e) = fail e (error e) c
  derive none c (ok (p, a)) = establish a p (replicate 32 0, replicate 32 0) c
  derive (some k) c (ok (p, a)) = with_plaintext a p c (Cipher.decrypt siv k (first_of p.cookies))

  unfoldable pub handshake_with_data :
      List ℕ
      → List ℕ
      → Option CookieCipher
      → NtsKeProtocolClient
      → Result HandshakeError NtsKeNegotiation × NtsKeProtocolClient
  unfolding derive decoded
  handshake_with_data request response cipher c =
      if is_empty (decoded request).0
      then fail empty_request (error empty_request) c
      else derive cipher c (negotiate response)
