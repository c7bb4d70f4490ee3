-- ===== src/Ke/Session.antt =====
-- `NtsServerSession` of nts_server.rs: NTP packets are authenticated and protected with the two keys.
-- AES-SIV and the random source are parameters.
use ntpsec_rs.Prelude.{
  ℕ, ◌+◌, ◌%◌, ◌^◌, Option, none, some, List, [], ◌∷◌, ◌++◌, length, take, drop, min, ltb, ◌==◌,
  if◌then◌else◌, Result, ok, err, ◌>>=◌,
}
use ntpsec_rs.Prelude.Bytes.{be16, be64}
use ntpsec_rs.Nts.Siv.{Siv}
use ntpsec_rs.Nts.Cipher.{CookieCipher, CipherError}
use ntpsec_rs.Nts.Cipher as Cipher
use ntpsec_rs.Nts.Extension.{ExtensionField}
use ntpsec_rs.Nts.Extension as Extension
use ntpsec_rs.Nts.Authenticator.{NtsAuthenticator}
use ntpsec_rs.Nts.Authenticator as Authenticator

-- The keys are arrays of 32 bytes.
pub record NtsServerSession : Type 0 where
  pub c2s_key : List ℕ
  pub s2c_key : List ℕ
  pub cookies : List (List ℕ)
  pub sequence : ℕ

pub data SessionError : Type 0 where
  no_authenticator bad_authenticator packet_too_short not_authentic not_sealed : SessionError
  cookie_not_sealed : CipherError → SessionError

unfoldable pub new : List ℕ → List ℕ → NtsServerSession
new c2s_key s2c_key = record { c2s_key = c2s_key; s2c_key = s2c_key; cookies = []; sequence = 0 }

abbrev pub cookie_type : ℕ
cookie_type = 0x204

abbrev pub authenticator_type : ℕ
authenticator_type = 0x404

abbrev pub ntp_header_size : ℕ
ntp_header_size = 48

-- `extensions.iter().find(…)`
unfoldable pub find_field : ℕ → List ExtensionField → Option ExtensionField
find_field field_type [] = none
find_field field_type (f ∷ fs) =
    if f.field_type == field_type then some f else find_field field_type fs

-- The loop of `build_nts_aad`, which leaves at the field of the given type.
unfoldable pub encoded_before : ℕ → List ExtensionField → List ℕ
encoded_before stop_field_type [] = []
encoded_before stop_field_type (f ∷ fs) =
    if f.field_type == stop_field_type
    then []
    else Extension.encode f ++ encoded_before stop_field_type fs

unfoldable pub build_nts_aad : List ℕ → List ExtensionField → ℕ → Result SessionError (List ℕ)
unfolding encoded_before
build_nts_aad packet extensions stop_field_type =
    if ltb (length packet) ntp_header_size
    then err packet_too_short
    else ok (take ntp_header_size packet ++ encoded_before stop_field_type extensions)

abbrev pub or_err {ℓ} : {A : Type ℓ} → SessionError → Option A → Result SessionError A
or_err e none = err e
or_err e (some a) = ok a

unfoldable pub build_cookie_plaintext : ℕ → List ℕ → List ℕ → List ℕ
build_cookie_plaintext aead_alg c2s_key s2c_key = be16 aead_alg ++ (c2s_key ++ s2c_key)

-- The associated data of an outgoing packet: its header and everything behind it.
unfoldable pub outgoing_aad : List ℕ → List ℕ
outgoing_aad packet =
    take (min ntp_header_size (length packet)) packet
    ++ drop (min ntp_header_size (length packet)) packet

module _ (siv : Siv) where
  unfoldable pub authenticate_request :
      NtsServerSession → List ℕ → List ExtensionField → Result SessionError (Unit {0})
  unfolding find_field build_nts_aad
  authenticate_request s packet extensions = do
    auth_ext ← or_err no_authenticator (find_field authenticator_type extensions)
    authenticator ← or_err bad_authenticator (Authenticator.decode auth_ext.payload)
    aad ← build_nts_aad packet extensions authenticator_type
    plaintext ←
        or_err not_authentic
          (siv.decrypt s.c2s_key (aad ∷ authenticator.nonce ∷ []) authenticator.ciphertext)
    ok tt

  -- What the caller's `&mut` packet and session hold afterwards stands beside the result.
  unfoldable pub append_authenticator :
      Option (List ℕ)
      → List ℕ
      → NtsServerSession
      → Result SessionError (Unit {0}) × (List ℕ × NtsServerSession)
  append_authenticator none packet s = (err not_sealed, (packet, s))
  append_authenticator (some ciphertext) packet s = (
    ok tt,
    (
      packet
          ++ Extension.encode (record {
            field_type = authenticator_type;
            payload =
                Authenticator.encode (record { nonce = be64 s.sequence; ciphertext = ciphertext });
          }),
      record s { sequence = (s.sequence + 1) % 2 ^ 64 },
    ),
  )

  unfoldable pub append_cookie :
      Result CipherError (List ℕ)
      → List ℕ
      → NtsServerSession
      → Result SessionError (Unit {0}) × (List ℕ × NtsServerSession)
  unfolding append_authenticator outgoing_aad
  append_cookie (err e) packet s = (err (cookie_not_sealed e), (packet, s))
  append_cookie (ok cookie_blob) packet s =
      let with_cookie =
        packet ++ Extension.encode (record { field_type = cookie_type; payload = cookie_blob }) in
      append_authenticator
        (siv.encrypt s.s2c_key (outgoing_aad with_cookie ∷ be64 s.sequence ∷ []) []) with_cookie s

  unfoldable pub protect_response :
      CookieCipher
      → Option (List ℕ)
      → ℕ
      → List ℕ
      → NtsServerSession
      → Result SessionError (Unit {0}) × (List ℕ × NtsServerSession)
  unfolding append_cookie build_cookie_plaintext
  protect_response cipher random aead_alg packet s =
      append_cookie
        (Cipher.encrypt siv cipher random (build_cookie_plaintext aead_alg s.c2s_key s.s2c_key))
        packet s

  unfoldable pub generate_cookie :
      CookieCipher → Option (List ℕ) → NtsServerSession → Result CipherError (List ℕ)
  generate_cookie cipher random s =
      Cipher.encrypt siv cipher random (be16 15 ++ (s.c2s_key ++ s.s2c_key))
