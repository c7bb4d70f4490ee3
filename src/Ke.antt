-- ===== src/Ke.antt =====
-- Key establishment over TLS: the client of nts_client.rs, the server of nts_server.rs and the
-- session that protects packets with the keys. The TLS connection of the crate rustls is a parameter.
pub mod Server
pub mod Client
pub mod Session
pub mod Protect
pub mod Response
pub mod Accepted
pub mod Sealing
pub mod Agreement
mod Examples
pub mod Request
use ntpsec_rs.Prelude.{
  ℕ, ◌+◌, ◌/◌, ◌%◌, ◌^◌, Option, List, [], ◌∷◌, ◌++◌, length, ◌≡◌, some, Bool, true, false, ◌&&◌,
  ◌==◌,
}
use ntpsec_rs.Nts.Record.{NtsKeRecord, new_critical, encode}
use ntpsec_rs.Nts.Handshake.{
  AeadAlgorithm, aead_aes_siv_cmac256, aead_aes_siv_cmac512, aead_aes_gcm128,
}

unfoldable pub key_length : AeadAlgorithm → ℕ
key_length aead_aes_siv_cmac256 = 32
key_length aead_aes_siv_cmac512 = 64
key_length aead_aes_gcm128 = 16

unfoldable pub to_u16 : AeadAlgorithm → ℕ
to_u16 aead_aes_siv_cmac256 = 15
to_u16 aead_aes_siv_cmac512 = 16
to_u16 aead_aes_gcm128 = 18

-- What one end of a TLS session sees: the negotiated protocol, the plaintext that the other end sent,
-- and `export_keying_material` under the label of the protocol, with the length of the output and
-- the context; `none` is the crate's error.
pub record Connection : Type 0 where
  pub alpn_protocol : Option (List ℕ)
  pub received : List ℕ
  pub export : ℕ → List ℕ → Option (List ℕ)

-- Documented: the exporter gives as many bytes as it was asked for.
pub record IsExporter (export : ℕ → List ℕ → Option (List ℕ)) : Type 0 where
  pub fills : (n : ℕ) (context key : List ℕ) → export n context ≡ some key → length key ≡ n

-- `ntske/1`
abbrev pub ntske : List ℕ
ntske = 110 ∷ 116 ∷ 115 ∷ 107 ∷ 101 ∷ 47 ∷ 49 ∷ []

-- The five bytes of context: the protocol NTPv4, the algorithm, the direction.
unfoldable pub exporter_context : ℕ → ℕ → List ℕ
exporter_context aead direction = 0 ∷ 0 ∷ aead / 2 ^ 8 % 256 ∷ aead % 256 ∷ direction ∷ []

-- `records.iter().flat_map(|r| r.encode()).collect()`
unfoldable pub flat_map_encode : List NtsKeRecord → List ℕ
unfolding encode
flat_map_encode [] = []
flat_map_encode (r ∷ rs) = encode r ++ flat_map_encode rs
