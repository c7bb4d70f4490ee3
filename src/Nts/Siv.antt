-- ===== src/Nts/Siv.antt =====
-- AES-SIV-CMAC-256 of the crate aes_siv, which the cookies use: a parameter of the model. Keys are
-- byte strings, `headers` is the associated data, and `none` is the crate's error.
use ntpsec_rs.Prelude.{ℕ, ◌+◌, ◌≡◌, Option, some, List, length}

pub record Siv : Type 0 where
  pub encrypt : List ℕ → List (List ℕ) → List ℕ → Option (List ℕ)
  pub decrypt : List ℕ → List (List ℕ) → List ℕ → Option (List ℕ)

-- Documented: what is sealed is opened again under the same key and the same associated data.
pub record IsSiv (siv : Siv) : Type 0 where
  pub opens :
      (key : List ℕ) (headers : List (List ℕ)) (plaintext sealed : List ℕ)
      → siv.encrypt key headers plaintext ≡ some sealed
      → siv.decrypt key headers sealed ≡ some plaintext
  -- The 16-byte tag is in front.
  pub tagged :
      (key : List ℕ) (headers : List (List ℕ)) (plaintext sealed : List ℕ)
      → siv.encrypt key headers plaintext ≡ some sealed
      → length sealed ≡ 16 + length plaintext
