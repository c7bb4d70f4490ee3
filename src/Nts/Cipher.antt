-- ===== src/Nts/Cipher.antt =====
-- `CookieCipher` of nts_cookie.rs: a bounded ring of cookie keys, and the sealed envelope.
pub mod Ring
pub mod RoundTrip
use ntpsec_rs.Prelude.{
  ℕ, suc, ◌+◌, ◌-◌, Option, none, some, List, [], ◌∷◌, ◌++◌, length, drop, take, min, ltb, ◌==◌,
  if◌then◌else◌, Result, ok, err, ◌>>=◌,
}
use ntpsec_rs.Prelude.Bytes.{be32, from_be32, byte_at}
use ntpsec_rs.Nts.Siv.{Siv}
use mathlib.Core.List.{reverse}

pub record CookieKey : Type 0 where
  pub key_id : ℕ
  pub key : List ℕ

pub record CookieCipher : Type 0 where
  pub keys : List CookieKey
  pub server_identity : Option (List ℕ)

pub data CipherError : Type 0 where
  no_keys no_nonce seal_failed too_short open_failed : CipherError
  unknown_key : ℕ → CipherError

abbrev pub max_keys : ℕ
max_keys = 16

abbrev pub empty : CookieCipher
empty = record { keys = []; server_identity = none }

abbrev pub with_server_identity : List ℕ → CookieCipher
with_server_identity identity = record { keys = []; server_identity = some identity }

-- `while keys.len() > keep { keys.remove(0) }`
unfoldable pub trim_front : ℕ → List CookieKey → List CookieKey
trim_front keep [] = []
trim_front keep (k ∷ ks) =
    let rest = trim_front keep ks in if ltb keep (length (k ∷ ks)) then rest else k ∷ ks

unfoldable pub add_key : ℕ → List ℕ → CookieCipher → CookieCipher
add_key key_id key c =
    let pushed = c.keys ++ record { key_id = key_id; key = key } ∷ [] in
    record c { keys = if ltb max_keys (length pushed) then drop 1 pushed else pushed }

unfoldable pub prune_keys : ℕ → CookieCipher → CookieCipher
unfolding trim_front
prune_keys keep c = record c { keys = trim_front (min keep max_keys) c.keys }

unfoldable pub set_server_identity : List ℕ → CookieCipher → CookieCipher
set_server_identity identity c = record c { server_identity = some identity }

unfoldable pub clear_server_identity : CookieCipher → CookieCipher
clear_server_identity c = record c { server_identity = none }

unfoldable pub find_key : ℕ → List CookieKey → Option (List ℕ)
find_key key_id [] = none
find_key key_id (k ∷ ks) = if k.key_id == key_id then some k.key else find_key key_id ks

-- `iter().rev().find(…)`
unfoldable pub get_key : ℕ → CookieCipher → Option (List ℕ)
unfolding find_key
get_key key_id c = find_key key_id (reverse c.keys)

unfoldable pub last_key : List CookieKey → Option CookieKey
last_key [] = none
last_key (k ∷ []) = some k
last_key (k ∷ j ∷ ks) = last_key (j ∷ ks)

unfoldable pub headers_of : CookieCipher → List ℕ → List ℕ → List (List ℕ)
headers_of c key_id_bytes nonce = elim c.server_identity [
  | some id ↦ key_id_bytes ∷ nonce ∷ id ∷ []
  | none ↦ key_id_bytes ∷ nonce ∷ []
]

abbrev pub or_err {ℓ} : {A : Type ℓ} → CipherError → Option A → Result CipherError A
or_err e none = err e
or_err e (some a) = ok a

module _ (siv : Siv) where
  -- `nonce` is what `getrandom` gives.
  unfoldable pub encrypt : CookieCipher → Option (List ℕ) → List ℕ → Result CipherError (List ℕ)
  encrypt c random plaintext = do
    k ← or_err no_keys (last_key c.keys)
    nonce ← or_err no_nonce random
    sealed ← or_err seal_failed (siv.encrypt k.key (headers_of c (be32 k.key_id) nonce) plaintext)
    ok (be32 k.key_id ++ (nonce ++ sealed))

  -- `data.split_at(4)`, `rest.split_at(16)`
  unfoldable pub decrypt : CookieCipher → List ℕ → Result CipherError (List ℕ)
  decrypt c envelope =
      let key_id_bytes = take 4 envelope in
      let nonce = take 16 (drop 4 envelope) in
      let sealed = drop 16 (drop 4 envelope) in
      let key_id =
        from_be32 (byte_at envelope 0) (byte_at envelope 1) (byte_at envelope 2)
          (byte_at envelope 3) in
      if ltb (length envelope) 20 then err too_short else do
        key ← or_err (unknown_key key_id) (get_key key_id c)
        or_err open_failed (siv.decrypt key (headers_of c key_id_bytes nonce) sealed)
