-- ===== src/Auth/Examples.antt =====
-- The theorems on keys and MACs at concrete inputs, with a toy digest.
use ntpsec_rs.Prelude.{[], ◌∷◌, ◌++◌, some, none, replicate}
use ntpsec_rs.Auth.{Digests, NtpAuthKey, AuthKeyStore, sha1, md5}

-- Twenty bytes, of which the first is the first of the key.
abbrev toy_digests : Digests
toy_digests = record {
  md5_of = λ bytes. bytes ++ replicate 20 0;
  sha1_of = λ bytes. bytes ++ replicate 20 0;
  cmac_of = λ key bytes. some (key ++ bytes);
}

abbrev a_key : NtpAuthKey
a_key = record { id = 10; digest = sha1; key_data = 1 ∷ 2 ∷ [] }

abbrev a_store : AuthKeyStore
a_store = record {
  keys = record { id = 3; digest = md5; key_data = 7 ∷ [] } ∷ [];
  trusted_keys = 3 ∷ [];
  control_key = none;
}
