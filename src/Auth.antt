-- ===== src/Auth.antt =====
-- The symmetric keys of crates/ntpsec-rs-core/src/ntp_auth.rs: the digest types, the MAC over a
-- packet and its check, and the key store. The hash functions themselves are a parameter.
pub mod Mac
pub mod Store
mod Examples
use ntpsec_rs.Prelude.{
  ℕ, zero, suc, ◌+◌, ◌-◌, Option, none, some, List, [], ◌∷◌, ◌++◌, length, take, min, replicate,
  bit_or, bit_xor, ◌==◌, ◌&&◌, ◌||◌, not, Bool, true, false, is_empty, is_some, if◌then◌else◌,
}

pub data DigestType : Type 0 where
  none_digest md5 sha1 aes128_cmac : DigestType

unfoldable pub digest_length : DigestType → ℕ
digest_length none_digest = 0
digest_length md5 = 16
digest_length sha1 = 20
digest_length aes128_cmac = 16

-- The crates md5, sha1, and cmac with aes: `none` is an error of the last one's constructor.
pub record Digests : Type 0 where
  pub md5_of : List ℕ → List ℕ
  pub sha1_of : List ℕ → List ℕ
  pub cmac_of : List ℕ → List ℕ → Option (List ℕ)

pub record NtpAuthKey : Type 0 where
  pub id : ℕ
  pub digest : DigestType
  pub key_data : List ℕ

abbrev pub key_max_len : ℕ
key_max_len = 64

unfoldable pub new : ℕ → DigestType → List ℕ → NtpAuthKey
new id digest key_data = record { id = id; digest = digest; key_data = take key_max_len key_data }

-- The first 16 bytes of the key, with zeros behind a shorter one.
unfoldable pub aes_key : List ℕ → List ℕ
aes_key key_data =
    take (min (length key_data) 16) key_data ++ replicate (16 - min (length key_data) 16) 0

-- `fold(0, |acc, (a, b)| acc | (a ^ b))` over the pairs.
unfoldable pub differences : ℕ → List ℕ → List ℕ → ℕ
differences acc [] ys = acc
differences acc (x ∷ xs) [] = acc
differences acc (x ∷ xs) (y ∷ ys) = differences (bit_or acc (bit_xor x y)) xs ys

unfoldable pub mac_is : Option (List ℕ) → List ℕ → Bool
unfolding differences
mac_is none expected = false
mac_is (some computed) expected =
    (length computed == length expected) && (differences 0 computed expected == 0)

module _ (digests : Digests) where
  unfoldable pub mac_by : DigestType → List ℕ → List ℕ → Option (List ℕ)
  unfolding aes_key
  mac_by none_digest key_data pkt = none
  mac_by md5 key_data pkt = some (take 16 (digests.md5_of (key_data ++ pkt)))
  mac_by sha1 key_data pkt = some (take 20 (digests.sha1_of (key_data ++ pkt)))
  mac_by aes128_cmac key_data pkt = digests.cmac_of (aes_key key_data) pkt

  unfoldable pub mac : NtpAuthKey → List ℕ → Option (List ℕ)
  unfolding mac_by
  mac key pkt = mac_by key.digest key.key_data pkt

  unfoldable pub verify_mac : NtpAuthKey → List ℕ → List ℕ → Bool
  unfolding mac mac_is
  verify_mac key pkt expected = mac_is (mac key pkt) expected

pub record AuthKeyStore : Type 0 where
  pub keys : List NtpAuthKey
  pub trusted_keys : List ℕ
  pub control_key : Option ℕ

abbrev pub empty : AuthKeyStore
empty = record { keys = []; trusted_keys = []; control_key = none }

unfoldable pub add_key : NtpAuthKey → AuthKeyStore → AuthKeyStore
add_key key s = record s { keys = s.keys ++ key ∷ [] }

unfoldable pub find_key : ℕ → List NtpAuthKey → Option NtpAuthKey
find_key id [] = none
find_key id (k ∷ ks) = if k.id == id then some k else find_key id ks

unfoldable pub get_key : ℕ → AuthKeyStore → Option NtpAuthKey
unfolding find_key
get_key id s = find_key id s.keys

unfoldable pub without_key : ℕ → List NtpAuthKey → List NtpAuthKey
without_key id [] = []
without_key id (k ∷ ks) = let rest = without_key id ks in if k.id == id then rest else k ∷ rest

unfoldable pub remove_key : ℕ → AuthKeyStore → AuthKeyStore
unfolding without_key
remove_key id s = record s { keys = without_key id s.keys }

unfoldable pub contains : ℕ → List ℕ → Bool
contains id [] = false
contains id (k ∷ ks) = (k == id) || contains id ks

unfoldable pub has_key : ℕ → List NtpAuthKey → Bool
has_key id [] = false
has_key id (k ∷ ks) = (k.id == id) || has_key id ks

unfoldable pub add_trusted_key : ℕ → AuthKeyStore → AuthKeyStore
unfolding contains
add_trusted_key id s =
    if contains id s.trusted_keys then s else record s { trusted_keys = s.trusted_keys ++ id ∷ [] }

unfoldable pub without : ℕ → List ℕ → List ℕ
without id [] = []
without id (k ∷ ks) = let rest = without id ks in if k == id then rest else k ∷ rest

unfoldable pub remove_trusted_key : ℕ → AuthKeyStore → AuthKeyStore
unfolding without
remove_trusted_key id s = record s { trusted_keys = without id s.trusted_keys }

unfoldable pub is_trusted_key : ℕ → AuthKeyStore → Bool
unfolding contains
is_trusted_key id s = contains id s.trusted_keys

unfoldable pub set_control_key : ℕ → AuthKeyStore → AuthKeyStore
set_control_key id s = record s { control_key = some id }

unfoldable pub is_auth_enabled : AuthKeyStore → Bool
is_auth_enabled s =
    not (is_empty s.keys) && (not (is_empty s.trusted_keys) || is_some s.control_key)
