-- ===== src/Auth/Store.antt =====
-- What the key store finds after a change.
use ntpsec_rs.Prelude.{
  ℕ, ◌≡◌, refl, Option, none, some, List, [], ◌∷◌, ◌++◌, arith, false, ◌||◌, ◌==◌, if◌then◌else◌,
}
use ntpsec_rs.Auth.{
  NtpAuthKey, AuthKeyStore, add_key, get_key, find_key, remove_key, without_key, contains, without,
  add_trusted_key, remove_trusted_key, is_trusted_key,
}

-- The first of two finds.
abbrev pub or_else : Option NtpAuthKey → Option NtpAuthKey → Option NtpAuthKey
or_else none o = o
or_else (some k) o = some k

find_key-append :
    (id : ℕ) (ks : List NtpAuthKey) (k : NtpAuthKey)
    → find_key id (ks ++ k ∷ []) ≡ or_else (find_key id ks) (if k.id == id then some k else none)
unfolding find_key
find_key-append id [] k = refl
find_key-append id (j ∷ ks) k = ground (arith, find_key-append id ks k)

find_key-without_key :
    (id other : ℕ) (ks : List NtpAuthKey)
    → find_key other (without_key id ks) ≡ (if id == other then none else find_key other ks)
unfolding find_key without_key
find_key-without_key id other [] = ground arith
find_key-without_key id other (k ∷ ks) = ground (arith, find_key-without_key id other ks)

-- After adding a key, a number finds the key that it found before, or else the new key if that has
-- this number; after removing a number, it finds nothing and every other number what it found before.
pub get_key_lem :
    (s : AuthKeyStore) (k : NtpAuthKey) (id other : ℕ)
    → (get_key id (add_key k s) ≡ or_else (get_key id s) (if k.id == id then some k else none))
      × (get_key other (remove_key id s) ≡ (if id == other then none else get_key other s))
unfolding get_key add_key remove_key
get_key_lem s k id other = (find_key-append id s.keys k, find_key-without_key id other s.keys)

contains-append :
    (id k : ℕ) (ks : List ℕ) → contains id (ks ++ k ∷ []) ≡ (contains id ks || (k == id))
unfolding contains
contains-append id k [] = ground arith
contains-append id k (j ∷ ks) = ground (arith, contains-append id k ks)

contains-without :
    (id other : ℕ) (ks : List ℕ)
    → contains other (without id ks) ≡ (if id == other then false else contains other ks)
unfolding contains without
contains-without id other [] = ground arith
contains-without id other (k ∷ ks) = ground (arith, contains-without id other ks)

-- The trusted numbers are a set: after adding a number it and the earlier ones are trusted, after
-- removing one it alone is not.
pub is_trusted_key_lem :
    (s : AuthKeyStore) (id other : ℕ)
    → (is_trusted_key other (add_trusted_key id s) ≡ ((id == other) || is_trusted_key other s))
      × (is_trusted_key other (remove_trusted_key id s)
          ≡ (if id == other then false else is_trusted_key other s))
unfolding is_trusted_key add_trusted_key remove_trusted_key
is_trusted_key_lem s id other = (
  ground (arith, contains-append other id s.trusted_keys),
  contains-without id other s.trusted_keys,
)
