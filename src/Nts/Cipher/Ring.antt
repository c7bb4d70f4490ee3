-- ===== src/Nts/Cipher/Ring.antt =====
-- The key ring is bounded, and a lookup finds the newest key of its identifier.
use ntpsec_rs.Prelude.{
  ℕ, suc, ◌+◌, ◌-◌, ◌≤◌, ◌<◌, ◌≡◌, refl, some, List, [], ◌∷◌, ◌++◌, arith, length, drop,
  length-drop, length-append, min, ltb, ◌==◌, if◌then◌else◌, Bool-cases, inl, inr, false,
}
use mathlib.Core.List.{reverse-append}
use ntpsec_rs.Nts.Cipher.{
  CookieKey, CookieCipher, max_keys, trim_front, add_key, prune_keys, find_key, get_key, last_key,
}

abbrev pub IsBounded : CookieCipher → Type 0
IsBounded c = length c.keys ≤ max_keys

-- Adding a key keeps at most sixteen.
pub add_key-IsBounded :
    (key_id : ℕ) (key : List ℕ) (c : CookieCipher) → IsBounded c → IsBounded (add_key key_id key c)
unfolding add_key
add_key-IsBounded key_id key c h = elim (Bool-cases (ltb max_keys (length pushed))) [
  | inl full ↦ rw full (omega (arith, one_more, length-drop 1 pushed))
  | inr room ↦ rw room (ground arith)
]
  where
    pushed : List CookieKey
    pushed = c.keys ++ record { key_id = key_id; key = key } ∷ []

    one_more : length pushed ≡ length c.keys + 1
    one_more = length-append c.keys (record { key_id = key_id; key = key } ∷ [])

-- With room in the ring, a lookup after `add_key` gives the new key under its identifier, and what it
-- gave before under any other.
pub get_key-add_key :
    (key_id j : ℕ) (key : List ℕ) (c : CookieCipher)
    → length c.keys < max_keys
    → get_key j (add_key key_id key c) ≡ (if key_id == j then some key else get_key j c)
unfolding add_key get_key find_key
get_key-add_key key_id j key c h =
    rw (fits, reverse-append c.keys (record { key_id = key_id; key = key } ∷ [])) refl
  where
    new : CookieKey
    new = record { key_id = key_id; key = key }

    fits : ltb max_keys (length (c.keys ++ new ∷ [])) ≡ false
    fits = ground (arith, length-append c.keys (new ∷ []))

last_key-append : (ks : List CookieKey) (k : CookieKey) → last_key (ks ++ k ∷ []) ≡ some k
unfolding last_key
last_key-append [] k = refl
last_key-append (a ∷ []) k = refl
last_key-append (a ∷ b ∷ ks) k = last_key-append (b ∷ ks) k

last_key-drop :
    (ks : List CookieKey) (k : CookieKey)
    → 0 < length ks
    → last_key (drop 1 (ks ++ k ∷ [])) ≡ some k
last_key-drop [] k h = absurd (omega arith)
last_key-drop (a ∷ ks) k h = last_key-append ks k

-- A new key is the one that `encrypt` takes.
pub last_key-add_key :
    (key_id : ℕ) (key : List ℕ) (c : CookieCipher)
    → last_key (add_key key_id key c).keys ≡ some (record { key_id = key_id; key = key })
unfolding add_key
last_key-add_key key_id key c = elim (Bool-cases (ltb max_keys (length (c.keys ++ new ∷ [])))) [
  | inl full ↦ rw full (last_key-drop c.keys new (ground (arith, length-append c.keys (new ∷ []))))
  | inr room ↦ rw room (last_key-append c.keys new)
]
  where
    new : CookieKey
    new = record { key_id = key_id; key = key }

trim_front-eq-drop :
    (keep : ℕ) (ks : List CookieKey) → trim_front keep ks ≡ drop (length ks - keep) ks
unfolding trim_front
trim_front-eq-drop keep [] = ground arith
trim_front-eq-drop keep (k ∷ ks) = elim (Bool-cases (ltb keep (length (k ∷ ks)))) [
  | inl over ↦
      let one_more : length (k ∷ ks) - keep ≡ suc (length ks - keep) = ground arith in
      rw (over, one_more) (trim_front-eq-drop keep ks)
  | inr fits ↦ let none_over : length (k ∷ ks) - keep ≡ 0 = ground arith in rw (fits, none_over)
]

-- `prune_keys` keeps the newest keys: the last `keep`, and at most sixteen.
pub prune_keys_lem :
    (keep : ℕ) (c : CookieCipher)
    → (prune_keys keep c).keys ≡ drop (length c.keys - min keep max_keys) c.keys
unfolding prune_keys
prune_keys_lem keep c = trim_front-eq-drop (min keep max_keys) c.keys
