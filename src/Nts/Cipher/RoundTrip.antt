-- ===== src/Nts/Cipher/RoundTrip.antt =====
-- A sealed cookie is opened again, also after the keys have rotated.
use ntpsec_rs.Prelude.{
  ℕ, ◌<◌, ◌≡◌, ◌≢◌, refl, ◌∙◌, ap, some, List, [], ◌∷◌, ◌++◌, arith, length, drop, take,
  length-append, ltb, ◌==◌, ==_refl, ==_iff, ok, Option-cases, inl, inr, false, ok-injective, subst,
  some_eq, take-append, drop-append,
}
use ntpsec_rs.Prelude.Bytes.{IsU32, be32, from_be32, from_be32-be32, byte_at}
use ntpsec_rs.Nts.Siv.{Siv, IsSiv}
use ntpsec_rs.Nts.Cipher.{
  CookieKey, CookieCipher, max_keys, find_key, get_key, last_key, add_key, headers_of, encrypt,
  decrypt,
}
use ntpsec_rs.Nts.Cipher.Ring.{get_key-add_key}
use mathlib.Core.List.{reverse, reverse-append}

last_key_split :
    (ks : List CookieKey) (k : CookieKey)
    → last_key ks ≡ some k
    → (front : List CookieKey) × (ks ≡ front ++ k ∷ [])
unfolding last_key
last_key_split [] k h = cc
last_key_split (a ∷ []) k h = ([], ap (λ t. t ∷ []) (some_eq h))
last_key_split (a ∷ b ∷ ks) k h =
    let (front, e) = last_key_split (b ∷ ks) k h in (a ∷ front, ap (λ t. a ∷ t) e)

-- A lookup under the identifier of the newest key gives that key.
get_key-last_key :
    (c : CookieCipher) (k : CookieKey) → last_key c.keys ≡ some k → get_key k.key_id c ≡ some k.key
unfolding get_key find_key
get_key-last_key c k h =
    let (front, e) = last_key_split c.keys k h in
    ap (λ t. find_key k.key_id (reverse t)) e
    ∙ ap (find_key k.key_id) (reverse-append front (k ∷ []))
    ∙ rw (==_refl k.key_id)

headers_of-add_key :
    (key_id : ℕ) (key : List ℕ) (c : CookieCipher) (a b : List ℕ)
    → headers_of (add_key key_id key c) a b ≡ headers_of c a b
unfolding headers_of add_key
headers_of-add_key key_id key c a b = refl

module _ (siv : Siv) (laws : IsSiv siv) where
  -- An envelope that `encrypt` made with a 16-byte nonce and the newest key, whose identifier is a
  -- `u32`, is opened by the same cipher, under the laws of AES-SIV.
  pub decrypt-encrypt :
      (c : CookieCipher) (nonce plaintext envelope : List ℕ) (k : CookieKey)
      → last_key c.keys ≡ some k
      → IsU32 k.key_id
      → length nonce ≡ 16
      → encrypt siv c (some nonce) plaintext ≡ ok envelope
      → decrypt siv c envelope ≡ ok plaintext
  unfolding encrypt decrypt
  decrypt-encrypt c nonce plaintext envelope k newest id_fits nonce_fits e =
      elim (Option-cases (siv.encrypt k.key headers plaintext)) [
        | inl bad ↦ cc (rw (newest, bad) at e)
        | inr (sealed, good) ↦
            subst (λ t. decrypt siv c t ≡ ok plaintext) (ok-injective (rw (newest, good) at e))
              (opened sealed good)
      ]
    where
      headers : List (List ℕ)
      headers = headers_of c (be32 k.key_id) nonce

      opened :
          (sealed : List ℕ)
          → siv.encrypt k.key headers plaintext ≡ some sealed
          → decrypt siv c (be32 k.key_id ++ (nonce ++ sealed)) ≡ ok plaintext
      opened sealed good =
          let front : take 16 (nonce ++ sealed) ≡ nonce =
            subst (λ n. take n (nonce ++ sealed) ≡ nonce) nonce_fits (take-append nonce sealed) in
          let back : drop 16 (nonce ++ sealed) ≡ sealed =
            subst (λ n. drop n (nonce ++ sealed) ≡ sealed) nonce_fits (drop-append nonce sealed) in
          let long : ltb (length (be32 k.key_id ++ (nonce ++ sealed))) 20 ≡ false =
            ground (arith, length-append nonce sealed) in
          rw (
            long,
            from_be32-be32 k.key_id id_fits,
            get_key-last_key c k newest,
            front,
            back,
            laws.opens k.key headers plaintext sealed good,
          )

  -- Adding a key under another identifier keeps the envelopes of the older keys readable, as long as
  -- the ring has room.
  pub decrypt-add_key :
      (c : CookieCipher) (key_id : ℕ) (key envelope : List ℕ)
      → length c.keys < max_keys
      → key_id
        ≢ from_be32
            (byte_at envelope 0)
            (byte_at envelope 1)
            (byte_at envelope 2)
            (byte_at envelope 3)
      → decrypt siv (add_key key_id key c) envelope ≡ decrypt siv c envelope
  unfolding decrypt
  decrypt-add_key c key_id key envelope room other =
      rw (get_key-add_key key_id id key c room, different, headers_of-add_key)
    where
      id : ℕ
      id =
          from_be32 (byte_at envelope 0) (byte_at envelope 1) (byte_at envelope 2)
            (byte_at envelope 3)

      different : (key_id == id) ≡ false
      different = ground (arith, ==_iff key_id id)
