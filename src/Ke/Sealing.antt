-- ===== src/Ke/Sealing.antt =====
-- The cookies that nts_server.rs seals for a response.
use ntpsec_rs.Prelude.{
  ℕ, zero, suc, ◌+◌, ◌^◌, ◌<◌, ◌≡◌, refl, ◌∙◌, ap, Option, some, List, [], ◌∷◌, ◌++◌, arith, length,
  All, All-append, ok, length-append,
}
use ntpsec_rs.Prelude.Bytes.{be32, IsU32}
use ntpsec_rs.Nts.Siv.{Siv, IsSiv}
use ntpsec_rs.Nts.Cipher.{CookieCipher, CookieKey, last_key, headers_of}
use ntpsec_rs.Nts.Cipher as Cipher
use ntpsec_rs.Nts.Cipher.RoundTrip.{decrypt-encrypt}
use ntpsec_rs.Ke.Protect.{length-encrypt}
use ntpsec_rs.Ke.Server.{seal_cookies}

-- Documented: sealing fails only beyond the length limit of AES-SIV.
pub record IsSealing (siv : Siv) : Type 0 where
  pub seals :
      (key : List ℕ) (headers : List (List ℕ)) (plaintext : List ℕ)
      → length plaintext < 2 ^ 16
      → (sealed : List ℕ) × (siv.encrypt key headers plaintext ≡ some sealed)

-- Every draw of the random source gives 16 bytes.
pub record IsRandom (random : ℕ → Option (List ℕ)) : Type 0 where
  pub draws : (i : ℕ) → (nonce : List ℕ) × (random i ≡ some nonce) × (length nonce ≡ 16)

module _ (siv : Siv) where
  -- A cookie that the server opens again, and that fits a record.
  pub record IsCookieOf (cipher : CookieCipher) (plaintext cookie : List ℕ) : Type 0 where
    pub opens : Cipher.decrypt siv cipher cookie ≡ ok plaintext
    pub size : length cookie ≡ 36 + length plaintext

  encrypt_total :
      (cipher : CookieCipher) (k : CookieKey) (nonce plaintext : List ℕ)
      → IsSiv siv
      → IsSealing siv
      → last_key cipher.keys ≡ some k
      → IsU32 k.key_id
      → length nonce ≡ 16
      → length plaintext < 2 ^ 16
      → (cookie : List ℕ) × (Cipher.encrypt siv cipher (some nonce) plaintext ≡ ok cookie)
        × IsCookieOf cipher plaintext cookie
  unfolding Cipher.encrypt
  encrypt_total cipher k nonce plaintext laws total newest id_fits hn fits =
      let (sealed, good) =
        total.seals k.key (headers_of cipher (be32 k.key_id) nonce) plaintext fits in
      let made : Cipher.encrypt siv cipher (some nonce) plaintext
          ≡ ok (be32 k.key_id ++ (nonce ++ sealed)) =
        rw (newest, good) refl in
      (
        be32 k.key_id ++ (nonce ++ sealed),
        made,
        record {
          opens =
              decrypt-encrypt siv laws cipher nonce plaintext (be32 k.key_id ++ (nonce ++ sealed)) k
                newest id_fits hn made;
          size =
              length-encrypt siv cipher nonce plaintext (be32 k.key_id ++ (nonce ++ sealed)) laws hn
                made;
        },
      )

  seal_cookies-round :
      (cipher : CookieCipher) (random : ℕ → Option (List ℕ)) (plaintext cookie : List ℕ)
      (i rounds : ℕ) (done : List (List ℕ))
      → Cipher.encrypt siv cipher (random i) plaintext ≡ ok cookie
      → seal_cookies siv cipher random plaintext i (suc rounds) done
        ≡ seal_cookies siv cipher random plaintext (i + 1) rounds (done ++ cookie ∷ [])
  unfolding seal_cookies
  seal_cookies-round cipher random plaintext cookie i rounds done made =
      rw (seal_cookies, made) refl

  -- The loop seals as many cookies as it has rounds.
  pub seal_cookies_total :
      (cipher : CookieCipher) (k : CookieKey) (random : ℕ → Option (List ℕ)) (plaintext : List ℕ)
      (i rounds : ℕ) (done : List (List ℕ))
      → IsSiv siv
      → IsSealing siv
      → IsRandom random
      → last_key cipher.keys ≡ some k
      → IsU32 k.key_id
      → length plaintext < 2 ^ 16
      → All (IsCookieOf cipher plaintext) done
      → (cookies : List (List ℕ)) × (seal_cookies siv cipher random plaintext i rounds done
          ≡ ok cookies)
        × (length cookies ≡ length done + rounds)
        × All (IsCookieOf cipher plaintext) cookies
  unfolding seal_cookies
  seal_cookies_total cipher k random plaintext i zero done laws total draws newest id_fits fits h =
      (done, refl, omega arith, h)
  seal_cookies_total cipher k random plaintext i (suc rounds) done laws total draws newest id_fits
        fits h =
      let (nonce, drawn, hn) = draws.draws i in
      let (cookie, made, good) =
        encrypt_total cipher k nonce plaintext laws total newest id_fits hn fits in
      let (cookies, rest, count, all) =
        seal_cookies_total cipher k random plaintext (i + 1) rounds (done ++ cookie ∷ []) laws total
          draws newest id_fits fits
          (All-append (IsCookieOf cipher plaintext) done (cookie ∷ []) h (good, _)) in
      (
        cookies,
        seal_cookies-round cipher random plaintext cookie i rounds done
              (ap (λ t. Cipher.encrypt siv cipher t plaintext) drawn ∙ made)
            ∙ rest,
        omega (arith, count, length-append done (cookie ∷ [])),
        all,
      )
