-- ===== src/Nts/Cookie/Expiry.antt =====
-- A sealed cookie is taken for a day, and no longer.
use ntpsec_rs.Prelude.{
  ℕ, ◌+◌, ◌-◌, ◌^◌, ◌<◌, ◌≡◌, sym, ◌∙◌, ap, subst, some, List, [], arith, length, ltb, ◌==◌, ◌||◌,
  if◌then◌else◌, true, false, ok, err, Result, append-nil,
}
use ntpsec_rs.Prelude.Int.{pos, pos_part, neg_part, sub64, add64, IsI64}
use ntpsec_rs.Fp.{ts_to_ntp, unix_to_ntp_secs, ntp_to_unix_offset}
use ntpsec_rs.Nts.Siv.{Siv, IsSiv}
use ntpsec_rs.Nts.Cookie.{
  NtsCookie, SystemTime, CookieError, expired, encode_plaintext, decode_plaintext, encrypt, decrypt,
  stamped, cookie_age, check_age,
}
use ntpsec_rs.Nts.Cookie.RoundTrip.{IsCookie, decode_plaintext-encode_plaintext}

-- A clock that stands after 1970 and far below the range of an `i64`.
pub record IsClock (t : SystemTime) : Type 0 where
  pub secs : t.secs < 2 ^ 61
  pub nanos : t.nanos < 1000000000

seconds_of_clock : (n : ℕ) → n < 2 ^ 61 → unix_to_ntp_secs (pos n) ≡ pos (n + ntp_to_unix_offset)
unfolding unix_to_ntp_secs add64
seconds_of_clock n h = ground arith

age_parts :
    (a b : ℕ)
    → a < 2 ^ 62
    → b < 2 ^ 62
    → (pos_part (sub64 (pos a) (pos b)) ≡ a - b) × (neg_part (sub64 (pos a) (pos b)) ≡ b - a)
unfolding sub64
age_parts a b p q = ground arith

stamped-IsCookie :
    (t : SystemTime) (c : NtsCookie) → IsClock t → IsCookie c → IsCookie (stamped t c)
unfolding stamped ts_to_ntp
stamped-IsCookie t c h k = record {
  server_id = k.server_id;
  c2s_key = k.c2s_key;
  s2c_key = k.s2c_key;
  seconds = subst IsI64 (sym (seconds_of_clock t.secs h.secs)) (omega (arith, h.secs), omega arith);
  fraction = omega arith;
  aead = k.aead;
}

-- The age of a cookie is the difference of the two clocks.
cookie_age-stamped :
    (made now : SystemTime) (c : NtsCookie)
    → IsClock made
    → IsClock now
    → (pos_part (cookie_age now (stamped made c)) ≡ now.secs - made.secs)
      × (neg_part (cookie_age now (stamped made c)) ≡ made.secs - now.secs)
unfolding cookie_age stamped ts_to_ntp
cookie_age-stamped made now c h k = rw (seconds_of_clock made.secs h.secs) (
    let parts =
      age_parts (now.secs + ntp_to_unix_offset) (made.secs + ntp_to_unix_offset)
        (omega (arith, k.secs)) (omega (arith, h.secs)) in
    (parts.0 ∙ omega arith, parts.1 ∙ omega arith))

-- Whether a cookie sealed at `made` is still good at `now`.
abbrev pub check_at : SystemTime → SystemTime → NtsCookie → Result CookieError NtsCookie
check_at made now c =
    if ltb now.secs made.secs || ltb 86400 (now.secs - made.secs)
    then err (expired (cookie_age now (stamped made c)))
    else ok (stamped made c)

check_age-stamped :
    (made now : SystemTime) (c : NtsCookie)
    → IsClock made
    → IsClock now
    → check_age now (stamped made c) ≡ check_at made now c
unfolding check_age
check_age-stamped made now c h k =
    let parts = cookie_age-stamped made now c h k in ground (arith, parts.0, parts.1)

encrypt_ok :
    (siv : Siv) (made : SystemTime) (c : NtsCookie) (server_key sealed : List ℕ)
    → encrypt siv made c server_key ≡ ok sealed
    → ((length server_key == 32) ≡ true)
      × (siv.encrypt server_key [] (encode_plaintext (stamped made c)) ≡ some sealed)
unfolding encrypt
encrypt_ok siv made c server_key sealed e = ground arith

module _ (siv : Siv) (laws : IsSiv siv) where
  -- A cookie sealed at one time and opened at another under the same key comes back, with the first
  -- time as its stamp, if the second is not before the first and at most a day after it; otherwise
  -- it is refused as expired. Both clocks stand after 1970.
  pub cookie_decrypt-encrypt :
      (made now : SystemTime) (c : NtsCookie) (server_key sealed : List ℕ)
      → IsClock made
      → IsClock now
      → IsCookie c
      → encrypt siv made c server_key ≡ ok sealed
      → decrypt siv now sealed server_key ≡ check_at made now c
  unfolding decrypt
  cookie_decrypt-encrypt made now c server_key sealed hm hn hc e =
      rw (key_fits, long, laws.opens server_key [] plaintext sealed sealing.1, kept)
        (check_age-stamped made now c hm hn)
    where
      plaintext : List ℕ
      plaintext = encode_plaintext (stamped made c)

      sealing :
          ((length server_key == 32) ≡ true) × (siv.encrypt server_key [] plaintext ≡ some sealed)
      sealing = encrypt_ok siv made c server_key sealed e

      key_fits : (length server_key == 32) ≡ true
      key_fits = sealing.0

      long : ltb (length sealed) 16 ≡ false
      long = ground (arith, laws.tagged server_key [] plaintext sealed sealing.1)

      kept : decode_plaintext plaintext ≡ some (stamped made c)
      kept =
          ap decode_plaintext (sym (append-nil plaintext))
          ∙ decode_plaintext-encode_plaintext (stamped made c) [] (stamped-IsCookie made c hm hc)
