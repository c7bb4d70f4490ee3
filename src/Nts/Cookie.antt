-- ===== src/Nts/Cookie.antt =====
-- `NtsCookie` of nts_cookie.rs: the plaintext form, sealing with a time stamp, and expiry.
pub mod RoundTrip
pub mod Expiry
use ntpsec_rs.Prelude.{
  ℕ, ◌+◌, ◌-◌, ◌*◌, ◌^◌, ◌||◌, Option, none, some, List, [], ◌∷◌, ◌++◌, length, ltb, ◌==◌,
  if◌then◌else◌, Bool, true, false, not, Result, ok, err, ◌>>=◌,
}
use ntpsec_rs.Prelude.Int.{ℤ, pos, pos_part, ltb_ℤ, u64_of_ℤ, i64_of_u64, sub64}
use ntpsec_rs.Prelude.Bytes.{be16, be32, be64, from_be16, from_be32, byte_at, slice}
use ntpsec_rs.Types.{NtpTs64}
use ntpsec_rs.Fp.{ts_to_ntp, ntp_to_unix_offset}
use ntpsec_rs.Nts.Siv.{Siv}

-- The first three are arrays of 32 bytes.
pub record NtsCookie : Type 0 where
  pub server_id : List ℕ
  pub c2s_key : List ℕ
  pub s2c_key : List ℕ
  pub timestamp : NtpTs64
  pub aead : ℕ

pub data CookieError : Type 0 where
  bad_key_length ciphertext_too_short seal_failed open_failed plaintext_too_short : CookieError
  expired : ℤ → CookieError

abbrev pub cookie_plaintext_min : ℕ
cookie_plaintext_min = 110

abbrev pub nts_cookie_max_age : ℕ
nts_cookie_max_age = 86400

unfoldable pub encode_plaintext : NtsCookie → List ℕ
encode_plaintext c =
    c.server_id
    ++ (c.c2s_key
        ++ (c.s2c_key
            ++ (be64 (u64_of_ℤ c.timestamp.seconds) ++ (be32 c.timestamp.fraction ++ be16 c.aead))))

abbrev pub u32_at : List ℕ → ℕ → ℕ
u32_at bs i =
    from_be32 (byte_at bs i) (byte_at bs (i + 1)) (byte_at bs (i + 2)) (byte_at bs (i + 3))

-- `offset` is 96 after the three arrays, then 104 and 108.
unfoldable pub decode_plaintext : List ℕ → Option NtsCookie
decode_plaintext bytes =
    if ltb (length bytes) cookie_plaintext_min
    then none
    else some (record {
      server_id = slice bytes 0 32;
      c2s_key = slice bytes 32 64;
      s2c_key = slice bytes 64 96;
      timestamp = record {
        seconds = i64_of_u64 (u32_at bytes 96 * 2 ^ 32 + u32_at bytes 100);
        fraction = u32_at bytes 104;
      };
      aead = from_be16 (byte_at bytes 108) (byte_at bytes 109);
    })

-- What `SystemTime::now` gives, since the Unix epoch.
pub record SystemTime : Type 0 where
  pub secs : ℕ
  pub nanos : ℕ

abbrev pub or_err {ℓ} : {A : Type ℓ} → CookieError → Option A → Result CookieError A
or_err e none = err e
or_err e (some a) = ok a

-- `now_ntp - cookie.timestamp.seconds`
unfoldable pub cookie_age : SystemTime → NtsCookie → ℤ
cookie_age now c = sub64 (pos (now.secs + ntp_to_unix_offset)) c.timestamp.seconds

unfoldable pub check_age : SystemTime → NtsCookie → Result CookieError NtsCookie
unfolding cookie_age
check_age now c =
    let age = cookie_age now c in
    if ltb_ℤ age (pos 0) || ltb nts_cookie_max_age (pos_part age) then err (expired age) else ok c

unfoldable pub stamped : SystemTime → NtsCookie → NtsCookie
stamped now c = record c { timestamp = ts_to_ntp (pos now.secs) (pos now.nanos) }

module _ (siv : Siv) where
  unfoldable pub encrypt : SystemTime → NtsCookie → List ℕ → Result CookieError (List ℕ)
  encrypt now c server_key =
      if not (length server_key == 32)
      then err bad_key_length
      else or_err seal_failed (siv.encrypt server_key [] (encode_plaintext (stamped now c)))

  unfoldable pub decrypt : SystemTime → List ℕ → List ℕ → Result CookieError NtsCookie
  decrypt now sealed server_key =
      if not (length server_key == 32)
      then err bad_key_length
      else if ltb (length sealed) 16
      then err ciphertext_too_short
      else do
        plaintext ← or_err open_failed (siv.decrypt server_key [] sealed)
        cookie ← or_err plaintext_too_short (decode_plaintext plaintext)
        check_age now cookie
