-- ===== src/Ke/Protect.antt =====
-- What the server protects is authenticated by the holder of the same key.
use ntpsec_rs.Prelude.{
  ℕ, ◌+◌, ◌%◌, ◌^◌, ◌≤◌, ◌≡◌, refl, sym, ◌∙◌, ap, subst, some, List, [], ◌∷◌, ◌++◌, arith, length,
  take, drop, min, ltb, false, ok, append-nil, append_assoc, length-append, take-append,
  drop-append, take-append-drop, Option-cases, Result-cases, inl, inr, ok-injective,
}
use ntpsec_rs.Prelude.Bytes.{be32, be64, IsU32}
use ntpsec_rs.Nts.Siv.{Siv, IsSiv}
use ntpsec_rs.Nts.Cipher.{CookieCipher, CipherError, CookieKey, last_key, headers_of, encrypt}
use ntpsec_rs.Nts.Cipher as Cipher
use ntpsec_rs.Nts.Cipher.RoundTrip.{decrypt-encrypt}
use ntpsec_rs.Nts.Extension.{ExtensionField}
use ntpsec_rs.Nts.Extension as Extension
use ntpsec_rs.Nts.Extension.RoundTrip.{fields_decode_all-encode_all, encode_all}
use ntpsec_rs.Nts.Authenticator.{NtsAuthenticator, authenticator_decode-encode}
use ntpsec_rs.Nts.Authenticator as Authenticator
use ntpsec_rs.Ke.Session.{
  NtsServerSession, new, cookie_type, authenticator_type, ntp_header_size, find_field,
  encoded_before, build_nts_aad, build_cookie_plaintext, outgoing_aad, authenticate_request,
  append_authenticator, append_cookie, protect_response,
}

outgoing_aad_lem : (packet : List ℕ) → outgoing_aad packet ≡ packet
unfolding outgoing_aad
outgoing_aad_lem packet = take-append-drop (min ntp_header_size (length packet)) packet

-- The two fields that `protect_response` appends.
abbrev pub cookie_field : List ℕ → ExtensionField
cookie_field blob = record { field_type = cookie_type; payload = blob }

abbrev pub authenticator_field : ℕ → List ℕ → ExtensionField
authenticator_field sequence ciphertext = record {
  field_type = authenticator_type;
  payload = Authenticator.encode (record { nonce = be64 sequence; ciphertext = ciphertext });
}

length-authenticator :
    (sequence : ℕ) (ciphertext : List ℕ)
    → length ciphertext ≡ 16
    → length (Authenticator.encode (record { nonce = be64 sequence; ciphertext = ciphertext })) ≡ 28
length-authenticator sequence ciphertext h = omega (
  arith,
  Authenticator.length-encode (record { nonce = be64 sequence; ciphertext = ciphertext }),
  h,
)

length-cookie_plaintext :
    (aead : ℕ) (c2s s2c : List ℕ)
    → length c2s ≡ 32
    → length s2c ≡ 32
    → length (build_cookie_plaintext aead c2s s2c) ≡ 66
unfolding build_cookie_plaintext
length-cookie_plaintext aead c2s s2c hc hs = omega (arith, length-append c2s s2c, hc, hs)

-- A packet as it goes out: the header, the cookie, the authenticator.
abbrev pub protected : List ℕ → List ℕ → ℕ → List ℕ → List ℕ
protected packet blob sequence ciphertext =
    (packet ++ Extension.encode (cookie_field blob))
    ++ Extension.encode (authenticator_field sequence ciphertext)

abbrev pub fields_of : List ℕ → ℕ → List ℕ → List ExtensionField
fields_of blob sequence ciphertext =
    cookie_field blob ∷ authenticator_field sequence ciphertext ∷ []

protected-split :
    (packet blob : List ℕ) (sequence : ℕ) (ciphertext : List ℕ)
    → protected packet blob sequence ciphertext
      ≡ packet ++ encode_all (fields_of blob sequence ciphertext)
protected-split packet blob sequence ciphertext =
    append_assoc packet (Extension.encode (cookie_field blob))
      (Extension.encode (authenticator_field sequence ciphertext))
    ∙ ap (λ t. packet ++ (Extension.encode (cookie_field blob) ++ t))
        (sym (append-nil (Extension.encode (authenticator_field sequence ciphertext))))

take_48 : (x rest : List ℕ) → length x ≡ 48 → take 48 (x ++ rest) ≡ x
take_48 x rest h = ap (λ n. take n (x ++ rest)) (sym h) ∙ take-append x rest

drop_48 : (x rest : List ℕ) → length x ≡ 48 → drop 48 (x ++ rest) ≡ rest
drop_48 x rest h = ap (λ n. drop n (x ++ rest)) (sym h) ∙ drop-append x rest

decode_all-protected :
    (packet blob : List ℕ) (sequence : ℕ) (ciphertext : List ℕ)
    → length packet ≡ 48
    → length blob ≤ 4092
    → length ciphertext ≡ 16
    → Extension.decode_all (drop 48 (protected packet blob sequence ciphertext))
      ≡ some (fields_of blob sequence ciphertext)
decode_all-protected packet blob sequence ciphertext h hb hc =
    ap (λ t. Extension.decode_all (drop 48 t)) (protected-split packet blob sequence ciphertext)
    ∙ ap Extension.decode_all (drop_48 packet _ h)
    ∙ fields_decode_all-encode_all (fields_of blob sequence ciphertext)
        (
          record { field_type = omega arith; fits = hb },
          (
            record {
              field_type = omega arith;
              fits = omega (arith, length-authenticator sequence ciphertext hc);
            },
            _,
          ),
        )
        (omega (arith, length-authenticator sequence ciphertext hc))

aad-protected :
    (packet blob : List ℕ) (sequence : ℕ) (ciphertext : List ℕ)
    → length packet ≡ 48
    → build_nts_aad
        (protected packet blob sequence ciphertext)
        (fields_of blob sequence ciphertext)
        authenticator_type
      ≡ ok (packet ++ Extension.encode (cookie_field blob))
unfolding build_nts_aad encoded_before
aad-protected packet blob sequence ciphertext h =
    rw (long, protected-split packet blob sequence ciphertext, take_48 packet rest h)
      (ap (λ t. ok (packet ++ t)) (append-nil (Extension.encode (cookie_field blob))))
  where
    rest : List ℕ
    rest = encode_all (fields_of blob sequence ciphertext)

    long : ltb (length (protected packet blob sequence ciphertext)) 48 ≡ false
    long = ground (
      arith,
      ap length (protected-split packet blob sequence ciphertext),
      length-append packet rest,
    )

module _ (siv : Siv) where
  -- An envelope is 36 bytes longer than what it seals.
  pub length-encrypt :
      (cipher : CookieCipher) (nonce plaintext envelope : List ℕ)
      → IsSiv siv
      → length nonce ≡ 16
      → encrypt siv cipher (some nonce) plaintext ≡ ok envelope
      → length envelope ≡ 36 + length plaintext
  unfolding encrypt
  length-encrypt cipher nonce plaintext envelope laws hn e =
      elim (Option-cases (last_key cipher.keys)) [
        | inl bad ↦ cc (rw bad at e)
        | inr (k, good) ↦
            let headers = headers_of cipher (be32 k.key_id) nonce in
            elim (Option-cases (siv.encrypt k.key headers plaintext)) [
              | inl bad ↦ cc (rw (good, bad) at e)
              | inr (sealed, fine) ↦
                  subst (λ t. length t ≡ 36 + length plaintext)
                    (ok-injective (rw (good, fine) at e))
                    (omega (
                      arith,
                      length-append nonce sealed,
                      hn,
                      laws.tagged k.key headers plaintext sealed fine,
                    ))
            ]
      ]

  -- What the holder of the key sees of a packet that was protected with it.
  authenticate-protected :
      (packet blob ciphertext key other : List ℕ) (sequence : ℕ)
      → IsSiv siv
      → length packet ≡ 48
      → length ciphertext ≡ 16
      → siv.encrypt key ((packet ++ Extension.encode (cookie_field blob)) ∷ be64 sequence ∷ []) []
        ≡ some ciphertext
      → authenticate_request siv
          (new key other)
          (protected packet blob sequence ciphertext)
          (fields_of blob sequence ciphertext)
        ≡ ok tt
  unfolding authenticate_request find_field new
  authenticate-protected packet blob ciphertext key other sequence laws h hc sealed = rw (
    read_back,
    aad-protected packet blob sequence ciphertext h,
    laws.opens key ((packet ++ Extension.encode (cookie_field blob)) ∷ be64 sequence ∷ []) []
        ciphertext sealed,
  )
    where
      a : NtsAuthenticator
      a = record { nonce = be64 sequence; ciphertext = ciphertext }

      read_back : Authenticator.decode (Authenticator.encode a) ≡ some a
      read_back =
          ap Authenticator.decode (sym (append-nil (Authenticator.encode a)))
          ∙ authenticator_decode-encode a [] (omega arith) (omega (arith, hc))

  -- What `protect_response` returns when it succeeds.
  record IsProtected (packet blob : List ℕ) (s : NtsServerSession) (r : List ℕ × NtsServerSession)
      : Type 0 where
    pub ciphertext : List ℕ
    pub packet_out : r.0 ≡ protected packet blob s.sequence ciphertext
    pub session_out : r.1 ≡ record s { sequence = (s.sequence + 1) % 2 ^ 64 }
    pub blob_size : length blob ≡ 102
    pub tag_size : length ciphertext ≡ 16
    pub sealed :
        siv.encrypt s.s2c_key
          ((packet ++ Extension.encode (cookie_field blob)) ∷ be64 s.sequence ∷ [])
          []
        ≡ some ciphertext

  append_cookie-IsProtected :
      (packet blob : List ℕ) (s : NtsServerSession)
      → IsSiv siv
      → length blob ≡ 102
      → (append_cookie siv (ok blob) packet s).0 ≡ ok tt
      → IsProtected packet blob s (append_cookie siv (ok blob) packet s).1
  unfolding append_cookie append_authenticator
  append_cookie-IsProtected packet blob s laws hb done =
      elim (Option-cases (siv.encrypt s.s2c_key (outgoing_aad with_cookie ∷ nonce ∷ []) [])) [
        | inl bad ↦ cc (rw bad at done)
        | inr (ciphertext, good) ↦ rw good (record {
          ciphertext = ciphertext;
          packet_out = refl;
          session_out = refl;
          blob_size = hb;
          tag_size =
              laws.tagged s.s2c_key (outgoing_aad with_cookie ∷ nonce ∷ []) [] ciphertext good
              ∙ refl;
          sealed =
              subst (λ t. siv.encrypt s.s2c_key (t ∷ nonce ∷ []) [] ≡ some ciphertext)
                (outgoing_aad_lem with_cookie) good;
        })
      ]
    where
      nonce : List ℕ
      nonce = be64 s.sequence

      with_cookie : List ℕ
      with_cookie = packet ++ Extension.encode (cookie_field blob)

  -- What the receiver of a protected packet finds: the two fields, a cookie that the server opens
  -- again to the two keys, and an authenticator that the key of the sender accepts.
  pub record IsAuthentic (cipher : CookieCipher) (aead : ℕ) (s : NtsServerSession)
      (r : List ℕ × NtsServerSession) : Type 0 where
    pub blob : List ℕ
    pub fields : List ExtensionField
    pub decoded : Extension.decode_all (drop 48 r.0) ≡ some fields
    pub cookie : find_field cookie_type fields ≡ some (cookie_field blob)
    pub opened :
        Cipher.decrypt siv cipher blob ≡ ok (build_cookie_plaintext aead s.c2s_key s.s2c_key)
    pub authentic : authenticate_request siv (new s.s2c_key s.c2s_key) r.0 fields ≡ ok tt
    pub session_out : r.1 ≡ record s { sequence = (s.sequence + 1) % 2 ^ 64 }

  IsProtected-IsAuthentic :
      (cipher : CookieCipher) (aead : ℕ) (packet blob : List ℕ) (s : NtsServerSession)
      (r : List ℕ × NtsServerSession) (h : IsProtected packet blob s r)
      → IsSiv siv
      → length packet ≡ 48
      → Cipher.decrypt siv cipher blob ≡ ok (build_cookie_plaintext aead s.c2s_key s.s2c_key)
      → IsAuthentic cipher aead s r
  unfolding find_field
  IsProtected-IsAuthentic cipher aead packet blob s r h laws size opens = record {
    blob = blob;
    fields = fields_of blob s.sequence h.ciphertext;
    decoded =
        ap (λ t. Extension.decode_all (drop 48 t)) h.packet_out
        ∙ decode_all-protected packet blob s.sequence h.ciphertext size (omega (arith, h.blob_size))
            h.tag_size;
    cookie = refl;
    opened = opens;
    authentic =
        ap
          (λ t.
            authenticate_request siv (new s.s2c_key s.c2s_key) t
              (fields_of blob s.sequence h.ciphertext))
          h.packet_out
        ∙ authenticate-protected packet blob h.ciphertext s.s2c_key s.c2s_key s.sequence laws size
            h.tag_size h.sealed;
    session_out = h.session_out;
  }

  -- A bare header that a session with 32-byte keys protects without an error, with a cipher that has
  -- a key and a 16-byte nonce, is read back as a cookie that opens to the keys of the session and an
  -- authenticator that the key of the sender accepts, and the sequence number has advanced; under
  -- the laws of AES-SIV.
  pub protect_response-IsAuthentic :
      (cipher : CookieCipher) (k : CookieKey) (nonce : List ℕ) (aead : ℕ) (packet : List ℕ)
      (s : NtsServerSession)
      → IsSiv siv
      → last_key cipher.keys ≡ some k
      → IsU32 k.key_id
      → length nonce ≡ 16
      → length packet ≡ 48
      → length s.c2s_key ≡ 32
      → length s.s2c_key ≡ 32
      → (protect_response siv cipher (some nonce) aead packet s).0 ≡ ok tt
      → IsAuthentic cipher aead s (protect_response siv cipher (some nonce) aead packet s).1
  unfolding protect_response
  protect_response-IsAuthentic cipher k nonce aead packet s laws newest id_fits hn hp hc hs done =
      elim (Result-cases (encrypt siv cipher (some nonce) plaintext)) [
        | inl (e, bad) ↦ cc (rw (bad, append_cookie) at done)
        | inr (blob, good) ↦ rw good (
            let size : length blob ≡ 102 = omega (
              arith,
              length-encrypt cipher nonce plaintext blob laws hn good,
              length-cookie_plaintext aead s.c2s_key s.s2c_key hc hs,
            ) in
            let p = append_cookie-IsProtected packet blob s laws size (rw good at done) in
            IsProtected-IsAuthentic cipher aead packet blob s
              (append_cookie siv (ok blob) packet s).1 p laws hp
              (decrypt-encrypt siv laws cipher nonce plaintext blob k newest id_fits hn good))
      ]
    where
      plaintext : List ℕ
      plaintext = build_cookie_plaintext aead s.c2s_key s.s2c_key
