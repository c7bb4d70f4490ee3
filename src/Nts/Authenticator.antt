-- ===== src/Nts/Authenticator.antt =====
-- `NtsAuthenticator` of nts_extens.rs: a nonce and a ciphertext, each padded to four bytes.
use ntpsec_rs.Prelude.{
  ℕ, suc, ◌+◌, ◌/◌, ◌%◌, ◌^◌, ◌≤◌, ◌<◌, ◌≡◌, ◌∙◌, ap, Option, none, some, List, ◌++◌, arith, length,
  take, drop, replicate, append_assoc, length-append, length-replicate, take-append, drop-append,
  ltb, if◌then◌else◌,
}
use ntpsec_rs.Prelude.Bytes.{be16, from_be16, from_be16-be16, byte_at, slice}
use ntpsec_rs.Nts.Padding.{round_up4, pad_len}

pub record NtsAuthenticator : Type 0 where
  pub nonce : List ℕ
  pub ciphertext : List ℕ

padded : List ℕ → List ℕ
padded bytes = bytes ++ replicate (pad_len (length bytes)) 0

unfoldable pub encode : NtsAuthenticator → List ℕ
unfolding padded
encode a =
    be16 (length a.nonce % 2 ^ 16)
    ++ (be16 (length a.ciphertext % 2 ^ 16) ++ (padded a.nonce ++ padded a.ciphertext))

unfoldable pub decode : List ℕ → Option NtsAuthenticator
decode bytes =
    let nonce_end = 4 + from_be16 (byte_at bytes 0) (byte_at bytes 1) in
    let ciphertext_start = round_up4 nonce_end in
    let ciphertext_end = ciphertext_start + from_be16 (byte_at bytes 2) (byte_at bytes 3) in
    if ltb (length bytes) 4
    then none
    else if ltb (length bytes) ciphertext_end
    then none
    else some (record {
      nonce = slice bytes 4 nonce_end;
      ciphertext = slice bytes ciphertext_start ciphertext_end;
    })

decode_accepts :
    (bytes : List ℕ) (n c : ℕ)
    → from_be16 (byte_at bytes 0) (byte_at bytes 1) ≡ n
    → from_be16 (byte_at bytes 2) (byte_at bytes 3) ≡ c
    → round_up4 (4 + n) + c ≤ length bytes
    → decode bytes
      ≡ some (record {
        nonce = slice bytes 4 (4 + n);
        ciphertext = slice bytes (round_up4 (4 + n)) (round_up4 (4 + n) + c);
      })
unfolding decode
decode_accepts bytes n c e k h = rw (e, k) (ground arith)

length-padded : (bytes : List ℕ) → length (padded bytes) ≡ length bytes + pad_len (length bytes)
unfolding padded
length-padded bytes = omega (
  arith,
  length-append {A = ℕ} bytes (replicate (pad_len (length bytes)) 0),
  length-replicate {A = ℕ} (pad_len (length bytes)) 0,
)

pub length-encode :
    (a : NtsAuthenticator)
    → length (encode a)
      ≡ 4
        + (length a.nonce + pad_len (length a.nonce))
        + (length a.ciphertext + pad_len (length a.ciphertext))
unfolding encode
length-encode a = omega (
  arith,
  length-append (padded a.nonce) (padded a.ciphertext),
  length-padded a.nonce,
  length-padded a.ciphertext,
)

take-padded : (bytes rest : List ℕ) → take (length bytes) (padded bytes ++ rest) ≡ bytes
unfolding padded
take-padded bytes rest =
    ap (take (length bytes)) (append_assoc bytes (replicate (pad_len (length bytes)) 0) rest)
    ∙ take-append bytes (replicate (pad_len (length bytes)) 0 ++ rest)

-- An authenticator whose parts fit their 16-bit lengths is read back; bytes behind it are ignored.
pub authenticator_decode-encode :
    (a : NtsAuthenticator) (rest : List ℕ)
    → length a.nonce < 2 ^ 16
    → length a.ciphertext < 2 ^ 16
    → decode (encode a ++ rest) ≡ some a
unfolding encode
authenticator_decode-encode a rest hn hc =
    decode_accepts wire n c (len_field a.nonce hn) (len_field a.ciphertext hc)
      (omega (arith, total))
    ∙ λ i. some (record { nonce = nonce_kept i; ciphertext = ciphertext_kept i })
  where
    n : ℕ
    n = length a.nonce

    c : ℕ
    c = length a.ciphertext

    body : List ℕ
    body = (padded a.nonce ++ padded a.ciphertext) ++ rest

    wire : List ℕ
    wire = be16 (n % 2 ^ 16) ++ (be16 (c % 2 ^ 16) ++ body)

    len_field :
        (bytes : List ℕ)
        → length bytes < 2 ^ 16
        → from_be16 (length bytes % 2 ^ 16 / 2 ^ 8 % 256) (length bytes % 2 ^ 16 % 256)
          ≡ length bytes
    len_field bytes h = from_be16-be16 (length bytes % 2 ^ 16) (omega arith) ∙ omega arith

    total : length wire ≡ 4 + (n + pad_len n + (c + pad_len c) + length rest)
    total = omega (
      arith,
      length-append (padded a.nonce ++ padded a.ciphertext) rest,
      length-append (padded a.nonce) (padded a.ciphertext),
      length-padded a.nonce,
      length-padded a.ciphertext,
    )

    nonce_kept : slice wire 4 (4 + n) ≡ a.nonce
    nonce_kept =
        ap (λ k. take k body) (omega arith)
        ∙ ap (take n) (append_assoc (padded a.nonce) (padded a.ciphertext) rest)
        ∙ take-padded a.nonce (padded a.ciphertext ++ rest)

    start : round_up4 (4 + n) ≡ suc (suc (suc (suc (length (padded a.nonce)))))
    start = omega (arith, length-padded a.nonce)

    ciphertext_kept : slice wire (round_up4 (4 + n)) (round_up4 (4 + n) + c) ≡ a.ciphertext
    ciphertext_kept =
        ap (λ k. take k (drop (round_up4 (4 + n)) wire)) (omega arith)
        ∙ ap (λ k. take c (drop k wire)) start
        ∙ ap (λ b. take c (drop (length (padded a.nonce)) b))
            (append_assoc (padded a.nonce) (padded a.ciphertext) rest)
        ∙ ap (take c) (drop-append (padded a.nonce) (padded a.ciphertext ++ rest))
        ∙ take-padded a.ciphertext rest
