-- ===== src/Nts/Cookie/RoundTrip.antt =====
-- The plaintext form of a cookie is read back.
use ntpsec_rs.Prelude.{
  ℕ, zero, suc, ◌+◌, ◌*◌, ◌/◌, ◌%◌, ◌^◌, ◌<◌, ◌≡◌, sym, ◌∙◌, ap, some, List, [], ◌∷◌, ◌++◌, arith,
  length, take, drop, length-append, append_assoc, take-append, ltb, false,
}
use ntpsec_rs.Prelude.Int.{IsI64, u64_of_ℤ, i64_of_u64, i64_of_u64-u64_of_ℤ, u64_of_ℤ-lt}
use ntpsec_rs.Prelude.Bytes.{
  IsU16, IsU32, be16, be32, be64, from_be16, from_be32, from_be16-be16, from_be32-be32, byte_at,
  slice,
}
use ntpsec_rs.Nts.Cookie.{NtsCookie, encode_plaintext, decode_plaintext, u32_at}

-- The ranges of the Rust field types.
pub record IsCookie (c : NtsCookie) : Type 0 where
  pub server_id : length c.server_id ≡ 32
  pub c2s_key : length c.c2s_key ≡ 32
  pub s2c_key : length c.s2c_key ≡ 32
  pub seconds : IsI64 c.timestamp.seconds
  pub fraction : IsU32 c.timestamp.fraction
  pub aead : IsU16 c.aead

get_or-append : (xs ys : List ℕ) (i j : ℕ) → j ≡ length xs + i → byte_at (xs ++ ys) j ≡ byte_at ys i
get_or-append [] ys i j e = ap (byte_at ys) (omega arith)
get_or-append (x ∷ xs) ys i zero e = absurd (omega arith)
get_or-append (x ∷ xs) ys i (suc j) e = get_or-append xs ys i j (omega arith)

drop-append_more : (xs ys : List ℕ) (i j : ℕ) → j ≡ length xs + i → drop j (xs ++ ys) ≡ drop i ys
drop-append_more [] ys i j e = ap (λ t. drop t ys) (omega arith)
drop-append_more (x ∷ xs) ys i zero e = absurd (omega arith)
drop-append_more (x ∷ xs) ys i (suc j) e = drop-append_more xs ys i j (omega arith)

laid : List ℕ → List ℕ → List ℕ → List ℕ → List ℕ
laid a b c tail = a ++ (b ++ (c ++ tail))

-- Reading behind three arrays of 32 bytes.
module _ (a b c tail : List ℕ) (ha : length a ≡ 32) (hb : length b ≡ 32) (hc : length c ≡ 32) where
  byte_at-laid : (i : ℕ) → byte_at (laid a b c tail) (96 + i) ≡ byte_at tail i
  unfolding laid
  byte_at-laid i =
      get_or-append a (b ++ (c ++ tail)) (64 + i) (96 + i) (omega (arith, ha))
      ∙ get_or-append b (c ++ tail) (32 + i) (64 + i) (omega (arith, hb))
      ∙ get_or-append c tail i (32 + i) (omega (arith, hc))

  take_part : (x rest : List ℕ) → length x ≡ 32 → take 32 (x ++ rest) ≡ x
  take_part x rest h = ap (λ n. take n (x ++ rest)) (sym h) ∙ take-append x rest

  first_part : slice (laid a b c tail) 0 32 ≡ a
  unfolding laid
  first_part = take_part a (b ++ (c ++ tail)) ha

  second_part : slice (laid a b c tail) 32 64 ≡ b
  unfolding laid
  second_part =
      ap (take 32) (drop-append_more a (b ++ (c ++ tail)) 0 32 (omega (arith, ha)))
      ∙ take_part b (c ++ tail) hb

  third_part : slice (laid a b c tail) 64 96 ≡ c
  unfolding laid
  third_part =
      ap (take 32) (
        drop-append_more a (b ++ (c ++ tail)) 32 64 (omega (arith, ha))
        ∙ drop-append_more b (c ++ tail) 0 32 (omega (arith, hb)))
      ∙ take_part c tail hc

  length-laid : length (laid a b c tail) ≡ 96 + length tail
  unfolding laid
  length-laid = omega (
    arith,
    length-append a (b ++ (c ++ tail)),
    length-append b (c ++ tail),
    length-append c tail,
    ha,
    hb,
    hc,
  )

-- The last 14 bytes and what follows.
tail_of : NtsCookie → List ℕ → List ℕ
tail_of c rest =
    be64 (u64_of_ℤ c.timestamp.seconds) ++ (be32 c.timestamp.fraction ++ (be16 c.aead ++ rest))

split_plaintext :
    (c : NtsCookie) (rest : List ℕ)
    → encode_plaintext c ++ rest ≡ laid c.server_id c.c2s_key c.s2c_key (tail_of c rest)
unfolding encode_plaintext laid tail_of
split_plaintext c rest =
    append_assoc c.server_id (c.c2s_key ++ (c.s2c_key ++ tail_of c [])) rest
    ∙ ap (λ t. c.server_id ++ t)
        (append_assoc c.c2s_key (c.s2c_key ++ tail_of c []) rest
          ∙ ap (λ t. c.c2s_key ++ t) (append_assoc c.s2c_key (tail_of c []) rest))

u64_of_halves :
    (n hi lo : ℕ) → n < 2 ^ 64 → hi ≡ n / 2 ^ 32 % 2 ^ 32 → lo ≡ n % 2 ^ 32 → hi * 2 ^ 32 + lo ≡ n
u64_of_halves n hi lo h p q = omega arith

-- The plaintext of a cookie, with anything behind it, gives the cookie back.
pub decode_plaintext-encode_plaintext :
    (c : NtsCookie) (rest : List ℕ)
    → IsCookie c
    → decode_plaintext (encode_plaintext c ++ rest) ≡ some c
unfolding decode_plaintext tail_of
decode_plaintext-encode_plaintext c rest h = ap decode_plaintext (split_plaintext c rest) ∙ read
  where
    n : ℕ
    n = u64_of_ℤ c.timestamp.seconds

    wire : List ℕ
    wire = laid c.server_id c.c2s_key c.s2c_key (tail_of c rest)

    at : (i : ℕ) → byte_at wire (96 + i) ≡ byte_at (tail_of c rest) i
    at =
        byte_at-laid c.server_id c.c2s_key c.s2c_key (tail_of c rest) h.server_id h.c2s_key
          h.s2c_key

    high : u32_at wire 96 ≡ n / 2 ^ 32 % 2 ^ 32
    high =
        (λ i. from_be32 (at 0 i) (at 1 i) (at 2 i) (at 3 i))
        ∙ from_be32-be32 (n / 2 ^ 32 % 2 ^ 32) (omega arith)

    low : u32_at wire 100 ≡ n % 2 ^ 32
    low =
        (λ i. from_be32 (at 4 i) (at 5 i) (at 6 i) (at 7 i))
        ∙ from_be32-be32 (n % 2 ^ 32) (omega arith)

    fraction : u32_at wire 104 ≡ c.timestamp.fraction
    fraction =
        (λ i. from_be32 (at 8 i) (at 9 i) (at 10 i) (at 11 i))
        ∙ from_be32-be32 c.timestamp.fraction h.fraction

    aead : from_be16 (byte_at wire 108) (byte_at wire 109) ≡ c.aead
    aead = (λ i. from_be16 (at 12 i) (at 13 i)) ∙ from_be16-be16 c.aead h.aead

    seconds : i64_of_u64 (u32_at wire 96 * 2 ^ 32 + u32_at wire 100) ≡ c.timestamp.seconds
    seconds =
        ap i64_of_u64 (
          u64_of_halves n (u32_at wire 96) (u32_at wire 100) (u64_of_ℤ-lt c.timestamp.seconds) high
            low)
        ∙ i64_of_u64-u64_of_ℤ c.timestamp.seconds h.seconds

    long : ltb (length wire) 110 ≡ false
    long =
        (let whole : length wire ≡ 96 + length (tail_of c rest) =
            length-laid c.server_id c.c2s_key c.s2c_key (tail_of c rest) h.server_id h.c2s_key
              h.s2c_key in
          ground arith)

    read : decode_plaintext wire ≡ some c
    read = rw long (λ i. some (record {
      server_id =
          first_part c.server_id c.c2s_key c.s2c_key (tail_of c rest) h.server_id h.c2s_key
            h.s2c_key i;
      c2s_key =
          second_part c.server_id c.c2s_key c.s2c_key (tail_of c rest) h.server_id h.c2s_key
            h.s2c_key i;
      s2c_key =
          third_part c.server_id c.c2s_key c.s2c_key (tail_of c rest) h.server_id h.c2s_key
            h.s2c_key i;
      timestamp = record { seconds = seconds i; fraction = fraction i };
      aead = aead i;
    }))
