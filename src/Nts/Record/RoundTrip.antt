-- ===== src/Nts/Record/RoundTrip.antt =====
-- Record sequences are read back, and what is read is what was there.
use ntpsec_rs.Prelude.{
  ℕ, zero, suc, ◌+◌, ◌-◌, ◌/◌, ◌%◌, ◌^◌, ◌≤◌, ◌<◌, ◌≡◌, refl, sym, ◌∙◌, ap, Option, none, some,
  List, [], ◌∷◌, ◌++◌, arith, length, is_empty, take, drop, append-nil, append_assoc, length-append,
  take-append, drop-append, length-take, length-drop, subst, some_eq, ◌⊎◌, take-append-drop, false,
  All, All-drop, Option-cases, inl, inr,
}
use ntpsec_rs.Prelude.Bytes.{
  IsByte, IsU16, be16, from_be16, from_be16-be16, be16-from_be16, byte_at, slice, from_be16-lt,
}
use ntpsec_rs.Nts.Record.{NtsKeRecord, encode, decode, after_record, decode_loop, decode_all}

pub record IsRecord (r : NtsKeRecord) : Type 0 where
  pub record_type : IsU16 r.record_type
  pub fits : IsU16 (length r.body)

decode_accepts :
    (bytes : List ℕ) (n : ℕ)
    → from_be16 (byte_at bytes 2) (byte_at bytes 3) ≡ n
    → 4 + n ≤ length bytes
    → decode bytes
      ≡ some (
        record {
          record_type = from_be16 (byte_at bytes 0) (byte_at bytes 1);
          body = slice bytes 4 (4 + n);
        },
        drop (4 + n) bytes,
      )
unfolding decode
decode_accepts bytes n e h = rw e (ground arith)

-- One encoded record is read back, and what follows it is left.
pub record_decode-encode :
    (r : NtsKeRecord) (rest : List ℕ) → IsRecord r → decode (encode r ++ rest) ≡ some (r, rest)
unfolding encode
record_decode-encode r rest h =
    decode_accepts wire n len_field (omega (arith, length-append r.body rest)) ∙ λ i. some (
      record { record_type = from_be16-be16 r.record_type h.record_type i; body = body_kept i },
      rest_kept i,
    )
  where
    n : ℕ
    n = length r.body

    wire : List ℕ
    wire = be16 r.record_type ++ (be16 (n % 2 ^ 16) ++ (r.body ++ rest))

    len_field : from_be16 (n % 2 ^ 16 / 2 ^ 8 % 256) (n % 2 ^ 16 % 256) ≡ n
    len_field =
        from_be16-be16 (n % 2 ^ 16) (omega arith) ∙ (let fits : n < 2 ^ 16 = h.fits in omega arith)

    body_kept : slice wire 4 (4 + n) ≡ r.body
    body_kept = ap (λ k. take k (r.body ++ rest)) (omega arith) ∙ take-append r.body rest

    rest_kept : drop (4 + n) wire ≡ rest
    rest_kept =
        let four : 4 + n ≡ suc (suc (suc (suc n))) = omega arith in
        ap (λ k. drop k wire) four ∙ drop-append r.body rest

abbrev pub encode_all : List NtsKeRecord → List ℕ
encode_all [] = []
encode_all (r ∷ rs) = encode r ++ encode_all rs

is_empty-encode : (r : NtsKeRecord) (rest : List ℕ) → is_empty (encode r ++ rest) ≡ false
unfolding encode
is_empty-encode r rest = refl

length-encode : (r : NtsKeRecord) → length (encode r) ≡ 4 + length r.body
unfolding encode
length-encode r = omega arith

decode_loop-encode_all :
    (rs done : List NtsKeRecord) (fuel : ℕ)
    → All IsRecord rs
    → length (encode_all rs) < fuel
    → decode_loop fuel (encode_all rs) done ≡ some (done ++ rs, [])
unfolding decode_loop
decode_loop-encode_all rs done zero h k = absurd (omega arith)
decode_loop-encode_all [] done (suc fuel) h k = ap (λ t. some (t, [])) (sym (append-nil done))
decode_loop-encode_all (r ∷ rs) done (suc fuel) (hr, hs) k =
    rw (is_empty-encode, record_decode-encode r (encode_all rs) hr)
      (decode_loop-encode_all rs (done ++ r ∷ []) fuel hs
          (omega (arith, length-encode r, length-append (encode r) (encode_all rs)))
        ∙ ap (λ t. some (t, [])) (append_assoc done (r ∷ []) rs))

-- A sequence of encoded records that fit their length fields is read back, with nothing left.
pub decode_all-encode_all :
    (rs : List NtsKeRecord) → All IsRecord rs → decode_all (encode_all rs) ≡ some (rs, [])
unfolding decode_all
decode_all-encode_all rs h =
    decode_loop-encode_all rs [] (suc (length (encode_all rs))) h (omega arith)

-- What was read as a record is its encoding and what follows.
record IsFirst (bytes : List ℕ) (r : NtsKeRecord) (rest : List ℕ) : Type 0 where
  pub whole : encode r ++ rest ≡ bytes
  pub bytes_left : All IsByte rest
  pub shorter : length rest < length bytes

cut-IsFirst :
    (a b c d : ℕ) (tail : List ℕ)
    → All IsByte (a ∷ b ∷ c ∷ d ∷ tail)
    → from_be16 c d ≤ length tail
    → IsFirst
        (a ∷ b ∷ c ∷ d ∷ tail)
        (record { record_type = from_be16 a b; body = take (from_be16 c d) tail })
        (drop (from_be16 c d) tail)
unfolding encode
cut-IsFirst a b c d tail (ha, (hb, (hc, (hd, ht)))) h = record {
  whole = λ i. be16-from_be16 a b ha hb i ++ (len i ++ take-append-drop n tail i);
  bytes_left = All-drop IsByte n tail ht;
  shorter = omega (arith, length-drop n tail);
}
  where
    n : ℕ
    n = from_be16 c d

    len : be16 (length (take n tail) % 2 ^ 16) ≡ c ∷ d ∷ []
    len =
        ap (λ m. be16 (m % 2 ^ 16)) (length-take n tail h)
        ∙ ap be16 (omega (arith, from_be16-lt c d hc hd))
        ∙ be16-from_be16 c d hc hd

encode-decode :
    (bytes : List ℕ) (r : NtsKeRecord) (rest : List ℕ)
    → All IsByte bytes
    → decode bytes ≡ some (r, rest)
    → IsFirst bytes r rest
unfolding decode
encode-decode [] r rest h e = cc
encode-decode (a ∷ []) r rest h e = cc
encode-decode (a ∷ b ∷ []) r rest h e = cc
encode-decode (a ∷ b ∷ c ∷ []) r rest h e = cc
encode-decode (a ∷ b ∷ c ∷ d ∷ tail) r rest h e =
    subst (λ p. IsFirst bytes p.0 p.1) (some_eq (sym cut ∙ e)) (cut-IsFirst a b c d tail h enough)
  where
    bytes : List ℕ
    bytes = a ∷ b ∷ c ∷ d ∷ tail

    n : ℕ
    n = from_be16 c d

    enough : n ≤ length tail
    enough = ground arith

    four : 4 + n ≡ suc (suc (suc (suc n)))
    four = omega arith

    cut :
        decode bytes
        ≡ some (record { record_type = from_be16 a b; body = take n tail }, drop n tail)
    cut = decode_accepts bytes n refl (omega (arith, enough)) ∙ λ i. some (
      record {
        record_type = from_be16 a b;
        body = ap (λ k. take k tail) (let t : 4 + n - 4 ≡ n = omega arith in t) i;
      },
      drop (four i) bytes,
    )

-- What a decoded sequence holds: its encoding and the bytes that are left are the whole input, and
-- no record can be read from what is left.
pub record IsSequence (bytes : List ℕ) (r : Option (List NtsKeRecord × List ℕ)) : Type 0 where
  pub records : List NtsKeRecord
  pub remain : List ℕ
  pub result : r ≡ some (records, remain)
  pub whole : encode_all records ++ remain ≡ bytes
  pub ends : (remain ≡ []) ⊎ (decode remain ≡ none)

encode_all-append :
    (xs ys : List NtsKeRecord) → encode_all (xs ++ ys) ≡ encode_all xs ++ encode_all ys
encode_all-append [] ys = refl
encode_all-append (x ∷ xs) ys =
    ap (λ t. encode x ++ t) (encode_all-append xs ys)
    ∙ sym (append_assoc (encode x) (encode_all xs) (encode_all ys))

decode_loop-IsSequence :
    (fuel : ℕ) (bytes : List ℕ) (done : List NtsKeRecord)
    → length bytes < fuel
    → All IsByte bytes
    → IsSequence (encode_all done ++ bytes) (decode_loop fuel bytes done)
unfolding decode_loop
decode_loop-IsSequence zero bytes done h b = absurd (omega arith)
decode_loop-IsSequence (suc fuel) [] done h b = record {
  records = done;
  remain = [];
  result = refl;
  whole = refl;
  ends = inl refl;
}
decode_loop-IsSequence (suc fuel) (x ∷ xs) done h b = elim (Option-cases (decode (x ∷ xs))) [
  | inl bad ↦ record {
    records = done;
    remain = x ∷ xs;
    result = rw bad;
    whole = refl;
    ends = inr bad;
  }
  | inr ((r, rest), good) ↦
      let first : IsFirst (x ∷ xs) r rest = encode-decode (x ∷ xs) r rest b good in
      rw (good, after_record)
        (subst (λ t. IsSequence t (decode_loop fuel rest (done ++ r ∷ [])))
          (joined done r rest first)
          (decode_loop-IsSequence fuel rest (done ++ r ∷ []) (omega (arith, first.shorter))
            first.bytes_left))
]
  where
    joined :
        (done : List NtsKeRecord) (r : NtsKeRecord) (rest : List ℕ)
        → IsFirst (x ∷ xs) r rest
        → encode_all (done ++ r ∷ []) ++ rest ≡ encode_all done ++ (x ∷ xs)
    joined done r rest first =
        ap (λ t. t ++ rest)
          (encode_all-append done (r ∷ []) ∙ ap (λ t. encode_all done ++ t) (append-nil (encode r)))
        ∙ append_assoc (encode_all done) (encode r) rest
        ∙ ap (λ t. encode_all done ++ t) first.whole

-- `decode_all` ends on every byte string, loses nothing, and stops only at the end or where no record
-- can be read.
pub decode_all-IsSequence :
    (bytes : List ℕ) → All IsByte bytes → IsSequence bytes (decode_all bytes)
unfolding decode_all
decode_all-IsSequence bytes b = decode_loop-IsSequence (suc (length bytes)) bytes [] (omega arith) b
