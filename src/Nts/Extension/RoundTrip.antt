-- ===== src/Nts/Extension/RoundTrip.antt =====
-- Encoded extension fields are read back, one by one and as a sequence.
use ntpsec_rs.Prelude.{
  ℕ, zero, suc, ◌+◌, ◌/◌, ◌%◌, ◌^◌, ◌≤◌, ◌<◌, ◌≡◌, refl, sym, ◌∙◌, ap, List, [], ◌∷◌, ◌++◌, arith,
  some, false, length, take, drop, replicate, append-nil, append_assoc, length-append,
  length-replicate, take-append, drop-append, All, ltb, is_empty,
}
use ntpsec_rs.Prelude.Bytes.{IsU16, be16, from_be16, from_be16-be16, byte_at, slice}
use ntpsec_rs.Nts.Padding.{round_up4, pad_len, pad_loop, pad_loop_lem}
use ntpsec_rs.Nts.Extension.{
  ExtensionField, encode, decode, decode_loop, decode_all, max_ext_len, max_total_size, after_field,
}

-- What a field has to satisfy to survive the wire.
pub record IsField (f : ExtensionField) : Type 0 where
  pub field_type : IsU16 f.field_type
  pub fits : length f.payload ≤ 4092

abbrev pub wire : ExtensionField → List ℕ → List ℕ
wire f rest =
    be16 f.field_type
    ++ (be16 (length f.payload + 4)
        ++ (f.payload ++ (replicate (pad_len (length f.payload)) 0 ++ rest)))

pad_loop-parts :
    (t l : ℕ) (payload rest : List ℕ)
    → pad_loop 3 (be16 t ++ (be16 l ++ payload)) ++ rest
      ≡ be16 t ++ (be16 l ++ (payload ++ (replicate (pad_len (length payload)) 0 ++ rest)))
pad_loop-parts t l payload rest =
    ap (λ b. b ++ rest) (pad_loop_lem (be16 t ++ (be16 l ++ payload)))
    ∙ ap (λ n. be16 t ++ (be16 l ++ ((payload ++ replicate n 0) ++ rest))) same_pad
    ∙ ap (λ b. be16 t ++ (be16 l ++ b)) (append_assoc payload _ rest)
  where
    same_pad : pad_len (length (be16 t ++ (be16 l ++ payload))) ≡ pad_len (length payload)
    same_pad = omega arith

pub encode-wire :
    (f : ExtensionField) (rest : List ℕ) → length f.payload < 65532 → encode f ++ rest ≡ wire f rest
unfolding encode
encode-wire f rest h =
    pad_loop-parts f.field_type ((length f.payload % 2 ^ 16 + 4) % 2 ^ 16) f.payload rest
    ∙ ap (λ l. be16 f.field_type ++ (be16 l ++ tail)) (omega arith)
  where
    tail : List ℕ
    tail = f.payload ++ (replicate (pad_len (length f.payload)) 0 ++ rest)

decode_accepts :
    (bytes : List ℕ) (n : ℕ)
    → from_be16 (byte_at bytes 2) (byte_at bytes 3) ≡ n
    → 4 ≤ n
    → n ≤ max_ext_len
    → round_up4 n ≤ length bytes
    → decode bytes
      ≡ some (
        record {
          field_type = from_be16 (byte_at bytes 0) (byte_at bytes 1);
          payload = slice bytes 4 n;
        },
        drop (round_up4 n) bytes,
      )
unfolding decode
decode_accepts bytes n e lo hi fits = rw e (ground arith)

decode-wire :
    (f : ExtensionField) (rest : List ℕ) → IsField f → decode (wire f rest) ≡ some (f, rest)
decode-wire f rest h =
    decode_accepts (wire f rest) (length f.payload + 4) len_field (omega arith) (omega arith)
      (omega (arith, total))
    ∙ λ i. some (
      record { field_type = from_be16-be16 f.field_type h.field_type i; payload = payload_kept i },
      rest_kept i,
    )
  where
    zeros : List ℕ
    zeros = replicate (pad_len (length f.payload)) 0

    len_field :
        from_be16 ((length f.payload + 4) / 2 ^ 8 % 256) ((length f.payload + 4) % 256)
        ≡ length f.payload + 4
    len_field = from_be16-be16 (length f.payload + 4) (omega arith)

    total :
        length (wire f rest) ≡ 4 + (length f.payload + (pad_len (length f.payload) + length rest))
    total = omega (
      arith,
      length-append f.payload (zeros ++ rest),
      length-append zeros rest,
      length-replicate {A = ℕ} (pad_len (length f.payload)) 0,
    )

    payload_kept : slice (wire f rest) 4 (length f.payload + 4) ≡ f.payload
    payload_kept =
        ap (λ n. take n (f.payload ++ (zeros ++ rest))) (omega arith)
        ∙ take-append f.payload (zeros ++ rest)

    padded : round_up4 (length f.payload + 4) ≡ suc (suc (suc (suc (length (f.payload ++ zeros)))))
    padded = omega (
      arith,
      length-append f.payload zeros,
      length-replicate {A = ℕ} (pad_len (length f.payload)) 0,
    )

    rest_kept : drop (round_up4 (length f.payload + 4)) (wire f rest) ≡ rest
    rest_kept = rw padded (
        ap (drop (length (f.payload ++ zeros))) (sym (append_assoc f.payload zeros rest))
        ∙ drop-append (f.payload ++ zeros) rest)

-- Decoding reads back one encoded field of up to 4092 payload bytes, and leaves what follows it.
pub field_decode-encode :
    (f : ExtensionField) (rest : List ℕ) → IsField f → decode (encode f ++ rest) ≡ some (f, rest)
field_decode-encode f rest h = ap decode (encode-wire f rest (omega arith)) ∙ decode-wire f rest h

abbrev pub encode_all : List ExtensionField → List ℕ
encode_all [] = []
encode_all (f ∷ fs) = encode f ++ encode_all fs

abbrev pub total_payload : List ExtensionField → ℕ
total_payload [] = 0
total_payload (f ∷ fs) = length f.payload + total_payload fs

encode-length : (f : ExtensionField) → IsField f → 4 ≤ length (encode f)
encode-length f h =
    omega (arith, ap length (encode-wire f [] (omega arith)), length-append (encode f) [])

is_empty-append : (xs ys : List ℕ) → 4 ≤ length xs → is_empty (xs ++ ys) ≡ false
is_empty-append [] ys h = absurd (omega arith)
is_empty-append (x ∷ xs) ys h = refl

decode_loop-encode_all :
    (fs done : List ExtensionField) (fuel total : ℕ)
    → All IsField fs
    → length (encode_all fs) < fuel
    → total + total_payload fs ≤ max_total_size
    → decode_loop fuel (encode_all fs) total done ≡ some (done ++ fs)
unfolding decode_loop
decode_loop-encode_all fs done zero total h k t = absurd (omega arith)
decode_loop-encode_all [] done (suc fuel) total h k t = ap some (sym (append-nil done))
decode_loop-encode_all (f ∷ fs) done (suc fuel) total (hf, hs) k t =
    let within : ltb max_total_size (total + length f.payload) ≡ false = ground arith in
    rw
      (
        is_empty-append (encode f) (encode_all fs) (encode-length f hf),
        field_decode-encode f (encode_all fs) hf,
        after_field,
        within,
      )
      (decode_loop-encode_all fs (done ++ f ∷ []) fuel (total + length f.payload) hs
          (omega (arith, encode-length f hf, length-append (encode f) (encode_all fs)))
          (omega arith)
        ∙ ap some (append_assoc done (f ∷ []) fs))

-- A sequence of encoded fields, of up to 4092 payload bytes each and 65535 together, is read back.
pub fields_decode_all-encode_all :
    (fs : List ExtensionField)
    → All IsField fs
    → total_payload fs ≤ max_total_size
    → decode_all (encode_all fs) ≡ some fs
unfolding decode_all
fields_decode_all-encode_all fs h t =
    decode_loop-encode_all fs [] (suc (length (encode_all fs))) 0 h (omega arith) (omega arith)
