-- ===== src/Types/RoundTrip.antt =====
-- The header codec is a bijection between packets and 48 bytes.
use ntpsec_rs.Prelude.{
  ℕ, ◌+◌, ◌<◌, ◌≡◌, sym, ◌∙◌, ap, List, [], ◌∷◌, ◌++◌, arith, length, take, ok, All, ltb,
  Bool-cases, inl, inr, ok-injective,
}
use ntpsec_rs.Prelude.Int.{ℤ, pos, negsuc, pos_part, neg_part}
use ntpsec_rs.Prelude.Bytes.{
  IsByte, be32, from_be32-be32, be32-from_be32, byte_at, window, window-eq-take, IsByte-byte_at,
}
use ntpsec_rs.Types.{NtpTs, NtpPacket, IsTs, IsPacket, u8_of_i8, i8_of_u8}
use ntpsec_rs.Types.Header.{encode_header, decode_header, u32_at, header_at}

i8_of_u8-u8_of_i8 : (z : ℤ) → pos_part z < 128 → neg_part z < 129 → i8_of_u8 (u8_of_i8 z) ≡ z
unfolding i8_of_u8 u8_of_i8
i8_of_u8-u8_of_i8 (pos n) h k = ground arith
i8_of_u8-u8_of_i8 (negsuc n) h k = ground arith

u8_of_i8-i8_of_u8 : (b : ℕ) → IsByte b → u8_of_i8 (i8_of_u8 b) ≡ b
unfolding i8_of_u8 u8_of_i8
u8_of_i8-i8_of_u8 b h = ground arith

abbrev read_back : NtpTs → NtpTs
read_back t = record { seconds = u32_at (be32 t.seconds) 0; fraction = u32_at (be32 t.fraction) 0 }

-- Decoding the encoded header of a packet whose fields fit their types gives the packet back.
pub decode_header-encode_header :
    (p : NtpPacket) → IsPacket p → decode_header (encode_header p) ≡ ok p
unfolding encode_header decode_header
decode_header-encode_header p h = λ i. ok (record {
  li_vn_mode = p.li_vn_mode;
  stratum = p.stratum;
  poll = p.poll;
  precision = i8_of_u8-u8_of_i8 p.precision h.precision_pos h.precision_neg i;
  root_delay = from_be32-be32 p.root_delay h.root_delay i;
  root_dispersion = from_be32-be32 p.root_dispersion h.root_dispersion i;
  reference_id = from_be32-be32 p.reference_id h.reference_id i;
  reference_ts = ts p.reference_ts h.reference_ts i;
  originate_ts = ts p.originate_ts h.originate_ts i;
  receive_ts = ts p.receive_ts h.receive_ts i;
  transmit_ts = ts p.transmit_ts h.transmit_ts i;
})
  where
    ts : (t : NtpTs) → IsTs t → read_back t ≡ t
    ts t ht = λ i. record {
      seconds = from_be32-be32 t.seconds ht.seconds i;
      fraction = from_be32-be32 t.fraction ht.fraction i;
    }

encode_header-header_at :
    (bytes : List ℕ) → All IsByte bytes → encode_header (header_at bytes) ≡ window bytes 0 48
unfolding encode_header
encode_header-header_at bytes h = λ i.
    byte_at bytes 0
    ∷ byte_at bytes 1
    ∷ byte_at bytes 2
    ∷ u8_of_i8-i8_of_u8 (byte_at bytes 3) (IsByte-byte_at bytes 3 h) i
    ∷ (group 4 i
        ++ (group 8 i
            ++ (group 12 i
                ++ ((group 16 i ++ group 20 i)
                    ++ ((group 24 i ++ group 28 i)
                        ++ ((group 32 i ++ group 36 i) ++ (group 40 i ++ group 44 i)))))))
  where
    group :
        (k : ℕ)
        → be32 (u32_at bytes k)
          ≡ byte_at bytes k
            ∷ byte_at bytes (k + 1)
            ∷ byte_at bytes (k + 2)
            ∷ byte_at bytes (k + 3)
            ∷ []
    group k =
        be32-from_be32 _ _ _ _ (IsByte-byte_at bytes k h) (IsByte-byte_at bytes (k + 1) h)
          (IsByte-byte_at bytes (k + 2) h) (IsByte-byte_at bytes (k + 3) h)

-- Encoding the header that is read from a string of bytes gives its first 48 bytes back.
pub encode_header-decode_header :
    (bytes : List ℕ) (p : NtpPacket)
    → All IsByte bytes
    → decode_header bytes ≡ ok p
    → encode_header p ≡ take 48 bytes
unfolding decode_header
encode_header-decode_header bytes p h e = elim (Bool-cases (ltb (length bytes) 48)) [
  | inl short ↦ cc (short, e)
  | inr long ↦
      ap encode_header (sym (ok-injective (rw long at e)))
      ∙ encode_header-header_at bytes h
      ∙ window-eq-take 48 bytes (ground arith)
]
