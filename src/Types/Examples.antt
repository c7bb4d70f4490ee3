-- ===== src/Types/Examples.antt =====
-- The theorems on the wire types at concrete inputs.
use ntpsec_rs.Prelude.{ℕ, ◌≡◌, refl, List, [], ◌∷◌, ◌++◌, arith, replicate, take, ok}
use ntpsec_rs.Prelude.Int.{negsuc}
use ntpsec_rs.Types.{NtpTs, NtpPacket, zeroed, IsTs, IsPacket}
use ntpsec_rs.Types.Header.{encode_header, decode_header, decode_full, header_at}
use ntpsec_rs.Types.RoundTrip.{decode_header-encode_header, encode_header-decode_header}
use ntpsec_rs.Types.Split.{IsSplit, decode_full_splits}

abbrev a_time : NtpTs
a_time = record { seconds = 3900000000; fraction = 5 }

abbrev a_packet : NtpPacket
a_packet = record zeroed {
  li_vn_mode = 0x23;
  stratum = 2;
  precision = negsuc 19;
  reference_id = 0x7F000001;
  transmit_ts = a_time;
}

no_time-IsTs : IsTs (record { seconds = 0; fraction = 0 })
no_time-IsTs = record { seconds = omega arith; fraction = omega arith }

a_packet-IsPacket : IsPacket a_packet
a_packet-IsPacket = record {
  li_vn_mode = omega arith;
  stratum = omega arith;
  poll = omega arith;
  precision_pos = omega arith;
  precision_neg = omega arith;
  root_delay = omega arith;
  root_dispersion = omega arith;
  reference_id = omega arith;
  reference_ts = no_time-IsTs;
  originate_ts = no_time-IsTs;
  receive_ts = no_time-IsTs;
  transmit_ts = record { seconds = omega arith; fraction = omega arith };
}

decode_header-encode_header_example : decode_header (encode_header a_packet) ≡ ok a_packet
decode_header-encode_header_example = decode_header-encode_header a_packet a_packet-IsPacket

-- A header and two bytes behind it.
abbrev some_bytes : List ℕ
some_bytes = 0x24 ∷ (replicate 48 7 ++ (1 ∷ []))

some_bytes_decoded : decode_header some_bytes ≡ ok (header_at some_bytes)
unfolding decode_header
some_bytes_decoded = refl

encode_header-decode_header_example : encode_header (header_at some_bytes) ≡ take 48 some_bytes
encode_header-decode_header_example =
    encode_header-decode_header some_bytes (header_at some_bytes) (omega arith) some_bytes_decoded

-- A header, an extension field of eight bytes and a MAC of four.
abbrev full_bytes : List ℕ
full_bytes = replicate 48 7 ++ (1 ∷ 4 ∷ 0 ∷ 8 ∷ 9 ∷ 9 ∷ 9 ∷ 9 ∷ 0 ∷ 0 ∷ 0 ∷ 1 ∷ [])

decode_full_splits_example : IsSplit full_bytes (decode_full full_bytes)
decode_full_splits_example = decode_full_splits full_bytes (omega arith)
