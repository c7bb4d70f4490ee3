-- ===== src/Types/Header.antt =====
-- `encode_header`, `decode_header` and `decode_full` of ntp_types.rs.
use ntpsec_rs.Prelude.{
  ℕ, zero, suc, ◌+◌, ◌*◌, ◌/◌, ◌||◌, Option, none, some, List, [], ◌∷◌, ◌++◌, length, is_empty,
  take, drop, ltb, if◌then◌else◌, Result, ok, err,
}
use ntpsec_rs.Prelude.Bytes.{be32, from_be16, from_be32, byte_at}
use ntpsec_rs.Types.{NtpTs, NtpPacket, u8_of_i8, i8_of_u8}

pub data HeaderError : Type 0 where
  header_too_short : HeaderError

ts_bytes : NtpTs → List ℕ
ts_bytes t = be32 t.seconds ++ be32 t.fraction

-- The array is filled from left to right, so the slices are put one behind the other.
unfoldable pub encode_header : NtpPacket → List ℕ
unfolding ts_bytes u8_of_i8
encode_header p =
    p.li_vn_mode
    ∷ p.stratum
    ∷ p.poll
    ∷ u8_of_i8 p.precision
    ∷ (be32 p.root_delay
        ++ (be32 p.root_dispersion
            ++ (be32 p.reference_id
                ++ (ts_bytes p.reference_ts
                    ++ (ts_bytes p.originate_ts
                        ++ (ts_bytes p.receive_ts ++ ts_bytes p.transmit_ts))))))

-- `u32::from_be_bytes([bytes[i], bytes[i + 1], bytes[i + 2], bytes[i + 3]])`
abbrev pub u32_at : List ℕ → ℕ → ℕ
u32_at bs i =
    from_be32 (byte_at bs i) (byte_at bs (i + 1)) (byte_at bs (i + 2)) (byte_at bs (i + 3))

abbrev pub ts_at : List ℕ → ℕ → NtpTs
ts_at bs i = record { seconds = u32_at bs i; fraction = u32_at bs (i + 4) }

abbrev pub header_at : List ℕ → NtpPacket
header_at bytes = record {
  li_vn_mode = byte_at bytes 0;
  stratum = byte_at bytes 1;
  poll = byte_at bytes 2;
  precision = i8_of_u8 (byte_at bytes 3);
  root_delay = u32_at bytes 4;
  root_dispersion = u32_at bytes 8;
  reference_id = u32_at bytes 12;
  reference_ts = ts_at bytes 16;
  originate_ts = ts_at bytes 24;
  receive_ts = ts_at bytes 32;
  transmit_ts = ts_at bytes 40;
}

unfoldable pub decode_header : List ℕ → Result HeaderError NtpPacket
decode_header bytes = if ltb (length bytes) 48 then err header_too_short else ok (header_at bytes)

-- `& !3` after adding 3: up to a multiple of four.
abbrev pub round_up4 : ℕ → ℕ
round_up4 n = (n + 3) / 4 * 4

-- The loop over the extension fields: `ext_end` and `cursor`. `none` is no Rust value, the fuel has
-- run out.
unfoldable pub walk_fields : ℕ → List ℕ → ℕ → List ℕ → Option (ℕ × List ℕ)
walk_fields zero rest ext_end cursor = none
walk_fields (suc fuel) rest ext_end cursor =
    let remaining = length cursor in
    let field_len = from_be16 (byte_at cursor 2) (byte_at cursor 3) in
    let padded_len = round_up4 field_len in
    let again = walk_fields fuel rest (ext_end + padded_len) (drop (ext_end + padded_len) rest) in
    if ltb remaining 4
    then some (ext_end, cursor)
    else if ltb field_len 4 || ltb remaining field_len
    then some (ext_end, cursor)
    else if ltb remaining padded_len
    then some (ext_end, cursor)
    else again

pub record FullPacket : Type 0 where
  pub header : NtpPacket
  pub ext_fields : List ℕ
  pub mac : Option (List ℕ)

abbrev pub mac_of : List ℕ → Option (List ℕ)
mac_of cursor = if is_empty cursor then none else some cursor

parts_of : NtpPacket → List ℕ → Option (ℕ × List ℕ) → Option FullPacket
parts_of pkt rest none = none
parts_of pkt rest (some (ext_end, cursor)) =
    some (record { header = pkt; ext_fields = take ext_end rest; mac = mac_of cursor })

-- The fields after the header, by a walk with more fuel than there are bytes.
unfoldable pub split_rest : NtpPacket → List ℕ → Option FullPacket
unfolding parts_of
split_rest pkt rest =
    if is_empty rest
    then some (record { header = pkt; ext_fields = []; mac = none })
    else parts_of pkt rest (walk_fields (suc (length rest)) rest 0 rest)

with_header : Result HeaderError NtpPacket → List ℕ → Option FullPacket
unfolding split_rest
with_header (err e) rest = none
with_header (ok pkt) rest = split_rest pkt rest

unfoldable pub decode_full : List ℕ → Option FullPacket
unfolding with_header
decode_full data' =
    if ltb (length data') 48
    then none
    else with_header (decode_header (take 48 data')) (drop 48 data')
