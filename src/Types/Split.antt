-- ===== src/Types/Split.antt =====
-- What `decode_full` makes of the bytes behind the header.
use ntpsec_rs.Prelude.{
  ℕ, suc, ◌%◌, ◌≤◌, ◌≡◌, ◌≢◌, refl, sym, ◌∙◌, ap, List, [], ◌∷◌, ◌++◌, arith, Option, none, some,
  length, take, drop, length-take, take-append, take-append-drop, inl, ok, ltb, false,
}
use ntpsec_rs.Types.Walk.{
  IsCut, AreFields, no_field, IsNoField, walk_fields-IsCut, mac_bytes, mac_bytes-mac_of,
  mac_of-ne-empty,
}
use ntpsec_rs.Types.{NtpPacket}
use ntpsec_rs.Types.Header.{
  FullPacket, decode_header, header_at, walk_fields, split_rest, decode_full, mac_of,
}

record IsRestSplit (pkt : NtpPacket) (rest : List ℕ) (r : Option FullPacket) : Type 0 where
  pub packet : FullPacket
  pub result : r ≡ some packet
  pub header : packet.header ≡ pkt
  pub whole : packet.ext_fields ++ mac_bytes packet.mac ≡ rest
  pub are_fields : AreFields packet.ext_fields
  pub no_more : IsNoField (mac_bytes packet.mac)
  pub aligned : length packet.ext_fields % 4 ≡ 0
  pub mac_present : packet.mac ≢ some []

split_rest_splits : (pkt : NtpPacket) (rest : List ℕ) → IsRestSplit pkt rest (split_rest pkt rest)
unfolding split_rest
split_rest_splits pkt [] = record {
  packet = record { header = pkt; ext_fields = []; mac = none };
  result = refl;
  header = refl;
  whole = refl;
  are_fields = no_field;
  no_more = inl (omega arith);
  aligned = refl;
  mac_present = λ e. cc;
}
split_rest_splits pkt (b ∷ bs) = record {
  packet = record { header = pkt; ext_fields = take cut.at rest; mac = mac_of (drop cut.at rest) };
  result = rw cut.result;
  header = refl;
  whole = ap (λ t. take cut.at rest ++ t) (mac_bytes-mac_of _) ∙ take-append-drop cut.at rest;
  are_fields = rw front cut.are_fields;
  no_more = rw (mac_bytes-mac_of (drop cut.at rest)) cut.no_more;
  aligned = rw front (omega (arith, cut.size, cut.aligned));
  mac_present = mac_of-ne-empty (drop cut.at rest);
}
  where
    rest : List ℕ
    rest = b ∷ bs

    cut : IsCut 0 rest (walk_fields (suc (length rest)) rest 0 rest)
    cut = walk_fields-IsCut (suc (length rest)) rest 0 (omega arith) refl

    front : take cut.at rest ≡ cut.fields
    front =
        ap (λ n. take n rest) (sym cut.size ∙ omega arith)
        ∙ ap (take (length cut.fields)) cut.whole
        ∙ take-append cut.fields (drop cut.at rest)

-- What `decode_full` makes of 48 bytes and more.
pub record IsSplit (bytes : List ℕ) (r : Option FullPacket) : Type 0 where
  pub packet : FullPacket
  pub result : r ≡ some packet
  pub header : decode_header (take 48 bytes) ≡ ok packet.header
  pub whole : take 48 bytes ++ (packet.ext_fields ++ mac_bytes packet.mac) ≡ bytes
  pub are_fields : AreFields packet.ext_fields
  pub no_more : IsNoField (mac_bytes packet.mac)
  pub aligned : length packet.ext_fields % 4 ≡ 0
  pub mac_present : packet.mac ≢ some []

-- `decode_full` succeeds on 48 bytes and more, and then the header, the extension fields and the MAC
-- are the whole input in order. The extension fields are whole fields, each as long as its third and
-- fourth byte say, rounded up to a multiple of four, and no whole field stands at the front of the MAC;
-- a MAC that is there is not empty.
pub decode_full_splits : (bytes : List ℕ) → 48 ≤ length bytes → IsSplit bytes (decode_full bytes)
unfolding decode_full decode_header
decode_full_splits bytes h = record {
  packet = split.packet;
  result = rw (long, long_head) split.result;
  header = rw long_head (ap ok (sym split.header));
  whole = ap (λ t. take 48 bytes ++ t) split.whole ∙ take-append-drop 48 bytes;
  are_fields = split.are_fields;
  no_more = split.no_more;
  aligned = split.aligned;
  mac_present = split.mac_present;
}
  where
    split :
        IsRestSplit
          (header_at (take 48 bytes))
          (drop 48 bytes)
          (split_rest (header_at (take 48 bytes)) (drop 48 bytes))
    split = split_rest_splits (header_at (take 48 bytes)) (drop 48 bytes)

    long : ltb (length bytes) 48 ≡ false
    long = ground arith

    long_head : ltb (length (take 48 bytes)) 48 ≡ false
    long_head = rw (length-take 48 bytes h) refl
