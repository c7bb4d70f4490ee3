-- ===== src/Types/Mac.antt =====
-- A trailing MAC, a key identifier and a digest, as `decode_full` sees it: the walk reads the low half
-- of the key identifier as the length of an extension field.
use ntpsec_rs.Prelude.{
  ℕ, suc, ◌+◌, ◌/◌, ◌%◌, ◌^◌, ◌≤◌, ◌<◌, ◌≡◌, ◌≢◌, ◌⊎◌, sym, subst, ◌∙◌, ap, List, [], ◌++◌, arith,
  some, length, take, drop, length-append, length-drop, take-append, drop-append, some_eq,
}
use ntpsec_rs.Prelude.Bytes.{be32, from_be16}
use ntpsec_rs.Types.Walk.{IsCut, walk_fields-IsCut, mac_bytes, mac_bytes-mac_of}
use ntpsec_rs.Types.Header.{
  FullPacket, decode_header, header_at, walk_fields, split_rest, decode_full, round_up4, mac_of,
}

abbrev pub mac_field : ℕ → List ℕ → List ℕ
mac_field key_id digest = be32 key_id ++ digest

decode_full-append :
    (head rest : List ℕ)
    → length head ≡ 48
    → decode_full (head ++ rest) ≡ split_rest (header_at head) rest
unfolding decode_full decode_header
decode_full-append head rest h =
    let a : take 48 (head ++ rest) ≡ head =
      subst (λ n. take n (head ++ rest) ≡ head) h (take-append head rest) in
    let b : drop 48 (head ++ rest) ≡ rest =
      subst (λ n. drop n (head ++ rest) ≡ rest) h (drop-append head rest) in
    let c : length (head ++ rest) ≡ 48 + length rest = omega (arith, length-append head rest) in
    rw (a, b, c, h) (ground arith)

low_half : (k : ℕ) → from_be16 (k / 2 ^ 8 % 256) (k % 256) ≡ k % 2 ^ 16
unfolding from_be16
low_half k = omega arith

-- A MAC whose key identifier has a low half below 4, or beyond the bytes that are left, is kept whole.
pub mac_kept :
    (head digest : List ℕ) (key_id : ℕ)
    → length head ≡ 48
    → (key_id % 2 ^ 16 < 4) ⊎ (4 + length digest < key_id % 2 ^ 16)
    → decode_full (head ++ mac_field key_id digest)
      ≡ some (record {
        header = header_at head;
        ext_fields = [];
        mac = some (mac_field key_id digest);
      })
unfolding split_rest walk_fields
mac_kept head digest key_id h k =
    decode_full-append head (mac_field key_id digest) h ∙ ground (arith, low_half key_id)

-- One round on a MAC whose key identifier reads as a length that fits.
walk_into_mac :
    (digest : List ℕ) (key_id fuel : ℕ)
    → 4 ≤ key_id % 2 ^ 16
    → round_up4 (key_id % 2 ^ 16) ≤ 4 + length digest
    → walk_fields (suc fuel) (mac_field key_id digest) 0 (mac_field key_id digest)
      ≡ walk_fields fuel
          (mac_field key_id digest)
          (0 + round_up4 (key_id % 2 ^ 16))
          (drop (0 + round_up4 (key_id % 2 ^ 16)) (mac_field key_id digest))
unfolding walk_fields
walk_into_mac digest key_id fuel lo hi = rw (low_half key_id) (ground arith)

-- With the low half of the key identifier between 4 and the size of the MAC, rounded up to a multiple
-- of four, the front of the MAC is taken for extension fields.
pub mac_misread :
    (head digest : List ℕ) (key_id : ℕ) (packet : FullPacket)
    → length head ≡ 48
    → 4 ≤ key_id % 2 ^ 16
    → round_up4 (key_id % 2 ^ 16) ≤ 4 + length digest
    → decode_full (head ++ mac_field key_id digest) ≡ some packet
    → packet.mac ≢ some (mac_field key_id digest)
unfolding split_rest
mac_misread head digest key_id packet h lo hi e same =
    absurd (omega (arith, ap length shorter, length-drop cut.at mac, cut.size))
  where
    mac : List ℕ
    mac = mac_field key_id digest

    cut : IsCut (0 + round_up4 (key_id % 2 ^ 16)) mac (walk_fields (suc (length mac)) mac 0 mac)
    cut = rw (walk_into_mac digest key_id (length mac) lo hi) (
        walk_fields-IsCut (length mac) mac (0 + round_up4 (key_id % 2 ^ 16)) (omega arith)
          (omega arith))

    found : split_rest (header_at head) mac ≡ some packet
    found = sym (decode_full-append head mac h) ∙ e

    mac_found : mac_of (drop cut.at mac) ≡ packet.mac
    mac_found = ap (λ (p : FullPacket). p.mac) (some_eq (rw cut.result at found))

    shorter : drop cut.at mac ≡ mac
    shorter = sym (mac_bytes-mac_of (drop cut.at mac)) ∙ ap mac_bytes (mac_found ∙ same)
