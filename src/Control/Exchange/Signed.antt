-- ===== src/Control/Exchange/Signed.antt =====
-- A signed response is parsed into what it was built from, and its authenticator is accepted.
use ntpsec_rs.Prelude.{
  ℕ, ◌+◌, ◌-◌, ◌%◌, ◌≤◌, ◌≡◌, refl, sym, ◌∙◌, ap, some, List, [], ◌∷◌, ◌++◌, arith, length, drop,
  take, min, replicate, ltb, leb, true, false, ok, length-append, length-replicate, append_assoc,
  take-append, drop-append, append-nil,
}
use ntpsec_rs.Prelude.Bytes.{IsU16, IsU32, be32, from_be32-be32, slice}
use ntpsec_rs.Auth.{Digests, NtpAuthKey, AuthKeyStore}
use ntpsec_rs.Auth as Auth
use ntpsec_rs.Auth.Mac.{verify_mac_iff}
use ntpsec_rs.Control.{ControlMessage, encode}
use ntpsec_rs.Control.Codec.{IsMessage, message_decode-encode}
use ntpsec_rs.Control.Exchange.{
  ControlExchange, align4, keyid_of, auth_data_of, parse_body, parse, max_payload, pad4,
  response_header, sign_with, signed, build_response, verify_by, lookup, verify_mac,
}

-- The bytes behind a header: payload, padding, key number and MAC.
tail_of : List ℕ → ℕ → ℕ → List ℕ → List ℕ
tail_of payload padding id mac = payload ++ (replicate padding 0 ++ (be32 id ++ mac))

length-tail_of :
    (payload : List ℕ) (padding id : ℕ) (mac : List ℕ)
    → length (tail_of payload padding id mac) ≡ length payload + padding + 4 + length mac
unfolding tail_of
length-tail_of payload padding id mac = omega (
  arith,
  length-append payload (replicate padding 0 ++ (be32 id ++ mac)),
  length-append (replicate padding 0) (be32 id ++ mac),
  length-replicate {A = ℕ} padding 0,
)

drop-tail_of :
    (payload : List ℕ) (padding id n : ℕ) (mac : List ℕ)
    → n ≡ length payload + padding
    → drop n (tail_of payload padding id mac) ≡ be32 id ++ mac
unfolding tail_of
drop-tail_of payload padding id n mac e =
    ap (λ t. drop t (payload ++ (replicate padding 0 ++ (be32 id ++ mac))))
      (omega
        (arith, length-append payload (replicate padding 0), length-replicate {A = ℕ} padding 0))
    ∙ ap (drop (length (payload ++ replicate padding 0)))
        (sym (append_assoc payload (replicate padding 0) (be32 id ++ mac)))
    ∙ drop-append (payload ++ replicate padding 0) (be32 id ++ mac)

keyid_of-be32 : (id : ℕ) (mac : List ℕ) → IsU32 id → keyid_of (be32 id ++ mac) ≡ some id
unfolding keyid_of
keyid_of-be32 id mac h =
    let long : leb 4 (length (be32 id ++ mac)) ≡ true = ground arith in
    rw long (ap some (from_be32-be32 id h))

auth_data_of-be32 : (id : ℕ) (mac : List ℕ) → auth_data_of (be32 id ++ mac) ≡ mac
unfolding auth_data_of
auth_data_of-be32 id [] = refl
auth_data_of-be32 id (b ∷ mac) =
    let long : ltb 4 (length (be32 id ++ (b ∷ mac))) ≡ true = ground arith in rw long refl

abbrev pub exchange_of : ControlMessage → List ℕ → ℕ → List ℕ → ControlExchange
exchange_of msg payload id mac = record {
  request = msg;
  payload = payload;
  auth_keyid = some id;
  auth_data = mac;
}

parse_body-tail_of :
    (bytes : List ℕ) (msg : ControlMessage) (payload : List ℕ) (padding id : ℕ) (mac : List ℕ)
    → msg.offset ≡ 0
    → msg.count ≡ length payload
    → align4 (length payload) ≡ length payload + padding
    → IsU32 id
    → parse_body bytes (some (msg, tail_of payload padding id mac))
      ≡ ok (exchange_of msg payload id mac)
unfolding parse_body tail_of
parse_body-tail_of bytes msg payload padding id mac no_offset count pads fits =
    rw (fits_in, reached, dropped)
      (λ i. ok (record {
        request = msg;
        payload = cut i;
        auth_keyid = keyid_of-be32 id mac fits i;
        auth_data = auth_data_of-be32 id mac i;
      }))
  where
    T : List ℕ
    T = tail_of payload padding id mac

    aligned : align4 msg.count ≡ length payload + padding
    aligned = ap align4 count ∙ pads

    fits_in : ltb (length T) (msg.offset + msg.count) ≡ false
    fits_in = ground (arith, length-tail_of payload padding id mac)

    reached : leb (align4 msg.count) (length T) ≡ true
    reached = ground (arith, length-tail_of payload padding id mac, aligned)

    dropped : drop (align4 msg.count) T ≡ be32 id ++ mac
    dropped = drop-tail_of payload padding id (align4 msg.count) mac aligned

    cut : slice T msg.offset (msg.offset + msg.count) ≡ payload
    cut =
        (λ i.
          take ((let n : msg.offset + msg.count - msg.offset ≡ length payload = omega arith in n) i)
            (drop (no_offset i) T))
        ∙ take-append payload (replicate padding 0 ++ (be32 id ++ mac))

-- The padding of a response whose payload is not cut.
padding_of : ℕ → ℕ
padding_of n = (4 - (12 + n) % 4) % 4

align4_lem : (n : ℕ) → align4 n ≡ n + padding_of n
unfolding align4 padding_of
align4_lem n = omega arith

pad4-encode :
    (msg : ControlMessage) (payload : List ℕ)
    → pad4 (encode msg ++ payload)
      ≡ encode msg ++ (payload ++ replicate (padding_of (length payload)) 0)
unfolding pad4 encode padding_of
pad4-encode msg payload =
    ap (λ n. (encode msg ++ payload) ++ replicate ((4 - n % 4) % 4) 0)
      (let n : length (encode msg ++ payload) ≡ 12 + length payload = omega arith in n)

module _ (digests : Digests) where
  -- What goes out, when the key gives a MAC.
  signed_lem :
      (msg : ControlMessage) (payload mac : List ℕ) (key : NtpAuthKey)
      → Auth.mac digests key (pad4 (encode msg ++ payload)) ≡ some mac
      → signed digests (some key) (encode msg ++ payload)
        ≡ encode msg ++ tail_of payload (padding_of (length payload)) key.id mac
  unfolding signed sign_with tail_of
  signed_lem msg payload mac key h = rw h (
      ap (λ t. t ++ (be32 key.id ++ mac)) (pad4-encode msg payload)
      ∙ append_assoc (encode msg) (payload ++ replicate (padding_of (length payload)) 0)
          (be32 key.id ++ mac)
      ∙ ap (λ t. encode msg ++ t)
          (append_assoc payload (replicate (padding_of (length payload)) 0) (be32 key.id ++ mac)))

  response_header-IsMessage :
      (req : ControlMessage) (resp_data : List ℕ) (sequence status : ℕ)
      → IsU16 req.associd
      → IsU16 sequence
      → IsU16 status
      → IsMessage (response_header req resp_data sequence status)
  unfolding response_header
  response_header-IsMessage req resp_data sequence status a b c = record {
    sequence = b;
    status = c;
    associd = a;
    offset = omega arith;
    count = omega arith;
  }

  wire_lem :
      (req : ControlMessage) (resp_data mac : List ℕ) (sequence status : ℕ) (key : NtpAuthKey)
      → length resp_data ≤ max_payload
      → Auth.mac digests key
          (pad4 (encode (response_header req resp_data sequence status) ++ resp_data))
        ≡ some mac
      → build_response digests req resp_data sequence status (some key)
        ≡ encode (response_header req resp_data sequence status)
          ++ tail_of resp_data (padding_of (length resp_data)) key.id mac
  unfolding build_response
  wire_lem req resp_data mac sequence status key h m =
      ap
        (λ t.
          signed digests (some key) (encode (response_header req resp_data sequence status) ++ t))
        (whole (min (length resp_data) max_payload) (omega arith))
      ∙ signed_lem (response_header req resp_data sequence status) resp_data mac key m
    where
      whole : (n : ℕ) → n ≡ length resp_data → take n resp_data ≡ resp_data
      whole n e = (λ i. take (e i) (sym (append-nil resp_data) i)) ∙ take-append resp_data []

  -- With 16-bit fields and a 32-bit key number, a response of at most 468 bytes, signed with a key that gives a MAC, is parsed into its header,
  -- its bytes, the number of the key and that MAC, and whoever has the key under this number accepts
  -- the authenticator.
  pub parse-build_response :
      (req : ControlMessage) (resp_data mac : List ℕ) (sequence status : ℕ) (key : NtpAuthKey)
      (store : AuthKeyStore)
      → IsU16 req.associd
      → IsU16 sequence
      → IsU16 status
      → IsU32 key.id
      → length resp_data ≤ max_payload
      → Auth.mac digests key
          (pad4 (encode (response_header req resp_data sequence status) ++ resp_data))
        ≡ some mac
      → Auth.get_key key.id store ≡ some key
      → (parse (build_response digests req resp_data sequence status (some key))
          ≡ ok (exchange_of (response_header req resp_data sequence status) resp_data key.id mac))
        × (verify_mac digests
              (exchange_of (response_header req resp_data sequence status) resp_data key.id mac)
              store
            ≡ true)
  unfolding response_header parse verify_mac verify_by lookup
  parse-build_response req resp_data mac sequence status key store ha hs ht hk short m known = (
    ap parse (wire_lem req resp_data mac sequence status key short m)
        ∙ ap (parse_body (encode hdr ++ tail)) (message_decode-encode hdr tail fits)
        ∙ parse_body-tail_of (encode hdr ++ tail) hdr resp_data (padding_of (length resp_data))
            key.id mac refl count (align4_lem (length resp_data)) hk,
    rw known ((verify_mac_iff digests key (pad4 (encode hdr ++ resp_data)) mac).1 m),
  )
    where
      hdr : ControlMessage
      hdr = response_header req resp_data sequence status

      tail : List ℕ
      tail = tail_of resp_data (padding_of (length resp_data)) key.id mac

      fits : IsMessage hdr
      fits = response_header-IsMessage req resp_data sequence status ha hs ht

      count : hdr.count ≡ length resp_data
      count = omega arith
