-- ===== src/Ke/Client.antt =====
-- `NtsKeClient::handshake` of nts_client.rs: the request, the loop over the response's records, and the
-- keys from the TLS exporter. The connection and its I/O are a parameter.
use ntpsec_rs.Prelude.{
  ℕ, ◌+◌, ◌||◌, ◌&&◌, Option, none, some, List, [], ◌∷◌, ◌++◌, length, is_empty, ◌==◌,
  if◌then◌else◌, not, Result, ok, err, ◌>>=◌, String,
}
use ntpsec_rs.Prelude.Bytes.{be16, same_bytes}
use ntpsec_rs.Nts.Record.{NtsKeRecord, new_critical}
use ntpsec_rs.Nts.Handshake.{
  AeadAlgorithm, aead_aes_siv_cmac256, HandshakeError, server_error, unsupported_critical,
  trailing_data, NtsKeNegotiation, Progress, start, raw_type, is_critical, next_protocol_step,
  aead_step, eom_step, finish, decoded,
}
use ntpsec_rs.Ke.{Connection, ntske, exporter_context, flat_map_encode, to_u16}

pub record NtsKeClient : Type 0 where
  pub host : String
  pub port : ℕ

pub data ClientError : Type 0 where
  alpn_unexpected : List ℕ → ClientError
  refused : HandshakeError → ClientError
  export_failed keys_equal : ClientError

-- The records that the client sends, on the wire.
unfoldable pub request_wire : List ℕ
unfolding new_critical flat_map_encode to_u16
request_wire = flat_map_encode (
    new_critical 1 (be16 0)
    ∷ new_critical 4 (be16 (to_u16 aead_aes_siv_cmac256))
    ∷ new_critical 0 []
    ∷ [])

-- The body of the loop: a Warning has no branch of its own.
unfoldable pub step : ℕ → NtsKeRecord → Progress → Result HandshakeError Progress
unfolding raw_type is_critical
step position rec p =
    let t = raw_type rec in
    let known = (t == 4) || (t == 5) || (t == 1) || (t == 0) in
    if t == 2
    then err (server_error rec.body)
    else if is_critical rec && not known
    then err (unsupported_critical t)
    else if t == 1
    then next_protocol_step rec p
    else if t == 4
    then aead_step rec p
    else if t == 5
    then ok (record p { cookies = p.cookies ++ rec.body ∷ [] })
    else if t == 0
    then eom_step position rec p
    else ok (record p { server_offer = p.server_offer ++ rec ∷ [] })

unfoldable pub steps : ℕ → List NtsKeRecord → Progress → Result HandshakeError Progress
unfolding step
steps position [] p = ok p
steps position (rec ∷ recs) p = do q ← step position rec p; steps (position + 1) recs q

unfoldable pub agree : List NtsKeRecord → Result HandshakeError (Progress × AeadAlgorithm)
unfolding steps
agree records = do p ← steps 0 records start; a ← finish (length records) p; ok (p, a)

unfoldable pub negotiate : List ℕ → Result HandshakeError (Progress × AeadAlgorithm)
unfolding decoded agree
negotiate response =
    let trailing = (decoded response).1 in
    if not (is_empty trailing)
    then err (trailing_data (length trailing))
    else agree (decoded response).0

unfoldable pub lift {ℓ} : {A : Type ℓ} → Result HandshakeError A → Result ClientError A
lift (err e) = err (refused e)
lift (ok a) = ok a

unfoldable pub exported : Option (List ℕ) → Result ClientError (List ℕ)
exported none = err export_failed
exported (some key) = ok key

-- An absent protocol counts as the empty one.
unfoldable pub check_alpn : Option (List ℕ) → Result ClientError (Unit {0})
unfolding same_bytes
check_alpn none = err (alpn_unexpected [])
check_alpn (some p) = if same_bytes p ntske then ok tt else err (alpn_unexpected p)

-- What the client does between the TLS handshake and its end, around sending `request_wire` and
-- reading the response.
unfoldable pub handshake : Connection → Result ClientError NtsKeNegotiation
unfolding check_alpn lift negotiate exported
handshake conn = do
  u ← check_alpn conn.alpn_protocol
  r ← lift (negotiate conn.received)
  c2s_key ← exported (conn.export 32 (exporter_context (to_u16 r.1) 0))
  s2c_key ← exported (conn.export 32 (exporter_context (to_u16 r.1) 1))
  if same_bytes c2s_key s2c_key
      then err keys_equal
      else ok (record {
        aead_algorithm = r.1;
        cookies = r.0.cookies;
        c2s_key = c2s_key;
        s2c_key = s2c_key;
        server_offer = r.0.server_offer;
      })
