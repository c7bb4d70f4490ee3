-- ===== src/Daemon/Control.antt =====
-- `handle_control`: the requests of mode 6, with the status words of the peers. The texts that the
-- code formats are a parameter, and so are the parsers of the standard library and of the crate hex.
pub mod Access
mod Examples
use ntpsec_rs.Prelude.{
  ℕ, suc, ◌+◌, ◌*◌, ◌%◌, ◌^◌, ◌||◌, ◌&&◌, bit_or, bit_and, min, Option, none, some, List, [], ◌∷◌,
  ◌++◌, length, is_empty, is_some, ltb, leb, ◌==◌, not, if◌then◌else◌, Bool, true, false, Result,
  ok, err,
}
use ntpsec_rs.Prelude.Bits.{low}
use ntpsec_rs.Prelude.Bytes.{be16, from_be32, byte_at, same_bytes}
use ntpsec_rs.Types.Leap as Leap
use ntpsec_rs.Types.Mode.{broadcast}
use ntpsec_rs.Restrict.{NetAddr}
use ntpsec_rs.Auth.{Digests, AuthKeyStore, get_key}
use ntpsec_rs.Monitor.{MonEntry, generate_nonce, verify_nonce, read_mru}
use ntpsec_rs.Control.{ControlMessage, from_u8, build_error_response}
use ntpsec_rs.Control.Status.{make}
use ntpsec_rs.Control.Exchange.{ControlExchange, ExchangeError, parse, build_response, verify_mac}
use ntpsec_rs.Proto.{is_reachable}
use ntpsec_rs.Proto.Packets.{same_mode}
use ntpsec_rs.Float.{Float}
use ntpsec_rs.Peer.{Peer, contains}
use ntpsec_rs.Select.System.{SystemState, ntp_maxstrat}
use ntpsec_rs.Discipline.{set_frequency}
use ntpsec_rs.Daemon.{DaemonEngine, Handled, send, log, bad_control}
use ntpsec_rs.Daemon.Vars.{Text, parse_mode6_vars}
use ntpsec_rs.Daemon.PeerStatus.{peer_status, selection_of, read_status, find_peer}
use ntpsec_rs.Daemon.Write.{Env, Answered, write_all, write_clock, var_text, key_nonce}

module _ (f : Float) (digests : Digests) (env : Env f) where
  -- Every nonce of the request is verified, and one that is good is enough.
  unfoldable pub verify_nonces : List (Text × Text) → Bool → DaemonEngine f → Bool × DaemonEngine f
  unfolding same_bytes verify_nonce
  verify_nonces [] valid e = (valid, e)
  verify_nonces ((key, val) ∷ vs) valid e =
      elim (if same_bytes key key_nonce then env.hex_decode val else none) [
        | none ↦ verify_nonces vs valid e
        | some nonce ↦
            let r = verify_nonce env.now nonce e.monitor.nonce_cache in
            verify_nonces vs (valid || r.0)
              (record e { monitor = record e.monitor { nonce_cache = r.1 } })
      ]

  unfoldable pub read_clients : Text → DaemonEngine f → Answered f
  unfolding parse_mode6_vars verify_nonces read_mru
  read_clients text e =
      let r = verify_nonces (parse_mode6_vars env.trim text) false e in
      if is_empty text
      then (err 4, e)
      else if r.0
      then (ok (env.mru_text (read_mru 100 r.1.monitor)), r.1)
      else (err 4, r.1)

  unfoldable pub give_nonce : DaemonEngine f → Answered f
  unfolding generate_nonce
  give_nonce e =
      let r = generate_nonce env.order env.now env.later env.random e.monitor.nonce_cache in
      (
        ok (key_nonce ++ (b'=' ∷ env.hex_encode r.0)),
        record e { monitor = record e.monitor { nonce_cache = r.1 } },
      )

  unfoldable pub read_vars : ℕ → DaemonEngine f → Answered f
  unfolding find_peer
  read_vars associd e =
      if associd == 0
      then (ok (env.system_text e), e)
      else elim (find_peer f associd e.peers.peers) [
        | none ↦ (err 4, e)
        | some p ↦ (ok (env.peer_text p), e)
      ]

  -- By the operation; an unknown one is the error 3.
  unfoldable pub answer : ℕ → ControlExchange → DaemonEngine f → Answered f
  unfolding read_status read_vars write_all write_clock give_nonce read_clients parse_mode6_vars
  answer op x e =
      let vars = parse_mode6_vars env.trim (env.from_utf8_lossy x.payload) in
      if op == 1
      then (ok (read_status f e.system_peer_associd 0 e.peers.peers), e)
      else if (op == 2) || (op == 11)
      then read_vars x.request.associd e
      else if op == 3
      then write_all f env vars e
      else if op == 5
      then write_clock f env vars e
      else if op == 12
      then give_nonce e
      else if op == 10
      then read_clients (env.from_utf8_lossy x.payload) e
      else (err 3, e)

  unfoldable pub response_status : ℕ → ControlMessage → DaemonEngine f → ℕ
  unfolding find_peer peer_status selection_of make Leap.to_bits
  response_status op req e =
      if (op == 2) && not (req.associd == 0)
      then elim (find_peer f req.associd e.peers.peers) [
        | none ↦ make 3 0 0 4
        | some p ↦ peer_status f p (selection_of f e.system_peer_associd p)
      ]
      else make (Leap.to_bits e.system.core.leap)
          (if ltb e.system.core.stratum ntp_maxstrat then 6 else 0) 0 0

  unfoldable pub reply : ℕ → ControlMessage → NetAddr → Answered f → Handled f
  unfolding build_error_response build_response response_status
  reply op req source (err code, e) = (send source (build_error_response req code) ∷ [], e)
  reply op req source (ok payload, e) = (
    send source (build_response digests req payload req.sequence (response_status op req e) none)
        ∷ [],
    e,
  )

  -- WRITEVAR, CONFIGURE and READ_ORDLIST_A.
  unfoldable pub requires_auth : ℕ → Bool
  requires_auth op = (op == 3) || ((op == 8) || (op == 11))

  unfoldable pub auth_valid : ControlExchange → AuthKeyStore → Bool
  unfolding verify_mac get_key
  auth_valid x store = elim store.control_key [
    | none ↦ false
    | some ckey ↦
        elim x.auth_keyid [ none ↦ false | some k ↦ k == ckey ]
        && (is_some (get_key ckey store) && verify_mac digests x store)
  ]

  -- The error of a failed authentication has the status 0x0100.
  unfoldable pub handle_exchange : ControlExchange → NetAddr → DaemonEngine f → Handled f
  unfolding requires_auth auth_valid answer reply from_u8 build_error_response
  handle_exchange x source e =
      let op = (from_u8 x.request.opcode).op in
      if requires_auth op && not (auth_valid x e.auth)
      then (send source (build_error_response x.request 1) ∷ [], e)
      else reply op x.request source (answer op x e)

  unfoldable pub handle_parsed :
      Result ExchangeError ControlExchange → NetAddr → DaemonEngine f → Handled f
  unfolding handle_exchange
  handle_parsed (err h) source e = (log bad_control ∷ [], e)
  handle_parsed (ok x) source e = handle_exchange x source e

  unfoldable pub handle_control : List ℕ → NetAddr → DaemonEngine f → Handled f
  unfolding parse handle_parsed
  handle_control bytes source e = handle_parsed (parse bytes) source e
