-- ===== src/Daemon/Control/Access.antt =====
-- What a request of mode 6 can change in the daemon, and for whom.
use ntpsec_rs.Prelude.{
  ℕ, ◌≡◌, refl, ap, ◌∙◌, subst, arith, ◌&&◌, ◌||◌, ◌==◌, Option, Option-cases, none, some, List, [],
  ◌∷◌, is_empty, not, if◌then◌else◌, Bool, true, false, Bool-cases, Result-cases, inl, inr, ◌⊎◌, ok,
  err,
}
use ntpsec_rs.Prelude.Bytes.{same_bytes}
use ntpsec_rs.Restrict.{NetAddr, RestrictList}
use ntpsec_rs.Auth.{Digests, AuthKeyStore}
use ntpsec_rs.Timer.{TimerQueue}
use ntpsec_rs.Monitor.{MonEntry, verify_nonce}
use ntpsec_rs.Control.{from_u8, build_error_response}
use ntpsec_rs.Control.Exchange.{ControlExchange, ExchangeError, parse}
use ntpsec_rs.Float.{Float}
use ntpsec_rs.Peer.{PeerTable}
use ntpsec_rs.Discipline.{LoopFilter}
use ntpsec_rs.Daemon.{DaemonEngine, PendingRequest, Handled, send, log, bad_control}
use ntpsec_rs.Daemon.Vars.{Text, parse_mode6_vars}
use ntpsec_rs.Daemon.PeerStatus.{find_peer}
use ntpsec_rs.Daemon.Write.{
  Env, Answered, write_clock_var, write_clock_vars, write_clock, write_var, write_vars, write_all,
  key_nonce,
}
use ntpsec_rs.Daemon.Control.{
  verify_nonces, read_clients, give_nonce, read_vars, answer, reply, requires_auth, auth_valid,
  handle_exchange, handle_parsed, handle_control,
}

module _ (f : Float) (digests : Digests) (env : Env f) where
  -- What no request changes.
  abbrev pub protected :
      DaemonEngine f
      → PeerTable f
        × (AuthKeyStore × (RestrictList × (TimerQueue × (List PendingRequest × List MonEntry))))
  protected e =
      (e.peers, (e.auth, (e.restrictions, (e.timers, (e.pending_requests, e.monitor.entries)))))

  -- Nor does one that writes no variable of the system change the loop filter.
  abbrev pub guarded :
      DaemonEngine f
      → LoopFilter f
        × (PeerTable f
            × (AuthKeyStore
                × (RestrictList × (TimerQueue × (List PendingRequest × List MonEntry)))))
  guarded e = (e.loop_filter, protected e)

  abbrev GuardedBy : DaemonEngine f → Option (DaemonEngine f) → Type 0
  GuardedBy e none = Unit
  GuardedBy e (some r) = guarded r ≡ guarded e

  write_clock_var-GuardedBy :
      (v : Text × Text) (e : DaemonEngine f) → GuardedBy e (write_clock_var f env v e)
  unfolding write_clock_var
  write_clock_var-GuardedBy (key, val) e = ground arith

  write_clock_vars-guarded :
      (vs : List (Text × Text)) (e : DaemonEngine f)
      → guarded (write_clock_vars f env vs e).1 ≡ guarded e
  unfolding write_clock_vars
  write_clock_vars-guarded [] e = refl
  write_clock_vars-guarded (v ∷ vs) e = elim (Option-cases (write_clock_var f env v e)) [
    | inl rejected ↦ rw (write_clock_vars, rejected) (write_clock_vars-guarded vs e)
    | inr (r, applied) ↦
        let step : guarded r ≡ guarded e =
          subst (GuardedBy e) applied (write_clock_var-GuardedBy v e) in
        rw (write_clock_vars, applied) (write_clock_vars-guarded vs r ∙ step)
  ]

  write_var-protected :
      (v : Text × Text) (e : DaemonEngine f) → protected (write_var f env v e) ≡ protected e
  unfolding write_var
  write_var-protected (key, val) e = ground arith

  verify_nonces-guarded :
      (vs : List (Text × Text)) (valid : Bool) (e : DaemonEngine f)
      → guarded (verify_nonces f digests env vs valid e).1 ≡ guarded e
  unfolding verify_nonces
  verify_nonces-guarded [] valid e = refl
  verify_nonces-guarded ((key, val) ∷ vs) valid e =
      elim (Option-cases (if same_bytes key key_nonce then env.hex_decode val else none)) [
        | inl other ↦ rw (verify_nonces, other) (verify_nonces-guarded vs valid e)
        | inr (nonce, given) ↦
            let r = verify_nonce env.now nonce e.monitor.nonce_cache in
            rw (verify_nonces, given)
              (verify_nonces-guarded vs (valid || r.0)
                (record e { monitor = record e.monitor { nonce_cache = r.1 } }))
      ]

  write_vars-protected :
      (vs : List (Text × Text)) (e : DaemonEngine f)
      → protected (write_vars f env vs e) ≡ protected e
  unfolding write_vars
  write_vars-protected [] e = refl
  write_vars-protected (v ∷ vs) e =
      write_vars-protected vs (write_var f env v e) ∙ write_var-protected v e

  write_all-protected :
      (vs : List (Text × Text)) (e : DaemonEngine f)
      → protected (write_all f env vs e).1 ≡ protected e
  unfolding write_all
  write_all-protected vs e = elim (Bool-cases (is_empty vs)) [
    | inl h ↦ rw h refl
    | inr h ↦ rw h (write_vars-protected vs e)
  ]

  write_clock-guarded :
      (vs : List (Text × Text)) (e : DaemonEngine f)
      → guarded (write_clock f env vs e).1 ≡ guarded e
  unfolding write_clock
  write_clock-guarded vs e = elim (Bool-cases (is_empty (write_clock_vars f env vs e).0)) [
    | inl h ↦ rw h (write_clock_vars-guarded vs e)
    | inr h ↦ rw h (write_clock_vars-guarded vs e)
  ]

  read_clients-guarded :
      (text : Text) (e : DaemonEngine f) → guarded (read_clients f digests env text e).1 ≡ guarded e
  unfolding read_clients
  read_clients-guarded text e =
      let r = verify_nonces f digests env (parse_mode6_vars env.trim text) false e in
      let verified = verify_nonces-guarded (parse_mode6_vars env.trim text) false e in
      elim (Bool-cases (is_empty text)) [
        | inl h ↦ rw h refl
        | inr h ↦ elim (Bool-cases r.0) [
          | inl good ↦ rw (h, good) verified
          | inr bad ↦ rw (h, bad) verified
        ]
      ]

  read_vars-guarded :
      (associd : ℕ) (e : DaemonEngine f) → guarded (read_vars f digests env associd e).1 ≡ guarded e
  unfolding read_vars
  read_vars-guarded associd e = elim (Option-cases (find_peer f associd e.peers.peers)) [
    | inl gone ↦ rw gone (ground arith)
    | inr (p, there) ↦ rw there (ground arith)
  ]

  answer-protected :
      (op : ℕ) (x : ControlExchange) (e : DaemonEngine f)
      → protected (answer f digests env op x e).1 ≡ protected e
  unfolding answer give_nonce
  answer-protected op x e =
      let vars = parse_mode6_vars env.trim (env.from_utf8_lossy x.payload) in
      ground (
        arith,
        ap (λ p. p.1) (read_vars-guarded x.request.associd e),
        write_all-protected vars e,
        ap (λ p. p.1) (write_clock-guarded vars e),
        ap (λ p. p.1) (read_clients-guarded (env.from_utf8_lossy x.payload) e),
      )

  answer-loop_filter :
      (op : ℕ) (x : ControlExchange) (e : DaemonEngine f)
      → (op == 3) ≡ false
      → (answer f digests env op x e).1.loop_filter ≡ e.loop_filter
  unfolding answer give_nonce
  answer-loop_filter op x e h =
      let vars = parse_mode6_vars env.trim (env.from_utf8_lossy x.payload) in
      ground (
        arith,
        h,
        ap (λ p. p.0) (read_vars-guarded x.request.associd e),
        ap (λ p. p.0) (write_clock-guarded vars e),
        ap (λ p. p.0) (read_clients-guarded (env.from_utf8_lossy x.payload) e),
      )

  -- The frequency changes for an authenticated request only.
  abbrev IsAnswered : ControlExchange → NetAddr → DaemonEngine f → Handled f → Type 0
  IsAnswered x source e (actions, r) =
      (protected r ≡ protected e)
      × ((auth_valid f digests env x e.auth ≡ true) ⊎ (r.loop_filter ≡ e.loop_filter))
      × ((bytes : List ℕ) × (actions ≡ send source bytes ∷ []))

  reply-IsAnswered :
      (op : ℕ) (x : ControlExchange) (source : NetAddr) (e : DaemonEngine f) (a : Answered f)
      → protected a.1 ≡ protected e
      → (auth_valid f digests env x e.auth ≡ true) ⊎ (a.1.loop_filter ≡ e.loop_filter)
      → IsAnswered x source e (reply f digests env op x.request source a)
  unfolding reply
  reply-IsAnswered op x source e (err code, r) kept filter = (kept, filter, (_, refl))
  reply-IsAnswered op x source e (ok payload, r) kept filter = (kept, filter, (_, refl))

  -- What can come of a control message: it is malformed and is logged; or it writes without a valid
  -- authentication and gets the error 1; or it is answered.
  pub data Controlled (bytes : List ℕ) (source : NetAddr) (e : DaemonEngine f) (h : Handled f)
      : Type 0 where
    malformed :
        (why : ExchangeError)
        → parse bytes ≡ err why
        → h ≡ (log bad_control ∷ [], e)
        → Controlled bytes source e h
    refused :
        (x : ControlExchange)
        → parse bytes ≡ ok x
        → requires_auth f digests env (from_u8 x.request.opcode).op ≡ true
        → auth_valid f digests env x e.auth ≡ false
        → h ≡ (send source (build_error_response x.request 1) ∷ [], e)
        → Controlled bytes source e h
    answered :
        (x : ControlExchange)
        → parse bytes ≡ ok x
        → (requires_auth f digests env (from_u8 x.request.opcode).op
            && not (auth_valid f digests env x e.auth))
          ≡ false
        → IsAnswered x source e h
        → Controlled bytes source e h

  loop_filter-cases :
      (op : ℕ) (x : ControlExchange) (e : DaemonEngine f)
      → (requires_auth f digests env op && not (auth_valid f digests env x e.auth)) ≡ false
      → (auth_valid f digests env x e.auth ≡ true)
        ⊎ ((answer f digests env op x e).1.loop_filter ≡ e.loop_filter)
  unfolding requires_auth
  loop_filter-cases op x e h = elim (Bool-cases (op == 3)) [
    | inl writes ↦ inl (ground (arith, h, writes))
    | inr other ↦ inr (answer-loop_filter op x e other)
  ]

  handle_exchange-Controlled :
      (bytes : List ℕ) (x : ControlExchange) (source : NetAddr) (e : DaemonEngine f)
      → parse bytes ≡ ok x
      → Controlled bytes source e (handle_exchange f digests env x source e)
  unfolding handle_exchange
  handle_exchange-Controlled bytes x source e parsed =
      let op = (from_u8 x.request.opcode).op in
      let a = answer f digests env op x e in
      elim (Bool-cases
        (requires_auth f digests env op && not (auth_valid f digests env x e.auth))) [
          | inl barred ↦
              refused x parsed (ground (arith, barred)) (ground (arith, barred)) (rw barred refl)
          | inr free ↦ answered x parsed free (
              rw free (
                reply-IsAnswered op x source e a (answer-protected op x e)
                  (loop_filter-cases op x e free)))
        ]

  -- A control message has one of three outcomes. A malformed one is logged and changes nothing. One that
  -- writes variables, configures or reads the ordered list without a valid authenticator gets the
  -- error 1 and changes nothing. Any other gets one datagram, to its source, and
  -- leaves the peers, the keys, the restrictions, the timers, the pending requests and the list of
  -- clients as they are; and the loop filter too, unless its authenticator is that of the control key.
  pub handle_control-Controlled :
      (bytes : List ℕ) (source : NetAddr) (e : DaemonEngine f)
      → Controlled bytes source e (handle_control f digests env bytes source e)
  unfolding handle_control handle_parsed
  handle_control-Controlled bytes source e = elim (Result-cases (parse bytes)) [
    | inl (why, bad) ↦ malformed why bad (rw bad refl)
    | inr (x, good) ↦ rw good (handle_exchange-Controlled bytes x source e good)
  ]
