-- ===== src/Daemon/Receive/Symmetric.antt =====
-- The requests of symmetric active peers, which expect a packet of mode 2.
use ntpsec_rs.Prelude.{
  ℕ, zero, suc, ◌≡◌, refl, arith, ◌&&◌, Option, none, some, List, [], ◌∷◌, ◌++◌, leb, false,
  Bool-cases, inl, inr, All,
}
use ntpsec_rs.Types.{NtpTs, NtpPacket, mode}
use ntpsec_rs.Types.Mode.{
  NtpMode, reserved, sym_active, sym_passive, client, server, broadcast, ntp_control, private,
}
use ntpsec_rs.Restrict.{NetAddr}
use ntpsec_rs.Float.{Float}
use ntpsec_rs.Float as Float
use ntpsec_rs.Peer.{Peer, get_elem?, add}
use ntpsec_rs.Daemon.{
  ReceivedDatagram, PendingRequest, ServerCounters, DaemonEngine, Handled, with_counters, peer_addr,
}
use ntpsec_rs.Daemon.Associd.{allocate_associd}
use ntpsec_rs.Daemon.Pending.{answers, find_pending_request}
use ntpsec_rs.Daemon.Response.{found, handle_server_response}
use ntpsec_rs.Daemon.Receive.{
  handle_request, create_passive, associate, any_with_addr, respond_passive, handle_passive,
  any_broadcast, handle_broadcast, handle_mode, count_received, count_declined, count_rejected,
  one_way_offset,
}

-- What `tick` expects of a symmetric active peer.
abbrev pub ExpectsPassive : PendingRequest → Type 0
ExpectsPassive r = r.expected_mode ≡ sym_passive

answers-server :
    (ts : NtpTs) (source : NetAddr) (r : PendingRequest)
    → ExpectsPassive r
    → answers ts source server r ≡ false
unfolding answers
answers-server ts source r h = rw h (ground arith)

find_pending_request-none :
    (ts : NtpTs) (source : NetAddr) (rs : List PendingRequest)
    → All ExpectsPassive rs
    → find_pending_request ts source server rs ≡ none
unfolding find_pending_request
find_pending_request-none ts source [] h = refl
find_pending_request-none ts source (r ∷ rs) h =
    rw (answers-server ts source r h.0, find_pending_request-none ts source rs h.1) refl

module _ (f : Float) where
  get-append :
      (i : ℕ) (p : Peer f) (ps qs : List (Peer f))
      → get_elem? f i ps ≡ some p
      → get_elem? f i (ps ++ qs) ≡ some p
  unfolding get_elem?
  get-append i p [] qs h = cc
  get-append zero p (x ∷ xs) qs h = h
  get-append (suc i) p (x ∷ xs) qs h = get-append i p xs qs h

  -- The requests stay, and so does every peer that there was.
  pub record IsKept (e r : DaemonEngine f) : Type 0 where
    pub pending : r.pending_requests ≡ e.pending_requests
    pub peers :
        (i : ℕ) (p : Peer f)
        → get_elem? f i e.peers.peers ≡ some p
        → get_elem? f i r.peers.peers ≡ some p

  same : (e : DaemonEngine f) → IsKept e e
  same e = record { pending = refl; peers = λ i p h. h }

  counted :
      (count : ServerCounters → ServerCounters) (e : DaemonEngine f)
      → IsKept e (with_counters f count e)
  counted count e = record { pending = refl; peers = λ i p h. h }

  create_passive-IsKept :
      (d : ReceivedDatagram) (r : Option ℕ × ℕ) (e : DaemonEngine f)
      → IsKept e (create_passive f d r e).1
  unfolding create_passive add
  create_passive-IsKept d (none, n) e = record { pending = refl; peers = λ i p h. h }
  create_passive-IsKept d (some c, n) e = record {
    pending = refl;
    peers = λ i p h. get-append i p e.peers.peers _ h;
  }

  associate-IsKept : (d : ReceivedDatagram) (e : DaemonEngine f) → IsKept e (associate f d e).1
  unfolding associate
  associate-IsKept d e = elim (Bool-cases (any_with_addr f (peer_addr d.source) e.peers.peers)) [
    | inl known ↦ rw known (same e)
    | inr new ↦ rw new (create_passive-IsKept d (allocate_associd f e.next_associd e.peers) e)
  ]

  respond_passive-engine :
      (pkt : NtpPacket) (d : ReceivedDatagram) (r : Handled f) → (respond_passive f pkt d r).1 ≡ r.1
  unfolding respond_passive
  respond_passive-engine pkt d (actions, e) = elim (Bool-cases (leb 16 e.system.core.stratum)) [
    | inl h ↦ rw h refl
    | inr h ↦ rw h refl
  ]

  -- As long as the pending requests are those of symmetric active peers, no packet takes one, and none
  -- changes a peer that is there: such a peer is polled and never sampled. It holds for every mode
  -- that the packet carries.
  pub handle_mode-IsKept :
      (m : NtpMode) (pkt : NtpPacket) (d : ReceivedDatagram) (e : DaemonEngine f)
      → mode pkt ≡ m
      → All ExpectsPassive e.pending_requests
      → IsKept e (handle_mode f m pkt d e).1
  unfolding handle_mode handle_request handle_server_response found handle_passive handle_broadcast
  handle_mode-IsKept client pkt d e is_m h = elim (Bool-cases (leb 16 e.system.core.stratum)) [
    | inl c ↦ rw c (counted count_declined e)
    | inr c ↦ rw c (counted count_received e)
  ]
  handle_mode-IsKept sym_active pkt d e is_m h = elim (Bool-cases (leb 16 e.system.core.stratum)) [
    | inl c ↦ rw c (counted count_declined e)
    | inr c ↦ rw c (counted count_received e)
  ]
  handle_mode-IsKept server pkt d e is_m h =
      rw (is_m, find_pending_request-none pkt.originate_ts d.source e.pending_requests h)
        (counted count_received e)
  handle_mode-IsKept sym_passive pkt d e is_m h =
      let e' = with_counters f count_received e in
      rw (respond_passive-engine pkt d (associate f d e')) (record {
        pending = (associate-IsKept d e').pending;
        peers = (associate-IsKept d e').peers;
      })
  handle_mode-IsKept broadcast pkt d e is_m h =
      let offset = one_way_offset f pkt d in
      elim (Bool-cases (any_broadcast f (peer_addr d.source) e.peers.peers)) [
        | inr unknown ↦ rw unknown (counted count_received e)
        | inl known ↦
            elim (Bool-cases (Float.lt f (f.abs offset) (f.literal 1 0) && f.is_finite offset)) [
              | inl near ↦ rw (known, near) (counted count_received e)
              | inr far ↦ rw (known, far) (counted count_received e)
            ]
      ]
  handle_mode-IsKept private pkt d e is_m h = counted count_rejected e
  handle_mode-IsKept reserved pkt d e is_m h = same e
  handle_mode-IsKept ntp_control pkt d e is_m h = same e
