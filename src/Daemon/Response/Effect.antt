-- ===== src/Daemon/Response/Effect.antt =====
-- What a response from a server may change.
use ntpsec_rs.Prelude.{
  ℕ, zero, suc, ◌≡◌, ◌≢◌, refl, ap, ◌⊎◌, inl, inr, Option, none, some, List, [], ◌∷◌, ◌++◌, All,
  false, leb, ◌==◌, Bool-cases, Option-cases,
}
use ntpsec_rs.Types.{NtpPacket, mode}
use ntpsec_rs.Float.{Float}
use ntpsec_rs.Peer.{Peer, get_elem?, get}
use ntpsec_rs.Daemon.{ReceivedDatagram, PendingRequest, DaemonEngine, put_peer, with_peer}
use ntpsec_rs.Daemon.Pending.{
  answers, find_pending_request, Answers, answers-Answers, WasFound, IsFound,
  find_pending_request-WasFound,
}
use ntpsec_rs.Daemon.Response.{
  same_ts64, measured, is_crazy, for_peer, for_request, found, handle_server_response,
  without_request,
}

module _ (f : Float) where
  pub get-put_peer :
      (i j : ℕ) (p : Peer f) (ps : List (Peer f))
      → j ≢ i
      → get_elem? f j (put_peer f i p ps) ≡ get_elem? f j ps
  unfolding get_elem? put_peer
  get-put_peer i j p [] ne = refl
  get-put_peer zero zero p (q ∷ qs) ne = absurd (ne refl)
  get-put_peer zero (suc j) p (q ∷ qs) ne = refl
  get-put_peer (suc i) zero p (q ∷ qs) ne = refl
  get-put_peer (suc i) (suc j) p (q ∷ qs) ne = get-put_peer i j p qs (λ e. ne (ap suc e))

  -- A response that takes the first request that it answers and changes the state of its peer at most.
  pub record IsTaken (pkt : NtpPacket) (d : ReceivedDatagram) (e r : DaemonEngine f) : Type 0 where
    pub request : PendingRequest
    pub before : List PendingRequest
    pub behind : List PendingRequest
    pub pending : e.pending_requests ≡ before ++ request ∷ behind
    pub answered : Answers pkt.originate_ts d.source (mode pkt) request
    pub first : All (λ q. answers pkt.originate_ts d.source (mode pkt) q ≡ false) before
    pub consumed : r.pending_requests ≡ before ++ behind
    pub others :
        (j : ℕ) → j ≢ request.peer_id → get_elem? f j r.peers.peers ≡ get_elem? f j e.peers.peers
    pub rest : r ≡ record e { peers = r.peers; pending_requests = r.pending_requests }

  abbrev pub IsHandled : NtpPacket → ReceivedDatagram → DaemonEngine f → DaemonEngine f → Type 0
  IsHandled pkt d e r = (r ≡ e) ⊎ IsTaken pkt d e r

  module _ (pkt : NtpPacket) (d : ReceivedDatagram) (e : DaemonEngine f) (i : ℕ)
      (h : IsFound pkt.originate_ts d.source (mode pkt) e.pending_requests i) where
    IsTaken-with :
        (p : Peer f) → IsTaken pkt d e (without_request f i (with_peer f h.request.peer_id p e))
    IsTaken-with p = record {
      request = h.request;
      before = h.before;
      behind = h.behind;
      pending = h.whole;
      answered = answers-Answers pkt.originate_ts d.source (mode pkt) h.request h.answered;
      first = h.unanswered;
      consumed = h.removed;
      others = λ j ne. get-put_peer h.request.peer_id j p e.peers.peers ne;
      rest = refl;
    }

    IsTaken-only : IsTaken pkt d e (without_request f i e)
    IsTaken-only = record {
      request = h.request;
      before = h.before;
      behind = h.behind;
      pending = h.whole;
      answered = answers-Answers pkt.originate_ts d.source (mode pkt) h.request h.answered;
      first = h.unanswered;
      consumed = h.removed;
      others = λ j ne. refl;
      rest = refl;
    }

    measured-IsHandled :
        (p : Peer f) (o : f.F × f.F)
        → IsHandled pkt d e (measured f i h.request p pkt d.rx_timestamp o e).1
    unfolding measured
    measured-IsHandled p (offset, delay) = elim (Bool-cases (is_crazy f offset)) [
      | inl crazy ↦ rw crazy (inr IsTaken-only)
      | inr sane ↦ rw sane (inr (IsTaken-with _))
    ]

    for_peer-IsHandled :
        (p : Peer f) → IsHandled pkt d e (for_peer f i h.request p pkt d.rx_timestamp e).1
    unfolding for_peer
    for_peer-IsHandled p = elim (Bool-cases (same_ts64 p.originate_time h.request.full_t1)) [
      | inl again ↦ rw again (inl refl)
      | inr new ↦ elim (Bool-cases (pkt.stratum == 0)) [
        | inl kiss ↦ rw (new, kiss) (inr (IsTaken-with _))
        | inr real ↦ elim (Bool-cases (leb 16 pkt.stratum)) [
          | inl unsynchronized ↦ rw (new, real, unsynchronized) (inr (IsTaken-with _))
          | inr synchronized ↦ rw (new, real, synchronized) (measured-IsHandled p _)
        ]
      ]
    ]

    for_request-IsHandled :
        IsHandled pkt d e (for_request f i (some h.request) pkt d.rx_timestamp e).1
    unfolding for_request
    for_request-IsHandled = elim (Option-cases (get f h.request.peer_id e.peers)) [
      | inl gone ↦ rw (for_request, gone) (inl refl)
      | inr (p, there) ↦ rw (for_request, there) (for_peer-IsHandled p)
    ]

  found-IsHandled :
      (pkt : NtpPacket) (d : ReceivedDatagram) (e : DaemonEngine f) (o : Option ℕ)
      → WasFound pkt.originate_ts d.source (mode pkt) e.pending_requests o
      → IsHandled pkt d e (found f o pkt d.rx_timestamp e).1
  unfolding found
  found-IsHandled pkt d e none h = inl refl
  found-IsHandled pkt d e (some i) h = rw h.at_index (for_request-IsHandled pkt d e i h)

  -- A packet of a server changes nothing, unless it answers a pending request: unless its originate
  -- time is the transmit time of a request, which went to the address and port that it comes from and
  -- expects its mode. Then the first such request is taken out and the others stay in their order, no peer
  -- but the one of the request changes, and nothing but the peers and the requests does.
  pub handle_server_response-IsHandled :
      (pkt : NtpPacket) (d : ReceivedDatagram) (e : DaemonEngine f)
      → IsHandled pkt d e (handle_server_response f pkt d e).1
  unfolding handle_server_response
  handle_server_response-IsHandled pkt d e =
      found-IsHandled pkt d e
        (find_pending_request pkt.originate_ts d.source (mode pkt) e.pending_requests)
        (find_pending_request-WasFound pkt.originate_ts d.source (mode pkt) e.pending_requests)
