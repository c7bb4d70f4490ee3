-- ===== src/Daemon/Tick/Delivery.antt =====
-- What lets a request through to its response, and a response through to its sample.
use ntpsec_rs.Prelude.{
  ℕ, zero, suc, ◌≡◌, refl, ap, ◌&&◌, none, some, List, [], ◌∷◌, ◌++◌, length, leb, ◌==◌, not, true,
  false, All, ok-injective,
}
use ntpsec_rs.Types.{NtpTs, NtpTs64, NtpPacket, IsPacket, mode}
use ntpsec_rs.Types.Mode.{NtpMode, client, server, ntp_control}
use ntpsec_rs.Types.Header.{encode_header, decode_header}
use ntpsec_rs.Types.RoundTrip.{decode_header-encode_header}
use ntpsec_rs.Restrict.{NetAddr, accept, check}
use ntpsec_rs.Monitor.{is_rate_limited}
use ntpsec_rs.Proto.Packets.{same_mode, build_response}
use ntpsec_rs.Float.{Float}
use ntpsec_rs.Peer.{Peer, get, get_elem?}
use ntpsec_rs.Daemon.{
  ReceivedDatagram, PendingRequest, DaemonEngine, Handled, send, with_counters, same_netaddr,
  is_ipv4_loopback, system_view, put_peer, with_peer,
}
use ntpsec_rs.Fp.{ntp_ts_to_ntpts}
use ntpsec_rs.Select.System.{ntp_maxstrat}
use ntpsec_rs.Daemon.Pending.{answers, find_pending_request, request_at, remove_request}
use ntpsec_rs.Daemon.Response.{
  same_ts64, is_crazy, compute_offsets, sampled, measured, for_peer, for_request, found,
  handle_server_response, without_request,
}
use ntpsec_rs.Daemon.Receive.{
  handle_packet, handle_time_packet, handle_accepted, handle_sized, handle_mode, is_request,
  count_version, count_received, respond, handle_request,
}

module _ (f : Float) (handle_control : List ℕ → NetAddr → DaemonEngine f → Handled f) where
  abbrev pub datagram : NtpPacket → NetAddr → NetAddr → NtpTs64 → ReceivedDatagram
  datagram pkt source destination t = record {
    bytes = encode_header pkt;
    source = source;
    destination = destination;
    rx_timestamp = t;
  }

  -- What lets a packet of mode `m` from `source` through to its handler.
  pub record IsAdmitted (m : NtpMode) (source destination : NetAddr) (e : DaemonEngine f)
      : Type 0 where
    pub no_loop : (same_netaddr source destination && not (is_ipv4_loopback source)) ≡ false
    pub flags : ℕ
    pub accepted : check e.restrictions source m ≡ (accept, flags)
    pub unlimited : (is_request m && (is_rate_limited f source e.monitor).0) ≡ false

  pub handle_packet-admitted :
      (m : NtpMode) (pkt : NtpPacket) (source destination : NetAddr) (t : NtpTs64)
      (e : DaemonEngine f)
      → IsPacket pkt
      → mode pkt ≡ m
      → same_mode m ntp_control ≡ false
      → IsAdmitted m source destination e
      → handle_packet f handle_control (datagram pkt source destination t) e
        ≡ handle_mode f m pkt
            (datagram pkt source destination t)
            (with_counters f (count_version pkt.li_vn_mode) e)
  unfolding handle_packet handle_time_packet handle_accepted handle_sized decode_header mode
  handle_packet-admitted m pkt source destination t e h is_m not_control a =
      let back = ok-injective (decode_header-encode_header pkt h) in
      rw (is_m, not_control, a.no_loop, a.accepted, a.unlimited, back) refl

  pub server_answers :
      (pkt : NtpPacket) (source destination : NetAddr) (t : NtpTs64) (s : DaemonEngine f)
      → IsPacket pkt
      → mode pkt ≡ client
      → IsAdmitted client source destination s
      → leb ntp_maxstrat s.system.core.stratum ≡ false
      → (handle_packet f handle_control (datagram pkt source destination t) s).0
        ≡ send source
            (encode_header (build_response pkt none (system_view f s.system) t s.precision))
          ∷ []
  unfolding handle_mode handle_request respond
  server_answers pkt source destination t s h is_client a synchronized =
      rw (handle_packet-admitted client pkt source destination t s h is_client refl a, synchronized)
        refl

  -- The last request in the list, which none before it forestalls.
  module _ (originate_ts : NtpTs) (source : NetAddr) (m : NtpMode) (r : PendingRequest)
      (answered : answers originate_ts source m r ≡ true) where
    find_pending_request-last :
        (rs : List PendingRequest)
        → All (λ q. answers originate_ts source m q ≡ false) rs
        → find_pending_request originate_ts source m (rs ++ r ∷ []) ≡ some (length rs)
    unfolding find_pending_request
    find_pending_request-last [] h = rw answered refl
    find_pending_request-last (q ∷ qs) h = rw (h.0, find_pending_request-last qs h.1) refl

  request_at-last :
      (r : PendingRequest) (rs : List PendingRequest)
      → request_at (length rs) (rs ++ r ∷ []) ≡ some r
  unfolding request_at
  request_at-last r [] = refl
  request_at-last r (q ∷ qs) = request_at-last r qs

  remove_request-last :
      (r : PendingRequest) (rs : List PendingRequest)
      → remove_request (length rs) (rs ++ r ∷ []) ≡ rs
  unfolding remove_request
  remove_request-last r [] = refl
  remove_request-last r (q ∷ qs) = ap (λ t. q ∷ t) (remove_request-last r qs)

  get-put_peer_self :
      (i : ℕ) (p q : Peer f) (ps : List (Peer f))
      → get_elem? f i ps ≡ some p
      → get_elem? f i (put_peer f i q ps) ≡ some q
  unfolding get_elem? put_peer
  get-put_peer_self i p q [] h = cc
  get-put_peer_self zero p q (x ∷ xs) h = refl
  get-put_peer_self (suc i) p q (x ∷ xs) h = get-put_peer_self i p q xs h

  -- The offset and the delay that a response gives.
  abbrev pub measurement : NtpPacket → NtpTs64 → NtpTs64 → f.F × f.F
  measurement pkt t1 t4 =
      compute_offsets f t1 (ntp_ts_to_ntpts pkt.receive_ts) (ntp_ts_to_ntpts pkt.transmit_ts) t4

  -- The peer behind it.
  abbrev pub updated : NtpPacket → NtpTs64 → NtpTs64 → Peer f → Peer f
  updated pkt t1 t4 p = sampled f pkt (measurement pkt t1 t4).0 (measurement pkt t1 t4).1 t1 t4 p

  -- What a response must be for the sample to be taken by a peer.
  pub record IsUsable (pkt : NtpPacket) (t1 t4 : NtpTs64) (p : Peer f) : Type 0 where
    pub new : same_ts64 p.originate_time t1 ≡ false
    pub no_kiss : (pkt.stratum == 0) ≡ false
    pub synchronized : leb ntp_maxstrat pkt.stratum ≡ false
    pub sane : is_crazy f (measurement pkt t1 t4).0 ≡ false

  for_request-usable :
      (i : ℕ) (pkt : NtpPacket) (t : NtpTs64) (e : DaemonEngine f) (r : PendingRequest) (p : Peer f)
      → get f r.peer_id e.peers ≡ some p
      → IsUsable pkt r.full_t1 t p
      → (for_request f i (some r) pkt t e).1
        ≡ without_request f i (with_peer f r.peer_id (updated pkt r.full_t1 t p) e)
  unfolding for_peer measured for_request
  for_request-usable i pkt t e r p there u =
      rw (for_request, there, u.new, u.no_kiss, u.synchronized, u.sane) refl

  abbrev pub awaiting : List PendingRequest → PendingRequest → DaemonEngine f → DaemonEngine f
  awaiting rs r e = record e { pending_requests = rs ++ r ∷ [] }

  -- A response that answers the last request.
  pub response_taken :
      (pkt : NtpPacket) (source destination : NetAddr) (t : NtpTs64) (e : DaemonEngine f)
      (rs : List PendingRequest) (r : PendingRequest) (p : Peer f)
      → IsPacket pkt
      → mode pkt ≡ server
      → IsAdmitted server source destination e
      → All (λ q. answers pkt.originate_ts source server q ≡ false) rs
      → answers pkt.originate_ts source server r ≡ true
      → get f r.peer_id e.peers ≡ some p
      → IsUsable pkt r.full_t1 t p
      → ((handle_packet f handle_control
            (datagram pkt source destination t)
            (awaiting rs r e)).1.pending_requests
          ≡ rs)
        × (get f r.peer_id
              (handle_packet f handle_control
                (datagram pkt source destination t)
                (awaiting rs r e)).1.peers
            ≡ some (updated pkt r.full_t1 t p))
  unfolding handle_mode handle_server_response found get
  response_taken pkt source destination t e rs r p h is_server a before answered there u =
      let e' =
        with_counters f count_received
          (with_counters f (count_version pkt.li_vn_mode) (awaiting rs r e)) in
      rw
        (
          handle_packet-admitted server pkt source destination t (awaiting rs r e) h is_server refl
              (record {
                no_loop = a.no_loop;
                flags = a.flags;
                accepted = a.accepted;
                unlimited = a.unlimited;
              }),
          is_server,
          find_pending_request-last pkt.originate_ts source server r answered rs before,
          request_at-last r rs,
          for_request-usable (length rs) pkt t e' r p there u,
        )
        (
          remove_request-last r rs,
          get-put_peer_self r.peer_id p (updated pkt r.full_t1 t p) e.peers.peers there,
        )
