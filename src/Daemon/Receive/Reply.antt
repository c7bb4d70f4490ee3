-- ===== src/Daemon/Receive/Reply.antt =====
-- What the daemon sends when a packet of a time protocol arrives.
use ntpsec_rs.Prelude.{
  ℕ, ◌+◌, ◌≤◌, ◌≡◌, refl, arith, ◌&&◌, Option, none, some, List, [], ◌∷◌, ◌++◌, length, is_empty,
  ltb, leb, ◌==◌, not, false, Bool-cases, Option-cases, inl, inr, All, All-append,
}
use ntpsec_rs.Types.{NtpPacket, mode}
use ntpsec_rs.Types.Mode.{
  NtpMode, reserved, sym_active, sym_passive, client, server, broadcast, ntp_control, private,
}
use ntpsec_rs.Types.Mode as Mode
use ntpsec_rs.Types.Header.{encode_header, decode_header}
use ntpsec_rs.Restrict.{NetAddr, RestrictAction, accept, discard, send_kod, ignore}
use ntpsec_rs.Proto.Packets.{same_mode, build_kod_packet}
use ntpsec_rs.Float.{Float}
use ntpsec_rs.Float as Float
use ntpsec_rs.Restrict.{has_flag}
use ntpsec_rs.Monitor.{is_rate_limited}
use ntpsec_rs.Daemon.{peer_addr}
use ntpsec_rs.Auth.{is_auth_enabled}
use ntpsec_rs.Peer.{Peer, get}
use ntpsec_rs.Daemon.{
  ReceivedDatagram, PendingRequest, DaemonEngine, DaemonAction, LogMessage, Handled, send, log,
  adjust_clock, persist_drift, same_netaddr, is_ipv4_loopback, with_counters,
}
use ntpsec_rs.Daemon.Associd.{allocate_associd}
use ntpsec_rs.Daemon.Pending.{find_pending_request, request_at}
use ntpsec_rs.Daemon.Response.{
  same_ts64, measured, is_crazy, for_peer, for_request, found, handle_server_response,
}
use ntpsec_rs.Daemon.Receive.{
  kiss, respond, handle_request, create_passive, associate, any_with_addr, respond_passive,
  handle_passive, any_broadcast, handle_broadcast, handle_mode, handle_sized, handle_limited,
  handle_accepted, handle_checked, handle_decoded, handle_time_packet, handle_packet, first_byte,
  count_received, is_request, one_way_offset,
}

length-encode_header : (p : NtpPacket) → length (encode_header p) ≡ 48
unfolding encode_header
length-encode_header p = refl

module _ (f : Float) where
  abbrev IsReply : ReceivedDatagram → DaemonAction f → Type 0
  IsReply d (send to bytes) =
      (to ≡ d.source) × (length bytes ≡ 48) × (length bytes ≤ length d.bytes)
  IsReply d (log m) = Unit
  IsReply d (adjust_clock a) = ⊥
  IsReply d (persist_drift v) = ⊥

  abbrev pub sends : List (DaemonAction f) → ℕ
  sends [] = 0
  sends (send to bytes ∷ as_) = sends as_ + 1
  sends (log m ∷ as_) = sends as_
  sends (adjust_clock a ∷ as_) = sends as_
  sends (persist_drift v ∷ as_) = sends as_

  -- The actions that a datagram may cause.
  pub record IsQuiet (d : ReceivedDatagram) (actions : List (DaemonAction f)) : Type 0 where
    pub replies : All (IsReply d) actions
    pub once : sends actions ≤ 1

  abbrev Fits : ReceivedDatagram → Type 0
  Fits d = 48 ≤ length d.bytes

  nothing : (d : ReceivedDatagram) → IsQuiet d []
  nothing d = record { replies = tt; once = omega arith }

  logged : (d : ReceivedDatagram) (m : LogMessage f) → IsQuiet d (log m ∷ [])
  logged d m = record { replies = (tt, tt); once = omega arith }

  replied :
      (d : ReceivedDatagram) (p : NtpPacket)
      → Fits d
      → IsQuiet d (send d.source (encode_header p) ∷ [])
  replied d p h = record {
    replies = ((refl, length-encode_header p, omega (arith, length-encode_header p, h)), tt);
    once = omega arith;
  }

  measured-IsQuiet :
      (i : ℕ) (req : PendingRequest) (p : Peer f) (pkt : NtpPacket) (d : ReceivedDatagram)
      (o : f.F × f.F) (e : DaemonEngine f)
      → IsQuiet d (measured f i req p pkt d.rx_timestamp o e).0
  unfolding measured
  measured-IsQuiet i req p pkt d (offset, delay) e = elim (Bool-cases (is_crazy f offset)) [
    | inl crazy ↦ rw crazy (logged d _)
    | inr sane ↦ elim (Bool-cases (is_auth_enabled e.auth)) [
      | inl on ↦ rw (sane, on) (logged d _)
      | inr off ↦ rw (sane, off) (nothing d)
    ]
  ]

  for_peer-IsQuiet :
      (i : ℕ) (req : PendingRequest) (p : Peer f) (pkt : NtpPacket) (d : ReceivedDatagram)
      (e : DaemonEngine f)
      → IsQuiet d (for_peer f i req p pkt d.rx_timestamp e).0
  unfolding for_peer
  for_peer-IsQuiet i req p pkt d e = elim (Bool-cases (same_ts64 p.originate_time req.full_t1)) [
    | inl again ↦ rw again (logged d _)
    | inr new ↦ elim (Bool-cases (pkt.stratum == 0)) [
      | inl dead ↦ rw (new, dead) (logged d _)
      | inr real ↦ elim (Bool-cases (leb 16 pkt.stratum)) [
        | inl unsynchronized ↦ rw (new, real, unsynchronized) (nothing d)
        | inr synchronized ↦ rw (new, real, synchronized) (measured-IsQuiet i req p pkt d _ e)
      ]
    ]
  ]

  for_request-IsQuiet :
      (i : ℕ) (o : Option PendingRequest) (pkt : NtpPacket) (d : ReceivedDatagram)
      (e : DaemonEngine f)
      → IsQuiet d (for_request f i o pkt d.rx_timestamp e).0
  unfolding for_request
  for_request-IsQuiet i none pkt d e = nothing d
  for_request-IsQuiet i (some req) pkt d e = elim (Option-cases (get f req.peer_id e.peers)) [
    | inl gone ↦ rw (for_request, gone) (nothing d)
    | inr (p, there) ↦ rw (for_request, there) (for_peer-IsQuiet i req p pkt d e)
  ]

  found-IsQuiet :
      (o : Option ℕ) (pkt : NtpPacket) (d : ReceivedDatagram) (e : DaemonEngine f)
      → IsQuiet d (found f o pkt d.rx_timestamp e).0
  unfolding found
  found-IsQuiet none pkt d e = nothing d
  found-IsQuiet (some i) pkt d e = for_request-IsQuiet i (request_at i e.pending_requests) pkt d e

  handle_request-IsQuiet :
      (pkt : NtpPacket) (d : ReceivedDatagram) (e : DaemonEngine f)
      → Fits d
      → IsQuiet d (handle_request f pkt d e).0
  unfolding handle_request respond
  handle_request-IsQuiet pkt d e h = elim (Bool-cases (leb 16 e.system.core.stratum)) [
    | inl unsynchronized ↦ rw unsynchronized (nothing d)
    | inr synchronized ↦ rw synchronized (replied d _ h)
  ]

  handle_broadcast-IsQuiet :
      (pkt : NtpPacket) (d : ReceivedDatagram) (e : DaemonEngine f)
      → IsQuiet d (handle_broadcast f pkt d e).0
  unfolding handle_broadcast
  handle_broadcast-IsQuiet pkt d e =
      elim (Bool-cases (any_broadcast f (peer_addr d.source) e.peers.peers)) [
        | inr unknown ↦ rw unknown (logged d _)
        | inl known ↦
            let offset = one_way_offset f pkt d in
            elim (Bool-cases (Float.lt f (f.abs offset) (f.literal 1 0) && f.is_finite offset)) [
              | inl near ↦ rw (known, near) (logged d _)
              | inr far ↦ rw (known, far) (nothing d)
            ]
      ]

  abbrev IsSilent : ReceivedDatagram → List (DaemonAction f) → Type 0
  IsSilent d actions = All (IsReply d) actions × (sends actions ≡ 0)

  create_passive-IsSilent :
      (d : ReceivedDatagram) (r : Option ℕ × ℕ) (e : DaemonEngine f)
      → IsSilent d (create_passive f d r e).0
  unfolding create_passive
  create_passive-IsSilent d (none, n) e = (tt, refl)
  create_passive-IsSilent d (some c, n) e = ((tt, tt), refl)

  associate-IsSilent : (d : ReceivedDatagram) (e : DaemonEngine f) → IsSilent d (associate f d e).0
  unfolding associate
  associate-IsSilent d e = elim (Bool-cases (any_with_addr f (peer_addr d.source) e.peers.peers)) [
    | inl known ↦ rw known (tt, refl)
    | inr new ↦ rw new (create_passive-IsSilent d (allocate_associd f e.next_associd e.peers) e)
  ]

  sends-append : (xs ys : List (DaemonAction f)) → sends (xs ++ ys) ≡ sends xs + sends ys
  sends-append [] ys = omega arith
  sends-append (send to bytes ∷ xs) ys = omega (arith, sends-append xs ys)
  sends-append (log m ∷ xs) ys = sends-append xs ys
  sends-append (adjust_clock a ∷ xs) ys = sends-append xs ys
  sends-append (persist_drift v ∷ xs) ys = sends-append xs ys

  respond_passive-IsQuiet :
      (pkt : NtpPacket) (d : ReceivedDatagram) (r : Handled f)
      → Fits d
      → IsSilent d r.0
      → IsQuiet d (respond_passive f pkt d r).0
  unfolding respond_passive respond
  respond_passive-IsQuiet pkt d (actions, e) h (all, none_sent) =
      elim (Bool-cases (leb 16 e.system.core.stratum)) [
        | inl unsynchronized ↦
            rw unsynchronized (record { replies = all; once = omega (arith, none_sent) })
        | inr synchronized ↦
            let answer : IsQuiet d (respond f pkt d e ∷ []) = replied d _ h in
            rw synchronized (record {
              replies = All-append (IsReply d) actions _ all answer.replies;
              once =
                  omega
                    (arith, none_sent, sends-append actions (respond f pkt d e ∷ []), answer.once);
            })
      ]

  handle_mode-IsQuiet :
      (m : NtpMode) (pkt : NtpPacket) (d : ReceivedDatagram) (e : DaemonEngine f)
      → Fits d
      → IsQuiet d (handle_mode f m pkt d e).0
  unfolding handle_mode handle_server_response handle_passive
  handle_mode-IsQuiet client pkt d e h = handle_request-IsQuiet pkt d e h
  handle_mode-IsQuiet sym_active pkt d e h = handle_request-IsQuiet pkt d e h
  handle_mode-IsQuiet server pkt d e h =
      let e' = with_counters f count_received e in
      found-IsQuiet (find_pending_request pkt.originate_ts d.source (mode pkt) e'.pending_requests)
        pkt d e'
  handle_mode-IsQuiet sym_passive pkt d e h =
      let e' = with_counters f count_received e in
      respond_passive-IsQuiet pkt d (associate f d e') h (associate-IsSilent d e')
  handle_mode-IsQuiet broadcast pkt d e h = handle_broadcast-IsQuiet pkt d e
  handle_mode-IsQuiet private pkt d e h = logged d _
  handle_mode-IsQuiet reserved pkt d e h = nothing d
  handle_mode-IsQuiet ntp_control pkt d e h = nothing d

  kiss-IsQuiet :
      (pkt : NtpPacket) (a b c k : ℕ) (d : ReceivedDatagram)
      → Fits d
      → IsQuiet d (kiss f pkt a b c k d ∷ [])
  unfolding kiss
  kiss-IsQuiet pkt a b c k d h = replied d (build_kod_packet pkt a b c k) h

  handle_accepted-IsQuiet :
      (flags : ℕ) (m : NtpMode) (pkt : NtpPacket) (d : ReceivedDatagram) (e : DaemonEngine f)
      → Fits d
      → IsQuiet d (handle_accepted f flags m pkt d e).0
  unfolding handle_accepted handle_limited handle_sized
  handle_accepted-IsQuiet flags m pkt d e h =
      elim (Bool-cases (is_request m && (is_rate_limited f d.source e.monitor).0)) [
        | inl limited ↦ elim (Bool-cases (has_flag 8 flags)) [
          | inl kod ↦ rw (limited, kod) (kiss-IsQuiet pkt b'R' b'A' b'T' b'E' d h)
          | inr silent ↦ rw (limited, silent) (nothing d)
        ]
        | inr free ↦
            let long : ltb (length d.bytes) 48 ≡ false = ground (arith, h) in
            rw (free, long) (handle_mode-IsQuiet m pkt d e h)
      ]

  handle_checked-IsQuiet :
      (c : RestrictAction × ℕ) (m : NtpMode) (pkt : NtpPacket) (d : ReceivedDatagram)
      (e : DaemonEngine f)
      → Fits d
      → IsQuiet d (handle_checked f c m pkt d e).0
  unfolding handle_checked
  handle_checked-IsQuiet (accept, flags) m pkt d e h = handle_accepted-IsQuiet flags m pkt d e h
  handle_checked-IsQuiet (discard, flags) m pkt d e h = nothing d
  handle_checked-IsQuiet (ignore, flags) m pkt d e h = nothing d
  handle_checked-IsQuiet (send_kod, flags) m pkt d e h = kiss-IsQuiet pkt b'D' b'E' b'N' b'Y' d h

  handle_time_packet-IsQuiet :
      (m : NtpMode) (d : ReceivedDatagram) (e : DaemonEngine f)
      → IsQuiet d (handle_time_packet f m d e).0
  unfolding handle_time_packet handle_decoded decode_header
  handle_time_packet-IsQuiet m d e = elim (Bool-cases (ltb (length d.bytes) 48)) [
    | inl short ↦ rw short (logged d _)
    | inr long ↦
        elim (Bool-cases (same_netaddr d.source d.destination && not (is_ipv4_loopback d.source))) [
          | inl loop ↦ rw (long, loop) (logged d _)
          | inr other ↦ rw (long, other) (handle_checked-IsQuiet _ m _ d _ (ground (arith, long)))
        ]
  ]

  -- A datagram of another mode than 6 makes the daemon send at most one packet: of 48 bytes, which is
  -- no more than the datagram has, and to the address and port that it came from. It never adjusts the
  -- clock and never writes the drift, whatever the state of the daemon.
  pub handle_packet-IsQuiet :
      (handle_control : List ℕ → NetAddr → DaemonEngine f → Handled f) (d : ReceivedDatagram)
      (e : DaemonEngine f)
      → same_mode (Mode.from_bits (first_byte f d)) ntp_control ≡ false
      → IsQuiet d (handle_packet f handle_control d e).0
  unfolding handle_packet
  handle_packet-IsQuiet handle_control d e h = elim (Bool-cases (is_empty d.bytes)) [
    | inl empty ↦ rw empty (logged d _)
    | inr full ↦ rw (full, h) (handle_time_packet-IsQuiet _ d e)
  ]
