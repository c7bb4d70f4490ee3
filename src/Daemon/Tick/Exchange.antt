-- ===== src/Daemon/Tick/Exchange.antt =====
-- A request, its response and the sample: two daemons between which two datagrams go.
use ntpsec_rs.Prelude.{
  ℕ, ◌<◌, ◌≡◌, refl, arith, none, some, List, [], ◌∷◌, ◌++◌, length, length-append, leb, ltb,
  ==_refl, true, false, All,
}
use ntpsec_rs.Prelude.Bytes.{same_bytes_refl}
use ntpsec_rs.Types.{NtpTs, NtpTs64, NtpPacket, IsPacket, mode}
use ntpsec_rs.Types.Mode.{client, server, sym_active}
use ntpsec_rs.Types.Fields.{set_li_vn_mode_fields}
use ntpsec_rs.Prelude.Int.{pos, add64}
use ntpsec_rs.Timer.{poll, schedule_poll_once}
use ntpsec_rs.Restrict.{NetAddr}
use ntpsec_rs.Proto.Packets.{same_mode, build_request, build_response, build_response_lem}
use ntpsec_rs.Float.{Float}
use ntpsec_rs.Peer.{Peer, get}
use ntpsec_rs.Select.System.{ntp_maxstrat}
use ntpsec_rs.Daemon.{
  ReceivedDatagram, PendingRequest, DaemonEngine, Handled, send, same_netaddr, system_view,
}
use ntpsec_rs.Daemon.Pending.{answers, same_ts}
use ntpsec_rs.Daemon.Receive.{handle_packet}
use ntpsec_rs.Daemon.Tick.{
  destination_of, expected_mode, request_of, push_pending, max_pending, send_poll, fire,
  poll_interval,
}
use ntpsec_rs.Daemon.Tick.Delivery.{
  datagram, IsAdmitted, IsUsable, updated, awaiting, server_answers, response_taken,
}

module _ (f : Float) (handle_control : List ℕ → NetAddr → DaemonEngine f → Handled f) where
  abbrev pub response_to : NtpPacket → NtpTs64 → DaemonEngine f → NtpPacket
  response_to request t s = build_response request none (system_view f s.system) t s.precision

  push_pending-lt :
      (r : PendingRequest) (rs : List PendingRequest)
      → length rs < max_pending
      → push_pending f r rs ≡ rs ++ r ∷ []
  unfolding push_pending
  push_pending-lt r rs h =
      let few : ltb max_pending (length (rs ++ r ∷ [])) ≡ false =
        ground (arith, length-append rs (r ∷ []), h) in
      rw few refl

  request_of-mode :
      (p : Peer f) (t : NtpTs64) (e : DaemonEngine f)
      → same_mode p.hmode sym_active ≡ false
      → mode (request_of f p t e) ≡ client
  unfolding request_of build_request
  request_of-mode p t e h =
      (set_li_vn_mode_fields e.system.core.leap p.version client (request_of f p t e) (rw h refl)).3

  same_netaddr_refl : (a : NetAddr) → same_netaddr a a ≡ true
  unfolding same_netaddr
  same_netaddr_refl a = rw (==_refl a.family, same_bytes_refl a.addr, ==_refl a.port) refl

  same_ts_refl : (t : NtpTs) → same_ts t t ≡ true
  unfolding same_ts
  same_ts_refl t = rw (==_refl t.seconds, ==_refl t.fraction) refl

  module _ (e s : DaemonEngine f) (id : ℕ) (p : Peer f) (client_addr : NetAddr)
      (t1 t2 t4 : NtpTs64) where
    -- The two datagrams of an exchange.
    abbrev pub outgoing : ReceivedDatagram
    outgoing = datagram f handle_control (request_of f p t1 e) client_addr (destination_of f p) t2

    abbrev pub incoming : ReceivedDatagram
    incoming =
        datagram f handle_control (response_to (request_of f p t1 e) t2 s) (destination_of f p)
          client_addr t4

    pub record IsExchanged : Type 0 where
      pub asked : (fire f t1 (poll id) e).0 ≡ send (destination_of f p) outgoing.bytes ∷ []
      pub answered :
          (handle_packet f handle_control outgoing s).0 ≡ send client_addr incoming.bytes ∷ []
      pub settled :
          (handle_packet f handle_control incoming (fire f t1 (poll id) e).1).1.pending_requests
          ≡ e.pending_requests
      pub sampled :
          get f id (handle_packet f handle_control incoming (fire f t1 (poll id) e).1).1.peers
          ≡ some (updated f handle_control (response_to (request_of f p t1 e) t2 s) t1 t4 p)

    abbrev request : PendingRequest
    request = record {
      peer_id = id;
      wire_t1 = (request_of f p t1 e).transmit_ts;
      full_t1 = t1;
      destination = destination_of f p;
      expected_mode = server;
    }

    abbrev rescheduled : DaemonEngine f
    rescheduled = record e {
      timers = schedule_poll_once id (add64 t1.seconds (pos (poll_interval f p))) e.timers;
    }

    fire-poll :
        get f id e.peers ≡ some p
        → same_mode p.hmode sym_active ≡ false
        → length e.pending_requests < max_pending
        → fire f t1 (poll id) e ≡ (
          send (destination_of f p) outgoing.bytes ∷ [],
          awaiting f handle_control e.pending_requests request rescheduled,
        )
    unfolding fire send_poll expected_mode
    fire-poll there plain room =
        rw (fire, there, plain, push_pending-lt request e.pending_requests room) refl

    request-answered :
        answers (request_of f p t1 e).transmit_ts (destination_of f p) server request ≡ true
    unfolding answers
    request-answered =
        rw (same_ts_refl (request_of f p t1 e).transmit_ts, same_netaddr_refl (destination_of f p))
          refl

    -- A poll of a peer leads to a sample. When the poll timer of a client's peer fires, the daemon sends
    -- a request to the peer's address; the daemon there, if it is synchronized, answers with a response
    -- to the client's address; and the client takes the response: the peer then is the one that the
    -- sample makes, and the request is no longer pending. The packets fit their fields, the address
    -- checks of both daemons pass, there is room for one more request, no older request has the same
    -- transmit time, address and mode, and the response passes the checks of a sample.
    pub exchange-IsExchanged :
        get f id e.peers ≡ some p
        → same_mode p.hmode sym_active ≡ false
        → length e.pending_requests < max_pending
        → IsPacket (request_of f p t1 e)
        → IsPacket (response_to (request_of f p t1 e) t2 s)
        → leb ntp_maxstrat s.system.core.stratum ≡ false
        → IsAdmitted f handle_control client client_addr (destination_of f p) s
        → IsAdmitted f handle_control server (destination_of f p) client_addr e
        → All
            (λ q. answers (request_of f p t1 e).transmit_ts (destination_of f p) server q ≡ false)
            e.pending_requests
        → IsUsable f handle_control (response_to (request_of f p t1 e) t2 s) t1 t4 p
        → IsExchanged
    unfolding build_response
    exchange-IsExchanged there plain room fits_request fits_response synchronized at_server
          at_client older usable =
        let taken =
          response_taken f handle_control (response_to (request_of f p t1 e) t2 s)
            (destination_of f p) client_addr t4 rescheduled e.pending_requests request p
            fits_response
            (build_response_lem (request_of f p t1 e) none (system_view f s.system) t2
              s.precision).2
            (record {
              no_loop = at_client.no_loop;
              flags = at_client.flags;
              accepted = at_client.accepted;
              unlimited = at_client.unlimited;
            })
            older request-answered there usable in
        record {
          asked = rw (fire-poll there plain room) refl;
          answered =
              server_answers f handle_control (request_of f p t1 e) client_addr (destination_of f p)
                t2 s fits_request (request_of-mode p t1 e plain) at_server synchronized;
          settled = rw (fire-poll there plain room) taken.0;
          sampled = rw (fire-poll there plain room) taken.1;
        }
