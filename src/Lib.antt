-- ===== src/Lib.antt =====
-- A model of ntpsec-rs, a network time daemon, with the theorems that make its core correct.
--
-- The program keeps time by exchanging packets with servers. A received packet is decoded (wire
-- types), checked against the restrictions, and passed to the peer protocol, which keeps a filter of
-- samples, a reachability register and a poll interval per server and builds the answers. Network Time
-- Security adds extension fields to the packets, fetches cookies by a key-establishment protocol, and
-- seals the cookies with the server's keys. From the samples of its peers the daemon selects a system
-- peer, combines the survivors (selection), and steps or slews the clock (clock discipline). The
-- monitor keeps a list of the clients. Operators query the daemon by control messages of mode 6,
-- which symmetric keys authenticate. The daemon engine drives all of this: it fires the timers, matches
-- responses to its requests, and turns every packet into actions of its owner. All of this is in
-- crates/ntpsec-rs-core/src/.
--
--   Types        ntp_types.rs: leap indicator, mode, version; the packet header (Header), what is
--                around it in a datagram (Walk, Split, Mac)
--   Fp           ntp_fp.rs: Unix time to NTP time and back, eras
--   Auth         ntp_auth.rs: keys, MACs, the key store
--   Control      ntp_control.rs: opcode, status word (Status), header (Codec), exchange (Exchange)
--   Proto        ntp_proto.rs: reachability, poll interval, kiss rate limit (Polls), clock filter
--                (Filter), packet checks and the packets that are sent (Packets)
--   Float        the operations of f64 that the daemon uses, a parameter
--   Peer         ntp_peer.rs: the peer and the table of peers; accept_sample and poll_update of
--                ntp_proto.rs (Poll)
--   Select       ntp_proto.rs: clock_intersection, clock_cluster, clock_combine and
--                update_from_peers (Intersection, Cluster, System), and what they keep (Marks,
--                Shrink, Trim, Survivors, Outcome)
--   Monitor      ntp_monitor.rs: the nonces (Oldest, Nonces, Once) and the list of clients
--                (Entries)
--   Leap         ntp_leapsec.rs: the table of leap seconds, and what it announces (Announce)
--   Calendar     ntp_calendar.rs, with the dates of ntp_fp.rs: days of the year (Yearday)
--   Timespec     timespecops.rs, and the GPS time of gpstolfp.rs: normalisation (Normal)
--   Restrict     ntp_restrict.rs with the addresses of ntp_io.rs: the restriction list
--   Timer        ntp_timer.rs: the queue of timed events, and what is due (Due)
--   RecvBuf      ntp_recvbuff.rs: the pool of receive buffers
--   Nts          nts_extens.rs (Extension, Authenticator, Padding), nts.rs (Record, Handshake,
--                State), nts_cookie.rs (Cipher, Cookie)
--   Ke           nts_client.rs (Client), nts_server.rs (Server, Session); what the two agree on
--                (Request, Accepted, Response, Sealing, Agreement, Protect)
--   Discipline   ntp_loopfilter.rs: the loop filter, and when it steps, slews or panics (Decision)
--   Daemon       daemon_engine.rs: the engine with the addresses and actions of ntp_io.rs; association
--                identifiers (Associd), requests that wait (Pending), responses (Response), received
--                packets (Receive), the selection and what follows it (Update), due timers (Tick); mode
--                6 (Control) with its writes (Write), the status words of the peers (PeerStatus), and
--                parse_mode6_vars of control_client.rs (Vars); what they do (Tick/Exchange,
--                Receive/Reply, Receive/Symmetric, Response/Effect, Update/Outcome, Control/Access)
--   Prelude      numbers, bytes, bits, lists and results that the parts share
--
-- A Rust struct is a record and an enum a data type with the same names. Bytes and unsigned integers
-- are natural numbers, with the wrap-around of their width written out; an `i64` is an integer that
-- wraps at 2 ^ 63. A `&mut self` method takes the old state and gives the new one. `Result` is Result,
-- with the error messages as constructors. A 32-byte array is a list, whose length the theorems ask for
-- where it matters. Shifts and low masks are written as `/`, `*` and `%` by powers of two.
--
-- A loop over a list is structural recursion. The loops that eat a byte string run on fuel: the record
-- and field decoders take at least four bytes in a round and get one round more than there are bytes,
-- and the walk over the extension fields likewise; the padding loop needs at most three rounds. The
-- loops that shrink a list (the nonces over their cap, the two loops of the clustering) get one round
-- more than the list has entries, since every round removes one. The search for an association
-- identifier has the 65535 rounds of the code, one for every identifier.
--
-- Parameters, since their code is not in the repository: AES-SIV (Nts.Siv) with the laws that it
-- opens what it sealed and puts a tag of 16 bytes in front; the hash functions of the MACs
-- (Auth.Digests), of which nothing is assumed; the random source and the clock, whose values are
-- arguments; the order in which a `HashMap` is gone through (Monitor), which is assumed to meet its
-- entries and nothing else; the comparison of floating-point delays in the clock filter, which is assumed to be an
-- order; f64 (Float), of which selection, polling, the rate test, the discipline and the daemon
-- assume nothing; the parsers of numbers and of hexadecimal text and `str::trim` (Env), of which
-- nothing is assumed; the TLS session (Ke.Connection), whose exporter gives as many bytes as it is
-- asked for. The root delay and dispersion of a response are there as the short format that is sent.
--
-- Not modelled: sockets, the TLS handshake, files and system calls, with the call of adjtimex and
-- the statistics; the formatted texts of logs, which are constructors, and of the variables and
-- clients that a control response carries, which the handler gets from Env as functions of the
-- state; the text of a leap file and its hash, which come as the lines that they are read as; the
-- configuration, the main loop around the daemon engine, the drivers of the reference clocks, and
-- the client tools.
pub mod Prelude
pub mod Types
pub mod Fp
pub mod Auth
pub mod Control
pub mod Proto
pub mod Restrict
pub mod Timer
pub mod RecvBuf
pub mod Ke
pub mod Float
pub mod Peer
pub mod Select
pub mod Monitor
pub mod Calendar
pub mod Leap
pub mod Timespec
pub mod Nts
pub mod Discipline
pub mod Daemon
