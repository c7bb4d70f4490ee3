-- ===== src/Monitor/Examples.antt =====
-- The theorems on the monitor at concrete inputs.
use ntpsec_rs.Prelude.{ℕ, ◌≡◌, refl, arith, some, List, [], ◌∷◌, replicate, true}
use ntpsec_rs.Prelude.Bytes.{same_bytes}
use ntpsec_rs.Prelude.Int.{pos}
use ntpsec_rs.Types.{NtpTs64}
use ntpsec_rs.Restrict.{SockAddr, inet}
use ntpsec_rs.Monitor.{NonceCache, MonEntry, MonList, new, record_packet, find_entry, same_source}
use ntpsec_rs.Monitor.Oldest.{IsOrder}
use ntpsec_rs.Monitor.Nonces.{request, AreOthers}
use ntpsec_rs.Monitor.Once.{IsOnce, verify_nonce-generate_nonce}
use ntpsec_rs.Monitor.Entries.{tracked, find_entry-record_packet}

abbrev cache : NonceCache
cache = record { nonces = record { nonce = replicate 32 1; created = 5 } ∷ []; max_nonces = 1 }

abbrev nonce : List ℕ
nonce = replicate 32 7

any_order : IsOrder (λ es. es)
any_order = record { held = λ es e h. h; met = λ es e h. h }

other_nonce : AreOthers nonce (request 15 25 (replicate 32 3) ∷ [])
unfolding same_bytes
other_nonce = (refl, _)

-- Another nonce is requested before the checks, and takes the only place.
verify_nonce-generate_nonce_example :
    IsOnce
      (λ es. es)
      10
      20
      30000000030
      30000000040
      nonce
      (request 15 25 (replicate 32 3) ∷ [])
      []
      cache
verify_nonce-generate_nonce_example =
    verify_nonce-generate_nonce (λ es. es) 10 20 30000000030 30000000040 nonce
      (request 15 25 (replicate 32 3) ∷ []) [] cache any_order (omega arith) (omega arith, _)
      (omega arith) other_nonce _

abbrev source : ℕ → SockAddr
source host = record {
  family = inet;
  sin_addr = 10 ∷ 0 ∷ 0 ∷ host ∷ [];
  sin6_addr = replicate 16 0;
}

abbrev at : ℕ → NtpTs64
at seconds = record { seconds = pos seconds; fraction = 0 }

abbrev entry : ℕ → ℕ → MonEntry
entry host seconds = record {
  addr = source host;
  last_pkt = at seconds;
  first_pkt = at seconds;
  count = 3;
  flags = 0;
}

abbrev clients : MonList
clients = record new { entries = entry 1 100 ∷ entry 2 200 ∷ []; max_entries = 3 }

known : same_source (source 2) (source 2) ≡ true
unfolding same_source same_bytes
known = refl

find_entry-record_packet_example :
    find_entry (source 2) (record_packet (source 2) (at 300) clients).entries
    ≡ some (tracked (source 2) (at 300) (find_entry (source 2) clients.entries))
find_entry-record_packet_example =
    find_entry-record_packet (source 2) (at 300) clients known (omega arith)
