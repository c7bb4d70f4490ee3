-- ===== src/Select/Examples.antt =====
-- The theorems on selection at two concrete peers, with natural numbers in place of floating point.
use ntpsec_rs.Prelude.{ℕ, [], ◌∷◌, replicate}
use ntpsec_rs.Prelude.Int.{pos}
use ntpsec_rs.Types.{NtpTs64}
use ntpsec_rs.Types.Leap.{alarm}
use ntpsec_rs.Types.Mode.{client}
use ntpsec_rs.Types.Version.{v4}
use ntpsec_rs.Restrict.{inet}
use ntpsec_rs.Float.Toy.{toy}
use ntpsec_rs.Peer.{Peer, PeerAddr, new, prefer, zero_ts}
use ntpsec_rs.Select.Survivors.{IsSelection, clock_cluster-IsSelection}
use ntpsec_rs.Select.System.{SystemState, update_from_peers}
use ntpsec_rs.Select.Outcome.{IsUpdated, update_from_peers-IsUpdated}

abbrev address : ℕ → PeerAddr
address host = record {
  sock = record { family = inet; sin_addr = 10 ∷ 0 ∷ 0 ∷ host ∷ []; sin6_addr = replicate 16 0 };
  port = 123;
}

abbrev near : Peer toy
near = record (new toy (address 1) client v4 6 10) {
  stratum = 2;
  offset = 5;
  reach = record { register = 255; count = 8 };
}

abbrev far : Peer toy
far = record (new toy (address 2) client v4 6 10) {
  stratum = 1;
  offset = 7;
  flags = prefer;
  reach = record { register = 1; count = 1 };
}

abbrev now : NtpTs64
now = record { seconds = pos 4000000000; fraction = 0 }

abbrev started : SystemState toy
started = record {
  leap = alarm;
  stratum = 16;
  root_delay = 0;
  root_dispersion = 0;
  reference_id = 0;
  reference_time = zero_ts;
  peer_count = 0;
  sys_jitter = 0;
  sys_offset = 0;
  sys_rootdist = 0;
}

clock_cluster-IsSelection_example : IsSelection toy (near ∷ far ∷ [])
clock_cluster-IsSelection_example = clock_cluster-IsSelection toy (near ∷ far ∷ [])

update_from_peers-IsUpdated_example :
    IsUpdated toy (update_from_peers toy now (near ∷ far ∷ []) started)
update_from_peers-IsUpdated_example = update_from_peers-IsUpdated toy now (near ∷ far ∷ []) started
