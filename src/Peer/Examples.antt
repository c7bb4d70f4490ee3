-- ===== src/Peer/Examples.antt =====
-- The theorems on polling at a concrete peer, with natural numbers in place of floating point.
use ntpsec_rs.Prelude.{arith, [], ◌∷◌, replicate}
use ntpsec_rs.Types.Mode.{client}
use ntpsec_rs.Types.Version.{v4}
use ntpsec_rs.Restrict.{inet}
use ntpsec_rs.Float.Toy.{toy}
use ntpsec_rs.Peer.{Peer, PeerAddr, new, iburst}
use ntpsec_rs.Peer.Poll.{IsPolled, poll_update, poll_update-IsPolled}

abbrev address : PeerAddr
address = record {
  sock = record { family = inet; sin_addr = 10 ∷ 0 ∷ 0 ∷ 1 ∷ []; sin6_addr = replicate 16 0 };
  port = 123;
}

abbrev eager : Peer toy
eager = record (new toy address client v4 6 10) { flags = iburst }

eager-IsPolled : IsPolled toy eager
unfolding new
eager-IsPolled = record {
  ordered = omega arith;
  byte = omega arith;
  least = omega arith;
  most = omega arith;
}

poll_update-IsPolled_example : IsPolled toy (poll_update toy eager)
poll_update-IsPolled_example = poll_update-IsPolled toy eager eager-IsPolled
