-- ===== src/Daemon/PeerStatus.antt =====
-- The status words of the peers: `peer_status` of ntp_control.rs, and the list of READSTAT.
use ntpsec_rs.Prelude.{
  ℕ, suc, ◌+◌, ◌*◌, ◌%◌, ◌^◌, ◌&&◌, bit_or, bit_and, min, Option, none, some, List, [], ◌∷◌, ◌++◌,
  ltb, ◌==◌, not, if◌then◌else◌, Bool, false,
}
use ntpsec_rs.Prelude.Bits.{low}
use ntpsec_rs.Prelude.Bytes.{be16}
use ntpsec_rs.Types.Mode.{broadcast}
use ntpsec_rs.Proto.{is_reachable}
use ntpsec_rs.Proto.Packets.{same_mode}
use ntpsec_rs.Float.{Float}
use ntpsec_rs.Peer.{Peer, contains}

-- The selection states that the handler tells apart.
pub data SelectionStatus : Type 0 where
  rejected candidate system_peer : SelectionStatus

unfoldable pub to_bits : SelectionStatus → ℕ
to_bits rejected = 0
to_bits candidate = 4
to_bits system_peer = 6

abbrev pub flag_if : Bool → ℕ → ℕ → ℕ
flag_if b mask flags = if b then bit_or flags mask else flags

module _ (f : Float) where
  unfoldable pub status_flags : Peer f → SelectionStatus → ℕ
  unfolding is_reachable same_mode to_bits
  status_flags p selection =
      bit_or
        (flag_if (same_mode p.hmode broadcast) 0x08 (
          flag_if (is_reachable p.reach) 0x10 (
            flag_if (contains p.flags 2) 0x20
              (flag_if (contains p.flags 1) 0x40 (flag_if (contains p.flags 256) 0x80 0)))))
        (low (to_bits selection) 3)

  -- The codes: 0 unspecified, 2 reachable, 3 unreachable, 5 synchronization, 8 authentication. The
  -- bits are TEST1, TEST10, TEST9 and TEST3.
  unfoldable pub event_code : Peer f → ℕ
  unfolding is_reachable
  event_code p =
      if not (p.flash == 0)
      then (if not (bit_and p.flash 1 == 0)
          then 0
          else if not (bit_and p.flash 512 == 0)
          then 8
          else if not (bit_and p.flash 256 == 0)
          then 3
          else if not (bit_and p.flash 4 == 0)
          then 5
          else 0)
      else if not (is_reachable p.reach)
      then 3
      else if ltb p.stratum 16
      then 2
      else 0

  unfoldable pub event_count : Peer f → ℕ
  event_count p = if ltb 0 p.reach.count then min (low p.reach.count 4) 1 else 1

  unfoldable pub peer_status : Peer f → SelectionStatus → ℕ
  unfolding status_flags event_code event_count
  peer_status p selection =
      bit_or (status_flags p selection * 2 ^ 8)
        (bit_or (low (event_count p) 4 * 2 ^ 4) (low (event_code p) 4))

  unfoldable pub selection_of : Option ℕ → Peer f → SelectionStatus
  unfolding is_reachable
  selection_of sys_peer p =
      if elim sys_peer [ none ↦ false | some i ↦ i == p.associd ]
      then system_peer
      else if is_reachable p.reach && ltb p.stratum 16
      then candidate
      else rejected

  -- Identifier and status word of every peer, `i` being the index of the first.
  unfoldable pub read_status : Option ℕ → ℕ → List (Peer f) → List ℕ
  unfolding peer_status selection_of
  read_status sys_peer i [] = []
  read_status sys_peer i (p ∷ ps) =
      be16 (if ltb 0 p.associd then p.associd else (i + 1) % 2 ^ 16)
      ++ (be16 (peer_status p (selection_of sys_peer p)) ++ read_status sys_peer (suc i) ps)

  unfoldable pub find_peer : ℕ → List (Peer f) → Option (Peer f)
  find_peer associd [] = none
  find_peer associd (p ∷ ps) = if p.associd == associd then some p else find_peer associd ps
