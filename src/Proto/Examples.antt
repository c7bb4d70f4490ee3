-- ===== src/Proto/Examples.antt =====
-- The theorems on the peer protocol at concrete inputs.
use ntpsec_rs.Prelude.{
  ℕ, ◌≡◌, ◌↔◌, refl, arith, List, [], ◌∷◌, Bool, true, false, none, ltb, length, min, take,
}
use ntpsec_rs.Prelude.Int.{pos}
use ntpsec_rs.Types.{NtpPacket, zeroed, IsTs, IsPacket}
use ntpsec_rs.Types.Leap.{no_warning}
use ntpsec_rs.Types.Mode.{client}
use ntpsec_rs.Proto.{PollInterval, is_reachable}
use ntpsec_rs.Proto.Polls.{record_all, any_of, record_all-window}
use ntpsec_rs.Proto.Filter.{IsOrder, IsFiltered, add_all, new, samples, filter}
use ntpsec_rs.Proto.Filter.Window.{newest_first, samples-add_all}
use ntpsec_rs.Proto.Filter.Least.{filter-IsFiltered}
use ntpsec_rs.Proto.Packets.{
  SystemView, IsPassed, validate_packet, validate_packet_iff, build_kod_packet, build_response,
}

-- One success, then seven failures.
abbrev outcomes : List Bool
outcomes = true ∷ false ∷ false ∷ false ∷ false ∷ false ∷ false ∷ false ∷ []

record_all-window_example :
    is_reachable (record_all outcomes (record { register = 3; count = 2 })) ≡ any_of outcomes
record_all-window_example =
    record_all-window (record { register = 3; count = 2 }) outcomes (omega arith) refl

abbrev a_poll : PollInterval
a_poll = record { min_poll = 4; max_poll = 10; current = 10 }

abbrev delays : List ℕ
delays = 9 ∷ 4 ∷ 7 ∷ 4 ∷ 8 ∷ 6 ∷ 5 ∷ 9 ∷ 7 ∷ []

samples-add_all_example :
    (samples (add_all delays new) ≡ take 8 (newest_first delays []))
    × ((add_all delays new).count ≡ min (length delays) 8)
samples-add_all_example = samples-add_all delays

-- Numbers in place of delays.
abbrev greater : ℕ → ℕ → Bool
greater a b = ltb b a

greater-IsOrder : IsOrder greater
greater-IsOrder = record {
  reflexive = λ a. ground arith;
  transitive = λ a b c h k. ground arith;
  total = λ a b h. ground arith;
}

filter-IsFiltered_example :
    IsFiltered greater (samples (add_all delays new)) (filter greater (add_all delays new))
filter-IsFiltered_example = filter-IsFiltered greater greater-IsOrder (add_all delays new)

abbrev a_request : NtpPacket
a_request = record zeroed {
  li_vn_mode = 0x23;
  transmit_ts = record { seconds = 3900000000; fraction = 5 };
}

no_time-IsTs : IsTs (record { seconds = 0; fraction = 0 })
no_time-IsTs = record { seconds = omega arith; fraction = omega arith }

a_request-IsPacket : IsPacket a_request
a_request-IsPacket = record {
  li_vn_mode = omega arith;
  stratum = omega arith;
  poll = omega arith;
  precision_pos = omega arith;
  precision_neg = omega arith;
  root_delay = omega arith;
  root_dispersion = omega arith;
  reference_id = omega arith;
  reference_ts = no_time-IsTs;
  originate_ts = no_time-IsTs;
  receive_ts = no_time-IsTs;
  transmit_ts = record { seconds = omega arith; fraction = omega arith };
}

validate_packet_iff_example :
    (validate_packet a_request 48 client ≡ 0) ↔ IsPassed a_request 48 client
validate_packet_iff_example = validate_packet_iff a_request 48 client

-- The kiss code RATE.
abbrev rate : NtpPacket
rate = build_kod_packet a_request 82 65 84 69

abbrev a_system : SystemView
a_system = record {
  leap = no_warning;
  stratum = 2;
  poll = 6;
  root_delay = 100;
  root_dispersion = 200;
  reference_id = 0x7F000001;
  reference_time = record { seconds = pos 3900000000; fraction = 0 };
}

abbrev a_response : NtpPacket
a_response =
    build_response a_request none a_system (record { seconds = pos 3900000001; fraction = 3 })
      (pos 0)
