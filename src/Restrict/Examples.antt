-- ===== src/Restrict/Examples.antt =====
-- The theorems on restrictions at concrete inputs.
use ntpsec_rs.Prelude.{ℕ, ◌≡◌, refl, List, [], ◌∷◌, true, replicate, if◌then◌else◌}
use ntpsec_rs.Prelude.Bits.{bit}
use ntpsec_rs.Types.Mode.{client}
use ntpsec_rs.Restrict.{
  NetAddr, SockAddr, RestrictEntry, RestrictList, inet, add_entry, addr_matches, matches_in,
  masked_equal, evaluate, default_flags, check, ignore, netaddr_to_sockaddr,
}
use ntpsec_rs.Restrict.Flags.{any_match, bit_of_matches, evaluate-bit, check-add_entry_ignore}

abbrev v4 : List ℕ → SockAddr
v4 octets = record { family = inet; sin_addr = octets; sin6_addr = replicate 16 0 }

-- `restrict 10.0.0.0 mask 255.0.0.0 ignore`
abbrev ten : RestrictEntry
ten = record {
  addr = v4 (10 ∷ 0 ∷ 0 ∷ 0 ∷ []);
  mask = v4 (255 ∷ 0 ∷ 0 ∷ 0 ∷ []);
  flags = 1;
  mru_depth = 0;
}

abbrev a_list : RestrictList
a_list = record { entries = ten ∷ []; default_v4_flags = 256; default_v6_flags = 0 }

abbrev a_host : NetAddr
a_host = record { family = 4; addr = 10 ∷ 1 ∷ 2 ∷ 3 ∷ replicate 12 0; port = 123 }

a_host_matches : addr_matches (netaddr_to_sockaddr a_host) ten.addr ten.mask ≡ true
unfolding addr_matches matches_in masked_equal netaddr_to_sockaddr
a_host_matches = refl

evaluate-bit_example : bit 0 (evaluate a_list (v4 (10 ∷ 1 ∷ 2 ∷ 3 ∷ []))) ≡ (
    if any_match (v4 (10 ∷ 1 ∷ 2 ∷ 3 ∷ [])) a_list.entries
    then bit_of_matches 0 (v4 (10 ∷ 1 ∷ 2 ∷ 3 ∷ [])) a_list.entries
    else bit 0 (default_flags a_list inet))
evaluate-bit_example = evaluate-bit a_list (v4 (10 ∷ 1 ∷ 2 ∷ 3 ∷ [])) 0

ten_ignores : bit 0 ten.flags ≡ 1
unfolding bit
ten_ignores = refl

check-add_entry_ignore_example : (check (add_entry ten a_list) a_host client).0 ≡ ignore
check-add_entry_ignore_example =
    check-add_entry_ignore a_list ten a_host client a_host_matches ten_ignores
