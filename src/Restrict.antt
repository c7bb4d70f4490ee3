-- ===== src/Restrict.antt =====
-- The access restrictions of crates/ntpsec-rs-core/src/ntp_restrict.rs, and the addresses of
-- ntp_io.rs that they are asked about.
pub mod Flags
mod Examples
use ntpsec_rs.Prelude.{
  ℕ, zero, suc, ◌+◌, ◌-◌, ◌*◌, ◌≡◌, ◌&&◌, ◌||◌, bit_and, bit_or, List, [], ◌∷◌, ◌++◌, take,
  replicate, ◌==◌, not, if◌then◌else◌, Bool, true, false,
}
use ntpsec_rs.Prelude.Bits.{bit}
use ntpsec_rs.Types.Mode.{NtpMode, ntp_control, private}

pub data AddressFamily : Type 0 where
  unspec inet inet6 : AddressFamily

-- The storage of an address, with the bytes that its two readings look at: those of `sin_addr` and
-- those of `sin6_addr`, which do not overlap.
pub record SockAddr : Type 0 where
  pub family : AddressFamily
  pub sin_addr : List ℕ
  pub sin6_addr : List ℕ

pub record NetAddr : Type 0 where
  pub family : ℕ
  pub addr : List ℕ
  pub port : ℕ

unfoldable pub netaddr_to_sockaddr : NetAddr → SockAddr
netaddr_to_sockaddr a =
    if a.family == 4
    then record { family = inet; sin_addr = take 4 a.addr; sin6_addr = replicate 16 0 }
    else if a.family == 6
    then record { family = inet6; sin_addr = replicate 4 0; sin6_addr = a.addr }
    else record { family = unspec; sin_addr = replicate 4 0; sin6_addr = replicate 16 0 }

pub record RestrictEntry : Type 0 where
  pub addr : SockAddr
  pub mask : SockAddr
  pub flags : ℕ
  pub mru_depth : ℕ

pub record RestrictList : Type 0 where
  pub entries : List RestrictEntry
  pub default_v4_flags : ℕ
  pub default_v6_flags : ℕ

abbrev pub empty : RestrictList
empty = record { entries = []; default_v4_flags = 0; default_v6_flags = 0 }

unfoldable pub add_entry : RestrictEntry → RestrictList → RestrictList
add_entry e l = record l { entries = l.entries ++ e ∷ [] }

unfoldable pub set_default_v4 : ℕ → RestrictList → RestrictList
set_default_v4 flags l = record l { default_v4_flags = flags }

unfoldable pub set_default_v6 : ℕ → RestrictList → RestrictList
set_default_v6 flags l = record l { default_v6_flags = flags }

-- `(a & m) == (r & m)` on every byte.
unfoldable pub masked_equal : List ℕ → List ℕ → List ℕ → Bool
masked_equal (a ∷ as_) (r ∷ rs) (m ∷ ms) = (bit_and a m == bit_and r m) && masked_equal as_ rs ms
masked_equal xs rs ms = true

unfoldable pub matches_in : AddressFamily → AddressFamily → SockAddr → SockAddr → SockAddr → Bool
unfolding masked_equal
matches_in inet inet a r m = masked_equal a.sin_addr r.sin_addr m.sin_addr
matches_in inet6 inet6 a r m = masked_equal a.sin6_addr r.sin6_addr m.sin6_addr
matches_in f g a r m = false

unfoldable pub addr_matches : SockAddr → SockAddr → SockAddr → Bool
unfolding matches_in
addr_matches addr restrict_addr mask =
    matches_in addr.family restrict_addr.family addr restrict_addr mask

-- The loop of `evaluate`, with `flags` and `matched`.
unfoldable pub evaluate_loop : SockAddr → List RestrictEntry → ℕ → Bool → ℕ × Bool
evaluate_loop addr [] flags matched = (flags, matched)
evaluate_loop addr (e ∷ es) flags matched =
    let with_entry = evaluate_loop addr es (bit_or flags e.flags) true in
    let without_entry = evaluate_loop addr es flags matched in
    if addr_matches addr e.addr e.mask then with_entry else without_entry

unfoldable pub default_flags : RestrictList → AddressFamily → ℕ
default_flags l inet6 = l.default_v6_flags
default_flags l f = l.default_v4_flags

unfoldable pub evaluate : RestrictList → SockAddr → ℕ
unfolding evaluate_loop default_flags
evaluate l addr =
    let found = evaluate_loop addr l.entries 0 false in
    if found.1 then found.0 else default_flags l addr.family

pub data RestrictAction : Type 0 where
  accept discard send_kod ignore : RestrictAction

unfoldable pub is_query : NtpMode → Bool
is_query ntp_control = true
is_query private = true
is_query m = false

-- `flags.contains(1 << i)`
unfoldable pub has_flag : ℕ → ℕ → Bool
unfolding bit
has_flag i flags = bit i flags == 1

-- IGNORE is bit 0, NOQUERY bit 4 and KOD bit 8.
unfoldable pub action_for : ℕ → NtpMode → RestrictAction
unfolding has_flag is_query
action_for flags mode =
    if has_flag 0 flags
    then ignore
    else if has_flag 4 flags && is_query mode
    then discard
    else if has_flag 8 flags
    then send_kod
    else accept

unfoldable pub check : RestrictList → NetAddr → NtpMode → RestrictAction × ℕ
unfolding evaluate netaddr_to_sockaddr action_for
check l addr mode =
    let flags = evaluate l (netaddr_to_sockaddr addr) in (action_for flags mode, flags)
