-- ===== src/Monitor.antt =====
-- The list of clients of crates/ntpsec-rs-core/src/ntp_monitor.rs, and the cache of the nonces that
-- protect its reading. The clock, the random source and the order of a `HashMap` are arguments.
pub mod Oldest
pub mod Nonces
pub mod Once
pub mod Entries
mod Examples
use ntpsec_rs.Prelude.{
  ℕ, zero, suc, ◌+◌, ◌-◌, ◌%◌, ◌^◌, ◌&&◌, min, Option, none, some, List, [], ◌∷◌, ◌++◌, length,
  take, replicate, ltb, leb, ◌==◌, not, if◌then◌else◌, Bool, true, false,
}
use ntpsec_rs.Prelude.Bytes.{same_bytes}
use ntpsec_rs.Prelude.Int.{ℤ, pos, negsuc, neg_part, ltb_ℤ, leb_ℤ, sub64, ◌-ℤ◌}
use ntpsec_rs.Types.{NtpTs64}
use ntpsec_rs.Restrict.{SockAddr, AddressFamily, inet, inet6, unspec, NetAddr}
use ntpsec_rs.Float.{Float}
use ntpsec_rs.Float as Float
use mathlib.Core.List.{reverse}

-- `NONCE_EXPIRY` in nanoseconds, the unit of an `Instant` here.
abbrev pub nonce_expiry : ℕ
nonce_expiry = 30000000000

pub record NonceEntry : Type 0 where
  pub nonce : List ℕ
  pub created : ℕ

-- The map from the hexadecimal form of a nonce: as a list, whose keys are the nonces themselves.
pub record NonceCache : Type 0 where
  pub nonces : List NonceEntry
  pub max_nonces : ℕ

abbrev pub new_cache : NonceCache
new_cache = record { nonces = []; max_nonces = 64 }

abbrev pub with_max : ℕ → NonceCache
with_max max_nonces = record { nonces = []; max_nonces = max_nonces }

-- The time from which on nonces are fresh. An `Instant` counts from the earliest that can be
-- represented; before it `checked_sub` gives `None`, and the code takes the time itself.
unfoldable pub nonce_cutoff : ℕ → ℕ
nonce_cutoff now = if leb nonce_expiry now then now - nonce_expiry else now

-- `retain(|_, entry| entry.created > cutoff)`
unfoldable pub retain_fresh : ℕ → List NonceEntry → List NonceEntry
retain_fresh oldest [] = []
retain_fresh oldest (e ∷ es) =
    let rest = retain_fresh oldest es in if ltb oldest e.created then e ∷ rest else rest

unfoldable pub purge_expired : ℕ → NonceCache → NonceCache
unfolding nonce_cutoff retain_fresh
purge_expired now c = record c { nonces = retain_fresh (nonce_cutoff now) c.nonces }

-- `HashMap::remove`
unfoldable pub remove_nonce : List ℕ → List NonceEntry → List NonceEntry
unfolding same_bytes
remove_nonce nonce [] = []
remove_nonce nonce (e ∷ es) =
    let rest = remove_nonce nonce es in if same_bytes e.nonce nonce then rest else e ∷ rest

unfoldable pub has_nonce : List ℕ → List NonceEntry → Bool
unfolding same_bytes
has_nonce nonce [] = false
has_nonce nonce (e ∷ es) = if same_bytes e.nonce nonce then true else has_nonce nonce es

-- `min_by_key`: the first entry of least age on the way.
unfoldable pub oldest_of : NonceEntry → List NonceEntry → NonceEntry
oldest_of best [] = best
oldest_of best (e ∷ es) = oldest_of (if ltb e.created best.created then e else best) es

unfoldable pub remove_oldest_of : List NonceEntry → List NonceEntry → List NonceEntry
unfolding oldest_of remove_nonce
remove_oldest_of [] es = es
remove_oldest_of (e ∷ on_way) es = remove_nonce (oldest_of e on_way).nonce es

-- `order` is the way on which `HashMap::iter` goes through the entries, which is not specified.
module _ (order : List NonceEntry → List NonceEntry) where
  unfoldable pub remove_oldest : List NonceEntry → List NonceEntry
  unfolding remove_oldest_of
  remove_oldest es = remove_oldest_of (order es) es

  -- The loop over the cap; `none` is no Rust value, the fuel has run out.
  unfoldable pub trim_loop : ℕ → ℕ → List NonceEntry → Option (List NonceEntry)
  unfolding remove_oldest
  trim_loop zero max_nonces es = none
  trim_loop (suc fuel) max_nonces es =
      let rest = trim_loop fuel max_nonces (remove_oldest es) in
      if ltb max_nonces (length es) then rest else some es

  -- Every round removes an entry.
  unfoldable pub trimmed : ℕ → List NonceEntry → List NonceEntry
  unfolding trim_loop
  trimmed max_nonces es = elim (trim_loop (suc (length es)) max_nonces es) [
    | none ↦ es
    | some t ↦ t
  ]

  -- The nonce is the 32 bytes that `getrandom` gives; the clock is read twice.
  unfoldable pub generate_nonce : ℕ → ℕ → List ℕ → NonceCache → List ℕ × NonceCache
  unfolding purge_expired remove_nonce trimmed
  generate_nonce now later nonce c =
      let kept = remove_nonce nonce (purge_expired now c).nonces in
      let entry : NonceEntry = record { nonce = nonce; created = later } in
      (nonce, record c { nonces = trimmed c.max_nonces (kept ++ entry ∷ []) })

unfoldable pub verify_nonce : ℕ → List ℕ → NonceCache → Bool × NonceCache
unfolding purge_expired has_nonce remove_nonce
verify_nonce now nonce c =
    let fresh = (purge_expired now c).nonces in
    if has_nonce nonce fresh
    then (true, record c { nonces = remove_nonce nonce fresh })
    else (false, record c { nonces = fresh })

pub record MonEntry : Type 0 where
  pub addr : SockAddr
  pub last_pkt : NtpTs64
  pub first_pkt : NtpTs64
  pub count : ℕ
  pub flags : ℕ

pub record MonList : Type 0 where
  pub entries : List MonEntry
  pub max_entries : ℕ
  pub min_distance : ℕ
  pub max_age : ℕ
  pub rate_limit_count : ℕ
  pub nonce_cache : NonceCache

abbrev pub new : MonList
new = record {
  entries = [];
  max_entries = 600;
  min_distance = 600;
  max_age = 3600;
  rate_limit_count = 10;
  nonce_cache = new_cache;
}

-- The closure of `find`: equal families, and equal addresses by the family.
unfoldable pub same_source : SockAddr → SockAddr → Bool
unfolding same_bytes
same_source a b = elim a.family [
  | inet ↦ elim b.family [ inet ↦ same_bytes a.sin_addr b.sin_addr | _ ↦ false ]
  | inet6 ↦ elim b.family [ inet6 ↦ same_bytes a.sin6_addr b.sin6_addr | _ ↦ false ]
  | unspec ↦ false
]

unfoldable pub find_entry : SockAddr → List MonEntry → Option MonEntry
unfolding same_source
find_entry addr [] = none
find_entry addr (e ∷ es) = if same_source e.addr addr then some e else find_entry addr es

-- The first entry of the source, counted up.
unfoldable pub touch : SockAddr → NtpTs64 → List MonEntry → List MonEntry
unfolding same_source
touch addr now [] = []
touch addr now (e ∷ es) =
    let rest = touch addr now es in
    if same_source e.addr addr
    then record e { last_pkt = now; count = (e.count + 1) % 2 ^ 32 } ∷ es
    else e ∷ rest

-- The stable sort by the seconds of the last packet, the latest first.
unfoldable pub insert_entry : MonEntry → List MonEntry → List MonEntry
insert_entry e [] = e ∷ []
insert_entry e (x ∷ xs) =
    let rest = insert_entry e xs in
    if ltb_ℤ x.last_pkt.seconds e.last_pkt.seconds then e ∷ x ∷ xs else x ∷ rest

unfoldable pub sort_onto : List MonEntry → List MonEntry → List MonEntry
unfolding insert_entry
sort_onto sorted [] = sorted
sort_onto sorted (e ∷ es) = sort_onto (insert_entry e sorted) es

unfoldable pub prune_over_limit : MonList → MonList
unfolding sort_onto
prune_over_limit l =
    if ltb l.max_entries (length l.entries)
    then record l { entries = take l.max_entries (sort_onto [] l.entries) }
    else l

abbrev pub new_entry : SockAddr → NtpTs64 → MonEntry
new_entry addr now = record { addr = addr; last_pkt = now; first_pkt = now; count = 1; flags = 0 }

-- The inner test of the length is the one of `prune_over_limit`.
unfoldable pub record_packet : SockAddr → NtpTs64 → MonList → MonList
unfolding find_entry touch prune_over_limit
record_packet addr now l = elim (find_entry addr l.entries) [
  | some e ↦ record l { entries = touch addr now l.entries }
  | none ↦ prune_over_limit (record l { entries = l.entries ++ new_entry addr now ∷ [] })
]

-- `now.seconds.saturating_sub(max_age)`
unfoldable pub cutoff : NtpTs64 → ℕ → ℤ
unfolding ◌-ℤ◌
cutoff now max_age =
    let d = now.seconds -ℤ pos max_age in
    if ltb (2 ^ 63) (neg_part d) then negsuc (2 ^ 63 - 1) else d

unfoldable pub retain_since : ℤ → List MonEntry → List MonEntry
retain_since since [] = []
retain_since since (e ∷ es) =
    let rest = retain_since since es in if leb_ℤ since e.last_pkt.seconds then e ∷ rest else rest

unfoldable pub prune_aged : NtpTs64 → MonList → MonList
unfolding cutoff retain_since
prune_aged now l = record l { entries = retain_since (cutoff now l.max_age) l.entries }

unfoldable pub get_entries_snapshot : MonList → List MonEntry
unfolding sort_onto
get_entries_snapshot l = sort_onto [] l.entries

unfoldable pub read_mru : ℕ → MonList → List MonEntry
unfolding sort_onto
read_mru limit l = take limit (sort_onto [] l.entries)

unfoldable pub is_enabled : MonList → Bool
is_enabled l = ltb 0 l.max_entries

-- `u32::from_be_bytes` on a little-endian host stores the octets in reverse.
unfoldable pub netaddr_to_sockaddr : NetAddr → SockAddr
netaddr_to_sockaddr a =
    if a.family == 4
    then record { family = inet; sin_addr = reverse (take 4 a.addr); sin6_addr = replicate 16 0 }
    else if a.family == 6
    then record { family = inet6; sin_addr = replicate 4 0; sin6_addr = a.addr }
    else record { family = unspec; sin_addr = replicate 4 0; sin6_addr = replicate 16 0 }

module _ (f : Float) where
  -- The time between the first and the last packet, in seconds.
  unfoldable pub span : MonEntry → f.F
  unfolding sub64
  span e = f.add (f.of_ℤ (sub64 e.last_pkt.seconds e.first_pkt.seconds)) (
      f.div (f.sub (f.of_ℕ e.last_pkt.fraction) (f.of_ℕ e.first_pkt.fraction))
        (f.literal 4294967296 0))

  unfoldable pub is_rate_limited : NetAddr → MonList → Bool × ℕ
  unfolding find_entry netaddr_to_sockaddr span
  is_rate_limited addr l = elim (find_entry (netaddr_to_sockaddr addr) l.entries) [
    | none ↦ (false, 0)
    | some e ↦
        if ltb l.rate_limit_count e.count
        then (
          Float.lt f (f.div (span e) (f.sub (f.of_ℕ e.count) (f.literal 1 0))) (f.literal 2 1),
          e.count,
        )
        else (false, e.count)
  ]
