-- ===== src/Monitor/Entries.antt =====
-- The bound, the order and the counts of the monitor's list.
use ntpsec_rs.Prelude.{
  ℕ, zero, suc, ◌+◌, ◌%◌, ◌^◌, ◌≤◌, ◌<◌, ◌≡◌, refl, sym, ◌∙◌, ap, subst, arith, Option, none, some,
  List, [], ◌∷◌, ◌++◌, length, length-append, length-take, take, ltb, true, false, Bool-cases,
  Option-cases, inl, inr, All, All-take,
}
use ntpsec_rs.Prelude.Int.{ltb_ℤ}
use ntpsec_rs.Types.{NtpTs64}
use ntpsec_rs.Restrict.{SockAddr}
use ntpsec_rs.Monitor.{
  MonEntry, MonList, same_source, find_entry, touch, insert_entry, sort_onto, prune_over_limit,
  new_entry, record_packet, cutoff, retain_since, prune_aged, read_mru,
}

length-touch :
    (addr : SockAddr) (now : NtpTs64) (es : List MonEntry) → length (touch addr now es) ≡ length es
unfolding touch
length-touch addr now [] = refl
length-touch addr now (e ∷ es) = ground (arith, length-touch addr now es)

length-retain_since :
    (es : List MonEntry) → (since : _) → length (retain_since since es) ≤ length es
unfolding retain_since
length-retain_since [] since = omega arith
length-retain_since (e ∷ es) since = ground (arith, length-retain_since es since)

length-insert_entry :
    (e : MonEntry) (es : List MonEntry) → length (insert_entry e es) ≡ suc (length es)
unfolding insert_entry
length-insert_entry e [] = refl
length-insert_entry e (x ∷ xs) = ground (arith, length-insert_entry e xs)

length-sort_onto :
    (sorted es : List MonEntry) → length (sort_onto sorted es) ≡ length sorted + length es
unfolding sort_onto
length-sort_onto sorted [] = omega arith
length-sort_onto sorted (e ∷ es) =
    omega (arith, length-sort_onto (insert_entry e sorted) es, length-insert_entry e sorted)

prune_over_limit-le : (l : MonList) → length (prune_over_limit l).entries ≤ l.max_entries
unfolding prune_over_limit
prune_over_limit-le l = elim (Bool-cases (ltb l.max_entries (length l.entries))) [
  | inl over ↦ rw over (
      omega (
        arith,
        length-take l.max_entries (sort_onto [] l.entries)
            (ground (arith, over, length-sort_onto [] l.entries)),
      ))
  | inr fits ↦ rw fits (ground (arith, fits))
]

record_packet_known :
    (addr : SockAddr) (now : NtpTs64) (l : MonList) (e : MonEntry)
    → find_entry addr l.entries ≡ some e
    → record_packet addr now l ≡ record l { entries = touch addr now l.entries }
unfolding record_packet
record_packet_known addr now l e h = rw (record_packet, h) refl

record_packet_new :
    (addr : SockAddr) (now : NtpTs64) (l : MonList)
    → find_entry addr l.entries ≡ none
    → record_packet addr now l
      ≡ prune_over_limit (record l { entries = l.entries ++ new_entry addr now ∷ [] })
unfolding record_packet
record_packet_new addr now l h = rw (record_packet, h) refl

record_packet_fits :
    (addr : SockAddr) (now : NtpTs64) (l : MonList)
    → length l.entries ≤ l.max_entries
    → length (record_packet addr now l).entries ≤ l.max_entries
record_packet_fits addr now l h = elim (Option-cases (find_entry addr l.entries)) [
  | inl e ↦
      subst (λ t. length t.entries ≤ l.max_entries) (sym (record_packet_new addr now l e))
        (prune_over_limit-le (record l { entries = l.entries ++ new_entry addr now ∷ [] }))
  | inr (x, e) ↦
      subst (λ t. length t.entries ≤ l.max_entries) (sym (record_packet_known addr now l x e))
        (omega (arith, length-touch addr now l.entries, h))
]

prune_over_limit_fits : (l : MonList) → length l.entries ≤ l.max_entries → prune_over_limit l ≡ l
unfolding prune_over_limit
prune_over_limit_fits l h =
    let fits : ltb l.max_entries (length l.entries) ≡ false = ground (arith, h) in rw fits refl

-- The list never holds more entries than its limit: a packet and aging keep a list within its limit,
-- and pruning brings every list there.
pub record_packet-le :
    (addr : SockAddr) (now : NtpTs64) (l : MonList)
    → length l.entries ≤ l.max_entries
    → (length (record_packet addr now l).entries ≤ l.max_entries)
      × (length (prune_aged now l).entries ≤ l.max_entries)
      × (length (prune_over_limit l).entries ≤ l.max_entries)
unfolding prune_aged
record_packet-le addr now l h = (
  record_packet_fits addr now l h,
  omega (arith, length-retain_since l.entries (cutoff now l.max_age), h),
  prune_over_limit-le l,
)

-- What the monitor knows of a source after one more packet.
abbrev pub tracked : SockAddr → NtpTs64 → Option MonEntry → MonEntry
tracked addr now none = new_entry addr now
tracked addr now (some e) = record e { last_pkt = now; count = (e.count + 1) % 2 ^ 32 }

find_entry-touch :
    (addr : SockAddr) (now : NtpTs64) (e : MonEntry) (es : List MonEntry)
    → find_entry addr es ≡ some e
    → find_entry addr (touch addr now es) ≡ some (tracked addr now (some e))
unfolding find_entry touch
find_entry-touch addr now e [] h = cc
find_entry-touch addr now e (x ∷ es) h = elim (Bool-cases (same_source x.addr addr)) [
  | inl d ↦ ground (arith, d)
  | inr d ↦ rw (d, d) (find_entry-touch addr now e es (rw d at h))
]

find_entry-append :
    (addr : SockAddr) (es : List MonEntry) (e : MonEntry)
    → find_entry addr es ≡ none
    → same_source e.addr addr ≡ true
    → find_entry addr (es ++ e ∷ []) ≡ some e
unfolding find_entry
find_entry-append addr [] e h d = rw d refl
find_entry-append addr (x ∷ es) e h d = elim (Bool-cases (same_source x.addr addr)) [
  | inl c ↦ cc (rw c at h)
  | inr c ↦ rw c (find_entry-append addr es e (rw c at h) d)
]

-- After a packet the monitor has the source with this packet as its last, one more in its count and
-- its first packet kept, or as a new entry that counts one; the source is of a family that the
-- monitor compares, and the list has room for it.
pub find_entry-record_packet :
    (addr : SockAddr) (now : NtpTs64) (l : MonList)
    → same_source addr addr ≡ true
    → length l.entries < l.max_entries
    → find_entry addr (record_packet addr now l).entries
      ≡ some (tracked addr now (find_entry addr l.entries))
find_entry-record_packet addr now l known room = elim (Option-cases (find_entry addr l.entries)) [
  | inl e ↦
      let longer = record l { entries = l.entries ++ new_entry addr now ∷ [] } in
      ap (λ t. find_entry addr t.entries)
        (record_packet_new addr now l e
          ∙ prune_over_limit_fits longer
              (omega (arith, room, length-append l.entries (new_entry addr now ∷ []))))
      ∙ find_entry-append addr l.entries (new_entry addr now) e known
      ∙ ap (λ o. some (tracked addr now o)) (sym e)
  | inr (x, e) ↦
      ap (λ t. find_entry addr t.entries) (record_packet_known addr now l x e)
      ∙ find_entry-touch addr now x l.entries e
      ∙ ap (λ o. some (tracked addr now o)) (sym e)
]

-- No entry is later than one before it.
abbrev pub IsSorted : List MonEntry → Type 0
IsSorted [] = Unit
IsSorted (x ∷ xs) = All (λ y. ltb_ℤ x.last_pkt.seconds y.last_pkt.seconds ≡ false) xs × IsSorted xs

All-insert_entry :
    (P : MonEntry → Type 0) (e : MonEntry) (es : List MonEntry)
    → P e
    → All P es
    → All P (insert_entry e es)
unfolding insert_entry
All-insert_entry P e [] h hs = (h, _)
All-insert_entry P e (x ∷ xs) h hs =
    elim (Bool-cases (ltb_ℤ x.last_pkt.seconds e.last_pkt.seconds)) [
      | inl d ↦ rw d (h, hs)
      | inr d ↦ rw d (hs.0, All-insert_entry P e xs h hs.1)
    ]

later_than_each :
    (x e : MonEntry) (es : List MonEntry)
    → ltb_ℤ x.last_pkt.seconds e.last_pkt.seconds ≡ true
    → All (λ y. ltb_ℤ x.last_pkt.seconds y.last_pkt.seconds ≡ false) es
    → All (λ y. ltb_ℤ e.last_pkt.seconds y.last_pkt.seconds ≡ false) es
later_than_each x e [] h hs = _
later_than_each x e (y ∷ ys) h hs = (ground (arith, h, hs.0), later_than_each x e ys h hs.1)

IsSorted-insert_entry :
    (e : MonEntry) (es : List MonEntry) → IsSorted es → IsSorted (insert_entry e es)
unfolding insert_entry
IsSorted-insert_entry e [] h = (_, _)
IsSorted-insert_entry e (x ∷ xs) h =
    elim (Bool-cases (ltb_ℤ x.last_pkt.seconds e.last_pkt.seconds)) [
      | inl d ↦ rw d ((ground (arith, d), later_than_each x e xs d h.0), h)
      | inr d ↦ rw d (
        All-insert_entry (λ y. ltb_ℤ x.last_pkt.seconds y.last_pkt.seconds ≡ false) e xs d h.0,
        IsSorted-insert_entry e xs h.1,
      )
    ]

IsSorted-sort_onto : (sorted es : List MonEntry) → IsSorted sorted → IsSorted (sort_onto sorted es)
unfolding sort_onto
IsSorted-sort_onto sorted [] h = h
IsSorted-sort_onto sorted (e ∷ es) h =
    IsSorted-sort_onto (insert_entry e sorted) es (IsSorted-insert_entry e sorted h)

IsSorted-take : (n : ℕ) (es : List MonEntry) → IsSorted es → IsSorted (take n es)
IsSorted-take zero es h = _
IsSorted-take (suc n) [] h = _
IsSorted-take (suc n) (x ∷ xs) h = (
  All-take (λ y. ltb_ℤ x.last_pkt.seconds y.last_pkt.seconds ≡ false) n xs h.0,
  IsSorted-take n xs h.1,
)

-- Reading the list gives its entries with the latest packet first.
pub read_mru-IsSorted : (limit : ℕ) (l : MonList) → IsSorted (read_mru limit l)
unfolding read_mru
read_mru-IsSorted limit l =
    IsSorted-take limit (sort_onto [] l.entries) (IsSorted-sort_onto [] l.entries _)
