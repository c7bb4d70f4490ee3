-- ===== src/Leap/Announce.antt =====
-- When a loaded leap file announces a leap second.
use ntpsec_rs.Prelude.{
  ◌≡◌, ◌∙◌, refl, ap, subst, arith, ◌&&◌, ◌||◌, none, some, is_some, List, [], ◌∷◌, ◌++◌, Bool,
  true, false, Result, ok, err, ok-injective, Bool-cases, inl, inr, All, All-append,
}
use ntpsec_rs.Prelude.Int.{ℤ, pos, ltb_ℤ, leb_ℤ, sub64}
use ntpsec_rs.Types.{NtpTs64}
use ntpsec_rs.Leap.{
  LeapEntry, LeapTable, LeapLine, LeapError, comment, short_line, fields, insert_entry, sort_onto,
  parse_lines, loaded, load_leapfile, expiry_or, announces, query_entries, query, add8,
}

abbrev IsUntil : NtpTs64 → LeapEntry → Type 0
IsUntil expiration e = e.expires ≡ expiration

All-insert_entry :
    (P : LeapEntry → Type 0) (e : LeapEntry) (es : List LeapEntry)
    → P e
    → All P es
    → All P (insert_entry e es)
unfolding insert_entry
All-insert_entry P e [] h hs = (h, _)
All-insert_entry P e (x ∷ xs) h hs =
    elim (Bool-cases (ltb_ℤ e.ntp_time.seconds x.ntp_time.seconds)) [
      | inl d ↦ rw d (h, hs)
      | inr d ↦ rw d (hs.0, All-insert_entry P e xs h hs.1)
    ]

All-sort_onto :
    (P : LeapEntry → Type 0) (sorted es : List LeapEntry)
    → All P sorted
    → All P es
    → All P (sort_onto sorted es)
unfolding sort_onto
All-sort_onto P sorted [] h hs = h
All-sort_onto P sorted (e ∷ es) h hs =
    All-sort_onto P (insert_entry e sorted) es (All-insert_entry P e sorted hs.0 h) hs.1

All-parse_lines :
    (expiration : NtpTs64) (ls : List LeapLine) (parsed es : List LeapEntry) (tai : ℤ)
    → All (IsUntil expiration) parsed
    → (parse_lines (some expiration) ls parsed tai).0 ≡ ok es
    → All (IsUntil expiration) es
unfolding parse_lines expiry_or
All-parse_lines expiration [] parsed es tai h e =
    subst (All (IsUntil expiration)) (ok-injective e) h
All-parse_lines expiration (comment ∷ ls) parsed es tai h e =
    All-parse_lines expiration ls parsed es tai h e
All-parse_lines expiration (short_line ∷ ls) parsed es tai h e =
    All-parse_lines expiration ls parsed es tai h e
All-parse_lines expiration (fields none o ∷ ls) parsed es tai h e = cc
All-parse_lines expiration (fields (some t) none ∷ ls) parsed es tai h e = cc
All-parse_lines expiration (fields (some t) (some o) ∷ ls) parsed es tai h e =
    All-parse_lines expiration ls (parsed ++ entry ∷ []) es (add8 tai o)
      (All-append (IsUntil expiration) parsed (entry ∷ []) h (refl, _)) e
  where
    entry : LeapEntry
    entry = record {
      ntp_time = record { seconds = t; fraction = 0 };
      offset = o;
      expires = expiration;
    }

-- Some event is less than a day away or past.
abbrev any_reached : NtpTs64 → List LeapEntry → Bool
any_reached now [] = false
any_reached now (e ∷ es) =
    leb_ℤ (sub64 e.ntp_time.seconds (pos 86400)) now.seconds || any_reached now es

query_entries-any_reached :
    (now expiration : NtpTs64) (es : List LeapEntry)
    → All (IsUntil expiration) es
    → is_some (query_entries now es) ≡ (ltb_ℤ now.seconds expiration.seconds && any_reached now es)
unfolding query_entries announces
query_entries-any_reached now expiration [] h = ground arith
query_entries-any_reached now expiration (e ∷ es) h =
    ground (arith, h.0, query_entries-any_reached now expiration es h.1)

any_reached-insert_entry :
    (now : NtpTs64) (e : LeapEntry) (es : List LeapEntry)
    → any_reached now (insert_entry e es) ≡ any_reached now (e ∷ es)
unfolding insert_entry
any_reached-insert_entry now e [] = refl
any_reached-insert_entry now e (x ∷ xs) = ground (arith, any_reached-insert_entry now e xs)

any_reached-sort_onto :
    (now : NtpTs64) (sorted es : List LeapEntry)
    → any_reached now (sort_onto sorted es) ≡ (any_reached now sorted || any_reached now es)
unfolding sort_onto
any_reached-sort_onto now sorted [] = ground arith
any_reached-sort_onto now sorted (e ∷ es) = ground (
  arith,
  any_reached-sort_onto now (insert_entry e sorted) es,
  any_reached-insert_entry now e sorted,
)

any_reached-append :
    (now : NtpTs64) (xs ys : List LeapEntry)
    → any_reached now (xs ++ ys) ≡ (any_reached now xs || any_reached now ys)
any_reached-append now [] ys = refl
any_reached-append now (x ∷ xs) ys = ground (arith, any_reached-append now xs ys)

-- Some line of a file has an event that is less than a day away or past.
abbrev pub any_line_reached : NtpTs64 → List LeapLine → Bool
any_line_reached now [] = false
any_line_reached now (fields (some t) (some o) ∷ ls) =
    leb_ℤ (sub64 t (pos 86400)) now.seconds || any_line_reached now ls
any_line_reached now (line ∷ ls) = any_line_reached now ls

any_reached-parse_lines :
    (now expiration : NtpTs64) (ls : List LeapLine) (parsed es : List LeapEntry) (tai : ℤ)
    → (parse_lines (some expiration) ls parsed tai).0 ≡ ok es
    → any_reached now es ≡ (any_reached now parsed || any_line_reached now ls)
unfolding parse_lines expiry_or
any_reached-parse_lines now expiration [] parsed es tai e =
    ground (arith, ap (any_reached now) (ok-injective e))
any_reached-parse_lines now expiration (comment ∷ ls) parsed es tai e =
    any_reached-parse_lines now expiration ls parsed es tai e
any_reached-parse_lines now expiration (short_line ∷ ls) parsed es tai e =
    any_reached-parse_lines now expiration ls parsed es tai e
any_reached-parse_lines now expiration (fields none o ∷ ls) parsed es tai e = cc
any_reached-parse_lines now expiration (fields (some t) none ∷ ls) parsed es tai e = cc
any_reached-parse_lines now expiration (fields (some t) (some o) ∷ ls) parsed es tai e = ground (
  arith,
  any_reached-parse_lines now expiration ls (parsed ++ entry ∷ []) es (add8 tai o) e,
  any_reached-append now parsed (entry ∷ []),
)
  where
    entry : LeapEntry
    entry = record {
      ntp_time = record { seconds = t; fraction = 0 };
      offset = o;
      expires = expiration;
    }

-- What a table has from a file: entries that expire with it, and an event that is reached when the
-- file has one.
record IsLoaded (expiration now : NtpTs64) (ls : List LeapLine) (es : List LeapEntry) : Type 0 where
  pub expires : All (IsUntil expiration) es
  pub reached : any_reached now es ≡ any_line_reached now ls

-- The entries that a file gave, whatever stood in the table before.
load_leapfile-IsLoaded :
    (expiration now : NtpTs64) (hash_fits : Bool) (ls : List LeapLine) (l : LeapTable)
    → (load_leapfile (some expiration) hash_fits ls l).0 ≡ ok tt
    → IsLoaded expiration now ls (load_leapfile (some expiration) hash_fits ls l).1.entries
unfolding load_leapfile loaded
load_leapfile-IsLoaded expiration now false ls l done = cc
load_leapfile-IsLoaded expiration now true ls l done =
    parsed (parse_lines (some expiration) ls [] (pos 0)) refl done
  where
    parsed :
        (r : Result LeapError (List LeapEntry) × ℤ)
        → parse_lines (some expiration) ls [] (pos 0) ≡ r
        → (loaded (some expiration) r l).0 ≡ ok tt
        → IsLoaded expiration now ls (loaded (some expiration) r l).1.entries
    parsed (err e, tai) h d = cc
    parsed (ok es, tai) h d = record {
      expires =
          All-sort_onto (IsUntil expiration) [] es _
            (All-parse_lines expiration ls [] es (pos 0) _ (ap (λ t. t.0) h));
      reached =
          any_reached-sort_onto now [] es
          ∙ any_reached-parse_lines now expiration ls [] es (pos 0) (ap (λ t. t.0) h);
    }

-- A leap file with an expiration that is loaded without an error announces a leap second exactly
-- before it expires, from a day before the earliest event of its lines on, also long after the event.
pub query-load_leapfile :
    (expiration now : NtpTs64) (hash_fits : Bool) (ls : List LeapLine) (l : LeapTable)
    → (load_leapfile (some expiration) hash_fits ls l).0 ≡ ok tt
    → is_some (query now (load_leapfile (some expiration) hash_fits ls l).1)
      ≡ (ltb_ℤ now.seconds expiration.seconds && any_line_reached now ls)
unfolding query
query-load_leapfile expiration now hash_fits ls l done =
    let h = load_leapfile-IsLoaded expiration now hash_fits ls l done in
    query_entries-any_reached now expiration
      (load_leapfile (some expiration) hash_fits ls l).1.entries h.expires
    ∙ ap (λ b. ltb_ℤ now.seconds expiration.seconds && b) h.reached
