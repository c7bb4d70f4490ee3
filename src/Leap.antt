-- ===== src/Leap.antt =====
-- The table of leap seconds of crates/ntpsec-rs-core/src/ntp_leapsec.rs. The text of a leap file comes
-- as the lines that it is read as; `f64` is a parameter.
pub mod Announce
mod Examples
use ntpsec_rs.Prelude.{
  ℕ, ◌+◌, ◌*◌, ◌%◌, ◌&&◌, ◌||◌, ◌==◌, Option, none, some, List, [], ◌∷◌, ◌++◌, is_empty, not,
  if◌then◌else◌, Bool, true, false, Result, ok, err,
}
use ntpsec_rs.Prelude.Int.{ℤ, pos, pos_part, ltb_ℤ, leb_ℤ, add64, sub64}
use ntpsec_rs.Types.{NtpTs64, u8_of_i8, i8_of_u8}
use ntpsec_rs.Types.Leap.{LeapIndicator, add_leap_second, remove_leap_second}
use ntpsec_rs.Float.{Float}
use ntpsec_rs.Float as Float

-- The offset is an `i8`.
pub record LeapEntry : Type 0 where
  pub ntp_time : NtpTs64
  pub offset : ℤ
  pub expires : NtpTs64

pub record LeapInfo : Type 0 where
  pub entries : List LeapEntry
  pub expires : Option NtpTs64
  pub tai_offset : ℤ

pub record LeapTable : Type 0 where
  pub entries : List LeapEntry
  pub smear_interval : ℕ
  pub file_expires : Option NtpTs64
  pub tai_offset : ℤ

abbrev pub new : LeapTable
new = record { entries = []; smear_interval = 0; file_expires = none; tai_offset = pos 0 }

-- `+=` on an `i8`.
unfoldable pub add8 : ℤ → ℤ → ℤ
unfolding u8_of_i8 i8_of_u8
add8 a b = i8_of_u8 ((u8_of_i8 a + u8_of_i8 b) % 256)

-- The stable sort by the time of the event.
unfoldable pub insert_entry : LeapEntry → List LeapEntry → List LeapEntry
insert_entry e [] = e ∷ []
insert_entry e (x ∷ xs) =
    let rest = insert_entry e xs in
    if ltb_ℤ e.ntp_time.seconds x.ntp_time.seconds then e ∷ x ∷ xs else x ∷ rest

unfoldable pub sort_onto : List LeapEntry → List LeapEntry → List LeapEntry
unfolding insert_entry
sort_onto sorted [] = sorted
sort_onto sorted (e ∷ es) = sort_onto (insert_entry e sorted) es

unfoldable pub add_entry : LeapEntry → LeapTable → LeapTable
unfolding add8 sort_onto
add_entry e l = record l {
  tai_offset = add8 l.tai_offset e.offset;
  entries = sort_onto [] (l.entries ++ e ∷ []);
}

-- A line of the file: a comment or an empty line, a line with fewer than two fields, or the first two
-- fields as numbers, where `none` is a field that is no number of its type.
pub data LeapLine : Type 0 where
  comment short_line : LeapLine
  fields : Option ℤ → Option ℤ → LeapLine

pub data LeapError : Type 0 where
  hash_mismatch invalid_timestamp invalid_offset : LeapError

abbrev pub default_expiry : ℤ → NtpTs64
default_expiry timestamp = record { seconds = add64 timestamp (pos (86400 * 365)); fraction = 0 }

unfoldable pub expiry_or : ℤ → Option NtpTs64 → NtpTs64
expiry_or timestamp none = default_expiry timestamp
expiry_or timestamp (some e) = e

-- The loop over the lines, with the offset that it adds up: an error leaves what was added so far.
unfoldable pub parse_lines :
    Option NtpTs64 → List LeapLine → List LeapEntry → ℤ → Result LeapError (List LeapEntry) × ℤ
unfolding add8 expiry_or
parse_lines expiration [] parsed tai = (ok parsed, tai)
parse_lines expiration (comment ∷ ls) parsed tai = parse_lines expiration ls parsed tai
parse_lines expiration (short_line ∷ ls) parsed tai = parse_lines expiration ls parsed tai
parse_lines expiration (fields none o ∷ ls) parsed tai = (err invalid_timestamp, tai)
parse_lines expiration (fields (some t) none ∷ ls) parsed tai = (err invalid_offset, tai)
parse_lines expiration (fields (some t) (some o) ∷ ls) parsed tai =
    let entry : LeapEntry = record {
      ntp_time = record { seconds = t; fraction = 0 };
      offset = o;
      expires = expiry_or t expiration;
    } in
    parse_lines expiration ls (parsed ++ entry ∷ []) (add8 tai o)

unfoldable pub loaded :
    Option NtpTs64
    → Result LeapError (List LeapEntry) × ℤ
    → LeapTable
    → Result LeapError (Unit {0}) × LeapTable
unfolding sort_onto
loaded expiration (err e, tai) l =
    (err e, record l { entries = []; file_expires = none; tai_offset = tai })
loaded expiration (ok parsed, tai) l =
    (ok tt, record l { entries = sort_onto [] parsed; file_expires = expiration; tai_offset = tai })

-- `expiration` and `hash_fits` are what the headers say: the `#@` line, and whether the SHA-1 of the
-- body is the one of the `#$` line, if there is one.
unfoldable pub load_leapfile :
    Option NtpTs64 → Bool → List LeapLine → LeapTable → Result LeapError (Unit {0}) × LeapTable
unfolding parse_lines loaded
load_leapfile expiration hash_fits lines l =
    if hash_fits
    then loaded expiration (parse_lines expiration lines [] (pos 0)) l
    else (err hash_mismatch, record l { entries = []; file_expires = none; tai_offset = pos 0 })

unfoldable pub is_expired : NtpTs64 → LeapTable → Bool
is_expired now l = elim l.file_expires [ none ↦ false | some e ↦ leb_ℤ e.seconds now.seconds ]

-- The test of `query` on one entry.
unfoldable pub announces : NtpTs64 → LeapEntry → Bool
unfolding sub64
announces now e =
    ltb_ℤ now.seconds e.expires.seconds && leb_ℤ (sub64 e.ntp_time.seconds (pos 86400)) now.seconds

unfoldable pub indicator_of : LeapEntry → LeapIndicator
indicator_of e = if ltb_ℤ (pos 0) e.offset then add_leap_second else remove_leap_second

unfoldable pub query_entries : NtpTs64 → List LeapEntry → Option LeapIndicator
unfolding announces indicator_of
query_entries now [] = none
query_entries now (e ∷ es) = if announces now e then some (indicator_of e) else query_entries now es

unfoldable pub query : NtpTs64 → LeapTable → Option LeapIndicator
unfolding query_entries
query now l = query_entries now l.entries

unfoldable pub update : LeapInfo → LeapTable → LeapTable
update info l = record l {
  entries = info.entries;
  file_expires = info.expires;
  tai_offset = info.tai_offset;
}

module _ (f : Float) where
  -- Whether `now` is in the window of an entry.
  unfoldable pub in_window : NtpTs64 → ℕ → LeapEntry → Bool
  unfolding add64
  in_window now interval e =
      leb_ℤ e.ntp_time.seconds now.seconds
      && ltb_ℤ now.seconds (add64 e.ntp_time.seconds (pos interval))

  unfoldable pub smear_of : NtpTs64 → ℕ → LeapEntry → f.F
  unfolding sub64
  smear_of now interval e = f.mul (f.of_ℤ e.offset) (
      f.sub (f.literal 1 0)
        (f.div (f.of_ℤ (sub64 now.seconds e.ntp_time.seconds)) (f.of_ℕ interval)))

  unfoldable pub smear_entries : NtpTs64 → ℕ → List LeapEntry → f.F
  unfolding in_window smear_of
  smear_entries now interval [] = Float.zero f
  smear_entries now interval (e ∷ es) =
      if in_window now interval e then smear_of now interval e else smear_entries now interval es

  unfoldable pub smear_adjustment : NtpTs64 → NtpTs64 → LeapTable → f.F
  unfolding smear_entries
  smear_adjustment now ref_time l =
      if l.smear_interval == 0 then Float.zero f else smear_entries now l.smear_interval l.entries

  unfoldable pub smear_offset : NtpTs64 → LeapTable → f.F
  unfolding smear_entries
  smear_offset now l =
      if (l.smear_interval == 0) || is_empty l.entries
      then Float.zero f
      else smear_entries now l.smear_interval l.entries
