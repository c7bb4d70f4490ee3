-- ===== src/Daemon/Vars.antt =====
-- `parse_mode6_vars` of control_client.rs: the assignments in the text of a control message. A text is
-- the list of its bytes; `str::trim` is the parameter.
use ntpsec_rs.Prelude.{
  ℕ, ◌-◌, ◌&&◌, Option, none, some, List, [], ◌∷◌, ◌++◌, length, take, drop, is_empty, leb, ◌==◌,
  not, if◌then◌else◌, Bool, true, false,
}

abbrev pub Text : Type 0
Text = List ℕ

unfoldable pub last_is : ℕ → Text → Bool
last_is c [] = false
last_is c (x ∷ []) = x == c
last_is c (x ∷ y ∷ ys) = last_is c (y ∷ ys)

unfoldable pub first_is : ℕ → Text → Bool
first_is c [] = false
first_is c (x ∷ xs) = x == c

-- The surrounding quotes.
unfoldable pub unquoted : Text → Text
unfolding first_is last_is
unquoted t =
    if leb 2 (length t) && (first_is b'"' t && last_is b'"' t)
    then take (length t - 2) (drop 1 t)
    else t

-- What stands before and behind the first equals sign.
unfoldable pub split_eq : Text → Option (Text × Text)
split_eq [] = none
split_eq (c ∷ cs) =
    if c == b'='
    then some ([], cs)
    else elim (split_eq cs) [ none ↦ none | some (key, val) ↦ some (c ∷ key, val) ]

-- The loop's state.
pub record VarScan : Type 0 where
  pub vars : List (Text × Text)
  pub current : Text
  pub in_quotes : Bool
  pub escaped : Bool

abbrev pub start : VarScan
start = record { vars = []; current = []; in_quotes = false; escaped = false }

module _ (trim : Text → Text) where
  unfoldable pub assignment : Text → List (Text × Text)
  unfolding split_eq unquoted
  assignment current = elim (split_eq current) [
    | none ↦ []
    | some (key, val) ↦ (trim key, unquoted (trim val)) ∷ []
  ]

  abbrev pub pushed : ℕ → VarScan → VarScan
  pushed c s = record s { current = s.current ++ c ∷ [] }

  unfoldable pub scan_char : ℕ → VarScan → VarScan
  unfolding assignment
  scan_char c s =
      if s.escaped
      then record (pushed c s) { escaped = false }
      else if c == b'\\'
      then record (pushed c s) { escaped = true }
      else if c == b'"'
      then record (pushed c s) { in_quotes = not s.in_quotes }
      else if (c == b',') && not s.in_quotes
      then record s { vars = s.vars ++ assignment s.current; current = [] }
      else pushed c s

  unfoldable pub scan : Text → VarScan → VarScan
  unfolding scan_char
  scan [] s = s
  scan (c ∷ cs) s = scan cs (scan_char c s)

  unfoldable pub parse_mode6_vars : Text → List (Text × Text)
  unfolding scan
  parse_mode6_vars text =
      let s = scan text start in
      if is_empty s.current then s.vars else s.vars ++ assignment s.current
