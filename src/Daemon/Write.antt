-- ===== src/Daemon/Write.antt =====
-- The writes of mode 6, WRITEVAR and WRITECLOCK, and what the handler gets from elsewhere.
use ntpsec_rs.Prelude.{
  ℕ, ◌&&◌, Option, none, some, List, [], ◌∷◌, ◌++◌, length, is_empty, leb, if◌then◌else◌, Bool,
  true, Result, ok, err,
}
use ntpsec_rs.Prelude.Bytes.{from_be32, byte_at, same_bytes}
use ntpsec_rs.Monitor.{MonEntry, NonceEntry}
use ntpsec_rs.Float.{Float}
use ntpsec_rs.Peer.{Peer}
use ntpsec_rs.Select.System.{SystemState}
use ntpsec_rs.Discipline.{set_frequency}
use ntpsec_rs.Daemon.{DaemonEngine}
use ntpsec_rs.Daemon.Vars.{Text}

-- `char::is_ascii_graphic` on every character.
unfoldable pub all_graphic : Text → Bool
all_graphic [] = true
all_graphic (c ∷ cs) = leb 33 c && leb c 126 && all_graphic cs

abbrev pub key_stratum : Text
key_stratum = b's' ∷ b't' ∷ b'r' ∷ b'a' ∷ b't' ∷ b'u' ∷ b'm' ∷ []

abbrev pub key_refid : Text
key_refid = b'r' ∷ b'e' ∷ b'f' ∷ b'i' ∷ b'd' ∷ []

abbrev pub key_offset : Text
key_offset = b'o' ∷ b'f' ∷ b'f' ∷ b's' ∷ b'e' ∷ b't' ∷ []

abbrev pub key_frequency : Text
key_frequency = b'f' ∷ b'r' ∷ b'e' ∷ b'q' ∷ b'u' ∷ b'e' ∷ b'n' ∷ b'c' ∷ b'y' ∷ []

abbrev pub key_nonce : Text
key_nonce = b'n' ∷ b'o' ∷ b'n' ∷ b'c' ∷ b'e' ∷ []

module _ (f : Float) where
  -- What the handler gets from elsewhere: from `str::trim`, `str::parse` and `from_str_radix`, from
  -- hex, from the clock and the random source, the order of a `HashMap`, and the texts of variables
  -- and clients.
  pub record Env : Type 0 where
    pub trim : Text → Text
    pub from_utf8_lossy : List ℕ → Text
    pub parse_f64 : Text → Option f.F
    pub parse_u8 : Text → Option ℕ
    pub parse_hex32 : Text → Option ℕ
    pub hex_encode : List ℕ → Text
    pub hex_decode : Text → Option (List ℕ)
    pub now : ℕ
    pub later : ℕ
    pub random : List ℕ
    pub order : List NonceEntry → List NonceEntry
    pub system_text : DaemonEngine f → Text
    pub peer_text : Peer f → Text
    pub mru_text : List MonEntry → Text

  -- A branch gives the data of the response or an error code, and the new engine.
  abbrev pub Answered : Type 0
  Answered = Result ℕ (List ℕ) × DaemonEngine f

  module _ (env : Env) where
    abbrev pub with_core : (SystemState f → SystemState f) → DaemonEngine f → DaemonEngine f
    with_core change e = record e { system = record e.system { core = change e.system.core } }

    abbrev pub set_stratum : ℕ → DaemonEngine f → DaemonEngine f
    set_stratum v e = with_core (λ (c : SystemState f). record c { stratum = v }) e

    abbrev pub set_refid : ℕ → DaemonEngine f → DaemonEngine f
    set_refid v e = with_core (λ (c : SystemState f). record c { reference_id = v }) e

    abbrev pub set_offset : f.F → DaemonEngine f → DaemonEngine f
    set_offset v e = with_core (λ (c : SystemState f). record c { sys_offset = v }) e

    unfoldable pub parse_refid : Text → Option ℕ
    unfolding all_graphic
    parse_refid val =
        if leb (length val) 4 && all_graphic val
        then some (from_be32 (byte_at val 0) (byte_at val 1) (byte_at val 2) (byte_at val 3))
        else env.parse_hex32 val

    -- One assignment to a variable of the clock; `none` is a rejected one.
    unfoldable pub write_clock_var : Text × Text → DaemonEngine f → Option (DaemonEngine f)
    unfolding same_bytes parse_refid
    write_clock_var (key, val) e =
        if same_bytes key key_stratum
        then elim (env.parse_u8 val) [ none ↦ none | some v ↦ some (set_stratum v e) ]
        else if same_bytes key key_refid
        then elim (parse_refid val) [ none ↦ none | some v ↦ some (set_refid v e) ]
        else if same_bytes key key_offset
        then elim (env.parse_f64 val) [ none ↦ none | some v ↦ some (set_offset v e) ]
        else none

    -- The loop: the assignments that were applied, in their order.
    unfoldable pub write_clock_vars :
        List (Text × Text) → DaemonEngine f → List (Text × Text) × DaemonEngine f
    unfolding write_clock_var
    write_clock_vars [] e = ([], e)
    write_clock_vars (v ∷ vs) e = elim (write_clock_var v e) [
      | none ↦ write_clock_vars vs e
      | some e' ↦ (v ∷ (write_clock_vars vs e').0, (write_clock_vars vs e').1)
    ]

    -- `key=value` with commas between.
    unfoldable pub var_text : List (Text × Text) → Text
    var_text [] = []
    var_text ((k, v) ∷ []) = k ++ (b'=' ∷ v)
    var_text ((k, v) ∷ w ∷ ws) = k ++ (b'=' ∷ (v ++ (b',' ∷ var_text (w ∷ ws))))

    -- All rejected is an error, 6, and so is no assignment at all.
    unfoldable pub write_clock : List (Text × Text) → DaemonEngine f → Answered
    unfolding write_clock_vars var_text
    write_clock vars e =
        let r = write_clock_vars vars e in
        if is_empty r.0 then (err 6, r.1) else (ok (var_text r.0), r.1)

    -- The variable of the system log goes to a file; unknown ones are accepted.
    unfoldable pub write_var : Text × Text → DaemonEngine f → DaemonEngine f
    unfolding same_bytes parse_refid set_frequency
    write_var (key, val) e =
        if same_bytes key key_offset
        then elim (env.parse_f64 val) [ none ↦ e | some v ↦ set_offset v e ]
        else if same_bytes key key_frequency
        then elim (env.parse_f64 val) [
          | none ↦ e
          | some v ↦ record e { loop_filter = set_frequency f v e.loop_filter }
        ]
        else if same_bytes key key_stratum
        then elim (env.parse_u8 val) [ none ↦ e | some v ↦ set_stratum v e ]
        else if same_bytes key key_refid
        then elim (parse_refid val) [ none ↦ e | some v ↦ set_refid v e ]
        else e

    unfoldable pub write_vars : List (Text × Text) → DaemonEngine f → DaemonEngine f
    unfolding write_var
    write_vars [] e = e
    write_vars (v ∷ vs) e = write_vars vs (write_var v e)

    unfoldable pub write_all : List (Text × Text) → DaemonEngine f → Answered
    unfolding write_vars var_text
    write_all vars e = if is_empty vars then (err 6, e) else (ok (var_text vars), write_vars vars e)
