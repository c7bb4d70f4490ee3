-- ===== src/Daemon/Control/Examples.antt =====
-- Requests of mode 6 at a daemon without keys.
use ntpsec_rs.Prelude.{ℕ, ◌-◌, ◌≡◌, refl, some, none, List, [], ◌∷◌, ◌++◌, replicate}
use ntpsec_rs.Prelude.Bytes.{byte_at, from_be16}
use ntpsec_rs.Auth.{Digests}
use ntpsec_rs.Float.Toy.{toy}
use ntpsec_rs.Daemon.Examples.{serving, client_addr}
use ntpsec_rs.Daemon.Write.{Env}
use ntpsec_rs.Daemon.Control.{handle_control}
use ntpsec_rs.Daemon.Control.Access.{Controlled, handle_control-Controlled}

abbrev toy_digests : Digests
toy_digests = record {
  md5_of = λ bytes. bytes ++ replicate 20 0;
  sha1_of = λ bytes. bytes ++ replicate 20 0;
  cmac_of = λ key bytes. some (key ++ bytes);
}

abbrev env : Env toy
env = record {
  trim = λ t. t;
  from_utf8_lossy = λ t. t;
  parse_f64 = λ t. none;
  parse_u8 = λ t. some (byte_at t 0 - 48);
  parse_hex32 = λ t. none;
  hex_encode = λ t. t;
  hex_decode = λ t. some t;
  now = 100;
  later = 100;
  random = [];
  order = λ es. es;
  system_text = λ e. [];
  peer_text = λ p. [];
  mru_text = λ l. [];
}

-- The operation, with an assignment of `1` to the stratum.
abbrev stratum_1 : ℕ → List ℕ
stratum_1 op =
    0x16 ∷ op ∷ 0 ∷ 1 ∷ 0 ∷ 0 ∷ 0 ∷ 0 ∷ 0 ∷ 0 ∷ 0 ∷ 9 ∷ b's' ∷ b't' ∷ b'r' ∷ b'a' ∷ b't' ∷ b'u'
    ∷ b'm' ∷ b'=' ∷ b'1' ∷ 0 ∷ 0 ∷ 0 ∷ []

handle_control-Controlled_example :
    Controlled toy toy_digests env
      (stratum_1 3)
      client_addr
      serving
      (handle_control toy toy_digests env (stratum_1 3) client_addr serving)
handle_control-Controlled_example =
    handle_control-Controlled toy toy_digests env (stratum_1 3) client_addr serving

-- WRITEVAR leaves the stratum, and WRITECLOCK sets it.
stratum_kept :
    (handle_control toy toy_digests env (stratum_1 3) client_addr serving).1.system.core.stratum ≡ 2
unfolding handle_control from_be16
stratum_kept = refl

stratum_written :
    (handle_control toy toy_digests env (stratum_1 5) client_addr serving).1.system.core.stratum ≡ 1
unfolding handle_control from_be16
stratum_written = refl
