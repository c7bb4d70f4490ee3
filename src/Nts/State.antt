-- ===== src/Nts/State.antt =====
-- `NtsState` of nts.rs: the keys and the cookies that an association holds.
pub mod Fifo
mod Examples
use ntpsec_rs.Prelude.{
  ℕ, ◌++◌, Option, none, some, List, [], ◌∷◌, length, ltb, if◌then◌else◌, Bool, ◌&&◌, false,
  is_some, String,
}

abbrev pub nts_max_cookies : ℕ
nts_max_cookies = 8

pub record NtsState : Type 0 where
  pub c2s_key : Option (List ℕ)
  pub s2c_key : Option (List ℕ)
  pub cookies : List (List ℕ)
  pub server_cookie_data : Option (List ℕ)
  pub aead_algorithm : ℕ
  pub nts_version : ℕ
  pub nts_ke_done : Bool
  pub ntspe_port : ℕ
  pub ke_hostname : Option String
  pub ke_port : ℕ

abbrev pub new : NtsState
new = record {
  c2s_key = none;
  s2c_key = none;
  cookies = [];
  server_cookie_data = none;
  aead_algorithm = 15;
  nts_version = 1;
  nts_ke_done = false;
  ntspe_port = 0;
  ke_hostname = none;
  ke_port = 4460;
}

unfoldable pub add_cookie : List ℕ → NtsState → NtsState
add_cookie cookie s =
    if ltb (length s.cookies) nts_max_cookies
    then record s { cookies = s.cookies ++ cookie ∷ [] }
    else s

unfoldable pub pop_from : List (List ℕ) → NtsState → Option (List ℕ) × NtsState
pop_from [] s = (none, s)
pop_from (cookie ∷ cookies) s = (some cookie, record s { cookies = cookies })

unfoldable pub pop_cookie : NtsState → Option (List ℕ) × NtsState
pop_cookie s = pop_from s.cookies s

unfoldable pub cookie_count : NtsState → ℕ
cookie_count s = length s.cookies

unfoldable pub is_nts_ready : NtsState → Bool
is_nts_ready s = s.nts_ke_done && is_some s.c2s_key && is_some s.s2c_key
