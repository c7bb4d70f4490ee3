-- ===== src/Daemon/Pending.antt =====
-- The requests that await a response: `find_pending_request`, and the list operations on them.
use ntpsec_rs.Prelude.{
  ℕ, zero, suc, ◌+◌, ◌≡◌, refl, sym, ap, ◌∙◌, ◌*◌, arith, ◌&&◌, Option, none, some, List, [], ◌∷◌,
  ◌++◌, ◌==◌, if◌then◌else◌, Bool, true, false, Bool-cases, inl, inr, All,
}
use ntpsec_rs.Types.{NtpTs}
use ntpsec_rs.Types.Mode.{NtpMode}
use ntpsec_rs.Types.Mode as Mode
use ntpsec_rs.Prelude.Bytes.{same_bytes}
use ntpsec_rs.Restrict.{NetAddr}
use ntpsec_rs.Proto.Packets.{same_mode}
use ntpsec_rs.Daemon.{PendingRequest, same_netaddr}

unfoldable pub same_ts : NtpTs → NtpTs → Bool
same_ts a b = (a.seconds == b.seconds) && (a.fraction == b.fraction)

-- The test of the loop.
unfoldable pub answers : NtpTs → NetAddr → NtpMode → PendingRequest → Bool
unfolding same_ts same_netaddr same_mode
answers originate_ts source mode req =
    same_ts req.wire_t1 originate_ts
    && (same_netaddr req.destination source && same_mode mode req.expected_mode)

abbrev pub next_index : Option ℕ → Option ℕ
next_index none = none
next_index (some i) = some (suc i)

unfoldable pub find_pending_request : NtpTs → NetAddr → NtpMode → List PendingRequest → Option ℕ
find_pending_request originate_ts source mode [] = none
find_pending_request originate_ts source mode (r ∷ rs) =
    let rest = next_index (find_pending_request originate_ts source mode rs) in
    if answers originate_ts source mode r then some 0 else rest

-- `self.pending_requests[i]`
unfoldable pub request_at : ℕ → List PendingRequest → Option PendingRequest
request_at i [] = none
request_at zero (r ∷ rs) = some r
request_at (suc i) (r ∷ rs) = request_at i rs

-- `Vec::remove` at an index in range.
unfoldable pub remove_request : ℕ → List PendingRequest → List PendingRequest
remove_request i [] = []
remove_request zero (r ∷ rs) = rs
remove_request (suc i) (r ∷ rs) = r ∷ remove_request i rs

-- The first request in the list that a response answers.
pub record IsFound (originate_ts : NtpTs) (source : NetAddr) (mode : NtpMode)
    (rs : List PendingRequest) (i : ℕ) : Type 0 where
  pub request : PendingRequest
  pub before : List PendingRequest
  pub behind : List PendingRequest
  pub whole : rs ≡ before ++ request ∷ behind
  pub unanswered : All (λ r. answers originate_ts source mode r ≡ false) before
  pub at_index : request_at i rs ≡ some request
  pub answered : answers originate_ts source mode request ≡ true
  pub removed : remove_request i rs ≡ before ++ behind

abbrev pub WasFound : NtpTs → NetAddr → NtpMode → List PendingRequest → Option ℕ → Type 0
WasFound originate_ts source mode rs none = All (λ r. answers originate_ts source mode r ≡ false) rs
WasFound originate_ts source mode rs (some i) = IsFound originate_ts source mode rs i

WasFound-cons :
    (originate_ts : NtpTs) (source : NetAddr) (mode : NtpMode) (r : PendingRequest)
    (rs : List PendingRequest) (o : Option ℕ)
    → answers originate_ts source mode r ≡ false
    → WasFound originate_ts source mode rs o
    → WasFound originate_ts source mode (r ∷ rs) (next_index o)
unfolding request_at remove_request
WasFound-cons originate_ts source mode r rs none e h = (e, h)
WasFound-cons originate_ts source mode r rs (some i) e h = record {
  request = h.request;
  before = r ∷ h.before;
  behind = h.behind;
  whole = ap (λ t. r ∷ t) h.whole;
  unanswered = (e, h.unanswered);
  at_index = h.at_index;
  answered = h.answered;
  removed = ap (λ t. r ∷ t) h.removed;
}

-- The search finds a request that the response answers, or there is none.
pub find_pending_request-WasFound :
    (originate_ts : NtpTs) (source : NetAddr) (mode : NtpMode) (rs : List PendingRequest)
    → WasFound originate_ts source mode rs (find_pending_request originate_ts source mode rs)
unfolding find_pending_request request_at remove_request
find_pending_request-WasFound originate_ts source mode [] = tt
find_pending_request-WasFound originate_ts source mode (r ∷ rs) =
    elim (Bool-cases (answers originate_ts source mode r)) [
      | inl e ↦ rw e (record {
        request = r;
        before = [];
        behind = rs;
        whole = refl;
        unanswered = tt;
        at_index = refl;
        answered = e;
        removed = refl;
      })
      | inr e ↦ rw e (
          WasFound-cons originate_ts source mode r rs
            (find_pending_request originate_ts source mode rs) e
            (find_pending_request-WasFound originate_ts source mode rs))
    ]

same_bytes_sound : (xs ys : List ℕ) → same_bytes xs ys ≡ true → xs ≡ ys
unfolding same_bytes
same_bytes_sound [] [] h = refl
same_bytes_sound [] (y ∷ ys) h = cc
same_bytes_sound (x ∷ xs) [] h = cc
same_bytes_sound (x ∷ xs) (y ∷ ys) h = ground (arith, same_bytes_sound xs ys)

same_mode_sound : (m n : NtpMode) → same_mode m n ≡ true → m ≡ n
unfolding same_mode
same_mode_sound m n h =
    let e : Mode.to_bits m ≡ Mode.to_bits n = ground (arith, h) in
    sym (Mode.from_bits-to_bits m 0)
    ∙ ap (λ b. Mode.from_bits (0 * 8 + b)) e
    ∙ Mode.from_bits-to_bits n 0

-- What it takes for a packet to answer a request: its originate time is the request's transmit time,
-- it comes from the address and port that the request went to, and its mode is the expected one.
pub record Answers (originate_ts : NtpTs) (source : NetAddr) (mode : NtpMode) (r : PendingRequest)
    : Type 0 where
  pub seconds : r.wire_t1.seconds ≡ originate_ts.seconds
  pub fraction : r.wire_t1.fraction ≡ originate_ts.fraction
  pub family : r.destination.family ≡ source.family
  pub addr : r.destination.addr ≡ source.addr
  pub port : r.destination.port ≡ source.port
  pub expected : mode ≡ r.expected_mode

pub answers-Answers :
    (originate_ts : NtpTs) (source : NetAddr) (mode : NtpMode) (r : PendingRequest)
    → answers originate_ts source mode r ≡ true
    → Answers originate_ts source mode r
unfolding answers same_ts same_netaddr
answers-Answers originate_ts source mode r h = record {
  seconds = ground (arith, h);
  fraction = ground (arith, h);
  family = ground (arith, h);
  addr = same_bytes_sound r.destination.addr source.addr (ground (arith, h));
  port = ground (arith, h);
  expected = same_mode_sound mode r.expected_mode (ground (arith, h));
}
