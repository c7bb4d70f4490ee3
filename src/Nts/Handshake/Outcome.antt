-- ===== src/Nts/Handshake/Outcome.antt =====
-- What a handshake leaves behind, on every branch.
use ntpsec_rs.Prelude.{
  ℕ, ◌+◌, ◌≡◌, refl, sym, ap, Option, none, some, List, [], ◌∷◌, arith, length, replicate, is_empty,
  ltb, true, false, Bool-cases, inl, inr, Result, >>=_err, ◌>>=◌, ok, err,
}
use ntpsec_rs.Prelude.Bytes.{slice}
use ntpsec_rs.Nts.Siv.{Siv}
use ntpsec_rs.Nts.Cipher.{CookieCipher, CipherError}
use ntpsec_rs.Nts.Cipher as Cipher
use ntpsec_rs.Nts.Record.{NtsKeRecord}
use ntpsec_rs.Nts.Handshake.{
  AeadAlgorithm, aead_aes_siv_cmac256, HandshakeError, NtsKeState, NtsKeNegotiation,
  NtsKeProtocolClient, Progress, start, next_protocol_step, aead_step, eom_step, step, steps,
  aead_or_err, finish, decoded, fail, split_keys, establish, agree, negotiate, with_keys,
  with_plaintext, derive, handshake_with_data, first_of, cookie_not_opened, negotiating, error,
  established,
}
use ntpsec_rs.Nts.Handshake.Steps.{cookies_in, agree_keeps}

-- What `ok` promises of a negotiation and of the client.
pub record IsEstablished (response : List ℕ) (n : NtsKeNegotiation) (c : NtsKeProtocolClient)
    : Type 0 where
  pub state : c.state ≡ established
  pub kept_cookies : c.cookies ≡ n.cookies
  pub kept_aead : c.aead ≡ some n.aead_algorithm
  pub aead : n.aead_algorithm ≡ aead_aes_siv_cmac256
  pub some_cookie : is_empty n.cookies ≡ false
  pub cookies : n.cookies ≡ cookies_in (decoded response).0
  pub trailing : is_empty (decoded response).1 ≡ true

-- The state a refusal leaves.
abbrev pub refused_state : HandshakeError → NtsKeState
refused_state (cookie_not_opened e) = negotiating
refused_state e = error e

-- A response that is accepted: nothing trails, the cookies are those of the records, and the
-- algorithm is the one that the client offered.
record IsAccepted (response : List ℕ) (p : Progress) (a : AeadAlgorithm) : Type 0 where
  pub trailing : is_empty (decoded response).1 ≡ true
  pub cookies : p.cookies ≡ cookies_in (decoded response).0
  pub aead : a ≡ aead_aes_siv_cmac256
  pub some_cookie : is_empty p.cookies ≡ false

negotiate-IsAccepted :
    (response : List ℕ) (p : Progress) (a : AeadAlgorithm)
    → negotiate response ≡ ok (p, a)
    → IsAccepted response p a
unfolding negotiate
negotiate-IsAccepted response p a h = elim (Bool-cases (is_empty (decoded response).1)) [
  | inr bad ↦ absurd (ground (arith, bad, h))
  | inl good ↦
      let kept = agree_keeps (decoded response).0 p a (rw good at h) in
      record { trailing = good; cookies = kept.0; aead = kept.1; some_cookie = kept.2 }
]

-- A handshake that is agreed on keeps what it found; one that is not leaves its cause as the state,
-- but for a cookie that does not open, which leaves the client negotiating.
abbrev pub IsOutcome :
    List ℕ
    → NtsKeProtocolClient
    → Result HandshakeError NtsKeNegotiation × NtsKeProtocolClient
    → Type 0
IsOutcome response before (ok n, after) = IsEstablished response n after
IsOutcome response before (err e, after) = after ≡ record before { state = refused_state e }

-- The causes that the loop and the checks name are kept in the state.
step-refused_state :
    (i : ℕ) (rec : NtsKeRecord) (p : Progress) (e : HandshakeError)
    → step i rec p ≡ err e
    → refused_state e ≡ error e
unfolding step next_protocol_step aead_step eom_step
step-refused_state i rec p e h = ground arith

finish-refused_state :
    (count : ℕ) (p : Progress) (e : HandshakeError)
    → finish count p ≡ err e
    → refused_state e ≡ error e
unfolding finish aead_or_err
finish-refused_state count p e h = ground arith

steps-refused_state :
    (i : ℕ) (recs : List NtsKeRecord) (p : Progress) (e : HandshakeError)
    → steps i recs p ≡ err e
    → refused_state e ≡ error e
unfolding steps
steps-refused_state i [] p e h = cc
steps-refused_state i (rec ∷ recs) p e h = elim (>>=_err (step i rec p) (steps (i + 1) recs) e h) [
  | inl now ↦ step-refused_state i rec p e now
  | inr (q, one, later) ↦ steps-refused_state (i + 1) recs q e later
]

agree-refused_state :
    (records : List NtsKeRecord) (e : HandshakeError)
    → agree records ≡ err e
    → refused_state e ≡ error e
unfolding agree
agree-refused_state records e h = elim (>>=_err (steps 0 records start) go_on e h) [
  | inl now ↦ steps-refused_state 0 records start e now
  | inr (p, one, later) ↦ elim (>>=_err (finish (length records) p) (λ a. ok (p, a)) e later) [
    | inl now ↦ finish-refused_state (length records) p e now
    | inr (a, two, last) ↦ cc
  ]
]
  where
    go_on : Progress → Result HandshakeError (Progress × AeadAlgorithm)
    go_on p = finish (length records) p >>= λ a. ok (p, a)

negotiate-refused_state :
    (response : List ℕ) (e : HandshakeError)
    → negotiate response ≡ err e
    → refused_state e ≡ error e
unfolding negotiate
negotiate-refused_state response e h = ground (arith, agree-refused_state (decoded response).0 e)

establish-IsOutcome :
    (response : List ℕ) (p : Progress) (a : AeadAlgorithm) (keys : List ℕ × List ℕ)
    (c : NtsKeProtocolClient)
    → IsAccepted response p a
    → IsOutcome response c (establish a p keys c)
unfolding establish
establish-IsOutcome response p a keys c h = record {
  state = refl;
  kept_cookies = refl;
  kept_aead = refl;
  aead = h.aead;
  some_cookie = h.some_cookie;
  cookies = h.cookies;
  trailing = h.trailing;
}

with_plaintext-IsOutcome :
    (response : List ℕ) (p : Progress) (a : AeadAlgorithm) (c : NtsKeProtocolClient)
    (r : Result CipherError (List ℕ))
    → IsAccepted response p a
    → IsOutcome response c (with_plaintext a p c r)
unfolding with_plaintext with_keys fail split_keys
with_plaintext-IsOutcome response p a c (err e) h = refl
with_plaintext-IsOutcome response p a c (ok plaintext) h =
    elim (Bool-cases (ltb (length plaintext) 66)) [
      | inl short ↦ rw short refl
      | inr long ↦
          rw long
            (establish-IsOutcome response p a (slice plaintext 2 34, slice plaintext 34 66) c h)
    ]

module _ (siv : Siv) where
  derive-IsOutcome :
      (response : List ℕ) (cipher : Option CookieCipher) (c : NtsKeProtocolClient)
      (r : Result HandshakeError (Progress × AeadAlgorithm))
      → negotiate response ≡ r
      → IsOutcome response c (derive siv cipher c r)
  unfolding derive fail
  derive-IsOutcome response cipher c (err e) h =
      ap (λ s. record c { state = s }) (sym (negotiate-refused_state response e h))
  derive-IsOutcome response none c (ok (p, a)) h =
      establish-IsOutcome response p a (replicate 32 0, replicate 32 0) c
        (negotiate-IsAccepted response p a h)
  derive-IsOutcome response (some k) c (ok (p, a)) h =
      with_plaintext-IsOutcome response p a c (Cipher.decrypt siv k (first_of p.cookies))
        (negotiate-IsAccepted response p a h)

  -- A handshake either leaves the client established with the offered algorithm and the cookies of the
  -- response, which has no trailing bytes, and returns the same, or it keeps the client but for its
  -- state, which is the cause, or negotiating after a cookie that does not open.
  pub handshake_with_data-IsOutcome :
      (request response : List ℕ) (cipher : Option CookieCipher) (c : NtsKeProtocolClient)
      → IsOutcome response c (handshake_with_data siv request response cipher c)
  unfolding handshake_with_data fail
  handshake_with_data-IsOutcome request response cipher c =
      elim (Bool-cases (is_empty (decoded request).0)) [
        | inl no_records ↦ rw no_records refl
        | inr some_records ↦
            rw some_records (derive-IsOutcome response cipher c (negotiate response) refl)
      ]
