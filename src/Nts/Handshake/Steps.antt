-- ===== src/Nts/Handshake/Steps.antt =====
-- What the loop over the records and the checks after it keep: the cookies in order, and the
-- algorithm that was offered.
use ntpsec_rs.Prelude.{
  ℕ, ◌+◌, ◌≡◌, refl, sym, ◌∙◌, ap, subst, Option, none, some, List, [], ◌∷◌, ◌++◌, arith, length,
  is_empty, if◌then◌else◌, false, inl, ◌⊎◌, Result, ok, >>=_ok, ◌>>=◌, append-nil, append_assoc,
  ok-injective, ◌==◌,
}
use ntpsec_rs.Nts.Record.{NtsKeRecord}
use ntpsec_rs.Nts.Handshake.{
  AeadAlgorithm, aead_aes_siv_cmac256, HandshakeError, Progress, start, raw_type,
  next_protocol_step, aead_step, eom_step, step, steps, aead_or_err, finish, agree, from_u16,
}

-- The bodies of the cookie records, in order.
abbrev pub cookies_in : List NtsKeRecord → List (List ℕ)
cookies_in [] = []
cookies_in (r ∷ rs) = let rest = cookies_in rs in if raw_type r == 5 then r.body ∷ rest else rest

IsOffered : Option AeadAlgorithm → Type 0
IsOffered o = (o ≡ none) ⊎ (o ≡ some aead_aes_siv_cmac256)

next_protocol_step-keeps :
    (rec : NtsKeRecord) (p q : Progress)
    → next_protocol_step rec p ≡ ok q
    → (q.cookies ≡ p.cookies) × (q.aead_algorithm ≡ p.aead_algorithm)
unfolding next_protocol_step
next_protocol_step-keeps rec p q h = ground arith

aead_step-keeps :
    (rec : NtsKeRecord) (p q : Progress)
    → aead_step rec p ≡ ok q
    → (q.cookies ≡ p.cookies) × (q.aead_algorithm ≡ some aead_aes_siv_cmac256)
unfolding aead_step from_u16
aead_step-keeps rec p q h = ground arith

eom_step-keeps :
    (i : ℕ) (rec : NtsKeRecord) (p q : Progress)
    → eom_step i rec p ≡ ok q
    → (q.cookies ≡ p.cookies) × (q.aead_algorithm ≡ p.aead_algorithm)
unfolding eom_step
eom_step-keeps i rec p q h = ground arith

step-cookies :
    (i : ℕ) (rec : NtsKeRecord) (p q : Progress)
    → step i rec p ≡ ok q
    → q.cookies ≡ p.cookies ++ cookies_in (rec ∷ [])
unfolding step
step-cookies i rec p q h = ground (
  arith,
  next_protocol_step-keeps rec p q,
  aead_step-keeps rec p q,
  eom_step-keeps i rec p q,
  append-nil p.cookies,
)

step-IsOffered :
    (i : ℕ) (rec : NtsKeRecord) (p q : Progress)
    → step i rec p ≡ ok q
    → IsOffered p.aead_algorithm
    → IsOffered q.aead_algorithm
unfolding step IsOffered
step-IsOffered i rec p q h o =
    ground
      (arith, next_protocol_step-keeps rec p q, aead_step-keeps rec p q, eom_step-keeps i rec p q)

cookies_in-cons :
    (r : NtsKeRecord) (rs : List NtsKeRecord)
    → cookies_in (r ∷ rs) ≡ cookies_in (r ∷ []) ++ cookies_in rs
cookies_in-cons r rs = ground arith

steps-keep :
    (i : ℕ) (recs : List NtsKeRecord) (p q : Progress)
    → steps i recs p ≡ ok q
    → IsOffered p.aead_algorithm
    → (q.cookies ≡ p.cookies ++ cookies_in recs) × IsOffered q.aead_algorithm
unfolding steps
steps-keep i [] p q h o =
    let same : p ≡ q = ok-injective h in
    (
      ap (λ t. t.cookies) (sym same) ∙ sym (append-nil p.cookies),
      subst (λ t. IsOffered t.aead_algorithm) same o,
    )
steps-keep i (rec ∷ recs) p q h o =
    let later = steps-keep (i + 1) recs m q chain.2 (step-IsOffered i rec p m chain.1 o) in
    (
      later.0
          ∙ ap (λ t. t ++ cookies_in recs) (step-cookies i rec p m chain.1)
          ∙ append_assoc p.cookies (cookies_in (rec ∷ [])) (cookies_in recs)
          ∙ ap (λ t. p.cookies ++ t) (sym (cookies_in-cons rec recs)),
      later.1,
    )
  where
    chain : (m : Progress) × (step i rec p ≡ ok m) × (steps (i + 1) recs m ≡ ok q)
    chain = >>=_ok (step i rec p) (steps (i + 1) recs) q h

    m : Progress
    m = chain.0

finish-IsOffered :
    (count : ℕ) (p : Progress) (a : AeadAlgorithm)
    → IsOffered p.aead_algorithm
    → finish count p ≡ ok a
    → (a ≡ aead_aes_siv_cmac256) × (is_empty p.cookies ≡ false)
unfolding IsOffered finish aead_or_err
finish-IsOffered count p a o h = ground arith

pub agree_keeps :
    (records : List NtsKeRecord) (p : Progress) (a : AeadAlgorithm)
    → agree records ≡ ok (p, a)
    → (p.cookies ≡ cookies_in records) × (a ≡ aead_aes_siv_cmac256) × (is_empty p.cookies ≡ false)
unfolding agree IsOffered
agree_keeps records p a h =
    let kept = steps-keep 0 records start q first.1 (inl refl) in
    let last = finish-IsOffered (length records) q b kept.1 second.1 in
    (
      ap (λ t. t.cookies) same_p ∙ kept.0,
      sym same_a ∙ last.0,
      ap (λ t. is_empty t.cookies) same_p ∙ last.1,
    )
  where
    go_on : Progress → Result HandshakeError (Progress × AeadAlgorithm)
    go_on q = finish (length records) q >>= λ b. ok (q, b)

    first : (q : Progress) × (steps 0 records start ≡ ok q) × (go_on q ≡ ok (p, a))
    first = >>=_ok (steps 0 records start) go_on (p, a) h

    q : Progress
    q = first.0

    second :
        (b : AeadAlgorithm) × (finish (length records) q ≡ ok b)
        × (◌≡◌ {A = Result HandshakeError (Progress × AeadAlgorithm)} (ok (q, b)) (ok (p, a)))
    second = >>=_ok (finish (length records) q) (λ b. ok (q, b)) (p, a) first.2

    b : AeadAlgorithm
    b = second.0

    same : ◌≡◌ {A = Progress × AeadAlgorithm} (q, b) (p, a)
    same = ok-injective second.2

    same_p : p ≡ q
    same_p = sym (ap (λ t. t.0) same)

    same_a : b ≡ a
    same_a = ap (λ t. t.1) same
