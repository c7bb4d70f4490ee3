-- ===== src/Ke/Request.antt =====
-- The algorithm that the server picks from a request.
use ntpsec_rs.Prelude.{
  ℕ, ◌+◌, ◌≡◌, refl, sym, ◌∙◌, ap, Option, none, some, List, [], ◌∷◌, ◌++◌, arith, length, is_empty,
  ◌==◌, if◌then◌else◌, true, ok, >>=_ok, append-nil, ok-injective,
}
use ntpsec_rs.Prelude.Bytes.{from_be16}
use ntpsec_rs.Auth.{contains}
use ntpsec_rs.Nts.Record.{NtsKeRecord}
use ntpsec_rs.Nts.Handshake.{raw_type, decoded}
use ntpsec_rs.Ke.Server.{
  NtsServerConfig, Scan, start, select, next_protocol_step, aead_step, eom_step, step, steps,
  finish, process_nts_ke_request,
}

-- The algorithm numbers of a body.
abbrev pub ids_in : List ℕ → List ℕ
ids_in [] = []
ids_in (a ∷ []) = []
ids_in (a ∷ b ∷ rest) = from_be16 a b ∷ ids_in rest

-- All the numbers that the client offers, in its order.
abbrev pub offers_in : List NtsKeRecord → List ℕ
offers_in [] = []
offers_in (r ∷ rs) =
    let rest = offers_in rs in if raw_type r == 4 then ids_in r.body ++ rest else rest

abbrev pub first_supported : List ℕ → List ℕ → Option ℕ
first_supported supported [] = none
first_supported supported (id ∷ ids) =
    let rest = first_supported supported ids in if contains id supported then some id else rest

abbrev or_else : Option ℕ → Option ℕ → Option ℕ
or_else none b = b
or_else (some a) b = some a

or_else_assoc : (a b c : Option ℕ) → or_else (or_else a b) c ≡ or_else a (or_else b c)
or_else_assoc none b c = refl
or_else_assoc (some x) b c = refl

first_supported-append :
    (supported xs ys : List ℕ)
    → first_supported supported (xs ++ ys)
      ≡ or_else (first_supported supported xs) (first_supported supported ys)
first_supported-append supported [] ys = refl
first_supported-append supported (x ∷ xs) ys =
    ground (arith, first_supported-append supported xs ys)

select_lem :
    (supported body : List ℕ) (selected : Option ℕ)
    → select supported body selected ≡ or_else selected (first_supported supported (ids_in body))
unfolding select
select_lem supported [] none = refl
select_lem supported [] (some x) = refl
select_lem supported (a ∷ []) none = refl
select_lem supported (a ∷ []) (some x) = refl
select_lem supported (a ∷ b ∷ rest) none =
    ground (arith, select_lem supported rest none, select_lem supported rest (some (from_be16 a b)))
select_lem supported (a ∷ b ∷ rest) (some x) = ground (arith, select_lem supported rest (some x))

or_else-none : (a : Option ℕ) → or_else a none ≡ a
or_else-none none = refl
or_else-none (some x) = refl

next_protocol_step-selected :
    (rec : NtsKeRecord) (s q : Scan)
    → next_protocol_step rec s ≡ ok q
    → q.selected_aead ≡ s.selected_aead
unfolding next_protocol_step
next_protocol_step-selected rec s q h = ground arith

eom_step-selected :
    (i : ℕ) (rec : NtsKeRecord) (s q : Scan)
    → eom_step i rec s ≡ ok q
    → q.selected_aead ≡ s.selected_aead
unfolding eom_step
eom_step-selected i rec s q h = ground arith

aead_step-selected :
    (supported : List ℕ) (rec : NtsKeRecord) (s q : Scan)
    → aead_step supported rec s ≡ ok q
    → q.selected_aead ≡ select supported rec.body s.selected_aead
unfolding aead_step
aead_step-selected supported rec s q h = ground arith

step-selected :
    (supported : List ℕ) (i : ℕ) (rec : NtsKeRecord) (s q : Scan)
    → step supported i rec s ≡ ok q
    → q.selected_aead ≡ or_else s.selected_aead (first_supported supported (offers_in (rec ∷ [])))
unfolding step
step-selected supported i rec s q h = ground (
  arith,
  next_protocol_step-selected rec s q,
  eom_step-selected i rec s q,
  aead_step-selected supported rec s q,
  select_lem supported rec.body s.selected_aead,
  append-nil (ids_in rec.body),
  or_else-none s.selected_aead,
)

offers_in-cons :
    (r : NtsKeRecord) (rs : List NtsKeRecord)
    → offers_in (r ∷ rs) ≡ offers_in (r ∷ []) ++ offers_in rs
offers_in-cons r rs = ground (arith, append-nil (ids_in r.body))

steps-selected :
    (supported : List ℕ) (i : ℕ) (recs : List NtsKeRecord) (s q : Scan)
    → steps supported i recs s ≡ ok q
    → q.selected_aead ≡ or_else s.selected_aead (first_supported supported (offers_in recs))
unfolding steps
steps-selected supported i [] s q h =
    ap (λ t. t.selected_aead) (sym (ok-injective h)) ∙ sym (or_else-none s.selected_aead)
steps-selected supported i (rec ∷ recs) s q h =
    let (m, one, later) = >>=_ok (step supported i rec s) (steps supported (i + 1) recs) q h in
    steps-selected supported (i + 1) recs m q later
    ∙ ap (λ t. or_else t (first_supported supported (offers_in recs)))
        (step-selected supported i rec s m one)
    ∙ or_else_assoc s.selected_aead (first_supported supported (offers_in (rec ∷ [])))
        (first_supported supported (offers_in recs))
    ∙ ap (or_else s.selected_aead) (
        sym (first_supported-append supported (offers_in (rec ∷ [])) (offers_in recs))
        ∙ ap (first_supported supported) (sym (offers_in-cons rec recs)))

finish-selected :
    (count : ℕ) (trailing : List ℕ) (s : Scan) (aead : ℕ)
    → finish count trailing s ≡ ok aead
    → (s.selected_aead ≡ some aead) × (is_empty trailing ≡ true)
unfolding finish
finish-selected count trailing s aead h = ground arith

first_supported-contains :
    (supported ids : List ℕ) (id : ℕ)
    → first_supported supported ids ≡ some id
    → contains id supported ≡ true
first_supported-contains supported [] id h = cc
first_supported-contains supported (x ∷ xs) id h =
    ground (arith, first_supported-contains supported xs id)

-- The algorithm of an accepted request is the first one that the server supports among all that the
-- client offers, in the client's order, and no bytes follow the records.
pub process_nts_ke_request-first_supported :
    (bytes : List ℕ) (config : NtsServerConfig) (aead : ℕ)
    → process_nts_ke_request bytes config ≡ ok aead
    → (first_supported config.aead_algorithms (offers_in (decoded bytes).0) ≡ some aead)
      × (contains aead config.aead_algorithms ≡ true)
      × (is_empty (decoded bytes).1 ≡ true)
unfolding process_nts_ke_request
process_nts_ke_request-first_supported bytes config aead h =
    let (q, loop, last) =
      >>=_ok (steps config.aead_algorithms 0 (decoded bytes).0 start)
        (finish (length (decoded bytes).0) (decoded bytes).1) aead h in
    let ends = finish-selected (length (decoded bytes).0) (decoded bytes).1 q aead last in
    let first =
      sym (steps-selected config.aead_algorithms 0 (decoded bytes).0 start q loop) ∙ ends.0 in
    (
      first,
      first_supported-contains config.aead_algorithms (offers_in (decoded bytes).0) aead first,
      ends.1,
    )
