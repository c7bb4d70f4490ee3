-- ===== src/Types/Walk.antt =====
-- The loop of `decode_full` over the extension fields ends, and cuts the bytes in two.
use ntpsec_rs.Prelude.{
  ℕ, zero, suc, ◌+◌, ◌-◌, ◌%◌, ◌≤◌, ◌<◌, ◌≡◌, ◌≢◌, refl, List, [], ◌∷◌, arith, Option, none, some,
  append_assoc, length, take, drop, length-drop, length-take, length-append, take-append-drop, ltb,
  ◌||◌, ◌⊎◌, inl, inr, sym, ap, ◌∙◌, ◌++◌, Bool-cases, Bool, true, false, if◌then◌else◌,
}
use ntpsec_rs.Prelude.Bytes.{from_be16, byte_at}
use ntpsec_rs.Types.Header.{walk_fields, round_up4, mac_of}

-- The length that the third and fourth byte give.
abbrev pub field_len_of : List ℕ → ℕ
field_len_of bytes = from_be16 (byte_at bytes 2) (byte_at bytes 3)

-- A sequence of whole extension fields, each as long as it says, rounded up to a multiple of four.
pub data AreFields : List ℕ → Type 0 where
  no_field : AreFields []
  field :
      (bytes more : List ℕ)
      → 4 ≤ field_len_of bytes
      → length bytes ≡ round_up4 (field_len_of bytes)
      → AreFields more
      → AreFields (bytes ++ more)

-- No whole extension field stands at the front.
abbrev pub IsNoField : List ℕ → Type 0
IsNoField bytes =
    (length bytes < 4) ⊎ (field_len_of bytes < 4) ⊎ (length bytes < round_up4 (field_len_of bytes))

-- The walk ends, in a cut of the bytes behind all fields that stand at the front.
pub record IsCut (start : ℕ) (rest : List ℕ) (r : Option (ℕ × List ℕ)) : Type 0 where
  pub at : ℕ
  pub result : r ≡ some (at, drop at rest)
  pub fields : List ℕ
  pub whole : drop start rest ≡ fields ++ drop at rest
  pub size : start + length fields ≡ at
  pub are_fields : AreFields fields
  pub no_more : IsNoField (drop at rest)
  pub aligned : at % 4 ≡ 0

IsCut-if :
    {start : ℕ} {rest : List ℕ} (b : Bool) (x y : Option (ℕ × List ℕ))
    → (b ≡ true → IsCut start rest x)
    → (b ≡ false → IsCut start rest y)
    → IsCut start rest (if b then x else y)
IsCut-if true x y hx hy = hx refl
IsCut-if false x y hx hy = hy refl

byte_at-take : (i n : ℕ) (bs : List ℕ) → i < n → byte_at (take n bs) i ≡ byte_at bs i
byte_at-take i zero bs h = absurd (omega arith)
byte_at-take i (suc n) [] h = refl
byte_at-take zero (suc n) (b ∷ bs) h = refl
byte_at-take (suc i) (suc n) (b ∷ bs) h = byte_at-take i n bs (omega arith)

drop-nil : (n : ℕ) → drop {A = ℕ} n [] ≡ []
drop-nil zero = refl
drop-nil (suc n) = refl

drop-drop : (m n : ℕ) (bs : List ℕ) → drop n (drop m bs) ≡ drop (m + n) bs
drop-drop zero n bs = ap (λ k. drop k bs) (omega arith)
drop-drop (suc m) n [] = drop-nil n ∙ sym (drop-nil (suc m + n))
drop-drop (suc m) n (b ∷ bs) =
    let e : suc (m + n) ≡ suc m + n = omega arith in drop-drop m n bs ∙ ap (λ k. drop k (b ∷ bs)) e

-- A field in front of a cut.
IsCut-field :
    (at n : ℕ) (rest : List ℕ) (r : Option (ℕ × List ℕ))
    → n ≡ round_up4 (field_len_of (drop at rest))
    → 4 ≤ field_len_of (drop at rest)
    → n ≤ length (drop at rest)
    → IsCut (at + n) rest r
    → IsCut at rest r
IsCut-field at n rest r padded valid fits c = record {
  at = c.at;
  result = c.result;
  fields = take n (drop at rest) ++ c.fields;
  whole =
      sym (take-append-drop n (drop at rest))
      ∙ ap (λ t. take n (drop at rest) ++ t) (drop-drop at n rest ∙ c.whole)
      ∙ sym (append_assoc (take n (drop at rest)) c.fields (drop c.at rest));
  size = omega (arith, length-append (take n (drop at rest)) c.fields, long, c.size);
  are_fields =
      field (take n (drop at rest)) c.fields (rw same valid)
        (long ∙ padded ∙ ap round_up4 (sym same)) c.are_fields;
  no_more = c.no_more;
  aligned = c.aligned;
}
  where
    long : length (take n (drop at rest)) ≡ n
    long = length-take n (drop at rest) fits

    same : field_len_of (take n (drop at rest)) ≡ field_len_of (drop at rest)
    same = λ i.
        from_be16 (byte_at-take 2 n (drop at rest) (omega (arith, padded, valid)) i)
          (byte_at-take 3 n (drop at rest) (omega (arith, padded, valid)) i)

pub walk_fields-IsCut :
    (fuel : ℕ) (rest : List ℕ) (at : ℕ)
    → length rest - at < fuel
    → at % 4 ≡ 0
    → IsCut at rest (walk_fields fuel rest at (drop at rest))
unfolding walk_fields
walk_fields-IsCut zero rest at h a = absurd (omega arith)
walk_fields-IsCut (suc fuel) rest at h a =
    IsCut-if (ltb (length (drop at rest)) 4) _ _ (λ few. stop (inl (ground (arith, few))))
      λ enough.
        IsCut-if (ltb field_len 4 || ltb (length (drop at rest)) field_len) _ _
          (λ bad. stop (inr (short bad)))
          λ valid.
            IsCut-if (ltb (length (drop at rest)) (round_up4 field_len)) _ _
              (λ over. stop (inr (inr (ground (arith, over)))))
              λ fits.
                IsCut-field at (round_up4 field_len) rest _ refl (ground (arith, valid))
                  (ground (arith, fits))
                  (walk_fields-IsCut fuel rest (at + round_up4 field_len)
                    (ground (arith, len, valid, enough)) (omega arith))
  where
    field_len : ℕ
    field_len = field_len_of (drop at rest)

    stop : IsNoField (drop at rest) → IsCut at rest (some (at, drop at rest))
    stop h = record {
      at = at;
      result = refl;
      fields = [];
      whole = refl;
      size = omega arith;
      are_fields = no_field;
      no_more = h;
      aligned = a;
    }

    short :
        (ltb field_len 4 || ltb (length (drop at rest)) field_len) ≡ true
        → (field_len < 4) ⊎ (length (drop at rest) < round_up4 field_len)
    short bad = elim (Bool-cases (ltb field_len 4)) [
      | inl small ↦ inl (ground (arith, small))
      | inr large ↦ inr (ground (arith, large, bad))
    ]

    len : length (drop at rest) ≡ length rest - at
    len = length-drop at rest

abbrev pub mac_bytes : Option (List ℕ) → List ℕ
mac_bytes none = []
mac_bytes (some m) = m

pub mac_bytes-mac_of : (bs : List ℕ) → mac_bytes (mac_of bs) ≡ bs
mac_bytes-mac_of [] = refl
mac_bytes-mac_of (b ∷ bs) = refl

pub mac_of-ne-empty : (bs : List ℕ) → mac_of bs ≢ some []
mac_of-ne-empty [] = λ e. cc
mac_of-ne-empty (b ∷ bs) = λ e. cc
