-- ===== src/Proto/Filter/Least.antt =====
-- The filter's answer has the least delay.
use ntpsec_rs.Prelude.{◌≡◌, refl, List, [], ◌∷◌, Bool, true, false, All, Bool-cases, inl, inr}
use ntpsec_rs.Proto.Filter.{
  ClockFilter, samples, min_by, min_of, filter, IsLeast, IsFiltered, IsOrder,
}

module _ {ℓ} {A : Type ℓ} (greater : A → A → Bool) (order : IsOrder greater) where
  All-greater :
      (a b : A) (xs : List A)
      → greater a b ≡ false
      → All (λ x. greater b x ≡ false) xs
      → All (λ x. greater a x ≡ false) xs
  All-greater a b [] h k = k
  All-greater a b (x ∷ xs) h k = (order.transitive a b x h k.0, All-greater a b xs h k.1)

  min_by-IsLeast : (best : A) (xs : List A) → IsLeast greater (min_by greater best xs) (best ∷ xs)
  unfolding min_by
  min_by-IsLeast best [] = record { member = inl refl; least = (order.reflexive best, _) }
  min_by-IsLeast best (x ∷ xs) = elim (Bool-cases (greater best x)) [
    | inl bigger ↦ rw bigger (smaller_next bigger (min_by-IsLeast x xs))
    | inr kept ↦ rw kept (smaller_kept kept (min_by-IsLeast best xs))
  ]
    where
      smaller_next :
          greater best x ≡ true
          → IsLeast greater (min_by greater x xs) (x ∷ xs)
          → IsLeast greater (min_by greater x xs) (best ∷ (x ∷ xs))
      smaller_next h r = record {
        member = inr r.member;
        least = (
          order.transitive (min_by greater x xs) x best r.least.0 (order.total best x h),
          r.least,
        );
      }

      smaller_kept :
          greater best x ≡ false
          → IsLeast greater (min_by greater best xs) (best ∷ xs)
          → IsLeast greater (min_by greater best xs) (best ∷ (x ∷ xs))
      smaller_kept h r = record {
        member = elim r.member [ inl here ↦ inl here | inr later ↦ inr (inr later) ];
        least =
            (r.least.0, (order.transitive (min_by greater best xs) best x r.least.0 h, r.least.1));
      }

  -- The filter gives nothing exactly if it holds no sample, and else one of its samples than which
  -- none has a smaller delay, when the delays compare as numbers do.
  pub filter-IsFiltered : (f : ClockFilter A) → IsFiltered greater (samples f) (filter greater f)
  unfolding filter
  filter-IsFiltered f = of_list (samples f)
    where
      of_list : (xs : List A) → IsFiltered greater xs (min_of greater xs)
      of_list [] = refl
      of_list (x ∷ xs) = min_by-IsLeast x xs
