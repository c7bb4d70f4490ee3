-- ===== src/RecvBuf/Bounds.antt =====
-- The counts of the pool are right, and it never holds more than it may.
use ntpsec_rs.Prelude.{
  ℕ, ◌≤◌, ◌≡◌, refl, ap, arith, List, [], ◌∷◌, length, length-replicate, ltb, Bool-cases, inl, inr,
}
use ntpsec_rs.RecvBuf.{RecvBufPool, new, fresh, alloc_from, alloc, free}

-- The count is the length of the list, and neither it nor the total is above the maximum.
pub record IsPool {ℓ} {A : Type ℓ} (p : RecvBufPool A) : Type 0 where
  pub counted : p.free_count ≡ length p.free_list
  pub free_bound : p.free_count ≤ p.max_count
  pub total_bound : p.total_count ≤ p.max_count

module _ {ℓ} {A : Type ℓ} (zeroed : A) where
  new-IsPool : (i n : ℕ) → i ≤ n → IsPool (new zeroed i n)
  unfolding new
  new-IsPool i n h = record {
    counted = omega (arith, length-replicate i zeroed);
    free_bound = h;
    total_bound = h;
  }

  fresh-IsPool : (p : RecvBufPool A) → IsPool p → IsPool (fresh zeroed p).1
  unfolding fresh
  fresh-IsPool p h = elim (Bool-cases (ltb p.total_count p.max_count)) [
    | inl room ↦ rw room (record {
      counted = h.counted;
      free_bound = h.free_bound;
      total_bound = ground (arith, room);
    })
    | inr full ↦ rw full h
  ]

  alloc_from-IsPool :
      (bs : List A) (p : RecvBufPool A)
      → p.free_list ≡ bs
      → IsPool p
      → IsPool (alloc_from zeroed bs p).1
  unfolding alloc_from
  alloc_from-IsPool [] p e h = fresh-IsPool p h
  alloc_from-IsPool (b ∷ bs) p e h = record {
    counted = omega (arith, h.counted, ap length e);
    free_bound = omega (arith, h.free_bound);
    total_bound = h.total_bound;
  }

  free-IsPool : (b : A) (p : RecvBufPool A) → IsPool p → IsPool (free b p)
  unfolding free
  free-IsPool b p h = elim (Bool-cases (ltb p.free_count p.max_count)) [
    | inl room ↦ rw room (record {
      counted = omega (arith, h.counted);
      free_bound = ground (arith, room);
      total_bound = h.total_bound;
    })
    | inr full ↦ rw full h
  ]

  -- A new pool that starts with no more buffers than its maximum has right counts within the maximum,
  -- and taking a buffer and giving one back keep them so.
  pub buffers-IsPool :
      (i n : ℕ) (b : A) (p : RecvBufPool A)
      → i ≤ n
      → IsPool p
      → IsPool (new zeroed i n) × IsPool (alloc zeroed p).1 × IsPool (free b p)
  unfolding alloc
  buffers-IsPool i n b p le h =
      (new-IsPool i n le, alloc_from-IsPool p.free_list p refl h, free-IsPool b p h)
