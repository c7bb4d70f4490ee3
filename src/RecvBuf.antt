-- ===== src/RecvBuf.antt =====
-- The pool of receive buffers of crates/ntpsec-rs-core/src/ntp_recvbuff.rs.
pub mod Bounds
use ntpsec_rs.Prelude.{ℕ, suc, ◌+◌, ◌-◌, List, [], ◌∷◌, length, replicate, ltb, if◌then◌else◌}

-- A buffer is of any type; the last one of `free_list` is in front, since `push` and `pop` work there.
pub record RecvBufPool {ℓ} (A : Type ℓ) : Type ℓ where
  pub free_list : List A
  pub free_count : ℕ
  pub total_count : ℕ
  pub max_count : ℕ

module _ {ℓ} {A : Type ℓ} (zeroed : A) where
  unfoldable pub new : ℕ → ℕ → RecvBufPool A
  new initial_count max_count = record {
    free_list = replicate initial_count zeroed;
    free_count = initial_count;
    total_count = initial_count;
    max_count = max_count;
  }

  unfoldable pub fresh : RecvBufPool A → A × RecvBufPool A
  fresh p =
      if ltb p.total_count p.max_count
      then (zeroed, record p { total_count = p.total_count + 1 })
      else (zeroed, p)

  unfoldable pub alloc_from : List A → RecvBufPool A → A × RecvBufPool A
  unfolding fresh
  alloc_from [] p = fresh p
  alloc_from (b ∷ bs) p = (b, record p { free_list = bs; free_count = p.free_count - 1 })

  unfoldable pub alloc : RecvBufPool A → A × RecvBufPool A
  unfolding alloc_from
  alloc p = alloc_from p.free_list p

unfoldable pub free {ℓ} : {A : Type ℓ} → A → RecvBufPool A → RecvBufPool A
free buf p =
    if ltb p.free_count p.max_count
    then record p { free_list = buf ∷ p.free_list; free_count = p.free_count + 1 }
    else p
