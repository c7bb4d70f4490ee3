-- ===== src/Control/Status.antt =====
-- The system status word of ntp_control.rs (`sys_status`): four fields in 16 bits.
use ntpsec_rs.Prelude.{ℕ, ◌+◌, ◌*◌, ◌%◌, ◌^◌, ◌≡◌, ap, ◌∙◌, arith, bit_or}
use ntpsec_rs.Prelude.Bits.{low, shr, or_fields}

unfoldable pub make : ℕ → ℕ → ℕ → ℕ → ℕ
make li source event_count event_code =
    bit_or (bit_or (bit_or (low li 2 * 2 ^ 14) (low source 6 * 2 ^ 8)) (low event_count 4 * 2 ^ 4))
      (low event_code 4)

unfoldable pub decode_li : ℕ → ℕ
decode_li status = low (shr status 14) 2

unfoldable pub decode_source : ℕ → ℕ
decode_source status = low (shr status 8) 6

unfoldable pub decode_event_count : ℕ → ℕ
decode_event_count status = low (shr status 4) 4

unfoldable pub decode_event_code : ℕ → ℕ
decode_event_code status = low status 4

make_sum :
    (li source event_count event_code : ℕ)
    → make li source event_count event_code
      ≡ low li 2 * 2 ^ 14 + low source 6 * 2 ^ 8 + low event_count 4 * 2 ^ 4 + low event_code 4
unfolding make
make_sum li source event_count event_code =
    ap (λ t. bit_or (bit_or t (low event_count 4 * 2 ^ 4)) (low event_code 4))
      (or_fields 14 (low li 2) (low source 6 * 2 ^ 8) (omega arith) ∙ omega arith)
    ∙ ap (λ t. bit_or t (low event_code 4))
        (or_fields 8 (low li 2 * 2 ^ 6 + low source 6) (low event_count 4 * 2 ^ 4) (omega arith)
          ∙ omega arith)
    ∙ or_fields 4 (low li 2 * 2 ^ 10 + low source 6 * 2 ^ 4 + low event_count 4) (low event_code 4)
        (omega arith)
    ∙ omega arith

-- Each field of a status word is read back, cut to its width, whatever the others are.
pub decode-make :
    (li source event_count event_code : ℕ)
    → (decode_li (make li source event_count event_code) ≡ li % 4)
      × (decode_source (make li source event_count event_code) ≡ source % 64)
      × (decode_event_count (make li source event_count event_code) ≡ event_count % 16)
      × (decode_event_code (make li source event_count event_code) ≡ event_code % 16)
unfolding decode_li decode_source decode_event_count decode_event_code
decode-make li source event_count event_code =
    rw (make_sum li source event_count event_code)
      (omega arith, omega arith, omega arith, omega arith)
