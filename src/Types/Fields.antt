-- ===== src/Types/Fields.antt =====
-- The three fields of the first byte, packed and read back.
use ntpsec_rs.Prelude.{◌+◌, ◌*◌, ◌/◌, ◌%◌, ◌^◌, ◌<◌, ◌≡◌, ◌∙◌, ap, arith}
use ntpsec_rs.Prelude.Bits.{or_fields}
use ntpsec_rs.Types.Leap
use ntpsec_rs.Types.Leap.{LeapIndicator}
use ntpsec_rs.Types.Mode
use ntpsec_rs.Types.Mode.{NtpMode}
use ntpsec_rs.Types.Version
use ntpsec_rs.Types.Version.{NtpVersion}
use ntpsec_rs.Types.{NtpPacket, leap_indicator, version, mode, set_li_vn_mode}

set_li_vn_mode-eq-sum :
    (li : LeapIndicator) (vn : NtpVersion) (m : NtpMode)
    → set_li_vn_mode li vn m ≡ (Leap.to_bits li * 8 + Version.to_bits vn) * 8 + Mode.to_bits m
unfolding set_li_vn_mode
set_li_vn_mode-eq-sum li vn m =
    let shifted_li : Leap.to_bits li * 2 ^ 6 % 256 ≡ Leap.to_bits li * 2 ^ 6 =
      omega (arith, Leap.to_bits-lt li) in
    let shifted_vn : Version.to_bits vn * 2 ^ 3 % 256 ≡ Version.to_bits vn * 2 ^ 3 =
      omega (arith, Version.to_bits-lt vn) in
    let two_fields : Leap.to_bits li * 2 ^ 6 + Version.to_bits vn * 2 ^ 3
        ≡ (Leap.to_bits li * 8 + Version.to_bits vn) * 2 ^ 3 =
      omega arith in
    rw
      (
        shifted_li,
        shifted_vn,
        or_fields 6 (Leap.to_bits li) (Version.to_bits vn * 2 ^ 3)
            (omega (arith, Version.to_bits-lt vn)),
        two_fields,
        or_fields 3 (Leap.to_bits li * 8 + Version.to_bits vn) (Mode.to_bits m)
            (omega (arith, Mode.to_bits-lt m)),
      )
      (omega arith)

-- A first byte built from a leap indicator, a version and a mode fits a byte, and gives the three
-- back.
pub set_li_vn_mode_fields :
    (li : LeapIndicator) (vn : NtpVersion) (m : NtpMode) (p : NtpPacket)
    → p.li_vn_mode ≡ set_li_vn_mode li vn m
    → (p.li_vn_mode < 256) × (leap_indicator p ≡ li) × (version p ≡ vn) × (mode p ≡ m)
unfolding leap_indicator version mode
set_li_vn_mode_fields li vn m p e =
    let a : p.li_vn_mode / 2 ^ 6 ≡ 0 * 4 + Leap.to_bits li = omega (arith, sum) in
    let b : p.li_vn_mode / 2 ^ 3 ≡ Leap.to_bits li * 8 + Version.to_bits vn = omega (arith, sum) in
    (
      omega (arith, sum),
      ap Leap.from_bits a ∙ Leap.from_bits-to_bits li 0,
      ap Version.from_bits b ∙ Version.from_bits-to_bits vn _,
      ap Mode.from_bits (e ∙ set_li_vn_mode-eq-sum li vn m) ∙ Mode.from_bits-to_bits m _,
    )
  where
    sum :
        (p.li_vn_mode ≡ (Leap.to_bits li * 8 + Version.to_bits vn) * 8 + Mode.to_bits m)
        × (Leap.to_bits li < 4)
        × (Version.to_bits vn < 8)
        × (Mode.to_bits m < 8)
    sum = (
      e ∙ set_li_vn_mode-eq-sum li vn m,
      Leap.to_bits-lt li,
      Version.to_bits-lt vn,
      Mode.to_bits-lt m,
    )
