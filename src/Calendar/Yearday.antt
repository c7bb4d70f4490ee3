-- ===== src/Calendar/Yearday.antt =====
-- Days of a year and dates are converted into each other.
use ntpsec_rs.Prelude.{
  ℕ, zero, suc, ◌+◌, ◌-◌, ◌≤◌, ◌<◌, ◌≡◌, refl, ◌∙◌, ap, arith, List, [], ◌∷◌, length, get_or, leb,
  true, false, Bool-cases, inl, inr,
}
use ntpsec_rs.Prelude.Int.{ℤ}
use ntpsec_rs.Calendar.{is_leap_year, month_table, add_months, ymd_to_yd, find_month, yd_to_ymd}

add_months-add :
    (n : ℕ) (table : List ℕ) (doy k : ℕ) → add_months n table (doy + k) ≡ add_months n table doy + k
unfolding add_months
add_months-add zero table doy k = refl
add_months-add (suc n) [] doy k = refl
add_months-add (suc n) (t ∷ ts) doy k =
    ap (add_months n ts) (omega arith) ∙ add_months-add n ts (doy + t) k

add_months-le : (n : ℕ) (table : List ℕ) (doy : ℕ) → doy ≤ add_months n table doy
unfolding add_months
add_months-le zero table doy = omega arith
add_months-le (suc n) [] doy = omega arith
add_months-le (suc n) (t ∷ ts) doy = omega (arith, add_months-le n ts (doy + t))

find_month-add_months :
    (i n : ℕ) (table : List ℕ) (d : ℕ)
    → n < length table
    → 1 ≤ d
    → d ≤ get_or table n 0
    → find_month i table (add_months n table d) ≡ (i + n + 1, d)
unfolding find_month add_months
find_month-add_months i n [] d h lo hi = absurd (omega arith)
find_month-add_months i zero (t ∷ ts) d h lo hi =
    let fits : leb d t ≡ true = ground arith in
    rw fits (λ j. ((let e : i + 1 ≡ i + 0 + 1 = omega arith in e) j, d))
find_month-add_months i (suc n) (t ∷ ts) d h lo hi =
    let later : leb (add_months n ts (d + t)) t ≡ false =
      ground (arith, add_months-le n ts (d + t)) in
    let left : add_months n ts (d + t) - t ≡ add_months n ts d =
      omega (arith, add_months-add n ts d t) in
    rw (later, left)
      (find_month-add_months (suc i) n ts d (omega arith) lo hi ∙ λ j.
        ((let e : suc i + n + 1 ≡ i + suc n + 1 = omega arith in e) j, d))

length-month_table : (y : ℤ) → length (month_table y) ≡ 12
unfolding month_table
length-month_table y = elim (Bool-cases (is_leap_year y)) [ inl e ↦ rw e refl | inr e ↦ rw e refl ]

-- The day of the year of a date gives the date back, for every year: the month is one of the twelve
-- and the day one of the month's.
pub yd_to_ymd-ymd_to_yd :
    (y : ℤ) (m d : ℕ)
    → 1 ≤ m
    → m ≤ 12
    → 1 ≤ d
    → d ≤ get_or (month_table y) (m - 1) 0
    → yd_to_ymd y (ymd_to_yd y m d) ≡ (m, d)
unfolding yd_to_ymd ymd_to_yd
yd_to_ymd-ymd_to_yd y m d m_lo m_hi d_lo d_hi =
    find_month-add_months 0 (m - 1) (month_table y) d (omega (arith, length-month_table y)) d_lo
      d_hi
    ∙ λ j. ((let e : 0 + (m - 1) + 1 ≡ m = omega arith in e) j, d)
