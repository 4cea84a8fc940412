-- ===== src/Calendar/Days.antt =====
-- The Jalali dates that the conversion gives, and the days that they count.
use menuvex_printer.Calendar.{Jalali, from_days, month_day}
use menuvex_printer.Prelude.{
  Bool-cases, ap, arith, if◌then◌else◌, inl, inr, ltb, ltb→lt, lt→ltb, refl, sym, ℕ, ◌%◌, ◌*◌, ◌+◌,
  ◌-◌, ◌/◌, ◌<◌, ◌∙◌, ◌≡◌, ◌≤◌,
}
use menuvex_printer.Prelude.Int.{int_laws, neg_part, pos, pos_part, ℤ, ◌-ℤ◌}

-- Months of 31 days, then of 30; the last month has 29 days, or 30 in a leap year.
abbrev pub IsDate : Jalali → Type 0
IsDate j = (1 ≤ j.month) × (j.month ≤ 12) × (1 ≤ j.day) × (j.day ≤ 31) × (7 ≤ j.month → j.day ≤ 30)

-- The days of the years before year y, counted from the first of 33: eight times four years, the first of
-- which has 366 days, and one more year.
abbrev pub days_of_years : ℕ → ℕ
days_of_years y =
    12053 * (y / 33)
    + 1461 * (y % 33 / 4)
    + 365 * (y % 33 % 4)
    + (if ltb 0 (y % 33 % 4) then 1 else 0)

-- The days of a year before a date.
abbrev pub days_of_months : Jalali → ℕ
days_of_months j =
    if ltb j.month 7
    then 31 * (j.month - 1) + (j.day - 1)
    else 186 + 30 * (j.month - 7) + (j.day - 1)

-- A date that is n days after the first day of the cycles.
abbrev pub Counts : ℕ → Jalali → Type 0
Counts n j =
    IsDate j × ((y : ℕ) × (j.year ≡ pos y -ℤ pos 1595) × (n ≡ days_of_years y + days_of_months j))

month_day-IsDate : (jy : ℤ) (days : ℕ) → days ≤ 365 → IsDate (month_day jy days)
unfolding month_day
month_day-IsDate jy days h = ground arith

days_of_months-month_day :
    (jy : ℤ) (days : ℕ) → days ≤ 365 → days_of_months (month_day jy days) ≡ days
unfolding month_day
days_of_months-month_day jy days h = ground arith

month_day-year : (jy : ℤ) (days : ℕ) → (month_day jy days).year ≡ jy
unfolding month_day
month_day-year jy days = ground arith

cycle_year :
    (q a b : ℕ)
    → a ≤ 8
    → b ≤ 3
    → (a ≡ 8 → b ≡ 0)
    → ((33 * q + 4 * a + b) / 33 ≡ q)
      × ((33 * q + 4 * a + b) % 33 / 4 ≡ a)
      × ((33 * q + 4 * a + b) % 33 % 4 ≡ b)
cycle_year q a b h k l = (ground arith, ground arith, ground arith)

counted :
    (n q a b days : ℕ)
    → days ≤ 365
    → a ≤ 8
    → b ≤ 3
    → (a ≡ 8 → b ≡ 0)
    → n ≡ 12053 * q + 1461 * a + 365 * b + (if ltb 0 b then 1 else 0) + days
    → Counts n (month_day (pos (33 * q + 4 * a + b) -ℤ pos 1595) days)
counted n q a b days h ha hb hab e =
    let jy = pos (33 * q + 4 * a + b) -ℤ pos 1595 in
    let (p, r, s) = cycle_year q a b ha hb hab in
    (
      month_day-IsDate jy days h,
      (
        33 * q + 4 * a + b,
        month_day-year jy days,
        rw (days_of_months-month_day jy days h, p, r, s) e,
      ),
    )

late_sum :
    (n : ℕ)
    → 365 < n % 12053 % 1461
    → n
      ≡ 12053 * (n / 12053)
        + 1461 * (n % 12053 / 1461)
        + 365 * ((n % 12053 % 1461 - 1) / 365)
        + (if ltb 0 ((n % 12053 % 1461 - 1) / 365) then 1 else 0)
        + (n % 12053 % 1461 - 1) % 365
late_sum n h =
    let one : 0 < (n % 12053 % 1461 - 1) / 365 = omega arith in rw (lt→ltb _ _ one) (omega arith)

-- Every day number is the date that counts it: the date is one of the calendar, and the days of the years
-- before its year, counted from 1595 years before the first, and of the months before it add up to the
-- number.
pub from_days-Counts : (n : ℕ) → Counts n (from_days n)
unfolding from_days
from_days-Counts n = elim (Bool-cases (ltb 365 (n % 12053 % 1461))) [
  | inl late ↦
      let above : 365 < n % 12053 % 1461 = ltb→lt _ _ late in
      rw (late, from_days)
        (counted n (n / 12053) (n % 12053 / 1461) ((n % 12053 % 1461 - 1) / 365)
          ((n % 12053 % 1461 - 1) % 365) (omega arith) (omega arith) (omega arith)
          (λ e. absurd (last_year n above e)) (late_sum n above))
  | inr early ↦
      let below : n % 12053 % 1461 ≤ 365 = ground (arith, early) in
      rw (early, from_days)
        (counted n (n / 12053) (n % 12053 / 1461) 0 (n % 12053 % 1461) below (omega arith)
          (omega arith) (λ e. refl) (omega arith))
]
  where
    last_year : (n : ℕ) → 365 < n % 12053 % 1461 → n % 12053 / 1461 ≡ 8 → ⊥
    last_year n h e = omega arith

-- So the dates of different day numbers differ.
pub from_days_inj : (m n : ℕ) → from_days m ≡ from_days n → m ≡ n
from_days_inj m n h =
    let (_, (y, ey, em)) = from_days-Counts m in
    let (_, (z, ez, en)) = from_days-Counts n in
    let years : pos y -ℤ pos 1595 ≡ pos z -ℤ pos 1595 =
      sym ey ∙ ap (λ (j : Jalali). j.year) h ∙ ez in
    let same : y ≡ z = same_year y z years in
    em
    ∙ ap (λ k. days_of_years k + days_of_months (from_days m)) same
    ∙ ap (λ j. days_of_years z + days_of_months j) h
    ∙ sym en
  where
    same_year : (y z : ℕ) → pos y -ℤ pos 1595 ≡ pos z -ℤ pos 1595 → y ≡ z
    same_year y z e = omega (int_laws, ap pos_part e, ap neg_part e)
