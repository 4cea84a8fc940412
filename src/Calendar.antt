-- ===== src/Calendar.antt =====
-- offline-menuvex/jalali.go: GregorianToJalali. A date comes from package time, whose texts have years from
-- 0 to 9999, so that each part is a natural number; the Jalali year may be negative.
pub mod Days
pub mod Gregorian
use menuvex_printer.Prelude.{[], get_or, if◌then◌else◌, ltb, ℕ, ◌%◌, ◌*◌, ◌+◌, ◌-◌, ◌/◌, ◌||◌, ◌∷◌}
use menuvex_printer.Prelude.Int.{pos, ℤ, ◌-ℤ◌}

pub record Jalali : Type 0 where
  pub year : ℤ
  pub month : ℕ
  pub day : ℕ

-- gDaysInMonth[gm-1], with 0 out of range, which the caller excludes
unfoldable pub days_before : ℕ → ℕ
days_before gm =
    get_or (0 ∷ 31 ∷ 59 ∷ 90 ∷ 120 ∷ 151 ∷ 181 ∷ 212 ∷ 243 ∷ 273 ∷ 304 ∷ 334 ∷ []) (gm - 1) 0

-- days, before the first division. The difference is not below 0: 365 days a year are more than a hundredth of a day.
unfoldable pub day_number : ℕ → ℕ → ℕ → ℕ
unfolding days_before
day_number gy gm gd =
    let gy2 = if ltb 2 gm then gy + 1 else gy in
    355666 + 365 * gy + (gy2 + 3) / 4 - (gy2 + 99) / 100 + (gy2 + 399) / 400 + gd + days_before gm

-- The month and the day from the days since the first of Farvardin.
unfoldable pub month_day : ℤ → ℕ → Jalali
month_day jy days =
    if ltb days 186
    then record { year = jy; month = 1 + days / 31; day = 1 + days % 31 }
    else record { year = jy; month = 7 + (days - 186) / 30; day = 1 + (days - 186) % 30 }

-- From the day number: cycles of 33 years, then of 4 years, then years.
unfoldable pub from_days : ℕ → Jalali
unfolding month_day ◌-ℤ◌
from_days n =
    let rest = n % 12053 in
    let years = 33 * (n / 12053) + 4 * (rest / 1461) in
    let days = rest % 1461 in
    let extra = (days - 1) / 365 in
    if ltb 365 days
    then month_day (pos (years + extra) -ℤ pos 1595) ((days - 1) % 365)
    else month_day (pos (years + 0) -ℤ pos 1595) days

unfoldable pub gregorian_to_jalali : ℕ → ℕ → ℕ → Jalali
unfolding from_days day_number
gregorian_to_jalali gy gm gd =
    if ltb gm 1 || ltb 12 gm
    then record { year = pos gy; month = gm; day = gd }
    else from_days (day_number gy gm gd)
