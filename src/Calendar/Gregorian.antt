-- ===== src/Calendar/Gregorian.antt =====
-- The day numbers of the Gregorian calendar follow its leap years, and so the Jalali dates follow each other.
use mathlib.Core.Path.{subst}
use menuvex_printer.Calendar.{day_number, days_before, gregorian_to_jalali}
use menuvex_printer.Calendar.Days.{Counts, from_days-Counts}
use menuvex_printer.Prelude.{
  Bool, Bool-cases, arith, false, if◌then◌else◌, inl, inr, ltb, ltb→lt, not, suc, zero, ℕ, ◌%◌,
  ◌&&◌, ◌+◌, ◌/◌, ◌<◌, ◌==◌, ◌||◌, ◌≡◌, ◌≤◌,
}

pub record Gregorian : Type 0 where
  pub year : ℕ
  pub month : ℕ
  pub day : ℕ

abbrev pub is_leap : ℕ → Bool
is_leap y = y % 4 == 0 && (not (y % 100 == 0) || y % 400 == 0)

abbrev pub month_length : ℕ → ℕ → ℕ
month_length y m =
    if m == 2
    then (if is_leap y then 29 else 28)
    else if m == 4 || m == 6 || m == 9 || m == 11
    then 30
    else 31

abbrev pub next_day : Gregorian → Gregorian
next_day d =
    if ltb d.day (month_length d.year d.month)
    then record d { day = d.day + 1 }
    else if ltb d.month 12
    then record { year = d.year; month = d.month + 1; day = 1 }
    else record { year = d.year + 1; month = 1; day = 1 }

abbrev pub number_of : Gregorian → ℕ
number_of d = day_number d.year d.month d.day

abbrev pub IsDay : Gregorian → Type 0
IsDay d = (1 ≤ d.month) × (d.month ≤ 12) × (1 ≤ d.day) × (d.day ≤ month_length d.year d.month)

within_month : (y m d : ℕ) → day_number y m (d + 1) ≡ day_number y m d + 1
unfolding day_number
within_month y m d = omega arith

leap_step :
    (y : ℕ)
    → (y + 4) / 4 + (y + 400) / 400 + (y + 99) / 100
      ≡ (y + 3) / 4 + (y + 399) / 400 + (y + 100) / 100 + (if is_leap y then 1 else 0)
leap_step y = ground arith

month_step :
    (y m : ℕ) → 1 ≤ m → m < 12 → day_number y (m + 1) 1 ≡ day_number y m (month_length y m) + 1
unfolding day_number days_before
month_step y zero h k = absurd (omega arith)
month_step y (suc zero) h k = omega arith
month_step y (suc (suc zero)) h k = ground (arith, leap_step y)
month_step y (suc (suc (suc zero))) h k = omega arith
month_step y (suc (suc (suc (suc zero)))) h k = omega arith
month_step y (suc (suc (suc (suc (suc zero))))) h k = omega arith
month_step y (suc (suc (suc (suc (suc (suc zero)))))) h k = omega arith
month_step y (suc (suc (suc (suc (suc (suc (suc zero))))))) h k = omega arith
month_step y (suc (suc (suc (suc (suc (suc (suc (suc zero)))))))) h k = omega arith
month_step y (suc (suc (suc (suc (suc (suc (suc (suc (suc zero))))))))) h k = omega arith
month_step y (suc (suc (suc (suc (suc (suc (suc (suc (suc (suc zero)))))))))) h k = omega arith
month_step y (suc (suc (suc (suc (suc (suc (suc (suc (suc (suc (suc zero))))))))))) h k =
    omega arith
month_step y (suc (suc (suc (suc (suc (suc (suc (suc (suc (suc (suc (suc m)))))))))))) h k =
    absurd (omega arith)

year_step : (y : ℕ) → day_number (y + 1) 1 1 ≡ day_number y 12 31 + 1
unfolding day_number days_before
year_step y = omega arith

next_number : (d : Gregorian) → IsDay d → number_of (next_day d) ≡ number_of d + 1
next_number d (m₁, m₂, d₁, d₂) = elim (Bool-cases (ltb d.day (month_length d.year d.month))) [
  | inl inside ↦ rw (inside, next_day) (within_month d.year d.month d.day)
  | inr last ↦
      let ends_month : d.day ≡ month_length d.year d.month = ground (arith, last, d₂) in
      elim (Bool-cases (ltb d.month 12)) [
        | inl before ↦
            rw (last, before, next_day, ends_month)
              (month_step d.year d.month m₁ (ltb→lt _ _ before))
        | inr december ↦
            let twelve : d.month ≡ 12 = ground (arith, december, m₂) in
            rw (last, december, next_day, ends_month, twelve) (year_step d.year)
      ]
]

-- Along the Gregorian calendar, leap years included, the conversion counts one day after another: each day
-- has a Jalali date of the calendar that stands for its day number, and the next day that of the next number.
pub gregorian_to_jalali_next :
    (d : Gregorian)
    → IsDay d
    → let e = next_day d in
      (number_of e ≡ number_of d + 1)
      × Counts (number_of d) (gregorian_to_jalali d.year d.month d.day)
      × Counts (number_of d + 1) (gregorian_to_jalali e.year e.month e.day)
gregorian_to_jalali_next d v =
    let step = next_number d v in
    (
      step,
      converted d v.0 v.1,
      subst
          (λ n.
            Counts n (gregorian_to_jalali (next_day d).year (next_day d).month (next_day d).day))
          step (converted (next_day d) (next_month d v).0 (next_month d v).1),
    )
  where
    next_month : (d : Gregorian) → IsDay d → (1 ≤ (next_day d).month) × ((next_day d).month ≤ 12)
    next_month d v = ground arith

    converted :
        (d : Gregorian)
        → 1 ≤ d.month
        → d.month ≤ 12
        → Counts (number_of d) (gregorian_to_jalali d.year d.month d.day)
    converted d h k =
        unfold gregorian_to_jalali in
        rw ((λ (t : ltb d.month 1 || ltb 12 d.month ≡ false). t) (ground arith))
          (from_days-Counts (number_of d))
