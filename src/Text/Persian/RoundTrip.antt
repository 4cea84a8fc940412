-- ===== src/Text/Persian/RoundTrip.antt =====
-- An amount that a page shows is read back by its forms: FormatPersianNumber of
-- offline-menuvex/internal/store/store.go, and tomanFormToIRR of offline-menuvex/app.go.
use Prim.Native.Char.{Char}
use Prim.Native.String.{[], ◌∷◌}
use menuvex_printer.Prelude.{
  Bool-cases, String, ap, arith, eq_iff, false, inl, inr, none, refl, some, str_eq, suc, true, ℕ,
  ◌*◌, ◌<◌, ◌^◌, ◌∙◌, ◌≡◌,
}
use menuvex_printer.Prelude.Int.{pos, ℤ, ◌*ℤ◌}
use menuvex_printer.Text.{has_prefix, is_empty}
use menuvex_printer.Text.Decimal.{
  atoi, format_int, format_nat, in_int64, is_digit, set_string, signed, wrap_int64,
}
use menuvex_printer.Text.Decimal.RoundTrip.{
  AllDigits, AllDigits-Plain, Plain, before_dot-Plain, digits_cons, format_nat-AllDigits,
  parse_nat-format_nat, set_string_digits, trim_space-Plain,
}
use menuvex_printer.Text.Decimal.Wrap.{wrap_int64_keeps}
use menuvex_printer.Text.Persian.{
  add_thousand_commas, after_dot, format_persian_number, group_digits, irr_of, normalize_digits,
  to_persian_digits, toman_form_to_irr, with_fraction,
}
use menuvex_printer.Text.Persian.Groups.{IsAmount-Plain, group_digits-IsAmount, group_digits-round}

after_dot-Plain : (s : String) → Plain s → after_dot s ≡ none
unfolding after_dot
after_dot-Plain [] h = refl
after_dot-Plain (c ∷ s) h = rw (h.1) (after_dot-Plain s h.2)

no_sign : (s : String) → AllDigits s → has_prefix "-" s ≡ false
unfolding has_prefix is_digit
no_sign [] h = refl
no_sign (c ∷ s) h = let d = h.0 in ground arith

not_empty : (s : String) {c : Char} {t : String} → s ≡ c ∷ t → str_eq s "" ≡ false
unfolding is_empty
not_empty [] h = cc
not_empty (c ∷ s) h = elim (Bool-cases (str_eq (c ∷ s) "")) [
  | inl e ↦
      let p : is_empty (c ∷ s) ≡ is_empty "" = ap is_empty ((eq_iff (c ∷ s) "").0 e) in
      ground (arith, p)
  | inr d ↦ d
]

-- What FormatPersianNumber writes of digits
format_persian_number-digits :
    (s : String)
    → AllDigits s
    → str_eq s "" ≡ false
    → format_persian_number s ≡ to_persian_digits (group_digits s)
unfolding format_persian_number with_fraction add_thousand_commas
format_persian_number-digits s h some_digit =
    let p = AllDigits-Plain s h in
    rw (trim_space-Plain s p, some_digit, after_dot-Plain s p, before_dot-Plain s p, no_sign s h)
      refl

toman_form_to_irr-digits :
    (t s : String)
    → AllDigits s
    → Plain t
    → normalize_digits t ≡ s
    → str_eq s "" ≡ false
    → toman_form_to_irr t ≡ elim (atoi s) [ none ↦ none | some n ↦ irr_of n ]
unfolding toman_form_to_irr
toman_form_to_irr-digits t s h p same some_digit = rw (trim_space-Plain t p, same, some_digit) refl

atoi_of : (s : String) (z : ℤ) → set_string s ≡ some z → in_int64 z ≡ true → atoi s ≡ some z
unfolding atoi
atoi_of s z e h = ground (arith, e, h)

atoi-format_nat : (n : ℕ) → in_int64 (pos n) ≡ true → atoi (format_nat n) ≡ some (pos n)
unfolding signed
atoi-format_nat n h =
    atoi_of (format_nat n) (pos n)
      (set_string_digits (format_nat n) (format_nat-AllDigits n)
        ∙ ap (signed false) (parse_nat-format_nat n))
      h

ten_times : (n : ℕ) → pos n *ℤ pos 10 ≡ pos (n * 10)
unfolding ◌*ℤ◌
ten_times n = ground arith

not_negative : (n : ℕ) → irr_of (pos n) ≡ some (format_int (wrap_int64 (pos n *ℤ pos 10)))
unfolding irr_of
not_negative n = ground arith

irr_of_pos : (n : ℕ) → in_int64 (pos (n * 10)) ≡ true → irr_of (pos n) ≡ some (format_nat (n * 10))
unfolding irr_of format_int
irr_of_pos n h =
    let kept : wrap_int64 (pos n *ℤ pos 10) ≡ pos (n * 10) =
      ap wrap_int64 (ten_times n) ∙ wrap_int64_keeps (pos (n * 10)) h in
    not_negative n ∙ ap (λ z. some (format_int z)) kept

-- An amount of toman that a page shows, with Persian digits and separators, is read back by the forms as ten
-- times as many rial, as long as those are an int64.
pub toman_form_to_irr-format_persian_number :
    (n : ℕ)
    → n * 10 < 2 ^ 63
    → toman_form_to_irr (format_persian_number (format_nat n)) ≡ some (format_nat (n * 10))
toman_form_to_irr-format_persian_number n h =
    let s = format_nat n in
    let all_digits = format_nat-AllDigits n in
    let some_digit = not_empty s (first_digit n).2 in
    ap toman_form_to_irr (format_persian_number-digits s all_digits some_digit)
    ∙ toman_form_to_irr-digits (to_persian_digits (group_digits s)) s all_digits
        (IsAmount-Plain (group_digits s) (group_digits-IsAmount s all_digits))
        (group_digits-round s all_digits) some_digit
    ∙ ap (λ o. elim o [ none ↦ none | some z ↦ irr_of z ]) (atoi-format_nat n (ground (arith, h)))
    ∙ irr_of_pos n (ground (arith, h))
  where
    first_digit : (n : ℕ) → (c : Char) × (t : String) × (format_nat n ≡ c ∷ t)
    first_digit n = unfold format_nat in digits_cons (suc n) n [] (omega arith)
