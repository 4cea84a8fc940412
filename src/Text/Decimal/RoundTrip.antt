-- ===== src/Text/Decimal/RoundTrip.antt =====
-- What the decimal print writes is read back.
use Prim.Native.Char.{Char, code}
use Prim.Native.String.{[], ◌∷◌}
use menuvex_printer.Prelude.{
  Bool-cases, String, ap, arith, false, inl, inr, leb, refl, some, suc, true, zero, ℕ, ◌%◌, ◌*◌,
  ◌+◌, ◌/◌, ◌<◌, ◌==◌, ◌∙◌, ◌≡◌,
}
use menuvex_printer.Prelude.Int.{negsuc, pos, ℤ}
use menuvex_printer.Text.{before_dot, is_space, snoc_trim, trim_left, trim_right, trim_space, ◌<>◌}
use menuvex_printer.Text.Decimal.{
  digit_char, digits, format_int, format_nat, int_or_zero, is_digit, parse_big_int_safe, parse_nat,
  scan, set_string, signed,
}

pub digit_code : (d : ℕ) → d < 10 → code (digit_char d) ≡ d + 48
unfolding digit_char
digit_code zero h = refl
digit_code (suc zero) h = refl
digit_code (suc (suc zero)) h = refl
digit_code (suc (suc (suc zero))) h = refl
digit_code (suc (suc (suc (suc zero)))) h = refl
digit_code (suc (suc (suc (suc (suc zero))))) h = refl
digit_code (suc (suc (suc (suc (suc (suc zero)))))) h = refl
digit_code (suc (suc (suc (suc (suc (suc (suc zero))))))) h = refl
digit_code (suc (suc (suc (suc (suc (suc (suc (suc zero)))))))) h = refl
digit_code (suc (suc (suc (suc (suc (suc (suc (suc (suc zero))))))))) h = refl
digit_code (suc (suc (suc (suc (suc (suc (suc (suc (suc (suc d)))))))))) h = absurd (omega arith)

digit_is_digit : (d : ℕ) → d < 10 → is_digit (digit_char d) ≡ true
unfolding is_digit
digit_is_digit d h = ground (arith, digit_code d h)

scan_digit : (acc d : ℕ) (s : String) → d < 10 → scan acc (digit_char d ∷ s) ≡ scan (acc * 10 + d) s
unfolding scan
scan_digit acc d s h =
    rw (digit_is_digit d h, scan) (ap (λ n. scan n s) (omega (arith, digit_code d h)))

-- The digits that were written are read back before the rest.
scan-digits : (f n : ℕ) (acc : String) → n < f → scan 0 (digits f n acc) ≡ scan n acc
unfolding digits
scan-digits zero n acc h = elim h [ ]
scan-digits (suc f) n acc h = elim (Bool-cases (leb 10 n)) [
  | inl e ↦
      rw (e, digits)
        (scan-digits f (n / 10) (digit_char (n % 10) ∷ acc) (ground arith)
          ∙ scan_digit (n / 10) (n % 10) acc (omega arith)
          ∙ ap (λ m. scan m acc) (omega arith))
  | inr e ↦ rw (e, digits) (scan_digit 0 n acc (ground arith) ∙ ap (λ m. scan m acc) (omega arith))
]

-- Text that has only digits, and at least one.
abbrev pub AllDigits : String → Type 0
AllDigits [] = Unit {0}
AllDigits (c ∷ s) = (is_digit c ≡ true) × AllDigits s

digits-AllDigits : (f n : ℕ) (acc : String) → n < f → AllDigits acc → AllDigits (digits f n acc)
unfolding digits
digits-AllDigits zero n acc h a = a
digits-AllDigits (suc f) n acc h a = elim (Bool-cases (leb 10 n)) [
  | inl e ↦
      rw (e, digits)
        (digits-AllDigits f (n / 10) (digit_char (n % 10) ∷ acc) (ground arith)
          (digit_is_digit (n % 10) (omega arith), a))
  | inr e ↦ rw (e, digits) (digit_is_digit n (ground arith), a)
]

pub digit-not_space : (c : Char) → is_digit c ≡ true → is_space c ≡ false
unfolding is_digit is_space
digit-not_space c h = ground arith

-- Text in which the trimming and the cut at a dot find nothing.
abbrev pub Plain : String → Type 0
Plain [] = Unit {0}
Plain (c ∷ s) = (is_space c ≡ false) × ((code c == b'.') ≡ false) × Plain s

pub digit-not_dot : (c : Char) → is_digit c ≡ true → (code c == b'.') ≡ false
unfolding is_digit
digit-not_dot c h = ground arith

pub AllDigits-Plain : (s : String) → AllDigits s → Plain s
AllDigits-Plain [] h = tt
AllDigits-Plain (c ∷ s) h = (digit-not_space c h.0, digit-not_dot c h.0, AllDigits-Plain s h.1)

trim_right-Plain : (s : String) → Plain s → trim_right s ≡ s
unfolding trim_right snoc_trim
trim_right-Plain [] h = refl
trim_right-Plain (c ∷ []) h = rw (h.0, snoc_trim)
trim_right-Plain (c ∷ d ∷ s) h = rw (trim_right-Plain (d ∷ s) h.2, trim_right) refl

pub trim_space-Plain : (s : String) → Plain s → trim_space s ≡ s
unfolding trim_space trim_left
trim_space-Plain [] h = refl
trim_space-Plain (c ∷ s) h = rw (h.0, trim_left) (trim_right-Plain (c ∷ s) h)

pub before_dot-Plain : (s : String) → Plain s → before_dot s ≡ s
unfolding before_dot
before_dot-Plain [] h = refl
before_dot-Plain (c ∷ s) h = rw h.1 (ap (λ t. c ∷ t) (before_dot-Plain s h.2))

pub digits_cons :
    (f n : ℕ) (acc : String) → n < f → (c : Char) × (s : String) × (digits f n acc ≡ c ∷ s)
unfolding digits
digits_cons zero n acc h = elim h [ ]
digits_cons (suc f) n acc h = elim (Bool-cases (leb 10 n)) [
  | inl e ↦ rw (e, digits) (digits_cons f (n / 10) (digit_char (n % 10) ∷ acc) (ground arith))
  | inr e ↦ (digit_char n, acc, rw (e, digits))
]

parse_nat-scan : (s : String) {c : Char} {t : String} → s ≡ c ∷ t → parse_nat s ≡ scan 0 s
unfolding parse_nat
parse_nat-scan [] h = cc
parse_nat-scan (c ∷ s) h = refl

pub parse_nat-format_nat : (n : ℕ) → parse_nat (format_nat n) ≡ some n
unfolding format_nat scan
parse_nat-format_nat n =
    parse_nat-scan (format_nat n) (digits_cons (suc n) n [] (omega arith)).2
    ∙ scan-digits (suc n) n [] (omega arith)

pub set_string_digits : (s : String) → AllDigits s → set_string s ≡ signed false (parse_nat s)
unfolding set_string
set_string_digits [] h = unfold signed parse_nat in refl
set_string_digits (c ∷ s) h = let d = h.0 in unfold is_digit in ground arith

pub format_nat-AllDigits : (n : ℕ) → AllDigits (format_nat n)
unfolding format_nat
format_nat-AllDigits n = digits-AllDigits (suc n) n [] (omega arith) tt

parse_trimmed : (s : String) → Plain s → parse_big_int_safe s ≡ int_or_zero (set_string s)
unfolding parse_big_int_safe
parse_trimmed s h = rw (trim_space-Plain s h, before_dot-Plain s h)

minus_parse : (n : ℕ) → set_string ("-" <> format_nat (suc n)) ≡ some (negsuc n)
unfolding set_string signed ◌<>◌
minus_parse n = ground (arith, parse_nat-format_nat (suc n))

-- parseBigIntSafe reads back every integer that big.Int.String or FormatInt printed.
pub parse_big_int_safe-format_int : (z : ℤ) → parse_big_int_safe (format_int z) ≡ z
unfolding format_int ◌<>◌ is_space
parse_big_int_safe-format_int (pos n) =
    parse_trimmed (format_nat n) (AllDigits-Plain _ (format_nat-AllDigits n))
    ∙ ap int_or_zero
        (set_string_digits _ (format_nat-AllDigits n) ∙ ap (signed false) (parse_nat-format_nat n))
    ∙ (unfold int_or_zero signed in refl)
parse_big_int_safe-format_int (negsuc n) =
    parse_trimmed ("-" <> format_nat (suc n))
      (refl, refl, AllDigits-Plain _ (format_nat-AllDigits (suc n)))
    ∙ ap int_or_zero (minus_parse n)
    ∙ (unfold int_or_zero in refl)
