-- ===== src/Text/Persian/Groups.antt =====
-- Digits in groups of three, in Persian, and back: addThousandCommas and ToPersianDigits of
-- offline-menuvex/internal/store/store.go, and normalizeDigits of offline-menuvex/app.go.
use Prim.Native.Char.{Char, code}
use Prim.Native.String.{[], ◌∷◌, char_at}
use text.Mathlib.TextEquality.{Char-path}
use menuvex_printer.Prelude.{
  Bool-cases, String, ap, arith, false, if_both, if_split, inl, inr, leb, refl, suc, true, zero, ℕ,
  ◌%◌, ◌*◌, ◌-◌, ◌<◌, ◌==◌, ◌∙◌, ◌≡◌, ◌⊎◌,
}
use menuvex_printer.Text.{is_space, runes, ◌<>◌}
use menuvex_printer.Text.Decimal.{digit_char, is_digit}
use menuvex_printer.Text.Decimal.RoundTrip.{AllDigits, Plain, digit_code}
use menuvex_printer.Text.Persian.{
  drop_first, drop_text, group_digits, grouped, is_separator, latin_char, normalize_digits,
  persian_char, take_text, three_groups, to_persian_digits,
}

-- A Persian digit is no space, no dot and no separator, and stands for its Latin one.
abbrev Stands : Char → ℕ → Type 0
Stands x d =
    (is_space x ≡ false)
    × ((code x == b'.') ≡ false)
    × (is_separator x ≡ false)
    × (latin_char x ≡ digit_char d)

persian_digit : (d : ℕ) → d < 10 → Stands (char_at "۰۱۲۳۴۵۶۷۸۹" (2 * d)) d
unfolding is_space is_separator latin_char digit_char
persian_digit zero h = (refl, refl, refl, refl)
persian_digit (suc zero) h = (refl, refl, refl, refl)
persian_digit (suc (suc zero)) h = (refl, refl, refl, refl)
persian_digit (suc (suc (suc zero))) h = (refl, refl, refl, refl)
persian_digit (suc (suc (suc (suc zero)))) h = (refl, refl, refl, refl)
persian_digit (suc (suc (suc (suc (suc zero))))) h = (refl, refl, refl, refl)
persian_digit (suc (suc (suc (suc (suc (suc zero)))))) h = (refl, refl, refl, refl)
persian_digit (suc (suc (suc (suc (suc (suc (suc zero))))))) h = (refl, refl, refl, refl)
persian_digit (suc (suc (suc (suc (suc (suc (suc (suc zero)))))))) h = (refl, refl, refl, refl)
persian_digit (suc (suc (suc (suc (suc (suc (suc (suc (suc zero))))))))) h =
    (refl, refl, refl, refl)
persian_digit (suc (suc (suc (suc (suc (suc (suc (suc (suc (suc d)))))))))) h = absurd (omega arith)

persian_char-Stands : (c : Char) → is_digit c ≡ true → Stands (persian_char c) (code c - 48)
unfolding persian_char is_digit
persian_char-Stands c h = rw (h) (persian_digit (code c - 48) (ground arith))

digit_of : (c : Char) → is_digit c ≡ true → digit_char (code c - 48) ≡ c
unfolding is_digit
digit_of c h = Char-path _ c (digit_code (code c - 48) (ground arith) ∙ ground arith)

abbrev pub round : String → String
round s = normalize_digits (to_persian_digits s)

round-append : (s t : String) → round (s <> t) ≡ round s <> round t
unfolding normalize_digits to_persian_digits ◌<>◌
round-append [] t = refl
round-append (c ∷ s) t = elim (Bool-cases (is_separator (persian_char c))) [
  | inl e ↦ rw (e) (round-append s t)
  | inr d ↦ rw (d, round-append s t) refl
]

round-AllDigits : (s : String) → AllDigits s → round s ≡ s
unfolding normalize_digits to_persian_digits
round-AllDigits [] h = refl
round-AllDigits (c ∷ s) h =
    let (space, dot, sep, back) = persian_char-Stands c h.0 in
    rw (sep, back, digit_of c h.0, round-AllDigits s h.1) refl

-- Digits and separators
abbrev pub IsAmount : String → Type 0
IsAmount [] = Unit {0}
IsAmount (c ∷ s) = ((is_digit c ≡ true) ⊎ ((code c == 0x66c) ≡ true)) × IsAmount s

separator_plain :
    (c : Char)
    → (code c == 0x66c) ≡ true
    → (is_space (persian_char c) ≡ false) × ((code (persian_char c) == b'.') ≡ false)
unfolding persian_char is_digit is_space
separator_plain c h = (ground arith, ground arith)

pub IsAmount-Plain : (s : String) → IsAmount s → Plain (to_persian_digits s)
unfolding to_persian_digits
IsAmount-Plain [] h = tt
IsAmount-Plain (c ∷ s) (inl digit, rest) =
    let (space, dot, sep, back) = persian_char-Stands c digit in (space, dot, IsAmount-Plain s rest)
IsAmount-Plain (c ∷ s) (inr sep, rest) =
    let (space, dot) = separator_plain c sep in (space, dot, IsAmount-Plain s rest)

three_groups-IsAmount : (s : String) → AllDigits s → IsAmount (three_groups s)
unfolding three_groups ◌<>◌
three_groups-IsAmount [] h = tt
three_groups-IsAmount (c ∷ []) h = tt
three_groups-IsAmount (c ∷ d ∷ []) h = tt
three_groups-IsAmount (c ∷ d ∷ e ∷ s) h =
    (inr refl, (inl h.0, (inl h.1.0, (inl h.1.1.0, three_groups-IsAmount s h.1.1.1))))

round-three_groups : (s : String) → AllDigits s → runes s % 3 ≡ 0 → round (three_groups s) ≡ s
unfolding three_groups ◌<>◌ runes normalize_digits to_persian_digits
round-three_groups [] h n = refl
round-three_groups (c ∷ []) h n = absurd (omega arith)
round-three_groups (c ∷ d ∷ []) h n = absurd (omega arith)
round-three_groups (c ∷ d ∷ e ∷ s) h n =
    round-append (c ∷ d ∷ e ∷ []) (three_groups s)
    ∙ ap (λ x. x <> round (three_groups s))
        (round-AllDigits (c ∷ d ∷ e ∷ []) (h.0, (h.1.0, (h.1.1.0, tt))))
    ∙ ap (λ x. c ∷ d ∷ e ∷ x) (round-three_groups s h.1.1.1 (omega (arith, n)))

take-drop_text : (n : ℕ) (s : String) → take_text n s <> drop_text n s ≡ s
unfolding take_text drop_text ◌<>◌
take-drop_text zero s = refl
take-drop_text (suc n) [] = refl
take-drop_text (suc n) (c ∷ s) = ap (λ x. c ∷ x) (take-drop_text n s)

take_text-AllDigits : (n : ℕ) (s : String) → AllDigits s → AllDigits (take_text n s)
unfolding take_text
take_text-AllDigits zero s h = tt
take_text-AllDigits (suc n) [] h = tt
take_text-AllDigits (suc n) (c ∷ s) h = (h.0, take_text-AllDigits n s h.1)

drop_text-AllDigits : (n : ℕ) (s : String) → AllDigits s → AllDigits (drop_text n s)
unfolding drop_text
drop_text-AllDigits zero s h = h
drop_text-AllDigits (suc n) [] h = tt
drop_text-AllDigits (suc n) (c ∷ s) h = drop_text-AllDigits n s h.1

runes-drop_text : (n : ℕ) (s : String) → runes (drop_text n s) ≡ runes s - n
unfolding runes drop_text
runes-drop_text zero s = omega arith
runes-drop_text (suc n) [] = omega arith
runes-drop_text (suc n) (c ∷ s) = omega (arith, runes-drop_text n s)

drop_first-round : (s : String) → round (drop_first (three_groups s)) ≡ round (three_groups s)
unfolding drop_first three_groups normalize_digits to_persian_digits ◌<>◌
drop_first-round [] = refl
drop_first-round (c ∷ []) = refl
drop_first-round (c ∷ d ∷ []) = refl
drop_first-round (c ∷ d ∷ e ∷ s) = refl

drop_first-IsAmount : (s : String) → IsAmount s → IsAmount (drop_first s)
unfolding drop_first
drop_first-IsAmount [] h = tt
drop_first-IsAmount (c ∷ s) h = h.1

AllDigits-IsAmount : (s : String) → AllDigits s → IsAmount s
AllDigits-IsAmount [] h = tt
AllDigits-IsAmount (c ∷ s) h = (inl h.0, AllDigits-IsAmount s h.1)

append-IsAmount : (s t : String) → IsAmount s → IsAmount t → IsAmount (s <> t)
unfolding ◌<>◌
append-IsAmount [] t h k = k
append-IsAmount (c ∷ s) t h k = (h.0, append-IsAmount s t h.1 k)

drop_none : (n : ℕ) (s : String) → n ≡ 0 → drop_text n s ≡ s
unfolding drop_text
drop_none zero s h = refl
drop_none (suc n) s h = absurd (omega arith)

grouped-round : (s : String) → AllDigits s → round (grouped (runes s % 3) s) ≡ s
unfolding grouped
grouped-round s h =
    let rem = runes s % 3 in
    let back : round (three_groups (drop_text rem s)) ≡ drop_text rem s =
      round-three_groups (drop_text rem s) (drop_text-AllDigits rem s h)
        (omega (arith, runes-drop_text rem s)) in
    if_split (λ x. round x ≡ s) (rem == 0)
      (λ none_over.
        drop_first-round (drop_text rem s) ∙ back ∙ drop_none rem s (ground (arith, none_over)))
      (λ some_over.
        round-append (take_text rem s) (three_groups (drop_text rem s))
        ∙ ap (λ x. x <> round (three_groups (drop_text rem s)))
            (round-AllDigits (take_text rem s) (take_text-AllDigits rem s h))
        ∙ ap (λ x. take_text rem s <> x) back
        ∙ take-drop_text rem s)

pub group_digits-round : (s : String) → AllDigits s → round (group_digits s) ≡ s
unfolding group_digits
group_digits-round s h =
    if_both (λ x. round x ≡ s) (leb (runes s) 3) _ _ (round-AllDigits s h) (grouped-round s h)

pub group_digits-IsAmount : (s : String) → AllDigits s → IsAmount (group_digits s)
unfolding group_digits grouped
group_digits-IsAmount s h =
    let rem = runes s % 3 in
    let groups = three_groups-IsAmount (drop_text rem s) (drop_text-AllDigits rem s h) in
    if_both IsAmount (leb (runes s) 3) _ _ (AllDigits-IsAmount s h) (
      if_both IsAmount (rem == 0) _ _ (drop_first-IsAmount (three_groups (drop_text rem s)) groups)
        (append-IsAmount (take_text rem s) (three_groups (drop_text rem s))
          (AllDigits-IsAmount (take_text rem s) (take_text-AllDigits rem s h)) groups))
