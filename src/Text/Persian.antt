-- ===== src/Text/Persian.antt =====
-- Amounts on the pages: ToPersianDigits, FormatPersianNumber and FormatIRRToToman of
-- offline-menuvex/internal/store/store.go, and normalizeDigits and tomanFormToIRR of offline-menuvex/app.go.
pub mod Groups
pub mod RoundTrip
use Prim.Native.Char.{Char, code}
use Prim.Native.String.{[], ◌∷◌, char_at}
use menuvex_printer.Prelude.{
  Bool, Option, String, if◌then◌else◌, leb, none, some, str_eq, suc, zero, ℕ, ◌%◌, ◌&&◌, ◌*◌, ◌+◌,
  ◌-◌, ◌/◌, ◌==◌, ◌||◌,
}
use menuvex_printer.Prelude.Int.{ltb_ℤ, neg_part, negsuc, pos, pos_part, sub_ℕ, ℤ, ◌*ℤ◌}
use menuvex_printer.Text.{before_dot, has_prefix, runes, trim_space, ◌<>◌}
use menuvex_printer.Text.Decimal.{atoi, format_int, is_digit, set_string, wrap_int64}
use menuvex_printer.Text.Float.{drop_zeros}
use menuvex_printer.Text.Split.{drop_prefix}

-- char_at counts bytes, of which a Persian digit has two.
unfoldable pub persian_char : Char → Char
unfolding is_digit
persian_char c = if is_digit c then char_at "۰۱۲۳۴۵۶۷۸۹" (2 * (code c - 48)) else c

-- ToPersianDigits
unfoldable pub to_persian_digits : String → String
unfolding persian_char
to_persian_digits [] = []
to_persian_digits (c ∷ s) = persian_char c ∷ to_persian_digits s

unfoldable pub take_text : ℕ → String → String
take_text zero s = ""
take_text (suc n) [] = ""
take_text (suc n) (c ∷ s) = c ∷ take_text n s

unfoldable pub drop_text : ℕ → String → String
drop_text zero s = s
drop_text (suc n) [] = ""
drop_text (suc n) (c ∷ s) = drop_text n s

abbrev pub comma : String
comma = "\u{66c}"

-- The groups of three digits, each with a separator before it
unfoldable pub three_groups : String → String
unfolding ◌<>◌
three_groups (c ∷ d ∷ e ∷ s) = comma <> (c ∷ d ∷ e ∷ three_groups s)
three_groups s = ""

-- Without the separator at the start, if no digits stand before the groups
unfoldable pub drop_first : String → String
drop_first [] = []
drop_first (c ∷ s) = s

unfoldable pub grouped : ℕ → String → String
unfolding take_text drop_text three_groups drop_first ◌<>◌
grouped rem s =
    let rest = three_groups (drop_text rem s) in
    if rem == 0 then drop_first rest else take_text rem s <> rest

-- addThousandCommas, on the digits behind the sign; len counts bytes, which are the digits
unfoldable pub group_digits : String → String
unfolding grouped runes
group_digits s = if leb (runes s) 3 then s else grouped (runes s % 3) s

-- addThousandCommas
unfoldable pub add_thousand_commas : String → String
unfolding has_prefix drop_prefix group_digits ◌<>◌
add_thousand_commas s =
    if has_prefix "-" s then "-" <> group_digits (drop_prefix "-" s) else group_digits s

unfoldable pub after_dot : String → Option String
after_dot [] = none
after_dot (c ∷ s) = if code c == b'.' then some s else after_dot s

unfoldable pub with_fraction : String → Option String → String
unfolding drop_zeros to_persian_digits ◌<>◌
with_fraction front none = to_persian_digits front
with_fraction front (some frac) =
    let kept = drop_zeros frac in
    if str_eq kept "" then to_persian_digits front else to_persian_digits (front <> "/" <> kept)

-- FormatPersianNumber
unfoldable pub format_persian_number : String → String
unfolding trim_space before_dot after_dot add_thousand_commas with_fraction
format_persian_number raw =
    let text = trim_space raw in
    if str_eq text ""
    then "۰"
    else with_fraction (add_thousand_commas (before_dot text)) (after_dot text)

abbrev pub toman_unit : String
toman_unit = " \u{62a}\u{648}\u{645}\u{627}\u{646}"

abbrev pub irr_unit : String
irr_unit = " \u{631}\u{6cc}\u{627}\u{644}"

-- QuoRem by 10: the quotient goes towards 0.
unfoldable pub toman_of : ℤ → ℤ
toman_of (pos n) = pos (n / 10)
toman_of (negsuc n) = sub_ℕ 0 (suc n / 10)

unfoldable pub toman_text : String → ℤ → String
unfolding toman_of format_persian_number format_int ◌<>◌
toman_text front z =
    let formatted = format_persian_number (format_int (toman_of z)) in
    if (pos_part z + neg_part z) % 10 == 0
    then formatted <> toman_unit
    else formatted <> toman_unit <> " (" <> format_persian_number front <> irr_unit <> ")"

-- FormatIRRToToman
unfoldable pub format_irr_to_toman : String → String
unfolding trim_space before_dot set_string to_persian_digits toman_text ◌<>◌
format_irr_to_toman raw =
    let text = trim_space raw in
    if str_eq text "" then "۰" <> toman_unit else elim (set_string (before_dot text)) [
      | none ↦ to_persian_digits text <> irr_unit
      | some z ↦ toman_text (before_dot text) z
    ]

-- The digit of a Persian or an Arabic one
unfoldable pub latin_char : Char → Char
latin_char c =
    let n = code c in
    if leb 0x6f0 n && leb n 0x6f9
    then char_at "0123456789" (n - 0x6f0)
    else if leb 0x660 n && leb n 0x669
    then char_at "0123456789" (n - 0x660)
    else c

-- The separator of thousands, the comma and the space
unfoldable pub is_separator : Char → Bool
is_separator c = let n = code c in n == 0x66c || n == 44 || n == 32

-- normalizeDigits
unfoldable pub normalize_digits : String → String
unfolding latin_char is_separator
normalize_digits [] = []
normalize_digits (c ∷ s) =
    let rest = normalize_digits s in if is_separator c then rest else latin_char c ∷ rest

unfoldable pub irr_of : ℤ → Option String
unfolding format_int wrap_int64 ◌*ℤ◌
irr_of n = if ltb_ℤ n (pos 0) then none else some (format_int (wrap_int64 (n *ℤ pos 10)))

-- tomanFormToIRR; n*10 is taken on int64
unfoldable pub toman_form_to_irr : String → Option String
unfolding trim_space normalize_digits atoi irr_of
toman_form_to_irr raw =
    let plain = normalize_digits (trim_space raw) in
    if str_eq plain "" then none else elim (atoi plain) [ none ↦ none | some n ↦ irr_of n ]
