-- ===== src/Text/Decimal.antt =====
-- Decimal print and parse: big.Int.String and SetString(s, 10), strconv.Itoa, FormatInt and Atoi, and
-- parseBigIntSafe of internal/store/domains.go.
pub mod Wrap
pub mod RoundTrip
use Prim.Native.Char.{Char, code}
use Prim.Native.String.{[], ◌∷◌, char_at}
use menuvex_printer.Prelude.{
  ℕ, zero, suc, ◌+◌, ◌-◌, ◌*◌, ◌/◌, ◌%◌, ◌^◌, String, Bool, true, false, ◌&&◌, Option, none, some,
  leb, ltb, ◌==◌, if◌then◌else◌,
}
use menuvex_printer.Prelude.Int.{ℤ, pos, negsuc, sub_ℕ, ltb_ℤ, ◌-ℤ◌}
use menuvex_printer.Text.{◌<>◌, trim_space, before_dot}

unfoldable pub digit_char : ℕ → Char
digit_char d = char_at "0123456789" d

-- The digits of n before those of acc; n + 1 rounds are enough.
unfoldable pub digits : ℕ → ℕ → String → String
unfolding digit_char
digits zero n acc = acc
digits (suc f) n acc = elim (leb 10 n) [
  | true ↦ digits f (n / 10) (digit_char (n % 10) ∷ acc)
  | false ↦ digit_char n ∷ acc
]

unfoldable pub format_nat : ℕ → String
unfolding digits
format_nat n = digits (suc n) n []

-- big.Int.String, strconv.Itoa, strconv.FormatInt(x, 10)
unfoldable pub format_int : ℤ → String
unfolding format_nat
format_int (pos n) = format_nat n
format_int (negsuc n) = "-" <> format_nat (suc n)

unfoldable pub is_digit : Char → Bool
is_digit c = leb b'0' (code c) && leb (code c) b'9'

unfoldable pub scan : ℕ → String → Option ℕ
unfolding is_digit
scan acc [] = some acc
scan acc (c ∷ s) = elim (is_digit c) [ true ↦ scan (acc * 10 + (code c - b'0')) s | false ↦ none ]

unfoldable pub parse_nat : String → Option ℕ
unfolding scan
parse_nat [] = none
parse_nat (c ∷ s) = scan 0 (c ∷ s)

-- Option.map over the sign
unfoldable pub signed : Bool → Option ℕ → Option ℤ
signed minus none = none
signed true (some n) = some (sub_ℕ 0 n)
signed false (some n) = some (pos n)

-- new(big.Int).SetString(s, 10): an optional sign and at least one digit
unfoldable pub set_string : String → Option ℤ
unfolding parse_nat signed
set_string [] = none
set_string (c ∷ s) =
    if code c == b'-'
    then signed true (parse_nat s)
    else if code c == b'+'
    then signed false (parse_nat s)
    else signed false (parse_nat (c ∷ s))

abbrev pub int64_mod : ℕ
int64_mod = 2 ^ 64

abbrev pub int64_half : ℕ
int64_half = 2 ^ 63

-- int64 arithmetic: the representative of z modulo 2^64 in [-2^63, 2^63)
unfoldable pub wrap_int64 : ℤ → ℤ
wrap_int64 (pos n) =
    if ltb (n % int64_mod) int64_half
    then pos (n % int64_mod)
    else negsuc (int64_mod - n % int64_mod - 1)
wrap_int64 (negsuc n) =
    if ltb (n % int64_mod) int64_half
    then negsuc (n % int64_mod)
    else pos (int64_mod - n % int64_mod - 1)

abbrev pub in_int64 : ℤ → Bool
in_int64 (pos n) = ltb n int64_half
in_int64 (negsuc n) = ltb n int64_half

-- strconv.Atoi on a 64-bit machine; none for its error, after which the callers read 0
unfoldable pub atoi : String → Option ℤ
unfolding set_string
atoi s = elim (set_string s) [ none ↦ none | some z ↦ if in_int64 z then some z else none ]

unfoldable pub int_or_zero : Option ℤ → ℤ
int_or_zero none = pos 0
int_or_zero (some z) = z

-- parseBigIntSafe
unfoldable pub parse_big_int_safe : String → ℤ
unfolding set_string int_or_zero
parse_big_int_safe raw = int_or_zero (set_string (before_dot (trim_space raw)))
