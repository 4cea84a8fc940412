-- ===== src/Text.antt =====
-- Go text: what the program uses of packages strings and strconv, on the code points of a string.
pub mod Persian
pub mod Decimal
pub mod Patterns
pub mod Float
pub mod Split
use Prim.Native.Char.{Char, code}
use Prim.Native.String.{[], ◌∷◌, char_at}
use menuvex_printer.Prelude.{
  ℕ, zero, suc, ◌-◌, String, Bool, true, false, ◌&&◌, ◌||◌, leb, ◌==◌, str_eq, if◌then◌else◌,
}

infixr 65 ◌<>◌
unfoldable pub ◌<>◌ : String → String → String
[] <> t = t
(c ∷ s) <> t = c ∷ (s <> t)

-- unicode.IsSpace
unfoldable pub is_space : Char → Bool
is_space c =
    let n = code c in
    (leb 9 n && leb n 13)
    || n == 32
    || n == 0x85
    || n == 0xa0
    || n == 0x1680
    || (leb 0x2000 n && leb n 0x200a)
    || n == 0x2028
    || n == 0x2029
    || n == 0x202f
    || n == 0x205f
    || n == 0x3000

unfoldable pub trim_left : String → String
trim_left [] = []
trim_left (c ∷ s) = if is_space c then trim_left s else c ∷ s

unfoldable pub snoc_trim : Char → String → String
snoc_trim c [] = if is_space c then [] else c ∷ []
snoc_trim c (d ∷ s) = c ∷ d ∷ s

unfoldable pub trim_right : String → String
trim_right [] = []
trim_right (c ∷ s) = snoc_trim c (trim_right s)

-- strings.TrimSpace
unfoldable pub trim_space : String → String
unfolding is_space trim_left snoc_trim trim_right
trim_space s = trim_right (trim_left s)

-- unicode.ToLower where the result is ASCII: the letters, the Kelvin sign and the dotted capital I.
-- Every other code point is kept: the program compares lower-cased text with ASCII words only.
unfoldable pub to_lower_char : Char → Char
to_lower_char c =
    let n = code c in
    if leb 65 n && leb n 90
    then char_at "abcdefghijklmnopqrstuvwxyz" (n - 65)
    else if n == 0x212a
    then char_at "k" 0
    else if n == 0x130
    then char_at "i" 0
    else c

-- strings.ToLower
unfoldable pub to_lower : String → String
unfolding to_lower_char
to_lower [] = []
to_lower (c ∷ s) = to_lower_char c ∷ to_lower s

-- strings.EqualFold, but for the long s (U+017F), which folds to s there and is kept here
unfoldable pub equal_fold : String → String → Bool
unfolding to_lower
equal_fold s t = str_eq (to_lower s) (to_lower t)

-- strings.SplitN(s, ".", 2)[0]
unfoldable pub before_dot : String → String
before_dot [] = []
before_dot (c ∷ s) = if code c == b'.' then [] else c ∷ before_dot s

-- len([]rune(s))
unfoldable pub runes : String → ℕ
runes [] = zero
runes (c ∷ s) = suc (runes s)

unfoldable pub has_prefix : String → String → Bool
has_prefix [] s = true
has_prefix (p ∷ ps) [] = false
has_prefix (p ∷ ps) (c ∷ s) = (code p == code c) && has_prefix ps s

-- strings.Contains(s, t)
unfoldable pub contains : String → String → Bool
unfolding has_prefix
contains t [] = has_prefix t []
contains t (c ∷ s) = has_prefix t (c ∷ s) || contains t s

unfoldable pub is_empty : String → Bool
is_empty [] = true
is_empty (c ∷ s) = false

unfoldable pub is_blank : String → Bool
unfolding trim_space is_empty
is_blank s = is_empty (trim_space s)
