-- ===== src/Text/Float.antt =====
-- How fmt prints a float64 that is a natural number.
use Prim.Native.Char.{code}
use Prim.Native.String.{[], ◌∷◌}
use menuvex_printer.Prelude.{String, if◌then◌else◌, ltb, ℕ, ◌&&◌, ◌-◌, ◌==◌}
use menuvex_printer.Text.{is_empty, runes, ◌<>◌}
use menuvex_printer.Text.Decimal.{format_nat}

-- The digits of n without the zeros at the end.
unfoldable pub drop_zeros : String → String
drop_zeros [] = []
drop_zeros (c ∷ s) =
    let rest = drop_zeros s in if code c == b'0' && is_empty rest then [] else c ∷ rest

unfoldable pub two_digits : ℕ → String
unfolding format_nat ◌<>◌
two_digits n = if ltb n 10 then "0" <> format_nat n else format_nat n

unfoldable pub dotted : String → String
dotted [] = []
dotted (c ∷ s) = if is_empty s then c ∷ [] else c ∷ "." <> s

-- Format %v of a float64 that is a natural number below 2^53: an exponent from a million on.
unfoldable pub print_float : ℕ → String
unfolding drop_zeros dotted two_digits format_nat runes ◌<>◌
print_float n =
    let ds = format_nat n in
    if ltb n 1000000 then ds else dotted (drop_zeros ds) <> "e+" <> two_digits (runes ds - 1)
