-- ===== src/Text/Split.antt =====
-- Cutting and joining texts: strings.Split, strings.Join, strings.TrimPrefix and strings.ReplaceAll with
-- one code point as separator.
use Prim.Native.Char.{Char, code}
use menuvex_printer.Prelude.{List, String, [], if◌then◌else◌, ℕ, ◌==◌, ◌∷◌}
use menuvex_printer.Text.{has_prefix, ◌<>◌}

-- One more code point before the first part
abbrev pub onto_first : Char → List String → List String
onto_first c [] = String.◌∷◌ c String.[] ∷ []
onto_first c (p ∷ ps) = String.◌∷◌ c p ∷ ps

-- strings.Split at one code point: at least one part
unfoldable pub split_on : ℕ → String → List String
split_on d String.[] = "" ∷ []
split_on d (String.◌∷◌ c s) =
    let rest = split_on d s in if code c == d then "" ∷ rest else onto_first c rest

-- strings.Join
unfoldable pub join_with : String → List String → String
unfolding ◌<>◌
join_with d [] = ""
join_with d (p ∷ []) = p
join_with d (p ∷ q ∷ ps) = p <> d <> join_with d (q ∷ ps)

unfoldable pub drop_prefix : String → String → String
drop_prefix String.[] s = s
drop_prefix (String.◌∷◌ p ps) String.[] = ""
drop_prefix (String.◌∷◌ p ps) (String.◌∷◌ c s) = drop_prefix ps s

-- strings.TrimPrefix
unfoldable pub trim_prefix : String → String → String
unfolding has_prefix drop_prefix
trim_prefix p s = if has_prefix p s then drop_prefix p s else s
