-- ===== src/Json/Laws.antt =====
-- What is marshalled from a Go map is read back key by key.
use menuvex_printer.Json.{
  Fields, Json, decode_map, encode_map, end, field, fields_of, map_from, null, obj,
}
use menuvex_printer.Prelude.{
  Map, Option, String, [], arith, eq_iff, insert, lookup, lookup-insert, none, refl, some,
  string_eq, ◌∙◌, ◌∷◌, ◌≡◌,
}

-- A Go map has one entry for a key.
abbrev pub IsUnique : Map String Json → Type 0
IsUnique [] = Unit {0}
IsUnique ((k, j) ∷ m) = (lookup k m ≡ none) × IsUnique m

pub insert-IsUnique :
    (k : String) (j : Json) (m : Map String Json) → IsUnique m → IsUnique (insert k j m)
unfolding insert lookup
insert-IsUnique k j [] u = (refl, tt)
insert-IsUnique k j ((i, w) ∷ m) u =
    ground (arith, insert-IsUnique k j m u.1, lookup-insert k i j m, eq_iff i k, eq_iff k i)

pub map_from-IsUnique : (fs : Fields) (m : Map String Json) → IsUnique m → IsUnique (map_from fs m)
unfolding map_from
map_from-IsUnique end m u = u
map_from-IsUnique (field k j fs) m u = map_from-IsUnique fs (insert k j m) (insert-IsUnique k j m u)

pub decode_map-IsUnique : (j : Json) {m : Map String Json} → decode_map j ≡ some m → IsUnique m
unfolding decode_map
decode_map-IsUnique (obj fs) h =
    let u : IsUnique (map_from fs []) = map_from-IsUnique fs [] tt in ground (arith, u)
decode_map-IsUnique null h = ground arith
decode_map-IsUnique _ h = cc

abbrev or_else : Option Json → Option Json → Option Json
or_else (some j) d = some j
or_else none d = d

lookup-map_from :
    (k : String) (m acc : Map String Json)
    → IsUnique m
    → lookup k (map_from (fields_of m) acc) ≡ or_else (lookup k m) (lookup k acc)
unfolding map_from fields_of lookup
lookup-map_from k [] acc u = refl
lookup-map_from k ((i, w) ∷ m) acc u =
    lookup-map_from k m (insert i w acc) u.1 ∙ ground (arith, lookup-insert i k w acc, eq_iff i k)

abbrev lookup_in : String → Option (Map String Json) → Option Json
lookup_in k none = none
lookup_in k (some m) = lookup k m

pub lookup-decode-encode :
    (k : String) (m : Map String Json)
    → IsUnique m
    → (n : Map String Json) × (decode_map (encode_map m) ≡ some n) × (lookup k n ≡ lookup k m)
unfolding decode_map encode_map lookup
lookup-decode-encode k m u =
    (map_from (fields_of m) [], refl, lookup-map_from k m [] u ∙ ground arith)
