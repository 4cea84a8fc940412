-- ===== src/Json.antt =====
-- encoding/json as the program uses it: a value is what its text stands for.
-- A number is an integer, or the literal of another number in the form in which Go prints a float64.
-- A string is plain text, or the text of a JSON array (the column split_payments): `blob`.
pub mod Print
pub mod Laws
use menuvex_printer.Prelude.{
  Bool, List, Map, Option, String, [], insert, none, some, string_eq, ◌∷◌,
}
use menuvex_printer.Prelude.Int.{ℤ}

mutual
  pub data Json : Type 0 where
    null : Json
    bool : Bool → Json
    num : ℤ → Json
    real : String → Json
    str : String → Json
    blob : Items → Json
    arr : Items → Json
    obj : Fields → Json

  pub data Items : Type 0 where
    nil : Items
    cons : Json → Items → Items

  pub data Fields : Type 0 where
    end : Fields
    field : String → Json → Fields → Fields

unfoldable pub items_of : List Json → Items
items_of [] = nil
items_of (j ∷ js) = cons j (items_of js)

unfoldable pub list_of : Items → List Json
list_of nil = []
list_of (cons j js) = j ∷ list_of js

unfoldable pub fields_of : Map String Json → Fields
fields_of [] = end
fields_of ((k, j) ∷ m) = field k j (fields_of m)

-- The entries in their order; a later entry of the same key replaces the value.
unfoldable pub map_from : Fields → Map String Json → Map String Json
unfolding insert
map_from end m = m
map_from (field k j fs) m = map_from fs (insert k j m)

-- json.Unmarshal into a map: the literal null leaves it empty, any other value is an error.
unfoldable pub decode_map : Json → Option (Map String Json)
unfolding map_from
decode_map (obj fs) = some (map_from fs [])
decode_map null = some []
decode_map _ = none

-- json.Marshal of a map. Go sorts the keys, which no operation of the program reads back.
unfoldable pub encode_map : Map String Json → Json
unfolding fields_of
encode_map m = obj (fields_of m)
