-- ===== src/Json/Print.antt =====
-- The text of a value, as Entity.Field shows an array or an object: json.Marshal without its escapes of
-- control characters.
use Prim.Native.Char.{code}
use Prim.Native.String.{[], ◌∷◌}
use menuvex_printer.Json.{
  Fields, Items, Json, arr, blob, bool, cons, end, field, nil, null, num, obj, real, str,
}
use menuvex_printer.Prelude.{String, false, if◌then◌else◌, true, ◌==◌, ◌||◌}
use menuvex_printer.Text.{◌<>◌}
use menuvex_printer.Text.Decimal.{format_int}

unfoldable pub escape : String → String
unfolding ◌<>◌
escape [] = []
escape (c ∷ s) =
    let rest = escape s in if code c == 0x22 || code c == 0x5c then "\\" <> (c ∷ rest) else c ∷ rest

unfoldable mutual
  unfolding ◌<>◌ escape format_int

  pub print : Json → String
  print null = "null"
  print (bool true) = "true"
  print (bool false) = "false"
  print (num z) = format_int z
  print (real s) = s
  print (str s) = "\"" <> (escape s <> "\"")
  print (blob js) = "\"" <> (escape ("[" <> (print_items js <> "]")) <> "\"")
  print (arr js) = "[" <> (print_items js <> "]")
  print (obj fs) = "{" <> (print_fields fs <> "}")

  pub print_items : Items → String
  print_items nil = []
  print_items (cons j nil) = print j
  print_items (cons j js) = print j <> ("," <> print_items js)

  pub print_fields : Fields → String
  print_fields end = []
  print_fields (field k j end) = "\"" <> (escape k <> ("\":" <> print j))
  print_fields (field k j fs) =
      "\"" <> (escape k <> ("\":" <> (print j <> ("," <> print_fields fs))))
