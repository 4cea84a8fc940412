-- ===== src/Outbox/Validate.antt =====
-- offline-menuvex/internal/store/outbox.go: catalogFields and validateIntent, which edits may be queued.
pub mod Accepts
pub mod Sound
use menuvex_printer.Json.{Json, arr, blob, bool, decode_map, null, str}
use menuvex_printer.Json.Print.{print}
use menuvex_printer.Prelude.{
  Bool, List, Map, Option, String, [], if◌then◌else◌, lookup, ltb, none, not, some, str_eq,
  string_eq, ℕ, ◌&&◌, ◌||◌, ◌∷◌,
}
use menuvex_printer.Result.{
  Result, bad_boolean, bad_decimal, bad_text, bad_uuid, delete_payload_not_empty, empty_edit,
  empty_name, err, field_not_editable, missing_required, no_offline_workflow, not_an_object, ok,
  or_fail, payload_too_large, refuse_if, unit_not_editable, unknown_unit, unsupported_action, ◌>>=◌,
  ◌>>◌,
}
use menuvex_printer.Store.Changes.{RawMessage, valid}
use menuvex_printer.Text.{contains, is_blank, runes, ◌<>◌}
use menuvex_printer.Text.Patterns.{is_decimal, is_uuid}

abbrev pub catalog_fields : List (String × List (String × String))
catalog_fields =
    ("category", ("title", "text") ∷ ("slug", "text") ∷ ("description", "text") ∷ [])
    ∷ (
      "product",
      ("title", "text")
          ∷ ("slug", "text")
          ∷ ("description", "text")
          ∷ ("category_id", "uuid")
          ∷ ("price", "decimal")
          ∷ ("cost", "decimal")
          ∷ ("is_available", "bool")
          ∷ [],
    )
    ∷ (
      "ingredient",
      ("name", "text") ∷ ("sku", "text") ∷ ("barcode", "text") ∷ ("base_unit", "unit") ∷ [],
    )
    ∷ (
      "banner",
      ("title", "text") ∷ ("image", "text") ∷ ("link", "text") ∷ ("is_active", "bool") ∷ [],
    )
    ∷ []

abbrev pub required_fields : String → List String
required_fields kind =
    if str_eq kind "category"
    then "title" ∷ []
    else if str_eq kind "product"
    then "title" ∷ "category_id" ∷ "price" ∷ []
    else if str_eq kind "ingredient"
    then "name" ∷ "base_unit" ∷ []
    else if str_eq kind "banner"
    then "title" ∷ []
    else []

abbrev pub unit_list : String
unit_list = "|mg|g|kg|ml|cl|l|pcs|pack|portion|bottle|box|shot|sachet|"

-- string(value) for each field of the payload: the bytes that stand there, as a number keeps them
abbrev pub Literals : Type 0
Literals = String → String

-- The text of a JSON string; none for any other value, null too.
unfoldable pub string_value : Json → Option String
string_value (str s) = some s
string_value (blob js) = some (print (arr js))
string_value _ = none

unfoldable pub check_bool : Json → Result (Unit {0})
check_bool (bool b) = ok tt
check_bool _ = err bad_boolean

unfoldable pub decimal_text : String → Json → String
unfolding string_value
decimal_text literal value = elim (string_value value) [ some s ↦ s | none ↦ literal ]

unfoldable pub check_decimal : String → Json → Result (Unit {0})
unfolding decimal_text is_decimal
check_decimal literal value = refuse_if (not (is_decimal (decimal_text literal value))) bad_decimal

unfoldable pub check_text : String → String → Json → Result (Unit {0})
unfolding string_value runes is_blank is_uuid contains ◌<>◌
check_text key typ value = do
  s ← or_fail (string_value value) bad_text
  refuse_if (ltb 2000 (runes s)) bad_text
  refuse_if ((str_eq key "title" || str_eq key "name") && is_blank s) empty_name
  refuse_if (str_eq typ "uuid" && not (is_uuid s)) bad_uuid
  refuse_if (str_eq typ "unit" && not (contains ("|" <> (s <> "|")) unit_list)) unknown_unit

unfoldable pub check_value : String → String → String → Json → Result (Unit {0})
unfolding check_bool check_decimal check_text
check_value key typ literal value =
    if str_eq typ "bool"
    then check_bool value
    else if str_eq typ "decimal"
    then check_decimal literal value
    else check_text key typ value

unfoldable pub check_field :
    String → String → List (String × String) → Literals → String → Json → Result (Unit {0})
unfolding lookup check_value
check_field kind action fields literals key value = do
  typ ← or_fail (lookup key fields) field_not_editable
  refuse_if (str_eq kind "ingredient" && str_eq key "base_unit" && not (str_eq action "create"))
      unit_not_editable
  check_value key typ (literals key) value

unfoldable pub check_fields :
    String → String → List (String × String) → Literals → Map String Json → Result (Unit {0})
unfolding check_field
check_fields kind action fields literals [] = ok tt
check_fields kind action fields literals ((key, value) ∷ m) = do
  done ← check_field kind action fields literals key value
  check_fields kind action fields literals m

unfoldable pub check_required : List String → Map String Json → Result (Unit {0})
unfolding lookup
check_required [] m = ok tt
check_required (k ∷ ks) m = elim (lookup k m) [
  | none ↦ err missing_required
  | some j ↦ check_required ks m
]

-- json.Unmarshal into map[string]json.RawMessage, where a nil map is refused as well
unfoldable pub payload_object : RawMessage → Option (Map String Json)
unfolding decode_map
payload_object (valid null) = none
payload_object (valid j) = decode_map j
payload_object _ = none

unfoldable pub validate_payload :
    String → String → List (String × String) → Literals → Map String Json → Result (Unit {0})
unfolding check_fields check_required
validate_payload kind action fields literals [] =
    if str_eq action "delete" then ok tt else err empty_edit
validate_payload kind action fields literals (entry ∷ m) =
    if str_eq action "delete" then err delete_payload_not_empty else do
      done ← check_fields kind action fields literals (entry ∷ m)
      check_required (if str_eq action "create" then required_fields kind else []) (entry ∷ m)

abbrev pub is_action : String → Bool
is_action action = str_eq action "create" || str_eq action "update" || str_eq action "delete"

-- validateIntent; size is len(raw).
unfoldable pub validate_intent : String → String → ℕ → Literals → RawMessage → Result (Unit {0})
unfolding payload_object validate_payload lookup
validate_intent kind action size literals raw = do
  fields ← or_fail (lookup kind catalog_fields) no_offline_workflow
  refuse_if (not (is_action action)) unsupported_action
  refuse_if (ltb 65536 size) payload_too_large
  payload ← or_fail (payload_object raw) not_an_object
  validate_payload kind action fields literals payload
