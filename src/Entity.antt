-- ===== src/Entity.antt =====
-- offline-menuvex/internal/store/store.go: an entity as the views read it. Field, Label, PriceIRR, OrderItems,
-- Entity and Entities.
pub mod Laws
use mathlib.Core.Option
use Prim.Native.String.{compare}
use Prim.Native.Nat.{Ordering}
use menuvex_printer.Json.{Json, arr, blob, decode_map, list_of, null, str}
use menuvex_printer.Json.Print.{print}
use menuvex_printer.Prelude.{
  Bool, Key, List, Map, Option, String, [], false, if◌then◌else◌, lookup, none, not, some, str_eq,
  string_eq, take, true, ◌&&◌, ◌||◌, ◌∷◌,
}
use menuvex_printer.Prelude.Int.{ℤ}
use menuvex_printer.Prelude.Sort.{sort_slice}
use menuvex_printer.Result.{Result, bad_row, ctx_error, err, ok, or_fail, record_not_found, ◌>>=◌}
use menuvex_printer.Store.{Io, Store, StoredEntity, find_live}
use menuvex_printer.Store.Changes.{int_field, string_field}
use menuvex_printer.Text.{◌<>◌}

pub record Entity : Type 0 where
  pub id : String
  pub kind : String
  pub version : ℤ
  pub payload : Json

abbrev pub entity_of : StoredEntity → Entity
entity_of e = record { id = e.id; kind = e.kind; version = e.version; payload = e.payload }

-- The text of a field: a string as it is, null as "", and the raw text of any other value.
unfoldable pub field_text : Option Json → String
unfolding print
field_text none = ""
field_text (some null) = ""
field_text (some (str s)) = s
field_text (some (blob js)) = print (arr js)
field_text (some j) = print j

unfoldable pub field_in : String → Option (Map String Json) → String
unfolding field_text lookup
field_in key none = ""
field_in key (some m) = field_text (lookup key m)

-- Entity.Field
unfoldable pub field_of : Json → String → String
unfolding decode_map field_in
field_of payload key = field_in key (decode_map payload)

-- json.Unmarshal of m[key] into a string: "" where it is missing, null or no string
unfoldable pub label_text : Option Json → String
label_text (some (str s)) = s
label_text (some (blob js)) = print (arr js)
label_text _ = ""

abbrev pub label_keys : List String
label_keys = "title" ∷ "name" ∷ "full_name" ∷ "order_number" ∷ "number" ∷ []

unfoldable pub first_label : String → String → List String → Map String Json → String
unfolding label_text lookup ◌<>◌
first_label kind i [] m = i
first_label kind i (k ∷ ks) m =
    let value = label_text (lookup k m) in
    if str_eq value ""
    then first_label kind i ks m
    else if str_eq k "number" && str_eq kind "table"
    then "\u{645}\u{6cc}\u{632} \u{634}\u{645}\u{627}\u{631}\u{647} " <> value
    else value

-- Entity.Label
unfoldable pub label : Entity → String
unfolding first_label decode_map
label e = elim (decode_map e.payload) [
  | none ↦ e.id
  | some m ↦ first_label e.kind e.id label_keys m
]

unfoldable pub first_field : List String → Json → String
unfolding field_of
first_field [] payload = ""
first_field (k ∷ ks) payload =
    let v = field_of payload k in if str_eq v "" then first_field ks payload else v

-- Entity.PriceIRR
unfoldable pub price_irr : Json → String
unfolding first_field
price_irr payload =
    first_field ("price" ∷ "total_irr" ∷ "total" ∷ "remaining" ∷ "average_cost" ∷ []) payload

pub record OrderLineView : Type 0 where
  pub id : String
  pub product_id : String
  pub product_name : String
  pub quantity : ℤ
  pub unit_price : String
  pub line_total : String
  pub note : String

-- strings.Trim(string(raw), `"`) of a raw field, and the other field where that is empty or null
unfoldable pub raw_text : Option Json → String
unfolding print
raw_text none = ""
raw_text (some (str s)) = s
raw_text (some (blob js)) = print (arr js)
raw_text (some j) = print j

unfoldable pub raw_or : Option Json → Option Json → String
unfolding raw_text
raw_or a b = let t = raw_text a in if str_eq t "" || str_eq t "null" then raw_text b else t

unfoldable pub first_nonempty : String → String → String
first_nonempty a b = if str_eq a "" then b else a

-- One item of the struct that OrderItems decodes; an error in any of them voids the list.
unfoldable pub order_line : Json → Result OrderLineView
unfolding decode_map string_field int_field raw_or first_nonempty lookup
order_line item = do
  m ← or_fail (decode_map item) bad_row
  line_id ← string_field m "id"
  product_id ← string_field m "product_id"
  product_name ← string_field m "product_name_snapshot"
  title ← string_field m "title"
  quantity ← int_field m "quantity"
  note ← string_field m "note"
  ok (record {
    id = line_id;
    product_id = product_id;
    product_name = first_nonempty (first_nonempty product_name title) product_id;
    quantity = quantity;
    unit_price = raw_or (lookup "unit_price_irr" m) (lookup "unit_price" m);
    line_total = raw_or (lookup "line_total_irr" m) (lookup "total_price" m);
    note = note;
  })

unfoldable pub order_lines : List Json → Result (List OrderLineView)
unfolding order_line
order_lines [] = ok []
order_lines (j ∷ js) = do l ← order_line j; ls ← order_lines js; ok (l ∷ ls)

unfoldable pub items_field : Option Json → Result (List OrderLineView)
unfolding order_lines list_of
items_field (some (arr js)) = order_lines (list_of js)
items_field (some null) = ok []
items_field none = ok []
items_field _ = err bad_row

unfoldable pub or_no_lines : Result (List OrderLineView) → List OrderLineView
or_no_lines (ok ls) = ls
or_no_lines (err e) = []

-- Entity.OrderItems; nil and the empty list are one here, as for its callers.
unfoldable pub order_items : Json → List OrderLineView
unfolding items_field decode_map lookup or_no_lines
order_items payload = elim (decode_map payload) [
  | none ↦ []
  | some m ↦ or_no_lines (items_field (lookup "items" m))
]

-- Store.Entity
unfoldable pub get_entity : Io → String → String → Store → Result Entity
unfolding find_live
get_entity io kind i s =
    if io.cancelled
    then err ctx_error
    else elim (find_live s.state kind i) [ none ↦ err record_not_found | some e ↦ ok (entity_of e) ]

unfoldable pub listed : String → StoredEntity → Bool
listed kind e =
    not e.deleted && (str_eq e.kind kind || (str_eq kind "order" && str_eq e.kind "order_status"))

unfoldable pub collect : String → Map Key StoredEntity → List Entity
unfolding listed
collect kind [] = []
collect kind ((k, e) ∷ m) =
    let rest = collect kind m in if listed kind e then entity_of e ∷ rest else rest

abbrev pub text_lt : String → String → Bool
text_lt a b = elim (compare a b) [ Ordering.lt ↦ true | _ ↦ false ]

abbrev pub by_id_and_kind : Entity → Entity → Bool
by_id_and_kind a b = if not (str_eq a.id b.id) then text_lt a.id b.id else text_lt a.kind b.kind

-- Store.Entities
unfoldable pub entities : Io → String → Store → Result (List Entity)
unfolding collect sort_slice
entities io kind s =
    if io.cancelled
    then err ctx_error
    else ok (take 500 (sort_slice by_id_and_kind (collect kind s.state.entities)))
