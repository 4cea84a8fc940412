-- ===== src/Order.antt =====
-- offline-menuvex/internal/store/domains.go: the lines and the sums of an order, and the writes that an order
-- makes on tables and customers. `ids` are the identifiers that UUID() gives, one for a line.
pub mod Money
pub mod Create
pub mod Update
pub mod Transfer
pub mod Debt
pub mod Status
pub mod Split
use menuvex_printer.Entity.{entity_of, label, price_irr}
use menuvex_printer.Json.{Json, arr, decode_map, end, field, items_of, num, obj, str}
use menuvex_printer.Prelude.{
  Bool, List, Map, Option, String, [], if◌then◌else◌, insert, map, none, not, some, str_eq,
  string_eq, suc, without, ℕ, ◌||◌, ◌∷◌,
}
use menuvex_printer.Prelude.Int.{ltb_ℤ, pos, ℤ, ◌*ℤ◌, ◌+ℤ◌, ◌-ℤ◌}
use menuvex_printer.Result.{Result, ok, or_fail, product_not_found, ◌>>=◌}
use menuvex_printer.Store.{PersistedDb, StoredEntity, find_live, rewrite}
use menuvex_printer.Text.{is_blank, trim_space}
use menuvex_printer.Text.Decimal.{format_int, parse_big_int_safe}

pub record PosOrderLineInput : Type 0 where
  pub product_id : String
  pub quantity : ℤ
  pub note : String

pub record OrderLine : Type 0 where
  pub id : String
  pub product_id : String
  pub name : String
  pub quantity : ℤ
  pub unit_price : ℤ
  pub line_total : ℤ
  pub note : String

unfoldable pub line_json : OrderLine → Json
line_json l = obj (
    field "id" (str l.id) (
      field "product_id" (str l.product_id) (
        field "product_name_snapshot" (str l.name) (
          field "quantity" (num l.quantity) (
            field "unit_price_irr" (str (format_int l.unit_price)) (
              field "line_total_irr" (str (format_int l.line_total))
                (field "note" (str l.note) end)))))))

unfoldable pub lines_json : List OrderLine → Json
unfolding line_json items_of
lines_json ls = arr (items_of (map line_json ls))

unfoldable pub price_line : StoredEntity → PosOrderLineInput → String → OrderLine
unfolding parse_big_int_safe price_irr label trim_space ◌*ℤ◌
price_line product it line_id =
    let unit = parse_big_int_safe (price_irr product.payload) in
    record {
      id = line_id;
      product_id = it.product_id;
      name = label (entity_of product);
      quantity = it.quantity;
      unit_price = unit;
      line_total = unit *ℤ it.quantity;
      note = trim_space it.note;
    }

-- strings.TrimSpace(it.ProductID) == "" || it.Quantity <= 0
unfoldable pub is_skipped : PosOrderLineInput → Bool
unfolding is_blank
is_skipped it = is_blank it.product_id || not (ltb_ℤ (pos 0) it.quantity)

-- The loop over the items of an order.
unfoldable pub build_lines :
    PersistedDb → (ℕ → String) → ℕ → List PosOrderLineInput → Result (List OrderLine)
unfolding is_skipped price_line find_live
build_lines st ids n [] = ok []
build_lines st ids n (it ∷ its) =
    let rest = build_lines st ids (suc n) its in
    if is_skipped it then rest else do
      product ← or_fail (find_live st "product" it.product_id) product_not_found
      ls ← rest
      ok (price_line product it (ids n) ∷ ls)

unfoldable pub subtotal_of : List OrderLine → ℤ
unfolding ◌+ℤ◌
subtotal_of [] = pos 0
subtotal_of (l ∷ ls) = l.line_total +ℤ subtotal_of ls

unfoldable pub at_least_zero : ℤ → ℤ
at_least_zero z = if ltb_ℤ z (pos 0) then pos 0 else z

unfoldable pub clamp_discount : ℤ → ℤ → ℤ
unfolding at_least_zero
clamp_discount subtotal d =
    let lower = at_least_zero d in if ltb_ℤ subtotal lower then subtotal else lower

unfoldable pub total_of : ℤ → ℤ → ℤ → ℤ
unfolding at_least_zero
total_of subtotal discount extra = at_least_zero (subtotal -ℤ discount +ℤ extra)

-- tm["status"] = status; tm["current_order_id"] = ..., written back where the payload is an object
unfoldable pub set_fields : List (String × Json) → Map String Json → Map String Json
unfolding insert
set_fields [] m = m
set_fields ((k, j) ∷ kvs) m = set_fields kvs (insert k j m)

unfoldable pub rewrite_fields :
    String → String → StoredEntity → List (String × Json) → PersistedDb → PersistedDb
unfolding set_fields rewrite decode_map
rewrite_fields kind i e kvs st = elim (decode_map e.payload) [
  | none ↦ st
  | some m ↦ rewrite kind i e (set_fields kvs m) st
]

abbrev pub table_fields : String → String → List (String × Json)
table_fields status order_id = ("status", str status) ∷ ("current_order_id", str order_id) ∷ []

-- The table of an order, when there is one.
unfoldable pub order_table : PersistedDb → String → Option StoredEntity
unfolding find_live
order_table st table_id = if str_eq table_id "" then none else find_live st "table" table_id

-- status = "available" and current_order_id deleted, for the table of an order that ends
unfoldable pub free_table : String → PersistedDb → PersistedDb
unfolding order_table decode_map rewrite without insert
free_table table_id st = elim (order_table st table_id) [
  | none ↦ st
  | some e ↦ elim (decode_map e.payload) [
    | none ↦ st
    | some m ↦
        rewrite "table" table_id e
          (without "current_order_id" (insert "status" (str "available") m)) st
  ]
]
