-- ===== src/Order/Transfer.antt =====
-- TransferOrder of offline-menuvex/internal/store/domains.go.
use menuvex_printer.Entity.{entity_of, field_of, field_text, label}
use menuvex_printer.Json.{Json, decode_map, real, str}
use menuvex_printer.Order.{order_table, rewrite_fields, set_fields, table_fields}
use menuvex_printer.Prelude.{
  Bool, Key, Map, Option, String, [], false, if◌then◌else◌, lookup, none, not, some, str_eq,
  string_eq, ◌&&◌, ◌||◌, ◌∷◌,
}
use menuvex_printer.Result.{
  Result, bad_row, no_target_table, ok, or_fail, order_not_found, order_not_open, refuse_if,
  same_table, table_busy, table_not_found, ◌>>=◌, ◌>>◌,
}
use menuvex_printer.Store.{Io, PersistedDb, Store, StoredEntity, after_check, find_live, rewrite}
use menuvex_printer.Text.{is_blank, to_lower, trim_space}
use menuvex_printer.Text.Decimal.{format_int, parse_big_int_safe}

unfoldable pub is_open_status : String → Bool
is_open_status status =
    str_eq status "pending"
    || str_eq status "accepted"
    || str_eq status "preparing"
    || str_eq status "ready"

unfoldable pub is_final_status : String → Bool
is_final_status status =
    str_eq status "completed"
    || str_eq status "cancelled"
    || str_eq status "canceled"
    || str_eq status "refunded"

-- Another order is open at the table.
unfoldable pub table_taken : String → String → Map Key StoredEntity → Bool
unfolding field_of to_lower is_open_status
table_taken order_id table_id [] = false
table_taken order_id table_id ((k, e) ∷ m) =
    (not e.deleted
      && str_eq e.kind "order"
      && not (str_eq e.id order_id)
      && str_eq (field_of e.payload "table_id") table_id
      && is_open_status (to_lower (field_of e.payload "status")))
    || table_taken order_id table_id m

-- toStr of a field; a number with a fraction is cut to its integer.
unfoldable pub to_str : Option Json → String
unfolding field_text format_int parse_big_int_safe
to_str (some (real t)) = format_int (parse_big_int_safe t)
to_str o = field_text o

-- The source table is freed if it stands for this order or for none.
unfoldable pub release_source : String → String → PersistedDb → PersistedDb
unfolding order_table decode_map lookup to_str is_blank rewrite_fields
release_source table_id order_id st = elim (order_table st table_id) [
  | none ↦ st
  | some e ↦ elim (decode_map e.payload) [
    | none ↦ st
    | some m ↦
        let holder = to_str (lookup "current_order_id" m) in
        if str_eq holder order_id || is_blank holder
        then rewrite_fields "table" table_id e
            (("current_order_id", str "") ∷ ("status", str "available") ∷ []) st
        else st
  ]
]

unfoldable pub transfer_body :
    String → String → String → PersistedDb → Result (PersistedDb × Unit {0})
unfolding find_live field_of to_lower is_final_status is_blank table_taken decode_map label
    set_fields rewrite release_source rewrite_fields
transfer_body order_id target now st = do
  order ← or_fail (find_live st "order" order_id) order_not_found
  refuse_if (is_final_status (to_lower (field_of order.payload "status"))) order_not_open
  let source = field_of order.payload "table_id"
  refuse_if (str_eq source target) same_table
  table ← or_fail (find_live st "table" target) table_not_found
  refuse_if (not (is_blank (field_of table.payload "current_order_id"))) table_busy
  refuse_if (table_taken order_id target st.entities) table_busy
  m ← or_fail (decode_map order.payload) bad_row
  let moved =
      rewrite "order" order_id order
        (set_fields
          (("table_id", str target)
            ∷ ("table_label", str (label (entity_of table)))
            ∷ ("updated_at", str now)
            ∷ [])
          m)
        st
  let freed = release_source source order_id moved
  ok (rewrite_fields "table" target table (table_fields "occupied" order_id) freed, tt)

unfoldable pub transfer_order : Io → String → String → String → Store → Result (Unit {0}) × Store
unfolding transfer_body after_check trim_space
transfer_order io order_id target_table_id now s =
    let target = trim_space target_table_id in
    after_check (refuse_if (str_eq target "") no_target_table) io
      (transfer_body order_id target now) s
