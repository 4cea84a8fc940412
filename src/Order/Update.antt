-- ===== src/Order/Update.antt =====
-- UpdateOrderItemsFull of offline-menuvex/internal/store/domains.go.
use menuvex_printer.Entity.{field_of, field_text}
use menuvex_printer.Json.{Json, decode_map, null, str}
use menuvex_printer.Order.{OrderLine, PosOrderLineInput, build_lines, lines_json, set_fields}
use menuvex_printer.Order.Create.{Sums, sums_of}
use menuvex_printer.Prelude.{
  Bool, List, Map, Option, String, [], insert, length, lookup, none, some, str_eq, string_eq, ℕ,
  ◌==◌, ◌||◌, ◌∷◌,
}
use menuvex_printer.Prelude.Int.{ℤ}
use menuvex_printer.Result.{
  Result, bad_row, no_valid_line, ok, or_fail, order_cancelled, order_completed, order_not_found,
  refuse_if, ◌>>=◌, ◌>>◌,
}
use menuvex_printer.Store.{Io, PersistedDb, Store, find_live, rewrite, with_tx}
use menuvex_printer.Text.{to_lower, trim_space}
use menuvex_printer.Text.Decimal.{format_int, parse_big_int_safe}

pub record OrderItemsUpdate : Type 0 where
  pub lines : List PosOrderLineInput
  pub discount_irr : Option String
  pub extra_irr : Option String
  pub extra_note : Option String
  pub note : Option String

-- fmt.Sprint of a value of a decoded map; arrays and objects print in Go's own form, which is no status.
unfoldable pub sprint : Option Json → String
unfolding field_text
sprint none = "<nil>"
sprint (some null) = "<nil>"
sprint (some j) = field_text (some j)

unfoldable pub is_cancelled : String → Bool
is_cancelled status =
    str_eq status "cancelled" || str_eq status "canceled" || str_eq status "refunded"

unfoldable pub asked : Option String → String → ℤ
unfolding parse_big_int_safe
asked none current = parse_big_int_safe current
asked (some given) current = parse_big_int_safe given

unfoldable pub set_note : String → Option String → Map String Json → Map String Json
unfolding insert trim_space
set_note key none m = m
set_note key (some text) m = insert key (str (trim_space text)) m

unfoldable pub updated_fields :
    OrderItemsUpdate → List OrderLine → Sums → String → Map String Json → Map String Json
unfolding set_fields set_note insert format_int lines_json
updated_fields upd ls sums now m = insert "updated_at" (str now) (
    set_note "note" upd.note (
      set_note "extra_note" upd.extra_note (
        set_fields
          (("items", lines_json ls)
            ∷ ("subtotal_irr", str (format_int sums.subtotal))
            ∷ ("discount_irr", str (format_int sums.discount))
            ∷ ("extra_irr", str (format_int sums.extra))
            ∷ ("total_irr", str (format_int sums.total))
            ∷ ("price", str (format_int sums.total))
            ∷ [])
          m)))

unfoldable pub update_items_body :
    String
    → OrderItemsUpdate
    → (ℕ → String)
    → String
    → PersistedDb
    → Result (PersistedDb × Unit {0})
unfolding find_live decode_map lookup sprint is_cancelled to_lower trim_space build_lines sums_of
    asked field_of updated_fields rewrite
update_items_body order_id upd ids now st = do
  order ← or_fail (find_live st "order" order_id) order_not_found
  m ← or_fail (decode_map order.payload) bad_row
  let status = to_lower (trim_space (sprint (lookup "status" m)))
  refuse_if (str_eq status "completed") order_completed
  refuse_if (is_cancelled status) order_cancelled
  ls ← build_lines st ids 0 upd.lines
  refuse_if (length ls == 0) no_valid_line
  let sums =
      sums_of ls (asked upd.discount_irr (field_of order.payload "discount_irr"))
        (asked upd.extra_irr (field_of order.payload "extra_irr"))
  ok (rewrite "order" order_id order (updated_fields upd ls sums now m) st, tt)

unfoldable pub update_order_items_full :
    Io → String → OrderItemsUpdate → (ℕ → String) → String → Store → Result (Unit {0}) × Store
unfolding update_items_body with_tx
update_order_items_full io order_id upd ids now s =
    with_tx io (update_items_body order_id upd ids now) s

-- UpdateOrderItems
unfoldable pub update_order_items :
    Io → String → List PosOrderLineInput → (ℕ → String) → String → Store → Result (Unit {0}) × Store
unfolding update_order_items_full
update_order_items io order_id ls ids now s =
    update_order_items_full io order_id
      (record { lines = ls; discount_irr = none; extra_irr = none; extra_note = none; note = none })
      ids now s
