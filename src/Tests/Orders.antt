-- ===== src/Tests/Orders.antt =====
-- Inputs for the orders, the debts, the split bill and the local records.

use menuvex_printer.Entity.{field_text}
use menuvex_printer.Json.{Json, encode_map, str}
use menuvex_printer.Order.{
  at_least_zero, build_lines, clamp_discount, free_table, price_line, total_of,
}
use menuvex_printer.Order.Create.{PosOrderInput, create_pos_order}
use menuvex_printer.Order.Create.Once.{create_pos_order_again}
use menuvex_printer.Order.Debt.{settle_debtor_payment}
use menuvex_printer.Order.Debt.Settle.{Settled, settle_debtor_payment-Settled}
use menuvex_printer.Order.Money.{Priced, build_lines-Priced, total_of_exact}
use menuvex_printer.Order.Split.{SplitBillLine}
use menuvex_printer.Order.Split.Payment.{quote_picks}
use menuvex_printer.Order.Split.Quote.{Within, quote_picks-Within}
use menuvex_printer.Order.Status.{Floats, status_body, status_fields}
use menuvex_printer.Order.Status.Machine.{Advanced, status_body-Advanced}
use menuvex_printer.Order.Status.Tables.{TableFree, status_body-TableFree}
use menuvex_printer.Prelude.{
  Map, String, [], arith, false, inr, key_eq, not, refl, some, string_eq, true, ℕ, ◌&&◌, ◌∷◌, ◌≡◌,
}
use menuvex_printer.Prelude.Int.{ltb_ℤ, negsuc, pos, ℤ, ◌*ℤ◌, ◌+ℤ◌, ◌-ℤ◌, ◌≤ℤ◌}
use menuvex_printer.Store.{
  PersistedDb, Store, StoredEntity, all_well, entity_key, new_empty_db, rewrite, whole,
}
use menuvex_printer.Text.{before_dot, trim_space}
use menuvex_printer.Text.Decimal.{format_int, parse_big_int_safe}
use menuvex_printer.Text.Decimal.RoundTrip.{parse_big_int_safe-format_int}

abbrev pub row : String → String → Map String Json → StoredEntity
row kind i m = record {
  id = i;
  kind = kind;
  version = pos 1;
  deleted = false;
  payload = encode_map m;
}

abbrev latte : StoredEntity
latte = row "product" "p1" (("title", str "Latte") ∷ ("price", str "500") ∷ [])

abbrev debtor : StoredEntity
debtor =
    row "debtor" "d1"
      (("paid", str "200") ∷ ("remaining", str "800") ∷ ("status", str "partial") ∷ [])

abbrev ready_order : StoredEntity
ready_order = row "order" "o1" (("status", str "ready") ∷ [])

abbrev counter : PersistedDb
counter = record new_empty_db {
  entities =
      (entity_key "product" "p1", latte)
      ∷ (entity_key "debtor" "d1", debtor)
      ∷ (entity_key "order" "o1", ready_order)
      ∷ [];
}

abbrev open_counter : Store
open_counter = record { closed = false; state = counter; file = whole counter }

abbrev two_lattes : PosOrderInput
two_lattes = record {
  client_token = "t1";
  fulfillment_type = "";
  table_id = "";
  customer_id = "";
  customer_name = "Sara";
  customer_phone = "";
  cashier_name = "";
  payment_method = "cash";
  discount_irr = "100";
  extra_irr = "";
  extra_note = "";
  debtor_due_at = "";
  debtor_note = "";
  debtor_kind = "";
  debtor_group_id = "";
  note = "";
  items = record { product_id = "p1"; quantity = pos 2; note = "" } ∷ [];
}

abbrev line_id : ℕ → String
line_id n = "line"

settle_debtor_payment-Settled_example :
    (pos 1 ≤ℤ pos 300)
    × Settled "d1"
        (pos 300)
        counter
        (settle_debtor_payment all_well "d1" "300" "now" open_counter).1.state
unfolding settle_debtor_payment parse_big_int_safe before_dot trim_space
settle_debtor_payment-Settled_example =
    settle_debtor_payment-Settled all_well "d1" "300" "now" open_counter refl

create_pos_order_again_example :
    let first =
      (create_pos_order all_well two_lattes (λ d. true) "o2" "d2" line_id "now" open_counter).1 in
    (create_pos_order all_well two_lattes (λ d. true) "o3" "d3" line_id "later" first).1.state
    ≡ first.state
unfolding create_pos_order
create_pos_order_again_example =
    create_pos_order_again all_well all_well two_lattes two_lattes (λ d. true) (λ d. true) "o2" "d2"
      "o3" "d3" line_id line_id "now" "later" open_counter "o2" refl refl refl

build_lines-Priced_example :
    Priced counter
      (price_line latte (record { product_id = "p1"; quantity = pos 2; note = "" }) "line" ∷ [])
unfolding build_lines
build_lines-Priced_example = build_lines-Priced counter line_id 0 two_lattes.items _ refl

total_of_exact_example :
    total_of (pos 1000) (clamp_discount (pos 1000) (pos 100)) (at_least_zero (pos 50)) ≡ pos 950
unfolding total_of ◌+ℤ◌ ◌-ℤ◌ clamp_discount
total_of_exact_example = (total_of_exact (pos 1000) (pos 100) (pos 50) (omega arith)).4

-- Ratios of natural numbers do for a test.
abbrev pub whole_floats : Floats ℤ
whole_floats = record {
  parse = parse_big_int_safe;
  times = ◌*ℤ◌;
  minus = ◌-ℤ◌;
  is_nil = λ z. not (ltb_ℤ z (pos 0)) && not (ltb_ℤ (pos 0) z);
  negate = λ z. pos 0 -ℤ z;
  fixed = format_int;
}

status_body-Advanced_example : Advanced "o1" "completed" counter (
    rewrite "order" "o1" ready_order
      (status_fields "completed" "" "now" (("status", str "ready") ∷ []))
      counter)
unfolding status_body
status_body-Advanced_example =
    status_body-Advanced whole_floats (λ n. some "m1") "o1" "completed" "" "now" counter _ refl

abbrev bill : Map String SplitBillLine
bill =
    (
      "l1",
      record {
        key = "l1";
        title = "Latte";
        quantity = pos 3;
        paid_quantity = pos 1;
        unit_payable = pos 333;
        line_payable = pos 1000;
        paid = pos 333;
        remaining = pos 667;
      },
    )
    ∷ []

-- The two that are unpaid cost all that remains, which is more than two unit prices.
quote_picks-Within_example :
    Within bill (record { line_id = "l1"; quantity = pos 2; amount = pos 667 } ∷ [])
unfolding quote_picks
quote_picks-Within_example = quote_picks-Within bill (("l1", pos 2) ∷ []) (pos 0) _ refl

parse_big_int_safe-format_int_example : parse_big_int_safe (format_int (negsuc 41)) ≡ negsuc 41
parse_big_int_safe-format_int_example = parse_big_int_safe-format_int (negsuc 41)

abbrev served_order : StoredEntity
served_order = row "order" "o1" (("status", str "ready") ∷ ("table_id", str "t1") ∷ [])

abbrev table_map : Map String Json
table_map = ("status", str "occupied") ∷ ("current_order_id", str "o1") ∷ []

abbrev dining_room : PersistedDb
dining_room = record new_empty_db {
  entities =
      (entity_key "order" "o1", served_order)
      ∷ (entity_key "table" "t1", row "table" "t1" table_map)
      ∷ [];
}

status_body-TableFree_example :
    TableFree
      (rewrite "order" "o1" served_order
        (status_fields "cancelled" "" "now" (("status", str "ready") ∷ ("table_id", str "t1") ∷ []))
        (free_table "t1" dining_room))
      served_order
unfolding status_body field_text
status_body-TableFree_example =
    status_body-TableFree whole_floats (λ n. some "m1") "o1" "cancelled" "" "now" dining_room _
      served_order refl (inr refl) (refl, refl, (row "table" "t1" table_map, table_map, refl, refl))
      refl
