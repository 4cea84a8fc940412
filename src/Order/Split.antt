-- ===== src/Order/Split.antt =====
-- The split bill of offline-menuvex/internal/store/domains.go: parseSplitPayments, SplitBillOf, splitQuote,
-- RecordSplitPayment and UndoLastSplitPayment. Amounts are int64 values: each operation wraps.
pub mod Payment
pub mod Quote
use menuvex_printer.Entity.{OrderLineView, order_items, price_irr}
use menuvex_printer.Json.{Json, arr, blob, decode_map, list_of, map_from, obj}
use menuvex_printer.Order.{at_least_zero}
use menuvex_printer.Order.Transfer.{to_str}
use menuvex_printer.Prelude.{
  Bool, List, Map, Option, String, [], false, if◌then◌else◌, lookup, none, some, str_eq, string_eq,
  true, ◌&&◌, ◌+◌, ◌/◌, ◌∷◌,
}
use menuvex_printer.Prelude.Int.{ltb_ℤ, neg_part, pos, pos_part, sub_ℕ, ℤ, ◌*ℤ◌, ◌+ℤ◌, ◌-ℤ◌}
use menuvex_printer.Text.Decimal.{atoi, int_or_zero, parse_big_int_safe, wrap_int64}

pub record SplitBillLine : Type 0 where
  pub key : String
  pub title : String
  pub quantity : ℤ
  pub paid_quantity : ℤ
  pub unit_payable : ℤ
  pub line_payable : ℤ
  pub paid : ℤ
  pub remaining : ℤ

pub record SplitPaymentLine : Type 0 where
  pub line_id : String
  pub quantity : ℤ
  pub amount : ℤ

pub record SplitPayment : Type 0 where
  pub id : String
  pub at : String
  pub method : String
  pub amount : ℤ
  pub client_token : String
  pub lines : List SplitPaymentLine

-- x + y, x - y and x * y on int64, and x / y, which is cut towards zero; a caller tests that y is not 0.
unfoldable pub add64 : ℤ → ℤ → ℤ
unfolding wrap_int64 ◌+ℤ◌
add64 x y = wrap_int64 (x +ℤ y)

unfoldable pub sub64 : ℤ → ℤ → ℤ
unfolding wrap_int64 ◌-ℤ◌
sub64 x y = wrap_int64 (x -ℤ y)

unfoldable pub mul64 : ℤ → ℤ → ℤ
unfolding wrap_int64 ◌*ℤ◌
mul64 x y = wrap_int64 (x *ℤ y)

unfoldable pub div64 : ℤ → ℤ → ℤ
unfolding wrap_int64
div64 x y = wrap_int64 (
    sub_ℕ (pos_part x / pos_part y + neg_part x / neg_part y)
      (pos_part x / neg_part y + neg_part x / pos_part y))

-- parseBigIntSafe(s).Int64()
unfoldable pub parse_int64 : String → ℤ
unfolding parse_big_int_safe wrap_int64
parse_int64 s = wrap_int64 (parse_big_int_safe s)

unfoldable pub parse_line : Map String Json → SplitPaymentLine
unfolding to_str lookup atoi int_or_zero parse_int64
parse_line m = record {
  line_id = to_str (lookup "line_id" m);
  quantity = int_or_zero (atoi (to_str (lookup "quantity" m)));
  amount = parse_int64 (to_str (lookup "amount_irr" m));
}

-- The entries of lines that are objects; a literal null is none, unlike for json.Unmarshal.
unfoldable pub parse_lines : List Json → List SplitPaymentLine
unfolding parse_line map_from
parse_lines [] = []
parse_lines (obj fs ∷ js) = parse_line (map_from fs []) ∷ parse_lines js
parse_lines (j ∷ js) = parse_lines js

unfoldable pub lines_in : Option Json → List SplitPaymentLine
unfolding parse_lines list_of
lines_in (some (arr js)) = parse_lines (list_of js)
lines_in o = []

unfoldable pub parse_payment : Map String Json → SplitPayment
unfolding to_str lookup parse_int64 lines_in
parse_payment m = record {
  id = to_str (lookup "id" m);
  at = to_str (lookup "at" m);
  method = to_str (lookup "method" m);
  amount = parse_int64 (to_str (lookup "amount_irr" m));
  client_token = to_str (lookup "client_token" m);
  lines = lines_in (lookup "lines" m);
}

-- A row that is no object makes json.Unmarshal fail.
unfoldable pub parse_rows : List Json → Option (List SplitPayment)
unfolding decode_map parse_payment
parse_rows [] = some []
parse_rows (j ∷ js) = elim (decode_map j) [
  | none ↦ none
  | some m ↦ elim (parse_rows js) [ none ↦ none | some ps ↦ some (parse_payment m ∷ ps) ]
]

unfoldable pub or_no_payments : Option (List SplitPayment) → List SplitPayment
or_no_payments none = []
or_no_payments (some ps) = ps

-- The text of a JSON array, or an array itself: Field gives the text of either.
unfoldable pub payments_in : Option Json → List SplitPayment
unfolding or_no_payments parse_rows list_of
payments_in (some (blob js)) = or_no_payments (parse_rows (list_of js))
payments_in (some (arr js)) = or_no_payments (parse_rows (list_of js))
payments_in o = []

unfoldable pub parse_split_payments : Json → List SplitPayment
unfolding decode_map payments_in lookup
parse_split_payments payload = elim (decode_map payload) [
  | none ↦ []
  | some m ↦ payments_in (lookup "split_payments" m)
]

unfoldable pub sum_lines : List OrderLineView → ℤ → ℤ
unfolding add64 parse_int64
sum_lines [] acc = acc
sum_lines (it ∷ its) acc = sum_lines its (add64 acc (parse_int64 it.line_total))

unfoldable pub sum_payments : List SplitPayment → ℤ → ℤ
unfolding add64
sum_payments [] acc = acc
sum_payments (p ∷ ps) acc = sum_payments ps (add64 acc p.amount)

-- paidQty[id] and paidAmt[id]
unfoldable pub tally_lines : String → List SplitPaymentLine → ℤ × ℤ → ℤ × ℤ
unfolding add64
tally_lines i [] acc = acc
tally_lines i (l ∷ ls) acc =
    tally_lines i ls
      (if str_eq l.line_id i then (add64 acc.0 l.quantity, add64 acc.1 l.amount) else acc)

unfoldable pub tally : String → List SplitPayment → ℤ × ℤ → ℤ × ℤ
unfolding tally_lines
tally i [] acc = acc
tally i (p ∷ ps) acc = tally i ps (tally_lines i p.lines acc)

-- The last line takes what the others left of the total.
unfoldable pub share_of : ℤ → ℤ → ℤ → ℤ → Bool → ℤ
unfolding at_least_zero sub64 mul64 div64
share_of total subtotal allocated line_total is_last = at_least_zero (
    if ltb_ℤ (pos 0) subtotal && ltb_ℤ (pos 0) total
    then (if is_last then sub64 total allocated else div64 (mul64 line_total total) subtotal)
    else pos 0)

unfoldable pub is_last : List OrderLineView → Bool
is_last [] = true
is_last (it ∷ its) = false

unfoldable pub bill_line : OrderLineView → ℤ → ℤ × ℤ → SplitBillLine
unfolding div64 at_least_zero sub64
bill_line it payable paid = record {
  key = it.id;
  title = it.product_name;
  quantity = it.quantity;
  paid_quantity = paid.0;
  unit_payable = if ltb_ℤ (pos 0) it.quantity then div64 payable it.quantity else pos 0;
  line_payable = payable;
  paid = paid.1;
  remaining = at_least_zero (sub64 payable paid.1);
}

unfoldable pub bill_lines : List SplitPayment → ℤ → ℤ → ℤ → List OrderLineView → List SplitBillLine
unfolding share_of is_last parse_int64 bill_line tally add64
bill_lines ps total subtotal allocated [] = []
bill_lines ps total subtotal allocated (it ∷ its) =
    let payable = share_of total subtotal allocated (parse_int64 it.line_total) (is_last its) in
    bill_line it payable (tally it.id ps (pos 0, pos 0))
    ∷ bill_lines ps total subtotal (add64 allocated payable) its

pub record SplitBill : Type 0 where
  pub lines : List SplitBillLine
  pub total : ℤ
  pub paid : ℤ
  pub remaining : ℤ

-- SplitBillOf
unfoldable pub split_bill_of : Json → SplitBill
unfolding parse_int64 price_irr order_items parse_split_payments sum_lines sum_payments bill_lines
    at_least_zero sub64
split_bill_of payload =
    let total = parse_int64 (price_irr payload) in
    let items = order_items payload in
    let ps = parse_split_payments payload in
    let paid = sum_payments ps (pos 0) in
    record {
      lines = bill_lines ps total (sum_lines items (pos 0)) (pos 0) items;
      total = total;
      paid = paid;
      remaining = at_least_zero (sub64 total paid);
    }
