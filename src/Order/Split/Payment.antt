-- ===== src/Order/Split/Payment.antt =====
-- splitQuote, RecordSplitPayment and UndoLastSplitPayment of offline-menuvex/internal/store/domains.go.
use menuvex_printer.Entity.{field_of, price_irr}
use menuvex_printer.Json.{Json, arr, blob, decode_map, end, field, items_of, num, obj, str}
use menuvex_printer.Order.{at_least_zero, set_fields}
use menuvex_printer.Order.Split.{
  SplitBillLine, SplitPayment, SplitPaymentLine, add64, div64, mul64, parse_int64,
  parse_split_payments, split_bill_of, sub64, sum_payments,
}
use menuvex_printer.Order.Update.{is_cancelled}
use menuvex_printer.Prelude.{
  Bool, List, Map, String, [], false, if◌then◌else◌, insert, length, lookup, map, not, str_eq,
  string_eq, ◌&&◌, ◌++◌, ◌==◌, ◌||◌, ◌∷◌,
}
use menuvex_printer.Prelude.Int.{ltb_ℤ, pos, ℤ}
use menuvex_printer.Result.{
  Result, bad_method, bad_row, line_not_in_order, no_payment, no_picks, ok, or_fail,
  order_cancelled, order_completed, order_not_found, refuse_if, too_many_picked, zero_payment,
  ◌>>=◌, ◌>>◌,
}
use menuvex_printer.Store.{
  Io, PersistedDb, Store, StoredEntity, after_check, find_live, rewrite, with_tx,
}
use menuvex_printer.Text.{equal_fold, to_lower, trim_space}
use menuvex_printer.Text.Decimal.{format_int}

unfoldable pub at_most : ℤ → ℤ → ℤ
at_most bound z = if ltb_ℤ bound z then bound else z

-- splitQuote
unfoldable pub split_quote : SplitBillLine → ℤ → ℤ
unfolding sub64 mul64 div64 at_most
split_quote l qty =
    let unpaid = sub64 l.quantity l.paid_quantity in
    let amount = mul64 qty l.unit_payable in
    if not (ltb_ℤ (pos 0) qty) || not (ltb_ℤ (pos 0) unpaid)
    then pos 0
    else if not (ltb_ℤ qty unpaid)
    then l.remaining
    else at_most l.remaining
        (if ltb_ℤ (pos 0) amount then amount else div64 (mul64 l.remaining qty) unpaid)

unfoldable pub bill_index : List SplitBillLine → Map String SplitBillLine → Map String SplitBillLine
unfolding insert
bill_index [] m = m
bill_index (l ∷ ls) m = bill_index ls (insert l.key l m)

-- The loop over the picks, in the order in which Go ranges over the map.
unfoldable pub quote_picks :
    Map String SplitBillLine → List (String × ℤ) → ℤ → Result (List SplitPaymentLine × ℤ)
unfolding lookup split_quote sub64 add64
quote_picks by_key [] amount = ok ([], amount)
quote_picks by_key ((line_id, qty) ∷ picks) amount = do
  l ← or_fail (lookup line_id by_key) line_not_in_order
  refuse_if (not (ltb_ℤ (pos 0) qty) || ltb_ℤ (sub64 l.quantity l.paid_quantity) qty)
      too_many_picked
  rest ← quote_picks by_key picks (add64 amount (split_quote l qty))
  ok (record { line_id = line_id; quantity = qty; amount = split_quote l qty } ∷ rest.0, rest.1)

unfoldable pub payment_line_json : SplitPaymentLine → Json
unfolding format_int
payment_line_json l = obj (
    field "amount_irr" (str (format_int l.amount))
      (field "line_id" (str l.line_id) (field "quantity" (num l.quantity) end)))

unfoldable pub payment_json : SplitPayment → Json
unfolding payment_line_json format_int items_of
payment_json p = obj (
    field "amount_irr" (str (format_int p.amount)) (
      field "at" (str p.at) (
        field "client_token" (str p.client_token) (
          field "id" (str p.id) (
            field "lines" (arr (items_of (map payment_line_json p.lines)))
              (field "method" (str p.method) end))))))

unfoldable pub split_status : ℤ → ℤ → ℤ → String
split_status total paid remaining =
    if not (ltb_ℤ (pos 0) remaining) && ltb_ℤ (pos 0) total
    then "PAID"
    else if ltb_ℤ (pos 0) paid
    then "PARTIAL"
    else "UNPAID"

-- The columns that a list of payments gives.
unfoldable pub split_fields : List SplitPayment → ℤ → String → Map String Json → Map String Json
unfolding sum_payments at_least_zero sub64 set_fields items_of payment_json format_int split_status
split_fields ps total now m =
    let paid = sum_payments ps (pos 0) in
    let remaining = at_least_zero (sub64 total paid) in
    set_fields
      (("split_payments", blob (items_of (map payment_json ps)))
        ∷ ("split_paid_irr", str (format_int paid))
        ∷ ("split_remaining_irr", str (format_int remaining))
        ∷ ("split_status", str (split_status total paid remaining))
        ∷ ("updated_at", str now)
        ∷ [])
      m

unfoldable pub has_token : String → List SplitPayment → Bool
has_token token [] = false
has_token token (p ∷ ps) = str_eq p.client_token token || has_token token ps

abbrev pub Paid : Type 0
Paid = ℤ × ℤ

-- The part of the transaction behind the test of the token; `fresh` is what UUID() gives.
unfoldable pub add_payment :
    String
    → List (String × ℤ)
    → String
    → String
    → Result String
    → String
    → StoredEntity
    → PersistedDb
    → Result (PersistedDb × Paid)
unfolding split_bill_of bill_index quote_picks decode_map parse_split_payments split_fields rewrite
    sum_payments at_least_zero sub64
add_payment order_id picks method token fresh now order st = do
  let bill = split_bill_of order.payload
  quoted ← quote_picks (bill_index bill.lines []) picks (pos 0)
  refuse_if (not (ltb_ℤ (pos 0) quoted.1)) zero_payment
  payment_id ← fresh
  m ← or_fail (decode_map order.payload) bad_row
  let ps =
      parse_split_payments order.payload
      ++ (record {
        id = payment_id;
        at = now;
        method = method;
        amount = quoted.1;
        client_token = token;
        lines = quoted.0;
      })
        ∷ []
  let paid = sum_payments ps (pos 0)
  ok (
    rewrite "order" order_id order (split_fields ps bill.total now m) st,
    (paid, at_least_zero (sub64 bill.total paid)),
  )

unfoldable pub split_body :
    String
    → List (String × ℤ)
    → String
    → String
    → Result String
    → String
    → PersistedDb
    → Result (PersistedDb × Paid)
unfolding find_live field_of to_lower is_cancelled has_token parse_split_payments split_bill_of
    add_payment
split_body order_id picks method token fresh now st = do
  order ← or_fail (find_live st "order" order_id) order_not_found
  let status = to_lower (field_of order.payload "status")
  refuse_if (str_eq status "completed") order_completed
  refuse_if (is_cancelled status) order_cancelled
  let bill = split_bill_of order.payload
  (if not (str_eq token "") && has_token token (parse_split_payments order.payload)
      then ok (st, (bill.paid, bill.remaining))
      else add_payment order_id picks method token fresh now order st)

-- RecordSplitPayment
unfoldable pub record_split_payment :
    Io
    → String
    → List (String × ℤ)
    → String
    → String
    → Result String
    → String
    → Store
    → Result Paid × Store
unfolding after_check split_body trim_space to_lower
record_split_payment io order_id picks method client_token fresh now s =
    let chosen = trim_space (to_lower method) in
    after_check
      (refuse_if (not (str_eq chosen "cash" || str_eq chosen "card" || str_eq chosen "transfer"))
          bad_method
        >> refuse_if (length picks == 0) no_picks)
      io (split_body order_id picks chosen (trim_space client_token) fresh now) s

-- payments[:len(payments)-1]
unfoldable pub without_last : List SplitPayment → List SplitPayment
without_last [] = []
without_last (p ∷ ps) = let rest = without_last ps in if length ps == 0 then [] else p ∷ rest

unfoldable pub undo_body : String → String → PersistedDb → Result (PersistedDb × Unit {0})
unfolding find_live field_of equal_fold parse_split_payments decode_map split_fields without_last
    parse_int64 price_irr rewrite
undo_body order_id now st = do
  order ← or_fail (find_live st "order" order_id) order_not_found
  refuse_if (equal_fold (field_of order.payload "status") "completed") order_completed
  let ps = parse_split_payments order.payload
  refuse_if (length ps == 0) no_payment
  m ← or_fail (decode_map order.payload) bad_row
  ok (
    rewrite "order" order_id order
        (split_fields (without_last ps) (parse_int64 (price_irr order.payload)) now m) st,
    tt,
  )

-- UndoLastSplitPayment
unfoldable pub undo_last_split_payment : Io → String → String → Store → Result (Unit {0}) × Store
unfolding undo_body with_tx
undo_last_split_payment io order_id now s = with_tx io (undo_body order_id now) s
