-- ===== src/Order/Debt.antt =====
-- DeferOrderToDebtor and SettleDebtorPayment of offline-menuvex/internal/store/domains.go: the debtor ledger.
pub mod Settle
use menuvex_printer.Entity.{field_of, price_irr}
use menuvex_printer.Json.{Json, decode_map, encode_map, num, str}
use menuvex_printer.Order.Create.{credit_note, entity_new}
use menuvex_printer.Prelude.{
  Map, String, [], if◌then◌else◌, insert, ltb, not, str_eq, string_eq, ◌||◌, ◌∷◌,
}
use menuvex_printer.Prelude.Int.{ltb_ℤ, pos, ℤ, ◌+ℤ◌, ◌-ℤ◌}
use menuvex_printer.Result.{
  Result, already_debtor, bad_debt_amount, bad_payment, bad_row, debtor_not_found, no_customer_name,
  ok, or_fail, order_cancelled, order_not_found, refuse_if, ◌>>=◌, ◌>>◌,
}
use menuvex_printer.Store.{Io, PersistedDb, Store, after_check, find_live, put_entity, rewrite}
use menuvex_printer.Text.{equal_fold, runes, to_lower, trim_space, ◌<>◌}
use menuvex_printer.Text.Decimal.{format_int, parse_big_int_safe}

abbrev pub deferred_fields :
    String → String → String → String → String → String → ℤ → String → String → Map String Json
deferred_fields debt_id order_id number name phone note total due_at now =
    ("id", str debt_id)
    ∷ ("full_name", str name)
    ∷ ("phone", str phone)
    ∷ ("total", str (format_int total))
    ∷ ("paid", str "0")
    ∷ ("remaining", str (format_int total))
    ∷ ("currency", str "IRR")
    ∷ ("status", str "open")
    ∷ ("description", str (credit_note <> number))
    ∷ ("note", str note)
    ∷ ("due_at", str due_at)
    ∷ ("order_id", str order_id)
    ∷ ("created_at", str now)
    ∷ ("version", num (pos 1))
    ∷ []

unfoldable pub on_credit : String → String → String → Map String Json → Map String Json
unfolding insert
on_credit name phone now m =
    let named =
      insert "customer_name" (str name) (insert "payment_method" (str "credit_debtor") m) in
    insert "updated_at" (str now)
      (if str_eq phone "" then named else insert "customer_phone" (str phone) named)

-- `fresh` is what UUID() gives.
unfoldable pub defer_body :
    String
    → String
    → String
    → String
    → String
    → Result String
    → String
    → PersistedDb
    → Result (PersistedDb × String)
unfolding find_live decode_map field_of to_lower equal_fold parse_big_int_safe price_irr put_entity
    encode_map on_credit rewrite format_int
defer_body order_id name phone due_at note fresh now st = do
  order ← or_fail (find_live st "order" order_id) order_not_found
  m ← or_fail (decode_map order.payload) bad_row
  let status = to_lower (field_of order.payload "status")
  refuse_if (str_eq status "cancelled" || str_eq status "canceled") order_cancelled
  refuse_if (equal_fold (field_of order.payload "payment_method") "credit_debtor") already_debtor
  let total = parse_big_int_safe (price_irr order.payload)
  refuse_if (not (ltb_ℤ (pos 0) total)) bad_debt_amount
  debt_id ← fresh
  let with_debt =
      put_entity "debtor" debt_id
        (entity_new "debtor" debt_id (
          deferred_fields debt_id order_id (field_of order.payload "order_number") name phone note
            total due_at now))
        st
  ok (rewrite "order" order_id order (on_credit name phone now m) with_debt, debt_id)

unfoldable pub defer_order_to_debtor :
    Io
    → String
    → String
    → String
    → String
    → String
    → Result String
    → String
    → Store
    → Result String × Store
unfolding defer_body after_check trim_space runes
defer_order_to_debtor io order_id name phone due_at note fresh now s =
    after_check (refuse_if (ltb (runes (trim_space name)) 2) no_customer_name) io
      (defer_body order_id (trim_space name) (trim_space phone) (trim_space due_at)
        (trim_space note) fresh now)
      s

-- The amounts of an account after a payment, and its status.
pub record Account : Type 0 where
  pub paid : ℤ
  pub remaining : ℤ
  pub status : String

unfoldable pub pay : ℤ → ℤ → ℤ → Account
unfolding ◌+ℤ◌ ◌-ℤ◌
pay amount paid remaining =
    if ltb_ℤ amount remaining
    then record { paid = paid +ℤ amount; remaining = remaining -ℤ amount; status = "partial" }
    else record { paid = paid +ℤ remaining; remaining = pos 0; status = "paid" }

unfoldable pub account_fields : Account → String → Map String Json → Map String Json
unfolding insert format_int
account_fields a now m = insert "updated_at" (str now) (
    insert "remaining" (str (format_int a.remaining))
      (insert "paid" (str (format_int a.paid)) (insert "status" (str a.status) m)))

unfoldable pub settle_body : String → ℤ → String → PersistedDb → Result (PersistedDb × Unit {0})
unfolding find_live decode_map field_of parse_big_int_safe pay account_fields rewrite
settle_body debtor_id amount now st = do
  debtor ← or_fail (find_live st "debtor" debtor_id) debtor_not_found
  m ← or_fail (decode_map debtor.payload) bad_row
  let a =
      pay amount (parse_big_int_safe (field_of debtor.payload "paid"))
        (parse_big_int_safe (field_of debtor.payload "remaining"))
  ok (rewrite "debtor" debtor_id debtor (account_fields a now m) st, tt)

unfoldable pub settle_debtor_payment :
    Io → String → String → String → Store → Result (Unit {0}) × Store
unfolding settle_body parse_big_int_safe after_check
settle_debtor_payment io debtor_id amount_irr now s =
    let amount = parse_big_int_safe amount_irr in
    after_check (refuse_if (not (ltb_ℤ (pos 0) amount)) bad_payment) io
      (settle_body debtor_id amount now) s
