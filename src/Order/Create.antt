-- ===== src/Order/Create.antt =====
-- CreatePOSOrder of offline-menuvex/internal/store/domains.go.
-- `is_today` stands for countOrdersOnTehranDay's test of a created_at text, which rests on package time and
-- its zone data; `order_id`, `debt_id` and `ids` are what the calls of UUID() give, and `now` the clock.
pub mod Once
use menuvex_printer.Entity.{entity_of, field_of, label}
use menuvex_printer.Json.{Json, encode_map, num, str}
use menuvex_printer.Order.{
  OrderLine, PosOrderLineInput, at_least_zero, build_lines, clamp_discount, lines_json, order_table,
  rewrite_fields, subtotal_of, table_fields, total_of,
}
use menuvex_printer.Prelude.{
  Bool, Key, List, Map, Option, String, [], false, if◌then◌else◌, length, none, not, some, str_eq,
  suc, ℕ, ◌&&◌, ◌+◌, ◌/◌, ◌==◌, ◌∷◌,
}
use menuvex_printer.Prelude.Int.{ltb_ℤ, pos, pos_part, ℤ, ◌+ℤ◌}
use menuvex_printer.Result.{Result, no_items, no_valid_line, ok, refuse_if, ◌>>=◌, ◌>>◌}
use menuvex_printer.Store.{
  Io, PersistedDb, Store, StoredEntity, after_check, find_live, next_int64, put_entity,
}
use menuvex_printer.Text.{trim_space, ◌<>◌}
use menuvex_printer.Text.Decimal.{atoi, format_int, int_or_zero, parse_big_int_safe, wrap_int64}

pub record PosOrderInput : Type 0 where
  pub client_token : String
  pub fulfillment_type : String
  pub table_id : String
  pub customer_id : String
  pub customer_name : String
  pub customer_phone : String
  pub cashier_name : String
  pub payment_method : String
  pub discount_irr : String
  pub extra_irr : String
  pub extra_note : String
  pub debtor_due_at : String
  pub debtor_note : String
  pub debtor_kind : String
  pub debtor_group_id : String
  pub note : String
  pub items : List PosOrderLineInput

-- debtorKind
unfoldable pub normal_debtor_kind : String → String
unfolding trim_space
normal_debtor_kind kind = if str_eq (trim_space kind) "company" then "company" else "personal"

-- The order that was stored for the token of a form.
unfoldable pub find_by_token : String → Map Key StoredEntity → Option String
unfolding field_of
find_by_token token [] = none
find_by_token token ((k, e) ∷ m) =
    let rest = find_by_token token m in
    if not e.deleted && str_eq e.kind "order" && str_eq (field_of e.payload "client_token") token
    then some e.id
    else rest

unfoldable pub token_match : String → PersistedDb → Option String
unfolding find_by_token
token_match token st = if str_eq token "" then none else find_by_token token st.entities

-- countOrdersOnTehranDay
unfoldable pub count_orders : (String → Bool) → Map Key StoredEntity → ℕ
unfolding field_of
count_orders is_today [] = 0
count_orders is_today ((k, e) ∷ m) =
    let rest = count_orders is_today m in
    if str_eq e.kind "order" && not e.deleted && is_today (field_of e.payload "created_at")
    then suc rest
    else rest

-- The table becomes occupied by the order; its label goes into the order.
unfoldable pub occupy : String → String → PersistedDb → String × PersistedDb
unfolding order_table rewrite_fields label
occupy table_id order_id st = elim (order_table st table_id) [
  | none ↦ ("", st)
  | some e ↦
      (label (entity_of e), rewrite_fields "table" table_id e (table_fields "occupied" order_id) st)
]

unfoldable pub or_text : String → String → String
or_text a b = if str_eq a "" then b else a

-- One point for each 100000 rials of the total, and at least one.
unfoldable pub earned_points : ℤ → ℤ
unfolding wrap_int64
earned_points total =
    let e = wrap_int64 (pos (pos_part total / 100000)) in if ltb_ℤ e (pos 1) then pos 1 else e

unfoldable pub loyalty_fields : Json → ℤ → List (String × Json)
unfolding atoi int_or_zero field_of earned_points next_int64 wrap_int64 ◌+ℤ◌
loyalty_fields payload total =
    (
      "loyalty_points",
      num (
          wrap_int64
            (int_or_zero (atoi (field_of payload "loyalty_points")) +ℤ earned_points total)),
    )
    ∷ ("orders_count", num (next_int64 (int_or_zero (atoi (field_of payload "orders_count")))))
    ∷ []

-- The customer's name and phone for the order, and the loyalty account.
unfoldable pub visit : PosOrderInput → ℤ → PersistedDb → String × String × PersistedDb
unfolding trim_space find_live or_text label rewrite_fields loyalty_fields field_of
visit req total st =
    let name = trim_space req.customer_name in
    let phone = trim_space req.customer_phone in
    elim (if str_eq req.customer_id "" then none else find_live st "customer" req.customer_id) [
      | none ↦ (name, phone, st)
      | some e ↦ (
        or_text name (label (entity_of e)),
        or_text phone (field_of e.payload "phone"),
        rewrite_fields "customer" req.customer_id e (loyalty_fields e.payload total) st,
      )
    ]

abbrev pub guest_name : String
guest_name =
    "\u{645}\u{647}\u{645}\u{627}\u{646} \u{62d}\u{636}\u{648}\u{631}\u{6cc} \u{6a9}\u{627}\u{641}\u{647}"

abbrev pub credit_note : String
credit_note =
    "\u{633}\u{641}\u{627}\u{631}\u{634} \u{646}\u{633}\u{6cc}\u{647} \u{634}\u{645}\u{627}\u{631}\u{647} "

abbrev pub entity_new : String → String → Map String Json → StoredEntity
entity_new kind i m = record {
  id = i;
  kind = kind;
  version = pos 1;
  deleted = false;
  payload = encode_map m;
}

abbrev pub debt_fields :
    PosOrderInput → String → String → String → String → String → ℤ → String → Map String Json
debt_fields req debt_id order_id number name phone total now =
    ("id", str debt_id)
    ∷ ("full_name", str name)
    ∷ ("phone", str phone)
    ∷ ("total", str (format_int total))
    ∷ ("paid", str "0")
    ∷ ("remaining", str (format_int total))
    ∷ ("currency", str "IRR")
    ∷ ("status", str "open")
    ∷ ("description", str (credit_note <> number))
    ∷ ("note", str (trim_space req.debtor_note))
    ∷ ("due_at", str (trim_space req.debtor_due_at))
    ∷ ("account_type", str (normal_debtor_kind req.debtor_kind))
    ∷ ("group_id", str (trim_space req.debtor_group_id))
    ∷ ("order_id", str order_id)
    ∷ ("created_at", str now)
    ∷ ("version", num (pos 1))
    ∷ []

-- A debtor record, for an order on credit.
unfoldable pub open_debt :
    PosOrderInput
    → String
    → String
    → String
    → String
    → String
    → String
    → ℤ
    → String
    → PersistedDb
    → PersistedDb
unfolding put_entity encode_map normal_debtor_kind
open_debt req payment debt_id order_id number name phone total now st =
    if str_eq payment "credit_debtor"
    then put_entity "debtor" debt_id
        (entity_new "debtor" debt_id (debt_fields req debt_id order_id number name phone total now))
        st
    else st

pub record Sums : Type 0 where
  pub subtotal : ℤ
  pub discount : ℤ
  pub extra : ℤ
  pub total : ℤ

-- The sums of an order from its lines, the discount and the extra that are asked for.
unfoldable pub sums_of : List OrderLine → ℤ → ℤ → Sums
unfolding subtotal_of clamp_discount at_least_zero total_of
sums_of ls d x =
    let subtotal = subtotal_of ls in
    let discount = clamp_discount subtotal d in
    let extra = at_least_zero x in
    record {
      subtotal = subtotal;
      discount = discount;
      extra = extra;
      total = total_of subtotal discount extra;
    }

abbrev pub order_fields :
    PosOrderInput
    → List OrderLine
    → Sums
    → String
    → String
    → String
    → String
    → String
    → String
    → String
    → Map String Json
order_fields req ls sums order_id number table_label name phone payment now =
    ("id", str order_id)
    ∷ ("client_token", str (trim_space req.client_token))
    ∷ ("order_number", str number)
    ∷ ("fulfillment_type", str (or_text (trim_space req.fulfillment_type) "dine_in"))
    ∷ ("table_id", str req.table_id)
    ∷ ("table_label", str table_label)
    ∷ ("customer_id", str req.customer_id)
    ∷ ("customer_name", str name)
    ∷ ("customer_phone", str phone)
    ∷ ("cashier_name", str (trim_space req.cashier_name))
    ∷ ("payment_method", str payment)
    ∷ ("subtotal_irr", str (format_int sums.subtotal))
    ∷ ("discount_irr", str (format_int sums.discount))
    ∷ ("extra_irr", str (format_int sums.extra))
    ∷ ("extra_note", str (trim_space req.extra_note))
    ∷ ("total_irr", str (format_int sums.total))
    ∷ ("price", str (format_int sums.total))
    ∷ ("status", str "pending")
    ∷ ("note", str (trim_space req.note))
    ∷ ("items", lines_json ls)
    ∷ ("created_at", str now)
    ∷ ("version", num (pos 1))
    ∷ []

-- What is written once the lines are there.
unfoldable pub place_order :
    PosOrderInput
    → List OrderLine
    → Sums
    → (String → Bool)
    → String
    → String
    → String
    → PersistedDb
    → PersistedDb
unfolding count_orders format_int or_text occupy visit open_debt put_entity encode_map lines_json
place_order req ls sums is_today order_id debt_id now st =
    let number = format_int (pos (100 + count_orders is_today st.entities)) in
    let payment = or_text (trim_space req.payment_method) "card_pos" in
    let (table_label, st₁) = occupy req.table_id order_id st in
    let (given, phone, st₂) = visit req sums.total st₁ in
    let name = or_text given guest_name in
    let st₃ = open_debt req payment debt_id order_id number name phone sums.total now st₂ in
    put_entity "order" order_id
      (entity_new "order" order_id
        (order_fields req ls sums order_id number table_label name phone payment now))
      st₃

unfoldable pub new_order :
    PosOrderInput
    → (String → Bool)
    → String
    → String
    → (ℕ → String)
    → String
    → PersistedDb
    → Result (PersistedDb × String)
unfolding build_lines sums_of parse_big_int_safe place_order
new_order req is_today order_id debt_id ids now st = do
  ls ← build_lines st ids 0 req.items
  refuse_if (length ls == 0) no_valid_line
  let sums = sums_of ls (parse_big_int_safe req.discount_irr) (parse_big_int_safe req.extra_irr)
  ok (place_order req ls sums is_today order_id debt_id now st, order_id)

unfoldable pub create_body :
    PosOrderInput
    → (String → Bool)
    → String
    → String
    → (ℕ → String)
    → String
    → PersistedDb
    → Result (PersistedDb × String)
unfolding token_match new_order trim_space
create_body req is_today order_id debt_id ids now st =
    elim (token_match (trim_space req.client_token) st) [
      | some existing ↦ ok (st, existing)
      | none ↦ new_order req is_today order_id debt_id ids now st
    ]

-- CreatePOSOrder, where UUID() has given order_id
unfoldable pub create_pos_order :
    Io
    → PosOrderInput
    → (String → Bool)
    → String
    → String
    → (ℕ → String)
    → String
    → Store
    → Result String × Store
unfolding create_body after_check
create_pos_order io req is_today order_id debt_id ids now s =
    after_check (refuse_if (length req.items == 0) no_items) io
      (create_body req is_today order_id debt_id ids now) s
