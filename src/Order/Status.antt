-- ===== src/Order/Status.antt =====
-- UpdateLocalOrderStatusReason of offline-menuvex/internal/store/domains.go. Binary floating point, with
-- ParseFloat and FormatFloat, is a parameter: `Floats`.
pub mod Machine
pub mod Deduction
pub mod Tables
use menuvex_printer.Entity.{OrderLineView, entity_of, field_of, label, label_text, order_items}
use menuvex_printer.Json.{Json, arr, decode_map, encode_map, list_of, num, str}
use menuvex_printer.Order.{free_table}
use menuvex_printer.Order.Create.{entity_new}
use menuvex_printer.Order.Update.{sprint}
use menuvex_printer.Prelude.{
  Bool, Key, List, Map, Option, String, [], false, if◌then◌else◌, insert, lookup, none, not, some,
  str_eq, string_eq, suc, ℕ, ◌&&◌, ◌||◌, ◌∷◌,
}
use menuvex_printer.Prelude.Int.{pos, ℤ}
use menuvex_printer.Result.{
  Error, Result, bad_row, bad_transition, err, final_status, ok, or_fail, order_not_found,
  refuse_if, ◌>>=◌, ◌>>◌,
}
use menuvex_printer.Store.{
  Io, PersistedDb, Store, StoredEntity, find_live, put_entity, rewrite, with_tx,
}
use menuvex_printer.Store.Changes.{string_field}
use menuvex_printer.Text.{equal_fold, is_blank, to_lower, trim_space, ◌<>◌}

unfoldable pub next_statuses : String → List String
next_statuses from =
    if str_eq from ""
    then "pending" ∷ "accepted" ∷ "preparing" ∷ "ready" ∷ "completed" ∷ "cancelled" ∷ []
    else if str_eq from "pending"
    then "accepted" ∷ "preparing" ∷ "ready" ∷ "completed" ∷ "cancelled" ∷ []
    else if str_eq from "accepted"
    then "preparing" ∷ "ready" ∷ "completed" ∷ "cancelled" ∷ []
    else if str_eq from "preparing"
    then "ready" ∷ "completed" ∷ "cancelled" ∷ []
    else if str_eq from "ready"
    then "completed" ∷ "cancelled" ∷ []
    else []

unfoldable pub one_of : String → List String → Bool
one_of s [] = false
one_of s (t ∷ ts) = str_eq t s || one_of s ts

unfoldable pub clean : String → String
unfolding to_lower trim_space
clean s = to_lower (trim_space s)

-- validOrderTransition
unfoldable pub is_valid_transition : String → String → Bool
unfolding clean next_statuses one_of
is_valid_transition from to =
    str_eq (clean from) (clean to) || one_of (clean to) (next_statuses (clean from))

unfoldable pub is_closed : String → Bool
is_closed status =
    str_eq status "completed" || str_eq status "cancelled" || str_eq status "canceled"

-- The two messages of a refused transition.
unfoldable pub refused : String → Error
unfolding clean is_closed
refused prev = if is_closed (clean prev) then final_status else bad_transition

-- float64 as the deduction uses it: strconv.ParseFloat with its error dropped, the product with an int,
-- the difference, the test against 0, the negation, and FormatFloat(x, 'f', 2, 64).
pub record Floats (F : Type 0) : Type 0 where
  pub parse : String → F
  pub times : F → ℤ → F
  pub minus : F → F → F
  pub is_nil : F → Bool
  pub negate : F → F
  pub fixed : F → String

pub record RecipeLineView : Type 0 where
  pub ingredient_id : String
  pub quantity : String

-- RecipeLines; a name and a unit that are no strings are errors too.
unfoldable pub recipe_line : Json → Result RecipeLineView
unfolding decode_map string_field
recipe_line j = do
  m ← or_fail (decode_map j) bad_row
  ingredient_id ← string_field m "ingredient_id"
  name ← string_field m "ingredient_name"
  quantity ← string_field m "quantity"
  unit ← string_field m "unit"
  ok (record { ingredient_id = ingredient_id; quantity = quantity })

unfoldable pub recipe_rows : List Json → Result (List RecipeLineView)
unfolding recipe_line
recipe_rows [] = ok []
recipe_rows (j ∷ js) = do l ← recipe_line j; ls ← recipe_rows js; ok (l ∷ ls)

unfoldable pub recipe_in : Option Json → List RecipeLineView
unfolding recipe_rows list_of
recipe_in (some (arr js)) = elim (recipe_rows (list_of js)) [ ok ls ↦ ls | err e ↦ [] ]
recipe_in o = []

unfoldable pub recipe_lines : Json → List RecipeLineView
unfolding decode_map recipe_in lookup
recipe_lines payload = elim (decode_map payload) [
  | none ↦ []
  | some m ↦ recipe_in (lookup "items" m)
]

-- The state with the number of calls of UUID() so far; `fresh` gives what each call returns.
abbrev pub Counted : Type 0
Counted = ℕ × PersistedDb

abbrev pub movement_note : String
movement_note =
    "\u{6a9}\u{633}\u{631} \u{62e}\u{648}\u{62f}\u{6a9}\u{627}\u{631} \u{631}\u{633}\u{67e}\u{6cc} \u{633}\u{641}\u{627}\u{631}\u{634} "

module _ {F : Type 0} (fl : Floats F) (fresh : ℕ → Option String)
    (order_id number now : String) where
  abbrev pub movement_fields :
      String → StoredEntity → Map String Json → String → F → F → Map String Json
  movement_fields mov_id ingredient m ingredient_id deduct stock =
      let view = entity_of (record ingredient { payload = encode_map m }) in
      ("id", str mov_id)
      ∷ ("title", str (label view))
      ∷ ("ingredient_id", str ingredient_id)
      ∷ ("ingredient_name", str (label view))
      ∷ ("unit", str (field_of view.payload "base_unit"))
      ∷ ("transaction_type", str "consumption")
      ∷ ("quantity", str (fl.fixed (fl.negate deduct)))
      ∷ ("stock_after", str (fl.fixed stock))
      ∷ ("description", str (movement_note <> number))
      ∷ ("order_id", str order_id)
      ∷ ("created_at", str now)
      ∷ ("version", num (pos 1))
      ∷ []

  -- The document of a deduction, unless UUID() failed or nothing was deducted.
  unfoldable pub record_movement :
      StoredEntity → Map String Json → String → F → F → Counted → Counted
  unfolding put_entity encode_map label field_of ◌<>◌
  record_movement ingredient m ingredient_id deduct stock (n, st) = elim (fresh n) [
    | none ↦ (suc n, st)
    | some mov_id ↦ (
      suc n,
      if fl.is_nil deduct
          then st
          else put_entity "inventory_movement" mov_id
              (entity_new "inventory_movement" mov_id
                (movement_fields mov_id ingredient m ingredient_id deduct stock))
              st,
    )
  ]

  unfoldable pub deduct_line : ℤ → RecipeLineView → Counted → Counted
  unfolding find_live decode_map sprint lookup insert rewrite record_movement
  deduct_line quantity rl (n, st) = elim (find_live st "ingredient" rl.ingredient_id) [
    | none ↦ (n, st)
    | some e ↦ elim (decode_map e.payload) [
      | none ↦ (n, st)
      | some m ↦
          let deduct = fl.times (fl.parse rl.quantity) quantity in
          let stock = fl.minus (fl.parse (sprint (lookup "current_stock" m))) deduct in
          let m' = insert "current_stock" (str (fl.fixed stock)) m in
          record_movement e m' rl.ingredient_id deduct stock
            (n, rewrite "ingredient" rl.ingredient_id e m' st)
    ]
  ]

  unfoldable pub deduct_recipe : ℤ → List RecipeLineView → Counted → Counted
  unfolding deduct_line
  deduct_recipe quantity [] c = c
  deduct_recipe quantity (rl ∷ rls) c = deduct_recipe quantity rls (deduct_line quantity rl c)

  -- The recipes of a product. The writes of the loop change no recipe, so that it ranges over the
  -- entities that stood there at its start.
  unfoldable pub deduct_product : OrderLineView → Map Key StoredEntity → Counted → Counted
  unfolding deduct_recipe recipe_lines field_of
  deduct_product line [] c = c
  deduct_product line ((k, e) ∷ m) c = deduct_product line m (
      if not e.deleted
        && str_eq e.kind "recipe"
        && str_eq (field_of e.payload "product_id") line.product_id
      then deduct_recipe line.quantity (recipe_lines e.payload) c
      else c)

  unfoldable pub deduct_all : List OrderLineView → Counted → Counted
  unfolding deduct_product
  deduct_all [] c = c
  deduct_all (line ∷ ls) c = deduct_all ls (deduct_product line c.1.entities c)

  -- What a transition to completed or to cancelled does beside the order itself.
  unfoldable pub side_effects : String → String → Json → PersistedDb → PersistedDb
  unfolding free_table field_of deduct_all order_items
  side_effects prev new payload st =
      let freed = free_table (field_of payload "table_id") st in
      if str_eq new "completed"
      then (if str_eq prev "completed" then st else (deduct_all (order_items payload) (0, freed)).1)
      else if str_eq new "cancelled"
      then freed
      else st

unfoldable pub status_fields : String → String → String → Map String Json → Map String Json
unfolding insert is_blank trim_space
status_fields new reason now m =
    let updated = insert "updated_at" (str now) (insert "status" (str new) m) in
    let reasoned =
      if is_blank reason
      then updated
      else insert "status_reason" (str (trim_space reason)) updated in
    if str_eq new "completed" then insert "completed_at" (str now) reasoned else reasoned

unfoldable pub status_body :
    {F : Type 0}
    → Floats F
    → (ℕ → Option String)
    → String
    → String
    → String
    → String
    → PersistedDb
    → Result (PersistedDb × Unit {0})
unfolding find_live decode_map label_text lookup is_valid_transition refused equal_fold side_effects
    status_fields rewrite field_of
status_body fl fresh order_id new reason now st = do
  order ← or_fail (find_live st "order" order_id) order_not_found
  m ← or_fail (decode_map order.payload) bad_row
  let prev = label_text (lookup "status" m)
  refuse_if (not (is_valid_transition prev new)) (refused prev)
  let number = field_of order.payload "order_number"
  (if equal_fold prev new
      then ok (st, tt)
      else ok (
        rewrite "order" order_id order (status_fields new reason now m)
            (side_effects fl fresh order_id number now prev new order.payload st),
        tt,
      ))

-- UpdateLocalOrderStatusReason; UpdateLocalOrderStatus gives the reason "".
unfoldable pub update_local_order_status :
    {F : Type 0}
    → Floats F
    → (ℕ → Option String)
    → Io
    → String
    → String
    → String
    → String
    → Store
    → Result (Unit {0}) × Store
unfolding status_body with_tx
update_local_order_status fl fresh io order_id new reason now s =
    with_tx io (status_body fl fresh order_id new reason now) s
