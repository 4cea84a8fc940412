-- ===== src/Stock.antt =====
-- The stock of offline-menuvex/internal/store/domains.go: RecordStockMovement. Binary floating
-- point, with ParseFloat and FormatFloat, is a parameter: `Measures`.
pub mod Agree
pub mod Void
pub mod Waste
use menuvex_printer.Entity.{entity_of, field_of, label}
use menuvex_printer.Json.{Json, decode_map, encode_map, num, str}
use menuvex_printer.Order.Create.{entity_new}
use menuvex_printer.Order.Status.{Floats}
use menuvex_printer.Prelude.{
  Bool, Map, Option, String, [], if◌then◌else◌, insert, none, not, some, str_eq, string_eq, ◌&&◌,
  ◌||◌, ◌∷◌,
}
use menuvex_printer.Prelude.Int.{pos}
use menuvex_printer.Result.{
  Result, bad_quantity, bad_row, ingredient_not_found, ok, or_fail, random_failed, refuse_if, ◌>>=◌,
  ◌>>◌,
}
use menuvex_printer.Store.{
  Io, PersistedDb, Store, StoredEntity, after_check, find_live, put_entity, rewrite,
}
use menuvex_printer.Text.{has_prefix, trim_space, ◌<>◌}
use menuvex_printer.Text.Split.{drop_prefix}

-- float64 as the stock uses it, beside `Floats`: whether ParseFloat gives no error, 0, the sum, the product and
-- the quotient of two numbers, and the tests < and <=.
pub record Measures (F : Type 0) : Type 0 where
  pub base : Floats F
  pub parses : String → Bool
  pub nil_amount : F
  pub plus : F → F → F
  pub multiply : F → F → F
  pub divide : F → F → F
  pub less : F → F → Bool
  pub not_above : F → F → Bool

unfoldable pub is_outgoing : String → Bool
is_outgoing tx =
    str_eq tx "consumption"
    || str_eq tx "waste"
    || str_eq tx "return_to_supplier"
    || str_eq tx "transfer_out"
    || str_eq tx "outgoing"

unfoldable pub is_incoming : String → Bool
is_incoming tx =
    str_eq tx "purchase"
    || str_eq tx "opening_balance"
    || str_eq tx "transfer_in"
    || str_eq tx "incoming"

-- The note of waste, "reason::description", cut at its first two colons
unfoldable pub cut_note : String → Option (String × String)
cut_note String.[] = none
cut_note (String.◌∷◌ c s) =
    let rest = cut_note s in
    if has_prefix "::" (String.◌∷◌ c s)
    then some ("", drop_prefix "::" (String.◌∷◌ c s))
    else elim rest [ none ↦ none | some (a, b) ↦ some (String.◌∷◌ c a, b) ]

abbrev pub waste_title : String
waste_title = "\u{636}\u{627}\u{6cc}\u{639}\u{627}\u{62a} "

unfoldable pub text_or_empty : Option String → String
text_or_empty none = ""
text_or_empty (some s) = s

module _ {F : Type 0} (ms : Measures F) where
  abbrev pub magnitude : F → F
  magnitude q = if ms.less q ms.nil_amount then ms.base.negate q else q

  -- signedDelta and the kind of the movement, of the kind that is asked for, the quantity and the stock
  unfoldable pub movement_of : String → F → F → F × String
  unfolding is_outgoing is_incoming
  movement_of tx qty stock =
      let size = magnitude qty in
      if str_eq tx "outgoing"
      then (
        if ms.not_above stock ms.nil_amount
            then ms.nil_amount
            else if ms.less stock size
            then ms.base.negate stock
            else ms.base.negate size,
        "consumption",
      )
      else if is_outgoing tx
      then (ms.base.negate size, tx)
      else if str_eq tx "incoming"
      then (size, "purchase")
      else if is_incoming tx
      then (size, tx)
      else if str_eq tx "adjustment"
      then (qty, tx)
      else if str_eq tx "adjustment_target"
      then (ms.base.minus qty stock, "adjustment")
      else (size, tx)

  -- curStock > 0 and the like
  abbrev pub is_positive : F → Bool
  is_positive x = ms.less ms.nil_amount x

  -- The moving weighted average of the cost
  unfoldable pub average_cost : F → F → F → Json → Map String Json → Map String Json
  unfolding insert field_of
  average_cost unit delta stock payload m =
      let after = ms.plus stock delta in
      let old = ms.base.parse (field_of payload "average_cost") in
      if is_positive stock && is_positive after
      then insert "average_cost"
          (str (
            ms.base.fixed
              (ms.divide (ms.plus (ms.multiply stock old) (ms.multiply delta unit)) after)))
          m
      else if is_positive after
      then insert "average_cost" (str (ms.base.fixed unit)) m
      else m

  unfoldable pub purchase_cost : String → F → Map String Json → Map String Json
  unfolding insert
  purchase_cost tx unit m =
      if str_eq tx "purchase" then insert "last_purchase_cost" (str (ms.base.fixed unit)) m else m

  unfoldable pub cost_fields : String → String → F → F → Json → Map String Json → Map String Json
  unfolding trim_space average_cost purchase_cost
  cost_fields tx raw delta stock payload m =
      let text = trim_space raw in
      let unit = ms.base.parse text in
      if not (str_eq text "")
        && ms.parses text
        && ms.not_above ms.nil_amount unit
        && is_positive delta
      then purchase_cost tx unit (average_cost unit delta stock payload m)
      else m

  unfoldable pub stock_fields :
      String → String → F → F → String → Json → Map String Json → Map String Json
  unfolding insert cost_fields
  stock_fields tx unit_cost delta stock now payload m = insert "updated_at" (str now) (
      cost_fields tx unit_cost delta stock payload
        (insert "current_stock" (str (ms.base.fixed (ms.plus stock delta))) m))

  abbrev pub stock_movement :
      String → StoredEntity → String → String → F → F → String → String → String → Map String Json
  stock_movement mov_id e ingredient_id tx delta stock unit_cost note now =
      let view = entity_of e in
      ("id", str mov_id)
      ∷ ("title", str (label view))
      ∷ ("ingredient_id", str ingredient_id)
      ∷ ("ingredient_name", str (label view))
      ∷ ("unit", str (field_of view.payload "base_unit"))
      ∷ ("transaction_type", str tx)
      ∷ ("quantity", str (ms.base.fixed delta))
      ∷ ("stock_after", str (ms.base.fixed (ms.plus stock delta)))
      ∷ ("unit_cost", str (trim_space unit_cost))
      ∷ ("description", str (trim_space note))
      ∷ ("created_at", str now)
      ∷ ("version", num (pos 1))
      ∷ []

  abbrev pub reason_of : String → String × String
  reason_of note = elim (cut_note note) [
    | none ↦ (trim_space note, "")
    | some (a, b) ↦ (trim_space a, trim_space b)
  ]

  abbrev pub waste_event : String → StoredEntity → String → F → String → String → Map String Json
  waste_event waste_id e ingredient_id qty note now =
      let view = entity_of e in
      ("id", str waste_id)
      ∷ ("title", str (waste_title <> label view))
      ∷ ("ingredient_id", str ingredient_id)
      ∷ ("ingredient_name", str (label view))
      ∷ ("quantity", str (ms.base.fixed (magnitude qty)))
      ∷ ("unit", str (field_of view.payload "base_unit"))
      ∷ ("reason", str (reason_of note).0)
      ∷ ("description", str (reason_of note).1)
      ∷ ("created_at", str now)
      ∷ ("version", num (pos 1))
      ∷ []

  -- The document of waste; its identifier is "" if UUID() fails.
  unfoldable pub record_waste :
      String
      → Option String
      → StoredEntity
      → String
      → F
      → String
      → String
      → PersistedDb
      → PersistedDb
  unfolding put_entity encode_map text_or_empty cut_note trim_space label field_of ◌<>◌
  record_waste tx waste_id e ingredient_id qty note now st =
      let i = text_or_empty waste_id in
      if str_eq tx "waste"
      then put_entity "waste_event" i
          (entity_new "waste_event" i (waste_event i e ingredient_id qty note now)) st
      else st

  -- What a form asks to be moved: the ingredient, the kind, the quantity, the cost of a unit and the note
  unfoldable pub movement_body :
      String
      → String
      → String
      → String
      → String
      → String
      → Option String
      → String
      → PersistedDb
      → Result (PersistedDb × String)
  unfolding find_live decode_map field_of movement_of stock_fields rewrite put_entity encode_map
      record_waste label trim_space
  movement_body ingredient_id tx raw unit_cost note mov_id waste_id now st = do
    e ← or_fail (find_live st "ingredient" ingredient_id) ingredient_not_found
    m ← or_fail (decode_map e.payload) bad_row
    let qty = ms.base.parse (trim_space raw)
    let stock = ms.base.parse (field_of e.payload "current_stock")
    let (delta, kind) = movement_of tx qty stock
    let moved =
        rewrite "ingredient" ingredient_id e
          (stock_fields kind unit_cost delta stock now e.payload m) st
    let doc =
        entity_new "inventory_movement" mov_id
          (stock_movement mov_id e ingredient_id kind delta stock unit_cost note now)
    ok (
      record_waste kind waste_id e ingredient_id qty note now
          (put_entity "inventory_movement" mov_id doc moved),
      mov_id,
    )

  unfoldable pub quantity_ok : String → Result (Unit {0})
  unfolding trim_space
  quantity_ok raw =
      let text = trim_space raw in
      refuse_if (not (ms.parses text) || ms.base.is_nil (ms.base.parse text)) bad_quantity

  -- RecordStockMovement; `mov_id` and `waste_id` are what the two calls of UUID() give.
  unfoldable pub record_stock_movement :
      Io
      → String
      → String
      → String
      → String
      → String
      → Option String
      → Option String
      → String
      → Store
      → Result String × Store
  unfolding quantity_ok movement_body after_check
  record_stock_movement io ingredient_id tx raw unit_cost note mov_id waste_id now s =
      after_check (quantity_ok raw >> or_fail mov_id random_failed >>= λ i. ok tt) io
        (movement_body ingredient_id tx raw unit_cost note (text_or_empty mov_id) waste_id now) s
