-- ===== src/Stock/Waste.antt =====
-- VoidWasteEvent of offline-menuvex/internal/store/domains.go: two transactions, one after the other.
use menuvex_printer.Entity.{label_text}
use menuvex_printer.Json.{Json, decode_map, str}
use menuvex_printer.Prelude.{
  Bool, Map, Option, String, if◌then◌else◌, insert, lookup, not, str_eq, string_eq, ◌&&◌,
}
use menuvex_printer.Result.{
  Result, bad_row, err, ok, or_fail, refuse_if, waste_not_found, waste_voided, ◌>>=◌, ◌>>◌,
}
use menuvex_printer.Stock.{Measures, record_stock_movement}
use menuvex_printer.Store.{Io, PersistedDb, Store, find_live, rewrite, with_tx}

abbrev pub void_note : String
void_note = "\u{627}\u{628}\u{637}\u{627}\u{644} \u{636}\u{627}\u{6cc}\u{639}\u{627}\u{62a}"

-- m[key].(string), "" for anything else
unfoldable pub string_at : String → Map String Json → String
unfolding lookup label_text
string_at key m = label_text (lookup key m)

unfoldable pub void_body : String → String → PersistedDb → Result (PersistedDb × (String × String))
unfolding find_live decode_map string_at insert rewrite
void_body waste_id now st = do
  e ← or_fail (find_live st "waste_event" waste_id) waste_not_found
  m ← or_fail (decode_map e.payload) bad_row
  refuse_if (str_eq (string_at "status" m) "voided") waste_voided
  let voided = insert "voided_at" (str now) (insert "status" (str "voided") m)
  ok (
    rewrite "waste_event" waste_id e voided st,
    (string_at "ingredient_id" voided, string_at "quantity" voided),
  )

-- How the two transactions of VoidWasteEvent turn out
pub record Voiding : Type 0 where
  pub void_io : Io
  pub move_io : Io
  pub voided_at : String
  pub moved_at : String
  pub mov_id : Option String
  pub waste_id : Option String

-- if ingredientID != "" && qty != "" && qty != "0"
unfoldable pub restores : String → String → Bool
restores ingredient_id qty =
    not (str_eq ingredient_id "") && not (str_eq qty "") && not (str_eq qty "0")

unfoldable pub no_value : {A : Type 0} → Result A × Store → Result (Unit {0}) × Store
no_value (ok a, s) = (ok tt, s)
no_value (err e, s) = (err e, s)

-- The second part of VoidWasteEvent
unfoldable pub give_back :
    {F : Type 0}
    → Measures F
    → Voiding
    → Result (String × String) × Store
    → Result (Unit {0}) × Store
unfolding restores record_stock_movement no_value
give_back ms v (err e, s) = (err e, s)
give_back ms v (ok (ingredient_id, qty), s) =
    if restores ingredient_id qty
    then no_value (
        record_stock_movement ms v.move_io ingredient_id "adjustment" qty "" void_note v.mov_id
          v.waste_id v.moved_at s)
    else (ok tt, s)

-- VoidWasteEvent
unfoldable pub void_waste_event :
    {F : Type 0} → Measures F → Voiding → String → Store → Result (Unit {0}) × Store
unfolding with_tx void_body give_back
void_waste_event ms v waste_id s =
    give_back ms v (with_tx v.void_io (void_body waste_id v.voided_at) s)
