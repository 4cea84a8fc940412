-- ===== src/Tests/Shelf.antt =====
-- Inputs for the stock and the waste.
use menuvex_printer.Json.{str}
use menuvex_printer.Prelude.{[], false, not, refl, some, str_eq, ◌∷◌, ◌≡◌}
use menuvex_printer.Prelude.Int.{ltb_ℤ, negsuc, pos, ℤ, ◌*ℤ◌, ◌+ℤ◌, ◌-ℤ◌}
use menuvex_printer.Result.{err, ingredient_not_found, waste_voided}
use menuvex_printer.Stock.{Measures, movement_body}
use menuvex_printer.Stock.Agree.{Agree, moved_state, movement_body-Agree}
use menuvex_printer.Stock.Void.{IsVoided, void_waste_event-half, void_waste_event-once}
use menuvex_printer.Stock.Waste.{Voiding, void_waste_event}
use menuvex_printer.Store.{
  PersistedDb, Store, StoredEntity, all_well, entity_key, new_empty_db, whole,
}
use menuvex_printer.Tests.Orders.{row, whole_floats}
use menuvex_printer.Text.{before_dot}
use menuvex_printer.Text.Decimal.{parse_big_int_safe}

-- Integers do for a test.
abbrev whole_measures : Measures ℤ
whole_measures = record {
  base = whole_floats;
  parses = λ s. not (str_eq s "");
  nil_amount = pos 0;
  plus = ◌+ℤ◌;
  multiply = ◌*ℤ◌;
  divide = λ a b. a;
  less = ltb_ℤ;
  not_above = λ a b. not (ltb_ℤ b a);
}

abbrev milk : StoredEntity
milk = row "ingredient" "i1" (("current_stock", str "10") ∷ [])

abbrev spilt : StoredEntity
spilt = row "waste_event" "w1" (("ingredient_id", str "i1") ∷ ("quantity", str "3") ∷ [])

abbrev shelf : PersistedDb
shelf = record new_empty_db {
  entities = (entity_key "ingredient" "i1", milk) ∷ (entity_key "waste_event" "w1", spilt) ∷ [];
}

abbrev shelf_store : Store
shelf_store = record { closed = false; state = shelf; file = whole shelf }

abbrev bare_shelf : PersistedDb
bare_shelf = record new_empty_db { entities = (entity_key "waste_event" "w1", spilt) ∷ [] }

abbrev bare_store : Store
bare_store = record { closed = false; state = bare_shelf; file = whole bare_shelf }

abbrev voiding : Voiding
voiding = record {
  void_io = all_well;
  move_io = all_well;
  voided_at = "t1";
  moved_at = "t2";
  mov_id = some "m1";
  waste_id = some "w2";
}

void_waste_event-once_example :
    void_waste_event whole_measures voiding "w1"
      (void_waste_event whole_measures voiding "w1" shelf_store).1
    ≡ (err waste_voided, (void_waste_event whole_measures voiding "w1" shelf_store).1)
unfolding void_waste_event parse_big_int_safe before_dot
void_waste_event-once_example =
    void_waste_event-once whole_measures voiding voiding "w1" shelf_store ("i1", "3") refl refl refl

-- The ingredient is gone.
void_waste_event-half_example :
    ((void_waste_event whole_measures voiding "w1" bare_store).0 ≡ err ingredient_not_found)
    × IsVoided "w1" (void_waste_event whole_measures voiding "w1" bare_store).1.state
unfolding void_waste_event parse_big_int_safe before_dot
void_waste_event-half_example =
    void_waste_event-half whole_measures voiding "w1" "i1" "3" bare_store ingredient_not_found refl
      refl refl

movement_body-Agree_example : Agree "i1" "m1" (
    moved_state whole_measures "i1" "m1" milk
      (("current_stock", str "10") ∷ [])
      "waste"
      (negsuc 1)
      (pos 10)
      ""
      "spilt::in the bar"
      "now"
      (some "w2")
      (pos 2)
      shelf)
unfolding movement_body parse_big_int_safe before_dot ◌-ℤ◌
movement_body-Agree_example =
    movement_body-Agree whole_measures "i1" "waste" "2" "" "spilt::in the bar" "m1" (some "w2")
      "now" shelf _ "m1" refl
