-- ===== src/Order/Status/Deduction.antt =====
-- The deduction of the recipes leaves the tables alone.
use menuvex_printer.Entity.{OrderLineView, field_of}
use menuvex_printer.Json.{Json, decode_map, encode_map, str}
use menuvex_printer.Order.Status.{
  Counted, Floats, RecipeLineView, deduct_all, deduct_line, deduct_product, deduct_recipe,
  recipe_lines, record_movement,
}
use menuvex_printer.Order.Update.{sprint}
use menuvex_printer.Prelude.{
  Bool, Bool-cases, Key, List, Map, Option, Option-cases, String, [], ap, eq_iff, false, if_both,
  inl, inr, insert, lookup, not, refl, str_eq, string_eq, true, ℕ, ◌&&◌, ◌∙◌, ◌∷◌, ◌≡◌, ◌≢◌,
}
use menuvex_printer.Prelude.Int.{ℤ}
use menuvex_printer.Store.{
  PersistedDb, StoredEntity, entity_key, find_entity, find_live, next_int64, rewrite,
}
use menuvex_printer.Store.Keys.{find-put_ne}

pub kinds_apart : (a b i j : String) → str_eq a b ≡ false → entity_key a i ≢ entity_key b j
kinds_apart a b i j h e =
    let same : str_eq a b ≡ true = (eq_iff a b).1 (ap (λ (k : Key). k.kind) e) in clash h same
  where
    clash : {x : Bool} → x ≡ false → x ≡ true → ⊥
    clash p q = cc

module _ {F : Type 0} (fl : Floats F) (fresh : ℕ → Option String)
    (order_id number now t : String) where
  record_movement-table :
      (ingredient : StoredEntity) (m : Map String Json) (ingredient_id : String) (deduct stock : F)
      (n : ℕ) (st : PersistedDb)
      → find_entity
          (record_movement fl fresh order_id number now ingredient m ingredient_id deduct stock
            (n, st)).1
          "table"
          t
        ≡ find_entity st "table" t
  unfolding record_movement
  record_movement-table ingredient m ingredient_id deduct stock n st =
      elim (Option-cases (fresh n)) [
        | inl failed_id ↦ rw (failed_id, record_movement) refl
        | inr (mov_id, made) ↦
            rw (made, record_movement)
              (elim (Bool-cases (fl.is_nil deduct)) [
                | inl none_left ↦ rw (none_left) refl
                | inr any ↦ rw (any) (
                    find-put_ne st "inventory_movement" mov_id _ "table" t
                      (kinds_apart "inventory_movement" "table" mov_id t refl))
              ])
      ]

  deduct_line-table :
      (quantity : ℤ) (rl : RecipeLineView) (n : ℕ) (st : PersistedDb)
      → find_entity (deduct_line fl fresh order_id number now quantity rl (n, st)).1 "table" t
        ≡ find_entity st "table" t
  unfolding deduct_line rewrite
  deduct_line-table quantity rl n st =
      elim (Option-cases (find_live st "ingredient" rl.ingredient_id)) [
        | inl missing ↦ rw (missing, deduct_line) refl
        | inr (e, found) ↦
            rw (found, deduct_line)
              (elim (Option-cases (decode_map e.payload)) [
                | inl bad ↦ rw (bad) refl
                | inr (m, object) ↦ rw (object) (
                    let deduct = fl.times (fl.parse rl.quantity) quantity in
                    let stock = fl.minus (fl.parse (sprint (lookup "current_stock" m))) deduct in
                    let m' = insert "current_stock" (str (fl.fixed stock)) m in
                    record_movement-table e m' rl.ingredient_id deduct stock n
                      (rewrite "ingredient" rl.ingredient_id e m' st)
                    ∙ find-put_ne st "ingredient" rl.ingredient_id
                        (record e { version = next_int64 e.version; payload = encode_map m' })
                        "table" t (kinds_apart "ingredient" "table" rl.ingredient_id t refl))
              ])
      ]

  deduct_recipe-table :
      (quantity : ℤ) (rls : List RecipeLineView) (c : Counted)
      → find_entity (deduct_recipe fl fresh order_id number now quantity rls c).1 "table" t
        ≡ find_entity c.1 "table" t
  unfolding deduct_recipe
  deduct_recipe-table quantity [] c = refl
  deduct_recipe-table quantity (rl ∷ rls) c =
      deduct_recipe-table quantity rls (deduct_line fl fresh order_id number now quantity rl c)
      ∙ deduct_line-table quantity rl c.0 c.1

  deduct_product-table :
      (line : OrderLineView) (m : Map Key StoredEntity) (c : Counted)
      → find_entity (deduct_product fl fresh order_id number now line m c).1 "table" t
        ≡ find_entity c.1 "table" t
  unfolding deduct_product
  deduct_product-table line [] c = refl
  deduct_product-table line ((k, e) ∷ m) c =
      deduct_product-table line m _
      ∙ if_both (λ (d : Counted). find_entity d.1 "table" t ≡ find_entity c.1 "table" t)
          (not e.deleted
            && str_eq e.kind "recipe"
            && str_eq (field_of e.payload "product_id") line.product_id)
          (deduct_recipe fl fresh order_id number now line.quantity (recipe_lines e.payload) c) c
          (deduct_recipe-table line.quantity (recipe_lines e.payload) c) refl

  pub deduct_all-table :
      (ls : List OrderLineView) (c : Counted)
      → find_entity (deduct_all fl fresh order_id number now ls c).1 "table" t
        ≡ find_entity c.1 "table" t
  unfolding deduct_all
  deduct_all-table [] c = refl
  deduct_all-table (l ∷ ls) c =
      deduct_all-table ls (deduct_product fl fresh order_id number now l c.1.entities c)
      ∙ deduct_product-table l c.1.entities c
