-- ===== src/Stock/Agree.antt =====
-- RecordStockMovement of offline-menuvex/internal/store/domains.go: the ingredient and the document of its movement.
use mathlib.Core.Path.{subst}
use menuvex_printer.Entity.{field_of}
use menuvex_printer.Json.{Json, decode_map, encode_map, str}
use menuvex_printer.Json.Laws.{IsUnique, decode_map-IsUnique, insert-IsUnique, lookup-decode-encode}
use menuvex_printer.Order.Create.{entity_new}
use menuvex_printer.Prelude.{
  Map, Option, String, ap, false, if_both, insert, lookup, lookup-insert, lookup-insert_self, not,
  refl, some, str_eq, string_eq, ◌&&◌, ◌∙◌, ◌≡◌,
}
use menuvex_printer.Result.{
  >>=-eq-ok, bad_row, ingredient_not_found, ok, ok_inj, or_fail, or_fail-eq-ok,
}
use menuvex_printer.Stock.{
  Measures, average_cost, cost_fields, is_positive, movement_body, movement_of, purchase_cost,
  record_waste, stock_fields, stock_movement, text_or_empty,
}
use menuvex_printer.Store.{
  PersistedDb, StoredEntity, find_entity, find_live, next_int64, put_entity, rewrite,
}
use menuvex_printer.Store.Keys.{find-put, find-put_self, find_live-find, find_live_of}
use menuvex_printer.Text.{trim_space}

-- The stock of the ingredient is the stock that the document of the movement says.
abbrev pub Agree : String → String → PersistedDb → Type 0
Agree ingredient_id mov_id st =
    (e : StoredEntity) × (m : Map String Json) × (d : StoredEntity) × (n : Map String Json)
    × (t : String) × (find_live st "ingredient" ingredient_id ≡ some e)
    × (decode_map e.payload ≡ some m)
    × (lookup "current_stock" m ≡ some (str t))
    × (find_live st "inventory_movement" mov_id ≡ some d)
    × (decode_map d.payload ≡ some n)
    × (lookup "stock_after" n ≡ some (str t))

module _ {F : Type 0} (ms : Measures F) where
  -- What holds of the fields whatever costs are set, holds when they are.
  cost_fields_keeps :
      (P : Map String Json → Type 0) (tx unit_cost : String) (delta stock : F) (payload : Json)
      (m : Map String Json)
      → ((x : Json) (n : Map String Json) → P n → P (insert "average_cost" x n))
      → ((x : Json) (n : Map String Json) → P n → P (insert "last_purchase_cost" x n))
      → P m
      → P (cost_fields ms tx unit_cost delta stock payload m)
  unfolding cost_fields average_cost purchase_cost
  cost_fields_keeps P tx unit_cost delta stock payload m average last h =
      let text = trim_space unit_cost in
      let unit = ms.base.parse text in
      let after = ms.plus stock delta in
      let averaged : P (average_cost ms unit delta stock payload m) =
        if_both P (is_positive ms stock && is_positive ms after) _ _ (average _ m h)
          (if_both P (is_positive ms after) _ _ (average _ m h) h) in
      if_both P
        (not (str_eq text "")
          && ms.parses text
          && ms.not_above ms.nil_amount unit
          && is_positive ms delta)
        _ _ (if_both P (str_eq tx "purchase") _ _ (last _ _ averaged) averaged) h

abbrev StockIs : String → Map String Json → Type 0
StockIs t m = IsUnique m × (lookup "current_stock" m ≡ some (str t))

set_stock :
    (k : String) (x : Json) (t : String) (m : Map String Json)
    → str_eq k "current_stock" ≡ false
    → StockIs t m
    → StockIs t (insert k x m)
set_stock k x t m other (u, h) =
    (insert-IsUnique k x m u, rw (lookup-insert k "current_stock" x m, other) h)

stock_fields-StockIs :
    {F : Type 0} (ms : Measures F) (tx unit_cost : String) (delta stock : F) (now : String)
    (payload : Json) (m : Map String Json)
    → IsUnique m
    → StockIs
        (ms.base.fixed (ms.plus stock delta))
        (stock_fields ms tx unit_cost delta stock now payload m)
unfolding stock_fields
stock_fields-StockIs ms tx unit_cost delta stock now payload m u =
    let t = ms.base.fixed (ms.plus stock delta) in
    set_stock "updated_at" (str now) t _ refl (
      cost_fields_keeps ms (StockIs t) tx unit_cost delta stock payload
        (insert "current_stock" (str t) m) (λ x n h. set_stock "average_cost" x t n refl h)
        (λ x n h. set_stock "last_purchase_cost" x t n refl h)
        (insert-IsUnique "current_stock" (str t) m u, lookup-insert_self "current_stock" (str t) m))

record_waste-find :
    {F : Type 0} (ms : Measures F) (tx : String) (w : Option String) (e : StoredEntity)
    (ingredient_id : String) (qty : F) (note now : String) (st : PersistedDb) (kind i : String)
    → str_eq "waste_event" kind ≡ false
    → find_entity (record_waste ms tx w e ingredient_id qty note now st) kind i
      ≡ find_entity st kind i
unfolding record_waste
record_waste-find ms tx w e ingredient_id qty note now st kind i other =
    if_both (λ x. find_entity x kind i ≡ find_entity st kind i) (str_eq tx "waste") _ _
      (rw (find-put st "waste_event" (text_or_empty w) _ kind i, other) refl) refl

-- The state that the body makes
abbrev pub moved_state :
    {F : Type 0}
    → Measures F
    → String
    → String
    → StoredEntity
    → Map String Json
    → String
    → F
    → F
    → String
    → String
    → String
    → Option String
    → F
    → PersistedDb
    → PersistedDb
moved_state ms ingredient_id mov_id e m kind delta stock unit_cost note now w qty st =
    record_waste ms kind w e ingredient_id qty note now (
      put_entity "inventory_movement" mov_id
        (entity_new "inventory_movement" mov_id
          (stock_movement ms mov_id e ingredient_id kind delta stock unit_cost note now))
        (rewrite "ingredient" ingredient_id e
          (stock_fields ms kind unit_cost delta stock now e.payload m) st))

stock_movement-IsUnique :
    {F : Type 0} (ms : Measures F) (mov_id : String) (e : StoredEntity)
    (ingredient_id kind : String) (delta stock : F) (unit_cost note now : String)
    → IsUnique (stock_movement ms mov_id e ingredient_id kind delta stock unit_cost note now)
unfolding lookup
stock_movement-IsUnique ms mov_id e ingredient_id kind delta stock unit_cost note now = (
  refl,
  (refl, (refl, (refl, (refl, (refl, (refl, (refl, (refl, (refl, (refl, (refl, tt))))))))))),
)

written :
    {F : Type 0} (ms : Measures F) (ingredient_id mov_id : String) (e : StoredEntity)
    (m : Map String Json) (kind : String) (delta stock : F) (unit_cost note now : String)
    (w : Option String) (qty : F) (st : PersistedDb)
    → e.deleted ≡ false
    → IsUnique m
    → Agree ingredient_id mov_id
        (moved_state ms ingredient_id mov_id e m kind delta stock unit_cost note now w qty st)
unfolding rewrite lookup
written ms ingredient_id mov_id e m kind delta stock unit_cost note now w qty st alive u =
    let fields = stock_fields ms kind unit_cost delta stock now e.payload m in
    let doc = stock_movement ms mov_id e ingredient_id kind delta stock unit_cost note now in
    let e' : StoredEntity = record e {
      version = next_int64 e.version;
      payload = encode_map fields;
    } in
    let d = entity_new "inventory_movement" mov_id doc in
    let st₁ = put_entity "ingredient" ingredient_id e' st in
    let st₂ = put_entity "inventory_movement" mov_id d st₁ in
    let st₃ = record_waste ms kind w e ingredient_id qty note now st₂ in
    let is_stock = stock_fields-StockIs ms kind unit_cost delta stock now e.payload m u in
    let (n, reads, same) = lookup-decode-encode "current_stock" fields is_stock.0 in
    let (q, shows, alike) =
      lookup-decode-encode "stock_after" doc
        (stock_movement-IsUnique ms mov_id e ingredient_id kind delta stock unit_cost note now) in
    (
      e',
      n,
      d,
      q,
      ms.base.fixed (ms.plus stock delta),
      find_live_of st₃ "ingredient" ingredient_id
          (record_waste-find ms kind w e ingredient_id qty note now st₂ "ingredient" ingredient_id
              refl
            ∙ rw (find-put st₁ "inventory_movement" mov_id d "ingredient" ingredient_id)
                (find-put_self st "ingredient" ingredient_id e'))
          alive,
      reads,
      same ∙ is_stock.1,
      find_live_of st₃ "inventory_movement" mov_id
          (record_waste-find ms kind w e ingredient_id qty note now st₂ "inventory_movement" mov_id
              refl
            ∙ find-put_self st₁ "inventory_movement" mov_id d)
          refl,
      shows,
      alike,
    )

-- After a movement the stock of the ingredient and the document of the movement say the same amount, waste
-- included.
pub movement_body-Agree :
    {F : Type 0} (ms : Measures F) (ingredient_id tx raw unit_cost note mov_id : String)
    (w : Option String) (now : String) (st st' : PersistedDb) (i : String)
    → movement_body ms ingredient_id tx raw unit_cost note mov_id w now st ≡ ok (st', i)
    → Agree ingredient_id mov_id st'
unfolding movement_body rewrite
movement_body-Agree ms ingredient_id tx raw unit_cost note mov_id w now st st' i h =
    let (e, found, h₁) =
      >>=-eq-ok (or_fail (find_live st "ingredient" ingredient_id) ingredient_not_found) _ h in
    let (m, decoded, h₂) = >>=-eq-ok (or_fail (decode_map e.payload) bad_row) _ h₁ in
    let qty = ms.base.parse (trim_space raw) in
    let stock = ms.base.parse (field_of e.payload "current_stock") in
    let (delta, kind) = movement_of ms tx qty stock in
    subst (Agree ingredient_id mov_id) (ap (λ t. t.0) (ok_inj h₂)) (
      written ms ingredient_id mov_id e m kind delta stock unit_cost note now w qty st
        (find_live-find st "ingredient" ingredient_id (or_fail-eq-ok _ _ found)).1
        (decode_map-IsUnique e.payload (or_fail-eq-ok _ _ decoded)))
