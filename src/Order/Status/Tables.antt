-- ===== src/Order/Status/Tables.antt =====
-- The table of an order that ends: it is free afterwards, whatever the recipes deduct.
use mathlib.Core.Path.{subst}
use menuvex_printer.Entity.{field_of, field_text, label_text, order_items}
use menuvex_printer.Entity.Laws.{field_of-encode}
use menuvex_printer.Json.{Json, decode_map, encode_map, str}
use menuvex_printer.Json.Laws.{IsUnique, decode_map-IsUnique, insert-IsUnique}
use menuvex_printer.Order.{free_table, order_table}
use menuvex_printer.Order.Status.{
  Floats, is_valid_transition, refused, side_effects, status_body, status_fields,
}
use menuvex_printer.Order.Status.Deduction.{deduct_all-table, kinds_apart}
use menuvex_printer.Order.Status.Machine.{status_text, status_text_of}
use menuvex_printer.Prelude.{
  Bool, Bool-cases, Map, Option, String, [], ap, arith, eq_iff, false, inl, inr, insert, lookup,
  lookup-without, map_laws, not, refl, some, str_eq, string_eq, sym, true, without, ℕ, ◌∙◌, ◌∷◌,
  ◌≡◌, ◌⊎◌,
}
use menuvex_printer.Result.{
  >>=-eq-ok, bad_row, ok, or_fail, or_fail-eq-ok, order_not_found, refuse_if-eq-ok,
}
use menuvex_printer.Store.{
  PersistedDb, StoredEntity, find_entity, find_live, next_int64, put_entity, rewrite,
}
use menuvex_printer.Store.Keys.{find-put_ne, find-put_self, find_live-find, find_live_of}
use menuvex_printer.Text.{equal_fold, to_lower}

without-IsUnique : (k : String) (m : Map String Json) → IsUnique m → IsUnique (without k m)
unfolding without lookup
without-IsUnique k [] u = tt
without-IsUnique k ((j, w) ∷ m) u =
    ground (arith, without-IsUnique k m u.1, lookup-without k j m, eq_iff j k, eq_iff k j)

-- The payload of a table that is free.
abbrev pub IsFree : Json → Type 0
IsFree payload =
    (field_of payload "status" ≡ "available") × (field_of payload "current_order_id" ≡ "")

freed-IsFree :
    (m : Map String Json)
    → IsUnique m
    → IsFree (encode_map (without "current_order_id" (insert "status" (str "available") m)))
unfolding field_text
freed-IsFree m u =
    let occupied = insert "status" (str "available") m in
    let unique : IsUnique (without "current_order_id" occupied) =
      without-IsUnique "current_order_id" occupied
        (insert-IsUnique "status" (str "available") m u) in
    (
      field_of-encode (without "current_order_id" occupied) "status" unique ∙ simp map_laws,
      field_of-encode (without "current_order_id" occupied) "current_order_id" unique
          ∙ simp map_laws,
    )

free_table-IsFree :
    (t : String) (st : PersistedDb) (e : StoredEntity) (m : Map String Json)
    → str_eq t "" ≡ false
    → find_live st "table" t ≡ some e
    → decode_map e.payload ≡ some m
    → (e' : StoredEntity) × (find_entity (free_table t st) "table" t ≡ some e')
      × (e'.deleted ≡ false)
      × IsFree e'.payload
unfolding free_table order_table rewrite
free_table-IsFree t st e m named live object =
    let freed = without "current_order_id" (insert "status" (str "available") m) in
    let e' : StoredEntity = record e {
      version = next_int64 e.version;
      payload = encode_map freed;
    } in
    (
      e',
      rw (named, live, object, free_table, order_table) (find-put_self st "table" t e'),
      (find_live-find st "table" t live).1,
      freed-IsFree m (decode_map-IsUnique e.payload object),
    )

module _ {F : Type 0} (fl : Floats F) (fresh : ℕ → Option String)
    (order_id number now : String) where
  side_effects-table :
      (prev new : String) (payload : Json) (st : PersistedDb)
      → (new ≡ "completed") ⊎ (new ≡ "cancelled")
      → str_eq prev "completed" ≡ false ⊎ (new ≡ "cancelled")
      → let t = field_of payload "table_id" in
        find_entity (side_effects fl fresh order_id number now prev new payload st) "table" t
        ≡ find_entity (free_table t st) "table" t
  unfolding side_effects
  side_effects-table prev new payload st (inl c) (inl p) =
      rw (c, p, side_effects)
        (deduct_all-table fl fresh order_id number now (field_of payload "table_id")
          (order_items payload) (0, free_table (field_of payload "table_id") st))
  side_effects-table prev new payload st (inr c) d = rw (c, side_effects) refl
  side_effects-table prev new payload st (inl c) (inr d) = rw (d, side_effects) refl

not_completed :
    (prev new : String)
    → (new ≡ "completed") ⊎ (new ≡ "cancelled")
    → equal_fold prev new ≡ false
    → str_eq prev "completed" ≡ false ⊎ (new ≡ "cancelled")
unfolding equal_fold
not_completed prev new (inr c) d = inr c
not_completed prev new (inl c) d = elim (Bool-cases (str_eq prev "completed")) [
  | inr other ↦ inl other
  | inl same ↦
      let equal : prev ≡ new = (eq_iff prev "completed").0 same ∙ sym c in
      let folded : str_eq (to_lower prev) (to_lower new) ≡ true =
        (eq_iff (to_lower prev) (to_lower new)).1 (ap to_lower equal) in
      absurd (clash d folded)
]
  where
    clash : {x : Bool} → x ≡ false → x ≡ true → ⊥
    clash p q = cc

-- The order changes its status, and its table is there.
abbrev pub HasTable : String → PersistedDb → StoredEntity → Type 0
HasTable new st order =
    (equal_fold (status_text order.payload) new ≡ false)
    × (str_eq (field_of order.payload "table_id") "" ≡ false)
    × ((table : StoredEntity) × (m : Map String Json) × (find_live st "table"
            (field_of order.payload "table_id")
          ≡ some table)
        × (decode_map table.payload ≡ some m))

abbrev pub TableFree : PersistedDb → StoredEntity → Type 0
TableFree st order =
    (table : StoredEntity) × (find_live st "table" (field_of order.payload "table_id") ≡ some table)
    × IsFree table.payload

module _ {F : Type 0} (fl : Floats F) (fresh : ℕ → Option String)
    (order_id number now : String) where
  ended :
      (prev new : String) (e : StoredEntity) (fields : Map String Json) (st : PersistedDb)
      → (new ≡ "completed") ⊎ (new ≡ "cancelled")
      → equal_fold prev new ≡ false
      → HasTable new st e
      → TableFree
          (rewrite "order" order_id e fields
            (side_effects fl fresh order_id number now prev new e.payload st))
          e
  unfolding rewrite
  ended prev new e fields st ends other (changes, named, (table, m, live, object)) =
      let t = field_of e.payload "table_id" in
      let effects = side_effects fl fresh order_id number now prev new e.payload st in
      let e' : StoredEntity = record e {
        version = next_int64 e.version;
        payload = encode_map fields;
      } in
      let (freed, found, alive, free) = free_table-IsFree t st table m named live object in
      (
        freed,
        find_live_of (put_entity "order" order_id e' effects) "table" t
            (find-put_ne effects "order" order_id e' "table" t
                (kinds_apart "order" "table" order_id t refl)
              ∙ side_effects-table fl fresh order_id number now prev new e.payload st ends
                  (not_completed prev new ends other)
              ∙ found)
            alive,
        free,
      )

-- An order that is completed or cancelled, and was not before, leaves its table available and with no
-- current order, whatever is deducted from the stock.
pub status_body-TableFree :
    {F : Type 0} (fl : Floats F) (fresh : ℕ → Option String) (order_id new reason now : String)
    (st st' : PersistedDb) (order : StoredEntity)
    → find_live st "order" order_id ≡ some order
    → (new ≡ "completed") ⊎ (new ≡ "cancelled")
    → HasTable new st order
    → status_body fl fresh order_id new reason now st ≡ ok (st', tt)
    → TableFree st' order
unfolding status_body
status_body-TableFree fl fresh order_id new reason now st st' order live ends has h =
    let (e, found, h₁) = >>=-eq-ok (or_fail (find_live st "order" order_id) order_not_found) _ h in
    let (m, decoded, h₂) = >>=-eq-ok (or_fail (decode_map e.payload) bad_row) _ h₁ in
    let prev = label_text (lookup "status" m) in
    let (allowed, h₃) = refuse_if-eq-ok (not (is_valid_transition prev new)) (refused prev) _ h₂ in
    let same : e ≡ order = same_order e (or_fail-eq-ok _ _ found) in
    let has_e : HasTable new st e = subst (HasTable new st) (sym same) has in
    let other : equal_fold prev new ≡ false =
      subst (λ p. equal_fold p new ≡ false) (status_text_of e.payload m (or_fail-eq-ok _ _ decoded))
        has_e.0 in
    let number = field_of e.payload "order_number" in
    let is_it : rewrite "order" order_id e (status_fields new reason now m)
          (side_effects fl fresh order_id number now prev new e.payload st)
        ≡ st' =
      ground (arith, other, h₃) in
    subst (TableFree st') same (
      subst (λ x. TableFree x e) is_it
        (ended fl fresh order_id number now prev new e (status_fields new reason now m) st ends
          other has_e))
  where
    same_order : (e : StoredEntity) → find_live st "order" order_id ≡ some e → e ≡ order
    same_order e f = cc
