-- ===== src/Order/Create/Once.antt =====
-- CreatePOSOrder is safe to repeat: a token makes one order.
use mathlib.Core.Path.{subst}
use menuvex_printer.Entity.{field_of, field_text}
use menuvex_printer.Entity.Laws.{field_of-encode}
use menuvex_printer.Json.{encode_map}
use menuvex_printer.Json.Laws.{IsUnique}
use menuvex_printer.Order.{OrderLine, build_lines}
use menuvex_printer.Order.Create.{
  PosOrderInput, Sums, count_orders, create_body, create_pos_order, entity_new, find_by_token,
  guest_name, new_order, occupy, open_debt, or_text, order_fields, place_order, sums_of,
  token_match, visit,
}
use menuvex_printer.Prelude.{
  Bool, Bool-cases, Key, List, Map, Option-cases, String, [], ap, arith, eq_iff, false, inl, inr,
  key_eq, length, lookup, none, not, refl, some, str_eq, string_eq, true, ℕ, ◌&&◌, ◌+◌, ◌==◌, ◌∙◌,
  ◌∷◌, ◌≡◌,
}
use menuvex_printer.Prelude.Int.{pos}
use menuvex_printer.Result.{>>=-eq-ok, no_items, no_valid_line, ok, refuse_if, refuse_if-eq-ok}
use menuvex_printer.Store.{
  Io, PersistedDb, Store, StoredEntity, after_check, commit, entity_key, find_entity, put_entity,
  with_tx,
}
use menuvex_printer.Store.Atomic.{after_check_ok}
use menuvex_printer.Store.Keys.{find-put_self}
use menuvex_printer.Text.{trim_space}
use menuvex_printer.Text.Decimal.{format_int, parse_big_int_safe}

abbrev carries : String → StoredEntity → Bool
carries token x =
    not x.deleted && str_eq x.kind "order" && str_eq (field_of x.payload "client_token") token

carries_of :
    (token : String) (e : StoredEntity)
    → e.deleted ≡ false
    → e.kind ≡ "order"
    → field_of e.payload "client_token" ≡ token
    → carries token e ≡ true
carries_of token e d o t =
    ground (arith, eq_iff e.kind "order", eq_iff (field_of e.payload "client_token") token)

step :
    (token : String) (j : Key) (x : StoredEntity) (m : Map Key StoredEntity) (i : String)
    → carries token x ≡ false
    → find_by_token token m ≡ some i
    → (i : String) × (find_by_token token ((j, x) ∷ m) ≡ some i)
unfolding find_by_token
step token j x m i other found = (i, rw (other) found)

find_by_token_found :
    (token : String) (m : Map Key StoredEntity) (k : Key) (e : StoredEntity)
    → lookup k m ≡ some e
    → carries token e ≡ true
    → (i : String) × (find_by_token token m ≡ some i)
unfolding lookup
find_by_token_found token [] k e h c = absurd (none_some h)
  where
    none_some : none ≡ some e → ⊥
    none_some p = cc
find_by_token_found token ((j, x) ∷ m) k e h c = elim (Bool-cases (carries token x)) [
  | inl this ↦ (x.id, unfold find_by_token in rw (this) refl)
  | inr other ↦
      let later : lookup k m ≡ some e = elim (Bool-cases (key_eq.beq j k)) [
        | inl same ↦ absurd (clash (ground (arith, same)) other)
        | inr differ ↦ ground (arith, differ)
      ] in
      let (i, found) = find_by_token_found token m k e later c in step token j x m i other found
]
  where
    clash : x ≡ e → carries token x ≡ false → ⊥
    clash p q = let r : carries token x ≡ true = ap (carries token) p ∙ c in ground (arith, r, q)

order_fields-IsUnique :
    (req : PosOrderInput) (ls : List OrderLine) (sums : Sums)
    (order_id number table_label name phone payment now : String)
    → IsUnique (order_fields req ls sums order_id number table_label name phone payment now)
unfolding lookup
order_fields-IsUnique req ls sums order_id number table_label name phone payment now = (
  refl,
  (
    refl,
    (
      refl,
      (
        refl,
        (
          refl,
          (
            refl,
            (
              refl,
              (
                refl,
                (
                  refl,
                  (
                    refl,
                    (
                      refl,
                      (
                        refl,
                        (
                          refl,
                          (
                            refl,
                            (refl, (refl, (refl, (refl, (refl, (refl, (refl, (refl, tt)))))))),
                          ),
                        ),
                      ),
                    ),
                  ),
                ),
              ),
            ),
          ),
        ),
      ),
    ),
  ),
)

order_fields-token :
    (req : PosOrderInput) (ls : List OrderLine) (sums : Sums)
    (order_id number table_label name phone payment now : String)
    → field_of
        (encode_map (order_fields req ls sums order_id number table_label name phone payment now))
        "client_token"
      ≡ trim_space req.client_token
unfolding lookup field_text
order_fields-token req ls sums order_id number table_label name phone payment now =
    field_of-encode (order_fields req ls sums order_id number table_label name phone payment now)
      "client_token"
      (order_fields-IsUnique req ls sums order_id number table_label name phone payment now)

put_carries :
    (req : PosOrderInput) (ls : List OrderLine) (sums : Sums)
    (order_id number table_label name phone payment now : String) (st : PersistedDb)
    → let order =
        entity_new "order" order_id
          (order_fields req ls sums order_id number table_label name phone payment now) in
      (e : StoredEntity) × (find_entity (put_entity "order" order_id order st) "order" order_id
        ≡ some e)
      × (carries (trim_space req.client_token) e ≡ true)
put_carries req ls sums order_id number table_label name phone payment now st =
    let order =
      entity_new "order" order_id
        (order_fields req ls sums order_id number table_label name phone payment now) in
    (
      order,
      find-put_self st "order" order_id order,
      carries_of (trim_space req.client_token) order refl refl
          (order_fields-token req ls sums order_id number table_label name phone payment now),
    )

place_order-carries :
    (req : PosOrderInput) (ls : List OrderLine) (sums : Sums) (is_today : String → Bool)
    (order_id debt_id now : String) (st : PersistedDb)
    → (e : StoredEntity) × (find_entity
          (place_order req ls sums is_today order_id debt_id now st)
          "order"
          order_id
        ≡ some e)
      × (carries (trim_space req.client_token) e ≡ true)
unfolding place_order
place_order-carries req ls sums is_today order_id debt_id now st =
    let number = format_int (pos (100 + count_orders is_today st.entities)) in
    let payment = or_text (trim_space req.payment_method) "card_pos" in
    let (table_label, st₁) = occupy req.table_id order_id st in
    let (given, phone, st₂) = visit req sums.total st₁ in
    let name = or_text given guest_name in
    let st₃ = open_debt req payment debt_id order_id number name phone sums.total now st₂ in
    put_carries req ls sums order_id number table_label name phone payment now st₃

found_in :
    (token i : String) (st : PersistedDb) (e : StoredEntity)
    → find_entity st "order" i ≡ some e
    → carries token e ≡ true
    → (j : String) × (find_by_token token st.entities ≡ some j)
unfolding find_entity
found_in token i st e h c = find_by_token_found token st.entities (entity_key "order" i) e h c

new_order-token :
    (req : PosOrderInput) (is_today : String → Bool) (order_id debt_id : String) (ids : ℕ → String)
    (now : String) (st st' : PersistedDb) (i : String)
    → new_order req is_today order_id debt_id ids now st ≡ ok (st', i)
    → str_eq (trim_space req.client_token) "" ≡ false
    → (j : String) × (token_match (trim_space req.client_token) st' ≡ some j)
unfolding new_order token_match
new_order-token req is_today order_id debt_id ids now st st' i h full =
    let (ls, built, h₁) = >>=-eq-ok (build_lines st ids 0 req.items) _ h in
    let (some_line, h₂) = refuse_if-eq-ok (length ls == 0) no_valid_line _ h₁ in
    let sums =
      sums_of ls (parse_big_int_safe req.discount_irr) (parse_big_int_safe req.extra_irr) in
    let same : place_order req ls sums is_today order_id debt_id now st ≡ st' = cc in
    let (e, stored, has) = place_order-carries req ls sums is_today order_id debt_id now st in
    let (j, found) =
      found_in (trim_space req.client_token) order_id
        (place_order req ls sums is_today order_id debt_id now st) e stored has in
    let there : find_by_token (trim_space req.client_token) st'.entities ≡ some j =
      subst (λ t. find_by_token (trim_space req.client_token) t.entities ≡ some j) same found in
    (j, rw (full) there)

create_body-token :
    (req : PosOrderInput) (is_today : String → Bool) (order_id debt_id : String) (ids : ℕ → String)
    (now : String) (st st' : PersistedDb) (i : String)
    → create_body req is_today order_id debt_id ids now st ≡ ok (st', i)
    → str_eq (trim_space req.client_token) "" ≡ false
    → (j : String) × (token_match (trim_space req.client_token) st' ≡ some j)
unfolding create_body
create_body-token req is_today order_id debt_id ids now st st' i h full =
    elim (Option-cases (token_match (trim_space req.client_token) st)) [
      | inr (j, known) ↦ (j, ground (arith, known, h))
      | inl fresh ↦
          let h₁ : new_order req is_today order_id debt_id ids now st ≡ ok (st', i) =
            ground (arith, fresh, h) in
          new_order-token req is_today order_id debt_id ids now st st' i h₁ full
    ]

again :
    (io : Io) (req : PosOrderInput) (is_today : String → Bool) (order_id debt_id : String)
    (ids : ℕ → String) (now : String) (s : Store) (j : String)
    → token_match (trim_space req.client_token) s.state ≡ some j
    → (create_pos_order io req is_today order_id debt_id ids now s).1.state ≡ s.state
unfolding create_pos_order create_body after_check with_tx commit
again io req is_today order_id debt_id ids now s j h = ground (arith, h)

-- Once an order with a token is stored, sending a form with that token again changes nothing, whatever
-- else the form says.
pub create_pos_order_again :
    (io io' : Io) (req req' : PosOrderInput) (is_today is_today' : String → Bool)
    (order_id debt_id order_id' debt_id' : String) (ids ids' : ℕ → String) (now now' : String)
    (s : Store) (i : String)
    → str_eq (trim_space req.client_token) "" ≡ false
    → trim_space req'.client_token ≡ trim_space req.client_token
    → (create_pos_order io req is_today order_id debt_id ids now s).0 ≡ ok i
    → let first = (create_pos_order io req is_today order_id debt_id ids now s).1 in
      (create_pos_order io' req' is_today' order_id' debt_id' ids' now' first).1.state ≡ first.state
unfolding create_pos_order
create_pos_order_again io io' req req' is_today is_today' order_id debt_id order_id' debt_id' ids
      ids' now now' s i full same h =
    let (some_item, done, written) =
      after_check_ok (refuse_if (length req.items == 0) no_items) io
        (create_body req is_today order_id debt_id ids now) s h in
    let (j, known) =
      create_body-token req is_today order_id debt_id ids now s.state _ i done full in
    again io' req' is_today' order_id' debt_id' ids' now' _ j (rw (same) known)
