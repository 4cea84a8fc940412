-- ===== src/Stock/Void.antt =====
-- VoidWasteEvent of offline-menuvex/internal/store/domains.go: waste is voided once.
use mathlib.Core.Path.{subst}
use menuvex_printer.Entity.{label_text}
use menuvex_printer.Json.{Json, decode_map, encode_map, str}
use menuvex_printer.Json.Laws.{IsUnique, decode_map-IsUnique, insert-IsUnique, lookup-decode-encode}
use menuvex_printer.Order.Status.{refused}
use menuvex_printer.Prelude.{
  Map, Option, String, ap, false, if_both, insert, lookup, map_laws, refl, some, str_eq, string_eq,
  true, ◌∙◌, ◌≡◌,
}
use menuvex_printer.Result.{
  >>=-eq-ok, Error, Result, bad_row, err, ingredient_not_found, ok, ok_inj, or_fail, or_fail-eq-ok,
  random_failed, refuse_if-eq-ok, waste_not_found, waste_voided, ◌>>=◌, ◌>>◌,
}
use menuvex_printer.Stock.{
  Measures, movement_body, movement_of, quantity_ok, record_stock_movement, record_waste,
  text_or_empty,
}
use menuvex_printer.Stock.Waste.{
  Voiding, give_back, no_value, restores, string_at, void_body, void_note, void_waste_event,
}
use menuvex_printer.Store.{
  PersistedDb, Store, StoredEntity, find_live, next_int64, put_entity, rewrite, with_tx,
}
use menuvex_printer.Store.Atomic.{after_check_keeps, with_tx_ok, with_tx_refused}
use menuvex_printer.Store.Keys.{
  find-put, find-put_self, find_live-find, find_live_of, find_live_same,
}

abbrev pub IsVoided : String → PersistedDb → Type 0
IsVoided waste_id st =
    (e : StoredEntity) × (m : Map String Json) × (find_live st "waste_event" waste_id ≡ some e)
    × (decode_map e.payload ≡ some m)
    × (string_at "status" m ≡ "voided")

string_at_of :
    (k : String) (m : Map String Json) (x : String) → lookup k m ≡ some (str x) → string_at k m ≡ x
unfolding string_at label_text
string_at_of k m x h = rw (h) refl

voided_status :
    (now : String) (m : Map String Json)
    → lookup "status" (insert "voided_at" (str now) (insert "status" (str "voided") m))
      ≡ some (str "voided")
voided_status now m = simp map_laws

void_body-IsVoided :
    (waste_id now : String) (st st' : PersistedDb) (r : String × String)
    → void_body waste_id now st ≡ ok (st', r)
    → IsVoided waste_id st'
unfolding void_body rewrite
void_body-IsVoided waste_id now st st' r h =
    let (e, found, h₁) =
      >>=-eq-ok (or_fail (find_live st "waste_event" waste_id) waste_not_found) _ h in
    let (m, decoded, h₂) = >>=-eq-ok (or_fail (decode_map e.payload) bad_row) _ h₁ in
    let (fresh, h₃) = refuse_if-eq-ok (str_eq (string_at "status" m) "voided") waste_voided _ h₂ in
    let voided = insert "voided_at" (str now) (insert "status" (str "voided") m) in
    let e' : StoredEntity = record e {
      version = next_int64 e.version;
      payload = encode_map voided;
    } in
    let live : find_live st "waste_event" waste_id ≡ some e = or_fail-eq-ok _ _ found in
    let u : IsUnique voided =
      insert-IsUnique "voided_at" _ _ (
        insert-IsUnique "status" _ m (decode_map-IsUnique e.payload (or_fail-eq-ok _ _ decoded))) in
    let (n, reads, same) = lookup-decode-encode "status" voided u in
    let is_st : put_entity "waste_event" waste_id e' st ≡ st' = ap (λ t. t.0) (ok_inj h₃) in
    subst (IsVoided waste_id) is_st (
      e',
      n,
      find_live_of (put_entity "waste_event" waste_id e' st) "waste_event" waste_id
          (find-put_self st "waste_event" waste_id e')
          (find_live-find st "waste_event" waste_id live).1,
      reads,
      string_at_of "status" n "voided" (same ∙ voided_status now m),
    )

-- A state in which the waste is voided refuses it.
void_body-refused :
    (waste_id now : String) (st : PersistedDb)
    → IsVoided waste_id st
    → void_body waste_id now st ≡ err waste_voided
unfolding void_body
void_body-refused waste_id now st (e, m, live, object, voided) = rw (live, object, voided) refl

two_puts :
    (mov_id ingredient_id waste_id : String) (a b : StoredEntity) (st : PersistedDb)
    → find_live
        (put_entity "inventory_movement" mov_id a (put_entity "ingredient" ingredient_id b st))
        "waste_event"
        waste_id
      ≡ find_live st "waste_event" waste_id
two_puts mov_id ingredient_id waste_id a b st =
    let st' = put_entity "ingredient" ingredient_id b st in
    find_live_same (put_entity "inventory_movement" mov_id a st') st "waste_event" waste_id (
      rw (find-put st' "inventory_movement" mov_id a "waste_event" waste_id)
        (rw (find-put st "ingredient" ingredient_id b "waste_event" waste_id) refl))

-- The movement that gives the stock back touches no waste.
movement_keeps :
    {F : Type 0} (ms : Measures F) (ingredient_id raw unit_cost note mov_id : String)
    (w : Option String) (now waste_id : String) (st st' : PersistedDb) (i : String)
    → movement_body ms ingredient_id "adjustment" raw unit_cost note mov_id w now st ≡ ok (st', i)
    → find_live st' "waste_event" waste_id ≡ find_live st "waste_event" waste_id
unfolding movement_body rewrite record_waste movement_of
movement_keeps ms ingredient_id raw unit_cost note mov_id w now waste_id st st' i h =
    let (e, found, h₁) =
      >>=-eq-ok (or_fail (find_live st "ingredient" ingredient_id) ingredient_not_found) _ h in
    let (m, decoded, h₂) = >>=-eq-ok (or_fail (decode_map e.payload) bad_row) _ h₁ in
    subst (λ x. find_live x "waste_event" waste_id ≡ find_live st "waste_event" waste_id)
      (ap (λ t. t.0) (ok_inj h₂)) (two_puts mov_id ingredient_id waste_id _ _ st)

give_back-IsVoided :
    {F : Type 0} (ms : Measures F) (v : Voiding) (waste_id : String) (r : Result (String × String))
    (s : Store)
    → IsVoided waste_id s.state
    → IsVoided waste_id (give_back ms v (r, s)).1.state
unfolding give_back no_value record_stock_movement
give_back-IsVoided ms v waste_id (err e) s h = h
give_back-IsVoided ms v waste_id (ok (ingredient_id, qty)) s h =
    if_both (λ (x : Result (Unit {0}) × Store). IsVoided waste_id x.1.state)
      (restores ingredient_id qty) _ _
      (moved
        (record_stock_movement ms v.move_io ingredient_id "adjustment" qty "" void_note v.mov_id
          v.waste_id v.moved_at s)
        kept)
      h
  where
    still :
        (tx : PersistedDb)
        → find_live tx "waste_event" waste_id ≡ find_live s.state "waste_event" waste_id
        → IsVoided waste_id tx
    still tx same = let (e, m, live, object, voided) = h in (e, m, same ∙ live, object, voided)

    kept :
        IsVoided waste_id
          (record_stock_movement ms v.move_io ingredient_id "adjustment" qty "" void_note v.mov_id
            v.waste_id v.moved_at s).1.state
    kept =
        after_check_keeps (IsVoided waste_id)
          (quantity_ok ms qty >> or_fail v.mov_id random_failed >>= λ i. ok tt) v.move_io
          (movement_body ms ingredient_id "adjustment" qty "" void_note (text_or_empty v.mov_id)
            v.waste_id v.moved_at)
          s
          (λ tx i run. still tx (
            movement_keeps ms ingredient_id qty "" void_note (text_or_empty v.mov_id) v.waste_id
              v.moved_at waste_id s.state tx i run))
          h

    moved :
        (x : Result String × Store)
        → IsVoided waste_id x.1.state
        → IsVoided waste_id (no_value x).1.state
    moved (ok a, t) k = k
    moved (err e, t) k = k

void_refused :
    {F : Type 0} (ms : Measures F) (w : Voiding) (waste_id : String) (s : Store)
    → s.closed ≡ false
    → w.void_io.cancelled ≡ false
    → IsVoided waste_id s.state
    → void_waste_event ms w waste_id s ≡ (err waste_voided, s)
unfolding void_waste_event give_back
void_refused ms w waste_id s alive going voided = ap (give_back ms w) (
    with_tx_refused w.void_io (void_body waste_id w.voided_at) s going alive
      (void_body-refused waste_id w.voided_at s.state voided))

-- Waste whose first transaction went through is voided for good: whatever becomes of the movement that gives its
-- stock back, a failed one included, voiding it again is refused and changes nothing.
pub void_waste_event-once :
    {F : Type 0} (ms : Measures F) (v w : Voiding) (waste_id : String) (s : Store)
    (r : String × String)
    → (with_tx v.void_io (void_body waste_id v.voided_at) s).0 ≡ ok r
    → (void_waste_event ms v waste_id s).1.closed ≡ false
    → w.void_io.cancelled ≡ false
    → void_waste_event ms w waste_id (void_waste_event ms v waste_id s).1
      ≡ (err waste_voided, (void_waste_event ms v waste_id s).1)
unfolding void_waste_event
void_waste_event-once ms v w waste_id s r h alive going =
    let first = with_tx v.void_io (void_body waste_id v.voided_at) s in
    let made =
      void_body-IsVoided waste_id v.voided_at s.state first.1.state r
        (with_tx_ok v.void_io (void_body waste_id v.voided_at) s h).0 in
    let s' = (void_waste_event ms v waste_id s).1 in
    let voided : IsVoided waste_id s'.state =
      give_back-IsVoided ms v waste_id first.0 first.1 made in
    void_refused ms w waste_id s' alive going voided

no_value_err :
    {A : Type 0} (x : Result A × Store) {e : Error} → x.0 ≡ err e → (no_value x).0 ≡ err e
unfolding no_value
no_value_err (ok a, s) h = cc
no_value_err (err y, s) h = cc

passed_on :
    {F : Type 0} (ms : Measures F) (v : Voiding) (ingredient_id qty : String) (s : Store)
    (e : Error)
    → restores ingredient_id qty ≡ true
    → (record_stock_movement ms v.move_io ingredient_id "adjustment" qty "" void_note v.mov_id
        v.waste_id v.moved_at s).0
      ≡ err e
    → (give_back ms v (ok (ingredient_id, qty), s)).0 ≡ err e
unfolding give_back
passed_on ms v ingredient_id qty s e given refused =
    let run =
      record_stock_movement ms v.move_io ingredient_id "adjustment" qty "" void_note v.mov_id
        v.waste_id v.moved_at s in
    rw (given) (no_value_err run refused)

-- The two parts of a void are no unit: when the movement that gives the stock back is refused, its error is
-- returned, and the waste is voided nevertheless.
pub void_waste_event-half :
    {F : Type 0} (ms : Measures F) (v : Voiding) (waste_id ingredient_id qty : String) (s : Store)
    (e : Error)
    → (with_tx v.void_io (void_body waste_id v.voided_at) s).0 ≡ ok (ingredient_id, qty)
    → restores ingredient_id qty ≡ true
    → (record_stock_movement ms v.move_io ingredient_id "adjustment" qty "" void_note v.mov_id
        v.waste_id v.moved_at
        (with_tx v.void_io (void_body waste_id v.voided_at) s).1).0
      ≡ err e
    → ((void_waste_event ms v waste_id s).0 ≡ err e)
      × IsVoided waste_id (void_waste_event ms v waste_id s).1.state
unfolding void_waste_event
void_waste_event-half ms v waste_id ingredient_id qty s e h given refused =
    let first = with_tx v.void_io (void_body waste_id v.voided_at) s in
    let made =
      void_body-IsVoided waste_id v.voided_at s.state first.1.state (ingredient_id, qty)
        (with_tx_ok v.void_io (void_body waste_id v.voided_at) s h).0 in
    (
      ap (λ r. (give_back ms v (r, first.1)).0) h
          ∙ passed_on ms v ingredient_id qty first.1 e given refused,
      give_back-IsVoided ms v waste_id first.0 first.1 made,
    )
