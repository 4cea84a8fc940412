-- ===== src/Workflow/Cycle.antt =====
-- The cycle of an order at the till: the primary action, pressed again and again.
use mathlib.Core.Path.{subst}
use menuvex_printer.Entity.{
  Entity, entity_of, field_in, field_of, field_text, get_entity, label_text,
}
use menuvex_printer.Json.{Json, decode_map, encode_map, str}
use menuvex_printer.Json.Laws.{decode_map-IsUnique, lookup-decode-encode}
use menuvex_printer.Order.Status.{
  Floats, clean, one_of, side_effects, status_body, status_fields, update_local_order_status,
}
use menuvex_printer.Order.Status.Machine.{rank, status_fields-IsUnique, status_fields-status}
use menuvex_printer.Prelude.{
  List, Map, Option, String, [], arith, false, if◌then◌else◌, inl, inr, lookup, refl, some, str_eq,
  string_eq, suc, sym, true, zero, ℕ, ◌+◌, ◌<◌, ◌∙◌, ◌∷◌, ◌≡◌, ◌≤◌, ◌⊎◌,
}
use menuvex_printer.Result.{err, ok}
use menuvex_printer.Store.{
  PersistedDb, Store, StoredEntity, all_well, find_live, next_int64, put_entity, rewrite, whole,
}
use menuvex_printer.Store.Atomic.{with_tx_well}
use menuvex_printer.Store.Keys.{find-put_self, find_live-find, find_live_of}
use menuvex_printer.Workflow.{
  chain_after, first_enabled, order_advance_target, order_primary_action,
}
use menuvex_printer.Workflow.Steps.{Follows, one_of_all, open_words, order_primary_action-Follows}

-- The order is there, and its status is the text x.
abbrev pub HasStatus : String → String → PersistedDb → Type 0
HasStatus order_id x st =
    (e : StoredEntity) × (m : Map String Json) × (find_live st "order" order_id ≡ some e)
    × (decode_map e.payload ≡ some m)
    × (lookup "status" m ≡ some (str x))

abbrev later_words : List String
later_words = "accepted" ∷ "preparing" ∷ "ready" ∷ "completed" ∷ []

module _ {F : Type 0} (fl : Floats F) (fresh : ℕ → Option String) (order_id now : String) where
  -- A change of status that the tables allow is made.
  pub update-HasStatus :
      (x t : String) (st : PersistedDb)
      → HasStatus order_id x st
      → Follows x t
      → (st' : PersistedDb) × (status_body fl fresh order_id t "" now st ≡ ok (st', tt))
        × HasStatus order_id t st'
  unfolding status_body rewrite label_text
  update-HasStatus x t st (e, m, live, object, status) f =
      let effects =
        side_effects fl fresh order_id (field_of e.payload "order_number") now x t e.payload st in
      let fields = status_fields t "" now m in
      let u = status_fields-IsUnique t "" now m (decode_map-IsUnique e.payload object) in
      let e' : StoredEntity = record e {
        version = next_int64 e.version;
        payload = encode_map fields;
      } in
      let (n, decoded, same) = lookup-decode-encode "status" fields u in
      (
        put_entity "order" order_id e' effects,
        rw (live, object, status, f.0, f.1) refl,
        (
          e',
          n,
          find_live_of (put_entity "order" order_id e' effects) "order" order_id
              (find-put_self effects "order" order_id e')
              (find_live-find st "order" order_id live).1,
          decoded,
          same ∙ status_fields-status t "" now m,
        ),
      )

  -- The button of the primary action, as the page draws it for a status
  unfoldable pub press_on : String → List String → Store → Store
  unfolding clean order_primary_action update_local_order_status
  press_on status stages s =
      let target = order_primary_action (clean status) stages in
      if str_eq target ""
      then s
      else (update_local_order_status fl fresh all_well order_id target "" now s).1

  unfoldable pub press : List String → Store → Store
  unfolding get_entity field_of
  press stages s = elim (get_entity all_well "order" order_id s) [
    | err e ↦ s
    | ok o ↦ press_on (field_of o.payload "status") stages s
  ]

  unfoldable pub presses : ℕ → List String → Store → Store
  unfolding press
  presses zero stages s = s
  presses (suc n) stages s = presses n stages (press stages s)

  pub status_shown :
      (x : String) (s : Store)
      → HasStatus order_id x s.state
      → (o : Entity) × (get_entity all_well "order" order_id s ≡ ok o)
        × (field_of o.payload "status" ≡ x)
  unfolding get_entity field_of field_in field_text
  status_shown x s (e, m, live, object, status) =
      (entity_of e, rw (live) refl, rw (object, status) refl)

  press_eq :
      (x : String) (stages : List String) (s : Store)
      → HasStatus order_id x s.state
      → press stages s ≡ press_on x stages s
  unfolding press
  press_eq x stages s h = let (o, found, text) = status_shown x s h in rw (found, press, text) refl

  -- A press on an open order brings it further on.
  press_on_further :
      (x : String) (stages : List String) (s : Store)
      → s.closed ≡ false
      → HasStatus order_id x s.state
      → clean x ≡ x
      → one_of x open_words ≡ true
      → (t : String) × HasStatus order_id t (press_on x stages s).state
        × ((press_on x stages s).closed ≡ false)
        × (rank x < rank t)
        × (one_of t later_words ≡ true)
  unfolding press_on update_local_order_status
  press_on_further x stages s alive has plain is_open =
      let f = order_primary_action-Follows x is_open stages in
      let t = order_primary_action x stages in
      let (st', done, has') = update-HasStatus x t s.state has f in
      let eq : press_on x stages s ≡ record s { state = st'; file = whole st' } =
        rw (plain, f.4, with_tx_well (status_body fl fresh order_id t "" now) s alive done) refl in
      subst
        (λ z.
          (t : String) × HasStatus order_id t z.state
          × (z.closed ≡ false)
          × (rank x < rank t)
          × (one_of t later_words ≡ true))
        (sym eq) (t, has', alive, f.3, f.2)

  word_cases :
      (t : String)
      → one_of t later_words ≡ true
      → (clean t ≡ t) × ((t ≡ "completed") ⊎ (one_of t open_words ≡ true))
  unfolding clean one_of
  word_cases t h =
      one_of_all (λ w. (clean w ≡ w) × ((w ≡ "completed") ⊎ (one_of w open_words ≡ true))) t
        later_words
        ((refl, inr refl), ((refl, inr refl), ((refl, inr refl), ((refl, inl refl), tt)))) h

  pub open_plain : (x : String) → one_of x open_words ≡ true → clean x ≡ x
  unfolding clean
  open_plain x o = one_of_all (λ w. clean w ≡ w) x open_words (refl, (refl, (refl, (refl, tt)))) o

  open_below : (x : String) → one_of x open_words ≡ true → rank x < 5
  open_below x o =
      one_of_all (λ w. rank w < 5) x open_words
        (omega arith, (omega arith, (omega arith, (omega arith, tt)))) o

  -- A completed order has no primary action.
  settled_still : (stages : List String) (s : Store) → press_on "completed" stages s ≡ s
  unfolding press_on clean order_primary_action order_advance_target chain_after first_enabled
  settled_still stages s = refl

  presses_settled :
      (n : ℕ) (stages : List String) (s : Store)
      → HasStatus order_id "completed" s.state
      → presses n stages s ≡ s
  unfolding presses
  presses_settled zero stages s h = refl
  presses_settled (suc n) stages s h =
      let still : press stages s ≡ s = press_eq "completed" stages s h ∙ settled_still stages s in
      subst (λ z. presses n stages z ≡ s) (sym still) (presses_settled n stages s h)

  presses_reach :
      (n : ℕ) (x : String) (stages : List String) (s : Store)
      → s.closed ≡ false
      → HasStatus order_id x s.state
      → clean x ≡ x
      → (x ≡ "completed") ⊎ (one_of x open_words ≡ true)
      → 5 ≤ n + rank x
      → HasStatus order_id "completed" (presses n stages s).state
  unfolding presses
  presses_reach n x stages s alive has plain (inl e) enough =
      let there = subst (λ y. HasStatus order_id y s.state) e has in
      subst (λ z. HasStatus order_id "completed" z.state) (sym (presses_settled n stages s there))
        there
  presses_reach zero x stages s alive has plain (inr o) enough =
      let below = open_below x o in absurd (omega arith)
  presses_reach (suc n) x stages s alive has plain (inr o) enough =
      let (t, has', alive', further, word) = press_on_further x stages s alive has plain o in
      let (plain', next) = word_cases t word in
      subst (λ z. HasStatus order_id "completed" (presses n stages z).state)
        (sym (press_eq x stages s has))
        (presses_reach n t stages (press_on x stages s) alive' has' plain' next (omega arith))

  -- Whatever stages of the cycle are switched on, and in whatever order the profile lists them: four presses of
  -- the primary action bring an order that is pending, accepted, preparing or ready to completed, on a store
  -- that is open and whose calls succeed.
  pub presses-completed :
      (x : String) (stages : List String) (s : Store)
      → s.closed ≡ false
      → HasStatus order_id x s.state
      → one_of x open_words ≡ true
      → HasStatus order_id "completed" (presses 4 stages s).state
  presses-completed x stages s alive has is_open =
      presses_reach 4 x stages s alive has (open_plain x is_open) (inr is_open)
        (open_enough x is_open)
    where
      open_enough : (x : String) → one_of x open_words ≡ true → 5 ≤ 4 + rank x
      open_enough x o =
          one_of_all (λ w. 5 ≤ 4 + rank w) x open_words
            (omega arith, (omega arith, (omega arith, (omega arith, tt)))) o
