-- ===== src/Order/Status/Machine.antt =====
-- The state machine of the orders: what UpdateLocalOrderStatusReason can make of the status of an order.
use mathlib.Core.Path.{subst}
use menuvex_printer.Entity.{field_of, label_text}
use menuvex_printer.Json.{Json, decode_map, encode_map, str}
use menuvex_printer.Json.Laws.{IsUnique, decode_map-IsUnique, insert-IsUnique, lookup-decode-encode}
use menuvex_printer.Order.Status.{
  Floats, clean, is_valid_transition, next_statuses, one_of, refused, side_effects, status_body,
  status_fields,
}
use menuvex_printer.Prelude.{
  Bool-cases, List, Map, Option, String, [], arith, eq_iff, false, if_both, if◌then◌else◌, inl, inr,
  insert, lookup, map_laws, none, not, refl, some, str_eq, string_eq, sym, true, ℕ, ◌<◌, ◌∷◌, ◌≡◌,
  ◌⊎◌,
}
use menuvex_printer.Result.{
  >>=-eq-ok, bad_row, ok, or_fail, or_fail-eq-ok, order_not_found, refuse_if-eq-ok,
}
use menuvex_printer.Store.{PersistedDb, StoredEntity, find_live, next_int64, put_entity, rewrite}
use menuvex_printer.Store.Keys.{find-put_self, find_live-find, find_live_of}
use menuvex_printer.Text.{equal_fold, is_blank, trim_space}

-- How far a status is in the cycle of an order. Every status that has no row in the table is closed.
abbrev pub rank : String → ℕ
rank status =
    if str_eq status ""
    then 0
    else if str_eq status "pending"
    then 1
    else if str_eq status "accepted"
    then 2
    else if str_eq status "preparing"
    then 3
    else if str_eq status "ready"
    then 4
    else 5

abbrev AllAbove : ℕ → List String → Type 0
AllAbove n [] = Unit {0}
AllAbove n (t ∷ ts) = (n < rank t) × AllAbove n ts

one_of_above :
    (n : ℕ) (to : String) (ts : List String) → AllAbove n ts → one_of to ts ≡ true → n < rank to
unfolding one_of
one_of_above n to [] a h = cc
one_of_above n to (t ∷ ts) a h = elim (Bool-cases (str_eq t to)) [
  | inl e ↦ subst (λ s. n < rank s) ((eq_iff t to).0 e) a.0
  | inr d ↦ one_of_above n to ts a.1 (ground (arith, d))
]

next_above : (from : String) → AllAbove (rank from) (next_statuses from)
unfolding next_statuses
next_above from = elim (Bool-cases (str_eq from "")) [
  | inl a ↦
      rw (a)
        (omega arith, (omega arith, (omega arith, (omega arith, (omega arith, (omega arith, tt))))))
  | inr a ↦ rw (a) (elim (Bool-cases (str_eq from "pending")) [
    | inl b ↦ rw (b) (omega arith, (omega arith, (omega arith, (omega arith, (omega arith, tt)))))
    | inr b ↦ rw (b) (elim (Bool-cases (str_eq from "accepted")) [
      | inl c ↦ rw (c) (omega arith, (omega arith, (omega arith, (omega arith, tt))))
      | inr c ↦ rw (c) (elim (Bool-cases (str_eq from "preparing")) [
        | inl d ↦ rw (d) (omega arith, (omega arith, (omega arith, tt)))
        | inr d ↦ rw (d) (elim (Bool-cases (str_eq from "ready")) [
          | inl e ↦ rw (e) (omega arith, (omega arith, tt))
          | inr e ↦ rw (e) tt
        ])
      ])
    ])
  ])
]

-- The two words are one, or the second is further on in the cycle.
abbrev pub Advances : String → String → Type 0
Advances from to = (clean from ≡ clean to) ⊎ (rank (clean from) < rank (clean to))

valid-Advances : (from to : String) → is_valid_transition from to ≡ true → Advances from to
unfolding is_valid_transition
valid-Advances from to h = elim (Bool-cases (str_eq (clean from) (clean to))) [
  | inl e ↦ inl ((eq_iff (clean from) (clean to)).0 e)
  | inr d ↦ inr (
      one_of_above _ (clean to) (next_statuses (clean from)) (next_above (clean from))
        (ground (arith, d, h)))
]

-- om["status"].(string)
abbrev pub status_text : Json → String
status_text payload = elim (decode_map payload) [
  | none ↦ ""
  | some m ↦ label_text (lookup "status" m)
]

pub status_fields-IsUnique :
    (new reason now : String) (m : Map String Json)
    → IsUnique m
    → IsUnique (status_fields new reason now m)
unfolding status_fields
status_fields-IsUnique new reason now m u =
    let updated = insert "updated_at" (str now) (insert "status" (str new) m) in
    let u₁ : IsUnique updated = insert-IsUnique "updated_at" _ _ (insert-IsUnique "status" _ m u) in
    let reasoned =
      if is_blank reason
      then updated
      else insert "status_reason" (str (trim_space reason)) updated in
    let u₂ : IsUnique reasoned =
      if_both IsUnique (is_blank reason) _ _ u₁ (insert-IsUnique "status_reason" _ _ u₁) in
    if_both IsUnique (str_eq new "completed") _ _ (insert-IsUnique "completed_at" _ _ u₂) u₂

pub status_fields-status :
    (new reason now : String) (m : Map String Json)
    → lookup "status" (status_fields new reason now m) ≡ some (str new)
unfolding status_fields
status_fields-status new reason now m = elim (Bool-cases (is_blank reason)) [
  | inl a ↦ elim (Bool-cases (str_eq new "completed")) [
    | inl b ↦ rw (a, b) (simp map_laws)
    | inr b ↦ rw (a, b) (simp map_laws)
  ]
  | inr a ↦ elim (Bool-cases (str_eq new "completed")) [
    | inl b ↦ rw (a, b) (simp map_laws)
    | inr b ↦ rw (a, b) (simp map_laws)
  ]
]

status_fields-text :
    (new reason now : String) (m : Map String Json)
    → IsUnique m
    → status_text (encode_map (status_fields new reason now m)) ≡ new
unfolding label_text
status_fields-text new reason now m u =
    let (n, decoded, same) =
      lookup-decode-encode "status" (status_fields new reason now m)
        (status_fields-IsUnique new reason now m u) in
    ground (arith, decoded, same, status_fields-status new reason now m)

-- The order was there and could go on to the new status. If that is its status already, letter case
-- aside, nothing is changed; otherwise the order is there with it and with a new version.
abbrev pub Advanced : String → String → PersistedDb → PersistedDb → Type 0
Advanced order_id new st st' =
    (e : StoredEntity) × (find_live st "order" order_id ≡ some e)
    × Advances (status_text e.payload) new
    × (((equal_fold (status_text e.payload) new ≡ true) × (st' ≡ st))
        ⊎ ((e' : StoredEntity) × (find_live st' "order" order_id ≡ some e')
            × (e'.version ≡ next_int64 e.version)
            × (status_text e'.payload ≡ new)))

written :
    (order_id : String) (order : StoredEntity) (new reason now : String) (m : Map String Json)
    (st : PersistedDb)
    → order.deleted ≡ false
    → IsUnique m
    → (e' : StoredEntity) × (find_live
          (rewrite "order" order_id order (status_fields new reason now m) st)
          "order"
          order_id
        ≡ some e')
      × (e'.version ≡ next_int64 order.version)
      × (status_text e'.payload ≡ new)
unfolding rewrite
written order_id order new reason now m st live u =
    let e' : StoredEntity = record order {
      version = next_int64 order.version;
      payload = encode_map (status_fields new reason now m);
    } in
    (
      e',
      find_live_of (put_entity "order" order_id e' st) "order" order_id
          (find-put_self st "order" order_id e') live,
      refl,
      status_fields-text new reason now m u,
    )

pub status_text_of :
    (payload : Json) (m : Map String Json)
    → decode_map payload ≡ some m
    → status_text payload ≡ label_text (lookup "status" m)
status_text_of payload m h = rw (h, status_text) refl

-- A change of status that succeeds goes on in the cycle pending, accepted, preparing, ready and closed: a
-- closed order stays closed, and none goes back.
pub status_body-Advanced :
    {F : Type 0} (fl : Floats F) (fresh : ℕ → Option String) (order_id new reason now : String)
    (st st' : PersistedDb)
    → status_body fl fresh order_id new reason now st ≡ ok (st', tt)
    → Advanced order_id new st st'
unfolding status_body
status_body-Advanced fl fresh order_id new reason now st st' h =
    let (e, found, h₁) = >>=-eq-ok (or_fail (find_live st "order" order_id) order_not_found) _ h in
    let live : find_live st "order" order_id ≡ some e = or_fail-eq-ok _ _ found in
    let (m, decoded, h₂) = >>=-eq-ok (or_fail (decode_map e.payload) bad_row) _ h₁ in
    let object : decode_map e.payload ≡ some m = or_fail-eq-ok _ _ decoded in
    let prev = label_text (lookup "status" m) in
    let same_text : status_text e.payload ≡ prev = status_text_of e.payload m object in
    let (allowed, h₃) = refuse_if-eq-ok (not (is_valid_transition prev new)) (refused prev) _ h₂ in
    let may_go : is_valid_transition prev new ≡ true = ground (arith, allowed) in
    (
      e,
      live,
      subst (λ p. Advances p new) (sym same_text) (valid-Advances prev new may_go),
      elim (Bool-cases (equal_fold prev new)) [
        | inl same ↦
            inl
              (subst (λ p. equal_fold p new ≡ true) (sym same_text) same, ground (arith, same, h₃))
        | inr other ↦
            let effects =
              side_effects fl fresh order_id (field_of e.payload "order_number") now prev new
                e.payload st in
            let is_it : rewrite "order" order_id e (status_fields new reason now m) effects ≡ st' =
              ground (arith, other, h₃) in
            inr (
              subst
                (λ t.
                  (e' : StoredEntity) × (find_live t "order" order_id ≡ some e')
                  × (e'.version ≡ next_int64 e.version)
                  × (status_text e'.payload ≡ new))
                is_it
                (written order_id e new reason now m effects
                  (find_live-find st "order" order_id live).1
                  (decode_map-IsUnique e.payload object)))
      ],
    )
