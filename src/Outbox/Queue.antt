-- ===== src/Outbox/Queue.antt =====
-- QueueCatalog of offline-menuvex/internal/store/outbox.go, and the invariants of the queue.
use mathlib.Core.Path.{subst}
use menuvex_printer.Json.{Json, end, null, obj}
use menuvex_printer.Outbox.{
  base_of, discard_in, has_open, is_blocked, is_open, is_pending, queue_body,
}
use menuvex_printer.Outbox.Results.{Moved, Moves, SameIntent}
use menuvex_printer.Outbox.Validate.{Literals, validate_intent}
use menuvex_printer.Prelude.{
  Bool-cases, List, String, [], arith, eq_iff, false, if◌then◌else◌, inl, inr, refl, str_eq, sym,
  true, ℕ, ◌&&◌, ◌++◌, ◌||◌, ◌∙◌, ◌∷◌, ◌≡◌,
}
use menuvex_printer.Prelude.Int.{ℤ}
use menuvex_printer.Result.{
  >>=-eq-ok, Result, entity_id_not_uuid, err, id_given_for_create, no_device, ok, pending_intent,
  refuse_if-eq-ok, ◌>>=◌,
}
use menuvex_printer.Store.{Io, PersistedDb, Store, StoredOperation, meta_of, next_int64, with_tx}
use menuvex_printer.Store.Atomic.{with_tx_err, with_tx_ok}
use menuvex_printer.Store.Changes.{RawMessage, valid}
use menuvex_printer.Text.Patterns.{is_uuid}

-- The id of the edited record: a new one is made for a creation. `fresh` and `op_id` are what the two
-- calls of UUID() give.
unfoldable pub edit_id : String → String → Result String → Result String
unfolding is_uuid
edit_id action i fresh =
    if str_eq action "create"
    then (if str_eq i "" then fresh else err id_given_for_create)
    else if is_uuid i
    then ok i
    else err entity_id_not_uuid

unfoldable pub raw_json : RawMessage → Json
raw_json (valid j) = j
raw_json _ = null

unfoldable pub queue_checks :
    String
    → String
    → String
    → ℕ
    → Literals
    → RawMessage
    → Result String
    → Result String
    → Result (String × String)
unfolding validate_intent edit_id
queue_checks kind i action size literals raw fresh op_id = do
  done ← validate_intent kind action size literals raw
  the_id ← edit_id action i fresh
  op ← op_id
  ok (the_id, op)

unfoldable pub queue_run :
    Io
    → String
    → String
    → Json
    → ℤ
    → String
    → Store
    → Result (String × String)
    → Result String × Store
unfolding queue_body with_tx
queue_run io kind action payload v now s (err e) = (err e, s)
queue_run io kind action payload v now s (ok (the_id, op)) =
    with_tx io (queue_body kind the_id action payload v op now) s

unfoldable pub queue_catalog :
    Io
    → String
    → String
    → String
    → ℕ
    → Literals
    → RawMessage
    → ℤ
    → Result String
    → Result String
    → String
    → Store
    → Result String × Store
unfolding queue_checks queue_run raw_json
queue_catalog io kind i action size literals raw expected_version fresh op_id now s =
    queue_run io kind action (raw_json raw) expected_version now s
      (queue_checks kind i action size literals raw fresh op_id)

-- At most one operation of a record is open, neither applied nor discarded.
abbrev pub OneOpen : List StoredOperation → Type 0
OneOpen [] = Unit {0}
OneOpen (op ∷ ops) =
    (is_open op.state ≡ true → has_open op.entity_type op.entity_id ops ≡ false) × OneOpen ops

has_open-snoc :
    (kind i : String) (ops : List StoredOperation) (op : StoredOperation)
    → has_open kind i (ops ++ op ∷ []) ≡ (has_open kind i ops || has_open kind i (op ∷ []))
unfolding has_open
has_open-snoc kind i [] op = ground arith
has_open-snoc kind i (x ∷ ops) op = ground (arith, has_open-snoc kind i ops op)

pub OneOpen-snoc :
    (ops : List StoredOperation) (op : StoredOperation)
    → has_open op.entity_type op.entity_id ops ≡ false
    → OneOpen ops
    → OneOpen (ops ++ op ∷ [])
unfolding has_open
OneOpen-snoc [] op h u = ((λ _. refl), tt)
OneOpen-snoc (x ∷ ops) op h u = (
  λ o. ground (
    arith,
    has_open-snoc x.entity_type x.entity_id ops op,
    u.0 o,
    eq_iff op.entity_type x.entity_type,
    eq_iff op.entity_id x.entity_id,
    eq_iff x.entity_type op.entity_type,
    eq_iff x.entity_id op.entity_id,
    o,
  ),
  OneOpen-snoc ops op (ground (arith, h)) u.1,
)

-- What is open afterwards was open before.
open_word : (s w : String) → is_open w ≡ true → str_eq s w ≡ true → is_open s ≡ true
open_word s w h e = subst (λ t. is_open t ≡ true) (sym ((eq_iff s w).0 e)) h

pending_is_open : (s : String) → is_pending s ≡ true → is_open s ≡ true
unfolding is_pending
pending_is_open s h = elim (Bool-cases (str_eq s "queued")) [
  | inl q ↦ open_word s "queued" (unfold is_open in refl) q
  | inr q ↦ elim (Bool-cases (str_eq s "retry")) [
    | inl r ↦ open_word s "retry" (unfold is_open in refl) r
    | inr r ↦ open_word s "not_processed" (unfold is_open in refl) (ground (arith, q, r, h))
  ]
]

Moved-open : (a b : StoredOperation) → Moved a b → is_open b.state ≡ true → is_open a.state ≡ true
Moved-open a b (h, inl e) o = subst (λ x. is_open x.state ≡ true) e o
Moved-open a b (h, inr (p, _)) o = pending_is_open a.state p

-- Position by position the same intents, and none open that was not.
abbrev pub Narrows : List StoredOperation → List StoredOperation → Type 0
Narrows [] [] = Unit {0}
Narrows [] (y ∷ ys) = ⊥
Narrows (x ∷ xs) [] = ⊥
Narrows (x ∷ xs) (y ∷ ys) =
    (SameIntent x y × (is_open y.state ≡ true → is_open x.state ≡ true)) × Narrows xs ys

pub Moves-Narrows : (xs ys : List StoredOperation) → Moves xs ys → Narrows xs ys
Moves-Narrows [] [] m = tt
Moves-Narrows [] (y ∷ ys) m = absurd m
Moves-Narrows (x ∷ xs) [] m = absurd m
Moves-Narrows (x ∷ xs) (y ∷ ys) m = ((m.0.0, Moved-open x y m.0), Moves-Narrows xs ys m.1)

pub Narrows-refl : (xs : List StoredOperation) → Narrows xs xs
Narrows-refl [] = tt
Narrows-refl (x ∷ xs) = ((ground arith, λ o. o), Narrows-refl xs)

discarded_not_open : is_open "discarded" ≡ false
unfolding is_open
discarded_not_open = refl

pub discard_in-Narrows :
    (i : String) (xs ys : List StoredOperation) → discard_in i xs ≡ ok ys → Narrows xs ys
unfolding discard_in
discard_in-Narrows i [] ys h = cc
discard_in-Narrows i (x ∷ xs) ys h = elim (Bool-cases (str_eq x.id i && is_blocked x.state)) [
  | inl b ↦
      let e : record x { state = "discarded" } ∷ xs ≡ ys = ground (arith, b) in
      subst (Narrows (x ∷ xs)) e ((ground arith, λ o. absurd (not_open o)), Narrows-refl xs)
  | inr b ↦
      let go : (discard_in i xs >>= λ kept. ok (x ∷ kept)) ≡ ok ys = ground (arith, b) in
      let (kept, inner, last) = >>=-eq-ok (discard_in i xs) _ go in
      let e : x ∷ kept ≡ ys = cc in
      subst (Narrows (x ∷ xs)) e ((ground arith, λ o. o), discard_in-Narrows i xs kept inner)
]
  where
    not_open : is_open "discarded" ≡ true → ⊥
    not_open o = cc (discarded_not_open, o)

Narrows-has_open :
    (kind i : String) (xs ys : List StoredOperation)
    → Narrows xs ys
    → has_open kind i xs ≡ false
    → has_open kind i ys ≡ false
unfolding has_open
Narrows-has_open kind i [] [] m h = refl
Narrows-has_open kind i [] (y ∷ ys) m h = absurd m
Narrows-has_open kind i (x ∷ xs) [] m h = absurd m
Narrows-has_open kind i (x ∷ xs) (y ∷ ys) m h =
    let later = Narrows-has_open kind i xs ys m.1 (ground (arith, h)) in
    elim (Bool-cases (is_open y.state)) [
      | inl o ↦ let before = m.0.1 o in ground (arith, m.0.0, before, later, h)
      | inr c ↦ ground (arith, c, later)
    ]

pub Narrows-OneOpen : (xs ys : List StoredOperation) → Narrows xs ys → OneOpen xs → OneOpen ys
Narrows-OneOpen [] [] m u = tt
Narrows-OneOpen [] (y ∷ ys) m u = absurd m
Narrows-OneOpen (x ∷ xs) [] m u = absurd m
Narrows-OneOpen (x ∷ xs) (y ∷ ys) m u = (
  λ o.
      let none_before = Narrows-has_open x.entity_type x.entity_id xs ys m.1 (u.0 (m.0.1 o)) in
      ground (arith, m.0.0, none_before),
  Narrows-OneOpen xs ys m.1 u.1,
)

-- What a queued edit adds to the outbox, and what it was checked against.
queue_body_lem :
    (kind i action : String) (payload : Json) (v : ℤ) (op_id now : String) (st st' : PersistedDb)
    {r : String}
    → queue_body kind i action payload v op_id now st ≡ ok (st', r)
    → (op : StoredOperation) × (st'.outbox ≡ st.outbox ++ op ∷ [])
      × (has_open kind i st.outbox ≡ false)
      × (op.entity_type ≡ kind)
      × (op.entity_id ≡ i)
      × (op.state ≡ "queued")
      × (op.sequence ≡ next_int64 st.next_outbox_seq)
      × (st'.next_outbox_seq ≡ next_int64 st.next_outbox_seq)
      × (st'.entities ≡ st.entities)
      × (base_of kind i action v st ≡ ok op.base_version)
      × (r ≡ i)
unfolding queue_body
queue_body_lem kind i action payload v op_id now st st' h =
    let (bound, h₁) = refuse_if-eq-ok (str_eq (meta_of st "scope") "") no_device _ h in
    let (alone, h₂) = refuse_if-eq-ok (has_open kind i st.outbox) pending_intent _ h₁ in
    let (base, based, last) = >>=-eq-ok (base_of kind i action v st) _ h₂ in
    (
      record {
        id = op_id;
        sequence = next_int64 st.next_outbox_seq;
        entity_type = kind;
        entity_id = i;
        action = action;
        base_version = base;
        depends_on = [];
        payload = payload;
        created_at = now;
        state = "queued";
        outcome = obj end;
      },
      ground (arith, last),
      alone,
      refl,
      refl,
      refl,
      refl,
      ground (arith, last),
      ground (arith, last),
      based,
      ground (arith, last),
    )

-- What QueueCatalog adds to the outbox of a store.
abbrev pub Appended : String → Store → Result String × Store → Type 0
Appended kind s (err e, s') = s'.state ≡ s.state
Appended kind s (ok r, s') =
    (op : StoredOperation) × (s'.state.outbox ≡ s.state.outbox ++ op ∷ [])
    × (has_open kind r s.state.outbox ≡ false)
    × (op.entity_type ≡ kind)
    × (op.entity_id ≡ r)
    × (op.state ≡ "queued")
    × (op.sequence ≡ next_int64 s.state.next_outbox_seq)
    × (s'.state.next_outbox_seq ≡ next_int64 s.state.next_outbox_seq)
    × (s'.state.entities ≡ s.state.entities)

queue_run-Appended :
    (io : Io) (kind action : String) (payload : Json) (v : ℤ) (now : String) (s : Store)
    (checked : Result (String × String))
    → Appended kind s (queue_run io kind action payload v now s checked)
unfolding queue_run
queue_run-Appended io kind action payload v now s (err e) = refl
queue_run-Appended io kind action payload v now s (ok (the_id, op_id)) =
    go (with_tx io body s).0 refl
  where
    body : PersistedDb → Result (PersistedDb × String)
    body = queue_body kind the_id action payload v op_id now

    go :
        (r : Result String) → (with_tx io body s).0 ≡ r → Appended kind s (r, (with_tx io body s).1)
    go (err e) h = with_tx_err io body s h
    go (ok r) h =
        let q =
          queue_body_lem kind the_id action payload v op_id now s.state _
            (with_tx_ok io body s h).0 in
        let same : the_id ≡ r = sym q.10 in
        (
          q.0,
          q.1,
          subst (λ x. has_open kind x s.state.outbox ≡ false) same q.2,
          q.3,
          q.4 ∙ same,
          q.5,
          q.6,
          q.7,
          q.8,
        )

-- An edit that is refused leaves the state as it was. One that is queued appends one pending operation
-- with the next sequence number for the record whose id is returned, of which no other operation was
-- open, and changes no entity.
pub queue_catalog-Appended :
    (io : Io) (kind i action : String) (size : ℕ) (literals : Literals) (raw : RawMessage) (v : ℤ)
    (fresh op_id : Result String) (now : String) (s : Store)
    → Appended kind s (queue_catalog io kind i action size literals raw v fresh op_id now s)
unfolding queue_catalog
queue_catalog-Appended io kind i action size literals raw v fresh op_id now s =
    queue_run-Appended io kind action (raw_json raw) v now s
      (queue_checks kind i action size literals raw fresh op_id)
