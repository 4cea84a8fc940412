-- ===== src/Store/Changes/Survival.antt =====
-- What a synchronisation never touches: the outbox, the local counts, the connection and the counters.
use mathlib.Core.Path.{subst}
use menuvex_printer.Json.{Json}
use menuvex_printer.Prelude.{
  List, Option, String, [], ap, arith, if_both, insert, lookup, none, refl, some, str_eq, string_eq,
  ◌||◌, ◌∷◌, ◌≡◌,
}
use menuvex_printer.Result.{
  >>=-eq-ok, Error, empty_cursor, err, missing_identity, ok, refuse_if, refuse_if-eq-ok,
}
use menuvex_printer.Store.{Io, PersistedDb, Store, StoredEntity, find_entity, set_meta}
use menuvex_printer.Store.Atomic.{after_check_err, after_check_ok}
use menuvex_printer.Store.Changes.{
  Change, apply_change, apply_changes, apply_rows, apply_section, apply_sections, bootstrap,
  bootstrap_body, change_payload, changed_entity, cursor, row_change, section_kinds, store_change,
  supersedes,
}
use menuvex_printer.Store.Keys.{IsKeyed, put_entity-IsKeyed}

pub record Survives (st st' : PersistedDb) : Type 0 where
  pub outbox : st'.outbox ≡ st.outbox
  pub counts : st'.legacy_stock_counts ≡ st.legacy_stock_counts
  pub device : st'.connection ≡ st.connection
  pub next_seq : st'.next_outbox_seq ≡ st.next_outbox_seq
  pub next_count : st'.next_legacy_stock_count_id ≡ st.next_legacy_stock_count_id
  pub meta : st'.meta ≡ st.meta

Survives-refl : (st : PersistedDb) → Survives st st
Survives-refl st = ground arith

Survives-trans : (a b c : PersistedDb) → Survives a b → Survives b c → Survives a c
Survives-trans a b c h k = ground arith

store_change-Survives :
    (c : Change) (p : Json) (o : Option StoredEntity) (st : PersistedDb)
    → Survives st (store_change c p o st)
unfolding store_change
store_change-Survives c p none st = ground arith
store_change-Survives c p (some e) st = ground arith

store_change-IsKeyed :
    (c : Change) (p : Json) (o : Option StoredEntity) (st : PersistedDb)
    → IsKeyed st
    → IsKeyed (store_change c p o st)
unfolding store_change
store_change-IsKeyed c p none st h =
    put_entity-IsKeyed st c.entity_type c.entity_id (changed_entity c p) refl refl h
store_change-IsKeyed c p (some e) st h =
    if_both IsKeyed (supersedes c.version e.version) _ st
      (put_entity-IsKeyed st c.entity_type c.entity_id (changed_entity c p) refl refl h) h

-- A state made from changes alone: every entity stands under its own key, and what synchronisation does
-- not own is as it was.
pub record Synced (st st' : PersistedDb) : Type 0 where
  pub kept : Survives st st'
  pub keyed : IsKeyed st → IsKeyed st'

Synced-refl : (st : PersistedDb) → Synced st st
Synced-refl st = record { kept = Survives-refl st; keyed = λ h. h }

Synced-trans : (a b c : PersistedDb) → Synced a b → Synced b c → Synced a c
Synced-trans a b c h k = record {
  kept = Survives-trans a b c h.kept k.kept;
  keyed = λ u. k.keyed (h.keyed u);
}

apply_change-Synced :
    (st st' : PersistedDb) (c : Change) → apply_change st c ≡ ok st' → Synced st st'
unfolding apply_change
apply_change-Synced st st' c h =
    let (_, guarded) =
      refuse_if-eq-ok (str_eq c.entity_id "" || str_eq c.entity_type "") missing_identity _ h in
    let (p, _, done) = >>=-eq-ok (change_payload c.payload) _ guarded in
    let o = find_entity st c.entity_type c.entity_id in
    let e : store_change c p o st ≡ st' = cc in
    subst (Synced st) e
      (record { kept = store_change-Survives c p o st; keyed = store_change-IsKeyed c p o st })

pub apply_changes-Synced :
    (st st' : PersistedDb) (cs : List Change) → apply_changes st cs ≡ ok st' → Synced st st'
unfolding apply_changes
apply_changes-Synced st st' [] h = let e : st ≡ st' = cc in subst (Synced st) e (Synced-refl st)
apply_changes-Synced st st' (c ∷ cs) h =
    let (mid, first, rest) = >>=-eq-ok (apply_change st c) _ h in
    Synced-trans st mid st' (apply_change-Synced st mid c first)
      (apply_changes-Synced mid st' cs rest)

apply_rows-Synced :
    (kind : String) (st st' : PersistedDb) (rows : List Json)
    → apply_rows kind st rows ≡ ok st'
    → Synced st st'
unfolding apply_rows
apply_rows-Synced kind st st' [] h = let e : st ≡ st' = cc in subst (Synced st) e (Synced-refl st)
apply_rows-Synced kind st st' (raw ∷ rows) h =
    let (c, _, applied) = >>=-eq-ok (row_change kind raw) _ h in
    let (mid, first, rest) = >>=-eq-ok (apply_change st c) _ applied in
    Synced-trans st mid st' (apply_change-Synced st mid c first)
      (apply_rows-Synced kind mid st' rows rest)

apply_section-Synced :
    (section : String) (o : Option String) (st st' : PersistedDb) (rows : List Json)
    → elim o [ none ↦ ok st | some kind ↦ apply_rows kind st rows ] ≡ ok st'
    → Synced st st'
apply_section-Synced section none st st' rows h =
    let e : st ≡ st' = cc in subst (Synced st) e (Synced-refl st)
apply_section-Synced section (some kind) st st' rows h = apply_rows-Synced kind st st' rows h

apply_sections-Synced :
    (st st' : PersistedDb) (sections : List (String × List Json))
    → apply_sections st sections ≡ ok st'
    → Synced st st'
unfolding apply_sections
apply_sections-Synced st st' [] h = let e : st ≡ st' = cc in subst (Synced st) e (Synced-refl st)
apply_sections-Synced st st' ((section, rows) ∷ rest) h =
    let (mid, first, others) = >>=-eq-ok (apply_section section st rows) _ h in
    Synced-trans st mid st'
      (apply_section-Synced section (lookup section section_kinds) st mid rows first)
      (apply_sections-Synced mid st' rest others)

empty-IsKeyed : (st : PersistedDb) → IsKeyed (record st { entities = [] })
unfolding find_entity
empty-IsKeyed st k i e h = cc

pub bootstrap_body_kept :
    (sections : List (String × List Json)) (cursor : String) (st st' : PersistedDb)
    → bootstrap_body sections cursor st ≡ ok (st', tt)
    → (st'.outbox ≡ st.outbox)
      × (st'.legacy_stock_counts ≡ st.legacy_stock_counts)
      × (st'.connection ≡ st.connection)
      × (st'.next_outbox_seq ≡ st.next_outbox_seq)
      × (st'.meta ≡ insert "cursor" cursor st.meta)
      × IsKeyed st'
unfolding bootstrap_body set_meta find_entity
bootstrap_body_kept sections cursor st st' h =
    let (mid, ran, last) = >>=-eq-ok (apply_sections (record st { entities = [] }) sections) _ h in
    let e : set_meta "cursor" cursor mid ≡ st' = cc in
    let y = apply_sections-Synced (record st { entities = [] }) mid sections ran in
    let k = y.kept in
    let u : IsKeyed mid = y.keyed (empty-IsKeyed st) in
    subst
      (λ t.
        (t.outbox ≡ st.outbox)
        × (t.legacy_stock_counts ≡ st.legacy_stock_counts)
        × (t.connection ≡ st.connection)
        × (t.next_outbox_seq ≡ st.next_outbox_seq)
        × (t.meta ≡ insert "cursor" cursor st.meta)
        × IsKeyed t)
      e (k.outbox, k.counts, k.device, k.next_seq, ap (insert "cursor" cursor) k.meta, u)

-- A bootstrap that succeeds keeps the outbox, the local counts, the connection and the outbox counter,
-- sets the cursor and no other meta entry, and every entity stands under its own kind and id. One
-- that fails leaves the whole state as it was.
pub bootstrap_survival :
    (io : Io) (sections : List (String × List Json)) (cursor : String) (s : Store)
    → let r = bootstrap io sections cursor s in
      (r.0 ≡ ok tt
        → (r.1.state.outbox ≡ s.state.outbox)
          × (r.1.state.legacy_stock_counts ≡ s.state.legacy_stock_counts)
          × (r.1.state.connection ≡ s.state.connection)
          × (r.1.state.next_outbox_seq ≡ s.state.next_outbox_seq)
          × (r.1.state.meta ≡ insert "cursor" cursor s.state.meta)
          × IsKeyed r.1.state)
      × ((e : Error) → r.0 ≡ err e → r.1.state ≡ s.state)
unfolding bootstrap
bootstrap_survival io sections cursor s = (
  λ h.
      bootstrap_body_kept sections cursor s.state _
        (after_check_ok (refuse_if (str_eq cursor "") empty_cursor) io
          (bootstrap_body sections cursor) s h).1,
  λ e h.
      after_check_err (refuse_if (str_eq cursor "") empty_cursor) io
        (bootstrap_body sections cursor) s h,
)
