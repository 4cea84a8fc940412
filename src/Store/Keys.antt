-- ===== src/Store/Keys.antt =====
-- Reading back what put_entity and rewrite wrote, and the invariant that an entity stands under its own
-- kind and id.
use menuvex_printer.Json.{Json}
use menuvex_printer.Prelude.{
  Map, String, arith, beq_ne, beq_self, false, if◌then◌else◌, key_beq, key_beq_iff, key_eq,
  lookup-insert, refl, some, ◌≡◌, ◌≢◌,
}
use menuvex_printer.Store.{
  PersistedDb, StoredEntity, entity_key, find_entity, find_live, put_entity, rewrite,
}

pub find-put :
    (st : PersistedDb) (k i : String) (e : StoredEntity) (l j : String)
    → find_entity (put_entity k i e st) l j
      ≡ (if key_beq (entity_key k i) (entity_key l j) then some e else find_entity st l j)
unfolding find_entity put_entity
find-put st k i e l j = lookup-insert (entity_key k i) (entity_key l j) e st.entities

pub find-put_self :
    (st : PersistedDb) (k i : String) (e : StoredEntity)
    → find_entity (put_entity k i e st) k i ≡ some e
find-put_self st k i e = rw (find-put st k i e k i) (rw (beq_self (entity_key k i)))

pub find-put_ne :
    (st : PersistedDb) (k i : String) (e : StoredEntity) (l j : String)
    → entity_key k i ≢ entity_key l j
    → find_entity (put_entity k i e st) l j ≡ find_entity st l j
find-put_ne st k i e l j h = rw (find-put st k i e l j) (rw (beq_ne h))

pub find_live-find :
    (st : PersistedDb) (k i : String) {e : StoredEntity}
    → find_live st k i ≡ some e
    → (find_entity st k i ≡ some e) × (e.deleted ≡ false)
unfolding find_live
find_live-find st k i h = ground arith

pub find_live_of :
    (st : PersistedDb) (k i : String) {e : StoredEntity}
    → find_entity st k i ≡ some e
    → e.deleted ≡ false
    → find_live st k i ≡ some e
unfolding find_live
find_live_of st k i h d = ground arith

pub find_live_same :
    (st st' : PersistedDb) (k i : String)
    → find_entity st k i ≡ find_entity st' k i
    → find_live st k i ≡ find_live st' k i
unfolding find_live
find_live_same st st' k i h = rw (h, find_live) refl

abbrev pub IsKeyed : PersistedDb → Type 0
IsKeyed st =
    (k i : String) (e : StoredEntity) → find_entity st k i ≡ some e → (e.kind ≡ k) × (e.id ≡ i)

pub put_entity-IsKeyed :
    (st : PersistedDb) (k i : String) (e : StoredEntity)
    → e.kind ≡ k
    → e.id ≡ i
    → IsKeyed st
    → IsKeyed (put_entity k i e st)
put_entity-IsKeyed st k i e p q h l j f r =
    ground (arith, find-put st k i e l j, key_beq_iff (entity_key k i) (entity_key l j), h l j f)

pub rewrite-IsKeyed :
    (st : PersistedDb) (k i : String) (e : StoredEntity) (m : Map String Json)
    → e.kind ≡ k
    → e.id ≡ i
    → IsKeyed st
    → IsKeyed (rewrite k i e m st)
unfolding rewrite
rewrite-IsKeyed st k i e m p q h = put_entity-IsKeyed st k i _ p q h
