-- ===== src/Store/Changes/Versions.antt =====
-- Versions of server changes: what a change does to each entity, that versions never go back, that a
-- tombstone is not undone by an older change, and that the order of two changes does not matter.
use menuvex_printer.Json.{Json}
use menuvex_printer.Prelude.{
  Bool, Key, List, Option, String, [], arith, false, if◌then◌else◌, key_beq, key_beq_iff, none,
  refl, some, str_eq, true, ◌||◌, ◌∙◌, ◌∷◌, ◌≡◌, ◌≢◌,
}
use menuvex_printer.Prelude.Int.{pos, ℤ, ◌≤ℤ◌}
use menuvex_printer.Result.{>>=-eq-ok, ok, refuse_if-eq-ok}
use menuvex_printer.Store.{PersistedDb, StoredEntity, entity_key, find_entity}
use menuvex_printer.Store.Changes.{
  Change, apply_change, apply_changes, change_payload, changed_entity, is_zero, store_change,
  supersedes,
}
use menuvex_printer.Store.Keys.{find-put}

-- What a change leaves at its own key.
abbrev pub pick : Change → Json → Option StoredEntity → Option StoredEntity
pick c p none = some (changed_entity c p)
pick c p (some old) =
    if supersedes c.version old.version then some (changed_entity c p) else some old

abbrev pub change_key : Change → Key
change_key c = entity_key c.entity_type c.entity_id

store_change-pick :
    (c : Change) (p : Json) (o : Option StoredEntity) (st : PersistedDb) (l j : String)
    → find_entity st c.entity_type c.entity_id ≡ o
    → find_entity (store_change c p o st) l j
      ≡ (if key_beq (change_key c) (entity_key l j) then pick c p o else find_entity st l j)
unfolding store_change
store_change-pick c p none st l j h = find-put st c.entity_type c.entity_id _ l j
store_change-pick c p (some old) st l j h = ground (
  arith,
  find-put st c.entity_type c.entity_id (changed_entity c p) l j,
  key_beq_iff (change_key c) (entity_key l j),
)

-- A change that is accepted has a payload, and each entity is afterwards what `pick` says.
pub apply_change-pick :
    (st st' : PersistedDb) (c : Change)
    → apply_change st c ≡ ok st'
    → (p : Json) × (change_payload c.payload ≡ ok p)
      × ((l j : String)
          → find_entity st' l j ≡ (
              if key_beq (change_key c) (entity_key l j)
              then pick c p (find_entity st l j)
              else find_entity st l j))
unfolding apply_change
apply_change-pick st st' c h =
    let (_, guarded) = refuse_if-eq-ok (str_eq c.entity_id "" || str_eq c.entity_type "") _ _ h in
    let (p, got, done) = >>=-eq-ok (change_payload c.payload) _ guarded in
    (
      p,
      got,
      λ l j. ground (
        arith,
        store_change-pick c p (find_entity st c.entity_type c.entity_id) st l j refl,
        key_beq_iff (change_key c) (entity_key l j),
      ),
    )

-- The entity is still there and no older.
abbrev pub NotOlder : Option StoredEntity → Option StoredEntity → Type 0
NotOlder none o = Unit {0}
NotOlder (some e) none = ⊥
NotOlder (some e) (some e') = e.version ≤ℤ e'.version

NotOlder-refl : (o : Option StoredEntity) → NotOlder o o
NotOlder-refl none = tt
NotOlder-refl (some e) = omega arith

NotOlder-trans : (a b c : Option StoredEntity) → NotOlder a b → NotOlder b c → NotOlder a c
NotOlder-trans none b c p q = tt
NotOlder-trans (some x) none c p q = absurd p
NotOlder-trans (some x) (some y) none p q = absurd q
NotOlder-trans (some x) (some y) (some z) p q = omega arith

pick-NotOlder : (c : Change) (p : Json) (o : Option StoredEntity) → NotOlder o (pick c p o)
unfolding supersedes is_zero changed_entity
pick-NotOlder c p none = tt
pick-NotOlder c p (some e) = ground arith

if-NotOlder :
    (b : Bool) (o x : Option StoredEntity) → NotOlder o x → NotOlder o (if b then x else o)
if-NotOlder true o x h = h
if-NotOlder false o x h = NotOlder-refl o

apply_change-NotOlder :
    (st st' : PersistedDb) (c : Change) (l j : String)
    → apply_change st c ≡ ok st'
    → NotOlder (find_entity st l j) (find_entity st' l j)
apply_change-NotOlder st st' c l j h =
    let (p, _, at) = apply_change-pick st st' c h in
    rw (at l j) (if-NotOlder _ (find_entity st l j) _ (pick-NotOlder c p (find_entity st l j)))

-- After a page of changes every entity that was stored is still stored, at no lower version.
pub apply_changes-NotOlder :
    (st st' : PersistedDb) (cs : List Change) (l j : String)
    → apply_changes st cs ≡ ok st'
    → NotOlder (find_entity st l j) (find_entity st' l j)
unfolding apply_changes
apply_changes-NotOlder st st' [] l j h = ground (arith, NotOlder-refl (find_entity st l j))
apply_changes-NotOlder st st' (c ∷ cs) l j h =
    let (mid, first, rest) = >>=-eq-ok (apply_change st c) _ h in
    NotOlder-trans (find_entity st l j) (find_entity mid l j) (find_entity st' l j)
      (apply_change-NotOlder st mid c l j first) (apply_changes-NotOlder mid st' cs l j rest)

-- Each change of a page that is about the entity is no newer than version v.
abbrev pub NoneNewer : ℤ → String → String → List Change → Type 0
NoneNewer v l j [] = Unit {0}
NoneNewer v l j (c ∷ cs) = (change_key c ≡ entity_key l j → c.version ≤ℤ v) × NoneNewer v l j cs

pick_old :
    (c : Change) (p : Json) (e : StoredEntity)
    → pos 1 ≤ℤ e.version
    → c.version ≤ℤ e.version
    → pick c p (some e) ≡ some e
unfolding supersedes is_zero
pick_old c p e h k = ground arith

-- A stored entity with a version of at least 1, a tombstone too, is as it was after a page in which no
-- change of it is newer: an older change does not bring a deleted record back.
pub apply_changes_old :
    (st st' : PersistedDb) (cs : List Change) (l j : String) (e : StoredEntity)
    → find_entity st l j ≡ some e
    → pos 1 ≤ℤ e.version
    → NoneNewer e.version l j cs
    → apply_changes st cs ≡ ok st'
    → find_entity st' l j ≡ some e
unfolding apply_changes
apply_changes_old st st' [] l j e f v n h = ground arith
apply_changes_old st st' (c ∷ cs) l j e f v n h =
    let (mid, first, rest) = >>=-eq-ok (apply_change st c) _ h in
    let (p, _, at) = apply_change-pick st mid c first in
    apply_changes_old mid st' cs l j e
      (at l j
        ∙ ground (arith, f, key_beq_iff (change_key c) (entity_key l j), pick_old c p e v, n.0))
      v n.1 rest

-- Two changes of different versions to one entity.
pick_comm :
    (a b : Change) (p q : Json) (o : Option StoredEntity)
    → a.version ≢ b.version
    → pick b q (pick a p o) ≡ pick a p (pick b q o)
unfolding supersedes is_zero changed_entity
pick_comm a b p q none h = ground arith
pick_comm a b p q (some e) h = ground arith

comm_at :
    (a b : Change) (p q : Json) (o : Option StoredEntity) (ka kb : Bool)
    {oa oab ob oba : Option StoredEntity}
    → a.version ≢ b.version
    → oa ≡ (if ka then pick a p o else o)
    → oab ≡ (if kb then pick b q oa else oa)
    → ob ≡ (if kb then pick b q o else o)
    → oba ≡ (if ka then pick a p ob else ob)
    → oab ≡ oba
comm_at a b p q o true true h h₁ h₂ h₃ h₄ = rw (h₂, h₄, h₁, h₃) (pick_comm a b p q o h)
comm_at a b p q o true false h h₁ h₂ h₃ h₄ = rw (h₂, h₄, h₁, h₃) refl
comm_at a b p q o false kb h h₁ h₂ h₃ h₄ = rw (h₂, h₄, h₁, h₃) refl

-- Two changes of different versions give the same entities in either order.
pub apply_change_comm :
    (st sa sb sab sba : PersistedDb) (a b : Change)
    → a.version ≢ b.version
    → apply_change st a ≡ ok sa
    → apply_change sa b ≡ ok sab
    → apply_change st b ≡ ok sb
    → apply_change sb a ≡ ok sba
    → (l j : String) → find_entity sab l j ≡ find_entity sba l j
apply_change_comm st sa sb sab sba a b h h₁ h₂ h₃ h₄ l j =
    let (p, pa, at₁) = apply_change-pick st sa a h₁ in
    let (q, qb, at₂) = apply_change-pick sa sab b h₂ in
    let (q', qb', at₃) = apply_change-pick st sb b h₃ in
    let (p', pa', at₄) = apply_change-pick sb sba a h₄ in
    let same_p : p' ≡ p = cc (pa, pa') in
    let same_q : q' ≡ q = cc (qb, qb') in
    comm_at a b p q (find_entity st l j) (key_beq (change_key a) (entity_key l j))
      (key_beq (change_key b) (entity_key l j)) h (at₁ l j) (at₂ l j) (rw same_q at (at₃ l j))
      (rw same_p at (at₄ l j))
