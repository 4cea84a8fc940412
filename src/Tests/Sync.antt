-- ===== src/Tests/Sync.antt =====
-- Inputs for the store, the server changes and the outbox.

use menuvex_printer.Json.{Json, end, field, num, obj, str}
use menuvex_printer.Prelude.{
  Bool, List, String, [], arith, false, insert, key_eq, lookup, refl, some, string_eq, true, ◌∷◌,
  ◌≡◌,
}
use menuvex_printer.Prelude.Int.{pos, ℤ}
use menuvex_printer.Result.{ok, scope_mismatch}
use menuvex_printer.Store.{
  Io, PersistedDb, Store, StoredEntity, all_well, cut_short, entity_key, find_entity, new_empty_db,
  torn, whole, with_tx,
}
use menuvex_printer.Store.Atomic.{IsDurable, with_tx-IsDurable, with_tx_error, with_tx_ok}
use menuvex_printer.Store.Changes.{
  Change, absent, apply_change, apply_changes, bind_body, bootstrap, row_change, supersedes,
}
use menuvex_printer.Store.Changes.Survival.{bootstrap_survival}
use menuvex_printer.Store.Changes.Versions.{
  NotOlder, apply_change_comm, apply_changes-NotOlder, apply_changes_old,
}

abbrev cafe : Store
cafe = record {
  closed = false;
  state = record new_empty_db { meta = ("scope", "https://api|dev") ∷ [] };
  file = torn;
}

abbrev fails_to_replace : Io
fails_to_replace = record all_well { renames = false }

with_tx_error_example : (with_tx fails_to_replace (bind_body "other") cafe).1 ≡ cafe
unfolding with_tx bind_body lookup
with_tx_error_example =
    with_tx_error fails_to_replace (bind_body "other") cafe scope_mismatch refl refl

with_tx_ok_example :
    bind_body "https://api|dev" cafe.state
    ≡ ok ((with_tx all_well (bind_body "https://api|dev") cafe).1.state, tt)
unfolding with_tx bind_body lookup
with_tx_ok_example = (with_tx_ok all_well (bind_body "https://api|dev") cafe refl).0

-- The overwrite fails once the file is cut.
abbrev cuts_the_file : Io
cuts_the_file = record all_well { renames = false; overwrites = false; leaves = cut_short }

abbrev product_row : ℤ → Bool → Change
product_row v gone = record {
  entity_type = "product";
  entity_id = "p1";
  version = v;
  tombstone = gone;
  operation = "update";
  payload = absent;
}

-- A deletion at version 3 is kept against an older update.
abbrev tombstoned : PersistedDb
tombstoned = record new_empty_db {
  entities =
      (
        entity_key "product" "p1",
        record { id = "p1"; kind = "product"; version = pos 3; deleted = true; payload = obj end },
      )
      ∷ [];
}

apply_changes_old_example :
    find_entity tombstoned "product" "p1"
    ≡ some
        (record { id = "p1"; kind = "product"; version = pos 3; deleted = true; payload = obj end })
unfolding apply_changes apply_change supersedes find_entity
apply_changes_old_example =
    apply_changes_old tombstoned tombstoned (product_row (pos 2) false ∷ []) "product" "p1" _ refl
      (omega arith) ((λ e. omega arith), tt) refl

apply_changes-NotOlder_example :
    NotOlder (find_entity tombstoned "product" "p1") (find_entity tombstoned "product" "p1")
unfolding apply_changes apply_change supersedes find_entity
apply_changes-NotOlder_example =
    apply_changes-NotOlder tombstoned tombstoned (product_row (pos 2) false ∷ []) "product" "p1"
      refl

abbrev one_product : List (String × List Json)
one_product =
    ("products", obj (field "id" (str "p1") (field "version" (num (pos 4)) end)) ∷ []) ∷ []

bootstrap_survival_example :
    (bootstrap all_well one_product "c1" cafe).1.state.outbox ≡ cafe.state.outbox
unfolding bootstrap row_change apply_change
bootstrap_survival_example = ((bootstrap_survival all_well one_product "c1" cafe).0 refl).0

with_tx-IsDurable_example :
    IsDurable
      (with_tx fails_to_replace
        (bind_body "https://api|dev")
        (record cafe { file = whole cafe.state })).1
with_tx-IsDurable_example =
    with_tx-IsDurable fails_to_replace (bind_body "https://api|dev")
      (record cafe { file = whole cafe.state }) refl (record { on_disk = refl })

abbrev product_at : ℤ → StoredEntity
product_at v = record {
  id = "p1";
  kind = "product";
  version = v;
  deleted = false;
  payload = obj end;
}

abbrev renewed : ℤ → PersistedDb
renewed v = record new_empty_db { entities = (entity_key "product" "p1", product_at v) ∷ [] }

-- Versions 4 and 5 reach a tombstone of version 3 in either order.
apply_change_comm_example :
    find_entity (renewed (pos 5)) "product" "p1" ≡ find_entity (renewed (pos 5)) "product" "p1"
unfolding apply_change supersedes find_entity insert
apply_change_comm_example =
    apply_change_comm tombstoned (renewed (pos 4)) (renewed (pos 5)) (renewed (pos 5))
      (renewed (pos 5)) (product_row (pos 4) false) (product_row (pos 5) false)
      (λ e. absurd (differ e)) refl refl refl refl "product" "p1"
  where
    differ : pos 4 ≡ pos 5 → ⊥
    differ e = cc
