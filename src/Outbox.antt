-- ===== src/Outbox.antt =====
-- offline-menuvex/internal/store/outbox.go: the queue of edits for the server. Validation of an edit is in
-- Outbox/Validate.
pub mod Validate
pub mod Results
pub mod Queue
pub mod Listing
pub mod Calls
use mathlib.Core.Option
use menuvex_printer.Json.{Json, end, field, obj, str}
use menuvex_printer.Prelude.{
  Bool, List, Map, Option, String, [], false, if◌then◌else◌, insert, length, lookup, none, not,
  some, str_eq, string_eq, suc, true, without, zero, ℕ, ◌&&◌, ◌++◌, ◌==◌, ◌||◌, ◌∷◌,
}
use menuvex_printer.Prelude.Int.{ltb_ℤ, pos, ℤ}
use menuvex_printer.Result.{
  Result, batch_not_covered, changed_while_editing, duplicate_or_unknown, err, no_device,
  no_version, not_discardable, not_in_snapshot, ok, or_fail, outbox_changed, pending_intent,
  refuse_if, unknown_status, ◌>>=◌, ◌>>◌,
}
use menuvex_printer.Store.{
  Io, PersistedDb, Store, StoredOperation, after_check, find_live, meta_of, next_int64, with_tx,
}

-- A pushed operation comes back as a Result of the source.
pub record PushResult : Type 0 where
  pub id : String
  pub status : String
  pub problem : Json

unfoldable pub is_pending : String → Bool
is_pending state = str_eq state "queued" || str_eq state "retry" || str_eq state "not_processed"

unfoldable pub is_result_status : String → Bool
is_result_status status =
    str_eq status "applied"
    || str_eq status "conflict"
    || str_eq status "rejected"
    || str_eq status "retry"
    || str_eq status "not_processed"
    || str_eq status "skipped"

unfoldable pub expect_all : List StoredOperation → Map String Bool → Map String Bool
unfolding insert
expect_all [] expected = expected
expect_all (op ∷ ops) expected = expect_all ops (insert op.id true expected)

-- expected[id]; a missing key reads false
unfoldable pub is_expected : Map String Bool → String → Bool
unfolding lookup
is_expected expected i = elim (lookup i expected) [ none ↦ false | some b ↦ b ]

unfoldable pub check_each : Map String Bool → List PushResult → Result (Unit {0})
unfolding is_expected is_result_status without
check_each expected [] = ok tt
check_each expected (r ∷ rs) = do
  refuse_if (not (is_expected expected r.id)) duplicate_or_unknown
  refuse_if (not (is_result_status r.status)) unknown_status
  check_each (without r.id expected) rs

unfoldable pub check_results : List StoredOperation → List PushResult → Result (Unit {0})
unfolding expect_all check_each
check_results sent results = do
  refuse_if (not (length sent == length results)) batch_not_covered
  check_each (expect_all sent []) results

-- byID: the last position of the id
unfoldable pub last_index : String → List StoredOperation → Option ℕ
last_index i [] = none
last_index i (op ∷ ops) = elim (last_index i ops) [
  | some n ↦ some (suc n)
  | none ↦ if str_eq op.id i then some zero else none
]

-- json.Marshal of a result
unfoldable pub result_json : PushResult → Json
result_json r =
    obj (
      field "operation_id" (str r.id) (field "status" (str r.status) (field "error" r.problem end)))

unfoldable pub with_result : PushResult → StoredOperation → StoredOperation
with_result r op = record op { state = r.status; outcome = result_json r }

-- One result at the position that its id has.
unfoldable pub settle_at : PushResult → ℕ → List StoredOperation → Result (List StoredOperation)
unfolding is_pending with_result
settle_at r i [] = err outbox_changed
settle_at r zero (op ∷ ops) =
    if is_pending op.state then ok (with_result r op ∷ ops) else err outbox_changed
settle_at r (suc i) (op ∷ ops) = do rest ← settle_at r i ops; ok (op ∷ rest)

unfoldable pub settle : PushResult → List StoredOperation → Result (List StoredOperation)
unfolding last_index settle_at
settle r ops = do i ← or_fail (last_index r.id ops) outbox_changed; settle_at r i ops

unfoldable pub settle_all : List PushResult → List StoredOperation → Result (List StoredOperation)
settle_all [] ops = ok ops
settle_all (r ∷ rs) ops = do ops' ← settle r ops; settle_all rs ops'

unfoldable pub save_results_body : List PushResult → PersistedDb → Result (PersistedDb × Unit {0})
unfolding settle_all
save_results_body results st = do
  ops ← settle_all results st.outbox
  ok (record st { outbox = ops }, tt)

unfoldable pub save_results :
    Io → List StoredOperation → List PushResult → Store → Result (Unit {0}) × Store
unfolding check_results save_results_body after_check
save_results io sent results s =
    after_check (check_results sent results) io (save_results_body results) s

unfoldable pub is_blocked : String → Bool
is_blocked state = str_eq state "conflict" || str_eq state "rejected" || str_eq state "skipped"

unfoldable pub discard_in : String → List StoredOperation → Result (List StoredOperation)
unfolding is_blocked
discard_in i [] = err not_discardable
discard_in i (op ∷ ops) =
    let rest = discard_in i ops in
    if str_eq op.id i && is_blocked op.state
    then ok (record op { state = "discarded" } ∷ ops)
    else (do kept ← rest; ok (op ∷ kept))

unfoldable pub discard_body : String → PersistedDb → Result (PersistedDb × Unit {0})
unfolding discard_in
discard_body i st = do ops ← discard_in i st.outbox; ok (record st { outbox = ops }, tt)

unfoldable pub discard : Io → String → Store → Result (Unit {0}) × Store
unfolding discard_body with_tx
discard io i s = with_tx io (discard_body i) s

-- op.State != "applied" && op.State != "discarded"
unfoldable pub is_open : String → Bool
is_open state = not (str_eq state "applied") && not (str_eq state "discarded")

unfoldable pub has_open : String → String → List StoredOperation → Bool
unfolding is_open
has_open kind i [] = false
has_open kind i (op ∷ ops) =
    (str_eq op.entity_type kind && str_eq op.entity_id i && is_open op.state) || has_open kind i ops

-- The version that an edit is based on; a new record has none.
unfoldable pub base_of : String → String → String → ℤ → PersistedDb → Result (Option ℤ)
unfolding find_live
base_of kind i action expected_version st = if str_eq action "create" then ok none else do
  existing ← or_fail (find_live st kind i) not_in_snapshot
  refuse_if (ltb_ℤ existing.version expected_version || ltb_ℤ expected_version existing.version)
      changed_while_editing
  refuse_if (ltb_ℤ existing.version (pos 1)) no_version
  ok (some existing.version)

unfoldable pub queue_body :
    String
    → String
    → String
    → Json
    → ℤ
    → String
    → String
    → PersistedDb
    → Result (PersistedDb × String)
unfolding meta_of has_open base_of next_int64
queue_body kind i action payload expected_version op_id now st = do
  refuse_if (str_eq (meta_of st "scope") "") no_device
  refuse_if (has_open kind i st.outbox) pending_intent
  base ← base_of kind i action expected_version st
  ok (
    record st {
      next_outbox_seq = next_int64 st.next_outbox_seq;
      outbox =
          st.outbox
          ++ (record {
            id = op_id;
            sequence = next_int64 st.next_outbox_seq;
            entity_type = kind;
            entity_id = i;
            action = action;
            base_version = base;
            depends_on = [];
            payload = payload;
            created_at = now;
            state = "queued";
            outcome = obj end;
          })
            ∷ [];
    },
    i,
  )
