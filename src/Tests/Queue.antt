-- ===== src/Tests/Queue.antt =====
-- Inputs for the outbox.
use menuvex_printer.Json.{end, field, null, num, obj, str}
use menuvex_printer.Outbox.{PushResult}
use menuvex_printer.Outbox.Listing.{AllPending, list_outbox, list_outbox-pending, sequence_of}
use menuvex_printer.Outbox.Queue.{Appended, queue_catalog, queue_catalog-Appended}
use menuvex_printer.Prelude.{String, [], false, none, refl, ◌∷◌, ◌≤◌}
use menuvex_printer.Prelude.Int.{pos, ℤ}
use menuvex_printer.Prelude.Sort.{IsAscending}
use menuvex_printer.Result.{ok}
use menuvex_printer.Store.{Store, StoredOperation, all_well, new_empty_db, torn}
use menuvex_printer.Store.Changes.{RawMessage, valid}

abbrev queued_edit : String → ℤ → StoredOperation
queued_edit i n = record {
  id = i;
  sequence = n;
  entity_type = "category";
  entity_id = i;
  action = "create";
  base_version = none;
  depends_on = [];
  payload = obj end;
  created_at = "now";
  state = "queued";
  outcome = obj end;
}

abbrev device : Store
device = record {
  closed = false;
  state = record new_empty_db {
    meta = ("scope", "https://api|dev") ∷ [];
    outbox = queued_edit "a" (pos 2) ∷ queued_edit "b" (pos 1) ∷ [];
    next_outbox_seq = pos 2;
  };
  file = torn;
}

abbrev applied_a : PushResult
applied_a = record { id = "a"; status = "applied"; problem = null }

list_outbox-pending_example :
    AllPending (queued_edit "b" (pos 1) ∷ queued_edit "a" (pos 2) ∷ [])
    × IsAscending sequence_of (queued_edit "b" (pos 1) ∷ queued_edit "a" (pos 2) ∷ [])
    × (2 ≤ 100)
unfolding list_outbox
list_outbox-pending_example = list_outbox-pending all_well device _ refl

abbrev new_category : RawMessage
new_category = valid (obj (field "title" (str "Drinks") end))

queue_catalog-Appended_example : Appended "category" device (
    queue_catalog all_well "category" "" "create" 18
      (λ key. "")
      new_category
      (pos 0)
      (ok "c1")
      (ok "op1")
      "now"
      device)
unfolding queue_catalog
queue_catalog-Appended_example =
    queue_catalog-Appended all_well "category" "" "create" 18 (λ key. "") new_category (pos 0)
      (ok "c1") (ok "op1") "now" device

-- The price is written with two digits after the dot.
abbrev new_price : RawMessage
new_price = valid (obj (field "price" (num (pos 5)) end))
