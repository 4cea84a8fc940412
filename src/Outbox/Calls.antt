-- ===== src/Outbox/Calls.antt =====
-- Any sequence of QueueCatalog, SaveResults, Discard, Bootstrap, ApplyPage and Bind, failed ones included. ResetAll,
-- which empties the whole state, is no such call.
use menuvex_printer.Json.{Json}
use menuvex_printer.Outbox.{PushResult, discard, save_results}
use menuvex_printer.Outbox.Queue.{OneOpen, queue_catalog}
use menuvex_printer.Outbox.Results.{SameIntent}
use menuvex_printer.Outbox.Validate.{Literals}
use menuvex_printer.Prelude.{List, String, [], ℕ, ◌∷◌}
use menuvex_printer.Prelude.Int.{ℤ}
use menuvex_printer.Result.{Result}
use menuvex_printer.Store.{Io, Store, StoredOperation}
use menuvex_printer.Store.Changes.{Change, RawMessage, apply_page, bind, bootstrap, cursor}

-- A call of the outbox or of the synchronisation
pub data Call : Type 0 where
  queues :
      Io
      → String
      → String
      → String
      → ℕ
      → Literals
      → RawMessage
      → ℤ
      → Result String
      → Result String
      → String
      → Call
  saves : Io → List StoredOperation → List PushResult → Call
  discards : Io → String → Call
  bootstraps : Io → List (String × List Json) → String → Call
  pages : Io → List Change → String → Call
  binds : Io → String → Call

unfoldable pub run_call : Call → Store → Store
run_call (queues io kind i action size literals raw v fresh op_id now) s =
    (queue_catalog io kind i action size literals raw v fresh op_id now s).1
run_call (saves io sent results) s = (save_results io sent results s).1
run_call (discards io i) s = (discard io i s).1
run_call (bootstraps io sections cursor) s = (bootstrap io sections cursor s).1
run_call (pages io changes cursor) s = (apply_page io changes cursor s).1
run_call (binds io scope) s = (bind io scope s).1

unfoldable pub run_calls : List Call → Store → Store
run_calls [] s = s
run_calls (c ∷ cs) s = run_calls cs (run_call c s)

-- Every operation of the first list stands in the second at its place, with its intent.
abbrev pub Extends : List StoredOperation → List StoredOperation → Type 0
Extends [] ys = Unit {0}
Extends (x ∷ xs) [] = ⊥
Extends (x ∷ xs) (y ∷ ys) = SameIntent x y × Extends xs ys

-- What one call does to the outbox.
abbrev pub Kept : List StoredOperation → List StoredOperation → Type 0
Kept xs ys = Extends xs ys × (OneOpen xs → OneOpen ys)
