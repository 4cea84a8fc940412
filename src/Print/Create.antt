-- ===== src/Print/Create.antt =====
-- createPrintJobs of offline-menuvex/internal/store/printing.go. `fresh n`, `ios n` and `now n` are what UUID(),
-- the transaction and the clock give for the n-th job that is saved. The jobs that were made before an error
-- are not returned here: no caller looks at them.
use menuvex_printer.Entity.{text_lt}
use menuvex_printer.Prelude.{
  Bool, List, Map, Option, String, [], if◌then◌else◌, insert, lookup, none, some, str_eq, string_eq,
  suc, ℕ, ◌||◌, ◌∷◌,
}
use menuvex_printer.Prelude.Int.{ℤ}
use menuvex_printer.Prelude.Sort.{sort_slice}
use menuvex_printer.Print.{PrintJob, PrintJobView, job_view}
use menuvex_printer.Print.Jobs.{print_jobs, save_print_job}
use menuvex_printer.Result.{Result, err, ok, random_failed, ◌>>◌}
use menuvex_printer.Store.{Io, Store}
use menuvex_printer.Text.{◌<>◌}
use menuvex_printer.Text.Decimal.{format_int}
use menuvex_printer.Text.Split.{join_with}

-- catSig
unfoldable pub category_sig : Option (List String) → String
unfolding sort_slice join_with
category_sig none = "all"
category_sig (some cs) = join_with "," (sort_slice text_lt cs)

unfoldable pub dedupe_key_of : String → String → String → ℤ → Option (List String) → String
unfolding ◌<>◌ format_int category_sig
dedupe_key_of order_id doc_type printer_id copies categories =
    order_id
    <> "|"
    <> doc_type
    <> "|"
    <> printer_id
    <> "|"
    <> format_int copies
    <> "|"
    <> category_sig categories

abbrev pub view_key : PrintJobView → String
view_key j = dedupe_key_of j.order_id j.doc_type j.printer_id j.copies j.categories

-- byDedupe[...] = j, for each job in turn
unfoldable pub by_dedupe : List PrintJobView → Map String PrintJobView → Map String PrintJobView
unfolding insert dedupe_key_of
by_dedupe [] m = m
by_dedupe (j ∷ js) m = by_dedupe js (insert (view_key j) j m)

-- A job of one of the four states stands for a new one.
unfoldable pub keeps_job : String → Bool
keeps_job status =
    str_eq status "pending"
    || str_eq status "printing"
    || str_eq status "printed"
    || str_eq status "failed"

unfoldable pub known_job : Map String PrintJobView → PrintJob → Option PrintJobView
unfolding lookup keeps_job
known_job by p = if str_eq p.dedupe_key "" then none else elim (lookup p.dedupe_key by) [
  | none ↦ none
  | some old ↦ if keeps_job old.status then some old else none
]

unfoldable pub with_first :
    PrintJobView → Result (List PrintJobView) × Store → Result (List PrintJobView) × Store
with_first v (ok vs, s) = (ok (v ∷ vs), s)
with_first v (err e, s) = (err e, s)

-- A job of its own identifier, saved
unfoldable pub save_new :
    Io → Option String → String → PrintJob → Store → Result PrintJobView × Store
unfolding save_print_job job_view
save_new io none now p s = (err random_failed, s)
save_new io (some i) now p s =
    let (r, s') = save_print_job io now (record p { id = i }) s in
    (r >> ok (job_view (record p { id = i })), s')

module _ (ios : ℕ → Io) (fresh : ℕ → Option String) (now : ℕ → String)
    (by : Map String PrintJobView) where
  -- The loop, with n jobs saved
  unfoldable pub create_each : ℕ → List PrintJob → Store → Result (List PrintJobView) × Store
  unfolding known_job with_first
  create_each n [] s = (ok [], s)
  create_each n (p ∷ ps) s = elim (known_job by p) [
    | some old ↦ with_first old (create_each n ps s)
    | none ↦
        let run = save_new (ios n) (fresh n) (now n) p s in
        elim run.0 [ err e ↦ (err e, run.1) | ok v ↦ with_first v (create_each (suc n) ps run.1) ]
  ]

unfoldable pub or_no_jobs : Result (List PrintJobView) → List PrintJobView
or_no_jobs (ok js) = js
or_no_jobs (err e) = []

unfoldable pub create_print_jobs :
    Io
    → (ℕ → Io)
    → (ℕ → Option String)
    → (ℕ → String)
    → String
    → List PrintJob
    → Store
    → Result (List PrintJobView) × Store
unfolding print_jobs or_no_jobs by_dedupe create_each
create_print_jobs io ios fresh now order_id payloads s =
    let existing = or_no_jobs (print_jobs io order_id s) in
    create_each ios fresh now (by_dedupe existing []) 0 payloads s
