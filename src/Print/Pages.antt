-- ===== src/Print/Pages.antt =====
-- The handlers of the printing in offline-menuvex/app.go, handlePrintRetry, handlePrintTest and handlePrintOrder for
-- one order, and autoPrint of offline-menuvex/printing.go.
use menuvex_printer.Prelude.{
  Bool, List, Map, Option, String, [], false, if◌then◌else◌, lookup, none, not, some, str_eq,
  string_eq, suc, true, ℕ, ◌&&◌, ◌||◌, ◌∷◌,
}
use menuvex_printer.Prelude.Int.{pos, ℤ}
use menuvex_printer.Print.{PrintJobView}
use menuvex_printer.Print.Dispatch.{Outcome, Printing, dispatch_all, dispatch_print_job}
use menuvex_printer.Print.Enqueue.{Visits, enqueue_order_print_jobs_docs}
use menuvex_printer.Print.Jobs.{enqueue_test_print_job, print_job, update_print_job_status}
use menuvex_printer.Print.Policy.{auto_docs, both_docs, printer_enabled}
use menuvex_printer.Print.Settings.{form_doc}
use menuvex_printer.Result.{Error, Result, err, ok}
use menuvex_printer.Store.{Io, Store}
use menuvex_printer.Text.{trim_space}

-- The message of the page that a handler shows
pub data PrintNotice : Type 0 where
  printer_off : PrintNotice
  no_order_id : PrintNotice
  not_done : Error → PrintNotice
  already_printed : PrintNotice
  printed_job : PrintJobView → PrintNotice
  failed_job : PrintJobView → PrintNotice
  counted : Bool → ℕ → ℕ → PrintNotice
  summary : Outcome → PrintNotice

unfoldable pub job_notice : PrintJobView → PrintNotice
job_notice v = if str_eq v.status "printed" then printed_job v else failed_job v

unfoldable pub print_and_tell : Printing → PrintJobView → Store → PrintNotice × Store
unfolding dispatch_print_job job_notice
print_and_tell pr job s = let (v, s') = dispatch_print_job pr job s in (job_notice v, s')

-- handlePrintRetry
unfoldable pub handle_print_retry : Io → Printing → String → Store → PrintNotice × Store
unfolding printer_enabled print_job trim_space print_and_tell
handle_print_retry io pr form_job s =
    if not (printer_enabled io s)
    then (printer_off, s)
    else elim (print_job io (trim_space form_job) s) [
      | err e ↦ (not_done e, s)
      | ok job ↦
          if str_eq job.status "printed" then (already_printed, s) else print_and_tell pr job s
    ]

-- handlePrintTest
unfoldable pub handle_print_test :
    Io → Io → Printing → Option String → String → String → String → Store → PrintNotice × Store
unfolding printer_enabled enqueue_test_print_job trim_space print_and_tell
handle_print_test io io' pr fresh now saved_at form_printer s =
    if not (printer_enabled io s)
    then (printer_off, s)
    else let (r, s') =
        enqueue_test_print_job io io' (trim_space form_printer) fresh now saved_at s in
      elim r [ err e ↦ (not_done e, s') | ok job ↦ print_and_tell pr job s' ]

unfoldable pub count_status : String → ℕ × ℕ → ℕ × ℕ
count_status status (good, bad) =
    if str_eq status "printed" then (suc good, bad) else (good, suc bad)

-- One job of the document: a printed one is set back to pending first, so that it is printed again.
unfoldable pub reprint_one : Io → String → Printing → PrintJobView → ℕ × ℕ → Store → (ℕ × ℕ) × Store
unfolding update_print_job_status dispatch_print_job count_status
reprint_one io now pr j (good, bad) s =
    let s' =
      if str_eq j.status "printed"
      then (update_print_job_status io j.id "pending" "" now s).1
      else s in
    if str_eq j.status "failed" && str_eq j.printer_id ""
    then ((good, suc bad), s')
    else let (v, t) = dispatch_print_job pr j s' in (count_status v.status (good, bad), t)

-- The loop over the jobs of the order, of which those of the document are printed
unfoldable pub reprint_each :
    Io
    → (ℕ → String)
    → (ℕ → Printing)
    → String
    → ℕ
    → List PrintJobView
    → Bool × (ℕ × ℕ)
    → Store
    → (Bool × (ℕ × ℕ)) × Store
unfolding reprint_one
reprint_each io now prs doc n [] acc s = (acc, s)
reprint_each io now prs doc n (j ∷ js) (found, counts) s =
    let run = reprint_one io (now n) (prs n) j counts s in
    let is_doc = str_eq j.doc_type doc in
    reprint_each io now prs doc (suc n) js (if is_doc then (true, run.0) else (found, counts))
      (if is_doc then run.1 else s)

-- What the calls of one order's printing need from outside
pub record PrintCalls : Type 0 where
  pub reading : Io
  pub saving : ℕ → Io
  pub fresh : ℕ → Option String
  pub asked_at : String
  pub saved_at : ℕ → String
  pub printing : ℕ → Printing

unfoldable pub enqueue_docs :
    Visits → PrintCalls → String → Map String ℤ → Store → Result (List PrintJobView) × Store
unfolding enqueue_order_print_jobs_docs lookup
enqueue_docs visits calls order_id wanted s =
    enqueue_order_print_jobs_docs visits calls.reading calls.saving calls.fresh calls.asked_at
      calls.saved_at order_id (copies_of (lookup "customer" wanted))
      (copies_of (lookup "kitchen" wanted)) s
  where
    copies_of : Option ℤ → ℤ
    copies_of none = pos 0
    copies_of (some n) = n

-- enqueueAndDispatchPrintJobsDocs
unfoldable pub enqueue_and_dispatch :
    Visits → PrintCalls → String → Map String ℤ → Store → PrintNotice × Store
unfolding enqueue_docs dispatch_all
enqueue_and_dispatch visits calls order_id wanted s =
    let (r, s') = enqueue_docs visits calls order_id wanted s in
    elim r [
      | err e ↦ (not_done e, s')
      | ok jobs ↦ let (o, t) = dispatch_all calls.printing jobs s' in (summary o, t)
    ]

-- autoPrint; it tells nothing where there is nothing to print
unfoldable pub auto_print :
    Visits → PrintCalls → String → String → Store → Option PrintNotice × Store
unfolding auto_docs enqueue_and_dispatch
auto_print visits calls order_id event s = elim (auto_docs calls.reading event s) [
  | [] ↦ (none, s)
  | d ∷ ds ↦
      let (notice, t) = enqueue_and_dispatch visits calls order_id (d ∷ ds) s in (some notice, t)
]

-- handlePrintOrder; a reprint has its own clock
unfoldable pub handle_print_order :
    Visits → PrintCalls → (ℕ → String) → String → String → Store → PrintNotice × Store
unfolding printer_enabled trim_space enqueue_docs reprint_each enqueue_and_dispatch
handle_print_order visits calls again_at form_order form_doc s =
    let order_id = trim_space form_order in
    let doc = trim_space form_doc in
    if not (printer_enabled calls.reading s)
    then (printer_off, s)
    else if str_eq order_id ""
    then (no_order_id, s)
    else if str_eq doc "customer" || str_eq doc "kitchen"
    then (let (r, s') = enqueue_docs visits calls order_id (both_docs (pos 1)) s in
        elim r [
          | err e ↦ (not_done e, s')
          | ok jobs ↦
              let (acc, t) =
                reprint_each calls.reading again_at calls.printing doc 0 jobs (false, (0, 0)) s' in
              (counted acc.0 acc.1.0 acc.1.1, t)
        ])
    else enqueue_and_dispatch visits calls order_id (both_docs (pos 1)) s

-- The jobs that autoPrintAsync sends in the background, in their order; the printed ones are left out
unfoldable pub print_waiting : (ℕ → Printing) → ℕ → List PrintJobView → Store → Store
unfolding dispatch_print_job
print_waiting prs n [] s = s
print_waiting prs n (j ∷ js) s =
    print_waiting prs (suc n) js
      (if str_eq j.status "printed" then s else (dispatch_print_job (prs n) j s).1)

-- autoPrintAsync, with its goroutine run to its end
unfoldable pub auto_print_async : Visits → PrintCalls → String → String → Store → Store
unfolding auto_docs enqueue_docs print_waiting
auto_print_async visits calls order_id event s = elim (auto_docs calls.reading event s) [
  | [] ↦ s
  | d ∷ ds ↦
      let (r, s') = enqueue_docs visits calls order_id (d ∷ ds) s in
      elim r [ err e ↦ s' | ok jobs ↦ print_waiting calls.printing 0 jobs s' ]
]
