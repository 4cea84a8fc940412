-- ===== src/Print/Dispatch.antt =====
-- The printing of a job of offline-menuvex/printing.go: dispatchPrintJob and the loop of
-- enqueueAndDispatchPrintJobsDocs. `sends i` is how the i-th call of sendToPrinter turns out: the text of its
-- error, if there is one.
use menuvex_printer.Prelude.{
  Bool, List, Option, String, [], get_elem?, if◌then◌else◌, length, none, some, str_eq, suc, zero,
  ℕ, ◌&&◌, ◌∷◌,
}
use menuvex_printer.Prelude.Int.{ltb_ℤ, pos, pos_part}
use menuvex_printer.Print.{PrintJobView}
use menuvex_printer.Print.Jobs.{update_print_job_status}
use menuvex_printer.Print.Wants.{clamp_copies}
use menuvex_printer.Result.{Error, Result, err, ok}
use menuvex_printer.Store.{Io, Store}

-- for i := 0; i < copies; i++: the number of copies that were sent, and the error that ended the loop
unfoldable pub send_copies : (ℕ → Option String) → ℕ → ℕ → ℕ × Option String
send_copies sends i zero = (i, none)
send_copies sends i (suc n) = elim (sends i) [
  | some e ↦ (i, some e)
  | none ↦ send_copies sends (suc i) n
]

abbrev pub copies_to_send : PrintJobView → ℕ
copies_to_send job = pos_part (clamp_copies job.copies)

-- How the clock, the two transactions and the printer turn out while a job is printed, and what err.Error() is
pub record Printing : Type 0 where
  pub start_io : Io
  pub end_io : Io
  pub started_at : String
  pub ended_at : String
  pub sends : ℕ → Option String
  pub error_text : Error → String

unfoldable pub ended_as : ℕ × Option String → String × String
ended_as (n, none) = ("printed", "")
ended_as (n, some e) = ("failed", e)

-- dispatchPrintJob once the job is marked as printing
unfoldable pub print_started :
    Printing → (PrintJobView × Result PrintJobView) × Store → PrintJobView × Store
unfolding send_copies clamp_copies ended_as
print_started pr ((started, err e), s) =
    (record started { status = "failed"; last_error = pr.error_text e }, s)
print_started pr ((started, ok _), s) =
    let (status, text) = ended_as (send_copies pr.sends 0 (copies_to_send started)) in
    let ((ended, _), s') = update_print_job_status pr.end_io started.id status text pr.ended_at s in
    (ended, s')

-- dispatchPrintJob
unfoldable pub dispatch_print_job : Printing → PrintJobView → Store → PrintJobView × Store
unfolding print_started
dispatch_print_job pr job s =
    print_started pr (update_print_job_status pr.start_io job.id "printing" "" pr.started_at s)

-- jobs[i] = done, for each i with its id
unfoldable pub put_done : PrintJobView → List PrintJobView → List PrintJobView
put_done v [] = []
put_done v (j ∷ js) = let rest = put_done v js in if str_eq j.id v.id then v ∷ rest else j ∷ rest

pub record Outcome : Type 0 where
  pub jobs : List PrintJobView
  pub printed : ℕ
  pub failed : ℕ

unfoldable pub count_done : PrintJobView → Outcome → Outcome
unfolding put_done
count_done v o =
    if str_eq v.status "printed"
    then record o { jobs = put_done v o.jobs; printed = suc o.printed }
    else record o { jobs = put_done v o.jobs; failed = suc o.failed }

unfoldable pub skips_job : PrintJobView → Bool
skips_job j = str_eq j.status "failed" && ltb_ℤ (pos 0) j.attempts && str_eq j.printer_id ""

-- One turn of the loop, for a job as it stands in the slice now
unfoldable pub dispatch_one : Printing → PrintJobView → Outcome → Store → Outcome × Store
unfolding dispatch_print_job count_done skips_job
dispatch_one pr j o s =
    if str_eq j.status "printed"
    then (record o { printed = suc o.printed }, s)
    else if skips_job j
    then (record o { failed = suc o.failed }, s)
    else let (v, s') = dispatch_print_job pr j s in (count_done v o, s')

-- The loop from the i-th job on, with k jobs left
unfoldable pub dispatch_from : (ℕ → Printing) → ℕ → ℕ → Outcome → Store → Outcome × Store
unfolding dispatch_one
dispatch_from prs zero i o s = (o, s)
dispatch_from prs (suc k) i o s = elim (get_elem? o.jobs i) [
  | none ↦ (o, s)
  | some j ↦ let (o', s') = dispatch_one (prs i) j o s in dispatch_from prs k (suc i) o' s'
]

unfoldable pub dispatch_all : (ℕ → Printing) → List PrintJobView → Store → Outcome × Store
unfolding dispatch_from
dispatch_all prs jobs s =
    dispatch_from prs (length jobs) 0 (record { jobs = jobs; printed = 0; failed = 0 }) s
