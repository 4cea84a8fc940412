-- ===== src/Print/Jobs.antt =====
-- The operations on the stored print jobs: savePrintJob, PrintJobs, PrintJob, UpdatePrintJobStatus and
-- EnqueueTestPrintJob of offline-menuvex/internal/store/printing.go.
use menuvex_printer.Entity.{Entity, entities, field_of, get_entity, label, text_lt}
use menuvex_printer.Json.{Json}
use menuvex_printer.Prelude.{
  Bool, List, Option, String, [], false, if◌then◌else◌, none, not, some, str_eq, take, ◌&&◌, ◌||◌,
  ◌∷◌,
}
use menuvex_printer.Prelude.Int.{pos, ℤ}
use menuvex_printer.Prelude.Sort.{sort_slice}
use menuvex_printer.Print.{
  PrintJob, PrintJobView, decode_print_job, encode_job, job_view, zero_view,
}
use menuvex_printer.Result.{
  Result, err, job_invalid, job_not_found, ok, or_fail, printer_not_found, random_failed, ◌>>=◌,
  ◌>>◌,
}
use menuvex_printer.Store.{
  Io, PersistedDb, Store, StoredEntity, find_entity, find_live, next_int64, put_entity, with_tx,
}
use menuvex_printer.Text.{◌<>◌}

abbrev pub job_entity : String → ℤ → Json → StoredEntity
job_entity i v raw = record {
  id = i;
  kind = "print_job";
  version = v;
  deleted = false;
  payload = raw;
}

unfoldable pub version_after : Option StoredEntity → ℤ
unfolding next_int64
version_after none = pos 1
version_after (some old) = next_int64 old.version

unfoldable pub save_body : PrintJob → PersistedDb → Result (PersistedDb × Unit {0})
unfolding find_entity version_after put_entity encode_job
save_body p st =
    let next = version_after (find_entity st "print_job" p.id) in
    ok (
      put_entity "print_job" p.id (job_entity p.id next (encode_job (record p { version = next })))
          st,
      tt,
    )

-- savePrintJob, at the time `now`
unfoldable pub save_print_job : Io → String → PrintJob → Store → Result (Unit {0}) × Store
unfolding with_tx save_body
save_print_job io now p s = with_tx io (save_body (record p { updated_at = now })) s

unfoldable pub jobs_of : String → List Entity → List PrintJobView
unfolding decode_print_job job_view
jobs_of order_id [] = []
jobs_of order_id (e ∷ es) =
    let rest = jobs_of order_id es in
    elim (decode_print_job e.payload) [
      | none ↦ rest
      | some p ↦
          if not (str_eq order_id "") && not (str_eq p.order_id order_id)
          then rest
          else job_view p ∷ rest
    ]

abbrev pub newest_first : PrintJobView → PrintJobView → Bool
newest_first a b = text_lt b.created_at a.created_at

-- PrintJobs: of one order, or of all for ""
unfoldable pub print_jobs : Io → String → Store → Result (List PrintJobView)
unfolding entities jobs_of sort_slice
print_jobs io order_id s = do
  es ← entities io "print_job" s
  ok (take 100 (sort_slice newest_first (jobs_of order_id es)))

unfoldable pub decoded_view : Json → Result PrintJobView
unfolding decode_print_job job_view
decoded_view raw = elim (decode_print_job raw) [ none ↦ err job_invalid | some p ↦ ok (job_view p) ]

-- PrintJob
unfoldable pub print_job : Io → String → Store → Result PrintJobView
unfolding get_entity decoded_view
print_job io job_id s = elim (get_entity io "print_job" job_id s) [
  | err e ↦ err job_not_found
  | ok e ↦ decoded_view e.payload
]

-- p.Attempts++ on an int
unfoldable pub attempted : String → ℤ → ℤ
unfolding next_int64
attempted status n = if str_eq status "printing" then next_int64 n else n

unfoldable pub with_status : String → String → String → PrintJob → PrintJob
unfolding attempted next_int64
with_status status last_error now p = record p {
  attempts = attempted status p.attempts;
  status = status;
  last_error = last_error;
  updated_at = now;
  version = next_int64 p.version;
}

unfoldable pub update_body :
    String → String → String → String → PersistedDb → Result (PersistedDb × PrintJobView)
unfolding find_live decode_print_job with_status put_entity encode_job job_view
update_body job_id status last_error now st = do
  e ← or_fail (find_live st "print_job" job_id) job_not_found
  p ← or_fail (decode_print_job e.payload) job_invalid
  let p' = with_status status last_error now p
  ok (
    put_entity "print_job" job_id (record e { version = p'.version; payload = encode_job p' }) st,
    job_view p',
  )

-- The variable `result`, which the body sets whether or not the transaction is then committed
unfoldable pub result_view : Io → Store → Result (PersistedDb × PrintJobView) → PrintJobView
result_view io s (err e) = zero_view
result_view io s (ok (st, v)) = if io.cancelled || s.closed then zero_view else v

-- UpdatePrintJobStatus: the error, if there is one, and the view
unfoldable pub update_print_job_status :
    Io → String → String → String → String → Store → (PrintJobView × Result PrintJobView) × Store
unfolding with_tx update_body result_view
update_print_job_status io job_id status last_error now s =
    let (r, s') = with_tx io (update_body job_id status last_error now) s in
    ((result_view io s (update_body job_id status last_error now s.state), r), s')

unfoldable pub paper_of : Json → String
unfolding field_of
paper_of payload =
    let paper = field_of payload "paper_width" in
    if not (str_eq paper "58mm") && not (str_eq paper "80mm") then "80mm" else paper

unfoldable pub test_job : Entity → String → String → PrintJob
unfolding label field_of paper_of ◌<>◌
test_job printer job_id now = record {
  id = job_id;
  order_id = "";
  order_number = "";
  doc_type = "test";
  printer_id = printer.id;
  printer_title = label printer;
  connection = field_of printer.payload "connection";
  queue = field_of printer.payload "queue";
  paper_width = paper_of printer.payload;
  status = "pending";
  last_error = "";
  attempts = pos 0;
  copies = pos 0;
  categories = none;
  dedupe_key = "test|" <> job_id;
  created_at = now;
  updated_at = now;
  version = pos 0;
}

-- EnqueueTestPrintJob; `fresh` is what UUID() gives
unfoldable pub enqueue_test_print_job :
    Io → Io → String → Option String → String → String → Store → Result PrintJobView × Store
unfolding get_entity test_job save_print_job job_view
enqueue_test_print_job io io' printer_id fresh now saved_at s =
    elim (get_entity io "printer" printer_id s) [
      | err e ↦ (err printer_not_found, s)
      | ok printer ↦ elim fresh [
        | none ↦ (err random_failed, s)
        | some job_id ↦
            let p = test_job printer job_id now in
            let (r, s') = save_print_job io' saved_at p s in (r >> ok (job_view p), s')
      ]
    ]
