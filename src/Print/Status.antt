-- ===== src/Print/Status.antt =====
-- UpdatePrintJobStatus of offline-menuvex/internal/store/printing.go: what PrintJob reads afterwards.
use mathlib.Core.Path.{subst}
use menuvex_printer.Entity.{get_entity}
use menuvex_printer.Prelude.{
  List, Option, String, ap, if_both, refl, some, str_eq, sym, true, ◌∙◌, ◌≡◌,
}
use menuvex_printer.Prelude.Int.{pos, ◌+ℤ◌}
use menuvex_printer.Print.{PrintJob, PrintJobView, decode_print_job, encode_job, job_view}
use menuvex_printer.Print.Codec.{
  IsStorable, decode_print_job-IsStorable, decode_print_job-encode_job, filled,
}
use menuvex_printer.Print.Jobs.{
  attempted, decoded_view, print_job, update_body, update_print_job_status, with_status,
}
use menuvex_printer.Result.{
  >>=-eq-ok, Result, job_invalid, job_not_found, ok, ok_inj, or_fail, or_fail-eq-ok,
}
use menuvex_printer.Store.{
  Io, PersistedDb, Store, StoredEntity, all_well, find_live, next_int64, put_entity,
}
use menuvex_printer.Store.Atomic.{with_tx_ok}
use menuvex_printer.Store.Keys.{find-put_self, find_live-find, find_live_of}
use menuvex_printer.Text.Decimal.{in_int64}
use menuvex_printer.Text.Decimal.Wrap.{wrap_int64-in_int64}

abbrev pub the_view : Option (List String) → PrintJobView → PrintJobView
the_view g v = record v { categories = g }

-- The job was there as p, and PrintJob now reads the view v: p with the new status and error, one more attempt
-- if the status is printing, and otherwise as it was.
abbrev pub Recorded : String → String → String → String → Store → Store → PrintJobView → Type 0
Recorded job_id status last_error now s s' v =
    (e : StoredEntity) × (p : PrintJob) × (find_live s.state "print_job" job_id ≡ some e)
    × (decode_print_job e.payload ≡ some p)
    × (v ≡ record (job_view p) {
      status = status;
      last_error = last_error;
      updated_at = now;
      attempts = attempted status p.attempts;
    })
    × (print_job all_well job_id s' ≡ ok (the_view (filled p.categories) v))

pub with_status-IsStorable :
    (status last_error now : String) (p : PrintJob)
    → IsStorable p
    → IsStorable (with_status status last_error now p)
unfolding with_status attempted next_int64
with_status-IsStorable status last_error now p (named, a, c, v) = (
  named,
  if_both (λ z. in_int64 z ≡ true) (str_eq status "printing") _ _
      (wrap_int64-in_int64 (p.attempts +ℤ pos 1)) a,
  c,
  wrap_int64-in_int64 (p.version +ℤ pos 1),
)

-- The same of the state alone
body_recorded :
    (job_id status last_error now : String) (st st' : PersistedDb) (v : PrintJobView)
    → update_body job_id status last_error now st ≡ ok (st', v)
    → (e : StoredEntity) × (p : PrintJob) × (find_live st "print_job" job_id ≡ some e)
      × (decode_print_job e.payload ≡ some p)
      × (v ≡ job_view (with_status status last_error now p))
      × ((e' : StoredEntity) × (find_live st' "print_job" job_id ≡ some e')
          × (decode_print_job e'.payload
              ≡ some (record (with_status status last_error now p) {
                categories = filled p.categories;
              })))
unfolding update_body with_status
body_recorded job_id status last_error now st st' v h =
    let (e, found, h₁) = >>=-eq-ok (or_fail (find_live st "print_job" job_id) job_not_found) _ h in
    let (p, read, h₂) = >>=-eq-ok (or_fail (decode_print_job e.payload) job_invalid) _ h₁ in
    let live : find_live st "print_job" job_id ≡ some e = or_fail-eq-ok _ _ found in
    let was : decode_print_job e.payload ≡ some p = or_fail-eq-ok _ _ read in
    let p' = with_status status last_error now p in
    let e' : StoredEntity = record e { version = p'.version; payload = encode_job p' } in
    let written : find_live (put_entity "print_job" job_id e' st) "print_job" job_id ≡ some e' =
      find_live_of (put_entity "print_job" job_id e' st) "print_job" job_id
        (find-put_self st "print_job" job_id e') (find_live-find st "print_job" job_id live).1 in
    let (is_st, is_v) = both h₂ in
    (
      e,
      p,
      live,
      was,
      sym is_v,
      (
        e',
        subst (λ x. find_live x "print_job" job_id ≡ some e') is_st written,
        decode_print_job-encode_job p' (
            with_status-IsStorable status last_error now p
              (decode_print_job-IsStorable e.payload p was)),
      ),
    )
  where
    both : {a b : PersistedDb × PrintJobView} → Result.ok a ≡ ok b → (a.0 ≡ b.0) × (a.1 ≡ b.1)
    both e = let same = ok_inj e in (ap (λ t. t.0) same, ap (λ t. t.1) same)

pub print_job_of :
    (job_id : String) (s : Store) (e : StoredEntity) (p : PrintJob)
    → find_live s.state "print_job" job_id ≡ some e
    → decode_print_job e.payload ≡ some p
    → print_job all_well job_id s ≡ ok (job_view p)
unfolding print_job decoded_view get_entity
print_job_of job_id s e p there reads = rw (there, print_job, decoded_view, reads) refl

-- A change of status that returns the view v is what PrintJob reads afterwards, on a store whose context is not
-- cancelled: the job has the new status and error, one more attempt if the status is printing, and is
-- otherwise as it was, but that an empty list of categories reads nil.
pub update_print_job_status-Recorded :
    (io : Io) (job_id status last_error now : String) (s : Store) (v : PrintJobView)
    → (update_print_job_status io job_id status last_error now s).0.1 ≡ ok v
    → Recorded job_id status last_error now s
        (update_print_job_status io job_id status last_error now s).1
        v
unfolding update_print_job_status with_status job_view
update_print_job_status-Recorded io job_id status last_error now s v h =
    let (run, d, _) = with_tx_ok io (update_body job_id status last_error now) s h in
    let (e, p, live, was, is_v, (e', there, reads)) =
      body_recorded job_id status last_error now s.state _ v run in
    (e, p, live, was, is_v, print_job_of job_id _ e' _ there reads ∙ seen is_v)
  where
    seen :
        {x y : PrintJobView} {g : Option (List String)}
        → x ≡ y
        → Result.ok (the_view g y) ≡ ok (the_view g x)
    seen e = cc
