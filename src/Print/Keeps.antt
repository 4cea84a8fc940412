-- ===== src/Print/Keeps.antt =====
-- Printing a job, offline-menuvex/printing.go: what it leaves alone.
use mathlib.Core.Path.{subst}
use menuvex_printer.Prelude.{
  List, Option, String, ap, false, get_elem?, if_both, length, none, refl, some, str_eq, suc, zero,
  ℕ, ◌∙◌, ◌≡◌,
}
use menuvex_printer.Print.{PrintJobView, decode_print_job, encode_job}
use menuvex_printer.Print.Dispatch.{
  Outcome, Printing, dispatch_all, dispatch_from, dispatch_one, dispatch_print_job, print_started,
  skips_job,
}
use menuvex_printer.Print.Jobs.{update_body, update_print_job_status, with_status}
use menuvex_printer.Result.{>>=-eq-ok, Result, err, job_invalid, job_not_found, ok, ok_inj, or_fail}
use menuvex_printer.Store.{Io, PersistedDb, Store, StoredEntity, find_entity, find_live, put_entity}
use menuvex_printer.Store.Atomic.{with_tx_keeps}
use menuvex_printer.Store.Keys.{find-put}

body_keeps :
    (job_id status last_error now : String) (st st' : PersistedDb) (v : PrintJobView)
    (kind i : String)
    → str_eq "print_job" kind ≡ false
    → update_body job_id status last_error now st ≡ ok (st', v)
    → find_entity st' kind i ≡ find_entity st kind i
unfolding update_body
body_keeps job_id status last_error now st st' v kind i other h =
    let (e, found, h₁) = >>=-eq-ok (or_fail (find_live st "print_job" job_id) job_not_found) _ h in
    let (p, read, h₂) = >>=-eq-ok (or_fail (decode_print_job e.payload) job_invalid) _ h₁ in
    let p' = with_status status last_error now p in
    let e' : StoredEntity = record e { version = p'.version; payload = encode_job p' } in
    let is_st : put_entity "print_job" job_id e' st ≡ st' = ap (λ t. t.0) (ok_inj h₂) in
    subst (λ x. find_entity x kind i ≡ find_entity st kind i) is_st
      (rw (find-put st "print_job" job_id e' kind i, other) refl)

update_keeps :
    (io : Io) (job_id status last_error now : String) (s : Store) (kind i : String)
    → str_eq "print_job" kind ≡ false
    → find_entity (update_print_job_status io job_id status last_error now s).1.state kind i
      ≡ find_entity s.state kind i
unfolding update_print_job_status
update_keeps io job_id status last_error now s kind i other =
    with_tx_keeps (λ st. find_entity st kind i ≡ find_entity s.state kind i) io
      (update_body job_id status last_error now) s
      (λ tx v h. body_keeps job_id status last_error now s.state tx v kind i other h) refl

print_started_keeps :
    (pr : Printing) (r : (PrintJobView × Result PrintJobView) × Store) (kind i : String)
    → str_eq "print_job" kind ≡ false
    → find_entity (print_started pr r).1.state kind i ≡ find_entity r.1.state kind i
unfolding print_started
print_started_keeps pr ((started, err e), s) kind i other = refl
print_started_keeps pr ((started, ok v), s) kind i other =
    update_keeps pr.end_io started.id _ _ pr.ended_at s kind i other

-- No entity but the print jobs is touched while a job is printed, whatever fails.
pub dispatch_print_job-keeps :
    (pr : Printing) (job : PrintJobView) (s : Store) (kind i : String)
    → str_eq "print_job" kind ≡ false
    → find_entity (dispatch_print_job pr job s).1.state kind i ≡ find_entity s.state kind i
unfolding dispatch_print_job
dispatch_print_job-keeps pr job s kind i other =
    print_started_keeps pr
      (update_print_job_status pr.start_io job.id "printing" "" pr.started_at s) kind i other
    ∙ update_keeps pr.start_io job.id "printing" "" pr.started_at s kind i other

dispatch_one_keeps :
    (pr : Printing) (j : PrintJobView) (o : Outcome) (s : Store) (kind i : String)
    → str_eq "print_job" kind ≡ false
    → find_entity (dispatch_one pr j o s).1.state kind i ≡ find_entity s.state kind i
unfolding dispatch_one
dispatch_one_keeps pr j o s kind i other =
    if_both (λ (r : Outcome × Store). find_entity r.1.state kind i ≡ find_entity s.state kind i)
      (str_eq j.status "printed") _ _ refl
      (if_both (λ (r : Outcome × Store). find_entity r.1.state kind i ≡ find_entity s.state kind i)
        (skips_job j) _ _ refl (dispatch_print_job-keeps pr j s kind i other))

dispatch_from_keeps :
    (prs : ℕ → Printing) (k n : ℕ) (o : Outcome) (s : Store) (kind i : String)
    → str_eq "print_job" kind ≡ false
    → find_entity (dispatch_from prs k n o s).1.state kind i ≡ find_entity s.state kind i
unfolding dispatch_from
dispatch_from_keeps prs zero n o s kind i other = refl
dispatch_from_keeps prs (suc k) n o s kind i other =
    at (get_elem? o.jobs n) refl (λ o' s'. dispatch_from_keeps prs k (suc n) o' s' kind i other)
  where
    at :
        (m : Option PrintJobView)
        → get_elem? o.jobs n ≡ m
        → ((o' : Outcome) (s' : Store)
            → find_entity (dispatch_from prs k (suc n) o' s').1.state kind i
              ≡ find_entity s'.state kind i)
        → find_entity (dispatch_from prs (suc k) n o s).1.state kind i ≡ find_entity s.state kind i
    at none e later = rw (e, dispatch_from) refl
    at (some j) e later =
        rw (e, dispatch_from) (later _ _ ∙ dispatch_one_keeps (prs n) j o s kind i other)

-- Printing the jobs of an order, whatever fails on the way, leaves every entity but the print jobs as it was: the
-- order is still there.
pub dispatch_all-keeps :
    (prs : ℕ → Printing) (jobs : List PrintJobView) (s : Store) (kind i : String)
    → str_eq "print_job" kind ≡ false
    → find_entity (dispatch_all prs jobs s).1.state kind i ≡ find_entity s.state kind i
unfolding dispatch_all
dispatch_all-keeps prs jobs s kind i other =
    dispatch_from_keeps prs (length jobs) 0 _ s kind i other
