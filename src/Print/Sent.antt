-- ===== src/Print/Sent.antt =====
-- dispatchPrintJob of offline-menuvex/printing.go: what is recorded of the copies that were sent.
use mathlib.Core.Path.{subst}
use menuvex_printer.Prelude.{
  Option, String, ap, arith, false, if◌then◌else◌, inl, inr, none, refl, some, suc, sym, zero, ℕ,
  ◌+◌, ◌-◌, ◌<◌, ◌∙◌, ◌≡◌, ◌≤◌, ◌⊎◌,
}
use menuvex_printer.Prelude.Int.{ltb_ℤ, negsuc, pos, pos_part, ℤ, ◌≤ℤ◌}
use menuvex_printer.Print.{PrintJob, PrintJobView, decode_print_job, encode_job, job_view}
use menuvex_printer.Print.Codec.{decode_print_job-IsStorable, decode_print_job-encode_job, filled}
use menuvex_printer.Print.Dispatch.{
  Printing, copies_to_send, dispatch_print_job, ended_as, print_started, send_copies,
}
use menuvex_printer.Print.Jobs.{
  attempted, result_view, update_body, update_print_job_status, with_status,
}
use menuvex_printer.Print.Status.{with_status-IsStorable}
use menuvex_printer.Print.Wants.{clamp_copies}
use menuvex_printer.Result.{Result, ok}
use menuvex_printer.Store.{Store, StoredEntity, all_well, find_live, next_int64, put_entity, whole}
use menuvex_printer.Store.Atomic.{with_tx_well}
use menuvex_printer.Store.Keys.{find-put_self, find_live-find, find_live_of}

abbrev pub next_job : String → String → String → PrintJob → PrintJob
next_job status last_error now p = record (with_status status last_error now p) {
  categories = filled p.categories;
}

-- The job stands in the store, which is open, as p.
abbrev pub HasJob : String → PrintJob → Store → Type 0
HasJob job_id p s =
    (e : StoredEntity) × (s.closed ≡ false)
    × (find_live s.state "print_job" job_id ≡ some e)
    × (decode_print_job e.payload ≡ some p)

update_well :
    (job_id status last_error now : String) (p : PrintJob) (s : Store)
    → HasJob job_id p s
    → (s' : Store) × (update_print_job_status all_well job_id status last_error now s ≡ (
      (
        job_view (with_status status last_error now p),
        ok (job_view (with_status status last_error now p)),
      ),
      s',
    ))
      × HasJob job_id (next_job status last_error now p) s'
unfolding update_print_job_status result_view update_body
update_well job_id status last_error now p s (e, alive, live, was) =
    let v = job_view (with_status status last_error now p) in
    let p' = with_status status last_error now p in
    let e' : StoredEntity = record e { version = p'.version; payload = encode_job p' } in
    let st' = put_entity "print_job" job_id e' s.state in
    let s' : Store = record s { state = st'; file = whole st' } in
    let runs : update_body job_id status last_error now s.state ≡ ok (st', v) =
      rw (live, was) refl in
    (
      s',
      rw (with_tx_well (update_body job_id status last_error now) s alive runs, runs, alive) refl,
      (
        e',
        alive,
        find_live_of st' "print_job" job_id (find-put_self s.state "print_job" job_id e')
            (find_live-find s.state "print_job" job_id live).1,
        decode_print_job-encode_job p' (
            with_status-IsStorable status last_error now p
              (decode_print_job-IsStorable e.payload p was)),
      ),
    )

-- The n copies from the i-th on were sent.
abbrev pub AllSent : (ℕ → Option String) → ℕ → ℕ → Type 0
AllSent sends i zero = Unit {0}
AllSent sends i (suc n) = (sends i ≡ none) × AllSent sends (suc i) n

-- All of the copies were sent, or the j-th failed and those before it were sent.
abbrev pub HowSent : (ℕ → Option String) → ℕ → ℕ → ℕ × Option String → Type 0
HowSent sends i n (j, t) =
    ((t ≡ none) × AllSent sends i n)
    ⊎ ((e : String) × (t ≡ some e)
        × (sends j ≡ some e)
        × (i ≤ j)
        × (j < i + n)
        × AllSent sends i (j - i))

send_copies-HowSent :
    (sends : ℕ → Option String) (n i : ℕ) → HowSent sends i n (send_copies sends i n)
unfolding send_copies
send_copies-HowSent sends zero i = inl (refl, tt)
send_copies-HowSent sends (suc n) i = first (sends i) refl (send_copies-HowSent sends n (suc i))
  where
    step :
        (j : ℕ)
        → suc i ≤ j
        → sends i ≡ none
        → AllSent sends (suc i) (j - suc i)
        → AllSent sends i (j - i)
    step j h here rest = subst (AllSent sends i) (the_gap j h) (here, rest)
      where
        the_gap : (j : ℕ) → suc i ≤ j → suc (j - suc i) ≡ j - i
        the_gap j h = omega arith

    no_gap : (i : ℕ) → 0 ≡ i - i
    no_gap i = omega arith

    first :
        (o : Option String)
        → sends i ≡ o
        → HowSent sends (suc i) n (send_copies sends (suc i) n)
        → HowSent sends i (suc n) (send_copies sends i (suc n))
    first (some e) h later =
        rw (h, send_copies)
          (inr (e, refl, h, omega arith, omega arith, subst (AllSent sends i) (no_gap i) tt))
    first none h (inl (t, all)) = rw (h, send_copies) (inl (t, (refl, all)))
    first none h (inr (e, t, bad, low, high, before)) =
        rw (h, send_copies) (inr (e, t, bad, omega arith, omega arith, step _ low h before))

-- The job as printing leaves it, with one more attempt: printed if all of its copies were sent, and otherwise
-- failed, with the error of the first copy that could not be sent.
abbrev pub JobSettled : (ℕ → Option String) → ℕ → PrintJob → PrintJob → Type 0
JobSettled sends copies p q =
    (q.attempts ≡ next_int64 p.attempts)
    × (((q.status ≡ "printed") × (q.last_error ≡ "") × AllSent sends 0 copies)
        ⊎ ((j : ℕ) × (q.status ≡ "failed")
            × (sends j ≡ some q.last_error)
            × (j < copies)
            × AllSent sends 0 j))

-- How many copies of a job are due: the number that is stored, but one below 1 and five above 5.
abbrev pub IsDue : ℤ → ℕ → Type 0
IsDue z n = ((z ≤ℤ pos 0) × (n ≡ 1)) ⊎ ((z ≡ pos n) × (1 ≤ n) × (n ≤ 5)) ⊎ ((pos 6 ≤ℤ z) × (n ≡ 5))

copies_to_send-IsDue : (p : PrintJob) → IsDue p.copies (copies_to_send (job_view p))
unfolding clamp_copies job_view
copies_to_send-IsDue p = due p.copies
  where
    due : (z : ℤ) → IsDue z (pos_part (clamp_copies (if ltb_ℤ z (pos 1) then pos 1 else z)))
    due (negsuc n) = inl (omega arith, ground arith)
    due (pos zero) = inl (omega arith, refl)
    due (pos (suc zero)) = inr (inl (refl, omega arith, omega arith))
    due (pos (suc (suc zero))) = inr (inl (refl, omega arith, omega arith))
    due (pos (suc (suc (suc zero)))) = inr (inl (refl, omega arith, omega arith))
    due (pos (suc (suc (suc (suc zero))))) = inr (inl (refl, omega arith, omega arith))
    due (pos (suc (suc (suc (suc (suc zero)))))) = inr (inl (refl, omega arith, omega arith))
    due (pos (suc (suc (suc (suc (suc (suc n))))))) = inr (inr (omega arith, ground arith))

abbrev pub well : Printing → Printing
well pr = record pr { start_io = all_well; end_io = all_well }

settled_by :
    (sends : ℕ → Option String) (copies : ℕ) (t₁ t₂ : String) (p : PrintJob) (r : ℕ × Option String)
    → HowSent sends 0 copies r
    → JobSettled sends copies p
        (next_job (ended_as r).0 (ended_as r).1 t₂ (next_job "printing" "" t₁ p))
unfolding ended_as with_status attempted
settled_by sends copies t₁ t₂ p (j, none) (inl (t, all)) = (refl, inl (refl, refl, all))
settled_by sends copies t₁ t₂ p (j, some e) (inl (t, all)) = cc
settled_by sends copies t₁ t₂ p (j, none) (inr (e, t, bad, low, high, before)) = cc
settled_by sends copies t₁ t₂ p (j, some x) (inr (e, t, bad, low, high, before)) =
    (refl, inr (j, refl, bad ∙ sym t, omega arith, subst (AllSent sends 0) (from_zero j) before))
  where
    from_zero : (j : ℕ) → j - 0 ≡ j
    from_zero j = omega arith

abbrev shown : (PrintJobView × Result PrintJobView) × Store → PrintJobView × Store
shown ((v, r), s) = (v, s)

-- On an open store whose calls succeed, a job that stands there is printed in as many copies as it asks for, but at
-- least one and at most five. It is left with one more attempt, as printed if all of them were sent, and otherwise
-- as failed, with the error of the first copy that was not, the copies before it having been sent.
pub dispatch_print_job-JobSettled :
    (pr : Printing) (job : PrintJobView) (p : PrintJob) (s : Store)
    → HasJob p.id p s
    → job.id ≡ p.id
    → (n : ℕ) × (q : PrintJob) × IsDue p.copies n
      × HasJob p.id q (dispatch_print_job (well pr) job s).1
      × JobSettled pr.sends n p q
unfolding dispatch_print_job print_started job_view with_status
dispatch_print_job-JobSettled pr job p s has same =
    let (s₁, first, has₁) = update_well p.id "printing" "" pr.started_at p s has in
    let r = send_copies pr.sends 0 (copies_to_send (job_view p)) in
    let p₁ = next_job "printing" "" pr.started_at p in
    let (s₂, second, has₂) =
      update_well p.id (ended_as r).0 (ended_as r).1 pr.ended_at p₁ s₁ has₁ in
    let v₂ = job_view (with_status (ended_as r).0 (ended_as r).1 pr.ended_at p₁) in
    let run : dispatch_print_job (well pr) job s ≡ (v₂, s₂) =
      ap
        (λ i.
          print_started (well pr)
            (update_print_job_status all_well i "printing" "" pr.started_at s))
        same
      ∙ ap (print_started (well pr)) first
      ∙ ap shown second in
    let sent = send_copies-HowSent pr.sends (copies_to_send (job_view p)) 0 in
    (
      copies_to_send (job_view p),
      next_job (ended_as r).0 (ended_as r).1 pr.ended_at p₁,
      copies_to_send-IsDue p,
      subst (λ x. HasJob p.id (next_job (ended_as r).0 (ended_as r).1 pr.ended_at p₁) x.1) (sym run)
          has₂,
      settled_by pr.sends (copies_to_send (job_view p)) pr.started_at pr.ended_at p r sent,
    )
