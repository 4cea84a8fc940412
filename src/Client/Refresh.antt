-- ===== src/Client/Refresh.antt =====
-- What a round of synchronisation acknowledges: a cursor only after its page is committed.
use menuvex_printer.Client.{
  Act, Page, Reply, Round, Server, and_then, answer, ask, batch_of, continue_with, done, fail,
  failed, load_rows, other_failure, pull_pages, push_batch, read_cursor, refresh, run_store,
  send_ack, start_cursor, sync_from, take_page, take_snapshot, tick, wants_bootstrap,
}
use menuvex_printer.Json.{Json}
use menuvex_printer.Outbox.{save_results}
use menuvex_printer.Outbox.Listing.{list_outbox}
use menuvex_printer.Prelude.{
  Bool, Bool-cases, List, Option, String, [], arith, false, if_both, inl, inr, lookup-insert_self,
  none, refl, some, str_eq, string_eq, suc, true, zero, ℕ, ◌&&◌, ◌||◌, ◌∷◌, ◌≡◌, ◌⊎◌,
}
use menuvex_printer.Prelude.Int.{ltb_ℤ, pos, ℤ}
use menuvex_printer.Result.{
  >>=-eq-ok, Result, bad_protocol, empty_cursor, err, ok, paged_bootstrap, refuse_if,
}
use menuvex_printer.Store.{Io, PersistedDb, Store, StoredOperation, meta_of, set_meta, whole}
use menuvex_printer.Store.Atomic.{after_check_ok}
use menuvex_printer.Store.Changes.{
  Change, apply_changes, apply_page, bind, bootstrap, cursor, page_body,
}

-- At each acknowledgement the store stood at that cursor, in memory and on disk.
abbrev pub AllCommitted : List (String × Store) → Type 0
AllCommitted [] = Unit {0}
AllCommitted ((c, s) ∷ acks) =
    (meta_of s.state "cursor" ≡ c) × (s.file ≡ whole s.state) × AllCommitted acks

module _ {A : Type 0} where
  abbrev pub Keeps : Act A → Type 0
  Keeps m = (r : Round) → AllCommitted r.acks → AllCommitted (m r).1.acks

  ask-Keeps : (request : ℕ → Reply A) → Keeps (ask request)
  unfolding ask
  ask-Keeps request r c = c

  pub Reply-cases :
      (p : Reply A)
      → (p ≡ failed wants_bootstrap) ⊎ (p ≡ failed other_failure) ⊎ ((a : A) × (p ≡ answer a))
  Reply-cases (failed wants_bootstrap) = inl refl
  Reply-cases (failed other_failure) = inr (inl refl)
  Reply-cases (answer a) = inr (inr (a, refl))

module _ {A B : Type 0} where
  and_then-Keeps :
      (m : Act A) (f : A → Act B) → Keeps m → ((a : A) → Keeps (f a)) → Keeps (and_then m f)
  unfolding and_then
  and_then-Keeps m f hm hf r c = go (m r) (hm r c)
    where
      go : (p : Result A × Round) → AllCommitted p.1.acks → AllCommitted (continue_with f p).1.acks
      go (ok a, r) c = hf a r c
      go (err e, r) c = c

body_cursor :
    (cs : List Change) (c : String) (st st' : PersistedDb)
    → page_body cs c st ≡ ok (st', tt)
    → meta_of st' "cursor" ≡ c
unfolding page_body meta_of set_meta
body_cursor cs c st st' h =
    let (tx, applied, last) = >>=-eq-ok (apply_changes st cs) _ h in
    ground (arith, last, lookup-insert_self "cursor" c tx.meta)

pub page_committed :
    (io : Io) (page : Page) (s : Store)
    → (apply_page io page.changes page.next s).0 ≡ ok tt
    → (meta_of (apply_page io page.changes page.next s).1.state "cursor" ≡ page.next)
      × ((apply_page io page.changes page.next s).1.file
          ≡ whole (apply_page io page.changes page.next s).1.state)
unfolding apply_page
page_committed io page s h =
    let (checked, ran, written) =
      after_check_ok (refuse_if (str_eq page.next "") empty_cursor) io
        (page_body page.changes page.next) s h in
    (body_cursor page.changes page.next s.state _ ran, written)

module _ (sv : Server) (ios : ℕ → Io) where
  run_store-Keeps : {A : Type 0} (op : Io → Store → Result A × Store) → Keeps (run_store sv ios op)
  unfolding run_store
  run_store-Keeps op r c = c

  load_rows-Keeps :
      (c : String) (rows : Option (List (String × List Json))) → Keeps (load_rows sv ios c rows)
  unfolding load_rows
  load_rows-Keeps c none r h = h
  load_rows-Keeps c (some rows) r h = run_store-Keeps (λ io s. bootstrap io rows c s) r h

  take_snapshot-Keeps : Keeps (take_snapshot sv ios)
  unfolding take_snapshot
  take_snapshot-Keeps = and_then-Keeps (ask sv.snapshot) _ (ask-Keeps sv.snapshot) (λ reply.
      if_both Keeps reply.more_pages (fail paged_bootstrap)
        (load_rows sv ios reply.snapshot_cursor reply.data_rows) (λ r h. h)
        (load_rows-Keeps reply.snapshot_cursor reply.data_rows))

  read_cursor-Keeps : Keeps (read_cursor sv ios)
  unfolding read_cursor
  read_cursor-Keeps = run_store-Keeps (λ io s. (cursor io s, s))

  take_page-Keeps : (page : Page) → Keeps (take_page sv ios page)
  unfolding take_page and_then run_store send_ack
  take_page-Keeps page r h =
      go (apply_page (ios r.steps) page.changes page.next r.store)
        (page_committed (ios r.steps) page r.store)
    where
      go :
          (p : Result (Unit {0}) × Store)
          → (p.0 ≡ ok tt → (meta_of p.1.state "cursor" ≡ page.next) × (p.1.file ≡ whole p.1.state))
          → AllCommitted
              (continue_with
                (λ u. send_ack sv ios page.next)
                (p.0, record (tick r) { store = p.1 })).1.acks
      go (ok tt, s) f = ((f refl).0, (f refl).1, h)
      go (err e, s) f = h

  pull_pages-Keeps :
      (n : ℕ) (recovered : Bool) (c : String) → Keeps (pull_pages sv ios n recovered c)
  unfolding pull_pages
  pull_pages-Keeps zero recovered c r h = h
  pull_pages-Keeps (suc n) recovered c r h = elim (Reply-cases (sv.pull r.steps c)) [
    | inl again ↦
        rw (again, pull_pages)
          (elim (Bool-cases recovered) [
            | inl twice ↦ rw (twice) h
            | inr first ↦ rw (first) (
                and_then-Keeps (take_snapshot sv ios) _ take_snapshot-Keeps
                  (λ u.
                    and_then-Keeps (read_cursor sv ios) _ read_cursor-Keeps
                      (λ d. pull_pages-Keeps n true d))
                  (tick r) h)
          ])
    | inr (inl other) ↦ rw (other, pull_pages) h
    | inr (inr (page, got)) ↦
        rw (got, pull_pages)
          (elim (Bool-cases (page.has_more && str_eq page.next c)) [
            | inl stuck ↦ rw (stuck) h
            | inr on ↦ rw (on) (
                and_then-Keeps (take_page sv ios page) _ (take_page-Keeps page)
                  (λ u.
                    if_both Keeps page.has_more (pull_pages sv ios n recovered page.next) (done tt)
                      (pull_pages-Keeps n recovered page.next) (λ r h. h))
                  (tick r) h)
          ])
  ]

  push_batch-Keeps : (ops : List StoredOperation) → Keeps (push_batch sv ios ops)
  unfolding push_batch
  push_batch-Keeps [] r h = h
  push_batch-Keeps (op ∷ ops) r h =
      and_then-Keeps (ask (λ n. sv.push n (op ∷ ops))) _ (ask-Keeps (λ n. sv.push n (op ∷ ops)))
        (λ results. run_store-Keeps (λ io s. save_results io (op ∷ ops) results s)) r h

  start_cursor-Keeps : (required : Bool) (c : String) → Keeps (start_cursor sv ios required c)
  unfolding start_cursor
  start_cursor-Keeps required c =
      if_both Keeps (required || str_eq c "")
        (and_then (take_snapshot sv ios) (λ u. read_cursor sv ios)) (done c)
        (and_then-Keeps (take_snapshot sv ios) _ take_snapshot-Keeps (λ u. read_cursor-Keeps))
        (λ r h. h)

  sync_from-Keeps :
      (required : Bool) (max_batch : ℤ) (c : String) → Keeps (sync_from sv ios required max_batch c)
  unfolding sync_from
  sync_from-Keeps required max_batch c =
      and_then-Keeps (start_cursor sv ios required c) _ (start_cursor-Keeps required c) (λ from.
        and_then-Keeps (run_store sv ios (λ io s. (list_outbox io true s, s))) _
          (run_store-Keeps (λ io s. (list_outbox io true s, s)))
          (λ ops.
            and_then-Keeps (push_batch sv ios (batch_of sv ios max_batch ops)) _
              (push_batch-Keeps _) (λ u. pull_pages-Keeps 100 false from)))

  -- If every acknowledgement so far was of a cursor at which the store stood, in memory and on disk, then
  -- so are those of a round, whatever the server answers and however the transactions turn out.
  pub refresh-Keeps :
      (scope : String) (r : Round)
      → AllCommitted r.acks
      → AllCommitted (refresh sv ios scope r).1.acks
  unfolding refresh
  refresh-Keeps scope =
      and_then-Keeps (run_store sv ios (λ io s. bind io scope s)) _
        (run_store-Keeps (λ io s. bind io scope s))
        (λ u. and_then-Keeps (read_cursor sv ios) _ read_cursor-Keeps (λ c.
          and_then-Keeps (ask (λ n. sv.shake n c)) _ (ask-Keeps (λ n. sv.shake n c)) (λ hand.
            if_both Keeps (ltb_ℤ hand.version (pos 2) || ltb_ℤ (pos 2) hand.version)
              (fail bad_protocol) (sync_from sv ios hand.bootstrap_required hand.max_batch c)
              (λ r h. h) (sync_from-Keeps hand.bootstrap_required hand.max_batch c))))
