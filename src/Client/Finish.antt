-- ===== src/Client/Finish.antt =====
-- How a round of synchronisation that succeeds ends.
use menuvex_printer.Client.{
  Act, Handshake, Page, Round, Server, and_then, ask, batch_of, continue_with, pull_pages,
  push_batch, read_cursor, refresh, run_store, send_ack, start_cursor, sync_from, take_page,
  take_snapshot, tick,
}
use menuvex_printer.Client.Refresh.{Reply-cases, page_committed}
use menuvex_printer.Outbox.Listing.{list_outbox}
use menuvex_printer.Prelude.{
  Bool, Bool-cases, List, String, [], false, inl, inr, refl, str_eq, suc, true, zero, ℕ, ◌&&◌, ◌||◌,
  ◌∷◌, ◌≡◌,
}
use menuvex_printer.Prelude.Int.{ltb_ℤ, pos}
use menuvex_printer.Result.{Result, err, ok}
use menuvex_printer.Store.{Io, Store, meta_of, whole}
use menuvex_printer.Store.Changes.{apply_page, bind}

-- The last acknowledgement is of the store that is there now.
abbrev pub HeadAt : List (String × Store) → Store → Type 0
HeadAt [] s = ⊥
HeadAt ((c, t) ∷ acks) s = (t ≡ s) × (meta_of s.state "cursor" ≡ c)

abbrev pub Finished : Result (Unit {0}) × Round → Type 0
Finished (ok u, r) = HeadAt r.acks r.store
Finished (err e, r) = Unit {0}

continue-Finished :
    {A : Type 0} (f : A → Act (Unit {0})) (p : Result A × Round)
    → ((a : A) (r : Round) → Finished (f a r))
    → Finished (continue_with f p)
continue-Finished f (ok a, r) h = h a r
continue-Finished f (err e, r) h = tt

and_then-Finished :
    {A : Type 0} (m : Act A) (f : A → Act (Unit {0})) (r : Round)
    → ((a : A) (r : Round) → Finished (f a r))
    → Finished (and_then m f r)
unfolding and_then
and_then-Finished m f r h = continue-Finished f (m r) h

last-Finished :
    (m : Act (Unit {0})) (f : Unit {0} → Act (Unit {0})) (r : Round)
    → Finished (m r)
    → ((s : Round) → Finished (ok tt, s) → Finished (f tt s))
    → Finished (and_then m f r)
unfolding and_then
last-Finished m f r = go (m r)
  where
    go :
        (p : Result (Unit {0}) × Round)
        → Finished p
        → ((s : Round) → Finished (ok tt, s) → Finished (f tt s))
        → Finished (continue_with f p)
    go (ok tt, s) h k = k s h
    go (err e, s) h k = tt

module _ (sv : Server) (ios : ℕ → Io) where
  send_ack-Finished :
      (c : String) (r : Round) → meta_of r.store.state "cursor" ≡ c → Finished (send_ack sv ios c r)
  unfolding send_ack
  send_ack-Finished c r h = elim (Reply-cases (sv.ack r.steps c)) [
    | inl again ↦ rw (again) tt
    | inr (inl other) ↦ rw (other) tt
    | inr (inr (u, got)) ↦ rw (got) (refl, h)
  ]

  take_page-Finished : (page : Page) (r : Round) → Finished (take_page sv ios page r)
  unfolding take_page and_then run_store
  take_page-Finished page r =
      go (apply_page (ios r.steps) page.changes page.next r.store)
        (page_committed (ios r.steps) page r.store)
    where
      go :
          (p : Result (Unit {0}) × Store)
          → (p.0 ≡ ok tt → (meta_of p.1.state "cursor" ≡ page.next) × (p.1.file ≡ whole p.1.state))
          → Finished (
              continue_with (λ u. send_ack sv ios page.next) (p.0, record (tick r) { store = p.1 }))
      go (ok tt, s) f = send_ack-Finished page.next (record (tick r) { store = s }) (f refl).0
      go (err e, s) f = tt

  pull_pages-Finished :
      (n : ℕ) (recovered : Bool) (c : String) (r : Round)
      → Finished (pull_pages sv ios n recovered c r)
  unfolding pull_pages
  pull_pages-Finished zero recovered c r = tt
  pull_pages-Finished (suc n) recovered c r = elim (Reply-cases (sv.pull r.steps c)) [
    | inl again ↦
        rw (again, pull_pages)
          (elim (Bool-cases recovered) [
            | inl twice ↦ rw (twice) tt
            | inr first ↦ rw (first) (
                and_then-Finished (take_snapshot sv ios) _ (tick r) (λ u s.
                  and_then-Finished (read_cursor sv ios) _ s
                    (λ d t. pull_pages-Finished n true d t)))
          ])
    | inr (inl other) ↦ rw (other, pull_pages) tt
    | inr (inr (page, got)) ↦
        rw (got, pull_pages)
          (elim (Bool-cases (page.has_more && str_eq page.next c)) [
            | inl stuck ↦ rw (stuck) tt
            | inr on ↦ rw (on) (
                last-Finished (take_page sv ios page) _ (tick r) (take_page-Finished page (tick r))
                  (λ s h. elim (Bool-cases page.has_more) [
                    | inl more ↦ rw (more) (pull_pages-Finished n recovered page.next s)
                    | inr end_here ↦ rw (end_here) h
                  ]))
          ])
  ]

  -- The last acknowledgement of a round that returns no error is of the cursor at which the store
  -- stands at its end.
  pub refresh-Finished : (scope : String) (r : Round) → Finished (refresh sv ios scope r)
  unfolding refresh sync_from
  refresh-Finished scope r =
      and_then-Finished (run_store sv ios (λ io s. bind io scope s)) _ r (λ u s.
        and_then-Finished (read_cursor sv ios) _ s (λ c t.
          and_then-Finished (ask (λ n. sv.shake n c)) _ t (λ hand x.
            elim (Bool-cases (ltb_ℤ hand.version (pos 2) || ltb_ℤ (pos 2) hand.version)) [
              | inl bad ↦ rw (bad) tt
              | inr good ↦ rw (good) (from_handshake hand c x)
            ])))
    where
      from_handshake :
          (hand : Handshake) (c : String) (x : Round)
          → Finished (sync_from sv ios hand.bootstrap_required hand.max_batch c x)
      from_handshake hand c x =
          and_then-Finished (start_cursor sv ios hand.bootstrap_required c) _ x (λ from y.
            and_then-Finished (run_store sv ios (λ io s. (list_outbox io true s, s))) _ y (λ ops z.
              and_then-Finished (push_batch sv ios (batch_of sv ios hand.max_batch ops)) _ z
                (λ v w. pull_pages-Finished 100 false from w)))
