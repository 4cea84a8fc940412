-- ===== src/Client.antt =====
-- offline-menuvex/internal/syncclient/client.go: bootstrap and Refresh, one round of synchronisation. The
-- server is a parameter: what each request gives, by the number of steps before it. `ios` tells how each
-- transaction turns out. The mutex of the client keeps rounds apart.
pub mod Refresh
pub mod Finish
use menuvex_printer.Json.{Json}
use menuvex_printer.Outbox.{PushResult, save_results}
use menuvex_printer.Outbox.Listing.{list_outbox}
use menuvex_printer.Prelude.{
  Bool, List, Option, String, [], false, if◌then◌else◌, length, none, some, str_eq, suc, take, true,
  zero, ℕ, ◌&&◌, ◌||◌, ◌∷◌,
}
use menuvex_printer.Prelude.Int.{ltb_ℤ, pos, pos_part, ℤ}
use menuvex_printer.Result.{
  Error, Result, bad_protocol, cursor_stuck, err, missing_bootstrap_data, ok, page_limit,
  paged_bootstrap, server_error,
}
use menuvex_printer.Store.{Io, Store, StoredOperation}
use menuvex_printer.Store.Changes.{Change, apply_page, bind, bootstrap, cursor}

pub record Handshake : Type 0 where
  pub bootstrap_required : Bool
  pub version : ℤ
  pub max_batch : ℤ

-- Data is none where the response has none.
pub record BootstrapReply : Type 0 where
  pub snapshot_cursor : String
  pub data_rows : Option (List (String × List Json))
  pub more_pages : Bool

pub record Page : Type 0 where
  pub next : String
  pub has_more : Bool
  pub changes : List Change

-- An error of a request asks for a new bootstrap, or is any other one.
pub data Failure : Type 0 where
  wants_bootstrap : Failure
  other_failure : Failure

pub data Reply (A : Type 0) : Type 0 where
  answer : A → Reply A
  failed : Failure → Reply A

pub record Server : Type 0 where
  pub shake : ℕ → String → Reply Handshake
  pub snapshot : ℕ → Reply BootstrapReply
  pub push : ℕ → List StoredOperation → Reply (List PushResult)
  pub pull : ℕ → String → Reply Page
  pub ack : ℕ → String → Reply (Unit {0})

-- The store, the number of requests and of calls of the store so far, and the cursors that were
-- acknowledged, the last one first, each with the store as it was when the request was sent.
pub record Round : Type 0 where
  pub steps : ℕ
  pub store : Store
  pub acks : List (String × Store)

abbrev pub Act : Type 0 → Type 0
Act A = Round → Result A × Round

abbrev pub tick : Round → Round
tick r = record r { steps = suc r.steps }

module _ {A B : Type 0} where
  abbrev pub continue_with : (A → Act B) → Result A × Round → Result B × Round
  continue_with f (ok a, r) = f a r
  continue_with f (err e, r) = (err e, r)

  -- if err != nil { return err }
  unfoldable pub and_then : Act A → (A → Act B) → Act B
  and_then m f r = continue_with f (m r)

module _ {A : Type 0} where
  abbrev pub done : A → Act A
  done a r = (ok a, r)

  abbrev pub fail : Error → Act A
  fail e r = (err e, r)

  abbrev pub reply_of : Reply A → Result A
  reply_of (answer a) = ok a
  reply_of (failed f) = err server_error

  unfoldable pub ask : (ℕ → Reply A) → Act A
  ask request r = (reply_of (request r.steps), tick r)

module _ (sv : Server) (ios : ℕ → Io) where
  unfoldable pub run_store : {A : Type 0} → (Io → Store → Result A × Store) → Act A
  run_store op r = let (a, s) = op (ios r.steps) r.store in (a, record (tick r) { store = s })

  -- A response without data replaces nothing.
  unfoldable pub load_rows : String → Option (List (String × List Json)) → Act (Unit {0})
  unfolding run_store bootstrap
  load_rows c none = fail missing_bootstrap_data
  load_rows c (some rows) = run_store (λ io s. bootstrap io rows c s)

  -- bootstrap
  unfoldable pub take_snapshot : Act (Unit {0})
  unfolding and_then ask load_rows
  take_snapshot = and_then (ask sv.snapshot) (λ reply.
      if reply.more_pages
      then fail paged_bootstrap
      else load_rows reply.snapshot_cursor reply.data_rows)

  unfoldable pub read_cursor : Act String
  unfolding run_store cursor
  read_cursor = run_store (λ io s. (cursor io s, s))

  unfoldable pub send_ack : String → Act (Unit {0})
  send_ack c r = (reply_of (sv.ack r.steps c), record (tick r) { acks = (c, r.store) ∷ r.acks })

  -- A page is committed before it is acknowledged.
  unfoldable pub take_page : Page → Act (Unit {0})
  unfolding and_then run_store apply_page send_ack
  take_page page =
      and_then (run_store (λ io s. apply_page io page.changes page.next s))
        (λ u. send_ack page.next)

  -- The loop over the pages; its bound is the fuel.
  unfoldable pub pull_pages : ℕ → Bool → String → Act (Unit {0})
  unfolding and_then take_snapshot read_cursor take_page
  pull_pages zero recovered c r = (err page_limit, r)
  pull_pages (suc n) recovered c r = elim (sv.pull r.steps c) [
    | failed wants_bootstrap ↦
        if recovered
        then (err server_error, tick r)
        else and_then take_snapshot (λ u. and_then read_cursor (λ c'. pull_pages n true c'))
            (tick r)
    | failed other_failure ↦ (err server_error, tick r)
    | answer page ↦
        if page.has_more && str_eq page.next c
        then (err cursor_stuck, tick r)
        else and_then (take_page page)
            (λ u. if page.has_more then pull_pages n recovered page.next else done tt) (tick r)
  ]

  unfoldable pub batch_of : ℤ → List StoredOperation → List StoredOperation
  batch_of max_batch ops =
      if ltb_ℤ (pos 0) max_batch && ltb_ℤ max_batch (pos (length ops))
      then take (pos_part max_batch) ops
      else ops

  unfoldable pub push_batch : List StoredOperation → Act (Unit {0})
  unfolding and_then ask run_store save_results
  push_batch [] = done tt
  push_batch (op ∷ ops) =
      and_then (ask (λ n. sv.push n (op ∷ ops)))
        (λ results. run_store (λ io s. save_results io (op ∷ ops) results s))

  -- The cursor to pull from: after a bootstrap, that of the snapshot.
  unfoldable pub start_cursor : Bool → String → Act String
  unfolding and_then take_snapshot read_cursor
  start_cursor required c =
      if required || str_eq c "" then and_then take_snapshot (λ u. read_cursor) else done c

  -- What follows the handshake: at most one push, then the pages.
  unfoldable pub sync_from : Bool → ℤ → String → Act (Unit {0})
  unfolding and_then run_store start_cursor list_outbox push_batch batch_of pull_pages
  sync_from required max_batch c = and_then (start_cursor required c) (λ from.
      and_then (run_store (λ io s. (list_outbox io true s, s)))
        (λ ops. and_then (push_batch (batch_of max_batch ops)) (λ u. pull_pages 100 false from)))

  -- Refresh; `scope` is BaseURL|DeviceID.
  unfoldable pub refresh : String → Act (Unit {0})
  unfolding and_then run_store bind read_cursor ask sync_from
  refresh scope = and_then (run_store (λ io s. bind io scope s)) (λ u. and_then read_cursor (λ c.
      and_then (ask (λ n. sv.shake n c)) (λ hand.
        if ltb_ℤ hand.version (pos 2) || ltb_ℤ (pos 2) hand.version
        then fail bad_protocol
        else sync_from hand.bootstrap_required hand.max_batch c)))
