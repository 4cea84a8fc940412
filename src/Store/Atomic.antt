-- ===== src/Store/Atomic.antt =====
-- withTx: what a transaction leaves in memory and on disk.
use mathlib.Core.Path.{subst}
use menuvex_printer.Prelude.{arith, false, none, refl, some, sym, true, ◌||◌, ◌≡◌, ◌⊎◌}
use menuvex_printer.Result.{Error, Result, err, io_failed, ok}
use menuvex_printer.Store.{
  Io, PersistedDb, Store, after_check, all_well, commit, open_store, whole, with_tx,
}

-- The file holds the state that the process works on.
pub record IsDurable (s : Store) : Type 0 where
  pub on_disk : s.file ≡ whole s.state

-- The file holds this state when the program starts again.
abbrev pub Reopens : Store → PersistedDb → Type 0
Reopens s st = open_store s.file ≡ some (record { closed = false; state = st; file = whole st })

module _ {A : Type 0} where
  -- A transaction that returns a value has run its body on the state in memory, and the state that the
  -- body made stands in memory and on disk.
  pub with_tx_ok :
      (io : Io) (body : PersistedDb → Result (PersistedDb × A)) (s : Store) {a : A}
      → (with_tx io body s).0 ≡ ok a
      → (body s.state ≡ ok ((with_tx io body s).1.state, a))
        × ((with_tx io body s).1.file ≡ whole (with_tx io body s).1.state)
        × ((with_tx io body s).1.closed ≡ s.closed)
  unfolding with_tx
  with_tx_ok io body s h = ground arith

  -- One that returns an error leaves the state in memory as it was.
  pub with_tx_err :
      (io : Io) (body : PersistedDb → Result (PersistedDb × A)) (s : Store) {e : Error}
      → (with_tx io body s).0 ≡ err e
      → (with_tx io body s).1.state ≡ s.state
  unfolding with_tx
  with_tx_err io body s h = ground arith

  -- What a body keeps, its transaction keeps.
  pub with_tx_keeps {ℓ} :
      (P : PersistedDb → Type ℓ) (io : Io) (body : PersistedDb → Result (PersistedDb × A))
      (s : Store)
      → ((tx : PersistedDb) (a : A) → body s.state ≡ ok (tx, a) → P tx)
      → P s.state
      → P (with_tx io body s).1.state
  with_tx_keeps P io body s step h = go (with_tx io body s).0 refl
    where
      go : (r : Result A) → (with_tx io body s).0 ≡ r → P (with_tx io body s).1.state
      go (ok a) e = step _ a (with_tx_ok io body s e).0
      go (err x) e = subst P (sym (with_tx_err io body s e)) h

  pub after_check_ok :
      (pre : Result (Unit {0})) (io : Io) (body : PersistedDb → Result (PersistedDb × A))
      (s : Store) {a : A}
      → (after_check pre io body s).0 ≡ ok a
      → (pre ≡ ok tt)
        × (body s.state ≡ ok ((after_check pre io body s).1.state, a))
        × ((after_check pre io body s).1.file ≡ whole (after_check pre io body s).1.state)
  unfolding after_check
  after_check_ok (ok tt) io body s h = let r = with_tx_ok io body s h in (refl, r.0, r.1)
  after_check_ok (err e) io body s h = cc

  pub after_check_keeps {ℓ} :
      (P : PersistedDb → Type ℓ) (pre : Result (Unit {0})) (io : Io)
      (body : PersistedDb → Result (PersistedDb × A)) (s : Store)
      → ((tx : PersistedDb) (a : A) → body s.state ≡ ok (tx, a) → P tx)
      → P s.state
      → P (after_check pre io body s).1.state
  unfolding after_check
  after_check_keeps P (ok tt) io body s step h = with_tx_keeps P io body s step h
  after_check_keeps P (err e) io body s step h = h

  pub after_check_err :
      (pre : Result (Unit {0})) (io : Io) (body : PersistedDb → Result (PersistedDb × A))
      (s : Store) {e : Error}
      → (after_check pre io body s).0 ≡ err e
      → (after_check pre io body s).1.state ≡ s.state
  unfolding after_check
  after_check_err (ok tt) io body s h = with_tx_err io body s h
  after_check_err (err e) io body s h = refl

  abbrev pub Restarts :
      Io → (PersistedDb → Result (PersistedDb × A)) → Store → Result A × Store → Type 0
  Restarts io body s (r, s') =
      Reopens s' s'.state
      ⊎ ((r ≡ err io_failed)
          × (s'.state ≡ s.state)
          × ((io.renames || io.overwrites) ≡ false)
          × ((open_store s'.file ≡ none)
              ⊎ ((tx : PersistedDb) × (a : A) × (body s.state ≡ ok (tx, a)) × Reopens s' tx)))

  -- An error changes neither memory nor disk, unless the rename and the overwrite both fail.
  pub with_tx_error :
      (io : Io) (body : PersistedDb → Result (PersistedDb × A)) (s : Store) (e : Error)
      → (io.renames || io.overwrites) ≡ true
      → (with_tx io body s).0 ≡ err e
      → (with_tx io body s).1 ≡ s
  unfolding with_tx
  with_tx_error io body s e w h = ground arith

  -- Durability is kept, unless the rename and the overwrite both fail.
  pub with_tx-IsDurable :
      (io : Io) (body : PersistedDb → Result (PersistedDb × A)) (s : Store)
      → (io.renames || io.overwrites) ≡ true
      → IsDurable s
      → IsDurable (with_tx io body s).1
  unfolding with_tx
  with_tx-IsDurable io body s w d = ground arith

  -- A body that succeeds, with a store that is open and calls that all succeed, is committed.
  pub with_tx_well :
      (body : PersistedDb → Result (PersistedDb × A)) (s : Store) {tx : PersistedDb} {a : A}
      → s.closed ≡ false
      → body s.state ≡ ok (tx, a)
      → with_tx all_well body s ≡ (ok a, record s { state = tx; file = whole tx })
  unfolding with_tx commit
  with_tx_well body s alive h = ground arith

  pub with_tx_refused :
      (io : Io) (body : PersistedDb → Result (PersistedDb × A)) (s : Store) {e : Error}
      → io.cancelled ≡ false
      → s.closed ≡ false
      → body s.state ≡ err e
      → with_tx io body s ≡ (err e, s)
  unfolding with_tx
  with_tx_refused io body s going alive h = ground arith
