-- ===== src/Outbox/Listing.antt =====
-- Outbox of offline-menuvex/internal/store/outbox.go: the operations that a push sends, or all that a page
-- shows.
use menuvex_printer.Outbox.{is_pending}
use menuvex_printer.Prelude.{
  Bool, Bool-cases, List, [], arith, if_both, if◌then◌else◌, inl, inr, length, length-take, suc,
  take, true, zero, ℕ, ◌∷◌, ◌≡◌, ◌≤◌,
}
use menuvex_printer.Prelude.Int.{ltb_ℤ, ℤ}
use menuvex_printer.Prelude.Sort.{
  IsAscending, place, sort_slice, sort_slice-IsAscending, take-IsAscending,
}
use menuvex_printer.Result.{Result, ctx_error, err, ok}
use menuvex_printer.Store.{Io, Store, StoredOperation}
use mathlib.Core.Path.{subst}

unfoldable pub pending_only : List StoredOperation → List StoredOperation
unfolding is_pending
pending_only [] = []
pending_only (op ∷ ops) =
    let rest = pending_only ops in if is_pending op.state then op ∷ rest else rest

abbrev pub seq_before : StoredOperation → StoredOperation → Bool
seq_before a b = ltb_ℤ a.sequence b.sequence

abbrev pub seq_after : StoredOperation → StoredOperation → Bool
seq_after a b = ltb_ℤ b.sequence a.sequence

-- The operations have the fields of the stored ones, less depends_on, which no caller reads.
unfoldable pub list_outbox : Io → Bool → Store → Result (List StoredOperation)
unfolding pending_only sort_slice
list_outbox io pending s =
    if io.cancelled
    then err ctx_error
    else if pending
    then ok (take 100 (sort_slice seq_before (pending_only s.state.outbox)))
    else ok (take 500 (sort_slice seq_after s.state.outbox))

abbrev pub AllPending : List StoredOperation → Type 0
AllPending [] = Unit {0}
AllPending (op ∷ ops) = (is_pending op.state ≡ true) × AllPending ops

pending_only-AllPending : (ops : List StoredOperation) → AllPending (pending_only ops)
unfolding pending_only
pending_only-AllPending [] = tt
pending_only-AllPending (op ∷ ops) = elim (Bool-cases (is_pending op.state)) [
  | inl p ↦ rw (p) (p, pending_only-AllPending ops)
  | inr q ↦ rw (q) (pending_only-AllPending ops)
]

place-AllPending :
    (op : StoredOperation) (ops : List StoredOperation)
    → is_pending op.state ≡ true
    → AllPending ops
    → AllPending (place seq_before op ops)
unfolding place
place-AllPending op [] p a = (p, tt)
place-AllPending op (x ∷ xs) p a =
    if_both AllPending (seq_before x op) _ _ (a.0, place-AllPending op xs p a.1) (p, a)

sort_slice-AllPending :
    (ops : List StoredOperation) → AllPending ops → AllPending (sort_slice seq_before ops)
unfolding sort_slice
sort_slice-AllPending [] a = tt
sort_slice-AllPending (op ∷ ops) a = place-AllPending op _ a.0 (sort_slice-AllPending ops a.1)

take-AllPending : (n : ℕ) (ops : List StoredOperation) → AllPending ops → AllPending (take n ops)
take-AllPending zero ops a = tt
take-AllPending (suc n) [] a = tt
take-AllPending (suc n) (op ∷ ops) a = (a.0, take-AllPending n ops a.1)

abbrev pub sequence_of : StoredOperation → ℤ
sequence_of op = op.sequence

-- A push sends at most a hundred operations, all of them pending, in the order of their sequence numbers.
pub list_outbox-pending :
    (io : Io) (s : Store) (ops : List StoredOperation)
    → list_outbox io true s ≡ ok ops
    → AllPending ops × IsAscending sequence_of ops × (length ops ≤ 100)
unfolding list_outbox
list_outbox-pending io s ops h =
    let sorted = sort_slice seq_before (pending_only s.state.outbox) in
    let e : take 100 sorted ≡ ops = ground arith in
    let bound : length (take 100 sorted) ≤ 100 = omega (arith, length-take 100 sorted) in
    subst (λ xs. AllPending xs × IsAscending sequence_of xs × (length xs ≤ 100)) e
      (
        take-AllPending 100 sorted
            (sort_slice-AllPending _ (pending_only-AllPending s.state.outbox)),
        take-IsAscending sequence_of 100 sorted
            (sort_slice-IsAscending sequence_of (pending_only s.state.outbox)),
        bound,
      )
