-- ===== src/Outbox/Results.antt =====
-- SaveResults and Discard: which operations they change, and how.
use mathlib.Core.Path.{subst}
use menuvex_printer.Outbox.{
  PushResult, check_each, check_results, expect_all, is_expected, is_pending, is_result_status,
  last_index, save_results_body, settle, settle_all, settle_at, with_result,
}
use menuvex_printer.Prelude.{
  Bool, Bool-cases, List, Map, String, [], arith, inl, inr, length, not, refl, string_eq, suc, sym,
  true, without, zero, ℕ, ◌==◌, ◌∷◌, ◌≡◌, ◌⊎◌,
}
use menuvex_printer.Result.{
  >>=-eq-ok, batch_not_covered, duplicate_or_unknown, ok, or_fail, outbox_changed, refuse_if-eq-ok,
  unknown_status,
}
use menuvex_printer.Store.{PersistedDb, Store, StoredOperation}

-- The wire intent of an operation: all of it but its state and its result.
abbrev pub SameIntent : StoredOperation → StoredOperation → Type 0
SameIntent a b =
    (b.id ≡ a.id)
    × (b.sequence ≡ a.sequence)
    × (b.entity_type ≡ a.entity_type)
    × (b.entity_id ≡ a.entity_id)
    × (b.action ≡ a.action)
    × (b.base_version ≡ a.base_version)
    × (b.depends_on ≡ a.depends_on)
    × (b.payload ≡ a.payload)
    × (b.created_at ≡ a.created_at)

-- One operation keeps its intent. It is as it was, or it was pending and has the status of a result.
abbrev pub Moved : StoredOperation → StoredOperation → Type 0
Moved a b =
    SameIntent a b × ((b ≡ a) ⊎ ((is_pending a.state ≡ true) × (is_result_status b.state ≡ true)))

-- Position by position.
abbrev pub Moves : List StoredOperation → List StoredOperation → Type 0
Moves [] [] = Unit {0}
Moves [] (b ∷ ys) = ⊥
Moves (a ∷ xs) [] = ⊥
Moves (a ∷ xs) (b ∷ ys) = Moved a b × Moves xs ys

SameIntent-refl : (a : StoredOperation) → SameIntent a a
SameIntent-refl a = (refl, refl, refl, refl, refl, refl, refl, refl, refl)

pub SameIntent-trans : (a b c : StoredOperation) → SameIntent a b → SameIntent b c → SameIntent a c
SameIntent-trans a b c h k = ground arith

Moves-refl : (ops : List StoredOperation) → Moves ops ops
Moves-refl [] = tt
Moves-refl (a ∷ xs) = ((SameIntent-refl a, inl refl), Moves-refl xs)

Moved-trans : (a b c : StoredOperation) → Moved a b → Moved b c → Moved a c
Moved-trans a b c (h, p) (k, inl q) = (
  SameIntent-trans a b c h k,
  subst (λ x. (x ≡ a) ⊎ ((is_pending a.state ≡ true) × (is_result_status x.state ≡ true))) (sym q)
      p,
)
Moved-trans a b c (h, inl p) (k, inr (q, r)) =
    (SameIntent-trans a b c h k, inr (subst (λ x. is_pending x.state ≡ true) p q, r))
Moved-trans a b c (h, inr (p, _)) (k, inr (_, r)) = (SameIntent-trans a b c h k, inr (p, r))

Moves-trans : (xs ys zs : List StoredOperation) → Moves xs ys → Moves ys zs → Moves xs zs
Moves-trans [] [] [] h k = tt
Moves-trans [] [] (z ∷ zs) h k = absurd k
Moves-trans [] (y ∷ ys) zs h k = absurd h
Moves-trans (x ∷ xs) [] zs h k = absurd h
Moves-trans (x ∷ xs) (y ∷ ys) [] h k = absurd k
Moves-trans (x ∷ xs) (y ∷ ys) (z ∷ zs) h k =
    (Moved-trans x y z h.0 k.0, Moves-trans xs ys zs h.1 k.1)

settle_at-Moves :
    (r : PushResult) (i : ℕ) (ops ops' : List StoredOperation)
    → is_result_status r.status ≡ true
    → settle_at r i ops ≡ ok ops'
    → Moves ops ops'
unfolding settle_at
settle_at-Moves r i [] ops' s h = cc
settle_at-Moves r zero (op ∷ ops) ops' s h = elim (Bool-cases (is_pending op.state)) [
  | inl p ↦
      let e : with_result r op ∷ ops ≡ ops' = ground (arith, p) in
      subst (Moves (op ∷ ops)) e ((with_result-Moved p), Moves-refl ops)
  | inr p ↦ absurd (ground (arith, p))
]
  where
    with_result-Moved : is_pending op.state ≡ true → Moved op (with_result r op)
    with_result-Moved p = (SameIntent-refl op, inr (p, s))
settle_at-Moves r (suc i) (op ∷ ops) ops' s h =
    let (rest, inner, last) = >>=-eq-ok (settle_at r i ops) _ h in
    let e : op ∷ rest ≡ ops' = cc in
    subst (Moves (op ∷ ops)) e
      ((SameIntent-refl op, inl refl), settle_at-Moves r i ops rest s inner)

settle-Moves :
    (r : PushResult) (ops ops' : List StoredOperation)
    → is_result_status r.status ≡ true
    → settle r ops ≡ ok ops'
    → Moves ops ops'
unfolding settle
settle-Moves r ops ops' s h =
    let (i, _, at) = >>=-eq-ok (or_fail (last_index r.id ops) outbox_changed) _ h in
    settle_at-Moves r i ops ops' s at

abbrev pub AllStatuses : List PushResult → Type 0
AllStatuses [] = Unit {0}
AllStatuses (r ∷ rs) = (is_result_status r.status ≡ true) × AllStatuses rs

settle_all-Moves :
    (rs : List PushResult) (ops ops' : List StoredOperation)
    → AllStatuses rs
    → settle_all rs ops ≡ ok ops'
    → Moves ops ops'
unfolding settle_all
settle_all-Moves [] ops ops' s h = let e : ops ≡ ops' = cc in subst (Moves ops) e (Moves-refl ops)
settle_all-Moves (r ∷ rs) ops ops' s h =
    let (mid, first, rest) = >>=-eq-ok (settle r ops) _ h in
    Moves-trans ops mid ops' (settle-Moves r ops mid s.0 first)
      (settle_all-Moves rs mid ops' s.1 rest)

-- The ids of the results are among those expected, and no id comes twice.
abbrev pub Covers : Map String Bool → List PushResult → Type 0
Covers expected [] = Unit {0}
Covers expected (r ∷ rs) = (is_expected expected r.id ≡ true) × Covers (without r.id expected) rs

check_each-Covers :
    (expected : Map String Bool) (rs : List PushResult)
    → check_each expected rs ≡ ok tt
    → Covers expected rs × AllStatuses rs
unfolding check_each
check_each-Covers expected [] h = (tt, tt)
check_each-Covers expected (r ∷ rs) h =
    let (known, h₁) = refuse_if-eq-ok (not (is_expected expected r.id)) duplicate_or_unknown _ h in
    let (status, h₂) = refuse_if-eq-ok (not (is_result_status r.status)) unknown_status _ h₁ in
    let (covers, statuses) = check_each-Covers (without r.id expected) rs h₂ in
    ((ground (arith, known), covers), (ground (arith, status), statuses))

pub save_body-Moves :
    (sent : List StoredOperation) (results : List PushResult) (st tx : PersistedDb)
    → check_results sent results ≡ ok tt
    → save_results_body results st ≡ ok (tx, tt)
    → Moves st.outbox tx.outbox
unfolding save_results_body check_results
save_body-Moves sent results st tx checked ran =
    let (_, each) =
      refuse_if-eq-ok (not (length sent == length results)) batch_not_covered _ checked in
    let (_, statuses) = check_each-Covers (expect_all sent []) results each in
    let (ops, settled, last) = >>=-eq-ok (settle_all results st.outbox) _ ran in
    subst (Moves st.outbox) (cc (last)) (settle_all-Moves results st.outbox ops statuses settled)
