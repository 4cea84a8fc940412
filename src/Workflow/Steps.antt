-- ===== src/Workflow/Steps.antt =====
-- The next step that the pages offer is one that the store takes.
use mathlib.Core.Path.{subst}
use menuvex_printer.Order.Status.{is_valid_transition, next_statuses, one_of}
use menuvex_printer.Order.Status.Machine.{rank}
use menuvex_printer.Prelude.{
  Bool-cases, List, String, [], arith, eq_iff, false, inl, inr, refl, str_eq, sym, true, ◌<◌, ◌||◌,
  ◌∷◌, ◌≡◌, ◌⊎◌,
}
use menuvex_printer.Text.{equal_fold}
use menuvex_printer.Workflow.{
  chain_after, first_enabled, order_advance_target, order_primary_action,
}

abbrev pub open_words : List String
open_words = "pending" ∷ "accepted" ∷ "preparing" ∷ "ready" ∷ []

-- A test on each word of a list
abbrev pub AllOf : (String → Type 0) → List String → Type 0
AllOf P [] = Unit {0}
AllOf P (t ∷ ts) = P t × AllOf P ts

pub one_of_all :
    (P : String → Type 0) (w : String) (ts : List String) → AllOf P ts → one_of w ts ≡ true → P w
unfolding one_of
one_of_all P w [] a h = cc
one_of_all P w (t ∷ ts) a h = elim (Bool-cases (str_eq t w)) [
  | inl e ↦ subst P ((eq_iff t w).0 e) a.0
  | inr d ↦ one_of_all P w ts a.1 (ground (arith, d))
]

-- The words that may follow a word, and that the store then writes
abbrev pub Follows : String → String → Type 0
Follows from to =
    (is_valid_transition from to ≡ true)
    × (equal_fold from to ≡ false)
    × (one_of to ("accepted" ∷ "preparing" ∷ "ready" ∷ "completed" ∷ []) ≡ true)
    × (rank from < rank to)
    × (str_eq to "" ≡ false)

first_enabled-in :
    (P : String → Type 0) (cs stages : List String)
    → AllOf P cs
    → (first_enabled cs stages ≡ "") ⊎ P (first_enabled cs stages)
unfolding first_enabled
first_enabled-in P [] stages a = inl refl
first_enabled-in P (c ∷ cs) stages a = elim (Bool-cases (one_of c stages)) [
  | inl e ↦ rw (e) (inr a.0)
  | inr d ↦ rw (d) (first_enabled-in P cs stages a.1)
]

advance_target-Follows :
    (key : String)
    → AllOf (Follows key) (chain_after key)
    → (stages : List String)
    → (order_advance_target key stages ≡ "") ⊎ Follows key (order_advance_target key stages)
unfolding order_advance_target
advance_target-Follows key a stages = first_enabled-in (Follows key) (chain_after key) stages a

-- What the store takes after each of the four words
primary_action-Follows :
    (key : String)
    → AllOf (Follows key) (chain_after key)
    → Follows key "completed"
    → ((str_eq key "pending"
          || str_eq key "accepted"
          || str_eq key "preparing"
          || str_eq key "ready")
        ≡ true)
    → (stages : List String) → Follows key (order_primary_action key stages)
unfolding order_primary_action order_advance_target
primary_action-Follows key a d h stages =
    elim (first_enabled-in (Follows key) (chain_after key) stages a) [
      | inl e ↦
          let last : order_primary_action key stages ≡ "completed" = rw (e, h) refl in
          subst (Follows key) (sym last) d
      | inr p ↦
          let next : order_primary_action key stages ≡ first_enabled (chain_after key) stages =
            rw (p.4) refl in
          subst (Follows key) (sym next) p
    ]

pub order_primary_action-Follows :
    (key : String)
    → one_of key open_words ≡ true
    → (stages : List String) → Follows key (order_primary_action key stages)
unfolding chain_after is_valid_transition next_statuses one_of equal_fold
order_primary_action-Follows key h stages =
    one_of_all (λ k. Follows k (order_primary_action k stages)) key open_words
      (
        primary_action-Follows "pending"
            (
              (refl, refl, refl, omega arith, refl),
              ((refl, refl, refl, omega arith, refl), ((refl, refl, refl, omega arith, refl), tt)),
            )
            (refl, refl, refl, omega arith, refl) refl stages,
        (
          primary_action-Follows "accepted"
              ((refl, refl, refl, omega arith, refl), ((refl, refl, refl, omega arith, refl), tt))
              (refl, refl, refl, omega arith, refl) refl stages,
          (
            primary_action-Follows "preparing" ((refl, refl, refl, omega arith, refl), tt)
                (refl, refl, refl, omega arith, refl) refl stages,
            (
              primary_action-Follows "ready" tt (refl, refl, refl, omega arith, refl) refl stages,
              tt,
            ),
          ),
        ),
      )
      h

-- The words that stand after an open word in the chain
chain_after-Follows :
    (key : String) → one_of key open_words ≡ true → AllOf (Follows key) (chain_after key)
unfolding chain_after is_valid_transition next_statuses one_of equal_fold
chain_after-Follows key h =
    one_of_all (λ k. AllOf (Follows k) (chain_after k)) key open_words
      (
        (
          (refl, refl, refl, omega arith, refl),
          ((refl, refl, refl, omega arith, refl), ((refl, refl, refl, omega arith, refl), tt)),
        ),
        (
          ((refl, refl, refl, omega arith, refl), ((refl, refl, refl, omega arith, refl), tt)),
          (((refl, refl, refl, omega arith, refl), tt), (tt, tt)),
        ),
      )
      h

pub order_advance_target-Follows :
    (key : String)
    → one_of key open_words ≡ true
    → (stages : List String)
    → (order_advance_target key stages ≡ "") ⊎ Follows key (order_advance_target key stages)
order_advance_target-Follows key h stages =
    advance_target-Follows key (chain_after-Follows key h) stages
