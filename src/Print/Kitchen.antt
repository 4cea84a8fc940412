-- ===== src/Print/Kitchen.antt =====
-- The tickets of the kitchen that EnqueueOrderPrintJobsDocs asks for.
use menuvex_printer.Entity.{Entity}
use menuvex_printer.Prelude.{
  Bool, Bool-cases, List, Option, String, [], ap, arith, eq_iff, eq_refl, false, if_both, inl, inr,
  none, refl, some, str_eq, true, ◌++◌, ◌∷◌, ◌≡◌, ◌⊎◌,
}
use menuvex_printer.Prelude.Int.{negsuc, pos, ℤ, ◌≤ℤ◌}
use menuvex_printer.Print.Wants.{
  Wanted, add_kitchen, clamp_copies, is_in, merge_cats, merge_want, unseen,
}

-- No ticket of the list is for the printer.
abbrev pub NoTicket : String → List Wanted → Type 0
NoTicket i [] = Unit {0}
NoTicket i (w ∷ ws) = (str_eq w.printer.id i ≡ false) × NoTicket i ws

-- Each printer has one ticket at most, and one to five copies of it.
abbrev pub AreTickets : List Wanted → Type 0
AreTickets [] = Unit {0}
AreTickets (w ∷ ws) =
    (str_eq w.doc_type "kitchen" ≡ true)
    × (pos 1 ≤ℤ w.copies)
    × (w.copies ≤ℤ pos 5)
    × NoTicket w.printer.id ws
    × AreTickets ws

-- nil stands for every category.
abbrev pub holds : String → Option (List String) → Bool
holds c none = true
holds c (some cs) = is_in c cs

-- Some ticket for the printer holds the category.
abbrev pub HasTicket : String → String → List Wanted → Type 0
HasTicket i c [] = ⊥
HasTicket i c (w ∷ ws) =
    ((str_eq w.printer.id i ≡ true) × (holds c w.cats ≡ true)) ⊎ HasTicket i c ws

pub clamped : (z : ℤ) → (pos 1 ≤ℤ clamp_copies z) × (clamp_copies z ≤ℤ pos 5)
unfolding clamp_copies
clamped (pos n) = (ground arith, ground arith)
clamped (negsuc n) = (ground arith, ground arith)

add_kitchen-NoTicket :
    (p : Entity) (cats : Option (List String)) (n : ℤ) (i : String) (ws : List Wanted)
    → str_eq p.id i ≡ false
    → NoTicket i ws
    → NoTicket i (add_kitchen p cats n ws)
unfolding add_kitchen merge_want
add_kitchen-NoTicket p cats n i [] other h = (other, tt)
add_kitchen-NoTicket p cats n i (w ∷ ws) other h =
    if_both (NoTicket i) (str_eq w.printer.id p.id) _ _ (h.0, h.1)
      (h.0, add_kitchen-NoTicket p cats n i ws other h.1)

pub add_kitchen-AreTickets :
    (p : Entity) (cats : Option (List String)) (n : ℤ) (ws : List Wanted)
    → AreTickets ws
    → AreTickets (add_kitchen p cats n ws)
unfolding add_kitchen merge_want
add_kitchen-AreTickets p cats n [] h = (refl, (clamped n).0, (clamped n).1, tt, tt)
add_kitchen-AreTickets p cats n (w ∷ ws) (doc, low, high, alone, rest) =
    elim (Bool-cases (str_eq w.printer.id p.id)) [
      | inl e ↦ rw (e) (
        doc,
        if_both (λ z. pos 1 ≤ℤ z) _ _ _ (clamped n).0 low,
        if_both (λ z. z ≤ℤ pos 5) _ _ _ (clamped n).1 high,
        alone,
        rest,
      )
      | inr d ↦ rw (d) (
        doc,
        low,
        high,
        add_kitchen-NoTicket p cats n w.printer.id ws
            (ground (arith, d, eq_iff p.id w.printer.id, eq_iff w.printer.id p.id)) alone,
        add_kitchen-AreTickets p cats n ws rest,
      )
    ]

pub is_in-append_left :
    (c : String) (xs ys : List String) → is_in c xs ≡ true → is_in c (xs ++ ys) ≡ true
unfolding is_in
is_in-append_left c [] ys h = cc
is_in-append_left c (x ∷ xs) ys h = ground (arith, h, is_in-append_left c xs ys)

pub is_in-append_right :
    (c : String) (xs ys : List String) → is_in c ys ≡ true → is_in c (xs ++ ys) ≡ true
unfolding is_in
is_in-append_right c [] ys h = h
is_in-append_right c (x ∷ xs) ys h = ground (arith, is_in-append_right c xs ys h)

is_in-same : (c d : String) (xs : List String) → str_eq d c ≡ true → is_in d xs ≡ is_in c xs
is_in-same c d xs h = ap (λ x. is_in x xs) ((eq_iff d c).0 h)

in_unseen :
    (c : String) (os cs : List String)
    → is_in c cs ≡ true
    → is_in c os ≡ false
    → is_in c (unseen os cs) ≡ true
unfolding is_in unseen
in_unseen c os [] h new = cc
in_unseen c os (d ∷ cs) h new = elim (Bool-cases (str_eq d c)) [
  | inl e ↦ rw (is_in-same c d os e, new, is_in, e) refl
  | inr n ↦
      let later = in_unseen c os cs (ground (arith, n, h)) new in
      if_both (λ xs. is_in c xs ≡ true) (is_in d os) _ _ later (ground (arith, later))
]

is_in-unseen :
    (c : String) (os cs : List String) → is_in c cs ≡ true → is_in c (os ++ unseen os cs) ≡ true
is_in-unseen c os cs h = elim (Bool-cases (is_in c os)) [
  | inl old ↦ is_in-append_left c os (unseen os cs) old
  | inr new ↦ is_in-append_right c os (unseen os cs) (in_unseen c os cs h new)
]

merge_old :
    (c : String) (old new : Option (List String))
    → holds c old ≡ true
    → holds c (merge_cats old new) ≡ true
unfolding merge_cats
merge_old c old none h = refl
merge_old c none (some cs) h = refl
merge_old c (some os) (some cs) h = is_in-append_left c os (unseen os cs) h

merge_new :
    (c : String) (old new : Option (List String))
    → holds c new ≡ true
    → holds c (merge_cats old new) ≡ true
unfolding merge_cats
merge_new c old none h = refl
merge_new c none (some cs) h = refl
merge_new c (some os) (some cs) h = is_in-unseen c os cs h

pub add_kitchen-keeps :
    (p : Entity) (cats : Option (List String)) (n : ℤ) (i c : String) (ws : List Wanted)
    → HasTicket i c ws
    → HasTicket i c (add_kitchen p cats n ws)
unfolding add_kitchen merge_want
add_kitchen-keeps p cats n i c [] x = elim x [ ]
add_kitchen-keeps p cats n i c (w ∷ ws) (inl (there, held)) =
    if_both (HasTicket i c) (str_eq w.printer.id p.id) _ _
      (inl (there, merge_old c w.cats cats held)) (inl (there, held))
add_kitchen-keeps p cats n i c (w ∷ ws) (inr later) =
    if_both (HasTicket i c) (str_eq w.printer.id p.id) _ _ (inr later)
      (inr (add_kitchen-keeps p cats n i c ws later))

pub add_kitchen-covers :
    (p : Entity) (cats : Option (List String)) (n : ℤ) (c : String) (ws : List Wanted)
    → holds c cats ≡ true
    → HasTicket p.id c (add_kitchen p cats n ws)
unfolding add_kitchen merge_want
add_kitchen-covers p cats n c [] h = inl (eq_refl p.id, h)
add_kitchen-covers p cats n c (w ∷ ws) h = elim (Bool-cases (str_eq w.printer.id p.id)) [
  | inl e ↦ rw (e) (inl (e, merge_new c w.cats cats h))
  | inr d ↦ rw (d) (inr (add_kitchen-covers p cats n c ws h))
]
