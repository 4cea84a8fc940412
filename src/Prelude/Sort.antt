-- ===== src/Prelude/Sort.antt =====
-- sort.Slice as insertion by the source's less function. Go promises a sorted permutation, and that is
-- all that is proved of it.
use mathlib.Core.List.Perm
use mathlib.Core.List.{Perm}
use menuvex_printer.Prelude.{
  Bool, Bool-cases, List, [], arith, if_both, if◌then◌else◌, inl, inr, suc, take, zero, ℕ, ◌∷◌,
}
use menuvex_printer.Prelude.Int.{ltb_ℤ, ℤ, ◌≤ℤ◌}

module _ {ℓ} {A : Type ℓ} (less : A → A → Bool) where
  unfoldable pub place : A → List A → List A
  place x [] = x ∷ []
  place x (y ∷ ys) = if less y x then y ∷ place x ys else x ∷ y ∷ ys

  unfoldable pub sort_slice : List A → List A
  unfolding place
  sort_slice [] = []
  sort_slice (x ∷ xs) = place x (sort_slice xs)

  place-perm : (x : A) (ys : List A) → Perm (place x ys) (x ∷ ys)
  unfolding place
  place-perm x [] = Perm.refl _
  place-perm x (y ∷ ys) =
      if_both (λ zs. Perm zs (x ∷ y ∷ ys)) (less y x) _ _
        (Perm.trans (Perm.cons y (place-perm x ys)) (Perm.swap x y ys)) (Perm.refl _)

  pub sort_slice-perm : (xs : List A) → Perm (sort_slice xs) xs
  unfolding sort_slice
  sort_slice-perm [] = Perm.refl _
  sort_slice-perm (x ∷ xs) =
      Perm.trans (place-perm x (sort_slice xs)) (Perm.cons x (sort_slice-perm xs))

-- Each entry is at most the one behind it, by a key that is an integer.
module _ {ℓ} {A : Type ℓ} (key : A → ℤ) where
  abbrev pub LeAll : ℤ → List A → Type 0
  LeAll k [] = Unit {0}
  LeAll k (x ∷ xs) = (k ≤ℤ key x) × LeAll k xs

  abbrev pub IsAscending : List A → Type 0
  IsAscending [] = Unit {0}
  IsAscending (x ∷ xs) = LeAll (key x) xs × IsAscending xs

  LeAll-trans : (j k : ℤ) (xs : List A) → j ≤ℤ k → LeAll k xs → LeAll j xs
  LeAll-trans j k [] h a = tt
  LeAll-trans j k (x ∷ xs) h a = (omega arith, LeAll-trans j k xs h a.1)

  abbrev pub by_key : A → A → Bool
  by_key x y = ltb_ℤ (key x) (key y)

  LeAll-place :
      (k : ℤ) (x : A) (ys : List A) → k ≤ℤ key x → LeAll k ys → LeAll k (place by_key x ys)
  unfolding place
  LeAll-place k x [] h a = (h, tt)
  LeAll-place k x (y ∷ ys) h a =
      if_both (LeAll k) (by_key y x) _ _ (a.0, LeAll-place k x ys h a.1) (h, (a.0, a.1))

  place-IsAscending : (x : A) (ys : List A) → IsAscending ys → IsAscending (place by_key x ys)
  unfolding place
  place-IsAscending x [] a = (tt, tt)
  place-IsAscending x (y ∷ ys) a = elim (Bool-cases (by_key y x)) [
    | inl lt ↦
        rw (lt, place) (LeAll-place (key y) x ys (ground arith) a.0, place-IsAscending x ys a.1)
    | inr ge ↦
        rw (ge, place)
          ((ground arith, LeAll-trans (key x) (key y) ys (ground arith) a.0), (a.0, a.1))
  ]

  pub sort_slice-IsAscending : (xs : List A) → IsAscending (sort_slice by_key xs)
  unfolding sort_slice
  sort_slice-IsAscending [] = tt
  sort_slice-IsAscending (x ∷ xs) = place-IsAscending x _ (sort_slice-IsAscending xs)

  pub take-IsAscending : (n : ℕ) (xs : List A) → IsAscending xs → IsAscending (take n xs)
  take-IsAscending zero xs a = tt
  take-IsAscending (suc n) [] a = tt
  take-IsAscending (suc n) (x ∷ xs) a = (take-LeAll n xs a.0, take-IsAscending n xs a.1)
    where
      take-LeAll : (n : ℕ) (xs : List A) → LeAll (key x) xs → LeAll (key x) (take n xs)
      take-LeAll zero xs a = tt
      take-LeAll (suc n) [] a = tt
      take-LeAll (suc n) (y ∷ ys) a = (a.0, take-LeAll n ys a.1)
