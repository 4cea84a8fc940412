-- ===== src/Order/Money.antt =====
-- The sums of an order: what clamping does to the discount and to the total.
use mathlib.Core.Path.{subst}
use menuvex_printer.Entity.{price_irr}
use menuvex_printer.Order.{
  OrderLine, PosOrderLineInput, at_least_zero, build_lines, clamp_discount, is_skipped, price_line,
  total_of,
}
use menuvex_printer.Prelude.{
  Bool-cases, List, String, [], arith, inl, inr, refl, some, suc, ℕ, ◌∷◌, ◌≡◌,
}
use menuvex_printer.Prelude.Int.{int_laws, pos, ℤ, ◌*ℤ◌, ◌+ℤ◌, ◌-ℤ◌, ◌≤ℤ◌}
use menuvex_printer.Result.{>>=-eq-ok, ok, or_fail, or_fail-eq-ok, product_not_found, ◌>>=◌}
use menuvex_printer.Store.{PersistedDb, StoredEntity, find_live}
use menuvex_printer.Text.Decimal.{parse_big_int_safe}

at_least_zero_bound : (z : ℤ) → pos 0 ≤ℤ at_least_zero z
unfolding at_least_zero
at_least_zero_bound z = ground arith

at_least_zero_same : (z : ℤ) → pos 0 ≤ℤ z → at_least_zero z ≡ z
unfolding at_least_zero
at_least_zero_same z h = ground arith

clamp_discount_bounds :
    (subtotal d : ℤ)
    → pos 0 ≤ℤ subtotal
    → (pos 0 ≤ℤ clamp_discount subtotal d) × (clamp_discount subtotal d ≤ℤ subtotal)
unfolding clamp_discount
clamp_discount_bounds subtotal d h = ground arith

difference_bound : (s d x : ℤ) → d ≤ℤ s → pos 0 ≤ℤ x → pos 0 ≤ℤ s -ℤ d +ℤ x
difference_bound s d x h k = omega int_laws

-- With a subtotal that is not negative the discount lies between 0 and the subtotal, and the total is
-- the subtotal less the discount plus the extra, never negative: its own clamp has nothing to do.
pub total_of_exact :
    (subtotal d x : ℤ)
    → pos 0 ≤ℤ subtotal
    → let discount = clamp_discount subtotal d in
      let extra = at_least_zero x in
      (pos 0 ≤ℤ discount)
      × (discount ≤ℤ subtotal)
      × (pos 0 ≤ℤ extra)
      × (pos 0 ≤ℤ total_of subtotal discount extra)
      × (total_of subtotal discount extra ≡ subtotal -ℤ discount +ℤ extra)
total_of_exact subtotal d x h =
    let discount = clamp_discount subtotal d in
    let extra = at_least_zero x in
    let (low, high) = clamp_discount_bounds subtotal d h in
    let sum = difference_bound subtotal discount extra high (at_least_zero_bound x) in
    (
      low,
      high,
      at_least_zero_bound x,
      unfold total_of in at_least_zero_bound (subtotal -ℤ discount +ℤ extra),
      unfold total_of in at_least_zero_same (subtotal -ℤ discount +ℤ extra) sum,
    )

-- A line costs the menu's price of its product times its quantity, and every line of an order is one of
-- a product that is on the menu.
abbrev pub Priced : PersistedDb → List OrderLine → Type 0
Priced st [] = Unit {0}
Priced st (l ∷ ls) =
    ((product : StoredEntity) × (find_live st "product" l.product_id ≡ some product)
      × (l.unit_price ≡ parse_big_int_safe (price_irr product.payload))
      × (l.line_total ≡ l.unit_price *ℤ l.quantity)
      × (pos 1 ≤ℤ l.quantity))
    × Priced st ls

-- Every line of an order is priced from the menu.
pub build_lines-Priced :
    (st : PersistedDb) (ids : ℕ → String) (n : ℕ) (its : List PosOrderLineInput)
    (ls : List OrderLine)
    → build_lines st ids n its ≡ ok ls
    → Priced st ls
unfolding build_lines
build_lines-Priced st ids n [] ls h = let e : [] ≡ ls = cc in subst (Priced st) e tt
build_lines-Priced st ids n (it ∷ its) ls h = elim (Bool-cases (is_skipped it)) [
  | inl skip ↦ build_lines-Priced st ids (suc n) its ls (ground (arith, skip))
  | inr kept ↦
      let h₁ : (or_fail (find_live st "product" it.product_id) product_not_found >>= λ product.
      build_lines st ids (suc n) its >>= λ rest. ok (price_line product it (ids n) ∷ rest))
          ≡ ok ls =
        ground (arith, kept) in
      let (product, found, h₂) =
        >>=-eq-ok (or_fail (find_live st "product" it.product_id) product_not_found) _ h₁ in
      let (rest, later, last) = >>=-eq-ok (build_lines st ids (suc n) its) _ h₂ in
      let e : price_line product it (ids n) ∷ rest ≡ ls = cc in
      subst (Priced st) e (
        (product, or_fail-eq-ok _ _ found, refl, refl, ground (arith, kept)),
        build_lines-Priced st ids (suc n) its rest later,
      )
]
