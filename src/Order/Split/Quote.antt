-- ===== src/Order/Split/Quote.antt =====
-- What a split payment can take of a bill.
use mathlib.Core.Path.{subst}
use menuvex_printer.Order.Split.{SplitBillLine, SplitPaymentLine, add64, div64, mul64, sub64}
use menuvex_printer.Order.Split.Payment.{at_most, quote_picks, split_quote}
use menuvex_printer.Prelude.{
  Bool, List, Map, String, [], arith, false, if_both, if◌then◌else◌, lookup, not, some, string_eq,
  ◌||◌, ◌∷◌, ◌≡◌,
}
use menuvex_printer.Prelude.Int.{ltb_ℤ, pos, ℤ, ◌≤ℤ◌}
use menuvex_printer.Result.{
  >>=-eq-ok, Result, line_not_in_order, ok, or_fail, or_fail-eq-ok, refuse_if, refuse_if-eq-ok,
  too_many_picked, ◌>>=◌, ◌>>◌,
}

at_most_bound : (bound z : ℤ) → at_most bound z ≤ℤ bound
unfolding at_most
at_most_bound bound z = ground arith

split_quote_bound :
    (l : SplitBillLine) (qty : ℤ) → pos 0 ≤ℤ l.remaining → split_quote l qty ≤ℤ l.remaining
unfolding split_quote
split_quote_bound l qty h =
    let unpaid = sub64 l.quantity l.paid_quantity in
    let amount = mul64 qty l.unit_payable in
    let part =
      at_most l.remaining
        (if ltb_ℤ (pos 0) amount then amount else div64 (mul64 l.remaining qty) unpaid) in
    let below : part ≤ℤ l.remaining = at_most_bound l.remaining _ in
    let same : l.remaining ≤ℤ l.remaining = omega arith in
    if_both (λ z. z ≤ℤ l.remaining) (not (ltb_ℤ (pos 0) qty) || not (ltb_ℤ (pos 0) unpaid)) (pos 0)
      (if not (ltb_ℤ qty unpaid) then l.remaining else part) h
      (if_both (λ z. z ≤ℤ l.remaining) (not (ltb_ℤ qty unpaid)) l.remaining part same below)

-- A line of a payment pays for a part of what is unpaid of a line of the bill, and not more than what
-- remains of that line.
abbrev pub Within : Map String SplitBillLine → List SplitPaymentLine → Type 0
Within by_key [] = Unit {0}
Within by_key (p ∷ ps) =
    ((l : SplitBillLine) × (lookup p.line_id by_key ≡ some l)
      × (pos 1 ≤ℤ p.quantity)
      × (p.quantity ≤ℤ sub64 l.quantity l.paid_quantity)
      × (pos 0 ≤ℤ l.remaining → p.amount ≤ℤ l.remaining))
    × Within by_key ps

abbrev is_bad_pick : SplitBillLine → ℤ → Bool
is_bad_pick l qty = not (ltb_ℤ (pos 0) qty) || ltb_ℤ (sub64 l.quantity l.paid_quantity) qty

pick_fits :
    (l : SplitBillLine) (qty : ℤ)
    → is_bad_pick l qty ≡ false
    → (pos 1 ≤ℤ qty) × (qty ≤ℤ sub64 l.quantity l.paid_quantity)
pick_fits l qty h = ground arith

abbrev with_line :
    String → SplitBillLine → ℤ → List SplitPaymentLine × ℤ → Result (List SplitPaymentLine × ℤ)
with_line line_id l qty rest =
    ok (record { line_id = line_id; quantity = qty; amount = split_quote l qty } ∷ rest.0, rest.1)

abbrev picked :
    Map String SplitBillLine
    → String
    → ℤ
    → List (String × ℤ)
    → ℤ
    → SplitBillLine
    → Result (List SplitPaymentLine × ℤ)
picked by_key line_id qty picks acc l =
    refuse_if (is_bad_pick l qty) too_many_picked
    >> (quote_picks by_key picks (add64 acc (split_quote l qty)) >>= with_line line_id l qty)

-- Whatever is picked, each line of a payment that is accepted is of a line of the bill, of a positive
-- quantity that is unpaid, and at most of what remains of that line, where that is not negative.
pub quote_picks-Within :
    (by_key : Map String SplitBillLine) (picks : List (String × ℤ)) (acc : ℤ)
    (r : List SplitPaymentLine × ℤ)
    → quote_picks by_key picks acc ≡ ok r
    → Within by_key r.0
unfolding quote_picks
quote_picks-Within by_key [] acc r h =
    let e : ([], acc) ≡ r = cc in subst (λ q. Within by_key q.0) e tt
quote_picks-Within by_key ((line_id, qty) ∷ picks) acc r h =
    let (l, found, h₁) =
      >>=-eq-ok (or_fail (lookup line_id by_key) line_not_in_order)
        (picked by_key line_id qty picks acc) h in
    let (fits, h₂) = refuse_if-eq-ok (is_bad_pick l qty) too_many_picked _ h₁ in
    let (rest, later, last) =
      >>=-eq-ok (quote_picks by_key picks (add64 acc (split_quote l qty))) (with_line line_id l qty)
        h₂ in
    let e : (
      record { line_id = line_id; quantity = qty; amount = split_quote l qty } ∷ rest.0,
      rest.1,
    )
        ≡ r =
      cc in
    subst (λ q. Within by_key q.0) e
      (
        (
          l,
          or_fail-eq-ok _ _ found,
          (pick_fits l qty fits).0,
          (pick_fits l qty fits).1,
          λ p. split_quote_bound l qty p,
        ),
        quote_picks-Within by_key picks _ rest later,
      )
