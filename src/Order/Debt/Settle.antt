-- ===== src/Order/Debt/Settle.antt =====
-- A payment of a debt: what settle_debtor_payment leaves in the account.
use mathlib.Core.Path.{subst}
use menuvex_printer.Entity.{field_of, field_text}
use menuvex_printer.Entity.Laws.{field_of-encode}
use menuvex_printer.Json.{Json, decode_map, encode_map}
use menuvex_printer.Json.Laws.{IsUnique, decode_map-IsUnique, insert-IsUnique}
use menuvex_printer.Order.Debt.{Account, account_fields, pay, settle_body, settle_debtor_payment}
use menuvex_printer.Prelude.{
  Bool-cases, Map, String, ap, arith, inl, inr, map_laws, not, refl, some, string_eq, suc, true,
  ◌+◌, ◌∙◌, ◌≡◌, ◌≢◌, ◌≤◌, ◌⊎◌,
}
use menuvex_printer.Prelude.Int.{int_laws, ltb_ℤ, neg_part, pos, pos_part, ℤ, ◌+ℤ◌, ◌-ℤ◌, ◌≤ℤ◌}
use menuvex_printer.Result.{
  >>=-eq-ok, bad_payment, bad_row, debtor_not_found, ok, or_fail, or_fail-eq-ok, refuse_if,
}
use menuvex_printer.Store.{
  Io, PersistedDb, Store, StoredEntity, entity_key, find_entity, find_live, next_int64, put_entity,
  rewrite,
}
use menuvex_printer.Store.Atomic.{after_check_ok}
use menuvex_printer.Store.Keys.{find-put_ne, find-put_self, find_live-find, find_live_of}
use menuvex_printer.Text.Decimal.{parse_big_int_safe}
use menuvex_printer.Text.Decimal.RoundTrip.{parse_big_int_safe-format_int}

-- The account after a payment: either the debt is paid off, or less remains, by the amount.
abbrev pub Paid : ℤ → ℤ → ℤ → Account → Type 0
Paid amount paid remaining a =
    (a.paid +ℤ a.remaining ≡ paid +ℤ remaining)
    × (((remaining ≤ℤ amount) × (a.status ≡ "paid") × (a.remaining ≡ pos 0))
        ⊎ ((a.status ≡ "partial") × (pos 1 ≤ℤ a.remaining) × (a.remaining +ℤ amount ≡ remaining)))

move : (p a r : ℤ) → p +ℤ a +ℤ (r -ℤ a) ≡ p +ℤ r
move p a r = omega int_laws

stay : (z : ℤ) → z +ℤ pos 0 ≡ z
stay z = omega int_laws

back : (r a : ℤ) → r -ℤ a +ℤ a ≡ r
back r a = omega int_laws

above : (r a : ℤ) → ltb_ℤ a r ≡ true → pos 1 ≤ℤ r -ℤ a
above r a h =
    let lt : suc (pos_part a + neg_part r) ≤ pos_part r + neg_part a = ground arith in
    omega int_laws

pub pay-Paid : (amount paid remaining : ℤ) → Paid amount paid remaining (pay amount paid remaining)
unfolding pay
pay-Paid amount paid remaining = elim (Bool-cases (ltb_ℤ amount remaining)) [
  | inl lt ↦
      rw (lt)
        (move paid amount remaining, inr (refl, above remaining amount lt, back remaining amount))
  | inr ge ↦ rw (ge) (stay (paid +ℤ remaining), inl (ground (arith, ge), refl, refl))
]

account_fields-fields :
    (a : Account) (now : String) (m : Map String Json) (u : IsUnique m)
    → let p = encode_map (account_fields a now m) in
      (parse_big_int_safe (field_of p "paid") ≡ a.paid)
      × (parse_big_int_safe (field_of p "remaining") ≡ a.remaining)
      × (field_of p "status" ≡ a.status)
unfolding account_fields field_text
account_fields-fields a now m u =
    let unique : IsUnique (account_fields a now m) = insert-IsUnique "updated_at" _ _ (
      insert-IsUnique "remaining" _ _
        (insert-IsUnique "paid" _ _ (insert-IsUnique "status" _ _ u))) in
    (
      ap parse_big_int_safe (field_of-encode (account_fields a now m) "paid" unique ∙ simp map_laws)
          ∙ parse_big_int_safe-format_int a.paid,
      ap parse_big_int_safe
            (field_of-encode (account_fields a now m) "remaining" unique ∙ simp map_laws)
          ∙ parse_big_int_safe-format_int a.remaining,
      field_of-encode (account_fields a now m) "status" unique ∙ simp map_laws,
    )

abbrev pub account_of : Json → Account
account_of payload = record {
  paid = parse_big_int_safe (field_of payload "paid");
  remaining = parse_big_int_safe (field_of payload "remaining");
  status = field_of payload "status";
}

-- One debtor has a new version, with the payment in the account; every other record is as it was.
abbrev pub Settled : String → ℤ → PersistedDb → PersistedDb → Type 0
Settled debtor_id amount st st' =
    (e e' : StoredEntity) × (find_live st "debtor" debtor_id ≡ some e)
    × (find_live st' "debtor" debtor_id ≡ some e')
    × (e'.version ≡ next_int64 e.version)
    × Paid amount (account_of e.payload).paid (account_of e.payload).remaining
        (account_of e'.payload)
    × ((k i : String)
        → entity_key "debtor" debtor_id ≢ entity_key k i
        → find_entity st' k i ≡ find_entity st k i)

rewritten :
    (debtor_id : String) (amount : ℤ) (now : String) (st : PersistedDb) (e : StoredEntity)
    (m : Map String Json)
    → find_live st "debtor" debtor_id ≡ some e
    → IsUnique m
    → Settled debtor_id amount st (
        rewrite "debtor" debtor_id e
          (account_fields
            (pay amount (account_of e.payload).paid (account_of e.payload).remaining)
            now
            m)
          st)
unfolding rewrite
rewritten debtor_id amount now st e m live u =
    let before = account_of e.payload in
    let after = pay amount before.paid before.remaining in
    let (paid, remaining, status) = account_fields-fields after now m u in
    let e' : StoredEntity = record e {
      version = next_int64 e.version;
      payload = encode_map (account_fields after now m);
    } in
    (
      e,
      e',
      live,
      find_live_of (put_entity "debtor" debtor_id e' st) "debtor" debtor_id
          (find-put_self st "debtor" debtor_id e') (find_live-find st "debtor" debtor_id live).1,
      refl,
      rw (paid, remaining, status) (pay-Paid amount before.paid before.remaining),
      λ k i ne. find-put_ne st "debtor" debtor_id e' k i ne,
    )

settle_body-Settled :
    (debtor_id : String) (amount : ℤ) (now : String) (st st' : PersistedDb)
    → settle_body debtor_id amount now st ≡ ok (st', tt)
    → Settled debtor_id amount st st'
unfolding settle_body
settle_body-Settled debtor_id amount now st st' h =
    let (e, found, h₁) =
      >>=-eq-ok (or_fail (find_live st "debtor" debtor_id) debtor_not_found) _ h in
    let (m, decoded, h₂) = >>=-eq-ok (or_fail (decode_map e.payload) bad_row) _ h₁ in
    let same : rewrite "debtor" debtor_id e
          (account_fields (pay amount (account_of e.payload).paid (account_of e.payload).remaining)
            now m)
          st
        ≡ st' =
      cc in
    subst (Settled debtor_id amount st) same (
      rewritten debtor_id amount now st e m (or_fail-eq-ok _ _ found)
        (decode_map-IsUnique e.payload (or_fail-eq-ok _ _ decoded)))

-- A payment that succeeds is of a positive amount and settles: the sum of what is paid and what remains
-- is kept, the account becomes "paid" when the amount covers what remained and "partial" otherwise, and
-- no other record changes.
pub settle_debtor_payment-Settled :
    (io : Io) (debtor_id amount_irr now : String) (s : Store)
    → (settle_debtor_payment io debtor_id amount_irr now s).0 ≡ ok tt
    → let amount = parse_big_int_safe amount_irr in
      (pos 1 ≤ℤ amount)
      × Settled debtor_id amount s.state
          (settle_debtor_payment io debtor_id amount_irr now s).1.state
unfolding settle_debtor_payment
settle_debtor_payment-Settled io debtor_id amount_irr now s h =
    let amount = parse_big_int_safe amount_irr in
    let (checked, done, written) =
      after_check_ok (refuse_if (not (ltb_ℤ (pos 0) amount)) bad_payment) io
        (settle_body debtor_id amount now) s h in
    (positive amount checked, settle_body-Settled debtor_id amount now s.state _ done)
  where
    positive : (a : ℤ) → refuse_if (not (ltb_ℤ (pos 0) a)) bad_payment ≡ ok tt → pos 1 ≤ℤ a
    positive a e = ground arith
