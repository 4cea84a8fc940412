-- ===== src/Result.antt =====
-- Go's (value, error) pairs: a value, or the error that the source returns there.
use menuvex_printer.Prelude.{Bool, Option, false, none, refl, some, true, ◌≡◌}

pub data Error : Type 0 where
  ctx_error : Error
  store_closed : Error
  marshal_failed : Error
  io_failed : Error
  random_failed : Error
  scope_mismatch : Error
  record_not_found : Error
  missing_identity : Error
  invalid_json : Error
  empty_cursor : Error
  bad_row : Error
  no_offline_workflow : Error
  unsupported_action : Error
  payload_too_large : Error
  not_an_object : Error
  delete_payload_not_empty : Error
  empty_edit : Error
  field_not_editable : Error
  unit_not_editable : Error
  bad_boolean : Error
  bad_decimal : Error
  bad_text : Error
  empty_name : Error
  bad_uuid : Error
  unknown_unit : Error
  missing_required : Error
  id_given_for_create : Error
  entity_id_not_uuid : Error
  no_device : Error
  pending_intent : Error
  not_in_snapshot : Error
  changed_while_editing : Error
  no_version : Error
  batch_not_covered : Error
  duplicate_or_unknown : Error
  unknown_status : Error
  outbox_changed : Error
  not_discardable : Error
  server_error : Error
  bad_protocol : Error
  paged_bootstrap : Error
  missing_bootstrap_data : Error
  cursor_stuck : Error
  page_limit : Error
  blank_kind : Error
  blank_id : Error
  negative_or_not_numeric : Error
  no_items : Error
  product_not_found : Error
  no_valid_line : Error
  order_not_found : Error
  order_completed : Error
  order_cancelled : Error
  bad_method : Error
  no_picks : Error
  line_not_in_order : Error
  too_many_picked : Error
  zero_payment : Error
  no_payment : Error
  no_target_table : Error
  order_not_open : Error
  same_table : Error
  table_not_found : Error
  table_busy : Error
  no_customer_name : Error
  already_debtor : Error
  bad_debt_amount : Error
  final_status : Error
  bad_transition : Error
  bad_quantity : Error
  ingredient_not_found : Error
  waste_not_found : Error
  waste_voided : Error
  bad_payment : Error
  debtor_not_found : Error
  print_order_not_found : Error
  printer_not_found : Error
  job_not_found : Error
  job_invalid : Error
  send_failed : Error

-- An operation that fails gives its error, and one that does not its value.
pub data Result {ℓ} (A : Type ℓ) : Type ℓ where
  err : Error → Result A
  ok : A → Result A

-- if err != nil { return err }
infixl 5 ◌>>=◌
abbrev pub ◌>>=◌ {ℓ κ} : {V : Type ℓ} {W : Type κ} → Result V → (V → Result W) → Result W
err e >>= rest = err e
ok v >>= rest = rest v

-- The same for a call that only returns an error.
infixl 5 ◌>>◌
abbrev pub ◌>>◌ {κ} : {W : Type κ} → Result (Unit {0}) → Result W → Result W
check >> rest = check >>= λ done. rest

-- if bad { return error }
abbrev pub refuse_if : Bool → Error → Result (Unit {0})
refuse_if true e = err e
refuse_if false e = ok tt

abbrev pub or_fail {ℓ} : {A : Type ℓ} → Option A → Error → Result A
or_fail none e = err e
or_fail (some a) e = ok a

module _ {ℓ κ} {V : Type ℓ} {W : Type κ} where
  -- A bind succeeds only through both of its parts.
  pub >>=-eq-ok :
      (first : Result V) (rest : V → Result W) {w : W}
      → (first >>= rest) ≡ ok w
      → (v : V) × (first ≡ ok v) × (rest v ≡ ok w)
  >>=-eq-ok (err e) rest p = cc
  >>=-eq-ok (ok v) rest p = (v, refl, p)

module _ {ℓ} {B : Type ℓ} where
  pub refuse_if-eq-ok :
      (t : Bool) (e : Error) (k : Result B) {b : B}
      → (refuse_if t e >> k) ≡ ok b
      → (t ≡ false) × (k ≡ ok b)
  refuse_if-eq-ok true e k h = cc
  refuse_if-eq-ok false e k h = (refl, h)

pub or_fail-eq-ok {ℓ} :
    {A : Type ℓ} (o : Option A) (e : Error) {a : A} → or_fail o e ≡ ok a → o ≡ some a
or_fail-eq-ok none e h = cc
or_fail-eq-ok (some x) e h = cc

pub ok_inj {ℓ} : {A : Type ℓ} {x y : A} → Result.ok x ≡ ok y → x ≡ y
ok_inj e = cc
