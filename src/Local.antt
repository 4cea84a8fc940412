-- ===== src/Local.antt =====
-- Local records of offline-menuvex/internal/store/domains.go: validateLocalFields, SaveLocalRecord and
-- DeleteLocalRecord. The fields are a decoded JSON object, so that each number is a float64.
pub mod Fields
pub mod Save
use menuvex_printer.Json.{Json, decode_map, encode_map, null, num, str}
use menuvex_printer.Json.Print.{print}
use menuvex_printer.Order.{set_fields}
use menuvex_printer.Prelude.{
  Bool, List, Map, Option, String, [], false, if◌then◌else◌, insert, lookup, none, some, str_eq,
  string_eq, suc, true, ◌||◌, ◌∷◌,
}
use menuvex_printer.Prelude.Int.{ltb_ℤ, negsuc, pos, ℤ}
use menuvex_printer.Result.{
  Result, blank_id, blank_kind, err, negative_or_not_numeric, ok, or_fail, record_not_found,
  refuse_if, ◌>>=◌, ◌>>◌,
}
use menuvex_printer.Store.{
  Io, PersistedDb, Store, StoredEntity, after_check, find_entity, find_live, next_int64, put_entity,
  with_tx,
}
use menuvex_printer.Text.{before_dot, is_blank, trim_space, ◌<>◌}
use menuvex_printer.Text.Decimal.{set_string}
use menuvex_printer.Text.Float.{print_float}

-- fmt.Sprint of a value that is not nil. Arrays and objects print in Go's own form there, which, like
-- the JSON text here, is never a number.
unfoldable pub sprint_value : Json → String
unfolding print_float ◌<>◌ print
sprint_value (str s) = s
sprint_value (num (pos n)) = print_float n
sprint_value (num (negsuc n)) = "-" <> print_float (suc n)
sprint_value j = print j

unfoldable pub check_amount : Option ℤ → Result (Unit {0})
check_amount none = err negative_or_not_numeric
check_amount (some z) = refuse_if (ltb_ℤ z (pos 0)) negative_or_not_numeric

-- parseNonNegative
unfoldable pub check_non_negative : Option Json → Result (Unit {0})
unfolding sprint_value trim_space before_dot set_string check_amount
check_non_negative none = ok tt
check_non_negative (some null) = ok tt
check_non_negative (some j) =
    let text = trim_space (sprint_value j) in
    if str_eq text "" then ok tt else check_amount (set_string (before_dot text))

abbrev pub amount_fields : String → List String
amount_fields kind =
    if str_eq kind "product"
    then "price" ∷ "cost" ∷ []
    else if str_eq kind "ingredient"
    then "current_stock" ∷ "minimum_stock" ∷ "reorder_point" ∷ "average_cost" ∷ []
    else if str_eq kind "debtor"
    then "total" ∷ "paid" ∷ "remaining" ∷ []
    else if str_eq kind "expense"
    then "price" ∷ []
    else []

unfoldable pub check_amounts : List String → Map String Json → Result (Unit {0})
unfolding check_non_negative lookup
check_amounts [] fields = ok tt
check_amounts (k ∷ ks) fields = check_non_negative (lookup k fields) >> check_amounts ks fields

-- validateLocalFields
unfoldable pub validate_local_fields : String → Map String Json → Result (Unit {0})
unfolding check_amounts
validate_local_fields kind fields = check_amounts (amount_fields kind) fields

-- merged, before the fields of the call
unfoldable pub or_empty : Option (Map String Json) → Map String Json
or_empty none = []
or_empty (some m) = m

unfoldable pub is_missing : Option Json → Bool
is_missing none = true
is_missing (some null) = true
is_missing (some j) = false

-- 1 for the first version, and one more than the version that stands there, deleted or not
unfoldable pub next_version : Option StoredEntity → ℤ
unfolding next_int64
next_version none = pos 1
next_version (some e) = if ltb_ℤ e.version (pos 1) then pos 1 else next_int64 e.version

unfoldable pub merged_fields :
    Bool → String → Map String Json → String → ℤ → Map String Json → Map String Json
unfolding set_fields insert lookup is_missing
merged_fields is_new i fields now version old =
    let with_id = insert "id" (str i) (set_fields fields old) in
    let dated =
      if is_new || is_missing (lookup "created_at" with_id)
      then insert "created_at" (str now) with_id
      else with_id in
    insert "version" (num version) (insert "updated_at" (str now) dated)

-- Whether the record is new, and the fields that stand there.
unfoldable pub kept_fields : Bool → Option StoredEntity → Bool × Map String Json
unfolding decode_map or_empty
kept_fields made none = (true, [])
kept_fields made (some e) = (made, or_empty (decode_map e.payload))

unfoldable pub save_local_body :
    Bool
    → String
    → String
    → Map String Json
    → String
    → PersistedDb
    → Result (PersistedDb × Unit {0})
unfolding put_entity encode_map merged_fields next_version find_entity find_live kept_fields
save_local_body made kind i fields now st =
    let version = next_version (find_entity st kind i) in
    let kept = kept_fields made (find_live st kind i) in
    ok (
      put_entity kind i
          (record {
            id = i;
            kind = kind;
            version = version;
            deleted = false;
            payload = encode_map (merged_fields kept.0 i fields now version kept.1);
          })
          st,
      tt,
    )

-- The checks before the transaction, with the id of the record and whether it was made here. `fresh` is
-- what UUID() gives.
unfoldable pub save_checks :
    String → String → Map String Json → Result String → Result (String × Bool)
unfolding is_blank validate_local_fields
save_checks kind i fields fresh = do
  refuse_if (is_blank kind) blank_kind
  done ← validate_local_fields kind fields
  (if is_blank i then (do made ← fresh; ok (made, true)) else ok (i, false))

unfoldable pub save_run :
    Io → String → Map String Json → String → Store → Result (String × Bool) → Result String × Store
unfolding save_local_body with_tx
save_run io kind fields now s (err e) = (err e, s)
save_run io kind fields now s (ok (i, made)) =
    let (r, s') = with_tx io (save_local_body made kind i fields now) s in (r >> ok i, s')

-- SaveLocalRecord
unfoldable pub save_local_record :
    Io → String → String → Map String Json → Result String → String → Store → Result String × Store
unfolding save_checks save_run
save_local_record io kind i fields fresh now s =
    save_run io kind fields now s (save_checks kind i fields fresh)

unfoldable pub delete_local_body : String → String → PersistedDb → Result (PersistedDb × Unit {0})
unfolding find_live put_entity next_int64
delete_local_body kind i st = do
  e ← or_fail (find_live st kind i) record_not_found
  ok (put_entity kind i (record e { version = next_int64 e.version; deleted = true }) st, tt)

-- DeleteLocalRecord
unfoldable pub delete_local_record : Io → String → String → Store → Result (Unit {0}) × Store
unfolding after_check is_blank delete_local_body
delete_local_record io kind i s =
    after_check (refuse_if (is_blank kind || is_blank i) blank_id) io (delete_local_body kind i) s
