-- ===== src/Store/Changes.antt =====
-- offline-menuvex/internal/store/store.go: what comes from the server. Bind, SaveConnection, Cursor,
-- ApplyPage and Bootstrap, with the other small operations on the whole state.
pub mod Kinds
pub mod Versions
pub mod Survival
use menuvex_printer.Json.{Json, arr, blob, decode_map, end, null, num, obj, str}
use menuvex_printer.Json.Print.{print}
use menuvex_printer.Prelude.{
  Bool, List, Map, Option, String, [], false, if◌then◌else◌, lookup, none, not, some, str_eq,
  string_eq, ◌&&◌, ◌++◌, ◌==◌, ◌||◌, ◌∷◌,
}
use menuvex_printer.Prelude.Int.{ltb_ℤ, negsuc, pos, ℤ}
use menuvex_printer.Result.{
  Result, bad_row, ctx_error, empty_cursor, err, invalid_json, missing_identity, ok, or_fail,
  refuse_if, scope_mismatch, ◌>>=◌, ◌>>◌,
}
use menuvex_printer.Store.{
  ConnectionConfig, Io, LegacyStockCount, PersistedDb, Store, StoredEntity, after_check,
  find_entity, meta_of, new_empty_db, next_int64, put_entity, set_meta, with_tx,
}
use menuvex_printer.Text.{◌<>◌}
use menuvex_printer.Text.Decimal.{in_int64}

-- json.RawMessage of a message: no bytes, bytes that are no JSON, or a value
pub data RawMessage : Type 0 where
  absent : RawMessage
  malformed : RawMessage
  valid : Json → RawMessage

pub record Change : Type 0 where
  pub entity_type : String
  pub entity_id : String
  pub version : ℤ
  pub tombstone : Bool
  pub operation : String
  pub payload : RawMessage

-- An empty payload and the literal null become {}.
unfoldable pub change_payload : RawMessage → Result Json
change_payload absent = ok (obj end)
change_payload (valid null) = ok (obj end)
change_payload (valid j) = ok j
change_payload malformed = err invalid_json

unfoldable pub is_zero : ℤ → Bool
is_zero (pos n) = n == 0
is_zero (negsuc n) = false

-- c.Version > existing.Version || (c.Version == 0 && existing.Version == 0)
unfoldable pub supersedes : ℤ → ℤ → Bool
unfolding is_zero
supersedes new old = ltb_ℤ old new || (is_zero new && is_zero old)

unfoldable pub changed_entity : Change → Json → StoredEntity
changed_entity c payload = record {
  id = c.entity_id;
  kind = c.entity_type;
  version = c.version;
  deleted = c.tombstone || str_eq c.operation "delete";
  payload = payload;
}

unfoldable pub store_change : Change → Json → Option StoredEntity → PersistedDb → PersistedDb
unfolding changed_entity put_entity
store_change c payload none st = put_entity c.entity_type c.entity_id (changed_entity c payload) st
store_change c payload (some existing) st =
    if supersedes c.version existing.version
    then put_entity c.entity_type c.entity_id (changed_entity c payload) st
    else st

unfoldable pub apply_change : PersistedDb → Change → Result PersistedDb
unfolding change_payload store_change
apply_change st c = do
  refuse_if (str_eq c.entity_id "" || str_eq c.entity_type "") missing_identity
  payload ← change_payload c.payload
  ok (store_change c payload (find_entity st c.entity_type c.entity_id) st)

unfoldable pub apply_changes : PersistedDb → List Change → Result PersistedDb
apply_changes st [] = ok st
apply_changes st (c ∷ cs) = do st' ← apply_change st c; apply_changes st' cs

unfoldable pub page_body : List Change → String → PersistedDb → Result (PersistedDb × Unit {0})
unfolding apply_changes set_meta
page_body changes cursor st = do
  st' ← apply_changes st changes
  ok (set_meta "cursor" cursor st', tt)

unfoldable pub apply_page : Io → List Change → String → Store → Result (Unit {0}) × Store
unfolding page_body after_check
apply_page io changes cursor s =
    after_check (refuse_if (str_eq cursor "") empty_cursor) io (page_body changes cursor) s

abbrev pub section_kinds : List (String × String)
section_kinds =
    ("products", "product")
    ∷ ("categories", "category")
    ∷ ("ingredients", "ingredient")
    ∷ ("banners", "banner")
    ∷ ("recipes", "recipe")
    ∷ ("orders", "order")
    ∷ ("inventory_summary", "inventory_summary")
    ∷ ("waste_events", "waste_event")
    ∷ ("waste_items", "waste_item")
    ∷ ("tables", "table")
    ∷ ("customers", "customer")
    ∷ ("debtors", "debtor")
    ∷ ("printers", "printer")
    ∷ ("cafe_profile", "cafe_profile")
    ∷ []

-- A string field of a struct: missing and null leave it empty, any other value is an error.
unfoldable pub string_field : Map String Json → String → Result String
unfolding lookup
string_field m k = elim (lookup k m) [
  | none ↦ ok ""
  | some j ↦ elim j [
    | null ↦ ok ""
    | str s ↦ ok s
    | blob js ↦ ok (print (arr js))
    | _ ↦ err bad_row
  ]
]

-- An int64 field of a struct.
unfoldable pub int_field : Map String Json → String → Result ℤ
unfolding lookup
int_field m k = elim (lookup k m) [
  | none ↦ ok (pos 0)
  | some j ↦ elim j [
    | null ↦ ok (pos 0)
    | num z ↦ if in_int64 z then ok z else err bad_row
    | _ ↦ err bad_row
  ]
]

unfoldable pub row_change : String → Json → Result Change
unfolding decode_map string_field int_field
row_change kind raw = do
  m ← or_fail (decode_map raw) bad_row
  row_id ← string_field m "id"
  ingredient_id ← string_field m "ingredient_id"
  version ← int_field m "version"
  let the_id = if str_eq row_id "" && str_eq kind "inventory_summary" then ingredient_id else row_id
  ok (record {
    entity_type = kind;
    entity_id = the_id;
    version = version;
    tombstone = false;
    operation = "";
    payload = valid raw;
  })

unfoldable pub apply_rows : String → PersistedDb → List Json → Result PersistedDb
apply_rows kind st [] = ok st
apply_rows kind st (raw ∷ rows) = do
  c ← row_change kind raw
  st' ← apply_change st c
  apply_rows kind st' rows

-- A section that is not known is passed over.
unfoldable pub apply_section : String → PersistedDb → List Json → Result PersistedDb
unfolding apply_rows lookup
apply_section section st rows = elim (lookup section section_kinds) [
  | none ↦ ok st
  | some kind ↦ apply_rows kind st rows
]

unfoldable pub apply_sections : PersistedDb → List (String × List Json) → Result PersistedDb
unfolding apply_section
apply_sections st [] = ok st
apply_sections st ((section, rows) ∷ rest) = do
  st' ← apply_section section st rows
  apply_sections st' rest

unfoldable pub bootstrap_body :
    List (String × List Json) → String → PersistedDb → Result (PersistedDb × Unit {0})
unfolding apply_sections set_meta
bootstrap_body sections cursor st = do
  st' ← apply_sections (record st { entities = [] }) sections
  ok (set_meta "cursor" cursor st', tt)

unfoldable pub bootstrap :
    Io → List (String × List Json) → String → Store → Result (Unit {0}) × Store
unfolding bootstrap_body after_check
bootstrap io sections cursor s =
    after_check (refuse_if (str_eq cursor "") empty_cursor) io (bootstrap_body sections cursor) s

-- exists && old != "" && old != scope
unfoldable pub bound_elsewhere : PersistedDb → String → Bool
unfolding meta_of
bound_elsewhere st scope =
    let old = meta_of st "scope" in not (str_eq old "") && not (str_eq old scope)

unfoldable pub bind_body : String → PersistedDb → Result (PersistedDb × Unit {0})
unfolding bound_elsewhere set_meta
bind_body scope st = do
  refuse_if (bound_elsewhere st scope) scope_mismatch
  ok (set_meta "scope" scope st, tt)

unfoldable pub bind : Io → String → Store → Result (Unit {0}) × Store
unfolding bind_body with_tx
bind io scope s = with_tx io (bind_body scope) s

unfoldable pub save_connection_body :
    ConnectionConfig → String → PersistedDb → Result (PersistedDb × Unit {0})
unfolding bound_elsewhere set_meta ◌<>◌
save_connection_body cfg now st = do
  let scope = cfg.api_url <> ("|" <> cfg.device_id)
  refuse_if (bound_elsewhere st scope) scope_mismatch
  let bound = set_meta "scope" scope st
  ok (record bound { connection = some (record cfg { updated_at = now }) }, tt)

unfoldable pub save_connection : Io → ConnectionConfig → String → Store → Result (Unit {0}) × Store
unfolding save_connection_body with_tx
save_connection io cfg now s = with_tx io (save_connection_body cfg now) s

abbrev pub load_connection : Store → Option ConnectionConfig
load_connection s = s.state.connection

unfoldable pub cursor : Io → Store → Result String
unfolding meta_of
cursor io s = if io.cancelled then err ctx_error else ok (meta_of s.state "cursor")

unfoldable pub reset_all : Io → Store → Result (Unit {0}) × Store
unfolding with_tx
reset_all io s = with_tx io (λ st. ok (new_empty_db, tt)) s

unfoldable pub add_legacy_body :
    LegacyStockCount → String → PersistedDb → Result (PersistedDb × Unit {0})
unfolding next_int64
add_legacy_body d now st =
    let n = next_int64 st.next_legacy_stock_count_id in
    ok (
      record st {
        next_legacy_stock_count_id = n;
        legacy_stock_counts =
            st.legacy_stock_counts ++ (record d { id = n; created_at = now }) ∷ [];
      },
      tt,
    )

unfoldable pub add_legacy_stock_count :
    Io → LegacyStockCount → String → Store → Result (Unit {0}) × Store
unfolding add_legacy_body with_tx
add_legacy_stock_count io d now s = with_tx io (add_legacy_body d now) s

-- Never export secret device tokens in backup files.
unfoldable pub export_backup : Store → PersistedDb
export_backup s =
    let st = s.state in
    elim st.connection [
      | none ↦ st
      | some c ↦ record st { connection = some (record c { device_token = "" }) }
    ]
