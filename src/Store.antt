-- ===== src/Store.antt =====
-- offline-menuvex/internal/store/store.go: the persisted state, and the transaction that every write
-- runs in. `kind` is the field Type of the source.
pub mod Atomic
pub mod Keys
pub mod Changes
use menuvex_printer.Json.{Json, encode_map}
use menuvex_printer.Prelude.{
  Bool, Key, List, Map, Option, String, [], false, if◌then◌else◌, insert, key_eq, lookup, none, not,
  some, string_eq, true, ◌&&◌, ◌||◌,
}
use menuvex_printer.Prelude.Int.{pos, ℤ, ◌+ℤ◌}
use menuvex_printer.Result.{Result, ctx_error, err, io_failed, marshal_failed, ok, store_closed}
use menuvex_printer.Text.Decimal.{wrap_int64}

pub record StoredEntity : Type 0 where
  pub id : String
  pub kind : String
  pub version : ℤ
  pub deleted : Bool
  pub payload : Json

pub record StoredOperation : Type 0 where
  pub id : String
  pub sequence : ℤ
  pub entity_type : String
  pub entity_id : String
  pub action : String
  pub base_version : Option ℤ
  pub depends_on : List String
  pub payload : Json
  pub created_at : String
  pub state : String
  pub outcome : Json

pub record ConnectionConfig : Type 0 where
  pub api_url : String
  pub device_id : String
  pub device_token : String
  pub device_name : String
  pub cafe_name : String
  pub account_phone : String
  pub updated_at : String

pub record LegacyStockCount : Type 0 where
  pub id : ℤ
  pub name : String
  pub quantity : String
  pub unit : String
  pub note : String
  pub created_at : String

pub record PersistedDb : Type 0 where
  pub meta : Map String String
  pub entities : Map Key StoredEntity
  pub outbox : List StoredOperation
  pub legacy_stock_counts : List LegacyStockCount
  pub next_outbox_seq : ℤ
  pub next_legacy_stock_count_id : ℤ
  pub connection : Option ConnectionConfig

abbrev pub new_empty_db : PersistedDb
new_empty_db = record {
  meta = [];
  entities = [];
  outbox = [];
  legacy_stock_counts = [];
  next_outbox_seq = pos 0;
  next_legacy_stock_count_id = pos 0;
  connection = none;
}

-- What the file at the store's path holds: a whole encoded state, or what a failed write left.
pub data FileContent : Type 0 where
  whole : PersistedDb → FileContent
  torn : FileContent

pub record Store : Type 0 where
  pub closed : Bool
  pub state : PersistedDb
  pub file : FileContent

-- What os.WriteFile leaves of the file when it fails: before it opens the file, after it has cut it, or with
-- all bytes written and only the closing failed.
pub data Leftover : Type 0 where
  untouched : Leftover
  cut_short : Leftover
  complete : Leftover

unfoldable pub left_over : Leftover → FileContent → PersistedDb → FileContent
left_over untouched old tx = old
left_over cut_short old tx = torn
left_over complete old tx = whole tx

-- How the context and each call of package os turn out in one transaction; `leaves` counts only where the
-- overwrite fails.
pub record Io : Type 0 where
  pub cancelled : Bool
  pub encodes : Bool
  pub opens : Bool
  pub writes : Bool
  pub syncs : Bool
  pub closes : Bool
  pub renames : Bool
  pub overwrites : Bool
  pub leaves : Leftover

abbrev pub all_well : Io
all_well = record {
  cancelled = false;
  encodes = true;
  opens = true;
  writes = true;
  syncs = true;
  closes = true;
  renames = true;
  overwrites = true;
  leaves = untouched;
}

module _ {A : Type 0} where
  -- From json.Marshal to the end of withTx. The temporary file is no part of the state: Open never
  -- reads it.
  unfoldable pub commit : Io → Store → PersistedDb → A → Result A × Store
  unfolding left_over
  commit io s tx a =
      if not io.encodes
      then (err marshal_failed, s)
      else if not (io.opens && io.writes && io.syncs && io.closes)
      then (err io_failed, s)
      else if io.renames || io.overwrites
      then (ok a, record s { state = tx; file = whole tx })
      else (err io_failed, record s { file = left_over io.leaves s.file tx })

  -- A value is copied by cloneDB, so the body works on a state of its own.
  unfoldable pub with_tx : Io → (PersistedDb → Result (PersistedDb × A)) → Store → Result A × Store
  unfolding commit
  with_tx io body s =
      if io.cancelled
      then (err ctx_error, s)
      else if s.closed
      then (err store_closed, s)
      else elim (body s.state) [ err e ↦ (err e, s) | ok (tx, a) ↦ commit io s tx a ]

-- A write that checks its arguments before its transaction.
module _ {A : Type 0} where
  unfoldable pub after_check :
      Result (Unit {0}) → Io → (PersistedDb → Result (PersistedDb × A)) → Store → Result A × Store
  unfolding with_tx
  after_check (err e) io body s = (err e, s)
  after_check (ok _) io body s = with_tx io body s

-- s.closed = true
unfoldable pub close : Store → Store
close s = record s { closed = true }

-- Open, on a file that holds a whole state; nil maps and lists of the file are empty ones here.
unfoldable pub open_store : FileContent → Option Store
open_store (whole st) = some (record { closed = false; state = st; file = whole st })
open_store torn = none

abbrev pub entity_key : String → String → Key
entity_key k i = record { kind = k; id = i }

-- x++ on an int64
unfoldable pub next_int64 : ℤ → ℤ
unfolding ◌+ℤ◌ wrap_int64
next_int64 z = wrap_int64 (z +ℤ pos 1)

-- meta[key], "" where it is missing
unfoldable pub meta_of : PersistedDb → String → String
unfolding lookup
meta_of st k = elim (lookup k st.meta) [ none ↦ "" | some v ↦ v ]

unfoldable pub set_meta : String → String → PersistedDb → PersistedDb
unfolding insert
set_meta k v st = record st { meta = insert k v st.meta }

unfoldable pub find_entity : PersistedDb → String → String → Option StoredEntity
unfolding lookup
find_entity st k i = lookup (entity_key k i) st.entities

-- st.Entities[entityKey(kind, id)] = e
unfoldable pub put_entity : String → String → StoredEntity → PersistedDb → PersistedDb
unfolding insert
put_entity k i e st = record st { entities = insert (entity_key k i) e st.entities }

-- The guard `!ok || e.Deleted`.
unfoldable pub find_live : PersistedDb → String → String → Option StoredEntity
unfolding find_entity
find_live st k i = elim (find_entity st k i) [
  | none ↦ none
  | some e ↦ if e.deleted then none else some e
]

-- ent.Version++; ent.Payload = json.Marshal(m); st.Entities[key] = ent
unfoldable pub rewrite :
    String → String → StoredEntity → Map String Json → PersistedDb → PersistedDb
unfolding put_entity next_int64 encode_map
rewrite k i e m st =
    put_entity k i (record e { version = next_int64 e.version; payload = encode_map m }) st
