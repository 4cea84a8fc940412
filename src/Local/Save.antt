-- ===== src/Local/Save.antt =====
-- SaveLocalRecord and the record that it leaves.
use menuvex_printer.Entity.{field_of, field_text}
use menuvex_printer.Json.{Json, decode_map}
use menuvex_printer.Json.Laws.{IsUnique, decode_map-IsUnique}
use menuvex_printer.Local.{kept_fields, or_empty}
use menuvex_printer.Local.Fields.{IsPlain, Succeeds}
use menuvex_printer.Prelude.{
  Bool, Map, Option, String, key_eq, lookup, none, refl, some, string_eq, ◌≡◌, ◌≢◌,
}
use menuvex_printer.Result.{Result}
use menuvex_printer.Store.{PersistedDb, Store, StoredEntity, entity_key, find_entity, find_live}
use menuvex_printer.Text.Decimal.{parse_big_int_safe}

-- The record stands there, live, under its kind and id, with the version that follows, and with the fields of the
-- call.
abbrev pub Saved : Map String Json → String → String → PersistedDb → PersistedDb → Type 0
Saved fields kind i st st' =
    (e : StoredEntity) × (find_live st' kind i ≡ some e)
    × Succeeds (find_entity st kind i) e.version
    × (e.kind ≡ kind)
    × (e.id ≡ i)
    × (field_of e.payload "id" ≡ i)
    × (parse_big_int_safe (field_of e.payload "version") ≡ e.version)
    × ((k : String) (j : Json)
        → lookup k fields ≡ some j
        → IsPlain k
        → field_of e.payload k ≡ field_text (some j))
    × ((l j : String)
        → entity_key kind i ≢ entity_key l j
        → find_entity st' l j ≡ find_entity st l j)

pub kept_fields-IsUnique : (made : Bool) (o : Option StoredEntity) → IsUnique (kept_fields made o).1
unfolding kept_fields
kept_fields-IsUnique made none = tt
kept_fields-IsUnique made (some e) = known (decode_map e.payload) refl
  where
    known : (d : Option (Map String Json)) → decode_map e.payload ≡ d → IsUnique (or_empty d)
    known none h = unfold or_empty in tt
    known (some m) h = unfold or_empty in decode_map-IsUnique e.payload h
