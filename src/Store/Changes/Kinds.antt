-- ===== src/Store/Changes/Kinds.antt =====
-- Bootstrap of offline-menuvex/internal/store/store.go: which entities are there afterwards.
use menuvex_printer.Json.{Json}
use menuvex_printer.Prelude.{String, lookup, some, string_eq, ◌≡◌}
use menuvex_printer.Store.{PersistedDb, Store, StoredEntity, find_entity}
use menuvex_printer.Store.Changes.{section_kinds}

-- A kind of one of the sections of the server
abbrev pub IsServerKind : String → Type 0
IsServerKind kind = (section : String) × (lookup section section_kinds ≡ some kind)

abbrev pub OnlyServerKinds : PersistedDb → Type 0
OnlyServerKinds st =
    (kind i : String) (e : StoredEntity) → find_entity st kind i ≡ some e → IsServerKind kind
