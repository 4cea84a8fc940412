-- ===== src/Local/Fields.antt =====
-- The fields and the version that SaveLocalRecord of offline-menuvex/internal/store/domains.go writes.
use mathlib.Core.Path.{subst}
use menuvex_printer.Json.{Json, num, str}
use menuvex_printer.Json.Laws.{IsUnique, insert-IsUnique}
use menuvex_printer.Local.{is_missing, merged_fields, next_version}
use menuvex_printer.Order.{set_fields}
use menuvex_printer.Prelude.{
  Bool, Bool-cases, List, Map, Option, String, [], arith, eq_iff, false, if_both, if◌then◌else◌,
  inl, inr, insert, key_eq, lookup, lookup-insert, map_laws, none, refl, some, str_eq, string_eq,
  ◌||◌, ◌∙◌, ◌∷◌, ◌≡◌, ◌⊎◌,
}
use menuvex_printer.Prelude.Int.{ltb_ℤ, pos, ℤ, ◌+ℤ◌, ◌≤ℤ◌}
use menuvex_printer.Store.{StoredEntity, next_int64}
use menuvex_printer.Text.Decimal.{wrap_int64}

set_fields-IsUnique :
    (kvs : List (String × Json)) (m : Map String Json) → IsUnique m → IsUnique (set_fields kvs m)
unfolding set_fields
set_fields-IsUnique [] m u = u
set_fields-IsUnique ((k, j) ∷ kvs) m u =
    set_fields-IsUnique kvs (insert k j m) (insert-IsUnique k j m u)

pub merged_fields-IsUnique :
    (is_new : Bool) (i : String) (fields : Map String Json) (now : String) (version : ℤ)
    (old : Map String Json)
    → IsUnique old
    → IsUnique (merged_fields is_new i fields now version old)
unfolding merged_fields
merged_fields-IsUnique is_new i fields now version old u =
    let with_id = insert "id" (str i) (set_fields fields old) in
    let u₁ : IsUnique with_id = insert-IsUnique "id" _ _ (set_fields-IsUnique fields old u) in
    let dated =
      if is_new || is_missing (lookup "created_at" with_id)
      then insert "created_at" (str now) with_id
      else with_id in
    let u₂ : IsUnique dated =
      if_both IsUnique (is_new || is_missing (lookup "created_at" with_id)) _ _
        (insert-IsUnique "created_at" _ _ u₁) u₁ in
    insert-IsUnique "version" _ _ (insert-IsUnique "updated_at" _ _ u₂)

-- The version of a record: 1 where nothing stood or a version below 1, and otherwise one more than that of what
-- stood there, deleted or not, on an int64.
abbrev pub Succeeds : Option StoredEntity → ℤ → Type 0
Succeeds none v = v ≡ pos 1
Succeeds (some old) v =
    ((old.version ≤ℤ pos 0) × (v ≡ pos 1))
    ⊎ ((pos 1 ≤ℤ old.version) × (v ≡ wrap_int64 (old.version +ℤ pos 1)))

pub next_version-Succeeds : (o : Option StoredEntity) → Succeeds o (next_version o)
unfolding next_version next_int64
next_version-Succeeds none = refl
next_version-Succeeds (some old) = elim (Bool-cases (ltb_ℤ old.version (pos 1))) [
  | inl low ↦ inl (ground (arith, low), rw (low) refl)
  | inr high ↦ inr (ground (arith, high), rw (high) refl)
]

-- None of the fields that every record has
abbrev pub IsPlain : String → Type 0
IsPlain k =
    (str_eq "id" k ≡ false)
    × (str_eq "created_at" k ≡ false)
    × (str_eq "updated_at" k ≡ false)
    × (str_eq "version" k ≡ false)

set_fields-other :
    (k : String) (kvs m : Map String Json)
    → lookup k kvs ≡ none
    → lookup k (set_fields kvs m) ≡ lookup k m
unfolding set_fields lookup
set_fields-other k [] m h = refl
set_fields-other k ((a, w) ∷ kvs) m h =
    set_fields-other k kvs (insert a w m) (ground (arith, h))
    ∙ ground (arith, h, lookup-insert a k w m)

set_fields-field :
    (k : String) (j : Json) (kvs m : Map String Json)
    → IsUnique kvs
    → lookup k kvs ≡ some j
    → lookup k (set_fields kvs m) ≡ some j
unfolding set_fields lookup
set_fields-field k j [] m u h = cc
set_fields-field k j ((a, w) ∷ kvs) m u h = elim (Bool-cases (str_eq a k)) [
  | inl e ↦
      let same : a ≡ k = (eq_iff a k).0 e in
      set_fields-other k kvs (insert a w m) (subst (λ x. lookup x kvs ≡ none) same u.0)
      ∙ ground (arith, h, e, lookup-insert a k w m)
  | inr d ↦ set_fields-field k j kvs (insert a w m) u.1 (ground (arith, h, d))
]

pub merged_fields-field :
    (is_new : Bool) (i : String) (fields : Map String Json) (now : String) (version : ℤ)
    (old : Map String Json) (k : String) (j : Json)
    → IsUnique fields
    → lookup k fields ≡ some j
    → IsPlain k
    → lookup k (merged_fields is_new i fields now version old) ≡ some j
unfolding merged_fields
merged_fields-field is_new i fields now version old k j u h
      (not_id, not_made, not_new, not_version) =
    let there = set_fields-field k j fields old u h in
    elim (Bool-cases
      (is_new || is_missing (lookup "created_at" (insert "id" (str i) (set_fields fields old))))) [
        | inl a ↦ rw (a) (simp (map_laws, not_id, not_made, not_new, not_version, there))
        | inr a ↦ rw (a) (simp (map_laws, not_id, not_made, not_new, not_version, there))
      ]

pub merged_fields-id :
    (is_new : Bool) (i : String) (fields : Map String Json) (now : String) (version : ℤ)
    (old : Map String Json)
    → lookup "id" (merged_fields is_new i fields now version old) ≡ some (str i)
unfolding merged_fields
merged_fields-id is_new i fields now version old =
    elim (Bool-cases
      (is_new || is_missing (lookup "created_at" (insert "id" (str i) (set_fields fields old))))) [
        | inl a ↦ rw (a) (simp map_laws)
        | inr a ↦ rw (a) (simp map_laws)
      ]

pub merged_fields-version :
    (is_new : Bool) (i : String) (fields : Map String Json) (now : String) (version : ℤ)
    (old : Map String Json)
    → lookup "version" (merged_fields is_new i fields now version old) ≡ some (num version)
unfolding merged_fields
merged_fields-version is_new i fields now version old = simp map_laws
