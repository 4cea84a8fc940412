-- ===== src/Outbox/Validate/Accepts.antt =====
-- validateIntent of offline-menuvex/internal/store/outbox.go: what the check of a field lets through.
use menuvex_printer.Json.{Json, bool}
use menuvex_printer.Outbox.Validate.{
  Literals, check_bool, check_decimal, check_field, check_fields, check_required, check_text,
  check_value, decimal_text, string_value, unit_list,
}
use menuvex_printer.Prelude.{
  Bool, Bool-cases, List, Map, Option, Option-cases, String, [], arith, eq_iff, false, inl, inr,
  lookup, ltb, none, not, refl, some, str_eq, string_eq, true, ◌&&◌, ◌||◌, ◌∷◌, ◌≡◌, ◌≢◌, ◌≤◌, ◌⊎◌,
}
use menuvex_printer.Result.{
  >>=-eq-ok, Error, bad_text, bad_uuid, empty_name, field_not_editable, ok, or_fail, or_fail-eq-ok,
  refuse_if, refuse_if-eq-ok, unit_not_editable, unknown_unit,
}
use menuvex_printer.Text.{contains, is_blank, runes, ◌<>◌}
use menuvex_printer.Text.Patterns.{is_decimal, is_uuid}

-- The value of a field fits the type of the field.
abbrev pub Fits : String → String → String → Json → Type 0
Fits key typ literal value =
    ((typ ≡ "bool") × (b : Bool) × (value ≡ bool b))
    ⊎ ((typ ≡ "decimal")
        × (((t : String) × (string_value value ≡ some t) × (is_decimal t ≡ true))
            ⊎ ((string_value value ≡ none) × (is_decimal literal ≡ true))))
    ⊎ ((t : String) × (string_value value ≡ some t)
        × (runes t ≤ 2000)
        × (((str_eq key "title" || str_eq key "name") ≡ false) ⊎ (is_blank t ≡ false))
        × ((str_eq typ "uuid" ≡ false) ⊎ (is_uuid t ≡ true))
        × ((str_eq typ "unit" ≡ false) ⊎ (contains ("|" <> (t <> "|")) unit_list ≡ true)))

-- The field is one of the kind's, a base unit is given at the creation only, and the value fits.
abbrev pub AcceptedField :
    String → String → List (String × String) → Literals → String → Json → Type 0
AcceptedField kind action fields literals key value =
    (typ : String) × (lookup key fields ≡ some typ)
    × (((str_eq kind "ingredient" && str_eq key "base_unit") ≡ false) ⊎ (action ≡ "create"))
    × Fits key typ (literals key) value

abbrev pub Accepted : String → String → List (String × String) → Literals → Map String Json → Type 0
Accepted kind action fields literals [] = Unit {0}
Accepted kind action fields literals ((key, value) ∷ m) =
    AcceptedField kind action fields literals key value × Accepted kind action fields literals m

guard_not : (a b : Bool) → (a && not b) ≡ false → (a ≡ false) ⊎ (b ≡ true)
guard_not false b h = inl refl
guard_not true true h = inr refl
guard_not true false h = cc

guard : (a b : Bool) → (a && b) ≡ false → (a ≡ false) ⊎ (b ≡ false)
guard false b h = inl refl
guard true b h = inr h

refuse_last : (b : Bool) (e : Error) → refuse_if b e ≡ ok tt → b ≡ false
refuse_last b e h = ground arith

check_text-Fits :
    (key typ literal : String) (value : Json)
    → check_text key typ value ≡ ok tt
    → Fits key typ literal value
unfolding check_text
check_text-Fits key typ literal value h =
    let (t, text, h₁) = >>=-eq-ok (or_fail (string_value value) bad_text) _ h in
    let (short, h₂) = refuse_if-eq-ok (ltb 2000 (runes t)) bad_text _ h₁ in
    let (named, h₃) =
      refuse_if-eq-ok ((str_eq key "title" || str_eq key "name") && is_blank t) empty_name _ h₂ in
    let (uuid, h₄) = refuse_if-eq-ok (str_eq typ "uuid" && not (is_uuid t)) bad_uuid _ h₃ in
    let unit =
      refuse_last (str_eq typ "unit" && not (contains ("|" <> (t <> "|")) unit_list)) unknown_unit
        h₄ in
    inr (
      inr (
        t,
        or_fail-eq-ok _ _ text,
        ground (arith, short),
        guard (str_eq key "title" || str_eq key "name") (is_blank t) named,
        guard_not (str_eq typ "uuid") (is_uuid t) uuid,
        guard_not (str_eq typ "unit") (contains ("|" <> (t <> "|")) unit_list) unit,
      ))

check_value-Fits :
    (key typ literal : String) (value : Json)
    → check_value key typ literal value ≡ ok tt
    → Fits key typ literal value
unfolding check_value
check_value-Fits key typ literal value h = elim (Bool-cases (str_eq typ "bool")) [
  | inl e ↦ let (b, v) = boolean value (ground (arith, h, e)) in inl ((eq_iff typ "bool").0 e, b, v)
  | inr d ↦ elim (Bool-cases (str_eq typ "decimal")) [
    | inl e ↦ inr (
        inl
          ((eq_iff typ "decimal").0 e, decimal (string_value value) refl (ground (arith, h, d, e))))
    | inr f ↦ check_text-Fits key typ literal value (ground (arith, h, d, f))
  ]
]
  where
    boolean : (value : Json) → check_bool value ≡ ok tt → (b : Bool) × (value ≡ bool b)
    boolean (bool b) h = (b, refl)
    boolean _ h = unfold check_bool in cc

    decimal :
        (o : Option String)
        → string_value value ≡ o
        → check_decimal literal value ≡ ok tt
        → ((t : String) × (string_value value ≡ some t) × (is_decimal t ≡ true))
          ⊎ ((string_value value ≡ none) × (is_decimal literal ≡ true))
    decimal (some t) e h = inl (t, e, unfold check_decimal decimal_text in ground (arith, h, e))
    decimal none e h = inr (e, unfold check_decimal decimal_text in ground (arith, h, e))

check_field-AcceptedField :
    (kind action : String) (fields : List (String × String)) (literals : Literals) (key : String)
    (value : Json)
    → check_field kind action fields literals key value ≡ ok tt
    → AcceptedField kind action fields literals key value
unfolding check_field
check_field-AcceptedField kind action fields literals key value h =
    let (typ, found, h₁) = >>=-eq-ok (or_fail (lookup key fields) field_not_editable) _ h in
    let (guarded, h₂) =
      refuse_if-eq-ok
        (str_eq kind "ingredient" && str_eq key "base_unit" && not (str_eq action "create"))
        unit_not_editable _ h₁ in
    (
      typ,
      or_fail-eq-ok _ _ found,
      created (str_eq kind "ingredient") (str_eq key "base_unit") guarded,
      check_value-Fits key typ (literals key) value h₂,
    )
  where
    created :
        (a b : Bool)
        → (a && b && not (str_eq action "create")) ≡ false
        → ((a && b) ≡ false) ⊎ (action ≡ "create")
    created a b g = elim (Bool-cases (str_eq action "create")) [
      | inl e ↦ inr ((eq_iff action "create").0 e)
      | inr d ↦ inl (ground (arith, g, d))
    ]

pub check_fields-Accepted :
    (kind action : String) (fields : List (String × String)) (literals : Literals)
    (m : Map String Json)
    → check_fields kind action fields literals m ≡ ok tt
    → Accepted kind action fields literals m
unfolding check_fields
check_fields-Accepted kind action fields literals [] h = tt
check_fields-Accepted kind action fields literals ((key, value) ∷ m) h =
    let (u, first, rest) = >>=-eq-ok (check_field kind action fields literals key value) _ h in
    (
      check_field-AcceptedField kind action fields literals key value first,
      check_fields-Accepted kind action fields literals m rest,
    )

abbrev pub AllPresent : List String → Map String Json → Type 0
AllPresent [] m = Unit {0}
AllPresent (k ∷ ks) m = (lookup k m ≢ none) × AllPresent ks m

pub check_required-AllPresent :
    (ks : List String) (m : Map String Json) → check_required ks m ≡ ok tt → AllPresent ks m
unfolding check_required
check_required-AllPresent [] m h = tt
check_required-AllPresent (k ∷ ks) m h = elim (Option-cases (lookup k m)) [
  | inl e ↦ absurd (ground (arith, e))
  | inr (j, e) ↦ (ground (arith, e), check_required-AllPresent ks m (ground (arith, e)))
]
