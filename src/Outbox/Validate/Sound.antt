-- ===== src/Outbox/Validate/Sound.antt =====
-- What holds of an edit that validateIntent lets through.
use menuvex_printer.Json.{Json}
use menuvex_printer.Outbox.Validate.{
  Literals, catalog_fields, check_fields, check_required, is_action, payload_object,
  required_fields, validate_intent, validate_payload,
}
use menuvex_printer.Outbox.Validate.Accepts.{
  Accepted, AllPresent, check_fields-Accepted, check_required-AllPresent,
}
use menuvex_printer.Prelude.{
  Bool-cases, List, Map, String, [], arith, eq_iff, false, if◌then◌else◌, inl, inr, lookup, ltb,
  none, not, refl, some, str_eq, string_eq, sym, true, ℕ, ◌∙◌, ◌∷◌, ◌≡◌, ◌≢◌, ◌≤◌, ◌⊎◌,
}
use menuvex_printer.Result.{
  >>=-eq-ok, no_offline_workflow, not_an_object, ok, or_fail, or_fail-eq-ok, payload_too_large,
  refuse_if-eq-ok, unsupported_action, ◌>>=◌,
}
use menuvex_printer.Store.Changes.{RawMessage}

abbrev pub Verdict : String → String → List (String × String) → Literals → Map String Json → Type 0
Verdict kind action fields literals payload =
    ((str_eq action "delete" ≡ true) × (payload ≡ []))
    ⊎ ((str_eq action "delete" ≡ false)
        × (payload ≢ [])
        × Accepted kind action fields literals payload
        × (str_eq action "create" ≡ true → AllPresent (required_fields kind) payload))

validate_payload-Verdict :
    (kind action : String) (fields : List (String × String)) (literals : Literals)
    (payload : Map String Json)
    → validate_payload kind action fields literals payload ≡ ok tt
    → Verdict kind action fields literals payload
unfolding validate_payload
validate_payload-Verdict kind action fields literals [] h = inl (ground arith, refl)
validate_payload-Verdict kind action fields literals (entry ∷ m) h =
    elim (Bool-cases (str_eq action "delete")) [
      | inl d ↦ absurd (ground (arith, d))
      | inr d ↦
          let checked : (check_fields kind action fields literals (entry ∷ m) >>= λ done.
          check_required (if str_eq action "create" then required_fields kind else []) (entry ∷ m))
              ≡ ok tt =
            ground (arith, d) in
          let (u, first, rest) =
            >>=-eq-ok (check_fields kind action fields literals (entry ∷ m)) _ checked in
          inr (
            d,
            (λ e. cc),
            check_fields-Accepted kind action fields literals (entry ∷ m) (ground (arith, first)),
            λ c.
                check_required-AllPresent (required_fields kind) (entry ∷ m)
                  (ground (arith, rest, c)),
          )
    ]

pub validate_intent_sound :
    (kind action : String) (size : ℕ) (literals : Literals) (raw : RawMessage)
    → validate_intent kind action size literals raw ≡ ok tt
    → (fields : List (String × String)) × (payload : Map String Json) × (lookup kind catalog_fields
        ≡ some fields)
      × (is_action action ≡ true)
      × (size ≤ 65536)
      × (payload_object raw ≡ some payload)
      × Verdict kind action fields literals payload
unfolding validate_intent
validate_intent_sound kind action size literals raw h =
    let (fields, known, h₁) =
      >>=-eq-ok (or_fail (lookup kind catalog_fields) no_offline_workflow) _ h in
    let (acts, h₂) = refuse_if-eq-ok (not (is_action action)) unsupported_action _ h₁ in
    let (small, h₃) = refuse_if-eq-ok (ltb 65536 size) payload_too_large _ h₂ in
    let (payload, object, h₄) = >>=-eq-ok (or_fail (payload_object raw) not_an_object) _ h₃ in
    (
      fields,
      payload,
      or_fail-eq-ok _ _ known,
      ground (arith, acts),
      ground (arith, small),
      or_fail-eq-ok _ _ object,
      validate_payload-Verdict kind action fields literals payload h₄,
    )

Accepted-no_unit :
    (action : String) (fields : List (String × String)) (literals : Literals) (m : Map String Json)
    → str_eq action "create" ≡ false
    → Accepted "ingredient" action fields literals m
    → lookup "base_unit" m ≡ none
unfolding lookup
Accepted-no_unit action fields literals [] h a = refl
Accepted-no_unit action fields literals ((key, value) ∷ m) h a =
    let rest = Accepted-no_unit action fields literals m h a.1 in
    elim a.0.2 [
      | inl other ↦ ground (arith, rest, other)
      | inr create ↦ absurd (apart (sym h ∙ (eq_iff action "create").1 create))
    ]
  where
    apart : false ≡ true → ⊥
    apart e = cc

-- No edit of an ingredient that passes, other than its creation, has the field base_unit.
unit_fixed :
    (action : String) (size : ℕ) (literals : Literals) (raw : RawMessage)
    {payload : Map String Json}
    → str_eq action "create" ≡ false
    → validate_intent "ingredient" action size literals raw ≡ ok tt
    → payload_object raw ≡ some payload
    → lookup "base_unit" payload ≡ none
unit_fixed action size literals raw {payload} n h p =
    let r = validate_intent_sound "ingredient" action size literals raw h in
    let same : r.1 ≡ payload = cc (r.5, p) in rw same at (verdict_unit r.0 r.1 r.6)
  where
    verdict_unit :
        (fields : List (String × String)) (m : Map String Json)
        → Verdict "ingredient" action fields literals m
        → lookup "base_unit" m ≡ none
    verdict_unit fields m (inl (d, e)) = rw e (unfold lookup in refl)
    verdict_unit fields m (inr (d, e, a, q)) = Accepted-no_unit action fields literals m n a
