-- ===== src/Print/Codec.antt =====
-- A print job is read back as it was stored.
use mathlib.Core.Path.{subst}
use menuvex_printer.Json.{Json, decode_map, encode_map, list_of}
use menuvex_printer.Prelude.{
  Bool-cases, List, Map, Option, String, [], ap, arith, false, if◌then◌else◌, inl, inr, lookup,
  none, refl, some, str_eq, string_eq, suc, true, zero, ◌∷◌, ◌≡◌,
}
use menuvex_printer.Prelude.Int.{negsuc, pos, ℤ}
use menuvex_printer.Print.{
  PrintJob, categories_field, copies_field, decode_print_job, encode_job, job_in, job_of,
  string_fields, text_items, text_keys, text_rows, texts_in,
}
use menuvex_printer.Result.{>>=-eq-ok, Result, bad_row, err, ok, ok_inj, or_fail}
use menuvex_printer.Store.Changes.{int_field, string_field}
use menuvex_printer.Text.Decimal.{in_int64}

-- What omitempty makes of an empty slice
abbrev pub filled : Option (List String) → Option (List String)
filled none = none
filled (some []) = none
filled (some (c ∷ cs)) = some (c ∷ cs)

text_rows_back : (ss : List String) → text_rows (list_of (text_items ss)) ≡ ok ss
unfolding text_rows list_of text_items
text_rows_back [] = refl
text_rows_back (s ∷ ss) = rw (text_rows_back ss) refl

-- A job that has an identifier, and whose numbers are those of an int64
abbrev pub IsStorable : PrintJob → Type 0
IsStorable p =
    (str_eq p.id "" ≡ false)
    × (in_int64 p.attempts ≡ true)
    × (in_int64 p.copies ≡ true)
    × (in_int64 p.version ≡ true)

with_both :
    (p : PrintJob) (z : ℤ) (g : Option (List String))
    → str_eq p.id "" ≡ false
    → in_int64 p.attempts ≡ true
    → in_int64 p.version ≡ true
    → in_int64 z ≡ true
    → decode_print_job (encode_job (record p { copies = z; categories = g }))
      ≡ some (record p { copies = z; categories = filled g })
unfolding decode_print_job encode_job string_fields string_field int_field texts_in copies_field
    categories_field decode_map encode_map lookup text_rows text_items list_of
with_both p (pos zero) none named a v h = rw (a, decode_print_job, v, named) refl
with_both p (pos zero) (some []) named a v h = rw (a, decode_print_job, v, named) refl
with_both p (pos zero) (some (c ∷ cs)) named a v h =
    rw (a, decode_print_job, text_rows_back cs, v, named) refl
with_both p (pos (suc n)) none named a v h = rw (a, decode_print_job, h, v, named) refl
with_both p (pos (suc n)) (some []) named a v h = rw (a, decode_print_job, h, v, named) refl
with_both p (pos (suc n)) (some (c ∷ cs)) named a v h =
    rw (a, decode_print_job, h, text_rows_back cs, v, named) refl
with_both p (negsuc n) none named a v h = rw (a, decode_print_job, h, v, named) refl
with_both p (negsuc n) (some []) named a v h = rw (a, decode_print_job, h, v, named) refl
with_both p (negsuc n) (some (c ∷ cs)) named a v h =
    rw (a, decode_print_job, h, text_rows_back cs, v, named) refl

-- A job that has an identifier and numbers of an int64 is read back as it was stored, but that an empty list
-- of categories becomes nil.
pub decode_print_job-encode_job :
    (p : PrintJob)
    → IsStorable p
    → decode_print_job (encode_job p) ≡ some (record p { categories = filled p.categories })
decode_print_job-encode_job p (named, a, c, v) = with_both p p.copies p.categories named a v c

int_field-in_int64 :
    (m : Map String Json) (k : String) {z : ℤ} → int_field m k ≡ ok z → in_int64 z ≡ true
unfolding int_field
int_field-in_int64 m k h = ground arith

-- The numbers of a job that was read are those of an int64.
job_in-numbers :
    (raw : Json) (p : PrintJob)
    → job_in raw ≡ ok p
    → (in_int64 p.attempts ≡ true) × (in_int64 p.copies ≡ true) × (in_int64 p.version ≡ true)
unfolding job_in
job_in-numbers raw p h =
    let (m, object, h₁) = >>=-eq-ok (or_fail (decode_map raw) bad_row) _ h in
    let (ts, texts, h₂) = >>=-eq-ok (string_fields m text_keys) _ h₁ in
    let (a, read_a, h₃) = >>=-eq-ok (int_field m "attempts") _ h₂ in
    let (c, read_c, h₄) = >>=-eq-ok (int_field m "copies") _ h₃ in
    let (v, read_v, h₅) = >>=-eq-ok (int_field m "version") _ h₄ in
    let (g, read_g, h₆) = >>=-eq-ok (texts_in (lookup "categories" m)) _ h₅ in
    let is_it : job_of ts a c v g ≡ p = ok_inj h₆ in
    subst
      (λ q. (in_int64 q.attempts ≡ true) × (in_int64 q.copies ≡ true) × (in_int64 q.version ≡ true))
      is_it
      (
        int_field-in_int64 m "attempts" read_a,
        int_field-in_int64 m "copies" read_c,
        int_field-in_int64 m "version" read_v,
      )

pub decode_print_job-IsStorable :
    (raw : Json) (p : PrintJob) → decode_print_job raw ≡ some p → IsStorable p
unfolding decode_print_job
decode_print_job-IsStorable raw p h =
    let (read, named) = parts (job_in raw) h in
    let (a, c, v) = job_in-numbers raw p read in (named, a, c, v)
  where
    parts :
        (r : Result PrintJob)
        → elim r [ err e ↦ none | ok q ↦ if str_eq q.id "" then none else some q ] ≡ some p
        → (r ≡ ok p) × (str_eq p.id "" ≡ false)
    parts (err e) h = cc
    parts (ok q) h = elim (Bool-cases (str_eq q.id "")) [
      | inl e ↦ ground (arith, e, h)
      | inr d ↦
          let same : q ≡ p = ground (arith, d, h) in
          (ap ok same, subst (λ x. str_eq x.id "" ≡ false) same d)
    ]
