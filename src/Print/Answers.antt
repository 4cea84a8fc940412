-- ===== src/Print/Answers.antt =====
-- byDedupe of offline-menuvex/internal/store/printing.go: which listed jobs stand for a key.
use mathlib.Core.Path.{subst}
use menuvex_printer.Prelude.{
  Bool-cases, List, Map, String, [], arith, eq_iff, false, if_both, inl, inr, insert, lookup,
  lookup-insert, lookup-insert_self, none, refl, some, str_eq, string_eq, sym, true, ◌∙◌, ◌∷◌, ◌≡◌,
  ◌⊎◌,
}
use menuvex_printer.Print.{PrintJob, PrintJobView, job_view}
use menuvex_printer.Print.Create.{by_dedupe, keeps_job, known_job, view_key}

abbrev pub IsListed : PrintJobView → List PrintJobView → Type 0
IsListed v [] = ⊥
IsListed v (j ∷ js) = (v ≡ j) ⊎ IsListed v js

-- The states in which a job stands for a new one
abbrev pub Stands : String → Type 0
Stands status =
    (status ≡ "pending") ⊎ (status ≡ "printing") ⊎ (status ≡ "printed") ⊎ (status ≡ "failed")

-- No listed job stands for the key: the key is blank, or where jobs of it are listed, one of them is in none of the
-- four states.
abbrev pub NoneStands : String → List PrintJobView → Type 0
NoneStands key js =
    (key ≡ "")
    ⊎ ((v : PrintJobView)
        → IsListed v js
        → view_key v ≡ key
        → (w : PrintJobView) × IsListed w js × (view_key w ≡ key) × (Stands w.status → ⊥))

-- The job that is returned for what was asked: one that was there, of the key that is asked for; or a new one,
-- where none that was there stands for it.
abbrev pub Answers : List PrintJobView → PrintJob → PrintJobView → Type 0
Answers existing p v =
    (IsListed v existing × (view_key v ≡ p.dedupe_key) × Stands v.status)
    ⊎ (NoneStands p.dedupe_key existing × (v ≡ job_view (record p { id = v.id })))

keeps_job-Stands : (status : String) → keeps_job status ≡ true → Stands status
unfolding keeps_job
keeps_job-Stands x h = elim (Bool-cases (str_eq x "pending")) [
  | inl a ↦ inl ((eq_iff x "pending").0 a)
  | inr a ↦ inr (elim (Bool-cases (str_eq x "printing")) [
    | inl b ↦ inl ((eq_iff x "printing").0 b)
    | inr b ↦ inr (elim (Bool-cases (str_eq x "printed")) [
      | inl c ↦ inl ((eq_iff x "printed").0 c)
      | inr c ↦ inr ((eq_iff x "failed").0 (ground (arith, h, a, b, c)))
    ])
  ])
]

Stands-keeps_job : (status : String) → Stands status → keeps_job status ≡ true
unfolding keeps_job
Stands-keeps_job x (inl e) = rw (e) refl
Stands-keeps_job x (inr (inl e)) = rw (e) refl
Stands-keeps_job x (inr (inr (inl e))) = rw (e) refl
Stands-keeps_job x (inr (inr (inr e))) = rw (e) refl

abbrev pub AllAnswer : List PrintJobView → List PrintJob → List PrintJobView → Type 0
AllAnswer existing [] [] = Unit {0}
AllAnswer existing [] (v ∷ vs) = ⊥
AllAnswer existing (p ∷ ps) [] = ⊥
AllAnswer existing (p ∷ ps) (v ∷ vs) = Answers existing p v × AllAnswer existing ps vs

-- Each entry of the map is one of the jobs, under its key.
abbrev pub Indexes : List PrintJobView → Map String PrintJobView → Type 0
Indexes js [] = Unit {0}
Indexes js ((k, v) ∷ m) = (IsListed v js × (view_key v ≡ k)) × Indexes js m

Indexes-insert :
    (js : List PrintJobView) (k : String) (v : PrintJobView) (m : Map String PrintJobView)
    → IsListed v js
    → view_key v ≡ k
    → Indexes js m
    → Indexes js (insert k v m)
unfolding insert
Indexes-insert js k v [] there same h = ((there, same), tt)
Indexes-insert js k v ((j, w) ∷ m) there same h =
    if_both (Indexes js) (str_eq j k) _ _ ((there, same), h.1)
      (h.0, Indexes-insert js k v m there same h.1)

-- The jobs that are still to come are all in the list.
abbrev Within : List PrintJobView → List PrintJobView → Type 0
Within js [] = Unit {0}
Within js (v ∷ vs) = IsListed v js × Within js vs

pub by_dedupe-Indexes :
    (js vs : List PrintJobView) (m : Map String PrintJobView)
    → Within js vs
    → Indexes js m
    → Indexes js (by_dedupe vs m)
unfolding by_dedupe
by_dedupe-Indexes js [] m w h = h
by_dedupe-Indexes js (v ∷ vs) m w h =
    by_dedupe-Indexes js vs (insert (view_key v) v m) w.1
      (Indexes-insert js (view_key v) v m w.0 refl h)

lookup-Indexes :
    (js : List PrintJobView) (k : String) (m : Map String PrintJobView) {v : PrintJobView}
    → Indexes js m
    → lookup k m ≡ some v
    → IsListed v js × (view_key v ≡ k)
unfolding lookup
lookup-Indexes js k [] h e = cc
lookup-Indexes js k ((j, w) ∷ m) {v = v} h e = elim (Bool-cases (str_eq j k)) [
  | inl same ↦
      let is_v : w ≡ v = ground (arith, same, e) in
      subst (λ x. IsListed x js × (view_key x ≡ k)) is_v (h.0.0, h.0.1 ∙ (eq_iff j k).0 same)
  | inr other ↦ lookup-Indexes js k m h.1 (ground (arith, other, e))
]

Within-more : (v : PrintJobView) (js vs : List PrintJobView) → Within js vs → Within (v ∷ js) vs
Within-more v js [] h = tt
Within-more v js (w ∷ vs) h = (inr h.0, Within-more v js vs h.1)

pub Within-self : (js : List PrintJobView) → Within js js
Within-self [] = tt
Within-self (v ∷ js) = (inl refl, Within-more v js js (Within-self js))

known_job_in :
    (by : Map String PrintJobView) (p : PrintJob) (v : PrintJobView)
    → known_job by p ≡ some v
    → (lookup p.dedupe_key by ≡ some v) × (keeps_job v.status ≡ true)
unfolding known_job
known_job_in by p v e = ground (arith, e)

pub known_job-Answers :
    (js : List PrintJobView) (by : Map String PrintJobView) (p : PrintJob) (v : PrintJobView)
    → Indexes js by
    → known_job by p ≡ some v
    → Answers js p v
known_job-Answers js by p v h e =
    let (found, kept) = known_job_in by p v e in
    let (there, key) = lookup-Indexes js p.dedupe_key by h found in
    inl (there, key, keeps_job-Stands v.status kept)

by_dedupe-keeps :
    (js : List PrintJobView) (m : Map String PrintJobView) (k : String) {v : PrintJobView}
    → lookup k m ≡ some v
    → (w : PrintJobView) × (lookup k (by_dedupe js m) ≡ some w)
unfolding by_dedupe
by_dedupe-keeps [] m k {v = v} h = (v, h)
by_dedupe-keeps (j ∷ js) m k {v = v} h = elim (Bool-cases (str_eq (view_key j) k)) [
  | inl e ↦
      by_dedupe-keeps js (insert (view_key j) j m) k {v = j}
        (ground (arith, e, lookup-insert (view_key j) k j m))
  | inr d ↦
      by_dedupe-keeps js (insert (view_key j) j m) k {v = v}
        (ground (arith, d, h, lookup-insert (view_key j) k j m))
]

-- Each key of a listed job is in the index.
by_dedupe-has :
    (js : List PrintJobView) (m : Map String PrintJobView) (v : PrintJobView)
    → IsListed v js
    → (w : PrintJobView) × (lookup (view_key v) (by_dedupe js m) ≡ some w)
unfolding by_dedupe
by_dedupe-has [] m v h = absurd h
by_dedupe-has (j ∷ js) m v (inl e) =
    subst (λ x. (w : PrintJobView) × (lookup (view_key x) (by_dedupe (j ∷ js) m) ≡ some w)) (sym e)
      (by_dedupe-keeps js (insert (view_key j) j m) (view_key j) {v = j}
        (lookup-insert_self (view_key j) j m))
by_dedupe-has (j ∷ js) m v (inr h) = by_dedupe-has js (insert (view_key j) j m) v h

unknown_status :
    (by : Map String PrintJobView) (p : PrintJob) (w : PrintJobView)
    → known_job by p ≡ none
    → str_eq p.dedupe_key "" ≡ false
    → lookup p.dedupe_key by ≡ some w
    → keeps_job w.status ≡ false
unfolding known_job
unknown_status by p w h d e = ground (arith, h, d, e)

-- Where the index knows no job, none stands.
pub known_job-NoneStands :
    (js : List PrintJobView) (p : PrintJob)
    → known_job (by_dedupe js []) p ≡ none
    → NoneStands p.dedupe_key js
known_job-NoneStands js p h = elim (Bool-cases (str_eq p.dedupe_key "")) [
  | inl e ↦ inl ((eq_iff p.dedupe_key "").0 e)
  | inr d ↦ inr (λ v there same.
      let (w, at_v) = by_dedupe-has js [] v there in
      let at : lookup p.dedupe_key (by_dedupe js []) ≡ some w =
        subst (λ k. lookup k (by_dedupe js []) ≡ some w) same at_v in
      let (listed, key) =
        lookup-Indexes js p.dedupe_key (by_dedupe js [])
          (by_dedupe-Indexes js js [] (Within-self js) tt) at in
      let gone = unknown_status (by_dedupe js []) p w h d at in
      (w, listed, key, λ s. absurd (false_true (sym gone ∙ Stands-keeps_job w.status s))))
]
  where
    false_true : false ≡ true → ⊥
    false_true e = cc
