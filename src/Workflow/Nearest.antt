-- ===== src/Workflow/Nearest.antt =====
-- The stage that comes next: the nearest of those that are switched on in the profile of the café.
use mathlib.Core.Path.{subst}
use menuvex_printer.Entity.{Entity, field_of}
use menuvex_printer.Order.Status.{one_of}
use menuvex_printer.Order.Status.Machine.{rank}
use menuvex_printer.Prelude.{
  Bool, Bool-cases, List, String, [], arith, eq_iff, false, if_both, inl, inr, refl, str_eq, sym,
  true, ◌<◌, ◌||◌, ◌∷◌, ◌≡◌, ◌≤◌, ◌⊎◌,
}
use menuvex_printer.Result.{Result, err, ok}
use menuvex_printer.Text.{to_lower, trim_space}
use menuvex_printer.Text.Split.{split_on}
use menuvex_printer.Workflow.{
  chain, chain_after, first_enabled, known_stages, order_advance_target, profile_stages,
}
use menuvex_printer.Workflow.Steps.{AllOf, Follows, one_of_all, open_words}

-- The word stands in the text of the setting, between commas, blanks and capitals aside.
abbrev pub Names : String → List String → Type 0
Names c [] = ⊥
Names c (part ∷ parts) = (trim_space (to_lower part) ≡ c) ⊎ Names c parts

-- A stage of the cycle is switched on: no profile was read, or its setting is blank or names the stage.
abbrev pub SwitchedOn : Result Entity → String → Type 0
SwitchedOn (err e) c = one_of c chain ≡ true
SwitchedOn (ok prof) c =
    (one_of c chain ≡ true)
    × ((trim_space (field_of prof.payload "pos_stages") ≡ "")
        ⊎ Names c (split_on b',' (trim_space (field_of prof.payload "pos_stages"))))

known_stages-Names :
    (c : String) (parts : List String)
    → one_of c (known_stages parts) ≡ true
    → (one_of c chain ≡ true) × Names c parts
unfolding known_stages one_of
known_stages-Names c [] h = cc
known_stages-Names c (part ∷ parts) h =
    let p = trim_space (to_lower part) in
    elim (Bool-cases (one_of p chain)) [
      | inr d ↦ let r = known_stages-Names c parts (ground (arith, h, d)) in (r.0, inr r.1)
      | inl e ↦ elim (Bool-cases (str_eq p c)) [
        | inl same ↦
            let is_c : p ≡ c = (eq_iff p c).0 same in
            (subst (λ w. one_of w chain ≡ true) is_c e, inl is_c)
        | inr other ↦
            let r = known_stages-Names c parts (ground (arith, h, e, other)) in (r.0, inr r.1)
      ]
    ]

Names-known_stages :
    (c : String) (parts : List String)
    → one_of c chain ≡ true
    → Names c parts
    → one_of c (known_stages parts) ≡ true
unfolding known_stages
Names-known_stages c [] h n = absurd n
Names-known_stages c (part ∷ parts) h (inl e) =
    rw (e, h) (unfold one_of in rw ((eq_iff c c).1 refl) refl)
Names-known_stages c (part ∷ parts) h (inr n) =
    let rest = Names-known_stages c parts h n in
    if_both (λ l. one_of c l ≡ true) (one_of (trim_space (to_lower part)) chain) _ _
      (or_else _ rest) rest
  where
    or_else : (b : Bool) {d : Bool} → d ≡ true → (b || d) ≡ true
    or_else b h = ground (arith, h)

profile_stages-SwitchedOn :
    (r : Result Entity) (c : String) → one_of c (profile_stages r) ≡ true → SwitchedOn r c
unfolding profile_stages
profile_stages-SwitchedOn (err e) c h = h
profile_stages-SwitchedOn (ok prof) c h =
    let raw = trim_space (field_of prof.payload "pos_stages") in
    elim (Bool-cases (str_eq raw "")) [
      | inl e ↦ (ground (arith, h, e), inl ((eq_iff raw "").0 e))
      | inr d ↦
          let r = known_stages-Names c (split_on b',' raw) (ground (arith, h, d)) in (r.0, inr r.1)
    ]

SwitchedOn-profile_stages :
    (r : Result Entity) (c : String) → SwitchedOn r c → one_of c (profile_stages r) ≡ true
unfolding profile_stages
SwitchedOn-profile_stages (err e) c h = h
SwitchedOn-profile_stages (ok prof) c (stage, inl e) = rw (e) stage
SwitchedOn-profile_stages (ok prof) c (stage, inr n) =
    let raw = trim_space (field_of prof.payload "pos_stages") in
    if_both (λ l. one_of c l ≡ true) (str_eq raw "") _ _ stage
      (Names-known_stages c (split_on b',' raw) stage n)

-- Words that rank one after another, none of them empty
abbrev Ascends : List String → Type 0
Ascends [] = Unit {0}
Ascends (d ∷ ds) = (str_eq d "" ≡ false) × AllOf (λ e. rank d ≤ rank e) ds × Ascends ds

first_enabled_least :
    (c : String) (cs stages : List String)
    → Ascends cs
    → one_of c cs ≡ true
    → one_of c stages ≡ true
    → (str_eq (first_enabled cs stages) "" ≡ false) × (rank (first_enabled cs stages) ≤ rank c)
unfolding first_enabled
first_enabled_least c [] stages a h on = absurd (unfold one_of in cc)
first_enabled_least c (d ∷ ds) stages (full, below, rest) h on = elim (Bool-cases (str_eq d c)) [
  | inl e ↦
      let same : d ≡ c = (eq_iff d c).0 e in
      rw (subst (λ w. one_of w stages ≡ true) (sym same) on)
        (full, subst (λ w. rank d ≤ rank w) same (omega arith))
  | inr other ↦
      let later : one_of c ds ≡ true = unfold one_of in ground (arith, h, other) in
      elim (Bool-cases (one_of d stages)) [
        | inl first ↦ rw (first) (full, one_of_all (λ e. rank d ≤ rank e) c ds below later)
        | inr off ↦ rw (off) (first_enabled_least c ds stages rest later on)
      ]
]

chain_after-Ascends : (x : String) → one_of x open_words ≡ true → Ascends (chain_after x)
unfolding chain_after
chain_after-Ascends x o =
    one_of_all (λ k. Ascends (chain_after k)) x open_words
      (
        (refl, (omega arith, (omega arith, tt)), (refl, (omega arith, tt), (refl, tt, tt))),
        ((refl, (omega arith, tt), (refl, tt, tt)), ((refl, tt, tt), (tt, tt))),
      )
      o

chain_after_all :
    (x c : String)
    → one_of x open_words ≡ true
    → one_of c chain ≡ true
    → rank x < rank c
    → one_of c (chain_after x) ≡ true
unfolding chain_after one_of
chain_after_all x c o h less =
    one_of_all
      (λ k.
        (w : String) → one_of w chain ≡ true → rank k < rank w → one_of w (chain_after k) ≡ true)
      x open_words
      (
        (λ w stage less. stage),
        (
          λ w stage less.
              one_of_all (λ v. rank "accepted" < rank v → one_of v (chain_after "accepted") ≡ true)
                w chain ((λ l. absurd (omega arith)), ((λ l. refl), ((λ l. refl), tt))) stage less,
          (
            λ w stage less.
                one_of_all
                  (λ v. rank "preparing" < rank v → one_of v (chain_after "preparing") ≡ true) w
                  chain
                  ((λ l. absurd (omega arith)), ((λ l. absurd (omega arith)), ((λ l. refl), tt)))
                  stage less,
            (
              λ w stage less.
                  one_of_all (λ v. rank "ready" < rank v → one_of v (chain_after "ready") ≡ true) w
                    chain
                    (
                      (λ l. absurd (omega arith)),
                      ((λ l. absurd (omega arith)), ((λ l. absurd (omega arith)), tt)),
                    )
                    stage less,
              tt,
            ),
          ),
        ),
      )
      o c h less

first_enabled_on :
    (cs stages : List String)
    → str_eq (first_enabled cs stages) "" ≡ false
    → one_of (first_enabled cs stages) stages ≡ true
unfolding first_enabled
first_enabled_on [] stages h = cc
first_enabled_on (c ∷ cs) stages h = elim (Bool-cases (one_of c stages)) [
  | inl e ↦ rw (e) e
  | inr d ↦ rw (d) (first_enabled_on cs stages (ground (arith, h, d)))
]

-- The word is the nearest stage after x that is switched on.
abbrev pub IsNearest : Result Entity → String → String → Type 0
IsNearest prof x t =
    SwitchedOn prof t
    × (rank x < rank t)
    × ((c : String) → SwitchedOn prof c → rank x < rank c → rank t ≤ rank c)

abbrev pub NoneAfter : Result Entity → String → Type 0
NoneAfter prof x = (c : String) → SwitchedOn prof c → rank x < rank c → ⊥

SwitchedOn-chain : (r : Result Entity) (c : String) → SwitchedOn r c → one_of c chain ≡ true
SwitchedOn-chain (err e) c h = h
SwitchedOn-chain (ok prof) c h = h.0

advance_least :
    (prof : Result Entity) (x c : String)
    → one_of x open_words ≡ true
    → SwitchedOn prof c
    → rank x < rank c
    → (str_eq (order_advance_target x (profile_stages prof)) "" ≡ false)
      × (rank (order_advance_target x (profile_stages prof)) ≤ rank c)
unfolding order_advance_target
advance_least prof x c o on further =
    first_enabled_least c (chain_after x) (profile_stages prof) (chain_after-Ascends x o)
      (chain_after_all x c o (SwitchedOn-chain prof c on) further)
      (SwitchedOn-profile_stages prof c on)

pub order_advance_target-NoneAfter :
    (prof : Result Entity) (x : String)
    → one_of x open_words ≡ true
    → order_advance_target x (profile_stages prof) ≡ ""
    → NoneAfter prof x
order_advance_target-NoneAfter prof x o h c on further =
    apart (rw h at (advance_least prof x c o on further).0)
  where
    apart : str_eq "" "" ≡ false → ⊥
    apart e = cc

pub order_advance_target-IsNearest :
    (prof : Result Entity) (x : String)
    → one_of x open_words ≡ true
    → Follows x (order_advance_target x (profile_stages prof))
    → IsNearest prof x (order_advance_target x (profile_stages prof))
unfolding order_advance_target
order_advance_target-IsNearest prof x o f = (
  profile_stages-SwitchedOn prof _ (first_enabled_on (chain_after x) (profile_stages prof) f.4),
  f.3,
  λ c on further. (advance_least prof x c o on further).1,
)
