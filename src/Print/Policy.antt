-- ===== src/Print/Policy.antt =====
-- The automatic printing of offline-menuvex/printing.go: printerEnabled, printPolicy and PrintScenario.docs.
use menuvex_printer.Entity.{Entity, entities, field_of, get_entity}
use menuvex_printer.Json.{Json}
use menuvex_printer.Prelude.{
  Bool, Map, Option, String, [], false, if◌then◌else◌, none, not, some, str_eq, true, ◌&&◌, ◌∷◌,
}
use menuvex_printer.Prelude.Int.{ltb_ℤ, pos, ℤ, ◌+ℤ◌}
use menuvex_printer.Print.Enqueue.{or_none}
use menuvex_printer.Print.Wants.{clamp_copies}
use menuvex_printer.Result.{Result, err, ok}
use menuvex_printer.Store.{Io, Store}
use menuvex_printer.Text.{trim_space, ◌<>◌}
use menuvex_printer.Text.Decimal.{atoi}

abbrev pub profile : Io → Store → Result Entity
profile io s = get_entity io "cafe_profile" "cafe-main-profile" s

unfoldable pub some_printer : Io → Store → Bool
unfolding entities or_none
some_printer io s = elim (or_none (entities io "printer" s)) [ [] ↦ false | e ∷ es ↦ true ]

unfoldable pub printer_enabled : Io → Store → Bool
unfolding get_entity field_of trim_space some_printer
printer_enabled io s = elim (profile io s) [
  | err e ↦ some_printer io s
  | ok prof ↦
      let v = trim_space (field_of prof.payload "printer_enabled") in
      if str_eq v "true" then true else if str_eq v "false" then false else some_printer io s
]

pub record PrintScenario : Type 0 where
  pub mode : String
  pub doc : String
  pub copies : ℤ
  pub merchant : Bool
  pub checkout : Bool

pub record PrintPolicy : Type 0 where
  pub create : PrintScenario
  pub no_table : PrintScenario
  pub checkout : PrintScenario
  pub complete : PrintScenario

abbrev pub scenario : String → String → ℤ → Bool → PrintScenario
scenario mode doc copies at_checkout = record {
  mode = mode;
  doc = doc;
  copies = copies;
  merchant = at_checkout;
  checkout = at_checkout;
}

abbrev pub default_policy : PrintPolicy
default_policy = record {
  create = scenario "kitchen" "kitchen" (pos 1) false;
  no_table = scenario "kitchen" "kitchen" (pos 1) false;
  checkout = scenario "both" "cashier" (pos 2) true;
  complete = scenario "customer" "cashier" (pos 1) false;
}

unfoldable pub text_or : String → String → String
unfolding trim_space
text_or raw default = let v = trim_space raw in if str_eq v "" then default else v

-- A number of copies outside 1 to 5 is not taken.
unfoldable pub copies_or : String → ℤ → ℤ
unfolding atoi trim_space
copies_or raw default = elim (atoi (trim_space raw)) [
  | none ↦ default
  | some n ↦ if not (ltb_ℤ n (pos 1)) && not (ltb_ℤ (pos 5) n) then n else default
]

-- The closure apply
unfoldable pub apply_settings : Json → String → PrintScenario → PrintScenario
unfolding text_or copies_or field_of ◌<>◌
apply_settings payload prefix sc = record sc {
  mode = text_or (field_of payload (prefix <> "_mode")) sc.mode;
  doc = text_or (field_of payload (prefix <> "_doc")) sc.doc;
  copies = copies_or (field_of payload (prefix <> "_copies")) sc.copies;
}

unfoldable pub merchant_setting : Json → Bool → Bool
unfolding field_of trim_space
merchant_setting payload default =
    let v = trim_space (field_of payload "pw_checkout_merchant") in
    if str_eq v "" then default else str_eq v "true"

unfoldable pub policy_of : Result Entity → PrintPolicy
unfolding apply_settings merchant_setting
policy_of (err e) = default_policy
policy_of (ok prof) =
    let at_checkout = apply_settings prof.payload "pw_checkout" default_policy.checkout in
    record {
      create = apply_settings prof.payload "pw_create" default_policy.create;
      no_table = apply_settings prof.payload "pw_notable" default_policy.no_table;
      checkout = record at_checkout {
        merchant = merchant_setting prof.payload at_checkout.merchant;
      };
      complete = apply_settings prof.payload "pw_complete" default_policy.complete;
    }

unfoldable pub print_policy : Io → Store → PrintPolicy
unfolding policy_of get_entity
print_policy io s = policy_of (profile io s)

abbrev pub customer_doc : ℤ → Map String ℤ
customer_doc n = ("customer", n) ∷ []

abbrev pub kitchen_doc : ℤ → Map String ℤ
kitchen_doc n = ("kitchen", n) ∷ []

abbrev pub both_docs : ℤ → Map String ℤ
both_docs n = ("customer", n) ∷ ("kitchen", n) ∷ []

unfoldable pub checkout_docs : String → Bool → ℤ → Map String ℤ
unfolding ◌+ℤ◌
checkout_docs mode merchant c =
    if str_eq mode "customer"
    then customer_doc c
    else if str_eq mode "both"
    then customer_doc (pos 2)
    else if str_eq mode "custom"
    then customer_doc (if merchant then c +ℤ c else c)
    else []

unfoldable pub other_docs : String → String → ℤ → Map String ℤ
other_docs mode doc c =
    if str_eq mode "kitchen"
    then kitchen_doc c
    else if str_eq mode "customer"
    then customer_doc c
    else if str_eq mode "both"
    then both_docs c
    else if str_eq mode "custom"
    then (if str_eq doc "kitchen"
        then kitchen_doc c
        else if str_eq doc "cashier"
        then customer_doc c
        else if str_eq doc "all"
        then both_docs c
        else [])
    else []

-- PrintScenario.docs
unfoldable pub docs : PrintScenario → Map String ℤ
unfolding clamp_copies checkout_docs other_docs
docs sc =
    let c = clamp_copies sc.copies in
    if sc.checkout then checkout_docs sc.mode sc.merchant c else other_docs sc.mode sc.doc c

unfoldable pub scenario_of : PrintPolicy → String → Option PrintScenario
scenario_of pol event =
    if str_eq event "create"
    then some pol.create
    else if str_eq event "notable"
    then some pol.no_table
    else if str_eq event "checkout"
    then some pol.checkout
    else if str_eq event "complete"
    then some pol.complete
    else none

-- The documents that autoPrint asks for; none where it prints nothing
unfoldable pub auto_docs : Io → String → Store → Map String ℤ
unfolding printer_enabled scenario_of print_policy docs
auto_docs io event s =
    if not (printer_enabled io s)
    then []
    else elim (scenario_of (print_policy io s) event) [ none ↦ [] | some sc ↦ docs sc ]
