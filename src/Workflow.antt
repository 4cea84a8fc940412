-- ===== src/Workflow.antt =====
-- The steps of an order on the pages, offline-menuvex/app.go: orderStatusKey, orderNextStep, posEnabledStages,
-- orderAdvanceTarget and orderPrimaryAction, and the handlers handleOrderStatus and handleOrderAdvance. Labels
-- are left out; the message of the page that a handler shows is a `Notice`.
pub mod Nearest
pub mod Steps
pub mod Handlers
pub mod Cycle
use menuvex_printer.Entity.{Entity, field_of, get_entity}
use menuvex_printer.Order.Status.{Floats, clean, one_of, update_local_order_status}
use menuvex_printer.Prelude.{
  Bool, List, Option, String, [], if◌then◌else◌, ltb, not, str_eq, ℕ, ◌&&◌, ◌||◌, ◌∷◌,
}
use menuvex_printer.Result.{Error, Result, err, ok}
use menuvex_printer.Store.{Io, Store}
use menuvex_printer.Text.{equal_fold, runes, to_lower, trim_space}
use menuvex_printer.Text.Split.{split_on}

unfoldable pub order_status_key : String → String
unfolding clean
order_status_key raw =
    let s = clean raw in
    if str_eq s "accepted"
    then "ACCEPTED"
    else if str_eq s "preparing"
    then "PREPARING"
    else if str_eq s "ready"
    then "READY"
    else if str_eq s "completed"
    then "COMPLETED"
    else if str_eq s "cancelled" || str_eq s "canceled"
    then "CANCELLED"
    else if str_eq s "refunded"
    then "REFUNDED"
    else "PENDING"

-- "" where there is no next step
unfoldable pub order_next_step : String → String
order_next_step key =
    if str_eq key "PENDING"
    then "accepted"
    else if str_eq key "ACCEPTED"
    then "preparing"
    else if str_eq key "PREPARING"
    then "ready"
    else if str_eq key "READY"
    then "completed"
    else ""

abbrev pub chain : List String
chain = "accepted" ∷ "preparing" ∷ "ready" ∷ []

-- Each part of the text that is a stage, in the order of the text
unfoldable pub known_stages : List String → List String
unfolding trim_space to_lower one_of
known_stages [] = []
known_stages (part ∷ parts) =
    let rest = known_stages parts in
    let p = trim_space (to_lower part) in if one_of p chain then p ∷ rest else rest

unfoldable pub profile_stages : Result Entity → List String
unfolding trim_space field_of split_on known_stages
profile_stages (err e) = chain
profile_stages (ok prof) =
    let raw = trim_space (field_of prof.payload "pos_stages") in
    if str_eq raw "" then chain else known_stages (split_on b',' raw)

unfoldable pub pos_enabled_stages : Io → Store → List String
unfolding profile_stages get_entity
pos_enabled_stages io s = profile_stages (get_entity io "cafe_profile" "cafe-main-profile" s)

-- The first stage of the rest of the chain that is enabled
unfoldable pub first_enabled : List String → List String → String
unfolding one_of
first_enabled [] stages = ""
first_enabled (c ∷ cs) stages = if one_of c stages then c else first_enabled cs stages

-- chain[idx+1:]
unfoldable pub chain_after : String → List String
chain_after key =
    if str_eq key "accepted"
    then "preparing" ∷ "ready" ∷ []
    else if str_eq key "preparing"
    then "ready" ∷ []
    else if str_eq key "ready"
    then []
    else if str_eq key "pending"
    then chain
    else []

unfoldable pub order_advance_target : String → List String → String
unfolding chain_after first_enabled
order_advance_target key stages = first_enabled (chain_after key) stages

unfoldable pub order_primary_action : String → List String → String
unfolding order_advance_target
order_primary_action key stages =
    let target = order_advance_target key stages in
    if not (str_eq target "")
    then target
    else if str_eq key "pending"
        || str_eq key "accepted"
        || str_eq key "preparing"
        || str_eq key "ready"
    then "completed"
    else ""

pub data Notice : Type 0 where
  reason_required : Notice
  order_unknown : Notice
  no_stage_left : Notice
  refused_with : Error → Notice
  status_updated : Notice
  order_cancelled_notice : Notice
  order_settled : String → Notice
  advanced_to : String → Notice

-- if err := ...; err != nil { navigatePage(..., err.Error()) }, else the message of the page
unfoldable pub notice_of : Notice → Result (Unit {0}) → Notice
notice_of n (err e) = refused_with e
notice_of n (ok _) = n

-- A completed order is printed by autoPrintAsync too, so that its notice has the order.
unfoldable pub done_notice : String → String → Notice
done_notice order_id new =
    if str_eq new "completed"
    then order_settled order_id
    else if str_eq new "cancelled"
    then order_cancelled_notice
    else status_updated

unfoldable pub lacks_reason : String → String → Bool
unfolding equal_fold runes
lacks_reason new reason =
    equal_fold new "cancelled" && (ltb (runes reason) 2 || ltb 500 (runes reason))

module _ {F : Type 0} (fl : Floats F) (fresh : ℕ → Option String) (io : Io) (now : String) where
  -- handleOrderStatus, on the values of the form
  unfoldable pub handle_order_status : String → String → String → Store → Notice × Store
  unfolding trim_space lacks_reason update_local_order_status notice_of done_notice
  handle_order_status form_order form_status form_reason s =
      let order_id = trim_space form_order in
      let new = trim_space form_status in
      let reason = trim_space form_reason in
      if lacks_reason new reason
      then (reason_required, s)
      else let (r, s') = update_local_order_status fl fresh io order_id new reason now s in
        (notice_of (done_notice order_id new) r, s')

  -- handleOrderAdvance
  unfoldable pub handle_order_advance : String → Store → Notice × Store
  unfolding trim_space get_entity clean field_of pos_enabled_stages order_advance_target
      update_local_order_status notice_of
  handle_order_advance form_order s =
      let order_id = trim_space form_order in
      elim (get_entity io "order" order_id s) [
        | err e ↦ (order_unknown, s)
        | ok o ↦
            let target =
              order_advance_target (clean (field_of o.payload "status"))
                (pos_enabled_stages io s) in
            if str_eq target ""
            then (no_stage_left, s)
            else let (r, s') = update_local_order_status fl fresh io order_id target "" now s in
              (notice_of (advanced_to target) r, s')
      ]
