-- ===== src/Print/Payload.antt =====
-- What dispatchPrintJob of offline-menuvex/printing.go sends to the printer of a job.
use menuvex_printer.Entity.{Entity, entities, get_entity}
use menuvex_printer.Json.{null}
use menuvex_printer.Order.Status.{one_of}
use menuvex_printer.Prelude.{
  Bool, List, Option, String, [], if◌then◌else◌, none, not, some, str_eq, true, ℕ, ◌||◌, ◌∷◌,
}
use menuvex_printer.Prelude.Int.{pos}
use menuvex_printer.Print.{PrintJobView}
use menuvex_printer.Print.Enqueue.{or_none, product_categories, text_at}
use menuvex_printer.Print.EscPos.{build_esc_pos}
use menuvex_printer.Print.Labels.{LocalTime}
use menuvex_printer.Print.Receipt.{build_receipt_lines}
use menuvex_printer.Result.{Result, err, ok}
use menuvex_printer.Store.{Io, Store}

-- The entity that stands where none was read
abbrev pub no_entity : Entity
no_entity = record { id = ""; kind = ""; version = pos 0; payload = null }

unfoldable pub or_no_entity : Result Entity → Entity
or_no_entity (ok e) = e
or_no_entity (err x) = no_entity

unfoldable pub or_no_names : Option (List String) → List String
or_no_names none = []
or_no_names (some cs) = cs

unfoldable pub in_categories : List String → String → Bool
unfolding one_of
in_categories [] category = true
in_categories (c ∷ cs) category = one_of category (c ∷ cs)

-- A ticket of some categories has the items of these only.
unfoldable pub keeps_item : PrintJobView → Entity → Result (List Entity) → String → Bool
unfolding product_categories text_at in_categories or_no_names or_none
keeps_item job order products product_id =
    let category = text_at product_id (product_categories (or_none products) []) in
    not (str_eq job.doc_type "kitchen")
    || str_eq order.id ""
    || in_categories (or_no_names job.categories) category

unfoldable pub payload_of :
    Io → (String → Option LocalTime) → String → PrintJobView → Store → List ℕ
unfolding get_entity entities or_no_entity keeps_item build_receipt_lines build_esc_pos
payload_of io parse now job s =
    let order =
      if str_eq job.order_id ""
      then no_entity
      else or_no_entity (get_entity io "order" job.order_id s) in
    let cafe = or_no_entity (get_entity io "cafe_profile" "cafe-main-profile" s) in
    build_esc_pos
      (build_receipt_lines parse now order cafe job.doc_type
        (keeps_item job order (entities io "product" s)))
      job.paper_width
