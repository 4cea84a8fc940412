-- ===== src/Tests/Pages.antt =====
-- Inputs for the steps of an order, the calendar and the amounts.
use menuvex_printer.Calendar.{gregorian_to_jalali}
use menuvex_printer.Calendar.Days.{Counts}
use menuvex_printer.Calendar.Gregorian.{Gregorian, gregorian_to_jalali_next, number_of}
use menuvex_printer.Json.{decode_map, encode_map, str}
use menuvex_printer.Order.Status.{one_of}
use menuvex_printer.Prelude.{[], arith, false, key_eq, lookup, refl, some, string_eq, ◌+◌, ◌∷◌, ◌≡◌}
use menuvex_printer.Store.{
  PersistedDb, Store, StoredEntity, all_well, entity_key, find_live, new_empty_db, whole,
}
use menuvex_printer.Tests.Orders.{row, whole_floats}
use menuvex_printer.Text.{trim_space}
use menuvex_printer.Text.Decimal.{format_nat}
use menuvex_printer.Text.Persian.{format_persian_number, toman_form_to_irr}
use menuvex_printer.Text.Persian.RoundTrip.{toman_form_to_irr-format_persian_number}
use menuvex_printer.Workflow.{handle_order_advance}
use menuvex_printer.Workflow.Cycle.{HasStatus, presses, presses-completed}
use menuvex_printer.Workflow.Handlers.{AdvancedBy, handle_order_advance-AdvancedBy, profile_of}

abbrev pending_order : StoredEntity
pending_order = row "order" "o1" (("status", str "pending") ∷ [])

abbrev till : PersistedDb
till = record new_empty_db { entities = (entity_key "order" "o1", pending_order) ∷ [] }

abbrev till_store : Store
till_store = record { closed = false; state = till; file = whole till }

is_pending_order : HasStatus "o1" "pending" till
unfolding find_live decode_map encode_map lookup
is_pending_order = (pending_order, ("status", str "pending") ∷ [], refl, refl, refl)

-- Only the last stage is switched on.
presses-completed_example :
    HasStatus "o1" "completed"
      (presses whole_floats (λ n. some "m1") "o1" "now" 4 ("ready" ∷ []) till_store).state
unfolding one_of
presses-completed_example =
    presses-completed whole_floats (λ n. some "m1") "o1" "now" "pending" ("ready" ∷ []) till_store
      refl is_pending_order refl

handle_order_advance-AdvancedBy_example :
    AdvancedBy
      (profile_of till_store)
      "o1"
      "pending"
      till_store
      (handle_order_advance whole_floats (λ n. some "m1") all_well "now" " o1 " till_store)
unfolding handle_order_advance one_of trim_space
handle_order_advance-AdvancedBy_example =
    handle_order_advance-AdvancedBy whole_floats (λ n. some "m1") "now" " o1 " "pending" till_store
      refl is_pending_order refl

-- The last day of a leap year
abbrev new_years_eve : Gregorian
new_years_eve = record { year = 2024; month = 12; day = 31 }

gregorian_to_jalali_next_example :
    (number_of (record { year = 2025; month = 1; day = 1 }) ≡ number_of new_years_eve + 1)
    × Counts (number_of new_years_eve) (gregorian_to_jalali 2024 12 31)
    × Counts (number_of new_years_eve + 1) (gregorian_to_jalali 2025 1 1)
gregorian_to_jalali_next_example =
    gregorian_to_jalali_next new_years_eve (omega arith, omega arith, omega arith, omega arith)

-- 1,234,567 toman
toman_form_to_irr-format_persian_number_example :
    toman_form_to_irr "۱\u{66c}۲۳۴\u{66c}۵۶۷" ≡ some "12345670"
unfolding format_persian_number format_nat
toman_form_to_irr-format_persian_number_example =
    toman_form_to_irr-format_persian_number 1234567 (omega arith)
