-- ===== src/Tests/Printing.antt =====
-- Inputs for the print jobs.
use menuvex_printer.Entity.{Entity}
use menuvex_printer.Json.{encode_map}
use menuvex_printer.Prelude.{
  List, Map, String, [], false, if◌then◌else◌, key_eq, lookup, none, refl, some, string_eq, true, ℕ,
  ◌==◌, ◌∷◌, ◌≡◌,
}
use menuvex_printer.Prelude.Int.{pos}
use menuvex_printer.Print.{PrintJob, decode_print_job, encode_job, job_view}
use menuvex_printer.Print.Dispatch.{Printing, dispatch_all, dispatch_print_job}
use menuvex_printer.Print.Enqueue.{kitchen_tickets}
use menuvex_printer.Print.Jobs.{job_entity, update_print_job_status, with_status}
use menuvex_printer.Print.Keeps.{dispatch_all-keeps}
use menuvex_printer.Print.Kitchen.{AreTickets}
use menuvex_printer.Print.Policy.{PrintScenario, printer_enabled}
use menuvex_printer.Print.Sent.{HasJob, IsDue, JobSettled, dispatch_print_job-JobSettled}
use menuvex_printer.Print.Served.{Served, kitchen_tickets-AreTickets, kitchen_tickets-Served}
use menuvex_printer.Print.Settings.{handle_printer_toggle}
use menuvex_printer.Print.Status.{Recorded, update_print_job_status-Recorded}
use menuvex_printer.Print.Switch.{handle_printer_toggle-printer_enabled}
use menuvex_printer.Print.Wants.{RouteInfo, clamp_copies, is_in}
use menuvex_printer.Result.{ok}
use menuvex_printer.Store.{
  PersistedDb, Store, StoredEntity, all_well, entity_key, find_entity, find_live, new_empty_db,
  whole,
}

abbrev receipt_job : PrintJob
receipt_job = record {
  id = "j1";
  order_id = "o1";
  order_number = "7";
  doc_type = "customer";
  printer_id = "p1";
  printer_title = "Till";
  connection = "192.168.1.9:9100";
  queue = "";
  paper_width = "80mm";
  status = "pending";
  last_error = "";
  attempts = pos 0;
  copies = pos 2;
  categories = none;
  dedupe_key = "o1|customer|p1|2|all";
  created_at = "t";
  updated_at = "t";
  version = pos 1;
}

abbrev receipt_row : StoredEntity
receipt_row = job_entity "j1" (pos 1) (encode_job receipt_job)

abbrev printing_db : PersistedDb
printing_db = record new_empty_db { entities = (entity_key "print_job" "j1", receipt_row) ∷ [] }

abbrev printing_store : Store
printing_store = record { closed = false; state = printing_db; file = whole printing_db }

-- The second copy fails.
abbrev paper_out : Printing
paper_out = record {
  start_io = all_well;
  end_io = all_well;
  started_at = "t1";
  ended_at = "t2";
  sends = λ i. if i == 1 then some "no paper" else none;
  error_text = λ e. "error";
}

dispatch_print_job-JobSettled_example :
    (n : ℕ) × (q : PrintJob) × IsDue receipt_job.copies n
    × HasJob "j1" q (dispatch_print_job paper_out (job_view receipt_job) printing_store).1
    × JobSettled paper_out.sends n receipt_job q
unfolding encode_job decode_print_job job_view clamp_copies find_live
dispatch_print_job-JobSettled_example =
    dispatch_print_job-JobSettled paper_out (job_view receipt_job) receipt_job printing_store
      (receipt_row, refl, refl, refl) refl

update_print_job_status-Recorded_example :
    Recorded "j1" "printing" "" "now" printing_store
      (update_print_job_status all_well "j1" "printing" "" "now" printing_store).1
      (job_view (with_status "printing" "" "now" receipt_job))
unfolding update_print_job_status encode_job job_view
update_print_job_status-Recorded_example =
    update_print_job_status-Recorded all_well "j1" "printing" "" "now" printing_store
      (job_view (with_status "printing" "" "now" receipt_job)) refl

dispatch_all-keeps_example :
    find_entity
      (dispatch_all (λ n. paper_out) (job_view receipt_job ∷ []) printing_store).1.state
      "order"
      "o1"
    ≡ find_entity printing_db "order" "o1"
dispatch_all-keeps_example =
    dispatch_all-keeps (λ n. paper_out) (job_view receipt_job ∷ []) printing_store "order" "o1" refl

-- What is asked for is there, and a ticket for the kitchen is new.
abbrev asked_jobs : List PrintJob
asked_jobs =
    receipt_job
    ∷ record receipt_job { doc_type = "kitchen"; dedupe_key = "o1|kitchen|p2|1|all" }
    ∷ []

abbrev printer_named : String → Entity
printer_named i = record { id = i; kind = "printer"; version = pos 1; payload = encode_map [] }

abbrev drink_route : Map String RouteInfo
drink_route = ("drinks", record { printer = printer_named "p2"; copies = pos 2 }) ∷ []

-- Drinks have a route, and cakes go to the station.
kitchen_tickets-Served_example :
    Served drink_route (some (printer_named "p3")) (printer_named "p1") "cakes" none (
      kitchen_tickets drink_route
        (some (printer_named "p3"))
        (printer_named "p1")
        (pos 1)
        ("drinks" ∷ "cakes" ∷ []))
unfolding is_in lookup
kitchen_tickets-Served_example =
    kitchen_tickets-Served drink_route (some (printer_named "p3")) (printer_named "p1") (pos 1)
      ("drinks" ∷ "cakes" ∷ []) "cakes" refl

kitchen_tickets-AreTickets_example : AreTickets (
    kitchen_tickets drink_route
      (some (printer_named "p3"))
      (printer_named "p1")
      (pos 1)
      ("drinks" ∷ "cakes" ∷ []))
kitchen_tickets-AreTickets_example =
    kitchen_tickets-AreTickets drink_route (some (printer_named "p3")) (printer_named "p1") (pos 1)
      ("drinks" ∷ "cakes" ∷ [])

-- Three copies for the customer and three for the café
abbrev both_receipts : PrintScenario
both_receipts = record {
  mode = "custom";
  doc = "cashier";
  copies = pos 3;
  merchant = true;
  checkout = true;
}

-- Any name of this form gives "on".
handle_printer_toggle-printer_enabled_example :
    printer_enabled all_well
      (handle_printer_toggle all_well
        (ok "u1")
        "now"
        (λ name. "on")
        (record { closed = false; state = new_empty_db; file = whole new_empty_db })).1
    ≡ true
unfolding handle_printer_toggle
handle_printer_toggle-printer_enabled_example =
    handle_printer_toggle-printer_enabled all_well all_well (ok "u1") "now" (λ name. "on")
      (record { closed = false; state = new_empty_db; file = whole new_empty_db }) true refl refl
