-- ===== src/Print/Enqueue.antt =====
-- EnqueueOrderPrintJobsDocs of offline-menuvex/internal/store/printing.go: the tickets of the kitchen, and the
-- jobs of an order.
use menuvex_printer.Entity.{
  Entity, OrderLineView, entities, field_of, get_entity, label, order_items, text_lt,
}
use menuvex_printer.Prelude.{
  List, Map, Option, String, [], if◌then◌else◌, insert, lookup, map, none, not, some, str_eq,
  string_eq, ℕ, ◌&&◌, ◌++◌, ◌||◌, ◌∷◌,
}
use menuvex_printer.Prelude.Int.{ltb_ℤ, pos, ℤ, ◌*ℤ◌}
use menuvex_printer.Prelude.Sort.{sort_slice}
use menuvex_printer.Print.{PrintJob, PrintJobView}
use menuvex_printer.Print.Create.{create_print_jobs, dedupe_key_of}
use menuvex_printer.Print.Jobs.{paper_of}
use menuvex_printer.Print.Wants.{
  RouteInfo, Wanted, active_only, add_kitchen, cashier_of, find_printer, is_in, is_kitchen,
  routes_by_category, titles_of,
}
use menuvex_printer.Result.{Result, err, ok, print_order_not_found}
use menuvex_printer.Store.{Io, Store}
use menuvex_printer.Text.Decimal.{wrap_int64}

unfoldable pub product_categories : List Entity → Map String String → Map String String
unfolding insert field_of
product_categories [] m = m
product_categories (p ∷ ps) m =
    product_categories ps (insert p.id (field_of p.payload "category_id") m)

-- m[key], "" where it is missing
unfoldable pub text_at : String → Map String String → String
unfolding lookup
text_at k m = elim (lookup k m) [ none ↦ "" | some t ↦ t ]

-- The keys of orderCats
unfoldable pub ordered_categories :
    Map String String → List OrderLineView → List String → List String
unfolding text_at is_in
ordered_categories of_product [] seen = seen
ordered_categories of_product (line ∷ ls) seen =
    let c = text_at line.product_id of_product in
    ordered_categories of_product ls (if str_eq c "" || is_in c seen then seen else c ∷ seen)

-- One turn of the loop over orderCats, on the tickets and the categories without a route
unfoldable pub route_one :
    ℤ → String → Option RouteInfo → List Wanted × List String → List Wanted × List String
unfolding add_kitchen wrap_int64 ◌*ℤ◌
route_one copies c none (ws, leftover) = (ws, leftover ++ (c ∷ []))
route_one copies c (some ri) (ws, leftover) =
    (add_kitchen ri.printer (some (c ∷ [])) (wrap_int64 (copies *ℤ ri.copies)) ws, leftover)

unfoldable pub routed :
    Map String RouteInfo → ℤ → List String → List Wanted × List String → List Wanted × List String
unfolding lookup route_one
routed routes copies [] acc = acc
routed routes copies (c ∷ cs) acc =
    routed routes copies cs (route_one copies c (lookup c routes) acc)

-- What the station of the kitchen prints. A route that counts is one that is in the map, so that anyRoute
-- holds if the map has an entry.
unfoldable pub at_station :
    Map String RouteInfo → Option Entity → Entity → ℤ → List Wanted × List String → List Wanted
unfolding add_kitchen
at_station [] none cashier copies (ws, left) = ws
at_station [] (some kp) cashier copies (ws, left) =
    if str_eq kp.id cashier.id then ws else add_kitchen kp none copies ws
at_station (r ∷ rs) station cashier copies (ws, []) = ws
at_station (r ∷ rs) none cashier copies (ws, l ∷ ls) = ws
at_station (r ∷ rs) (some kp) cashier copies (ws, l ∷ ls) = add_kitchen kp (some (l ∷ ls)) copies ws

unfoldable pub kitchen_tickets :
    Map String RouteInfo → Option Entity → Entity → ℤ → List String → List Wanted
unfolding routed at_station
kitchen_tickets routes station cashier copies cs =
    at_station routes station cashier copies (routed routes copies cs ([], []))

unfoldable pub sorted_cats : Option (List String) → Option (List String)
unfolding sort_slice
sorted_cats none = none
sorted_cats (some cs) = some (sort_slice text_lt cs)

unfoldable pub job_for : String → String → String → Wanted → PrintJob
unfolding label field_of paper_of sorted_cats dedupe_key_of
job_for order_id order_number now w =
    let cats = sorted_cats w.cats in
    record {
      id = "";
      order_id = order_id;
      order_number = order_number;
      doc_type = w.doc_type;
      printer_id = w.printer.id;
      printer_title = label w.printer;
      connection = field_of w.printer.payload "connection";
      queue = field_of w.printer.payload "queue";
      paper_width = paper_of w.printer.payload;
      status = "pending";
      last_error = "";
      attempts = pos 0;
      copies = w.copies;
      categories = cats;
      dedupe_key = dedupe_key_of order_id w.doc_type w.printer.id w.copies cats;
      created_at = now;
      updated_at = now;
      version = pos 0;
    }

abbrev pub no_printer_title : String
no_printer_title =
    "\u{686}\u{627}\u{67e}\u{6af}\u{631} \u{62a}\u{639}\u{631}\u{6cc}\u{641}\u{200c}\u{646}\u{634}\u{62f}\u{647}"

abbrev pub no_printer_error : String
no_printer_error =
    "\u{647}\u{6cc}\u{686} \u{686}\u{627}\u{67e}\u{6af}\u{631} \u{641}\u{639}\u{627}\u{644}\u{6cc} \u{62a}\u{639}\u{631}\u{6cc}\u{641} \u{646}\u{634}\u{62f}\u{647} \u{627}\u{633}\u{62a}\u{61b} \u{627}\u{632} «\u{67e}\u{631}\u{6cc}\u{646}\u{62a}\u{631}\u{647}\u{627} \u{648} \u{62a}\u{646}\u{638}\u{6cc}\u{645}\u{627}\u{62a}» \u{6cc}\u{6a9} \u{686}\u{627}\u{67e}\u{6af}\u{631} \u{62d}\u{631}\u{627}\u{631}\u{62a}\u{6cc} \u{627}\u{636}\u{627}\u{641}\u{647} \u{6a9}\u{646}\u{6cc}\u{62f}."

-- The job of an order for which no printer is active
unfoldable pub job_without_printer : String → String → String → ℤ → ℤ → PrintJob
unfolding dedupe_key_of
job_without_printer order_id order_number now customer kitchen =
    let is_customer = ltb_ℤ (pos 0) customer in
    let doc = if is_customer then "customer" else "kitchen" in
    let copies = if is_customer then customer else kitchen in
    record {
      id = "";
      order_id = order_id;
      order_number = order_number;
      doc_type = doc;
      printer_id = "";
      printer_title = no_printer_title;
      connection = "";
      queue = "";
      paper_width = "80mm";
      status = "failed";
      last_error = no_printer_error;
      attempts = pos 0;
      copies = copies;
      categories = none;
      dedupe_key = dedupe_key_of order_id doc "" copies none;
      created_at = now;
      updated_at = now;
      version = pos 0;
    }

-- What the order of a visit of a map's keys is
pub record Visits : Type 0 where
  pub titles : Map String String → Map String String
  pub categories : List String → List String

unfoldable pub or_none : Result (List Entity) → List Entity
or_none (ok es) = es
or_none (err e) = []

abbrev pub customer_want : Entity → ℤ → List Wanted
customer_want cashier n =
    if ltb_ℤ (pos 0) n
    then record { doc_type = "customer"; printer = cashier; copies = n; cats = none } ∷ []
    else []

module _ (visits : Visits) (io : Io) where
  unfoldable pub kitchen_wants : Entity → Entity → List Entity → ℤ → Store → List Wanted
  unfolding entities or_none ordered_categories product_categories order_items routes_by_category
      titles_of kitchen_tickets find_printer is_kitchen
  kitchen_wants order cashier active n s =
      let titles = titles_of (or_none (entities io "category" s)) [] in
      let of_product = product_categories (or_none (entities io "product" s)) [] in
      let cs = visits.categories (ordered_categories of_product (order_items order.payload) []) in
      let routes =
        routes_by_category visits.titles titles active (or_none (entities io "printer_route" s))
          [] in
      if ltb_ℤ (pos 0) n
      then kitchen_tickets routes (find_printer is_kitchen active) cashier n cs
      else []

  -- The jobs that are wanted, once there is something to print
  unfoldable pub wanted_jobs : Entity → String → String → ℤ → ℤ → Store → List PrintJob
  unfolding active_only entities or_none field_of job_without_printer cashier_of kitchen_wants
      job_for
  wanted_jobs order order_id now customer kitchen s =
      let number = field_of order.payload "order_number" in
      elim (active_only (or_none (entities io "printer" s))) [
        | [] ↦ job_without_printer order_id number now customer kitchen ∷ []
        | p ∷ ps ↦
            let cashier = cashier_of p ps in
            map (job_for order_id number now)
              (customer_want cashier customer ++ kitchen_wants order cashier (p ∷ ps) kitchen s)
      ]

  -- EnqueueOrderPrintJobsDocs
  unfoldable pub enqueue_order_print_jobs_docs :
      (ℕ → Io)
      → (ℕ → Option String)
      → String
      → (ℕ → String)
      → String
      → ℤ
      → ℤ
      → Store
      → Result (List PrintJobView) × Store
  unfolding get_entity wanted_jobs create_print_jobs
  enqueue_order_print_jobs_docs ios fresh now saved_at order_id customer kitchen s =
      elim (get_entity io "order" order_id s) [
        | err e ↦ (err print_order_not_found, s)
        | ok order ↦
            if not (ltb_ℤ (pos 0) customer) && not (ltb_ℤ (pos 0) kitchen)
            then (ok [], s)
            else create_print_jobs io ios fresh saved_at order_id
                (wanted_jobs order order_id now customer kitchen s) s
      ]
