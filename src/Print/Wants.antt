-- ===== src/Print/Wants.antt =====
-- EnqueueOrderPrintJobsDocs of offline-menuvex/internal/store/printing.go: which document goes to which printer.
-- `visit` is the order in which Go's range goes through the keys of a map.
use menuvex_printer.Entity.{Entity, field_of, label}
use menuvex_printer.Order.Create.{visit}
use menuvex_printer.Order.Status.{clean}
use menuvex_printer.Prelude.{
  Bool, List, Map, Option, String, [], false, if◌then◌else◌, insert, none, not, some, str_eq,
  string_eq, ◌&&◌, ◌++◌, ◌||◌, ◌∷◌,
}
use menuvex_printer.Prelude.Int.{ltb_ℤ, pos, ℤ}
use menuvex_printer.Text.{contains, to_lower, trim_space, ◌<>◌}
use menuvex_printer.Text.Decimal.{atoi}

-- isActivePrinter, of a printer and of a route
unfoldable pub is_active_printer : Entity → Bool
unfolding field_of clean
is_active_printer e =
    let v = clean (field_of e.payload "is_active") in
    not (str_eq v "false")
    && not (str_eq v "0")
    && not (str_eq v "\u{63a}\u{6cc}\u{631}\u{641}\u{639}\u{627}\u{644}")

unfoldable pub active_only : List Entity → List Entity
unfolding is_active_printer
active_only [] = []
active_only (e ∷ es) = let rest = active_only es in if is_active_printer e then e ∷ rest else rest

-- findPrinter
unfoldable pub find_printer : (Entity → Bool) → List Entity → Option Entity
find_printer matches [] = none
find_printer matches (e ∷ es) = if matches e then some e else find_printer matches es

unfoldable pub printer_by_id : String → List Entity → Option Entity
unfolding find_printer
printer_by_id i es = if str_eq i "" then none else find_printer (λ e. str_eq e.id i) es

unfoldable pub name_matches : String → Entity → Bool
unfolding trim_space contains label
name_matches raw printer =
    let name = trim_space raw in
    let title = label printer in
    if str_eq name ""
    then false
    else str_eq title name || contains name title || contains title name

unfoldable pub station_text : Entity → String
unfolding ◌<>◌ field_of label
station_text e = field_of e.payload "station" <> label e

unfoldable pub is_cashier : Entity → Bool
unfolding station_text contains to_lower
is_cashier e =
    contains "\u{635}\u{646}\u{62f}\u{648}\u{642}" (station_text e)
    || contains "cashier" (to_lower (station_text e))

unfoldable pub is_kitchen : Entity → Bool
unfolding station_text contains to_lower
is_kitchen e =
    contains "\u{628}\u{627}\u{631}" (station_text e)
    || contains "\u{622}\u{634}\u{67e}\u{632}\u{62e}\u{627}\u{646}\u{647}" (station_text e)
    || contains "kitchen" (to_lower (station_text e))

unfoldable pub cashier_of : Entity → List Entity → Entity
unfolding find_printer is_cashier
cashier_of first active = elim (find_printer is_cashier (first ∷ active)) [
  | none ↦ first
  | some e ↦ e
]

pub record Wanted : Type 0 where
  pub doc_type : String
  pub printer : Entity
  pub copies : ℤ
  pub cats : Option (List String)

-- copies below 1 count as 1 and above 5 as 5
unfoldable pub clamp_copies : ℤ → ℤ
clamp_copies z = if ltb_ℤ z (pos 1) then pos 1 else if ltb_ℤ (pos 5) z then pos 5 else z

unfoldable pub is_in : String → List String → Bool
is_in s [] = false
is_in s (t ∷ ts) = str_eq t s || is_in s ts

unfoldable pub unseen : List String → List String → List String
unfolding is_in
unseen seen [] = []
unseen seen (c ∷ cs) = let rest = unseen seen cs in if is_in c seen then rest else c ∷ rest

-- nil stands for all categories
unfoldable pub merge_cats : Option (List String) → Option (List String) → Option (List String)
unfolding unseen
merge_cats old none = none
merge_cats none (some cs) = none
merge_cats (some os) (some cs) = some (os ++ unseen os cs)

unfoldable pub merge_want : Option (List String) → ℤ → Wanted → Wanted
unfolding merge_cats
merge_want cats copies w = record w {
  cats = merge_cats w.cats cats;
  copies = if ltb_ℤ w.copies copies then copies else w.copies;
}

-- addKitchen; kitchenByPrinter points into the list, which has one ticket for a printer
unfoldable pub add_kitchen : Entity → Option (List String) → ℤ → List Wanted → List Wanted
unfolding clamp_copies merge_want
add_kitchen p cats copies [] =
    record { doc_type = "kitchen"; printer = p; copies = clamp_copies copies; cats = cats } ∷ []
add_kitchen p cats copies (w ∷ ws) =
    if str_eq w.printer.id p.id
    then merge_want cats (clamp_copies copies) w ∷ ws
    else w ∷ add_kitchen p cats copies ws

pub record RouteInfo : Type 0 where
  pub printer : Entity
  pub copies : ℤ

unfoldable pub route_copies : Option ℤ → ℤ
unfolding clamp_copies
route_copies none = pos 1
route_copies (some z) = clamp_copies z

unfoldable pub titles_of : List Entity → Map String String → Map String String
unfolding insert label
titles_of [] m = m
titles_of (c ∷ cs) m = titles_of cs (insert c.id (label c) m)

-- The last category that is visited and has the name
unfoldable pub category_named : String → Map String String → String → String
category_named name [] found = found
category_named name ((i, title) ∷ m) found =
    category_named name m (if not (str_eq title "") && str_eq title name then i else found)

unfoldable pub route_category :
    (Map String String → Map String String) → Map String String → Entity → String
unfolding field_of trim_space category_named
route_category visit titles r =
    let given = trim_space (field_of r.payload "category_id") in
    if str_eq given ""
    then category_named (trim_space (field_of r.payload "category_name")) (visit titles) ""
    else given

unfoldable pub route_printer : List Entity → Entity → Option Entity
unfolding printer_by_id trim_space field_of find_printer name_matches
route_printer active r =
    elim (printer_by_id (trim_space (field_of r.payload "printer_id")) active) [
      | some e ↦ some e
      | none ↦ find_printer (name_matches (field_of r.payload "printer_name")) active
    ]

unfoldable pub routes_by_category :
    (Map String String → Map String String)
    → Map String String
    → List Entity
    → List Entity
    → Map String RouteInfo
    → Map String RouteInfo
unfolding is_active_printer route_category route_printer insert route_copies atoi trim_space
    field_of
routes_by_category visit titles active [] m = m
routes_by_category visit titles active (r ∷ rs) m = routes_by_category visit titles active rs (
    if not (is_active_printer r) || str_eq (route_category visit titles r) ""
    then m
    else elim (route_printer active r) [
      | none ↦ m
      | some pr ↦
          insert (route_category visit titles r)
            (record {
              printer = pr;
              copies = route_copies (atoi (trim_space (field_of r.payload "copies")));
            })
            m
    ])
