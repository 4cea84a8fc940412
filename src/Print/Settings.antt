-- ===== src/Print/Settings.antt =====
-- The handlers of the settings of the printing in offline-menuvex/app.go: handlePrinterToggle, handlePrintPolicy,
-- handlePrinterRouteSave and handlePrinterRouteToggle. A form is what r.Form.Get gives for each of its names.

-- The message of the page that a handler shows
use menuvex_printer.Entity.{Entity, entities, field_of, get_entity, label}
use menuvex_printer.Json.{Json, str}
use menuvex_printer.Local.{delete_local_record, save_local_record}
use menuvex_printer.Order.Status.{one_of}
use menuvex_printer.Prelude.{
  Bool, List, Map, Option, String, [], if◌then◌else◌, key_eq, none, not, some, str_eq, ◌&&◌, ◌++◌,
  ◌||◌, ◌∷◌,
}
use menuvex_printer.Prelude.Int.{ltb_ℤ, pos, ℤ}
use menuvex_printer.Print.Enqueue.{or_none}
use menuvex_printer.Result.{Error, Result, err, ok}
use menuvex_printer.Store.{Io, Store}
use menuvex_printer.Text.{trim_space, ◌<>◌}
use menuvex_printer.Text.Decimal.{atoi, format_int}
use menuvex_printer.Text.Persian.{normalize_digits}

pub data SettingsNotice : Type 0 where
  not_saved : Error → SettingsNotice
  printer_set : Bool → SettingsNotice
  bad_scenario : SettingsNotice
  nothing_sent : SettingsNotice
  policy_saved : SettingsNotice
  no_category : SettingsNotice
  no_printer : SettingsNotice
  no_route : SettingsNotice
  route_removed : String → SettingsNotice
  route_saved : String → String → SettingsNotice
  route_set : Bool → SettingsNotice

abbrev pub Form : Type 0
Form = String → String

abbrev pub bool_str : Bool → String
bool_str b = if b then "true" else "false"

unfoldable pub told : SettingsNotice → Result String × Store → SettingsNotice × Store
told notice (err e, s) = (not_saved e, s)
told notice (ok i, s) = (notice, s)

abbrev pub save_profile :
    Io → Map String Json → Result String → String → Store → Result String × Store
save_profile io fields fresh now s =
    save_local_record io "cafe_profile" "cafe-main-profile" fields fresh now s

-- handlePrinterToggle
unfoldable pub handle_printer_toggle :
    Io → Result String → String → Form → Store → SettingsNotice × Store
unfolding save_local_record told
handle_printer_toggle io fresh now form s =
    let enabled = str_eq (form "enabled") "on" || str_eq (form "enabled") "true" in
    told (printer_set enabled)
      (save_profile io (("printer_enabled", str (bool_str enabled)) ∷ []) fresh now s)

-- Atoi of the copies of a form, taken when it is 1 to 5
unfoldable pub form_copies : String → ℤ
unfolding normalize_digits trim_space atoi
form_copies raw = elim (atoi (normalize_digits (trim_space raw))) [
  | none ↦ pos 1
  | some n ↦ if not (ltb_ℤ n (pos 1)) && not (ltb_ℤ (pos 5) n) then n else pos 1
]

unfoldable pub form_doc : String → String → String
unfolding one_of
form_doc g doc =
    if one_of doc ("kitchen" ∷ "cashier" ∷ "all" ∷ [])
    then doc
    else if str_eq g "checkout" || str_eq g "complete"
    then "cashier"
    else "kitchen"

-- What the form says of one group of events: none where its mode is unknown, and no field where it has none
unfoldable pub group_fields : Form → String → Option (Map String Json)
unfolding trim_space one_of form_doc form_copies format_int ◌<>◌
group_fields form g =
    let mode = trim_space (form ("pw_" <> g <> "_mode")) in
    if str_eq mode ""
    then some []
    else if not (one_of mode ("none" ∷ "kitchen" ∷ "customer" ∷ "both" ∷ "custom" ∷ []))
    then none
    else some (
        ("pw_" <> g <> "_mode", str mode)
        ∷ ("pw_" <> g <> "_doc", str (form_doc g (trim_space (form ("pw_" <> g <> "_doc")))))
        ∷ ("pw_" <> g <> "_copies", str (format_int (form_copies (form ("pw_" <> g <> "_copies")))))
        ∷ (if str_eq g "checkout"
            then (
              "pw_checkout_merchant",
              str (bool_str (str_eq (form "pw_checkout_merchant") "on")),
            )
              ∷ []
            else []))

unfoldable pub both_fields :
    Option (Map String Json) → Option (Map String Json) → Option (Map String Json)
both_fields (some m) (some ms) = some (m ++ ms)
both_fields _ _ = none

unfoldable pub policy_fields : Form → List String → Option (Map String Json)
unfolding group_fields both_fields
policy_fields form [] = some []
policy_fields form (g ∷ gs) = both_fields (group_fields form g) (policy_fields form gs)

-- handlePrintPolicy
unfoldable pub handle_print_policy :
    Io → Result String → String → Form → Store → SettingsNotice × Store
unfolding policy_fields save_local_record told
handle_print_policy io fresh now form s =
    elim (policy_fields form ("create" ∷ "notable" ∷ "checkout" ∷ "complete" ∷ [])) [
      | none ↦ (bad_scenario, s)
      | some [] ↦ (nothing_sent, s)
      | some (f ∷ fs) ↦ told policy_saved (save_profile io (f ∷ fs) fresh now s)
    ]

abbrev pub route_is_of : String → Entity → Bool
route_is_of cat_id rt = str_eq (trim_space (field_of rt.payload "category_id")) cat_id

-- The last route of the category, and the last setting of its activity that is not blank
unfoldable pub existing_route : String → List Entity → String × String → String × String
unfolding trim_space field_of
existing_route cat_id [] found = found
existing_route cat_id (rt ∷ rts) (i, active) =
    let v = trim_space (field_of rt.payload "is_active") in
    existing_route cat_id rts
      (if route_is_of cat_id rt then (rt.id, if str_eq v "" then active else v) else (i, active))

unfoldable pub removed : String → Result (Unit {0}) × Store → SettingsNotice × Store
removed name (err e, s) = (not_saved e, s)
removed name (ok _, s) = (route_removed name, s)

unfoldable pub remove_route : Io → String → String → Store → SettingsNotice × Store
unfolding delete_local_record removed
remove_route io name i s =
    if str_eq i ""
    then (route_removed name, s)
    else removed name (delete_local_record io "printer_route" i s)

unfoldable pub route_fields : Entity → String → String → Entity → ℤ → String → Map String Json
unfolding label format_int
route_fields cat cat_id printer_id printer copies active =
    ("title", str (label cat))
    ∷ ("category_id", str cat_id)
    ∷ ("category_name", str (label cat))
    ∷ ("printer_id", str printer_id)
    ∷ ("printer_name", str (label printer))
    ∷ ("receipt_type", str "kitchen")
    ∷ ("copies", str (format_int copies))
    ∷ ("is_active", str active)
    ∷ []

-- handlePrinterRouteSave
unfoldable pub handle_printer_route_save :
    Io → Io → Result String → String → Form → Store → SettingsNotice × Store
unfolding trim_space get_entity entities or_none existing_route remove_route route_fields
    form_copies label save_local_record told
handle_printer_route_save io io' fresh now form s =
    let cat_id = trim_space (form "category_id") in
    let printer_id = trim_space (form "printer_id") in
    elim (get_entity io "category" cat_id s) [
      | err _ ↦ (no_category, s)
      | ok cat ↦
          let (i, active) =
            existing_route cat_id (or_none (entities io "printer_route" s)) ("", "true") in
          if str_eq printer_id ""
          then remove_route io' (label cat) i s
          else elim (get_entity io "printer" printer_id s) [
            | err _ ↦ (no_printer, s)
            | ok printer ↦ told (route_saved (label cat) (label printer)) (
                save_local_record io' "printer_route" i
                  (route_fields cat cat_id printer_id printer (form_copies (form "copies")) active)
                  fresh now s)
          ]
    ]

unfoldable pub is_off : Entity → Bool
unfolding field_of
is_off rt = let v = field_of rt.payload "is_active" in str_eq v "false" || str_eq v "0"

-- The loop of handlePrinterRouteToggle, which ends with the first route of the category
unfoldable pub toggle_first :
    Io → Result String → String → String → List Entity → Store → SettingsNotice × Store
unfolding trim_space field_of is_off save_local_record told
toggle_first io fresh now cat_id [] s = (no_route, s)
toggle_first io fresh now cat_id (rt ∷ rts) s =
    let rest = toggle_first io fresh now cat_id rts s in
    if route_is_of cat_id rt
    then told (route_set (is_off rt)) (
        save_local_record io "printer_route" rt.id (("is_active", str (bool_str (is_off rt))) ∷ [])
          fresh now s)
    else rest

-- handlePrinterRouteToggle
unfoldable pub handle_printer_route_toggle :
    Io → Io → Result String → String → Form → Store → SettingsNotice × Store
unfolding trim_space entities or_none toggle_first
handle_printer_route_toggle io io' fresh now form s =
    toggle_first io' fresh now (trim_space (form "category_id"))
      (or_none (entities io "printer_route" s)) s
