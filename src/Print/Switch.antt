-- ===== src/Print/Switch.antt =====
-- The switch of the printer, handlePrinterToggle of offline-menuvex/app.go, and what printerEnabled of
-- offline-menuvex/printing.go reads afterwards.
use mathlib.Core.Path.{subst}
use menuvex_printer.Entity.{field_of, field_text, get_entity}
use menuvex_printer.Entity.Laws.{field_of-encode}
use menuvex_printer.Json.{Json, encode_map, str}
use menuvex_printer.Json.Laws.{IsUnique}
use menuvex_printer.Local.{
  check_amounts, is_missing, kept_fields, merged_fields, next_version, save_checks, save_local_body,
  save_local_record, save_run, validate_local_fields,
}
use menuvex_printer.Local.Fields.{merged_fields-IsUnique}
use menuvex_printer.Local.Save.{kept_fields-IsUnique}
use menuvex_printer.Order.{set_fields}
use menuvex_printer.Prelude.{
  Bool, Bool-cases, Map, String, [], ap, false, inl, inr, insert, lookup, map_laws, refl, some,
  str_eq, string_eq, true, ◌||◌, ◌∙◌, ◌∷◌, ◌≡◌,
}
use menuvex_printer.Prelude.Int.{ℤ}
use menuvex_printer.Print.Policy.{printer_enabled}
use menuvex_printer.Print.Settings.{
  Form, bool_str, handle_printer_toggle, printer_set, save_profile, told,
}
use menuvex_printer.Result.{>>=-eq-ok, Result, err, ok}
use menuvex_printer.Store.{
  Io, PersistedDb, Store, StoredEntity, find_entity, find_live, put_entity, with_tx,
}
use menuvex_printer.Store.Atomic.{with_tx_ok}
use menuvex_printer.Store.Keys.{find-put_self, find_live_of}
use menuvex_printer.Text.{is_blank, trim_space}

abbrev switch_fields : Bool → Map String Json
switch_fields b = ("printer_enabled", str (bool_str b)) ∷ []

merged_fields-switch :
    (is_new b : Bool) (i now : String) (version : ℤ) (old : Map String Json)
    → lookup "printer_enabled" (merged_fields is_new i (switch_fields b) now version old)
      ≡ some (str (bool_str b))
unfolding merged_fields set_fields
merged_fields-switch is_new b i now version old =
    elim (Bool-cases (
      is_new
      || is_missing
          (lookup "created_at" (insert "id" (str i) (set_fields (switch_fields b) old))))) [
            | inl a ↦ rw (a) (simp map_laws)
            | inr a ↦ rw (a) (simp map_laws)
          ]

-- The profile stands there, and says whether printing is on.
abbrev IsSwitched : Bool → PersistedDb → Type 0
IsSwitched b st =
    (e : StoredEntity) × (find_live st "cafe_profile" "cafe-main-profile" ≡ some e)
    × (field_of e.payload "printer_enabled" ≡ bool_str b)

save_local_body-IsSwitched :
    (b : Bool) (now : String) (st st' : PersistedDb)
    → save_local_body false "cafe_profile" "cafe-main-profile" (switch_fields b) now st
      ≡ ok (st', tt)
    → IsSwitched b st'
unfolding save_local_body field_text
save_local_body-IsSwitched b now st st' h =
    let i : String = "cafe-main-profile" in
    let kept = kept_fields false (find_live st "cafe_profile" i) in
    let version = next_version (find_entity st "cafe_profile" i) in
    let merged = merged_fields kept.0 i (switch_fields b) now version kept.1 in
    let e : StoredEntity = record {
      id = i;
      kind = "cafe_profile";
      version = version;
      deleted = false;
      payload = encode_map merged;
    } in
    let same : put_entity "cafe_profile" i e st ≡ st' = cc in
    let unique : IsUnique merged =
      merged_fields-IsUnique kept.0 i (switch_fields b) now version kept.1
        (kept_fields-IsUnique false (find_live st "cafe_profile" i)) in
    subst (IsSwitched b) same (
      e,
      find_live_of (put_entity "cafe_profile" i e st) "cafe_profile" i
          (find-put_self st "cafe_profile" i e) refl,
      field_of-encode merged "printer_enabled" unique
          ∙ ap field_text (merged_fields-switch kept.0 b i now version kept.1),
    )

IsSwitched-printer_enabled :
    (b : Bool) (io : Io) (s : Store)
    → io.cancelled ≡ false
    → IsSwitched b s.state
    → printer_enabled io s ≡ b
unfolding printer_enabled get_entity trim_space
IsSwitched-printer_enabled true io s runs (e, found, text) =
    rw (printer_enabled, get_entity, runs, found, text) refl
IsSwitched-printer_enabled false io s runs (e, found, text) =
    rw (printer_enabled, get_entity, runs, found, text) refl

told_saved :
    (r : Result String × Store) (b c : Bool)
    → (told (printer_set b) r).0 ≡ printer_set c
    → (i : String) × (r.0 ≡ ok i) × (b ≡ c) × ((told (printer_set b) r).1 ≡ r.1)
unfolding told
told_saved (ok i, s) b c h = (i, refl, cc, refl)
told_saved (err e, s) b c h = cc

save_profile-IsSwitched :
    (io : Io) (fresh : Result String) (now : String) (s : Store) (b : Bool) (i : String)
    → (save_profile io (switch_fields b) fresh now s).0 ≡ ok i
    → IsSwitched b (save_profile io (switch_fields b) fresh now s).1.state
unfolding save_local_record save_checks save_run is_blank trim_space validate_local_fields
    check_amounts
save_profile-IsSwitched io fresh now s b i h =
    let body = save_local_body false "cafe_profile" "cafe-main-profile" (switch_fields b) now in
    let (done, succeeded, last) = >>=-eq-ok (with_tx io body s).0 _ h in
    save_local_body-IsSwitched b now s.state _ (with_tx_ok io body s succeeded).0

-- Once the form has switched printing on or off, and its notice says so, printerEnabled answers the same, in
-- any call that is not cancelled, whatever printers there are.
pub handle_printer_toggle-printer_enabled :
    (io io' : Io) (fresh : Result String) (now : String) (form : Form) (s : Store) (b : Bool)
    → (handle_printer_toggle io fresh now form s).0 ≡ printer_set b
    → io'.cancelled ≡ false
    → printer_enabled io' (handle_printer_toggle io fresh now form s).1 ≡ b
unfolding handle_printer_toggle
handle_printer_toggle-printer_enabled io io' fresh now form s b h runs =
    let on = str_eq (form "enabled") "on" || str_eq (form "enabled") "true" in
    let (i, saved, same, left) =
      told_saved (save_profile io (switch_fields on) fresh now s) on b h in
    let switched : IsSwitched on (save_profile io (switch_fields on) fresh now s).1.state =
      save_profile-IsSwitched io fresh now s on i saved in
    rw (left) (IsSwitched-printer_enabled on io' _ runs switched) ∙ same
