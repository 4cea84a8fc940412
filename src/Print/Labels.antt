-- ===== src/Print/Labels.antt =====
-- The words of a receipt of offline-menuvex/printing.go: digitsFa, jalaliDateTimeFa, jalaliTimeFa,
-- orderTypeLabelFa, paymentLabelFa, cafeReceiptTexts, cafeNameFa and tableNumberFa, and PriceToman of
-- offline-menuvex/internal/store/store.go. `parse` is time.Parse with the first layout that fits, at the time
-- of Tehran.
use Prim.Native.Char.{Char, code}
-- A Latin, Persian or Arabic digit as a Latin one
use menuvex_printer.Calendar.{gregorian_to_jalali}
use menuvex_printer.Entity.{Entity, field_of, label, price_irr}
use menuvex_printer.Order.Status.{clean, one_of}
use menuvex_printer.Prelude.{
  Option, String, [], if◌then◌else◌, none, not, some, str_eq, suc, zero, ℕ, ◌&&◌, ◌-◌, ◌==◌, ◌∷◌,
}
use menuvex_printer.Prelude.Int.{negsuc, pos, ℤ}
use menuvex_printer.Text.{equal_fold, has_prefix, runes, trim_space, ◌<>◌}
use menuvex_printer.Text.Decimal.{format_nat, is_digit}
use menuvex_printer.Text.Persian.{
  drop_first, format_irr_to_toman, format_persian_number, latin_char, to_persian_digits,
}

unfoldable pub plain_digit : Char → Option Char
unfolding latin_char is_digit
plain_digit c = let d = latin_char c in if is_digit d then some d else none

unfoldable pub only_digits : String → String
unfolding plain_digit
only_digits String.[] = String.[]
only_digits (String.◌∷◌ c s) =
    let rest = only_digits s in elim (plain_digit c) [ none ↦ rest | some d ↦ String.◌∷◌ d rest ]

-- digitsFa
unfoldable pub digits_fa : String → String
unfolding only_digits to_persian_digits
digits_fa v = to_persian_digits (only_digits v)

pub record LocalTime : Type 0 where
  pub year : ℕ
  pub month : ℕ
  pub day : ℕ
  pub hour : ℕ
  pub minute : ℕ

unfoldable pub zeros : ℕ → String
unfolding ◌<>◌
zeros zero = ""
zeros (suc n) = "0" <> zeros n

-- %0wd; the sign counts
unfoldable pub padded : ℕ → ℤ → String
unfolding zeros format_nat runes ◌<>◌
padded w (pos n) = let t = format_nat n in zeros (w - runes t) <> t
padded w (negsuc n) = let t = format_nat (suc n) in "-" <> zeros (w - 1 - runes t) <> t

unfoldable pub clock_text : LocalTime → String
unfolding gregorian_to_jalali padded ◌<>◌
clock_text t =
    let j = gregorian_to_jalali t.year t.month t.day in
    padded 4 j.year
    <> "/"
    <> padded 2 (pos j.month)
    <> "/"
    <> padded 2 (pos j.day)
    <> "  "
    <> padded 2 (pos t.hour)
    <> ":"
    <> padded 2 (pos t.minute)

-- jalaliDateTimeFa
unfoldable pub jalali_date_time_fa : (String → Option LocalTime) → String → String
unfolding trim_space clock_text to_persian_digits
jalali_date_time_fa parse raw =
    let iso = trim_space raw in
    if str_eq iso "" then "" else elim (parse iso) [
      | some t ↦ to_persian_digits (clock_text t)
      | none ↦ to_persian_digits iso
    ]

-- What follows the last two blanks in a row
unfoldable pub after_gap : String → Option String
unfolding has_prefix drop_first
after_gap String.[] = none
after_gap (String.◌∷◌ c s) =
    let later = after_gap s in
    elim later [
      | some t ↦ some t
      | none ↦ if code c == 32 && has_prefix " " s then some (drop_first s) else none
    ]

-- jalaliTimeFa
unfoldable pub jalali_time_fa : (String → Option LocalTime) → String → String
unfolding jalali_date_time_fa after_gap
jalali_time_fa parse raw =
    let full = jalali_date_time_fa parse raw in elim (after_gap full) [ none ↦ full | some t ↦ t ]

-- orderTypeLabelFa
unfoldable pub order_type_label_fa : Entity → String
unfolding clean field_of one_of
order_type_label_fa order =
    let kind = clean (field_of order.payload "fulfillment_type") in
    if one_of kind ("outside" ∷ "takeaway" ∷ [])
    then "\u{628}\u{6cc}\u{631}\u{648}\u{646}\u{200c}\u{628}\u{631}"
    else if str_eq kind "delivery"
    then "\u{627}\u{631}\u{633}\u{627}\u{644}"
    else "\u{62d}\u{636}\u{648}\u{631}\u{6cc}"

-- paymentLabelFa
unfoldable pub payment_label_fa : Entity → String
unfolding clean field_of one_of
payment_label_fa order =
    let method = clean (field_of order.payload "payment_method") in
    if one_of method ("cash" ∷ "card_pos" ∷ [])
    then "\u{646}\u{642}\u{62f}\u{6cc} / \u{6a9}\u{627}\u{631}\u{62a}\u{62e}\u{648}\u{627}\u{646}"
    else if one_of method ("credit_debtor" ∷ "credit" ∷ [])
    then "\u{62e}\u{631}\u{6cc}\u{62f} \u{627}\u{639}\u{62a}\u{628}\u{627}\u{631}\u{6cc} (\u{646}\u{633}\u{6cc}\u{647})"
    else if str_eq method "mixed"
    then "\u{62a}\u{631}\u{6a9}\u{6cc}\u{628}\u{6cc}"
    else ""

-- cafeReceiptTexts; an entity that was not read has no id.
unfoldable pub cafe_receipt_texts : Entity → String × String
unfolding trim_space field_of
cafe_receipt_texts cafe =
    let footer = trim_space (field_of cafe.payload "receipt_footer_text") in
    if str_eq cafe.id "" then ("", "") else (
      trim_space (field_of cafe.payload "receipt_header_text"),
      if str_eq footer "" then trim_space (field_of cafe.payload "receipt_note") else footer,
    )

-- cafeNameFa
unfoldable pub cafe_name_fa : Entity → String
unfolding label
cafe_name_fa cafe =
    let name = label cafe in
    if not (str_eq cafe.id "") && not (str_eq name "") && not (str_eq name cafe.id)
    then name
    else "\u{641}\u{627}\u{6a9}\u{62a}\u{648}\u{631} \u{641}\u{631}\u{648}\u{634}"

-- tableNumberFa
unfoldable pub table_number_fa : Entity → String
unfolding digits_fa field_of
table_number_fa order = digits_fa (field_of order.payload "table_label")

-- Entity.PriceToman
unfoldable pub price_toman : Entity → String
unfolding price_irr equal_fold field_of format_persian_number format_irr_to_toman ◌<>◌
price_toman e =
    let raw = price_irr e.payload in
    if str_eq raw ""
    then ""
    else if str_eq e.kind "debtor" && equal_fold (field_of e.payload "currency") "IRT"
    then format_persian_number raw <> " \u{62a}\u{648}\u{645}\u{627}\u{646}"
    else format_irr_to_toman raw
