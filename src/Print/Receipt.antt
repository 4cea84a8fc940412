-- ===== src/Print/Receipt.antt =====
-- The lines of a receipt: buildReceiptLines and buildReceiptLinesFiltered of offline-menuvex/printing.go. `now`
-- is FormatJalaliFull(time.Now()), and `parse` is how a time is read.

use menuvex_printer.Entity.{Entity, OrderLineView, field_of, order_items}
use menuvex_printer.Prelude.{
  Bool, List, Option, String, [], false, if◌then◌else◌, str_eq, true, ◌++◌, ◌||◌, ◌∷◌,
}
use menuvex_printer.Prelude.Int.{pos, ℤ, ◌+ℤ◌}
use menuvex_printer.Print.EscPos.{ReceiptLine}
use menuvex_printer.Print.Labels.{
  LocalTime, cafe_name_fa, cafe_receipt_texts, jalali_date_time_fa, jalali_time_fa,
  order_type_label_fa, payment_label_fa, price_toman, table_number_fa,
}
use menuvex_printer.Text.{is_blank, ◌<>◌}
use menuvex_printer.Text.Decimal.{format_int, wrap_int64}
use menuvex_printer.Text.Persian.{format_irr_to_toman, format_persian_number, to_persian_digits}
use menuvex_printer.Text.Split.{split_on}

abbrev pub plain : String → ReceiptLine
plain t = record {
  text = t;
  bold = false;
  center = false;
  big = false;
  feed = false;
  solid = false;
}

abbrev pub bold_line : String → ReceiptLine
bold_line t = record (plain t) { bold = true }

abbrev pub centered : String → ReceiptLine
centered t = record (plain t) { center = true }

abbrev pub title_line : String → ReceiptLine
title_line t = record (centered t) { bold = true }

abbrev pub dashes : ReceiptLine
dashes = record (plain "") { feed = true }

abbrev pub rule : ReceiptLine
rule = record (plain "") { solid = true }

-- The lines that stand only where a text is not empty
abbrev pub unless_empty : String → List ReceiptLine → List ReceiptLine
unless_empty t lns = if str_eq t "" then [] else lns

unfoldable pub test_lines : String → String → List ReceiptLine
test_lines name now =
    title_line name
    ∷ centered "SALES RECEIPT"
    ∷ rule
    ∷ centered
        "\u{641}\u{6cc}\u{634} \u{622}\u{632}\u{645}\u{627}\u{6cc}\u{634}\u{6cc} \u{686}\u{627}\u{67e}\u{6af}\u{631} \u{62d}\u{631}\u{627}\u{631}\u{62a}\u{6cc}"
    ∷ centered
        "\u{627}\u{62a}\u{635}\u{627}\u{644} \u{686}\u{627}\u{67e}\u{6af}\u{631} \u{628}\u{631}\u{642}\u{631}\u{627}\u{631} \u{627}\u{633}\u{62a}."
    ∷ centered now
    ∷ rule
    ∷ title_line
        "\u{627}\u{632} \u{62e}\u{631}\u{6cc}\u{62f} \u{634}\u{645}\u{627} \u{633}\u{67e}\u{627}\u{633}\u{6af}\u{632}\u{627}\u{631}\u{6cc}\u{645}"
    ∷ centered "POWERED BY MENUVEX.IR"
    ∷ []

abbrev pub empty_bill : List OrderLineView → List ReceiptLine
empty_bill [] =
    centered
      "\u{622}\u{6cc}\u{62a}\u{645}\u{6cc} \u{62b}\u{628}\u{62a} \u{646}\u{634}\u{62f}\u{647} \u{627}\u{633}\u{62a}"
    ∷ []
empty_bill (it ∷ its) = []

unfoldable pub kitchen_items : List OrderLineView → List ReceiptLine
unfolding format_persian_number format_int ◌<>◌
kitchen_items [] = []
kitchen_items (it ∷ its) =
    bold_line ("×" <> format_persian_number (format_int it.quantity) <> " " <> it.product_name)
    ∷ (unless_empty it.note (plain ("+ " <> it.note) ∷ []) ++ kitchen_items its)

unfoldable pub kitchen_lines :
    (String → Option LocalTime) → Entity → Entity → List OrderLineView → List ReceiptLine
unfolding cafe_name_fa table_number_fa field_of to_persian_digits jalali_time_fa jalali_date_time_fa
    order_type_label_fa kitchen_items ◌<>◌
kitchen_lines parse order cafe items =
    let table = table_number_fa order in
    let note = field_of order.payload "note" in
    let made = field_of order.payload "created_at" in
    (title_line
        "\u{633}\u{641}\u{627}\u{631}\u{634} \u{622}\u{634}\u{67e}\u{632}\u{62e}\u{627}\u{646}\u{647}"
      ∷ unless_empty cafe.id (centered (cafe_name_fa cafe) ∷ []))
    ++ ((rule
          ∷ unless_empty table
              (record (title_line ("\u{645}\u{6cc}\u{632} " <> table)) { big = true } ∷ []))
        ++ ((bold_line (
                "\u{634}\u{645}\u{627}\u{631}\u{647} "
                <> to_persian_digits (field_of order.payload "order_number"))
              ∷ plain ("\u{633}\u{627}\u{639}\u{62a}: " <> jalali_time_fa parse made)
              ∷ plain ("\u{62a}\u{627}\u{631}\u{6cc}\u{62e}: " <> jalali_date_time_fa parse made)
              ∷ plain ("\u{646}\u{648}\u{639}: " <> order_type_label_fa order)
              ∷ dashes
              ∷ empty_bill items)
            ++ (kitchen_items items
                ++ (unless_empty note (
                      dashes
                      ∷ bold_line ("\u{6cc}\u{627}\u{62f}\u{62f}\u{627}\u{634}\u{62a}: " <> note)
                      ∷ [])
                    ++ (rule
                        ∷ centered
                            "— \u{67e}\u{627}\u{6cc}\u{627}\u{646} \u{633}\u{641}\u{627}\u{631}\u{634} —"
                        ∷ [])))))

unfoldable pub sold_items : List OrderLineView → List ReceiptLine
unfolding format_persian_number format_int format_irr_to_toman ◌<>◌
sold_items [] = []
sold_items (it ∷ its) =
    (bold_line it.product_name ∷ unless_empty it.note (plain ("+ " <> it.note) ∷ []))
    ++ (plain (
          format_persian_number (format_int it.quantity)
          <> " × "
          <> format_irr_to_toman it.unit_price
          <> " = "
          <> format_irr_to_toman it.line_total)
        ∷ sold_items its)

-- totalQty, an int
unfoldable pub total_quantity : ℤ → List OrderLineView → ℤ
unfolding wrap_int64 ◌+ℤ◌
total_quantity n [] = n
total_quantity n (it ∷ its) = total_quantity (wrap_int64 (n +ℤ it.quantity)) its

-- The lines of a text of the settings that are not blank
unfoldable pub text_lines : List String → List ReceiptLine
unfolding is_blank
text_lines [] = []
text_lines (part ∷ parts) =
    let rest = text_lines parts in if is_blank part then rest else title_line part ∷ rest

unfoldable pub setting_lines : String → List ReceiptLine
unfolding split_on text_lines
setting_lines text = unless_empty text (text_lines (split_on 10 text))

-- An amount that is there and not 0
unfoldable pub amount_line : String → String → List ReceiptLine
unfolding format_irr_to_toman ◌<>◌
amount_line name v =
    if str_eq v "" || str_eq v "0" then [] else plain (name <> format_irr_to_toman v) ∷ []

abbrev pub named_line : String → String → List ReceiptLine
named_line name v = unless_empty v (plain (name <> v) ∷ [])

unfoldable pub customer_lines :
    (String → Option LocalTime) → Entity → Entity → List OrderLineView → List ReceiptLine
unfolding cafe_name_fa cafe_receipt_texts table_number_fa field_of to_persian_digits
    jalali_date_time_fa order_type_label_fa payment_label_fa price_toman sold_items total_quantity
    setting_lines amount_line format_persian_number format_int ◌<>◌
customer_lines parse order cafe items =
    let of_order : String → String = λ key. field_of order.payload key in
    let texts = cafe_receipt_texts cafe in
    let address = if str_eq cafe.id "" then "" else field_of cafe.payload "address" in
    let note = of_order "note" in
    let head =
      (centered "SALES RECEIPT"
        ∷ title_line (cafe_name_fa cafe)
        ∷ unless_empty address (centered address ∷ []))
      ++ (setting_lines texts.0 ++ (rule ∷ [])) in
    let about =
      (plain (
          "\u{634}\u{645}\u{627}\u{631}\u{647} \u{641}\u{6cc}\u{634}: "
          <> to_persian_digits (of_order "order_number"))
        ∷ plain (
            "\u{62a}\u{627}\u{631}\u{6cc}\u{62e}: "
            <> jalali_date_time_fa parse (of_order "created_at"))
        ∷ plain (
            "\u{646}\u{648}\u{639} \u{633}\u{641}\u{627}\u{631}\u{634}: "
            <> order_type_label_fa order)
        ∷ [])
      ++ (named_line "\u{67e}\u{631}\u{62f}\u{627}\u{62e}\u{62a}: " (payment_label_fa order)
          ++ (named_line "\u{645}\u{634}\u{62a}\u{631}\u{6cc}: " (of_order "customer_name")
              ++ (named_line "\u{62a}\u{644}\u{641}\u{646} \u{645}\u{634}\u{62a}\u{631}\u{6cc}: "
                    (of_order "customer_phone")
                  ++ named_line "\u{645}\u{6cc}\u{632}: " (table_number_fa order)))) in
    let sums =
      (dashes
        ∷ plain (
            "\u{62a}\u{639}\u{62f}\u{627}\u{62f} \u{627}\u{642}\u{644}\u{627}\u{645}: "
            <> format_persian_number (format_int (total_quantity (pos 0) items)))
        ∷ [])
      ++ (amount_line "\u{62c}\u{645}\u{639} \u{627}\u{642}\u{644}\u{627}\u{645}: "
            (of_order "subtotal_irr")
          ++ (amount_line "\u{62a}\u{62e}\u{641}\u{6cc}\u{641}: - " (of_order "discount_irr")
              ++ (record (bold_line (
                    "\u{645}\u{628}\u{644}\u{63a} \u{642}\u{627}\u{628}\u{644} \u{67e}\u{631}\u{62f}\u{627}\u{62e}\u{62a}: "
                    <> price_toman order)) { big = true }
                  ∷ []))) in
    let foot =
      unless_empty note
        (dashes ∷ plain ("\u{6cc}\u{627}\u{62f}\u{62f}\u{627}\u{634}\u{62a}: " <> note) ∷ [])
      ++ ((rule
            ∷ title_line
                "\u{627}\u{632} \u{62e}\u{631}\u{6cc}\u{62f} \u{634}\u{645}\u{627} \u{633}\u{67e}\u{627}\u{633}\u{6af}\u{632}\u{627}\u{631}\u{6cc}\u{645}"
            ∷ [])
          ++ (setting_lines texts.1 ++ (centered "POWERED BY MENUVEX.IR" ∷ []))) in
    head ++ (about ++ ((dashes ∷ empty_bill items) ++ (sold_items items ++ (sums ++ foot))))

unfoldable pub kept_items : (String → Bool) → List OrderLineView → List OrderLineView
kept_items keep [] = []
kept_items keep (it ∷ its) =
    let rest = kept_items keep its in if keep it.product_id then it ∷ rest else rest

-- buildReceiptLinesFiltered; without a filter every item is kept.
unfoldable pub build_receipt_lines :
    (String → Option LocalTime)
    → String
    → Entity
    → Entity
    → String
    → (String → Bool)
    → List ReceiptLine
unfolding cafe_name_fa test_lines order_items kept_items kitchen_lines customer_lines
build_receipt_lines parse now order cafe doc_type keep =
    let items = kept_items keep (order_items order.payload) in
    if str_eq doc_type "test"
    then test_lines (cafe_name_fa cafe) now
    else if str_eq doc_type "kitchen"
    then kitchen_lines parse order cafe items
    else customer_lines parse order cafe items
