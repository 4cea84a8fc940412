-- ===== src/Text/Patterns.antt =====
-- The two regular expressions of internal/store/outbox.go, and the identifiers of UUID().
pub mod Uuid
use Prim.Native.Char.{Char, code}
use Prim.Native.String.{[], ◌∷◌, char_at}
use menuvex_printer.Prelude.{
  Bool, String, false, leb, suc, true, zero, ℕ, ◌%◌, ◌&&◌, ◌+◌, ◌/◌, ◌==◌, ◌||◌,
}
use menuvex_printer.Text.{◌<>◌}
use menuvex_printer.Text.Decimal.{is_digit}

-- [0-9a-fA-F]
unfoldable pub is_hex : Char → Bool
is_hex c =
    let n = code c in
    (leb b'0' n && leb n b'9') || (leb b'a' n && leb n b'f') || (leb b'A' n && leb n b'F')

-- n hexadecimal digits, then what `rest` accepts
unfoldable pub hex_run : ℕ → (String → Bool) → String → Bool
hex_run zero rest s = rest s
hex_run (suc n) rest [] = false
hex_run (suc n) rest (c ∷ s) = is_hex c && hex_run n rest s

unfoldable pub dash_then : (String → Bool) → String → Bool
dash_then rest [] = false
dash_then rest (c ∷ s) = (code c == b'-') && rest s

unfoldable pub at_end : String → Bool
at_end [] = true
at_end (c ∷ s) = false

-- uuidPattern: 8-4-4-4-12 hexadecimal digits
unfoldable pub is_uuid : String → Bool
unfolding hex_run dash_then at_end
is_uuid = hex_run 8 (
    dash_then
      (hex_run 4 (dash_then (hex_run 4 (dash_then (hex_run 4 (dash_then (hex_run 12 at_end))))))))

-- at least one and at most n digits, then what `rest` accepts
unfoldable pub digit_run : ℕ → Bool → (String → Bool) → String → Bool
unfolding is_digit
digit_run n some_read rest [] = some_read && rest []
digit_run zero some_read rest (c ∷ s) = some_read && rest (c ∷ s)
digit_run (suc n) some_read rest (c ∷ s) = elim (is_digit c) [
  | true ↦ digit_run n true rest s
  | false ↦ some_read && rest (c ∷ s)
]

unfoldable pub fraction : String → Bool
unfolding digit_run at_end
fraction [] = true
fraction (c ∷ s) = (code c == b'.') && digit_run 4 false at_end s

-- decimalPattern: 1 to 15 digits, and a dot with 1 to 4 digits if there is one
unfoldable pub is_decimal : String → Bool
unfolding digit_run fraction
is_decimal = digit_run 15 false fraction

unfoldable pub hex_char : ℕ → Char
hex_char d = char_at "0123456789abcdef" d

-- One byte of hex.EncodeToString, before the text s
unfoldable pub hex_byte : ℕ → String → String
hex_byte b s = hex_char (b / 16) ∷ hex_char (b % 16) ∷ s

-- UUID() on the sixteen bytes b 0 to b 15 that rand.Read gives. (x & 15) | 64 and (x & 63) | 128 set the
-- version and the variant.
unfoldable pub uuid_of : (ℕ → ℕ) → String
unfolding hex_byte ◌<>◌
uuid_of b = hex_byte (b 0) (
    hex_byte (b 1) (
      hex_byte (b 2) (
        hex_byte (b 3) (
          "-"
          <> hex_byte (b 4) (
              hex_byte (b 5) (
                "-"
                <> hex_byte (b 6 % 16 + 64) (
                    hex_byte (b 7) (
                      "-"
                      <> hex_byte (b 8 % 64 + 128) (
                          hex_byte (b 9) (
                            "-"
                            <> hex_byte (b 10) (
                                hex_byte (b 11) (
                                  hex_byte (b 12) (
                                    hex_byte (b 13)
                                      (hex_byte (b 14) (hex_byte (b 15) [])))))))))))))))
