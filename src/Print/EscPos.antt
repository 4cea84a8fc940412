-- ===== src/Print/EscPos.antt =====
-- The bytes that a printer gets: buildESCPos of offline-menuvex/printing.go.
use Prim.Native.Char.{code}
use menuvex_printer.Prelude.{
  Bool, List, String, [], if◌then◌else◌, ltb, replicate, str_eq, ℕ, ◌%◌, ◌++◌, ◌+◌, ◌/◌, ◌||◌, ◌∷◌,
}

pub record ReceiptLine : Type 0 where
  pub text : String
  pub bold : Bool
  pub center : Bool
  pub big : Bool
  pub feed : Bool
  pub solid : Bool

-- A code point in UTF-8
unfoldable pub utf8_char : ℕ → List ℕ
utf8_char n =
    let low = 0x80 + n % 64 in
    let mid = 0x80 + (n / 64) % 64 in
    let high = 0x80 + (n / 4096) % 64 in
    if ltb n 0x80
    then n ∷ []
    else if ltb n 0x800
    then (0xC0 + n / 64) ∷ low ∷ []
    else if ltb n 0x10000
    then (0xE0 + n / 4096) ∷ mid ∷ low ∷ []
    else (0xF0 + n / 262144) ∷ high ∷ mid ∷ low ∷ []

unfoldable pub text_bytes : String → List ℕ
unfolding utf8_char
text_bytes String.[] = []
text_bytes (String.◌∷◌ c s) = utf8_char (code c) ++ text_bytes s

abbrev pub bool_byte : Bool → ℕ
bool_byte b = if b then 1 else 0

abbrev pub paper_chars : String → ℕ
paper_chars paper_width = if str_eq paper_width "58mm" then 32 else 48

abbrev pub only_if : Bool → List ℕ → List ℕ
only_if b bytes = if b then bytes else []

unfoldable pub line_bytes : String → ReceiptLine → List ℕ
unfolding text_bytes
line_bytes paper_width ln =
    if ln.feed || ln.solid
    then replicate (paper_chars paper_width) (if ln.solid then 61 else 45) ++ (10 ∷ [])
    else (0x1B ∷ 0x61 ∷ bool_byte ln.center ∷ [])
      ++ (only_if ln.bold (0x1B ∷ 0x45 ∷ 1 ∷ [])
          ++ (only_if ln.big (0x1D ∷ 0x21 ∷ 0x11 ∷ [])
              ++ (text_bytes ln.text
                  ++ (only_if ln.big (0x1D ∷ 0x21 ∷ 0 ∷ [])
                      ++ (only_if ln.bold (0x1B ∷ 0x45 ∷ 0 ∷ []) ++ (0x1B ∷ 0x61 ∷ 0 ∷ 10 ∷ []))))))

unfoldable pub lines_bytes : String → List ReceiptLine → List ℕ
unfolding line_bytes
lines_bytes paper_width [] = []
lines_bytes paper_width (ln ∷ lns) = line_bytes paper_width ln ++ lines_bytes paper_width lns

-- buildESCPos: the printer is reset first, and the paper is fed and cut at the end.
unfoldable pub build_esc_pos : List ReceiptLine → String → List ℕ
unfolding lines_bytes
build_esc_pos lns paper_width =
    (0x1B ∷ 0x40 ∷ [])
    ++ (lines_bytes paper_width lns ++ (0x1B ∷ 0x64 ∷ 3 ∷ 0x1D ∷ 0x56 ∷ 0x42 ∷ 0 ∷ []))
