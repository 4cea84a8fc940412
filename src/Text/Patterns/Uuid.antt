-- ===== src/Text/Patterns/Uuid.antt =====
-- Every identifier that UUID() makes is one that the program accepts.
use menuvex_printer.Prelude.{Bool, arith, refl, suc, true, zero, ℕ, ◌%◌, ◌&&◌, ◌+◌, ◌/◌, ◌<◌, ◌≡◌}
use menuvex_printer.Text.Patterns.{hex_char, is_hex, is_uuid, uuid_of}

all_hex : ℕ → Bool
all_hex zero = true
all_hex (suc n) = is_hex (hex_char n) && all_hex n

all_hex-at : (n d : ℕ) → all_hex n ≡ true → d < n → is_hex (hex_char d) ≡ true
unfolding all_hex
all_hex-at zero d h lt = elim lt [ ]
all_hex-at (suc n) d h lt = ground (arith, all_hex-at n d)

all_hex_16 : all_hex 16 ≡ true
unfolding all_hex is_hex hex_char
all_hex_16 = refl

hex_digits :
    (b : ℕ) → b < 256 → (is_hex (hex_char (b / 16)) ≡ true) × (is_hex (hex_char (b % 16)) ≡ true)
hex_digits b h = (
  all_hex-at 16 (b / 16) all_hex_16 (omega arith),
  all_hex-at 16 (b % 16) all_hex_16 (omega arith),
)

-- Every string that UUID() makes of sixteen bytes matches uuidPattern.
pub is_uuid-uuid_of : (b : ℕ → ℕ) → ((i : ℕ) → b i < 256) → is_uuid (uuid_of b) ≡ true
unfolding is_uuid uuid_of
is_uuid-uuid_of b h = simp (
  (hex_digits (b 0) (h 0)).0,
  (hex_digits (b 0) (h 0)).1,
  (hex_digits (b 1) (h 1)).0,
  (hex_digits (b 1) (h 1)).1,
  (hex_digits (b 2) (h 2)).0,
  (hex_digits (b 2) (h 2)).1,
  (hex_digits (b 3) (h 3)).0,
  (hex_digits (b 3) (h 3)).1,
  (hex_digits (b 4) (h 4)).0,
  (hex_digits (b 4) (h 4)).1,
  (hex_digits (b 5) (h 5)).0,
  (hex_digits (b 5) (h 5)).1,
  (hex_digits (b 6 % 16 + 64) (omega arith)).0,
  (hex_digits (b 6 % 16 + 64) (omega arith)).1,
  (hex_digits (b 7) (h 7)).0,
  (hex_digits (b 7) (h 7)).1,
  (hex_digits (b 8 % 64 + 128) (omega arith)).0,
  (hex_digits (b 8 % 64 + 128) (omega arith)).1,
  (hex_digits (b 9) (h 9)).0,
  (hex_digits (b 9) (h 9)).1,
  (hex_digits (b 10) (h 10)).0,
  (hex_digits (b 10) (h 10)).1,
  (hex_digits (b 11) (h 11)).0,
  (hex_digits (b 11) (h 11)).1,
  (hex_digits (b 12) (h 12)).0,
  (hex_digits (b 12) (h 12)).1,
  (hex_digits (b 13) (h 13)).0,
  (hex_digits (b 13) (h 13)).1,
  (hex_digits (b 14) (h 14)).0,
  (hex_digits (b 14) (h 14)).1,
  (hex_digits (b 15) (h 15)).0,
  (hex_digits (b 15) (h 15)).1,
)
