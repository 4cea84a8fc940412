-- ===== src/Text/Decimal/Wrap.antt =====
-- Arithmetic on int64 stays in its range, and keeps what is in it.
use menuvex_printer.Prelude.{arith, true, ◌≡◌}
use menuvex_printer.Prelude.Int.{negsuc, pos, ℤ}
use menuvex_printer.Text.Decimal.{in_int64, wrap_int64}

pub wrap_int64-in_int64 : (z : ℤ) → in_int64 (wrap_int64 z) ≡ true
unfolding wrap_int64
wrap_int64-in_int64 (pos n) = ground arith
wrap_int64-in_int64 (negsuc n) = ground arith

pub wrap_int64_keeps : (z : ℤ) → in_int64 z ≡ true → wrap_int64 z ≡ z
unfolding wrap_int64
wrap_int64_keeps (pos n) h = ground arith
wrap_int64_keeps (negsuc n) h = ground arith
