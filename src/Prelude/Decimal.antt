-- ===== src/Prelude/Decimal.antt =====
-- Decimals of the database's `Numeric(18, 4)` columns, as the integer of their ten-thousandths.
use auto_scheduling_system.Prelude.Tests.{ltb, ◌==◌, if◌then◌else◌}
use auto_scheduling_system.Prelude.Int.{ℤ, pos, negsuc}
use Prim.Native.Nat.{ℕ, ◌+◌, ◌-◌, ◌*◌, ◌/◌}
use mathlib.Core.Bool.{Bool, false}

abbrev pub Decimal : Type 0
Decimal = ℤ

-- `Decimal(n)`
abbrev pub decimal : ℕ → Decimal
decimal n = pos (n * 10000)

-- `Decimal("-1")`
abbrev pub minus_one : Decimal
minus_one = negsuc 9999

-- `int(d)`, which rounds towards zero.
unfoldable pub to_int : Decimal → ℤ
to_int (pos n) = pos (n / 10000)
to_int (negsuc n) = if ltb n 9999 then pos 0 else negsuc ((n + 1) / 10000 - 1)

-- `d` is falsy.
abbrev pub is_zero : Decimal → Bool
is_zero (pos n) = n == 0
is_zero (negsuc n) = false

abbrev pub equal_ℤ : ℤ → ℤ → Bool
equal_ℤ (pos a) (pos b) = a == b
equal_ℤ (negsuc a) (negsuc b) = a == b
equal_ℤ (pos _) (negsuc _) = false
equal_ℤ (negsuc _) (pos _) = false
