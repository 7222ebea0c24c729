-- ===== src/Prelude/Show.antt =====
-- Decimal digits, as `str` prints an int.
use Prim.Native.Nat.{ℕ, zero, suc, ◌+◌, ◌/◌, ◌%◌, ◌<◌}
use mathlib.Core.Path.{◌≡◌, refl}
use mathlib.Core.List.{[], ◌∷◌, ◌++◌}
use native.Mathlib.Omega.{arith}
use auto_scheduling_system.Prelude.Tests.{ltb, if◌then◌else◌}
use auto_scheduling_system.Prelude.Texts.{Text, codes}

show_digits : ℕ → ℕ → Text
show_digits zero n = []
show_digits (suc fuel) n =
    let rest = show_digits fuel (n / 10) ++ (b'0' + n % 10) ∷ [] in
    if ltb n 10 then (b'0' + n) ∷ [] else rest

-- A number has at most as many digits as its value and one.
unfoldable pub show_nat : ℕ → Text
unfolding show_digits
show_nat n = show_digits (n + 1) n

-- More fuel changes nothing.
show_digits_enough : (f g n : ℕ) → n < f → n < g → show_digits f n ≡ show_digits g n
unfolding show_digits
show_digits_enough zero g n h k = elim h [ ]
show_digits_enough (suc f) zero n h k = elim k [ ]
show_digits_enough (suc f) (suc g) n h k = ground (arith, show_digits_enough f g (n / 10))

show_nat_runs : show_nat 1070 ≡ codes "1070"
unfolding show_nat
show_nat_runs = refl
