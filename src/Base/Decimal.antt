-- ===== src/Base/Decimal.antt =====
-- A natural number in decimal, as a template literal prints it.
use Prim.Native.Nat.{ℕ, zero, suc, ◌+◌, ◌/◌, ◌%◌}
use mathlib.Core.Bool.{true, false}
use mathlib.Core.List.{[], ◌∷◌}
use xevos.Base.Tests.{ltb}
use xevos.Base.Texts.{Text}

-- Digits from the right; the fuel is above the number of digits.
unfoldable pub digits : ℕ → ℕ → Text → Text
digits zero n acc = acc
digits (suc fuel) n acc = elim (ltb n 10) [
  | true ↦ (48 + n) ∷ acc
  | false ↦ digits fuel (n / 10) ((48 + n % 10) ∷ acc)
]

unfoldable pub show_number : ℕ → Text
unfolding digits
show_number n = digits (suc n) n []
