-- ===== src/Base/Decimal.antt =====
-- `toString` of a natural number, in decimal.
use Prim.Native.Nat.{ℕ, zero, suc, ◌+◌, ◌/◌, ◌%◌}
use mathlib.Core.Bool.{true, false}
use mathlib.Core.List.{[], ◌∷◌, ◌++◌}
use connect_lib.Base.Tests.{ltb}
use connect_lib.Base.Text.{Text}

-- The digits of `n`, the last one outermost; a number has fewer digits than itself plus one.
unfoldable pub digits : ℕ → ℕ → Text
digits zero n = []
digits (suc fuel) n = elim (ltb n 10) [
  | true ↦ (48 + n) ∷ []
  | false ↦ digits fuel (n / 10) ++ (48 + n % 10) ∷ []
]

unfoldable pub decimal : ℕ → Text
decimal n = digits (suc n) n
