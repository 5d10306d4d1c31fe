-- ===== src/Base/Decimal.antt =====
-- Numbers in decimal, as `format!("{n}")` writes an unsigned word.
use Prim.Native.Nat.{ℕ, zero, suc, ◌+◌, ◌/◌, ◌%◌}
use mathlib.Core.List.{[], ◌∷◌}
use mathlib.Core.Bool.{true, false}
use metri_engine.Base.Tests.{Text, ltb}

-- the digits of `n` before those of `rest`; 20 digits are enough for 64 bits
abbrev digits_before : ℕ → ℕ → Text → Text
digits_before zero n rest = rest
digits_before (suc fuel) n rest = elim (ltb n 10) [
  | true ↦ (48 + n) ∷ rest
  | false ↦ digits_before fuel (n / 10) ((48 + n % 10) ∷ rest)
]

abbrev pub decimal : ℕ → Text
decimal n = digits_before 20 n []
