-- ===== src/Base/Int.antt =====
-- The integers that a program's numbers take, over the native natural numbers.
use Prim.Native.Nat.{ℕ, ◌+◌, ◌-◌, suc}
use mathlib.Core.Bool.{Bool, true, false}
use express_nest_blueprint.Base.Tests.{ltb, ◌==◌}

-- `negsuc n` is -(n + 1).
pub data ℤ : Type 0 where
  pos : ℕ → ℤ
  negsuc : ℕ → ℤ

-- `Math.max(0, limit - z)`.
abbrev pub room_below : ℕ → ℤ → ℕ
room_below limit (pos n) = limit - n
room_below limit (negsuc n) = limit + suc n

-- `z > limit`.
abbrev pub exceeds : ℤ → ℕ → Bool
exceeds (pos n) limit = ltb limit n
exceeds (negsuc n) limit = false

-- `z === n`.
abbrev pub is_nat : ℤ → ℕ → Bool
is_nat (pos m) n = m == n
is_nat (negsuc m) n = false

-- `z <= 0`.
abbrev pub is_non_positive : ℤ → Bool
is_non_positive (pos n) = n == 0
is_non_positive (negsuc n) = true
