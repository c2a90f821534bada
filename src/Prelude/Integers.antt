-- ===== src/Prelude/Integers.antt =====
-- Integers over the native numbers, where a value may be negative.
use Prim.Native.Nat.{ℕ}
use mathlib.Core.Path.{◌≡◌}
use mathlib.Core.Bool.{Bool, true, false}
use native.Mathlib.Omega.{arith}
use ai_native_governed_data.Prelude.Tests.{◌==◌}

pub data ℤ : Type 0 where
  pos : ℕ → ℤ
  negsuc : ℕ → ℤ

-- `n == 0`
abbrev pub is_zero : ℤ → Bool
is_zero (pos n) = n == 0
is_zero (negsuc n) = false

pub is_zero-eq : (z : ℤ) → is_zero z ≡ true → z ≡ pos 0
is_zero-eq (pos n) h = ground arith
is_zero-eq (negsuc n) h = cc
