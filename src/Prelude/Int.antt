-- ===== src/Prelude/Int.antt =====
-- Go's signed integers: the integers, and the int64 that a product wraps to.
use Prim.Native.Nat.{ℕ, zero, suc, ◌-◌, ◌*◌, ◌%◌, ◌^◌, ◌≤◌, ◌<◌}
use mathlib.Core.Path.{◌≡◌}
use mathlib.Core.Logic.{◌≢◌}
use mathlib.Core.Bool.{Bool, false}
use native.Mathlib.Omega.{arith}
use gorb.Prelude.Tests.{ltb, if◌then◌else◌}

-- `negsuc n` is -(n + 1).
pub data ℤ : Type 0 where
  pos : ℕ → ℤ
  negsuc : ℕ → ℤ

abbrev pub neg : ℕ → ℤ
neg zero = pos 0
neg (suc n) = negsuc n

abbrev pub is_positive : ℤ → Bool
is_positive (pos n) = ltb 0 n
is_positive (negsuc n) = false

-- The int64 with a given bit pattern.
unfoldable pub of_bits64 : ℕ → ℤ
of_bits64 p = if ltb p (2 ^ 63) then pos p else negsuc (2 ^ 64 - p - 1)

-- `int64(a) * int64(b)` for a factor `b` that is not negative
unfoldable pub mul64 : ℤ → ℕ → ℤ
unfolding of_bits64
mul64 (pos a) b = of_bits64 ((a * b) % 2 ^ 64)
mul64 (negsuc a) b = of_bits64 ((2 ^ 64 - ((suc a) * b) % 2 ^ 64) % 2 ^ 64)

pub mul64-pos : (a b : ℕ) → a * b < 2 ^ 63 → mul64 (pos a) b ≡ pos (a * b)
unfolding mul64
mul64-pos a b h = ground arith

-- A product that does not fit is not what multiplication gives.
pub mul64_overflow : (a b : ℕ) → 2 ^ 63 ≤ a * b → mul64 (pos a) b ≢ pos (a * b)
unfolding mul64
mul64_overflow a b h e = ground arith
