-- ===== src/Base/Word.antt =====
-- Go's int64 (and `int` on a 64-bit machine) as a bit pattern below 2 ^ 64 in two's complement.
use Prim.Native.Nat.{ℕ, ◌+◌, ◌-◌, ◌%◌, ◌^◌, ◌≤◌, ◌<◌}
use mathlib.Core.Path.{◌≡◌}
use mathlib.Core.Bool.{Bool}
use native.Mathlib.Omega.{arith}
use semantic_echo.Base.Tests.{ltb}

unfoldable pub add64 : ℕ → ℕ → ℕ
add64 a b = (a + b) % 2 ^ 64

unfoldable pub sub64 : ℕ → ℕ → ℕ
sub64 a b = (a + 2 ^ 64 - b) % 2 ^ 64

-- `a < b`, signed: the sign bit is flipped before the patterns are compared.
unfoldable pub lt64 : ℕ → ℕ → Bool
lt64 a b = ltb ((a + 2 ^ 63) % 2 ^ 64) ((b + 2 ^ 63) % 2 ^ 64)

pub add64_exact : (a b : ℕ) → a + b < 2 ^ 63 → add64 a b ≡ a + b
unfolding add64
add64_exact a b h = omega arith

pub sub64_exact : (a b : ℕ) → b ≤ a → a < 2 ^ 63 → sub64 a b ≡ a - b
unfolding sub64
sub64_exact a b h k = omega arith

pub lt64_exact : (a b : ℕ) → a < 2 ^ 63 → b < 2 ^ 63 → lt64 a b ≡ ltb a b
unfolding lt64
lt64_exact a b h k = ground arith
