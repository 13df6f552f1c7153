-- ===== src/Prelude/Int.antt =====
-- Python's int, over the native numbers.
use Prim.Native.Nat.{ℕ, ◌+◌, ◌-◌, min, max}
use mathlib.Core.Bool.{Bool, false}
use pr_sentinel.Prelude.Tests.{◌==◌}

-- `negsuc n` is -(n + 1).
pub data ℤ : Type 0 where
  pos negsuc : ℕ → ℤ

unfoldable pub int_eq : ℤ → ℤ → Bool
int_eq (pos a) (pos b) = a == b
int_eq (negsuc a) (negsuc b) = a == b
int_eq _ _ = false

-- abs(n - a)
abbrev pub distance : ℕ → ℤ → ℕ
distance n (pos m) = (n - m) + (m - n)
distance n (negsuc m) = n + m + 1

-- max(lo, min(a, hi))
abbrev pub clamp : ℕ → ℕ → ℤ → ℕ
clamp lo hi (pos a) = max lo (min a hi)
clamp lo hi (negsuc a) = lo
