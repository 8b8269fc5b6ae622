-- ===== src/Base/Ints.antt =====
-- Go's `int` where a value may be negative: the library's ℤ over the native numbers.
use Prim.Native.Nat.{ℕ, ◌≤◌}
use mathlib.Core.Bool.{Bool, true, false}
use outway.Base.Tests.{ltb, ◌==◌}

pub data ℤ : Type 0 where
  pos : ℕ → ℤ
  negsuc : ℕ → ℤ

abbrev pub below : ℤ → ℕ → Bool
below (pos a) b = ltb a b
below (negsuc a) b = true

abbrev pub above : ℤ → ℕ → Bool
above (pos a) b = ltb b a
above (negsuc a) b = false

abbrev pub is_zero : ℤ → Bool
is_zero (pos a) = a == 0
is_zero (negsuc a) = false

-- A number between two bounds, both included.
abbrev pub Between : ℕ → ℕ → ℤ → Type 0
Between lo hi (pos a) = (lo ≤ a) × (a ≤ hi)
Between lo hi (negsuc a) = ⊥

abbrev pub AtLeast : ℕ → ℤ → Type 0
AtLeast lo (pos a) = lo ≤ a
AtLeast lo (negsuc a) = ⊥
