-- ===== src/Prelude/Ceil.antt =====
-- Python's `-(-n // d)`: division of naturals rounded up.
use Prim.Native.Nat.{ℕ, ◌+◌, ◌*◌, ◌/◌, ◌%◌, ◌≤◌, ◌<◌}
use native.Mathlib.Omega.{arith}
use pignus.Prelude.Tests.{◌==◌, if◌then◌else◌}

unfoldable pub ceil_div : ℕ → ℕ → ℕ
ceil_div n d = if n % d == 0 then n / d else n / d + 1

-- The quotient covers `n`.
pub ceil_div_covers : (n d : ℕ) → 1 ≤ d → n ≤ ceil_div n d * d
unfolding ceil_div
ceil_div_covers n d h = grind arith

-- One less does not.
pub ceil_div_tight : (n d : ℕ) → 1 ≤ d → ceil_div n d * d < n + d
unfolding ceil_div
ceil_div_tight n d h = grind arith

-- It is the least that covers.
pub ceil_div_least : (n d q : ℕ) → 1 ≤ d → n ≤ q * d → ceil_div n d ≤ q
ceil_div_least n d q h c = grind (arith, ceil_div_tight n d h)

-- What one less than covers is at most it.
pub ceil_div_greatest : (n d q : ℕ) → 1 ≤ d → q * d < n + d → q ≤ ceil_div n d
ceil_div_greatest n d q h c = grind (arith, ceil_div_covers n d h)
