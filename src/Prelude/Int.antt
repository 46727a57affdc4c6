-- ===== src/Prelude/Int.antt =====
-- Signed integers over the native numbers: gauges, and the value that a bit pattern stands for.
use agreements_generator_api.Prelude.Tests.{ltb, if◌then◌else◌}
use Prim.Native.Nat.{ℕ, zero, suc, ◌-◌, ◌^◌}
use mathlib.Core.Path.{◌≡◌, refl}

-- `negsuc n` is -(n + 1).
pub data ℤ : Type 0 where
  pos : ℕ → ℤ
  negsuc : ℕ → ℤ

-- Adding and subtracting one.
unfoldable pub inc : ℤ → ℤ
inc (pos n) = pos (suc n)
inc (negsuc zero) = pos zero
inc (negsuc (suc n)) = negsuc n

unfoldable pub dec : ℤ → ℤ
dec (pos zero) = negsuc zero
dec (pos (suc n)) = pos n
dec (negsuc n) = negsuc (suc n)

pub dec-inc : (z : ℤ) → dec (inc z) ≡ z
unfolding dec inc
dec-inc (pos n) = refl
dec-inc (negsuc zero) = refl
dec-inc (negsuc (suc n)) = refl

-- The integer that the low `w` bits `x` stand for in two's complement, for `w = suc h`.
unfoldable pub signed : ℕ → ℕ → ℤ
signed h x = if ltb x (2 ^ h) then pos x else negsuc (2 ^ suc h - 1 - x)
