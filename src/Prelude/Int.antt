-- ===== src/Prelude/Int.antt =====
-- Python's signed integers; `negsuc n` is -(n + 1).
use Prim.Native.Nat.{ℕ, zero, suc, ◌^◌, ◌<◌}

pub data ℤ : Type 0 where
  pos : ℕ → ℤ
  negsuc : ℕ → ℤ

abbrev pub negate : ℕ → ℤ
negate zero = pos zero
negate (suc n) = negsuc n

-- The integers that a 32-bit unsigned field holds.
abbrev pub IsU32 : ℤ → Type 0
IsU32 (pos n) = n < 2 ^ 32
IsU32 (negsuc n) = ⊥
