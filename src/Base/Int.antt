-- ===== src/Base/Int.antt =====
-- Signed integers over the native numbers. The code uses them for core numbers alone: -1 is BRISC.
use Prim.Native.Nat.{ℕ}

-- `negsuc n` is -(n + 1).
pub data ℤ : Type 0 where
  pos : ℕ → ℤ
  negsuc : ℕ → ℤ
