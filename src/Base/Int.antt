-- ===== src/Base/Int.antt =====
-- Integers over the native numbers, as the values of JSON.
use Prim.Native.Nat.{ℕ}

-- `negsuc n` is -(n + 1).
pub data ℤ : Type 0 where
  pos : ℕ → ℤ
  negsuc : ℕ → ℤ
