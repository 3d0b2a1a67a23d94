-- ===== src/Prelude/Integers.antt =====
-- Signed integers over the native natural numbers, under the library's names.
use Prim.Native.Nat.{ℕ}

-- `pos n` is n, `negsuc n` is -(n + 1).
pub data ℤ : Type 0 where
  pos negsuc : ℕ → ℤ
