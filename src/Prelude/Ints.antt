-- ===== src/Prelude/Ints.antt =====
-- Signed numbers over the native ones, under the library's names.
use Prim.Native.Nat.{ℕ}

-- `negsuc n` is -1 - n
pub data ℤ : Type 0 where
  pos : ℕ → ℤ
  negsuc : ℕ → ℤ
