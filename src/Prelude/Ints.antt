-- ===== src/Prelude/Ints.antt =====
-- Signed numbers over the native ones, under the library's names: `negsuc n` is one less than minus `n`.
use Prim.Native.Nat.{ℕ}

pub data ℤ : Type 0 where
  pos negsuc : ℕ → ℤ
