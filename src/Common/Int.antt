-- ===== src/Common/Int.antt =====
-- Go's `int`, as an integer; no arithmetic of the code that is modelled over it can overflow.
use Prim.Native.Nat.{ℕ}

-- `negsuc n` is -(n + 1).
pub data ℤ : Type 0 where
  pos : ℕ → ℤ
  negsuc : ℕ → ℤ
