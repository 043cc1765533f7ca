-- ===== src/Prelude/Int.antt =====
-- Go's signed integers: `negsuc n` is -(n + 1).
use Prim.Native.Nat.{ℕ, zero, suc}

pub data ℤ : Type 0 where
  pos : ℕ → ℤ
  negsuc : ℕ → ℤ

-- `if v <= 0 { v = default }`
abbrev pub pos_or : ℕ → ℤ → ℕ
pos_or default (pos zero) = default
pos_or default (pos (suc n)) = suc n
pos_or default (negsuc n) = default
