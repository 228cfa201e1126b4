-- ===== src/Prelude/Int.antt =====
-- The results of functions that return an `int` which may be negative.
use Prim.Native.Nat.{ℕ}

-- `negsuc n` is -(n + 1).
pub data ℤ : Type 0 where
  pos : ℕ → ℤ
  negsuc : ℕ → ℤ

-- The error result of the functions that build a TLV.
abbrev pub minus_one : ℤ
minus_one = negsuc 0
