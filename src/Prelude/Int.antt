-- ===== src/Prelude/Int.antt =====
-- Go's `int`, where the code takes a negative one: an integer, read by its sign.
use Prim.Native.Nat.{ℕ}

-- `negsuc n` is -(n + 1).
pub data ℤ : Type 0 where
  pos : ℕ → ℤ
  negsuc : ℕ → ℤ

-- A length or a count, with negative ones taken for 0.
abbrev pub clamp : ℤ → ℕ
clamp (pos n) = n
clamp (negsuc n) = 0
