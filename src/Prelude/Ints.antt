-- ===== src/Prelude/Ints.antt =====
-- The integers, over the native numbers.
use Prim.Native.Nat.{ℕ, zero, suc, ◌+◌}

pub data ℤ : Type 0 where
  pos negsuc : ℕ → ℤ

-- a - b
abbrev pub minus : ℕ → ℕ → ℤ
minus a zero = pos a
minus zero (suc b) = negsuc b
minus (suc a) (suc b) = minus a b

infixl 65 ◌+ℤ◌
abbrev pub ◌+ℤ◌ : ℤ → ℤ → ℤ
pos a +ℤ pos b = pos (a + b)
pos a +ℤ negsuc b = minus a (suc b)
negsuc a +ℤ pos b = minus b (suc a)
negsuc a +ℤ negsuc b = negsuc (suc (a + b))
