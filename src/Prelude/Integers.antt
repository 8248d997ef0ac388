-- ===== src/Prelude/Integers.antt =====
-- Signed integers, i64 of the source, over the native numbers: their sums are not wrapped.
use Prim.Native.Nat.{ℕ, zero, suc, ◌+◌, ◌-◌, ◌/◌}
use mathlib.Core.Bool.{Bool, true, false}
use postgres_restore_operato.Prelude.Tests.{ltb, if◌then◌else◌}

-- `negsuc n` is `-(n + 1)`.
pub data ℤ : Type 0 where
  pos : ℕ → ℤ
  negsuc : ℕ → ℤ

infixl 60 ◌+ℤ◌
abbrev negative : ℕ → ℤ
negative zero = pos 0
negative (suc n) = negsuc n

-- `m - (n + 1)`.
abbrev below : ℕ → ℕ → ℤ
below m n = if ltb n m then pos (m - suc n) else negsuc (n - m)

unfoldable pub ◌+ℤ◌ : ℤ → ℤ → ℤ
pos m +ℤ pos n = pos (m + n)
pos m +ℤ negsuc n = below m n
negsuc m +ℤ pos n = below n m
negsuc m +ℤ negsuc n = negsuc (suc (m + n))

-- The division of i64, which truncates towards zero.
unfoldable pub quotient : ℤ → ℕ → ℤ
quotient (pos m) n = pos (m / n)
quotient (negsuc m) n = negative (suc m / n)

abbrev pub is_natural : ℤ → Bool
is_natural (pos n) = true
is_natural (negsuc n) = false
