-- ===== src/Base/Int.antt =====
-- Signed integers, for `i64` and `i128` times: `negsuc n` is -(n + 1).
use Prim.Native.Nat.{ℕ, suc, ◌+◌, ◌/◌, ◌≤◌}
use mathlib.Core.Bool.{Bool}
use enclavia.Base.Tests.{leb}

pub data ℤ : Type 0 where
  pos : ℕ → ℤ
  negsuc : ℕ → ℤ

abbrev pub pos_part : ℤ → ℕ
pos_part (pos n) = n
pos_part (negsuc n) = 0

abbrev pub neg_part : ℤ → ℕ
neg_part (pos n) = 0
neg_part (negsuc n) = suc n

-- a + n ≤ b + m
abbrev pub leb_plus : ℤ → ℕ → ℤ → ℕ → Bool
leb_plus a n b m = leb (pos_part a + neg_part b + n) (pos_part b + neg_part a + m)

-- a + n ≤ b + m, as an order.
abbrev pub LePlus : ℤ → ℕ → ℤ → ℕ → Type 0
LePlus a n b m = pos_part a + neg_part b + n ≤ pos_part b + neg_part a + m

-- The quotient by a positive number, rounded down.
abbrev pub div_floor : ℤ → ℕ → ℤ
div_floor (pos n) d = pos (n / d)
div_floor (negsuc n) d = negsuc (n / d)
