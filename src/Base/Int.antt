-- ===== src/Base/Int.antt =====
-- The signed integers that the parser's sizes range over; -1 stands for "none" in the code.
use Prim.Native.Nat.{ℕ, ◌<◌}
use mathlib.Core.Path.{◌≡◌}
use mathlib.Core.Bool.{Bool, true, false}
use native.Mathlib.Omega.{arith}
use nbio.Base.Tests.{ltb}

-- `negsuc n` is -(n + 1).
pub data ℤ : Type 0 where
  pos : ℕ → ℤ
  negsuc : ℕ → ℤ

abbrev pub minus_one : ℤ
minus_one = negsuc 0

-- `x < 0` and `x > 0`
abbrev pub is_neg : ℤ → Bool
is_neg (pos n) = false
is_neg (negsuc n) = true

abbrev pub is_pos : ℤ → Bool
is_pos (pos n) = ltb 0 n
is_pos (negsuc n) = false

-- The number that a slice bound reads; the code reaches it only with a positive value.
abbrev pub pos_part : ℤ → ℕ
pos_part (pos n) = n
pos_part (negsuc n) = 0

pub is_pos_lem : (z : ℤ) → is_pos z ≡ true → 0 < pos_part z
is_pos_lem (pos n) h = ground arith
is_pos_lem (negsuc n) h = cc
