-- ===== src/Base/Bits.antt =====
-- `^` and `|` of numbers that are put together from digits to the base 256.
use Prim.Native.Nat.{
  ℕ, zero, suc, ◌+◌, ◌*◌, ◌/◌, ◌%◌, ◌≤◌, ◌<◌, max, bit_xor, bit_or, differ, digits, bitwise,
  bit_xor-bitwise, bit_or-bitwise,
}
use mathlib.Core.Path.{◌≡◌, refl, sym, ◌∙◌}
use mathlib.Core.Bool.{true, ◌&&◌}
use native.Mathlib.Omega.{arith}
use nbio.Base.Tests.{ltb, ◌==◌, all_below, all_below_sound, ==_iff}

-- An operation on binary digits, with fuel of at least the first number, does not see the fuel.
module _ (z : ℕ → ℕ) (f : ℕ → ℕ → ℕ) where
  enough : (n m a b : ℕ) → a ≤ n → a ≤ m → digits z f n a b ≡ digits z f m a b
  enough n m zero b p q = none_left n ∙ sym (none_left m)
    where
      none_left : (k : ℕ) → digits z f k 0 b ≡ z b
      none_left zero = refl
      none_left (suc k) = refl
  enough zero m (suc a) b p q = absurd (omega arith)
  enough (suc n) zero (suc a) b p q = absurd (omega arith)
  enough (suc n) (suc m) (suc a) b p q =
      rw (enough n m (suc a / 2) (b / 2) (omega arith) (omega arith))

  lowest :
      (a b : ℕ)
      → bitwise z f (suc a) b ≡ bitwise z f (suc a / 2) (b / 2) * 2 + f (suc a % 2) (b % 2)
  lowest a b = omega (arith, enough a (suc a / 2) (suc a / 2) (b / 2) (omega arith) (omega arith))

xor_last : (x y : ℕ) → bit_xor x y ≡ bit_xor (x / 2) (y / 2) * 2 + differ (x % 2) (y % 2)
xor_last zero y = simp bit_xor-bitwise (omega arith)
xor_last (suc x) y = simp bit_xor-bitwise (lowest (λ t. t) differ x y)

or_last : (x y : ℕ) → bit_or x y ≡ bit_or (x / 2) (y / 2) * 2 + max (x % 2) (y % 2)
or_last zero y = simp bit_or-bitwise (omega arith)
or_last (suc x) y = simp bit_or-bitwise (lowest (λ t. t) max x y)

-- The digits below M and those from M on do not meet.
abbrev Splits : (ℕ → ℕ → ℕ) → ℕ → Type 0
Splits op m = (a b x y : ℕ) → a < m → b < m → op (a + m * x) (b + m * y) ≡ op a b + m * op x y

module _ (op digit : ℕ → ℕ → ℕ)
    (step : (a b : ℕ) → op a b ≡ op (a / 2) (b / 2) * 2 + digit (a % 2) (b % 2)) where
  Splits-one : op 0 0 ≡ 0 → Splits op 1
  Splits-one e a b x y h k =
      let a0 : a ≡ 0 = omega arith in
      let b0 : b ≡ 0 = omega arith in
      let ax : a + 1 * x ≡ x = omega arith in
      let by : b + 1 * y ≡ y = omega arith in rw (ax, by, a0, b0, e) (omega arith)

  Splits-double : (m : ℕ) → Splits op m → Splits op (2 * m)
  Splits-double m ih a b x y h k =
      let a_half : (a + 2 * m * x) / 2 ≡ a / 2 + m * x = omega arith in
      let b_half : (b + 2 * m * y) / 2 ≡ b / 2 + m * y = omega arith in
      let a_last : (a + 2 * m * x) % 2 ≡ a % 2 = omega arith in
      let b_last : (b + 2 * m * y) % 2 ≡ b % 2 = omega arith in
      step (a + 2 * m * x) (b + 2 * m * y)
      ∙ rw (a_half, b_half, a_last, b_last, ih (a / 2) (b / 2) x y (omega arith) (omega arith))
          (omega (arith, step a b))

  -- Eight times from one digit to none.
  Splits-byte : op 0 0 ≡ 0 → Splits op 256
  Splits-byte e = Splits-double 128 (
      Splits-double 64 (
        Splits-double 32 (
          Splits-double 16 (
            Splits-double 8 (Splits-double 4 (Splits-double 2 (Splits-double 1 (Splits-one e))))))))

-- The lowest byte by itself, the others by themselves.
pub bit_xor_byte :
    (a b x y : ℕ)
    → a < 256
    → b < 256
    → bit_xor (a + 256 * x) (b + 256 * y) ≡ bit_xor a b + 256 * bit_xor x y
bit_xor_byte = Splits-byte bit_xor differ xor_last refl

pub bit_or_byte :
    (a b x y : ℕ)
    → a < 256
    → b < 256
    → bit_or (a + 256 * x) (b + 256 * y) ≡ bit_or a b + 256 * bit_or x y
bit_or_byte = Splits-byte bit_or max or_last refl

pub zero-bit_or : (b : ℕ) → bit_or 0 b ≡ b
zero-bit_or b = simp bit_or-bitwise

-- Every byte: `^` stays below 256, `^` twice is nothing, and `|` with zero is nothing.
xor_table :
    all_below 256 (λ a. all_below 256 (λ k. ltb (bit_xor a k) 256 && bit_xor (bit_xor a k) k == a))
    ≡ true
unfolding all_below
xor_table = refl

or_table : all_below 256 (λ a. bit_or a 0 == a) ≡ true
unfolding all_below
or_table = refl

pub bit_xor_bounds :
    (a k : ℕ) → a < 256 → k < 256 → (bit_xor a k < 256) × (bit_xor (bit_xor a k) k ≡ a)
bit_xor_bounds a k h l =
    let row = all_below_sound 256 _ a xor_table h in
    let cell = all_below_sound 256 _ k row l in ground arith

pub bit_or-zero_byte : (a : ℕ) → a < 256 → bit_or a 0 ≡ a
bit_or-zero_byte a h = (==_iff _ a).0 (all_below_sound 256 _ a or_table h)
