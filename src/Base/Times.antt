-- ===== src/Base/Times.antt =====
-- How often a number stands in a list, and lists from which one element is taken, wherever it stands.
use nbio.Base.Lists.{length, length-append}
use nbio.Base.Tests.{◌==◌, if◌then◌else◌}
use Prim.Native.Nat.{ℕ, ◌+◌}
use mathlib.Core.Path.{◌≡◌, ap}
use mathlib.Core.List.{List, [], ◌∷◌, ◌++◌}
use native.Mathlib.Omega.{arith}

abbrev pub one : ℕ → ℕ → ℕ
one f g = if g == f then 1 else 0

unfoldable pub times : ℕ → List ℕ → ℕ
times f [] = 0
times f (g ∷ gs) = one f g + times f gs

pub times-append : (f : ℕ) (xs ys : List ℕ) → times f (xs ++ ys) ≡ times f xs + times f ys
unfolding times
times-append f [] ys = omega arith
times-append f (x ∷ xs) ys = omega (arith, times-append f xs ys)

pub times_split :
    (f : ℕ) (l xs ys : List ℕ) (g : ℕ) → l ≡ xs ++ g ∷ ys → times f l ≡ one f g + times f (xs ++ ys)
unfolding times
times_split f l xs ys g e =
    omega (arith, ap (times f) e, times-append f xs (g ∷ ys), times-append f xs ys)

pub length_split : (l xs ys : List ℕ) (f : ℕ) → l ≡ xs ++ f ∷ ys → length l ≡ 1 + length (xs ++ ys)
length_split l xs ys f e =
    omega (arith, ap length e, length-append xs (f ∷ ys), length-append xs ys)

-- The sum of a weight over a list.
module _ {ℓ} {A : Type ℓ} (w : A → ℕ) where
  unfoldable pub sum : List A → ℕ
  sum [] = 0
  sum (a ∷ l) = w a + sum l

  pub sum-append : (xs ys : List A) → sum (xs ++ ys) ≡ sum xs + sum ys
  unfolding sum
  sum-append [] ys = omega arith
  sum-append (x ∷ xs) ys = omega (arith, sum-append xs ys)

  -- One element of a list is replaced.
  pub sum_replace :
      (l xs ys : List A) (a b : A) → l ≡ xs ++ a ∷ ys → sum l + w b ≡ sum (xs ++ b ∷ ys) + w a
  unfolding sum
  sum_replace l xs ys a b e =
      omega (arith, ap sum e, sum-append xs (a ∷ ys), sum-append xs (b ∷ ys))

  -- One element of a list is taken.
  pub sum_take : (l xs ys : List A) (a : A) → l ≡ xs ++ a ∷ ys → sum l ≡ w a + sum (xs ++ ys)
  unfolding sum
  sum_take l xs ys a e = omega (arith, ap sum e, sum-append xs (a ∷ ys), sum-append xs ys)
