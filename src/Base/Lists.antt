-- ===== src/Base/Lists.antt =====
-- Lists measured and cut by native numbers, byte strings, and association lists.
use Prim.Native.Nat.{ℕ, zero, suc, ◌+◌, ◌-◌, ◌≤◌, ◌<◌, min}
use Prim.Native.Char.{code}
use Prim.Native.String.{String}
use mathlib.Core.Path.{◌≡◌, refl, sym, ap, ◌∙◌}
use mathlib.Core.Logic.{◌↔◌}
use mathlib.Core.Bool.{Bool, true, false, ◌&&◌}
use mathlib.Core.List.{List, [], ◌∷◌, ◌++◌}
use native.Mathlib.Omega.{arith}
use nbio.Base.Tests.{◌==◌}

module _ {ℓ} {A : Type ℓ} where
  abbrev pub length : List A → ℕ
  length [] = 0
  length (x ∷ xs) = suc (length xs)

  abbrev pub take : ℕ → List A → List A
  take zero xs = []
  take (suc n) [] = []
  take (suc n) (x ∷ xs) = x ∷ take n xs

  abbrev pub drop : ℕ → List A → List A
  drop zero xs = xs
  drop (suc n) [] = []
  drop (suc n) (x ∷ xs) = drop n xs

  abbrev pub get_or : List A → ℕ → A → A
  get_or [] i d = d
  get_or (x ∷ xs) zero d = x
  get_or (x ∷ xs) (suc i) d = get_or xs i d

  abbrev pub is_nil : List A → Bool
  is_nil [] = true
  is_nil (x ∷ xs) = false

  pub is_nil-eq : (xs : List A) → is_nil xs ≡ true → xs ≡ []
  is_nil-eq [] h = refl
  is_nil-eq (x ∷ xs) h = cc

  pub length-append : (xs ys : List A) → length (xs ++ ys) ≡ length xs + length ys
  length-append [] ys = omega arith
  length-append (x ∷ xs) ys = omega (arith, length-append xs ys)

  pub length-take : (n : ℕ) (xs : List A) → length (take n xs) ≡ min n (length xs)
  length-take zero xs = omega arith
  length-take (suc n) [] = omega arith
  length-take (suc n) (x ∷ xs) = omega (arith, length-take n xs)

  pub length-drop : (n : ℕ) (xs : List A) → length (drop n xs) ≡ length xs - n
  length-drop zero xs = omega arith
  length-drop (suc n) [] = omega arith
  length-drop (suc n) (x ∷ xs) = omega (arith, length-drop n xs)

  pub take-append-drop : (n : ℕ) (xs : List A) → take n xs ++ drop n xs ≡ xs
  take-append-drop zero xs = refl
  take-append-drop (suc n) [] = refl
  take-append-drop (suc n) (x ∷ xs) = rw (take-append-drop n xs)

  -- A cut inside the first of two pieces does not see the second.
  pub take-append_le : (n : ℕ) (xs ys : List A) → n ≤ length xs → take n (xs ++ ys) ≡ take n xs
  take-append_le zero xs ys h = refl
  take-append_le (suc n) [] ys h = absurd (omega arith)
  take-append_le (suc n) (x ∷ xs) ys h = rw (take-append_le n xs ys (omega arith))

  pub drop-append_le :
      (n : ℕ) (xs ys : List A) → n ≤ length xs → drop n (xs ++ ys) ≡ drop n xs ++ ys
  drop-append_le zero xs ys h = refl
  drop-append_le (suc n) [] ys h = absurd (omega arith)
  drop-append_le (suc n) (x ∷ xs) ys h = drop-append_le n xs ys (omega arith)

  pub drop_whole : (n : ℕ) (xs : List A) → length xs ≤ n → drop n xs ≡ []
  drop_whole zero [] h = refl
  drop_whole zero (x ∷ xs) h = absurd (omega arith)
  drop_whole (suc n) [] h = refl
  drop_whole (suc n) (x ∷ xs) h = drop_whole n xs (omega arith)

  pub take_whole : (n : ℕ) (xs : List A) → length xs ≤ n → take n xs ≡ xs
  take_whole zero [] h = refl
  take_whole zero (x ∷ xs) h = absurd (omega arith)
  take_whole (suc n) [] h = refl
  take_whole (suc n) (x ∷ xs) h = ap (λ t. x ∷ t) (take_whole n xs (omega arith))

  pub take-append_length : (xs ys : List A) → take (length xs) (xs ++ ys) ≡ xs
  take-append_length [] ys = refl
  take-append_length (x ∷ xs) ys = rw (take-append_length xs ys)

  pub drop-append_length : (xs ys : List A) → drop (length xs) (xs ++ ys) ≡ ys
  drop-append_length [] ys = refl
  drop-append_length (x ∷ xs) ys = drop-append_length xs ys

  pub drop_add : (m n : ℕ) (xs : List A) → drop (m + n) xs ≡ drop n (drop m xs)
  drop_add zero n xs = ap (λ k. drop k xs) (omega arith)
  drop_add (suc m) n [] = drop_nil (suc m + n) ∙ sym (drop_nil n)
    where
      drop_nil : (k : ℕ) → drop k [] ≡ []
      drop_nil zero = refl
      drop_nil (suc k) = refl
  drop_add (suc m) n (x ∷ xs) =
      let more : suc m + n ≡ suc (m + n) = omega arith in
      ap (λ k. drop k (x ∷ xs)) more ∙ drop_add m n xs

abbrev pub Bytes : Type 0
Bytes = List ℕ

abbrev pub IsBytes : Bytes → Type 0
IsBytes [] = Unit {0}
IsBytes (c ∷ cs) = (c < 256) × IsBytes cs

pub take-IsBytes : (n : ℕ) (xs : Bytes) → IsBytes xs → IsBytes (take n xs)
take-IsBytes zero xs h = tt
take-IsBytes (suc n) [] h = tt
take-IsBytes (suc n) (x ∷ xs) h = (h.0, take-IsBytes n xs h.1)

pub drop-IsBytes : (n : ℕ) (xs : Bytes) → IsBytes xs → IsBytes (drop n xs)
drop-IsBytes zero xs h = h
drop-IsBytes (suc n) [] h = tt
drop-IsBytes (suc n) (x ∷ xs) h = drop-IsBytes n xs h.1

pub append-IsBytes : (xs ys : Bytes) → IsBytes xs → IsBytes ys → IsBytes (xs ++ ys)
append-IsBytes [] ys h k = k
append-IsBytes (x ∷ xs) ys h k = (h.0, append-IsBytes xs ys h.1 k)

-- The code points of a text, which are its bytes where it is ASCII.
abbrev pub codes : String → Bytes
codes String.[] = []
codes (String.◌∷◌ c s) = code c ∷ codes s

-- `==` on Go strings.
unfoldable pub equal : Bytes → Bytes → Bool
equal [] [] = true
equal (x ∷ xs) (y ∷ ys) = x == y && equal xs ys
equal _ _ = false

pub equal_iff : (xs ys : Bytes) → (equal xs ys ≡ true) ↔ (xs ≡ ys)
unfolding equal
equal_iff [] [] = ground arith
equal_iff [] (y ∷ ys) = ground arith
equal_iff (x ∷ xs) [] = ground arith
equal_iff (x ∷ xs) (y ∷ ys) = ground (arith, equal_iff xs ys)

pub equal_refl : (a : Bytes) → equal a a ≡ true
equal_refl a = (equal_iff a a).1 refl
