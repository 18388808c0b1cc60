-- ===== src/Go/Number.antt =====
-- strconv.ParseInt and strconv.Atoi. The value is read without a bound and then held to the range,
-- which gives Go's answer: every value beyond 64 bits is beyond the range as well.
use nbio.Base.{
  ℕ, ◌+◌, ◌-◌, ◌*◌, ◌^◌, ◌<◌, ◌≡◌, Option, none, some, [], ◌∷◌, ltb, leb, ◌==◌, within,
  if◌then◌else◌, Bytes, ℤ, pos, negsuc, arith,
}

-- The value of a digit or letter; `none` for any other byte.
unfoldable pub digit : ℕ → Option ℕ
digit c =
    if within b'0' b'9' c
    then some (c - b'0')
    else if within b'a' b'z' c
    then some (c - b'a' + 10)
    else if within b'A' b'Z' c
    then some (c - b'A' + 10)
    else none

abbrev pub in_base : ℕ → Option ℕ → Option ℕ
in_base base none = none
in_base base (some d) = if ltb d base then some d else none

unfoldable pub digits_from : ℕ → ℕ → Bytes → Option ℕ
unfolding digit
digits_from base n [] = some n
digits_from base n (c ∷ cs) = elim (in_base base (digit c)) [
  | none ↦ none
  | some d ↦ digits_from base (n * base + d) cs
]

-- At least one digit.
unfoldable pub parse_digits : ℕ → Bytes → Option ℕ
unfolding digits_from
parse_digits base [] = none
parse_digits base (c ∷ cs) = digits_from base 0 (c ∷ cs)

abbrev negate : ℕ → ℤ
negate n = if n == 0 then pos 0 else negsuc (n - 1)

abbrev hold_pos : ℕ → Option ℕ → Option ℤ
hold_pos bits none = none
hold_pos bits (some n) = if ltb n (2 ^ (bits - 1)) then some (pos n) else none

abbrev hold_neg : ℕ → Option ℕ → Option ℤ
hold_neg bits none = none
hold_neg bits (some n) = if leb n (2 ^ (bits - 1)) then some (negate n) else none

-- strconv.ParseInt(s, base, bits) for a base other than 0; `none` is an error.
unfoldable pub parse_int : Bytes → ℕ → ℕ → Option ℤ
unfolding parse_digits
parse_int [] base bits = none
parse_int (c ∷ cs) base bits =
    if c == b'+'
    then hold_pos bits (parse_digits base cs)
    else if c == b'-'
    then hold_neg bits (parse_digits base cs)
    else hold_pos bits (parse_digits base (c ∷ cs))

-- A value that fits is below the bound.
pub parse_int-lt :
    (s : Bytes) (base bits : ℕ) {n : ℕ}
    → parse_int s base bits ≡ some (pos n)
    → n < 2 ^ (bits - 1) + 1
unfolding parse_int
parse_int-lt [] base bits h = cc
parse_int-lt (c ∷ cs) base bits h = ground arith

-- strconv.Atoi, where `int` has 64 bits.
unfoldable pub atoi : Bytes → Option ℤ
atoi s = parse_int s 10 64
