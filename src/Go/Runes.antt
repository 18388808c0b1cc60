-- ===== src/Go/Runes.antt =====
-- unicode/utf8's DecodeRuneInString, a string as the runes that a loop of it takes off, and
-- strings.TrimSpace.
pub mod Ascii
use nbio.Base.{
  ℕ, zero, suc, ◌+◌, ◌-◌, ◌*◌, ◌%◌, Bool, ◌&&◌, ◌||◌, List, [], ◌∷◌, ◌++◌, Bytes, take, within, ltb,
  ◌==◌, if◌then◌else◌,
}

-- utf8.RuneError
abbrev rune_error : ℕ
rune_error = 0xfffd

abbrev is_continuation : ℕ → Bool
is_continuation = within 0x80 0xbf

-- Which second bytes a first byte of three or four admits: neither overlong forms nor surrogates nor
-- runes beyond 0x10ffff.
second_of_three : ℕ → ℕ → Bool
second_of_three a b =
    if a == 0xe0
    then within 0xa0 0xbf b
    else if a == 0xed
    then within 0x80 0x9f b
    else is_continuation b

second_of_four : ℕ → ℕ → Bool
second_of_four a b =
    if a == 0xf0
    then within 0x90 0xbf b
    else if a == 0xf4
    then within 0x80 0x8f b
    else is_continuation b

-- The rune and its size. A byte that begins no rune is a rune_error of size 1.
unfoldable pub decode_rune : ℕ → Bytes → ℕ × ℕ
unfolding second_of_three second_of_four
decode_rune a [] = if ltb a 0x80 then (a, 1) else (rune_error, 1)
decode_rune a (b ∷ []) =
    if ltb a 0x80
    then (a, 1)
    else if within 0xc2 0xdf a && is_continuation b
    then (a % 32 * 64 + b % 64, 2)
    else (rune_error, 1)
decode_rune a (b ∷ c ∷ []) =
    if ltb a 0x80
    then (a, 1)
    else if within 0xc2 0xdf a && is_continuation b
    then (a % 32 * 64 + b % 64, 2)
    else if within 0xe0 0xef a && second_of_three a b && is_continuation c
    then (a % 16 * 4096 + b % 64 * 64 + c % 64, 3)
    else (rune_error, 1)
decode_rune a (b ∷ c ∷ d ∷ _) =
    if ltb a 0x80
    then (a, 1)
    else if within 0xc2 0xdf a && is_continuation b
    then (a % 32 * 64 + b % 64, 2)
    else if within 0xe0 0xef a && second_of_three a b && is_continuation c
    then (a % 16 * 4096 + b % 64 * 64 + c % 64, 3)
    else if within 0xf0 0xf4 a && second_of_four a b && is_continuation c && is_continuation d
    then (a % 8 * 262144 + b % 64 * 4096 + c % 64 * 64 + d % 64, 4)
    else (rune_error, 1)

-- Each rune with its bytes. `pending` bytes still belong to the rune before.
runes_behind : (pending : ℕ) → Bytes → List (ℕ × Bytes)
runes_behind pending [] = []
runes_behind (suc k) (c ∷ cs) = runes_behind k cs
runes_behind zero (c ∷ cs) =
    let first = decode_rune c cs in (first.0, take first.1 (c ∷ cs)) ∷ runes_behind (first.1 - 1) cs

unfoldable pub runes : Bytes → List (ℕ × Bytes)
unfolding runes_behind decode_rune
runes s = runes_behind 0 s

-- unicode.IsSpace
unfoldable pub is_space : ℕ → Bool
is_space r =
    within 9 13 r
    || r == 32
    || r == 0x85
    || r == 0xa0
    || r == 0x1680
    || within 0x2000 0x200a r
    || r == 0x2028
    || r == 0x2029
    || r == 0x202f
    || r == 0x205f
    || r == 0x3000

trim_runes_left : List (ℕ × Bytes) → List (ℕ × Bytes)
trim_runes_left [] = []
trim_runes_left ((r, bs) ∷ rs) = if is_space r then trim_runes_left rs else (r, bs) ∷ rs

-- The bytes up to the last rune that is no space.
trim_runes_right : List (ℕ × Bytes) → Bytes
trim_runes_right [] = []
trim_runes_right ((r, bs) ∷ rs) = keep r bs (trim_runes_right rs)
  where
    keep : ℕ → Bytes → Bytes → Bytes
    keep r bs [] = if is_space r then [] else bs
    keep r bs (c ∷ cs) = bs ++ c ∷ cs

-- strings.TrimSpace. A space at the end is found from either end, since a rune's bytes begin none.
unfoldable pub trim_space : Bytes → Bytes
unfolding runes is_space trim_runes_left trim_runes_right
trim_space s = trim_runes_right (trim_runes_left (runes s))
