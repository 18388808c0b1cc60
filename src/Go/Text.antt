-- ===== src/Go/Text.antt =====
-- strings.ToUpper, strings.ToLower, strings.Split and textproto.TrimString on byte strings.
use nbio.Base.{
  ℕ, ◌+◌, ◌-◌, Bool, false, ◌&&◌, ◌||◌, List, [], ◌∷◌, ◌++◌, ◌==◌, within, if◌then◌else◌, Bytes,
}

abbrev pub is_upper : ℕ → Bool
is_upper = within b'A' b'Z'

abbrev pub is_lower : ℕ → Bool
is_lower = within b'a' b'z'

unfoldable pub upper_byte : ℕ → ℕ
upper_byte c = if is_lower c then c - 32 else c

unfoldable pub lower_byte : ℕ → ℕ
lower_byte c = if is_upper c then c + 32 else c

-- strings.ToUpper on an ASCII string: the parser applies it to letters only.
unfoldable pub to_upper : Bytes → Bytes
unfolding upper_byte
to_upper [] = []
to_upper (c ∷ cs) = upper_byte c ∷ to_upper cs

-- strings.ToLower, exact as far as the result is ASCII: the Kelvin sign (bytes 226, 132 and 170) goes to `k` and
-- the dotted capital I (bytes 196 and 176) to `i`; other letters beyond ASCII stay beyond it and are kept.
unfoldable pub to_lower : Bytes → Bytes
unfolding lower_byte
to_lower [] = []
to_lower (a ∷ []) = lower_byte a ∷ []
to_lower (a ∷ b ∷ []) =
    if a == 0xc4 && b == 0xb0 then b'i' ∷ [] else lower_byte a ∷ to_lower (b ∷ [])
to_lower (a ∷ b ∷ c ∷ cs) =
    let dotted = b'i' ∷ to_lower (c ∷ cs) in
    let kelvin = b'k' ∷ to_lower cs in
    let plain = lower_byte a ∷ to_lower (b ∷ c ∷ cs) in
    if a == 0xc4 && b == 0xb0
    then dotted
    else if a == 0xe2 && b == 0x84 && c == 0xaa
    then kelvin
    else plain

abbrev is_ascii_space : ℕ → Bool
is_ascii_space c = c == b' ' || c == b'\t' || c == b'\n' || c == b'\r'

trim_left : Bytes → Bytes
trim_left [] = []
trim_left (c ∷ cs) = if is_ascii_space c then trim_left cs else c ∷ cs

-- Drops a last byte that is a space once what follows it is dropped.
trim_right : Bytes → Bytes
trim_right [] = []
trim_right (c ∷ cs) = keep c (trim_right cs)
  where
    keep : ℕ → Bytes → Bytes
    keep c [] = if is_ascii_space c then [] else c ∷ []
    keep c (d ∷ ds) = c ∷ d ∷ ds

unfoldable pub trim_string : Bytes → Bytes
unfolding trim_left trim_right
trim_string s = trim_right (trim_left s)

-- strings.Trim with the cutset " ".
unfoldable pub trim_blanks : Bytes → Bytes
trim_blanks s = at_end (at_start s)
  where
    at_start : Bytes → Bytes
    at_start [] = []
    at_start (c ∷ cs) = let rest = at_start cs in if c == b' ' then rest else c ∷ cs

    keep : ℕ → Bytes → Bytes
    keep c [] = if c == b' ' then [] else c ∷ []
    keep c (d ∷ ds) = c ∷ d ∷ ds

    at_end : Bytes → Bytes
    at_end [] = []
    at_end (c ∷ cs) = keep c (at_end cs)

-- strings.HasPrefix with one byte.
abbrev pub starts_with : ℕ → Bytes → Bool
starts_with b [] = false
starts_with b (c ∷ cs) = c == b

unfoldable pub contains_byte : ℕ → Bytes → Bool
contains_byte b [] = false
contains_byte b (c ∷ cs) = c == b || contains_byte b cs

unfoldable pub split_onto : ℕ → Bytes → Bytes → List Bytes
split_onto b word [] = word ∷ []
split_onto b word (c ∷ cs) =
    let cut = word ∷ split_onto b [] cs in
    let grow = split_onto b (word ++ c ∷ []) cs in if c == b then cut else grow

-- strings.Split by a separator of one byte.
unfoldable pub split : ℕ → Bytes → List Bytes
unfolding split_onto
split b s = split_onto b [] s
