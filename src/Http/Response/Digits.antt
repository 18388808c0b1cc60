-- ===== src/Http/Response/Digits.antt =====
-- nbhttp/response.go and nbhttp/parser.go: formatInt writes what the parser reads as a chunk's size.
use nbio.Base.{
  ℕ, zero, suc, ◌+◌, ◌*◌, ◌/◌, ◌%◌, ◌^◌, ◌<◌, ◌≤◌, ◌≡◌, inl, inr, refl, ap, ◌∙◌, Bool, true, false,
  Option, none, some, [], ◌∷◌, Bytes, get_or, is_nil, ◌-◌, ltb, ◌==◌, arith, Bool-cases, pos,
  all_below, all_below_sound,
}
use nbio.Go.Number.{digit, in_base, digits_from, parse_digits, parse_int}
use nbio.Http.Parser.Framing.{ok, max_int, parse_and_validate_chunk_size}
use nbio.Http.Response.{num_map, format_digits, format_int}

abbrev is_some_eq : ℕ → Option ℕ → Bool
is_some_eq n none = false
is_some_eq n (some m) = m == n

num_map_table : all_below 16 (λ n. is_some_eq n (digit (get_or num_map n 0))) ≡ true
unfolding all_below digit
num_map_table = refl

is_some_eq_lem : (n : ℕ) (x : Option ℕ) → is_some_eq n x ≡ true → x ≡ some n
is_some_eq_lem n none h = cc
is_some_eq_lem n (some m) h = ground arith

num_map-digit : (n : ℕ) → n < 16 → digit (get_or num_map n 0) ≡ some n
num_map-digit n h =
    is_some_eq_lem n (digit (get_or num_map n 0)) (all_below_sound 16 _ n num_map_table h)

read_digit :
    (n d : ℕ) (cs : Bytes)
    → d < 16
    → digits_from 16 n (get_or num_map d 0 ∷ cs) ≡ digits_from 16 (n * 16 + d) cs
unfolding digits_from
read_digit n d cs h =
    let small : ltb d 16 ≡ true = ground arith in rw (num_map-digit d h, small, digits_from) refl

digits_from-format_digits :
    (i n : ℕ) (cs : Bytes)
    → n < 16 ^ suc i
    → digits_from 16 0 (format_digits (suc i) n 16 cs) ≡ digits_from 16 n cs
unfolding format_digits
digits_from-format_digits zero n cs h =
    let small : n < 16 = omega arith in
    let low : n % 16 ≡ n = omega arith in
    let high : n / 16 ≡ 0 = omega arith in
    let whole : 0 * 16 + n ≡ n = omega arith in
    rw (high, low) (read_digit 0 n cs small ∙ ap (λ k. digits_from 16 k cs) whole)
digits_from-format_digits (suc i) n cs h =
    let c = get_or num_map (n % 16) 0 in
    let joined : n / 16 * 16 + n % 16 ≡ n = omega arith in
    elim (Bool-cases (n / 16 == 0)) [
      | inl last ↦
          let low : 0 * 16 + n % 16 ≡ n = ground arith in
          rw last (read_digit 0 (n % 16) cs (omega arith) ∙ ap (λ k. digits_from 16 k cs) low)
      | inr more ↦ rw more (
          digits_from-format_digits i (n / 16) (c ∷ cs) (omega arith)
          ∙ read_digit (n / 16) (n % 16) cs (omega arith)
          ∙ ap (λ k. digits_from 16 k cs) joined)
    ]

-- What parse_digits reads does not begin with a sign.
no_sign :
    (sign c n : ℕ) (cs : Bytes)
    → digit sign ≡ none
    → digits_from 16 0 (c ∷ cs) ≡ some n
    → (c == sign) ≡ false
unfolding digits_from
no_sign sign c n cs bare h = elim (Bool-cases (c == sign)) [
  | inl e ↦
      let same : c ≡ sign = ground arith in absurd (refused (digit c) (ap digit same ∙ bare) h)
  | inr e ↦ e
]
  where
    refused :
        (x : Option ℕ)
        → x ≡ none
        → (elim (in_base 16 x) [ none ↦ none | some d ↦ digits_from 16 (0 * 16 + d) cs ]) ≡ some n
        → ⊥
    refused none e h = cc
    refused (some d) e h = cc

parse_int-unsigned :
    (c n : ℕ) (cs : Bytes)
    → digits_from 16 0 (c ∷ cs) ≡ some n
    → n < 2 ^ 62
    → parse_int (c ∷ cs) 16 63 ≡ some (pos n)
unfolding parse_int parse_digits digit
parse_int-unsigned c n cs h l =
    let not_plus = no_sign b'+' c n cs refl h in
    let not_minus = no_sign b'-' c n cs refl h in
    let held : ltb n (2 ^ (63 - 1)) ≡ true = ground arith in rw (not_plus, not_minus, h, held) refl

chunk_size :
    (s : Bytes) (n : ℕ)
    → digits_from 16 0 s ≡ some n
    → (is_nil s ≡ false)
    → n ≤ 0x7FFFFFFF
    → parse_and_validate_chunk_size s ≡ ok (pos n)
unfolding parse_and_validate_chunk_size
chunk_size [] n h some_bytes l = cc
chunk_size (c ∷ cs) n h some_bytes l =
    let held : ltb max_int n ≡ false = ground arith in
    rw (parse_int-unsigned c n cs h (omega arith), held, parse_and_validate_chunk_size) refl

format_digits-is_nil :
    (i n : ℕ) (c : ℕ) (cs : Bytes) → is_nil (format_digits i n 16 (c ∷ cs)) ≡ false
unfolding format_digits
format_digits-is_nil zero n c cs = refl
format_digits-is_nil (suc i) n c cs =
    ground (arith, format_digits-is_nil i (n / 16) (get_or num_map (n % 16) 0) (c ∷ cs))

some_digit : (i n : ℕ) → is_nil (format_digits (suc i) n 16 []) ≡ false
unfolding format_digits
some_digit i n = ground (arith, format_digits-is_nil i (n / 16) (get_or num_map (n % 16) 0) [])

-- formatInt in base 16 of a number up to 0x7FFFFFFF is read back by the parser as that size of a chunk.
pub parse_and_validate_chunk_size-format_int :
    (n : ℕ) → n ≤ 0x7FFFFFFF → parse_and_validate_chunk_size (format_int n 16) ≡ ok (pos n)
unfolding format_int digits_from
parse_and_validate_chunk_size-format_int n h =
    let fits : ltb 0x7FFFFFFF n ≡ false = ground arith in
    rw fits (
      chunk_size (format_digits 10 n 16 []) n (digits_from-format_digits 9 n [] (omega arith))
        (some_digit 9 n) h)
