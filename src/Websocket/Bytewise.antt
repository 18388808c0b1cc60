-- ===== src/Websocket/Bytewise.antt =====
-- nbhttp/websocket/conn.go: maskXOR does to each byte what RFC 6455, section 5.3, says.
use nbio.Base.{
  ℕ, zero, suc, ◌+◌, ◌*◌, ◌/◌, ◌%◌, ◌^◌, ◌≤◌, ◌<◌, ◌≡◌, refl, sym, ap, true, [], ◌∷◌, ◌++◌, Bytes,
  IsBytes, length, take, drop, get_or, leb, ◌==◌, bit_xor, bit_and, arith, inl, inr, Bool-cases,
  leb→le, all_below, all_below_sound, ==_iff, take-append-drop, append_assoc, drop_add,
  take-IsBytes, drop-IsBytes, length-drop, length-take,
}
use nbio.Base.Bits.{bit_xor_byte, bit_or_byte, bit_xor_bounds, zero-bit_or, bit_or-zero_byte}
use nbio.Websocket.Mask.{
  le_word, put_le, key64, mask_word, mask_words, mask_tail, mask_by_word, mask_by_block, mask_xor,
}

-- The byte at place i of the payload is masked with the key's byte i mod 4.
unfoldable pub xor_from : ℕ → Bytes → Bytes → Bytes
xor_from i key [] = []
xor_from i key (c ∷ cs) = bit_xor c (get_or key (i % 4) 0) ∷ xor_from (i + 1) key cs

xor_from_period : (i : ℕ) (key b : Bytes) → xor_from (i + 8) key b ≡ xor_from i key b
unfolding xor_from
xor_from_period i key [] = refl
xor_from_period i key (c ∷ cs) =
    let same : (i + 8) % 4 ≡ i % 4 = omega arith in
    let next : i + 8 + 1 ≡ i + 1 + 8 = omega arith in
    rw (same, next, xor_from_period (i + 1) key cs)

low_two : all_below 8 (λ i. bit_and i 3 == i % 4) ≡ true
unfolding all_below
low_two = refl

mask_tail_lem : (i : ℕ) (key b : Bytes) → i + length b ≤ 8 → mask_tail i key b ≡ xor_from i key b
unfolding mask_tail xor_from
mask_tail_lem i key [] h = refl
mask_tail_lem i key (c ∷ cs) h =
    let same : bit_and i 3 ≡ i % 4 = (==_iff _ _).0 (all_below_sound 8 _ i low_two (omega arith)) in
    rw (same, mask_tail_lem (i + 1) key cs (omega arith))

-- Byte by byte.
abbrev zip_xor : Bytes → Bytes → Bytes
zip_xor (b ∷ bs) (k ∷ ks) = bit_xor b k ∷ zip_xor bs ks
zip_xor _ _ = []

put_le-bit_xor :
    (n : ℕ) (b k : Bytes)
    → length b ≡ n
    → length k ≡ n
    → IsBytes b
    → IsBytes k
    → put_le n (bit_xor (le_word b) (le_word k)) ≡ zip_xor b k
unfolding put_le le_word
put_le-bit_xor zero [] [] e f h l = refl
put_le-bit_xor zero (x ∷ b) k e f h l = absurd (omega arith)
put_le-bit_xor zero [] (y ∷ k) e f h l = absurd (omega arith)
put_le-bit_xor (suc n) [] k e f h l = absurd (omega arith)
put_le-bit_xor (suc n) (x ∷ b) [] e f h l = absurd (omega arith)
put_le-bit_xor (suc n) (x ∷ b) (y ∷ k) e f h l =
    let small = (bit_xor_bounds x y h.0 l.0).0 in
    let word = bit_xor_byte x y (le_word b) (le_word k) h.0 l.0 in
    let low : (bit_xor x y + 256 * bit_xor (le_word b) (le_word k)) % 256 ≡ bit_xor x y =
      omega arith in
    let high : (bit_xor x y + 256 * bit_xor (le_word b) (le_word k)) / 256
        ≡ bit_xor (le_word b) (le_word k) =
      omega arith in
    rw (word, low, high, put_le-bit_xor n b k (omega arith) (omega arith) h.1 l.1)

-- The `n` bytes of the key from place i on.
abbrev cycle : ℕ → ℕ → Bytes → Bytes
cycle i zero key = []
cycle i (suc n) key = get_or key (i % 4) 0 ∷ cycle (i + 1) n key

xor_from-zip_xor : (i : ℕ) (key b : Bytes) → xor_from i key b ≡ zip_xor b (cycle i (length b) key)
unfolding xor_from
xor_from-zip_xor i key [] = refl
xor_from-zip_xor i key (c ∷ cs) = rw (xor_from-zip_xor (i + 1) key cs)

xor_from-append :
    (i : ℕ) (key b c : Bytes)
    → xor_from i key (b ++ c) ≡ xor_from i key b ++ xor_from (i + length b) key c
unfolding xor_from
xor_from-append i key [] c = let same : i + 0 ≡ i = omega arith in rw same
xor_from-append i key (x ∷ b) c =
    let same : i + suc (length b) ≡ i + 1 + length b = omega arith in
    rw (same, xor_from-append (i + 1) key b c)

module _ (k0 k1 k2 k3 : ℕ) (small : IsBytes (k0 ∷ k1 ∷ k2 ∷ k3 ∷ [])) where
  abbrev four_key : Bytes
  four_key = k0 ∷ k1 ∷ k2 ∷ k3 ∷ []

  abbrev twice : Bytes
  twice = k0 ∷ k1 ∷ k2 ∷ k3 ∷ k0 ∷ k1 ∷ k2 ∷ k3 ∷ []

  key64_lem : key64 four_key ≡ le_word twice
  unfolding key64 le_word
  key64_lem =
      let low : ℕ = k0 + 256 * (k1 + 256 * (k2 + 256 * (k3 + 256 * 0))) in
      let shifted : low * 2 ^ 32 % 2 ^ 64 ≡ 0 + 256 * (0 + 256 * (0 + 256 * (0 + 256 * low))) =
        omega arith in
      rw (
        shifted,
        bit_or_byte k0 0 (k1 + 256 * (k2 + 256 * (k3 + 256 * 0)))
            (0 + 256 * (0 + 256 * (0 + 256 * low))) small.0 (omega arith),
        bit_or_byte k1 0 (k2 + 256 * (k3 + 256 * 0)) (0 + 256 * (0 + 256 * low)) small.1.0
            (omega arith),
        bit_or_byte k2 0 (k3 + 256 * 0) (0 + 256 * low) small.1.1.0 (omega arith),
        bit_or_byte k3 0 0 low small.1.1.1.0 (omega arith),
        zero-bit_or low,
        bit_or-zero_byte k0 small.0,
        bit_or-zero_byte k1 small.1.0,
        bit_or-zero_byte k2 small.1.1.0,
        bit_or-zero_byte k3 small.1.1.1.0,
      )

  mask_word_lem :
      (b : Bytes)
      → 8 ≤ length b
      → IsBytes b
      → mask_word (key64 four_key) b ≡ xor_from 0 four_key (take 8 b)
  unfolding mask_word
  mask_word_lem b h bytes =
      let eight : length (take 8 b) ≡ 8 = omega (arith, length-take 8 b) in
      rw (key64_lem, xor_from-zip_xor 0 four_key (take 8 b), eight)
        (put_le-bit_xor 8 (take 8 b) twice eight refl (take-IsBytes 8 b bytes)
          (small.0, (small.1.0, (small.1.1.0, (small.1.1.1.0, small)))))

  -- One block, and then what is behind it.
  mask_word-append :
      (b : Bytes)
      → 8 ≤ length b
      → IsBytes b
      → mask_word (key64 four_key) b ++ xor_from 0 four_key (drop 8 b) ≡ xor_from 0 four_key b
  mask_word-append b h bytes =
      let eight : length (take 8 b) ≡ 8 = omega (arith, length-take 8 b) in
      let whole = xor_from-append 0 four_key (take 8 b) (drop 8 b) in
      rw (mask_word_lem b h bytes)
        (sym (rw (take-append-drop 8 b, eight, xor_from_period 0 four_key (drop 8 b)) at whole))

  mask_by_word_lem :
      (fuel : ℕ) (b : Bytes)
      → length b ≤ fuel
      → IsBytes b
      → mask_by_word fuel (key64 four_key) four_key b ≡ xor_from 0 four_key b
  unfolding mask_by_word
  mask_by_word_lem zero b f bytes = mask_tail_lem 0 four_key b (omega arith)
  mask_by_word_lem (suc fuel) b f bytes = elim (Bool-cases (leb 8 (length b))) [
    | inl long ↦
        let rest =
          mask_by_word_lem fuel (drop 8 b)
            (omega (arith, length-drop 8 b, leb→le 8 (length b) long)) (drop-IsBytes 8 b bytes) in
        rw (long, mask_by_word) (rw rest (mask_word-append b (leb→le 8 (length b) long) bytes))
    | inr short ↦ rw (short, mask_by_word) (mask_tail_lem 0 four_key b (ground arith))
  ]

  mask_words_lem :
      (n : ℕ) (b : Bytes)
      → n * 8 ≤ length b
      → IsBytes b
      → mask_words n (key64 four_key) b ++ xor_from 0 four_key (drop (n * 8) b)
        ≡ xor_from 0 four_key b
  unfolding mask_words
  mask_words_lem zero b h bytes = refl
  mask_words_lem (suc n) b h bytes =
      let count : suc n * 8 ≡ 8 + n * 8 = omega arith in
      let rest =
        mask_words_lem n (drop 8 b) (omega (arith, length-drop 8 b)) (drop-IsBytes 8 b bytes) in
      rw (append_assoc (mask_word (key64 four_key) b), count, drop_add 8 (n * 8) b, rest)
        (mask_word-append b (omega arith) bytes)

  mask_by_block_lem :
      (fuel : ℕ) (b : Bytes)
      → length b ≤ fuel
      → IsBytes b
      → mask_by_block fuel (key64 four_key) four_key b ≡ xor_from 0 four_key b
  unfolding mask_by_block
  mask_by_block_lem zero b f bytes = mask_by_word_lem (length b) b (omega arith) bytes
  mask_by_block_lem (suc fuel) b f bytes = elim (Bool-cases (leb 64 (length b))) [
    | inl long ↦
        let rest =
          mask_by_block_lem fuel (drop 64 b)
            (omega (arith, length-drop 64 b, leb→le 64 (length b) long))
            (drop-IsBytes 64 b bytes) in
        rw (long, mask_by_block) (rw rest (mask_words_lem 8 b (leb→le 64 (length b) long) bytes))
    | inr short ↦ rw (short, mask_by_block) (mask_by_word_lem (length b) b (omega arith) bytes)
  ]

-- The loops over blocks of 64 and of 8 bytes and the loop over the rest give what the definition of
-- masking says: byte i of the payload xor byte i mod 4 of the key. The key is of four bytes.
pub mask_xor-xor_from :
    (b key : Bytes) → length key ≡ 4 → IsBytes key → IsBytes b → mask_xor b key ≡ xor_from 0 key b
unfolding mask_xor
mask_xor-xor_from b (k0 ∷ k1 ∷ k2 ∷ k3 ∷ []) four small bytes =
    mask_by_block_lem k0 k1 k2 k3 small (length b) b (omega arith) bytes
mask_xor-xor_from b _ four small bytes = absurd (omega arith)

get_or-lt : (key : Bytes) (i : ℕ) → IsBytes key → get_or key i 0 < 256
get_or-lt [] i h = omega arith
get_or-lt (k ∷ key) zero h = h.0
get_or-lt (k ∷ key) (suc i) h = get_or-lt key i h.1

xor_from_twice :
    (i : ℕ) (key b : Bytes)
    → IsBytes key
    → IsBytes b
    → IsBytes (xor_from i key b) × (xor_from i key (xor_from i key b) ≡ b)
unfolding xor_from
xor_from_twice i key [] h bytes = (tt, refl)
xor_from_twice i key (c ∷ cs) h bytes =
    let (small, same) = bit_xor_bounds c (get_or key (i % 4) 0) bytes.0 (get_or-lt key (i % 4) h) in
    let (rest, back) = xor_from_twice (i + 1) key cs h bytes.1 in ((small, rest), rw (same, back))

pub length-xor_from : (i : ℕ) (key b : Bytes) → length (xor_from i key b) ≡ length b
unfolding xor_from
length-xor_from i key [] = refl
length-xor_from i key (c ∷ cs) = ap suc (length-xor_from (i + 1) key cs)

pub mask_xor-IsBytes :
    (b key : Bytes) → length key ≡ 4 → IsBytes key → IsBytes b → IsBytes (mask_xor b key)
mask_xor-IsBytes b key four small bytes =
    rw (mask_xor-xor_from b key four small bytes) (xor_from_twice 0 key b small bytes).0

pub length-mask_xor :
    (b key : Bytes) → length key ≡ 4 → IsBytes key → IsBytes b → length (mask_xor b key) ≡ length b
length-mask_xor b key four small bytes =
    rw (mask_xor-xor_from b key four small bytes) (length-xor_from 0 key b)

-- What one side masks the other side unmasks with the same key of four bytes.
pub mask_xor_twice :
    (b key : Bytes) → length key ≡ 4 → IsBytes key → IsBytes b → mask_xor (mask_xor b key) key ≡ b
mask_xor_twice b key four small bytes =
    let once = mask_xor-xor_from b key four small bytes in
    let (range, back) = xor_from_twice 0 key b small bytes in
    rw (once, mask_xor-xor_from (xor_from 0 key b) key four small range) back
