-- ===== src/Websocket/Mask.antt =====
-- nbhttp/websocket/conn.go: maskXOR, which masks eight blocks of eight bytes in a round, then one
-- block of eight bytes in a round, and the last bytes one by one; and encoding/binary's words.

use nbio.Base.{
  ℕ, zero, suc, ◌+◌, ◌*◌, ◌/◌, ◌%◌, ◌^◌, true, false, [], ◌∷◌, ◌++◌, Bytes, length, take, drop,
  get_or, leb, bit_xor, bit_or, bit_and,
}

-- A little-endian word of any number of bytes.
unfoldable pub le_word : Bytes → ℕ
le_word [] = 0
le_word (b ∷ bs) = b + 256 * le_word bs

-- Its `n` lowest bytes, written out.
unfoldable pub put_le : ℕ → ℕ → Bytes
put_le zero v = []
put_le (suc n) v = (v % 256) ∷ put_le n (v / 256)

-- The key twice, in a word of 64 bits.
unfoldable pub key64 : Bytes → ℕ
key64 key = let k = le_word (take 4 key) in bit_or k (k * 2 ^ 32 % 2 ^ 64)

-- One block of eight bytes.
unfoldable pub mask_word : ℕ → Bytes → Bytes
mask_word k b = put_le 8 (bit_xor (le_word (take 8 b)) k)

-- `n` blocks of eight bytes, as the body of the first loop writes them out for eight.
unfoldable pub mask_words : ℕ → ℕ → Bytes → Bytes
mask_words zero k b = []
mask_words (suc n) k b = mask_word k b ++ mask_words n k (drop 8 b)

-- `for i := 0; i < len(b); i++ { idx := i & 3; b[i] ^= key[idx] }`
unfoldable pub mask_tail : ℕ → Bytes → Bytes → Bytes
mask_tail i key [] = []
mask_tail i key (c ∷ cs) = bit_xor c (get_or key (bit_and i 3) 0) ∷ mask_tail (i + 1) key cs

-- `for len(b) >= 8`
unfoldable pub mask_by_word : ℕ → ℕ → Bytes → Bytes → Bytes
mask_by_word zero k key b = mask_tail 0 key b
mask_by_word (suc fuel) k key b = elim (leb 8 (length b)) [
  | true ↦ mask_word k b ++ mask_by_word fuel k key (drop 8 b)
  | false ↦ mask_tail 0 key b
]

-- `for len(b) >= 64`
unfoldable pub mask_by_block : ℕ → ℕ → Bytes → Bytes → Bytes
mask_by_block zero k key b = mask_by_word (length b) k key b
mask_by_block (suc fuel) k key b = elim (leb 64 (length b)) [
  | true ↦ mask_words 8 k b ++ mask_by_block fuel k key (drop 64 b)
  | false ↦ mask_by_word (length b) k key b
]

-- A round of either loop takes bytes away, so that as many rounds as bytes are enough.
unfoldable pub mask_xor : Bytes → Bytes → Bytes
mask_xor b key = mask_by_block (length b) (key64 key) key b
