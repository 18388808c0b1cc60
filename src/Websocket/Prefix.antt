-- ===== src/Websocket/Prefix.antt =====
-- nbhttp/websocket/conn.go: nextFrame takes a frame off as soon as it is there.
use nbio.Base.{
  ℕ, ◌+◌, ◌≤◌, ◌≡◌, refl, ap, ◌∙◌, Bool, true, [], ◌∷◌, ◌++◌, Bytes, length, take, drop, leb,
  if◌then◌else◌, arith, inl, inr, Bool-cases, length-append, take-append_le, drop-append_le,
  length-drop,
}
use nbio.Websocket.Frame.{
  Rules, Size, size, negative, incomplete, need_more, frame, Frame, read_size, cut_frame,
  judge_frame, next_frame, low_bits, has_bit,
}

cut_slice :
    (k n : ℕ) (cached more : Bytes)
    → k + n ≤ length cached
    → take n (drop k (cached ++ more)) ≡ take n (drop k cached)
cut_slice k n cached more h =
    ap (take n) (drop-append_le k cached more (omega arith))
    ∙ take-append_le n (drop k cached) more (omega (arith, length-drop k cached))

at_least :
    (k : ℕ) (cached more : Bytes)
    → leb k (length cached) ≡ true
    → leb k (length (cached ++ more)) ≡ true
at_least k cached more h = ground (arith, length-append cached more)

-- The length field is the same with more bytes behind it.
read_size-append :
    (p : ℕ) (cached more : Bytes)
    → (read_size p cached ≡ incomplete → ⊥)
    → read_size p (cached ++ more) ≡ read_size p cached
unfolding read_size
read_size-append p cached more known = elim (Bool-cases (leb 4 (length cached))) [
  | inl four ↦ elim (Bool-cases (leb 10 (length cached))) [
    | inl ten ↦
        rw
          (
            at_least 4 cached more four,
            at_least 10 cached more ten,
            four,
            ten,
            cut_slice 2 2 cached more (ground arith),
            cut_slice 2 8 cached more (ground arith),
          )
          refl
    | inr short ↦
        ground (arith, at_least 4 cached more four, cut_slice 2 2 cached more (ground arith))
  ]
  | inr few ↦ ground arith
]

cut_frame-append :
    (r : Rules) (expecting : Bool) (b0 b1 : ℕ) (cached more : Bytes) (head n : ℕ)
    → (cut_frame r expecting b0 b1 cached head n ≡ need_more → ⊥)
    → cut_frame r expecting b0 b1 (cached ++ more) head n
      ≡ cut_frame r expecting b0 b1 cached head n
unfolding cut_frame
cut_frame-append r expecting b0 b1 cached more head n known =
    let head_len = if has_bit b1 7 then head + 4 else head in
    elim (Bool-cases (leb (head_len + n) (length cached))) [
      | inl there ↦
          let body = cut_slice head_len n cached more (ground arith) in
          elim (Bool-cases (has_bit b1 7)) [
            | inl masked ↦
                let key = cut_slice head 4 cached more (ground arith) in
                rw (at_least (head_len + n) cached more there, there, body, key) refl
            | inr plain ↦ rw (at_least (head_len + n) cached more there, there, body, plain) refl
          ]
      | inr short ↦ ground arith
    ]

module _ (r : Rules) (message_len : ℕ) (expecting : Bool) where
  judge_frame-append :
      (b0 b1 : ℕ) (cached more : Bytes) (s : Size) {f : Frame}
      → judge_frame r message_len expecting b0 b1 cached s ≡ frame f
      → judge_frame r message_len expecting b0 b1 (cached ++ more) s ≡ frame f
  unfolding judge_frame
  judge_frame-append b0 b1 cached more incomplete e = ground arith
  judge_frame-append b0 b1 cached more negative e = ground arith
  judge_frame-append b0 b1 cached more (size head n) e =
      let later = cut_frame-append r expecting b0 b1 cached more head n in ground arith

  judge_complete :
      (b0 b1 : ℕ) (cached : Bytes) (s : Size) {f : Frame}
      → judge_frame r message_len expecting b0 b1 cached s ≡ frame f
      → s ≡ incomplete
      → ⊥
  unfolding judge_frame
  judge_complete b0 b1 cached s e i = ground arith

  -- A frame that nextFrame takes off the cache is the one that it takes off however many bytes have
  -- come behind it.
  pub next_frame-append :
      (cached more : Bytes) {f : Frame}
      → next_frame r message_len expecting cached ≡ frame f
      → next_frame r message_len expecting (cached ++ more) ≡ frame f
  unfolding next_frame
  next_frame-append [] more e = ground arith
  next_frame-append (b0 ∷ []) more e = ground arith
  next_frame-append (b0 ∷ b1 ∷ rest) more {f} e =
      let cached = b0 ∷ b1 ∷ rest in
      let s = read_size (low_bits b1 7) cached in
      let known = judge_complete b0 b1 cached s e in
      let same : read_size (low_bits b1 7) (b0 ∷ b1 ∷ (rest ++ more)) ≡ s =
        read_size-append (low_bits b1 7) cached more known in
      rw same (judge_frame-append b0 b1 cached more s e)
