-- ===== src/Go/Runes/Ascii.antt =====
-- strings.TrimSpace on ASCII strings.
use nbio.Base.{
  ℕ, ◌<◌, false, List, [], ◌∷◌, ◌++◌, ◌≡◌, refl, sym, ap, ◌∙◌, Bytes, is_nil, lt→ltb, arith,
}
use nbio.Go.Runes.{
  decode_rune, runes_behind, is_space, trim_runes_left, trim_runes_right, trim_space,
}

decode_rune_ascii : (a : ℕ) (cs : Bytes) → a < 0x80 → decode_rune a cs ≡ (a, 1)
unfolding decode_rune
decode_rune_ascii a [] h = rw (lt→ltb a 0x80 h)
decode_rune_ascii a (b ∷ []) h = rw (lt→ltb a 0x80 h)
decode_rune_ascii a (b ∷ c ∷ []) h = rw (lt→ltb a 0x80 h)
decode_rune_ascii a (b ∷ c ∷ d ∷ cs) h = rw (lt→ltb a 0x80 h)

abbrev pub IsAscii : Bytes → Type 0
IsAscii [] = Unit {0}
IsAscii (c ∷ cs) = (c < 0x80) × IsAscii cs

-- No byte is a space.
abbrev pub IsInk : Bytes → Type 0
IsInk [] = Unit {0}
IsInk (c ∷ cs) = (is_space c ≡ false) × IsInk cs

singles : Bytes → List (ℕ × Bytes)
singles [] = []
singles (c ∷ cs) = (c, c ∷ []) ∷ singles cs

runes_ascii : (s : Bytes) → IsAscii s → runes_behind 0 s ≡ singles s
unfolding runes_behind singles
runes_ascii [] h = refl
runes_ascii (c ∷ cs) h = rw (decode_rune_ascii c cs h.0) (rw (runes_ascii cs h.1))

keep_behind :
    (r : ℕ) (bs : Bytes) (rs : List (ℕ × Bytes)) (t : Bytes)
    → trim_runes_right rs ≡ t
    → is_nil t ≡ false
    → trim_runes_right ((r, bs) ∷ rs) ≡ bs ++ t
unfolding trim_runes_right
keep_behind r bs rs [] e h = cc
keep_behind r bs rs (c ∷ cs) e h = rw e

trim_ink :
    (c : ℕ) (w : Bytes) → is_space c ≡ false → IsInk w → trim_runes_right (singles (c ∷ w)) ≡ c ∷ w
unfolding singles
trim_ink c [] e h = unfold trim_runes_right in rw e
trim_ink c (d ∷ w) e h = keep_behind c (c ∷ []) _ (d ∷ w) (trim_ink d w h.0 h.1) refl

trim_runes_right-append :
    (s : Bytes) (c : ℕ) (w : Bytes)
    → is_space c ≡ false
    → IsInk w
    → trim_runes_right (singles (s ++ c ∷ w)) ≡ s ++ c ∷ w
unfolding singles
trim_runes_right-append [] c w e h = trim_ink c w e h
trim_runes_right-append (b ∷ []) c w e h = keep_behind b (b ∷ []) _ (c ∷ w) (trim_ink c w e h) refl
trim_runes_right-append (a ∷ b ∷ s) c w e h =
    keep_behind a (a ∷ []) _ (b ∷ s ++ c ∷ w) (trim_runes_right-append (b ∷ s) c w e h) refl

trim_space-steps :
    (s : Bytes) → IsAscii s → trim_space s ≡ trim_runes_right (trim_runes_left (singles s))
unfolding trim_space
trim_space-steps s ascii = rw (runes_ascii s ascii)

trim_runes_left-ink :
    (b : ℕ) (s : Bytes) → is_space b ≡ false → trim_runes_left (singles (b ∷ s)) ≡ singles (b ∷ s)
unfolding singles trim_runes_left
trim_runes_left-ink b s h = rw h

-- An ASCII string that starts with no space and ends with none is kept.
pub trim_space-ends :
    (b : ℕ) (s t : Bytes) (c : ℕ) (w : Bytes)
    → IsAscii (b ∷ s)
    → is_space b ≡ false
    → is_space c ≡ false
    → IsInk w
    → b ∷ s ≡ t ++ c ∷ w
    → trim_space (b ∷ s) ≡ b ∷ s
trim_space-ends b s t c w ascii start end ink e =
    trim_space-steps (b ∷ s) ascii
    ∙ ap trim_runes_right (trim_runes_left-ink b s start)
    ∙ ap (λ x. trim_runes_right (singles x)) e
    ∙ trim_runes_right-append t c w end ink
    ∙ sym e

-- A blank in front of it is dropped.
pub trim_space-blank : (s : Bytes) → IsAscii s → trim_space (b' ' ∷ s) ≡ trim_space s
unfolding trim_space is_space trim_runes_left
trim_space-blank s ascii = rw (decode_rune_ascii b' ' s (omega arith)) (rw (runes_ascii s ascii))
