-- ===== src/Websocket/Dial/Protocols.antt =====
-- The subprotocols of nbhttp/websocket/dialer.go, as nbhttp/websocket/upgrader.go selects from them.
use mathlib.Core.List.{append_assoc}
use nbio.Base.{
  ℕ, ◌<◌, Bool, true, false, not, ◌&&◌, List, [], ◌∷◌, ◌++◌, ◌≡◌, refl, sym, ap, ◌∙◌, map, Bytes,
  is_nil, Bool-cases, inl, inr, ◌==◌, ==_iff, leb, leb→le, arith,
}
use nbio.Go.Text.{split, split_onto, contains_byte}
use nbio.Go.Header.{get}
use nbio.Go.Runes.{is_space, trim_space}
use nbio.Go.Runes.Ascii.{IsAscii, IsInk, trim_space-ends, trim_space-blank}
use nbio.Websocket.Tokens.{token_octets, is_token_octet, is_comma}
use nbio.Websocket.Tokens.Words.{all_tokens, is_word, Free}
use nbio.Websocket.Tokens.Listed.{split_onto-append, split_onto-Free}
use nbio.Websocket.Upgrade.{Request, protocol_field, subprotocols, trim_all}
use nbio.Websocket.Dial.{join}

abbrev plain_byte : ℕ → Bool
plain_byte c = leb c 127 && (not (is_space c) && not (is_comma c))

all_plain : Bytes → Bool
all_plain [] = true
all_plain (c ∷ cs) = plain_byte c && all_plain cs

contains_byte_plain :
    (c : ℕ) (s : Bytes) → contains_byte c s ≡ true → all_plain s ≡ true → plain_byte c ≡ true
unfolding contains_byte all_plain
contains_byte_plain c [] h e = cc
contains_byte_plain c (d ∷ s) h e = elim (Bool-cases (d == c)) [
  | inl same ↦ rw (sym ((==_iff d c).0 same)) (ground (arith, e))
  | inr other ↦ contains_byte_plain c s (rw other at h) (ground (arith, e))
]

token_plain : (c : ℕ) → is_token_octet c ≡ true → plain_byte c ≡ true
unfolding is_token_octet all_plain is_space
token_plain c h = contains_byte_plain c token_octets h refl

token_facts :
    (c : ℕ) → is_token_octet c ≡ true → (c < 0x80) × (is_space c ≡ false) × (is_comma c ≡ false)
token_facts c h =
    let plain = token_plain c h in
    (
      omega (arith, leb→le c 127 (ground (arith, plain))),
      ground (arith, plain),
      ground (arith, plain),
    )

word_facts : (w : Bytes) → all_tokens w ≡ true → IsAscii w × IsInk w × Free w
unfolding all_tokens
word_facts [] h = (tt, tt, tt)
word_facts (c ∷ w) h =
    let facts = token_facts c (ground (arith, h)) in
    let (ascii, ink, free) = word_facts w (ground (arith, h)) in
    ((facts.0, ascii), (facts.1, ink), (facts.2, free))

abbrev pub AreWords : List Bytes → Type 0
AreWords [] = Unit {0}
AreWords (w ∷ ws) = (is_word w ≡ true) × AreWords ws

trim_space-word : (w : Bytes) → is_word w ≡ true → trim_space w ≡ w
unfolding is_word
trim_space-word [] h = cc
trim_space-word (c ∷ w) h =
    let (ascii, ink, _) = word_facts (c ∷ w) (ground (arith, h)) in
    trim_space-ends c w [] c w ascii ink.0 ink.0 ink.1 refl

trim_space-blank_word : (w : Bytes) → is_word w ≡ true → trim_space (b' ' ∷ w) ≡ w
unfolding is_word
trim_space-blank_word w h =
    trim_space-blank w (word_facts w (ground (arith, h))).0 ∙ trim_space-word w h

-- A list of words ends with one and is ASCII.
Ending : Bytes → Type 0
Ending s =
    IsAscii s
    × ((t : Bytes) × (c : ℕ) × (w : Bytes) × (is_space c ≡ false) × IsInk w × (s ≡ t ++ c ∷ w))

append-IsAscii : (s t : Bytes) → IsAscii s → IsAscii t → IsAscii (s ++ t)
append-IsAscii [] t h k = k
append-IsAscii (c ∷ s) t h k = (h.0, append-IsAscii s t h.1 k)

join-Ending :
    (w : Bytes) (ws : List Bytes) → is_word w ≡ true → AreWords ws → Ending (join (w ∷ ws))
unfolding Ending join is_word
join-Ending [] [] h hs = cc
join-Ending (c ∷ w) [] h hs =
    let (ascii, ink, _) = word_facts (c ∷ w) (ground (arith, h)) in
    (ascii, ([], c, w, ink.0, ink.1, refl))
join-Ending w (v ∷ ws) h hs =
    let (ascii, (t, c, e, space, ink, eq)) = join-Ending v ws hs.0 hs.1 in
    let (front, _, _) = word_facts w (ground (arith, h)) in
    (
      append-IsAscii w _ front (omega arith, (omega arith, ascii)),
      (
        w ++ (b',' ∷ b' ' ∷ t),
        c,
        e,
        space,
        ink,
        ap (λ (x : Bytes). w ++ (b',' ∷ b' ' ∷ x)) eq ∙ sym (append_assoc w _ (c ∷ e)),
      ),
    )

trim_space-Ending :
    (b : ℕ) (s : Bytes) → is_space b ≡ false → Ending (b ∷ s) → trim_space (b ∷ s) ≡ b ∷ s
unfolding Ending
trim_space-Ending b s h (ascii, (t, c, w, space, ink, e)) =
    trim_space-ends b s t c w ascii h space ink e

trim_space-join :
    (w : Bytes) (ws : List Bytes)
    → is_word w ≡ true
    → AreWords ws
    → (trim_space (join (w ∷ ws)) ≡ join (w ∷ ws)) × (is_nil (join (w ∷ ws)) ≡ false)
unfolding is_word join
trim_space-join [] ws h hs = cc
trim_space-join (b ∷ w) [] h hs = (trim_space-word (b ∷ w) h, refl)
trim_space-join (b ∷ w) (v ∷ ws) h hs =
    let (_, ink, _) = word_facts (b ∷ w) (ground (arith, h)) in
    (trim_space-Ending b _ ink.0 (join-Ending (b ∷ w) (v ∷ ws) h hs), refl)

append-Free : (s t : Bytes) → Free s → Free t → Free (s ++ t)
append-Free [] t h k = k
append-Free (c ∷ s) t h k = (h.0, append-Free s t h.1 k)

word-Free : (w : Bytes) → is_word w ≡ true → Free w
unfolding is_word
word-Free w h = (word_facts w (ground (arith, h))).2

split-join :
    (front w : Bytes) (ws : List Bytes)
    → Free front
    → is_word w ≡ true
    → AreWords ws
    → split b',' (front ++ join (w ∷ ws)) ≡ (front ++ w) ∷ map (λ v. b' ' ∷ v) ws
unfolding split join
split-join front w [] free h hs =
    split_onto-Free (front ++ w) [] (append-Free front w free (word-Free w h))
split-join front w (v ∷ ws) free h hs =
    ap (split_onto b',' []) (sym (append_assoc front w (b',' ∷ b' ' ∷ join (v ∷ ws))))
    ∙ split_onto-append (front ++ w) [] _ (append-Free front w free (word-Free w h))
    ∙ ap (λ t. (front ++ w) ∷ t) (split-join (b' ' ∷ []) v ws (refl, tt) hs.0 hs.1)

trim_all-blanks : (ws : List Bytes) → AreWords ws → trim_all (map (λ v. b' ' ∷ v) ws) ≡ ws
unfolding trim_all
trim_all-blanks [] h = refl
trim_all-blanks (w ∷ ws) h = rw (trim_space-blank_word w h.0, trim_all-blanks ws h.1)

pub subprotocols-join :
    (r : Request) (w : Bytes) (ws : List Bytes)
    → get r.header protocol_field ≡ join (w ∷ ws)
    → AreWords (w ∷ ws)
    → subprotocols r ≡ w ∷ ws
unfolding subprotocols trim_all
subprotocols-join r w ws e h =
    let trimmed = trim_space-join w ws h.0 h.1 in
    rw e (
      rw (trimmed.0, trimmed.1)
        (rw (split-join [] w ws tt h.0 h.1) (rw (trim_space-word w h.0, trim_all-blanks ws h.1))))
