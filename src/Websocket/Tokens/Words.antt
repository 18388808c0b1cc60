-- ===== src/Websocket/Tokens/Words.antt =====
-- The words of a list that is split at the commas, and what nextToken and skipSpace of
-- nbhttp/websocket/upgrader.go make of one entry.
use nbio.Base.{
  ℕ, Bool, true, false, not, ◌&&◌, ◌||◌, List, [], ◌∷◌, ◌++◌, inl, inr, ◌≡◌, refl, ap, ◌∙◌, Bytes,
  is_nil, is_nil-eq, Bool-cases, ◌==◌, ==_iff, if◌then◌else◌, arith,
}
use nbio.Go.Text.{split}
use nbio.Websocket.Tokens.{
  is_token_octet, is_blank, is_comma, skip_space, next_token, equal_ascii_fold,
}

unfoldable pub keep_end : ℕ → Bytes → Bytes
keep_end c [] = if is_blank c then [] else c ∷ []
keep_end c (d ∷ ds) = c ∷ d ∷ ds

unfoldable pub trim_end : Bytes → Bytes
unfolding keep_end
trim_end [] = []
trim_end (c ∷ cs) = keep_end c (trim_end cs)

-- Without the blanks and tabs at both ends.
unfoldable pub trim_blank : Bytes → Bytes
unfolding trim_end skip_space
trim_blank s = trim_end (skip_space s)

unfoldable pub all_tokens : Bytes → Bool
all_tokens [] = true
all_tokens (c ∷ cs) = is_token_octet c && all_tokens cs

unfoldable pub is_word : Bytes → Bool
unfolding all_tokens
is_word w = not (is_nil w) && all_tokens w

-- The words of a list, up to the first entry that is none.
unfoldable pub words : List Bytes → List Bytes
unfolding trim_blank is_word
words [] = []
words (p ∷ ps) = if is_word (trim_blank p) then trim_blank p ∷ words ps else []

unfoldable pub names : Bytes → List Bytes → Bool
names value [] = false
names value (w ∷ ws) = equal_ascii_fold w value || names value ws

-- Some value of the header, split at the commas, names it.
unfoldable pub lists : Bytes → List Bytes → Bool
unfolding words names split
lists value [] = false
lists value (s ∷ vs) = names value (words (split b',' s)) || lists value vs

abbrev pub Free : Bytes → Type 0
Free [] = Unit {0}
Free (c ∷ cs) = (is_comma c ≡ false) × Free cs

pub skip_space-Free : (s : Bytes) → Free s → Free (skip_space s)
unfolding skip_space
skip_space-Free [] h = tt
skip_space-Free (c ∷ cs) h = elim (Bool-cases (is_blank c)) [
  | inl e ↦ rw e (skip_space-Free cs h.1)
  | inr e ↦ rw e h
]

pub next_token-Free : (s : Bytes) → Free s → Free (next_token s).1
unfolding next_token
next_token-Free [] h = tt
next_token-Free (c ∷ cs) h = elim (Bool-cases (is_token_octet c)) [
  | inl e ↦ rw e (next_token-Free cs h.1)
  | inr e ↦ rw e h
]

pub comma_no_token : is_token_octet b',' ≡ false
unfolding is_token_octet
comma_no_token = refl

pub blank_no_token : (c : ℕ) → is_blank c ≡ true → is_token_octet c ≡ false
unfolding is_token_octet
blank_no_token c h = elim (Bool-cases (c == b' ')) [
  | inl e ↦ rw ((==_iff c b' ').0 e) refl
  | inr e ↦ rw ((==_iff c b'\t').0 (ground (arith, e))) refl
]

pub skip_space-append :
    (s rest : Bytes) → skip_space (s ++ b',' ∷ rest) ≡ skip_space s ++ b',' ∷ rest
unfolding skip_space
skip_space-append [] rest = refl
skip_space-append (c ∷ cs) rest = ground (arith, skip_space-append cs rest)

pub next_token-append :
    (s rest : Bytes)
    → next_token (s ++ b',' ∷ rest) ≡ ((next_token s).0, (next_token s).1 ++ b',' ∷ rest)
unfolding next_token
next_token-append [] rest = rw comma_no_token
next_token-append (c ∷ cs) rest = elim (Bool-cases (is_token_octet c)) [
  | inl e ↦ rw e (rw (next_token-append cs rest))
  | inr e ↦ rw e
]

pub keep_end_token : (c : ℕ) (s : Bytes) → is_token_octet c ≡ true → keep_end c s ≡ c ∷ s
unfolding keep_end
keep_end_token c [] h = ground (arith, blank_no_token c)
keep_end_token c (d ∷ ds) h = refl

pub is_nil-trim_end : (s : Bytes) → is_nil (trim_end s) ≡ is_nil (skip_space s)
unfolding skip_space trim_end
is_nil-trim_end [] = refl
is_nil-trim_end (c ∷ cs) = at_end c (trim_end cs) _ (is_nil-trim_end cs)
  where
    at_end :
        (c : ℕ) (t s : Bytes)
        → is_nil t ≡ is_nil s
        → is_nil (keep_end c t) ≡ is_nil (if is_blank c then s else c ∷ cs)
    at_end c [] s h = ground arith
    at_end c (d ∷ ds) s h = ground arith

pub all_tokens-keep_end :
    (c : ℕ) (t : Bytes)
    → is_token_octet c ≡ false
    → is_nil (keep_end c t) ≡ false
    → all_tokens (keep_end c t) ≡ false
unfolding keep_end all_tokens
all_tokens-keep_end c [] e h = ground arith
all_tokens-keep_end c (d ∷ ds) e h = rw e

-- A word that blanks follow is what is left of them.
pub trim_end-next_token :
    (s : Bytes) → is_nil (skip_space (next_token s).1) ≡ true → trim_end s ≡ (next_token s).0
unfolding next_token trim_end
trim_end-next_token [] h = refl
trim_end-next_token (c ∷ cs) h = elim (Bool-cases (is_token_octet c)) [
  | inl e ↦
      rw e (keep_end_token c _ e ∙ ap (λ t. c ∷ t) (trim_end-next_token cs (ground (arith, h, e))))
  | inr e ↦ rw e (is_nil-eq _ (is_nil-trim_end (c ∷ cs) ∙ ground (arith, h, e)))
]

-- Anything else behind a word is left there.
pub trim_end_more :
    (s : Bytes) → is_nil (skip_space (next_token s).1) ≡ false → all_tokens (trim_end s) ≡ false
unfolding next_token trim_end all_tokens
trim_end_more [] h = unfold skip_space in cc
trim_end_more (c ∷ cs) h = elim (Bool-cases (is_token_octet c)) [
  | inl e ↦ rw (keep_end_token c _ e) (rw (e, trim_end_more cs (ground (arith, h, e))))
  | inr e ↦ all_tokens-keep_end c _ e (is_nil-trim_end (c ∷ cs) ∙ ground (arith, h, e))
]

pub all_tokens-next_token : (s : Bytes) → all_tokens (next_token s).0 ≡ true
unfolding next_token all_tokens
all_tokens-next_token [] = refl
all_tokens-next_token (c ∷ cs) = ground (arith, all_tokens-next_token cs)
