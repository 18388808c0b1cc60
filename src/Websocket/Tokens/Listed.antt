-- ===== src/Websocket/Tokens/Listed.antt =====
-- headerContains of nbhttp/websocket/upgrader.go against a list that is split at the commas.
use nbio.Base.{
  ℕ, zero, suc, ◌<◌, true, false, not, ◌&&◌, ◌||◌, List, [], ◌∷◌, ◌++◌, ◌⊎◌, inl, inr, ◌≡◌, refl,
  ap, ◌∙◌, append-nil, append_assoc, Bytes, length, length-append, is_nil, is_nil-eq, Bool-cases,
  ==_iff, arith,
}
use nbio.Go.Header.{Header}
use nbio.Go.Text.{split, split_onto}
use nbio.Websocket.Tokens.{
  is_comma, skip_space, next_token, equal_ascii_fold, starts_other, contains_in, contains_any,
  header_values, header_contains,
}
use nbio.Websocket.Tokens.Words.{
  trim_blank, is_word, words, names, lists, Free, skip_space-Free, next_token-Free,
  skip_space-append, next_token-append, trim_end-next_token, trim_end_more, all_tokens-next_token,
}

pub split_onto-append :
    (p word rest : Bytes)
    → Free p
    → split_onto b',' word (p ++ b',' ∷ rest) ≡ (word ++ p) ∷ split b',' rest
unfolding split
split_onto-append [] word rest h = rw append-nil
split_onto-append (c ∷ p) word rest h =
    rw h.0 (split_onto-append p (word ++ c ∷ []) rest h.1 ∙ rw append_assoc)

pub split_onto-Free : (p word : Bytes) → Free p → split_onto b',' word p ≡ (word ++ p) ∷ []
unfolding split
split_onto-Free [] word h = rw append-nil
split_onto-Free (c ∷ p) word h = rw h.0 (split_onto-Free p (word ++ c ∷ []) h.1 ∙ rw append_assoc)

starts_other-append :
    (r rest : Bytes) → Free r → starts_other is_comma (r ++ b',' ∷ rest) ≡ not (is_nil r)
starts_other-append [] rest h = refl
starts_other-append (c ∷ r) rest h = rw h.0

starts_other-Free : (r : Bytes) → Free r → starts_other is_comma r ≡ not (is_nil r)
starts_other-Free [] h = refl
starts_other-Free (c ∷ r) h = rw h.0

-- What the round over an entry finds behind its blanks: a word or none, or something behind it.
Round : Bytes → Type 0
unfolding trim_blank is_word
Round p =
    let t = next_token (skip_space p) in
    ((is_nil (skip_space t.1) ≡ true)
      × (trim_blank p ≡ t.0)
      × (is_word (trim_blank p) ≡ not (is_nil t.0)))
    ⊎ ((is_nil (skip_space t.1) ≡ false) × (is_word (trim_blank p) ≡ false))

Round-all : (p : Bytes) → Round p
unfolding Round
Round-all p = elim (Bool-cases (is_nil (skip_space (next_token (skip_space p)).1))) [
  | inl e ↦
      let same = trim_end-next_token (skip_space p) e in
      inl (e, same, rw same (rw (all_tokens-next_token (skip_space p)) (ground arith)))
  | inr e ↦ inr (e, rw (trim_end_more (skip_space p) e) (ground arith))
]

module _ (n : ℕ) (value : Bytes) where
  contains_in-append :
      (p rest : Bytes)
      → Free p
      → contains_in (suc n) value (p ++ b',' ∷ rest)
        ≡ is_word (trim_blank p)
          && (equal_ascii_fold (trim_blank p) value || contains_in n value rest)
  unfolding contains_in Round
  contains_in-append p rest h =
      let clean = skip_space-Free _ (next_token-Free _ (skip_space-Free p h)) in
      rw (skip_space-append p rest, next_token-append (skip_space p) rest)
        (rw skip_space-append (elim (Round-all p) [
          | inl (e, same, word) ↦ rw (word, same, is_nil-eq _ e) (ground arith)
          | inr (e, word) ↦ rw (word, starts_other-append _ rest clean, e) (ground arith)
        ]))

  contains_in-Free :
      (p : Bytes)
      → Free p
      → contains_in (suc n) value p
        ≡ is_word (trim_blank p) && equal_ascii_fold (trim_blank p) value
  unfolding contains_in Round
  contains_in-Free p h =
      let clean = skip_space-Free _ (next_token-Free _ (skip_space-Free p h)) in
      elim (Round-all p) [
        | inl (e, same, word) ↦ rw (word, same, is_nil-eq _ e) (ground arith)
        | inr (e, word) ↦ rw (word, starts_other-Free _ clean, e) (ground arith)
      ]

-- A value is one entry, or an entry, a comma and the entries behind it.
Entries : Bytes → Type 0
Entries s = Free s ⊎ ((p : Bytes) × (rest : Bytes) × Free p × (s ≡ p ++ b',' ∷ rest))

Entries-all : (s : Bytes) → Entries s
unfolding Entries
Entries-all [] = inl tt
Entries-all (c ∷ cs) = elim (Bool-cases (is_comma c)) [
  | inl e ↦ inr ([], cs, tt, rw ((==_iff c b',').0 e))
  | inr e ↦ elim (Entries-all cs) [
    | inl h ↦ inl (e, h)
    | inr (p, rest, h, eq) ↦ inr (c ∷ p, rest, (e, h), ap (λ t. c ∷ t) eq)
  ]
]

contains_in-words :
    (n : ℕ) (value s : Bytes)
    → length s < n
    → contains_in n value s ≡ names value (words (split b',' s))
unfolding words names split Entries
contains_in-words zero value s h = absurd (omega arith)
contains_in-words (suc n) value s h = elim (Entries-all s) [
  | inl free ↦ rw (split_onto-Free s [] free) (contains_in-Free n value s free ∙ ground arith)
  | inr (p, rest, free, eq) ↦
      let short : length rest < n =
        omega (arith, ap length eq, length-append {0} p (b',' ∷ rest)) in
      rw (eq, split_onto-append p [] rest free)
        (contains_in-append n value p rest free
          ∙ ground (arith, contains_in-words n value rest short))
]

contains_any-lists : (value : Bytes) (vs : List Bytes) → contains_any value vs ≡ lists value vs
unfolding contains_any lists
contains_any-lists value [] = refl
contains_any-lists value (s ∷ vs) =
    rw (contains_in-words (suc (length s)) value s (omega arith)) (rw (contains_any-lists value vs))

-- headerContains, of any value of any header: the values are each split at the commas, and the
-- entries read from the left as long as they are tokens with blanks around; one of them is the
-- value that is looked for, but for the case of letters.
pub header_contains_lem :
    (h : Header) (name value : Bytes)
    → header_contains h name value ≡ lists value (header_values h name)
unfolding header_contains
header_contains_lem h name value = contains_any-lists value (header_values h name)
