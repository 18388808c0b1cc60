-- ===== src/Websocket/Tokens/Params.antt =====
-- The parameters of an extension, as parseExtensions of nbhttp/websocket/upgrader.go reads them.
use nbio.Base.{
  ℕ, suc, ◌+◌, ◌≤◌, ◌<◌, true, false, Option, some, List, [], ◌∷◌, ◌++◌, ◌≡◌, refl, ◌∙◌, Bytes,
  length, length-append, is_nil, Bool-cases, ==_iff, inl, inr, zero, ◌==◌, arith,
}
use nbio.Websocket.Tokens.{
  is_token_octet, is_comma, skip_space, next_token, next_token_or_quoted, starts_other,
  ends_parameter, parameter_value, parameter_round, parameters, Extension, put,
}
use nbio.Websocket.Tokens.Words.{all_tokens, is_word, blank_no_token}
use nbio.Websocket.Tokens.Quoted.{
  quote, starts_token, next_token-append, next_token_or_quoted-quote,
}

-- A parameter with no value, with a token, or with a quoted string.
pub data Written : Type 0 where
  flag : Written
  bare quoted : Bytes → Written

abbrev pub value_of : Written → Bytes
value_of flag = []
value_of (bare v) = v
value_of (quoted v) = v

abbrev pub IsWritten : Written → Type 0
IsWritten flag = Unit {0}
IsWritten (bare v) = is_word v ≡ true
IsWritten (quoted v) = Unit {0}

abbrev pub AreParams : List (Bytes × Written) → Type 0
AreParams [] = Unit {0}
AreParams ((k, w) ∷ ps) = (is_word k ≡ true) × IsWritten w × AreParams ps

written_text : Written → Bytes → Bytes
written_text flag rest = rest
written_text (bare v) rest = b'=' ∷ (v ++ rest)
written_text (quoted v) rest = b'=' ∷ (quote v ++ rest)

unfoldable pub params_text : List (Bytes × Written) → Bytes → Bytes
unfolding written_text
params_text [] rest = rest
params_text ((k, w) ∷ ps) rest = b';' ∷ b' ' ∷ (k ++ written_text w (params_text ps rest))

abbrev pub params_of : Extension → List (Bytes × Written) → Extension
params_of ext [] = ext
params_of ext ((k, w) ∷ ps) = params_of (put ext k (value_of w)) ps

-- What can stand behind a parameter: nothing, a semicolon or a comma.
abbrev Ends : Bytes → Type 0
Ends [] = Unit {0}
Ends (c ∷ cs) = ends_parameter c ≡ true

-- What can stand behind an extension: nothing or a comma.
abbrev pub Behind : Bytes → Type 0
Behind [] = Unit {0}
Behind (c ∷ cs) = is_comma c ≡ true

Behind-Ends : (s : Bytes) → Behind s → Ends s
Behind-Ends [] h = tt
Behind-Ends (c ∷ cs) h = rw h

pub params_text-Ends :
    (ps : List (Bytes × Written)) (s : Bytes) → Behind s → Ends (params_text ps s)
unfolding params_text
params_text-Ends [] s h = Behind-Ends s h
params_text-Ends ((k, w) ∷ ps) s h = refl

ends_no_token : (c : ℕ) → ends_parameter c ≡ true → is_token_octet c ≡ false
unfolding is_token_octet
ends_no_token c h = elim (Bool-cases (is_comma c)) [
  | inl e ↦ rw ((==_iff c b',').0 e) refl
  | inr e ↦ rw ((==_iff c b';').0 (ground (arith, e))) refl
]

pub Ends-starts_token : (s : Bytes) → Ends s → starts_token s ≡ false
Ends-starts_token [] h = refl
Ends-starts_token (c ∷ cs) h = ends_no_token c h

skip_space-Ends : (s : Bytes) → Ends s → skip_space s ≡ s
unfolding skip_space
skip_space-Ends [] h = refl
skip_space-Ends (c ∷ cs) h = ground arith

starts_other-Ends : (s : Bytes) → Ends s → starts_other ends_parameter s ≡ false
starts_other-Ends [] h = refl
starts_other-Ends (c ∷ cs) h = rw h

pub skip_space-word : (k rest : Bytes) → is_word k ≡ true → skip_space (k ++ rest) ≡ k ++ rest
unfolding skip_space is_word all_tokens
skip_space-word [] rest h = cc
skip_space-word (c ∷ k) rest h = ground (arith, blank_no_token c)

all_tokens-word : (k : Bytes) → is_word k ≡ true → all_tokens k ≡ true
unfolding is_word
all_tokens-word k h = ground arith

pub next_token-word :
    (w rest : Bytes)
    → is_word w ≡ true
    → starts_token rest ≡ false
    → next_token (w ++ rest) ≡ (w, rest)
next_token-word w rest h e = next_token-append w rest (all_tokens-word w h) e

quote_no_token : is_token_octet b'"' ≡ false
unfolding is_token_octet
quote_no_token = refl

first_token : (c : ℕ) (w : Bytes) → is_word (c ∷ w) ≡ true → is_token_octet c ≡ true
unfolding is_word all_tokens
first_token c w h = ground arith

no_quote : (c : ℕ) → is_token_octet c ≡ true → (c == b'"') ≡ false
no_quote c h = elim (Bool-cases (c == b'"')) [
  | inl e ↦ cc (rw ((==_iff c b'"').0 e, quote_no_token) at h)
  | inr e ↦ e
]

quoted_word :
    (w rest : Bytes) → is_word w ≡ true → next_token_or_quoted (w ++ rest) ≡ next_token (w ++ rest)
unfolding next_token_or_quoted is_word
quoted_word [] rest h = cc
quoted_word (c ∷ w) rest h = rw (no_quote c (first_token c w h))

skip_space-quote : (v rest : Bytes) → skip_space (quote v ++ rest) ≡ quote v ++ rest
unfolding skip_space quote
skip_space-quote v rest = refl

parameter_value-text :
    (w : Written) (rest : Bytes)
    → IsWritten w
    → Ends rest
    → parameter_value (written_text w rest) ≡ (value_of w, rest)
unfolding parameter_value written_text
parameter_value-text flag [] h e = refl
parameter_value-text flag (c ∷ rest) h e = ground arith
parameter_value-text (bare v) rest h e =
    rw
      (
        skip_space-word v rest h,
        quoted_word v rest h,
        next_token-word v rest h (Ends-starts_token rest e),
      )
      (rw (skip_space-Ends rest e))
parameter_value-text (quoted v) rest h e =
    rw (skip_space-quote v rest, next_token_or_quoted-quote v rest, skip_space-Ends rest e)

written_text_token :
    (w : Written) (rest : Bytes) → Ends rest → starts_token (written_text w rest) ≡ false
unfolding written_text is_token_octet
written_text_token flag rest h = Ends-starts_token rest h
written_text_token (bare v) rest h = refl
written_text_token (quoted v) rest h = refl

skip_space-written_text :
    (w : Written) (rest : Bytes)
    → Ends rest
    → skip_space (written_text w rest) ≡ written_text w rest
unfolding written_text skip_space
skip_space-written_text flag rest h = skip_space-Ends rest h
skip_space-written_text (bare v) rest h = refl
skip_space-written_text (quoted v) rest h = refl

pub word_ne_nil : (k : Bytes) → is_word k ≡ true → is_nil k ≡ false
unfolding is_word
word_ne_nil k h = ground arith

pub skip_space-blank : (s : Bytes) → skip_space (b' ' ∷ s) ≡ skip_space s
unfolding skip_space
skip_space-blank s = refl

-- The round of one parameter.
parameter_round-text :
    (go_on : Extension → Bytes → Option (Extension × Bytes))
    → (ext : Extension) (k : Bytes) (w : Written) (rest : Bytes) → is_word k ≡ true
    → IsWritten w
    → Ends rest
    → parameter_round go_on ext (b';' ∷ b' ' ∷ (k ++ written_text w rest))
      ≡ go_on (put ext k (value_of w)) rest
unfolding parameter_round
parameter_round-text go_on ext k w rest h written e =
    rw (skip_space-blank (k ++ written_text w rest), skip_space-word k (written_text w rest) h)
      (rw
        (
          next_token-word k _ h (written_text_token w rest e),
          skip_space-written_text w rest e,
          parameter_value-text w rest written e,
        )
        (rw (word_ne_nil k h, starts_other-Ends rest e)))

-- The loop over the parameters ends at what stands behind them.
parameter_round-Behind :
    (go_on : Extension → Bytes → Option (Extension × Bytes)) (ext : Extension) (rest : Bytes)
    → Behind rest
    → parameter_round go_on ext rest ≡ some (ext, rest)
unfolding parameter_round
parameter_round-Behind go_on ext [] b = refl
parameter_round-Behind go_on ext (c ∷ cs) b = rw ((==_iff c b',').0 b)

pub parameters-text :
    (n : ℕ) (ps : List (Bytes × Written)) (ext : Extension) (rest : Bytes)
    → AreParams ps
    → Behind rest
    → length ps < n
    → parameters n ext (params_text ps rest) ≡ some (params_of ext ps, rest)
unfolding parameters params_text skip_space
parameters-text zero ps ext rest h b lt = absurd (omega arith)
parameters-text (suc n) [] ext rest h b lt =
    rw (skip_space-Ends rest (Behind-Ends rest b))
      (parameter_round-Behind (parameters n) ext rest b)
parameters-text (suc n) ((k, w) ∷ ps) ext rest (word, written, others) b lt =
    let more = params_text ps rest in
    parameter_round-text (parameters n) ext k w more word written (params_text-Ends ps rest b)
    ∙ parameters-text n ps _ rest others b (omega arith)

pub length_params-le :
    (ps : List (Bytes × Written)) (rest : Bytes)
    → length ps + length rest ≤ length (params_text ps rest)
unfolding params_text
length_params-le [] rest = omega arith
length_params-le ((k, flag) ∷ ps) rest =
    omega (arith, length-append {0} k (params_text ps rest), length_params-le ps rest)
length_params-le ((k, bare v) ∷ ps) rest =
    let whole = b'=' ∷ (v ++ params_text ps rest) in
    omega (
      arith,
      length-append {0} k whole,
      length-append {0} v (params_text ps rest),
      length_params-le ps rest,
    )
length_params-le ((k, quoted v) ∷ ps) rest =
    let whole = b'=' ∷ (quote v ++ params_text ps rest) in
    omega (
      arith,
      length-append {0} k whole,
      length-append {0} (quote v) (params_text ps rest),
      length_params-le ps rest,
    )
