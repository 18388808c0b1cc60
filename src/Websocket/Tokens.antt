-- ===== src/Websocket/Tokens.antt =====
-- nbhttp/websocket/upgrader.go: the lists of tokens in header fields: skipSpace, nextToken,
-- nextTokenOrQuoted, equalASCIIFold, headerContains and parseExtensions. An extension, a
-- map[string]string, is an association list.
pub mod Words
pub mod Listed
pub mod Quoted
pub mod Params
pub mod Offers
mod Tests
use nbio.Base.{
  ℕ, zero, suc, ◌+◌, Bool, true, false, not, ◌&&◌, ◌||◌, Option, none, some, List, [], ◌∷◌, ◌++◌,
  Bytes, length, is_nil, within, ◌==◌, if◌then◌else◌, equal, codes,
}
use nbio.Go.Header.{Header, values}
use nbio.Go.Text.{contains_byte, is_upper}
use nbio.Go.Runes.{runes}

-- The bytes at which isTokenOctet is true.
abbrev pub token_octets : Bytes
token_octets = codes "!#$%&'*+-.0123456789ABCDEFGHIJKLMNOPQRSTUWVXYZ^_`abcdefghijklmnopqrstuvwxyz|~"

unfoldable pub is_token_octet : ℕ → Bool
unfolding contains_byte
is_token_octet c = contains_byte c token_octets

abbrev pub is_blank : ℕ → Bool
is_blank c = c == b' ' || c == b'\t'

unfoldable pub skip_space : Bytes → Bytes
skip_space [] = []
skip_space (c ∷ cs) = if is_blank c then skip_space cs else c ∷ cs

-- The token and the rest.
unfoldable pub next_token : Bytes → Bytes × Bytes
next_token [] = ([], [])
next_token (c ∷ cs) =
    let more = next_token cs in if is_token_octet c then (c ∷ more.0, more.1) else ([], c ∷ cs)

-- The part of nextTokenOrQuoted behind the first backslash; `p` is what it has copied.
unfoldable pub unescape : (escape : Bool) (p : Bytes) → Bytes → Bytes × Bytes
unescape escape p [] = ([], [])
unescape true p (b ∷ s) = unescape false (p ++ b ∷ []) s
unescape false p (b ∷ s) = elim (b == b'\\') [
  | true ↦ unescape true p s
  | false ↦ elim (b == b'"') [ true ↦ (p, s) | false ↦ unescape false (p ++ b ∷ []) s ]
]

-- The part behind the opening quote; `front` is s[:i].
unfoldable pub quoted_string : (front : Bytes) → Bytes → Bytes × Bytes
unfolding unescape
quoted_string front [] = ([], [])
quoted_string front (c ∷ s) = elim (c == b'"') [
  | true ↦ (front, s)
  | false ↦ elim (c == b'\\') [
    | true ↦ unescape true front s
    | false ↦ quoted_string (front ++ c ∷ []) s
  ]
]

unfoldable pub next_token_or_quoted : Bytes → Bytes × Bytes
unfolding next_token quoted_string
next_token_or_quoted [] = next_token []
next_token_or_quoted (c ∷ s) = if c == b'"' then quoted_string [] s else next_token (c ∷ s)

abbrev fold_rune : ℕ → ℕ
fold_rune r = if is_upper r then r + 32 else r

equal_runes : List (ℕ × Bytes) → List (ℕ × Bytes) → Bool
equal_runes [] [] = true
equal_runes ((r, _) ∷ rs) ((q, _) ∷ qs) =
    (r == q || fold_rune r == fold_rune q) && equal_runes rs qs
equal_runes _ _ = false

unfoldable pub equal_ascii_fold : Bytes → Bytes → Bool
unfolding equal_runes runes
equal_ascii_fold s t = equal_runes (runes s) (runes t)

abbrev pub starts_other : (allowed : ℕ → Bool) → Bytes → Bool
starts_other allowed [] = false
starts_other allowed (c ∷ cs) = not (allowed c)

abbrev pub tail_of : Bytes → Bytes
tail_of [] = []
tail_of (c ∷ cs) = cs

abbrev pub is_comma : ℕ → Bool
is_comma c = c == b','

-- The inner loop of headerContains over one value, a token a round.
unfoldable pub contains_in : ℕ → Bytes → Bytes → Bool
unfolding next_token skip_space
contains_in zero value s = false
contains_in (suc n) value s =
    let t = next_token (skip_space s) in
    let rest = skip_space t.1 in
    let more = contains_in n value (tail_of rest) in
    if is_nil t.0 || starts_other is_comma rest
    then false
    else if equal_ascii_fold t.0 value
    then true
    else if is_nil rest
    then false
    else more

unfoldable pub contains_any : Bytes → List Bytes → Bool
unfolding contains_in
contains_any value [] = false
contains_any value (s ∷ vs) = contains_in (suc (length s)) value s || contains_any value vs

-- header[name], which is nil where the name is missing.
abbrev pub or_nil : Option (List Bytes) → List Bytes
or_nil none = []
or_nil (some vs) = vs

unfoldable pub header_values : Header → Bytes → List Bytes
header_values h name = or_nil (values h name)

unfoldable pub header_contains : Header → Bytes → Bytes → Bool
unfolding contains_any header_values
header_contains h name value = contains_any value (header_values h name)

abbrev pub Extension : Type 0
Extension = List (Bytes × Bytes)

-- ext[k] = v
unfoldable pub put : Extension → Bytes → Bytes → Extension
put [] k v = (k, v) ∷ []
put ((j, w) ∷ e) k v = if equal j k then (j, v) ∷ e else (j, w) ∷ put e k v

-- v, ok := ext[k]
unfoldable pub look : Extension → Bytes → Option Bytes
look [] k = none
look ((j, w) ∷ e) k = if equal j k then some w else look e k

-- The value of a parameter, "" where none is written, and what follows.
unfoldable pub parameter_value : Bytes → Bytes × Bytes
unfolding next_token_or_quoted skip_space
parameter_value [] = ([], [])
parameter_value (c ∷ s) =
    let read = next_token_or_quoted (skip_space s) in
    if c == b'=' then (read.0, skip_space read.1) else ([], c ∷ s)

abbrev pub ends_parameter : ℕ → Bool
ends_parameter c = c == b',' || c == b';'

-- A round of the loop over the parameters of an extension, `go_on` being those to come. `none` goes
-- on with the next value of the header.
unfoldable pub parameter_round :
    (go_on : Extension → Bytes → Option (Extension × Bytes))
    → Extension
    → Bytes
    → Option (Extension × Bytes)
unfolding skip_space next_token parameter_value put
parameter_round go_on ext [] = some (ext, [])
parameter_round go_on ext (c ∷ cs) =
    let k = next_token (skip_space cs) in
    let v = parameter_value (skip_space k.1) in
    if c == b';'
    then (if is_nil k.0 || starts_other ends_parameter v.1
        then none
        else go_on (put ext k.0 v.0) v.1)
    else some (ext, c ∷ cs)

unfoldable pub parameters : ℕ → Extension → Bytes → Option (Extension × Bytes)
unfolding parameter_round
parameters zero ext s = none
parameters (suc n) ext s = parameter_round (parameters n) ext (skip_space s)

-- What a value of the header goes on with behind an extension.
abbrev pub extension_round :
    (go_on : Bytes → List Extension) → Option (Extension × Bytes) → List Extension
extension_round go_on none = []
extension_round go_on (some (ext, [])) = ext ∷ []
extension_round go_on (some (ext, c ∷ cs)) = if is_comma c then ext ∷ go_on cs else []

-- The loop of parseExtensions over one value, an extension a round.
unfoldable pub extensions_in : ℕ → Bytes → List Extension
unfolding next_token skip_space parameters
extensions_in zero s = []
extensions_in (suc n) s =
    let t = next_token (skip_space s) in
    let read = parameters (suc (length t.1)) (([], t.0) ∷ []) t.1 in
    if is_nil t.0 then [] else extension_round (extensions_in n) read

unfoldable pub all_extensions : List Bytes → List Extension
unfolding extensions_in
all_extensions [] = []
all_extensions (s ∷ vs) = extensions_in (suc (length s)) s ++ all_extensions vs

unfoldable pub parse_extensions : Header → List Extension
unfolding all_extensions header_values
parse_extensions h = all_extensions (header_values h (codes "Sec-Websocket-Extensions"))
