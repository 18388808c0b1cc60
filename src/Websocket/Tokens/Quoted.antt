-- ===== src/Websocket/Tokens/Quoted.antt =====
-- nextToken and nextTokenOrQuoted of nbhttp/websocket/upgrader.go on what was written for them.
use nbio.Base.{
  Bool, true, false, ◌||◌, [], ◌∷◌, ◌++◌, ◌≡◌, refl, append-nil, append_assoc, Bytes, ◌==◌,
  if◌then◌else◌, arith,
}
use nbio.Websocket.Tokens.{
  is_token_octet, next_token, unescape, quoted_string, next_token_or_quoted,
}
use nbio.Websocket.Tokens.Words.{all_tokens}

-- A backslash before each quote and each backslash.
pub escaped : Bytes → Bytes
escaped [] = []
escaped (c ∷ s) = if c == b'"' || c == b'\\' then b'\\' ∷ c ∷ escaped s else c ∷ escaped s

unfoldable pub quote : Bytes → Bytes
unfolding escaped
quote v = b'"' ∷ (escaped v ++ b'"' ∷ [])

abbrev pub starts_token : Bytes → Bool
starts_token [] = false
starts_token (c ∷ cs) = is_token_octet c

pub next_token-append :
    (w rest : Bytes)
    → all_tokens w ≡ true
    → starts_token rest ≡ false
    → next_token (w ++ rest) ≡ (w, rest)
unfolding next_token all_tokens
next_token-append [] [] h e = refl
next_token-append [] (c ∷ rest) h e = rw e
next_token-append (c ∷ w) rest h e =
    let token : is_token_octet c ≡ true = ground arith in
    let others : all_tokens w ≡ true = ground arith in
    rw token (rw (next_token-append w rest others e))

unescape-escaped : (v p rest : Bytes) → unescape false p (escaped v ++ b'"' ∷ rest) ≡ (p ++ v, rest)
unfolding unescape escaped
unescape-escaped [] p rest = rw append-nil
unescape-escaped (c ∷ v) p rest =
    ground (arith, unescape-escaped v (p ++ c ∷ []) rest, append_assoc p (c ∷ []) v)

quoted_string-escaped :
    (v front rest : Bytes) → quoted_string front (escaped v ++ b'"' ∷ rest) ≡ (front ++ v, rest)
unfolding quoted_string escaped
quoted_string-escaped [] front rest = rw append-nil
quoted_string-escaped (c ∷ v) front rest = ground (
  arith,
  quoted_string-escaped v (front ++ c ∷ []) rest,
  unescape-escaped v (front ++ c ∷ []) rest,
  append_assoc front (c ∷ []) v,
)

-- nextTokenOrQuoted, of any bytes between quotes with a backslash before each quote and each
-- backslash, gives those bytes and what stands behind the closing quote.
pub next_token_or_quoted-quote :
    (v rest : Bytes) → next_token_or_quoted (quote v ++ rest) ≡ (v, rest)
unfolding next_token_or_quoted quote
next_token_or_quoted-quote v rest = rw append_assoc (quoted_string-escaped v [] rest)
