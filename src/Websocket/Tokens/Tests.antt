-- ===== src/Websocket/Tokens/Tests.antt =====
-- Runs of the token lists of nbhttp/websocket/upgrader.go.
use nbio.Base.{true, false, [], ◌∷◌, ◌≡◌, refl, codes, equal}
use nbio.Go.Runes.{trim_space}
use nbio.Websocket.Tokens.{
  equal_ascii_fold, contains_in, extensions_in, Extension, next_token_or_quoted, is_token_octet,
}

folds_ascii : equal_ascii_fold (codes "WebSocket") (codes "websocket") ≡ true
unfolding equal_ascii_fold
folds_ascii = refl

-- Bytes that are no UTF-8 all decode to one rune.
folds_invalid : equal_ascii_fold (0xff ∷ []) (0xfe ∷ []) ≡ true
unfolding equal_ascii_fold
folds_invalid = refl

finds_second : contains_in 30 (codes "upgrade") (codes "keep-alive , Upgrade") ≡ true
unfolding contains_in equal_ascii_fold is_token_octet
finds_second = refl

stops_at_malformed : contains_in 30 (codes "upgrade") (codes "keep alive, Upgrade") ≡ false
unfolding contains_in equal_ascii_fold is_token_octet
stops_at_malformed = refl

unescapes : next_token_or_quoted (codes "\"a\\\"b\";c") ≡ (codes "a\"b", codes ";c")
unfolding next_token_or_quoted
unescapes = refl

abbrev deflate : Extension
deflate = ([], codes "permessage-deflate") ∷ (codes "bits", codes "10") ∷ (codes "flag", []) ∷ []

reads_offers :
    extensions_in 60 (codes "permessage-deflate; bits=10; flag, x")
    ≡ deflate ∷ (([], codes "x") ∷ []) ∷ []
unfolding extensions_in is_token_octet equal
reads_offers = refl

-- A quoted string that is not closed is read as "", and its extension is taken.
unclosed_is_taken :
    extensions_in 20 (codes "x; k=\"v") ≡ (([], codes "x") ∷ (codes "k", []) ∷ []) ∷ []
unfolding extensions_in is_token_octet equal
unclosed_is_taken = refl

trims : trim_space (0xc2 ∷ 0xa0 ∷ codes " chat \t") ≡ codes "chat"
unfolding trim_space
trims = refl
