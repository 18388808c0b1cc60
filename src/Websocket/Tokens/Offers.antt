-- ===== src/Websocket/Tokens/Offers.antt =====
-- parseExtensions of nbhttp/websocket/upgrader.go on extensions that were written for it.
use nbio.Base.{
  ℕ, suc, ◌≤◌, ◌<◌, true, some, List, [], ◌∷◌, ◌++◌, ◌≡◌, refl, ap, ◌∙◌, map, Bytes, length,
  length-append, zero, codes, arith,
}
use mathlib.Core.List.{map-append}
use nbio.Go.Header.{Header}
use nbio.Websocket.Tokens.{
  skip_space, next_token, Extension, extensions_in, extension_round, all_extensions,
  parse_extensions, header_values,
}
use nbio.Websocket.Tokens.Words.{is_word}
use nbio.Websocket.Tokens.Params.{
  Written, AreParams, params_text, params_of, Behind, word_ne_nil, parameters-text,
  length_params-le, next_token-word, skip_space-word, Ends-starts_token, params_text-Ends,
  skip_space-blank,
}

pub record Offer : Type 0 where
  pub token : Bytes
  pub params : List (Bytes × Written)

abbrev pub AreOffers : List Offer → Type 0
AreOffers [] = Unit {0}
AreOffers (o ∷ os) = (is_word o.token ≡ true) × AreParams o.params × AreOffers os

-- Extensions as RFC 6455 has them, a comma and a blank between two.
unfoldable pub offers_text : List Offer → Bytes
unfolding params_text
offers_text [] = []
offers_text (o ∷ []) = o.token ++ params_text o.params []
offers_text (o ∷ p ∷ os) = o.token ++ params_text o.params (b',' ∷ b' ' ∷ offers_text (p ∷ os))

-- The map of an extension: its token at "", then each parameter, a later one over an earlier one.
abbrev pub extension_of : Offer → Extension
extension_of o = params_of (([], o.token) ∷ []) o.params

extensions_in-offer :
    (n : ℕ) (o : Offer) (rest : Bytes)
    → is_word o.token ≡ true
    → AreParams o.params
    → Behind rest
    → extensions_in (suc n) (o.token ++ params_text o.params rest)
      ≡ extension_round (extensions_in n) (some (extension_of o, rest))
unfolding extensions_in
extensions_in-offer n o rest word are b =
    let text = params_text o.params rest in
    let clean = Ends-starts_token text (params_text-Ends o.params rest b) in
    let enough : length o.params < suc (length text) =
      omega (arith, length_params-le o.params rest) in
    rw (skip_space-word o.token text word, next_token-word o.token text word clean)
      (rw (word_ne_nil o.token word) (
        ap (extension_round (extensions_in n))
          (parameters-text (suc (length text)) o.params (([], o.token) ∷ []) rest are b enough)))

extensions_in-blank : (n : ℕ) (s : Bytes) → extensions_in n (b' ' ∷ s) ≡ extensions_in n s
unfolding extensions_in
extensions_in-blank zero s = refl
extensions_in-blank (suc n) s = rw (skip_space-blank s)

extensions_in-offers_text :
    (n : ℕ) (os : List Offer)
    → AreOffers os
    → length os < n
    → extensions_in n (offers_text os) ≡ map extension_of os
unfolding offers_text
extensions_in-offers_text zero os h lt = absurd (omega arith)
extensions_in-offers_text (suc n) [] h lt = unfold extensions_in skip_space next_token in refl
extensions_in-offers_text (suc n) (o ∷ []) (word, are, _) lt =
    extensions_in-offer n o [] word are tt
extensions_in-offers_text (suc n) (o ∷ p ∷ os) (word, are, others) lt =
    extensions_in-offer n o _ word are refl
    ∙ ap (λ t. extension_of o ∷ t)
        (extensions_in-blank n _ ∙ extensions_in-offers_text n (p ∷ os) others (omega arith))

word_length : (k : Bytes) → is_word k ≡ true → 0 < length k
unfolding is_word
word_length [] h = cc
word_length (c ∷ k) h = omega arith

length_offers-le : (os : List Offer) → AreOffers os → length os ≤ length (offers_text os)
unfolding offers_text
length_offers-le [] h = omega arith
length_offers-le (o ∷ []) h =
    omega (arith, length-append {0} o.token (params_text o.params []), word_length o.token h.0)
length_offers-le (o ∷ p ∷ os) (word, _, others) =
    let rest = b',' ∷ b' ' ∷ offers_text (p ∷ os) in
    omega (
      arith,
      length-append {0} o.token (params_text o.params rest),
      length_params-le o.params rest,
      length_offers-le (p ∷ os) others,
    )

abbrev pub joined : List (List Offer) → List Offer
joined [] = []
joined (os ∷ oss) = os ++ joined oss

abbrev pub AreAllOffers : List (List Offer) → Type 0
AreAllOffers [] = Unit {0}
AreAllOffers (os ∷ oss) = AreOffers os × AreAllOffers oss

all_extensions-offers_text :
    (oss : List (List Offer))
    → AreAllOffers oss
    → all_extensions (map offers_text oss) ≡ map extension_of (joined oss)
unfolding all_extensions
all_extensions-offers_text [] h = refl
all_extensions-offers_text (os ∷ oss) h =
    let text = offers_text os in
    let enough : length os < suc (length text) = omega (arith, length_offers-le os h.0) in
    rw (
      extensions_in-offers_text (suc (length text)) os h.0 enough,
      all_extensions-offers_text oss h.1,
      map-append,
    )

-- parseExtensions gives the extensions that were written into the header, value by value, each with
-- its token and its parameters. The tokens, the names and the values that are not quoted are words;
-- quoted values are any bytes.
pub parse_extensions-offers_text :
    (h : Header) (oss : List (List Offer))
    → AreAllOffers oss
    → header_values h (codes "Sec-Websocket-Extensions") ≡ map offers_text oss
    → parse_extensions h ≡ map extension_of (joined oss)
unfolding parse_extensions
parse_extensions-offers_text h oss are written = rw written (all_extensions-offers_text oss are)
