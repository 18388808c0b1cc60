-- ===== src/Http/Parser/Framing.antt =====
-- nbhttp/parser.go: parseTransferEncoding, parseContentLength, parseTrailer,
-- parseAndValidateChunkSize and handleMessage.
use nbio.Base.{
  ℕ, Bool, true, false, not, ◌||◌, none, some, List, [], ◌∷◌, ◌++◌, ◌==◌, if◌then◌else◌, Bytes,
  codes, equal, ℤ, minus_one, is_neg, is_nil, ltb, pos_part, Option,
}
use nbio.Go.Text.{to_lower, trim_string, contains_byte, split}
use nbio.Go.Number.{parse_int}
use nbio.Go.Header.{canonical_header_key, values, delete, get}
use nbio.Http.Parser.State.{
  Parser, Processor, Error, method_before, client_proto_before, next_state,
  too_many_transfer_encodings, unsupported_transfer_encoding, unexpected_content_length,
  bad_content_length, invalid_content_length, bad_trailer_key, bad_chunk_size,
}

abbrev pub transfer_encoding_header : Bytes
transfer_encoding_header = codes "Transfer-Encoding"

abbrev pub trailer_header : Bytes
trailer_header = codes "Trailer"

abbrev pub content_length_header : Bytes
content_length_header = codes "Content-Length"

-- The largest `int`, where it has 64 bits.
abbrev pub max_int : ℕ
max_int = 9223372036854775807

-- The keys that the parser keeps for itself.
unfoldable pub is_framing_key : Bytes → Bool
unfolding equal
is_framing_key k =
    equal k transfer_encoding_header || equal k trailer_header || equal k content_length_header

pub data Result (A : Type 0) : Type 0 where
  ok : A → Result A
  err : Error → Result A

abbrev pub reject : ℤ → Error → Error → Result ℤ
reject n low high =
    if is_neg n then err low else if ltb max_int (pos_part n) then err high else ok n

unfoldable pub parse_and_validate_chunk_size : Bytes → Result ℤ
unfolding parse_int
parse_and_validate_chunk_size s = elim (parse_int s 16 63) [
  | none ↦ err bad_chunk_size
  | some n ↦ reject n bad_chunk_size bad_chunk_size
]

abbrev pub is_chunked : Bytes → Bool
is_chunked v = equal (to_lower (trim_string v)) (codes "chunked")

-- Drops the spaces at the end; a value of spaces only is kept.
drop_spaces : Bytes → Bytes
drop_spaces [] = []
drop_spaces (c ∷ cs) = keep (drop_spaces cs)
  where
    keep : Bytes → Bytes
    keep [] = if c == b' ' then [] else c ∷ []
    keep (d ∷ ds) = c ∷ d ∷ ds

unfoldable pub trim_end : Bytes → Bytes
unfolding drop_spaces
trim_end s = if is_nil (drop_spaces s) then s else drop_spaces s

module _ {S : Type 0} where
  abbrev pub set_chunked : Parser S → List Bytes → Result (Parser S)
  set_chunked p (v ∷ []) =
      if is_chunked v
      then ok (record p { header = delete p.header content_length_header; chunked = true })
      else err unsupported_transfer_encoding
  set_chunked p _ = err too_many_transfer_encodings

  -- The header is deleted before its values are judged.
  unfoldable pub parse_transfer_encoding : Parser S → Parser S × Result (Parser S)
  unfolding to_lower trim_string equal values delete
  parse_transfer_encoding p = elim (values p.header transfer_encoding_header) [
    | none ↦ (p, ok p)
    | some vs ↦
        let q = record p { header = delete p.header transfer_encoding_header } in
        (q, set_chunked q vs)
  ]

  abbrev pub keep_length : Parser S → Result ℤ → Result (Parser S)
  keep_length p (ok l) = ok (record p { content_length = l })
  keep_length p (err e) = err e

  abbrev pub set_length : Parser S → Option ℤ → Result (Parser S)
  set_length p none = err bad_content_length
  set_length p (some n) = keep_length p (reject n invalid_content_length invalid_content_length)

  unfoldable pub parse_content_length : Parser S → Result (Parser S)
  parse_content_length p =
      let cl = get p.header content_length_header in
      if is_nil cl
      then ok (record p { content_length = minus_one })
      else if p.chunked
      then err unexpected_content_length
      else set_length p (parse_int (trim_end cl) 10 63)

abbrev has_key : Bytes → List Bytes → Bool
has_key k [] = false
has_key k (j ∷ js) = equal j k || has_key k js

-- `trailer[k] = nil` on the set of keys.
unfoldable pub expect : List Bytes → Bytes → List Bytes
unfolding equal
expect ks k = if has_key k ks then ks else ks ++ k ∷ []

-- delete(p.trailer, k)
unfoldable pub unexpect : List Bytes → Bytes → List Bytes
unfolding equal
unexpect [] k = []
unexpect (j ∷ ks) k = if equal j k then unexpect ks k else j ∷ unexpect ks k

-- One name of a Trailer header, trimmed; an empty one is passed over.
unfoldable pub expect_key : List Bytes → Bytes → Result (List Bytes)
unfolding trim_string canonical_header_key is_framing_key expect
expect_key ks name =
    let k = trim_string name in
    let key = canonical_header_key k in
    if is_nil k
    then ok ks
    else if is_framing_key key
    then err bad_trailer_key
    else ok (expect ks key)

unfoldable pub expect_keys : List Bytes → List Bytes → Result (List Bytes)
unfolding expect_key
expect_keys ks [] = ok ks
expect_keys ks (name ∷ names) = elim (expect_key ks name) [
  | ok ks' ↦ expect_keys ks' names
  | err e ↦ err e
]

-- The values of the Trailer headers; a value without a comma is one name.
unfoldable pub expect_values : List Bytes → List Bytes → Result (List Bytes)
unfolding expect_keys split contains_byte trim_string
expect_values ks [] = ok ks
expect_values ks (v ∷ vs) =
    let key = trim_string v in
    elim (if contains_byte b',' key then expect_keys ks (split b',' key) else expect_key ks key) [
      | ok ks' ↦ expect_values ks' vs
      | err e ↦ err e
    ]

module _ {S : Type 0} where
  abbrev set_trailer : Parser S → Result (List Bytes) → Result (Parser S)
  set_trailer p (ok []) = ok p
  set_trailer p (ok (k ∷ ks)) = ok (record p { trailer = k ∷ ks })
  set_trailer p (err e) = err e

  -- Like the Transfer-Encoding, the header is deleted first.
  unfoldable pub parse_trailer : Parser S → Parser S × Result (Parser S)
  unfolding values delete expect_values
  parse_trailer p = if not p.chunked then (p, ok p) else elim (values p.header trailer_header) [
    | none ↦ (p, ok p)
    | some vs ↦
        let q = record p { header = delete p.header trailer_header } in
        (q, set_trailer q (expect_values [] vs))
  ]

  -- The message is reported, and the parser waits for the next one.
  unfoldable pub handle_message : Processor S → Parser S → Parser S
  unfolding next_state
  handle_message h p =
      let (s, upgrade) = h.on_complete p.world in
      next_state
        (record p {
          world = s;
          parser_closer = p.parser_closer || upgrade;
          chunked = false;
          header = [];
          trailer = [];
        })
        (if not p.is_client then method_before else client_proto_before)
