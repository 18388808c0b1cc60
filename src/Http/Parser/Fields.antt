-- ===== src/Http/Parser/Fields.antt =====
-- nbhttp/parser.go: the cases of the switch in Parse for the header fields and the empty line that
-- ends them. `tok` is data[start:i], and `c` is data[i].
use nbio.Base.{ℕ, true, false, ◌||◌, [], ◌==◌, if◌then◌else◌, Bytes, is_pos}
use nbio.Go.Header.{canonical_header_key, add}
use nbio.Http.Table.{is_token}
use nbio.Http.Parser.State.{
  Parser, Processor, Outcome, next, fail, header_over_lf, header_key, header_value_before,
  header_value, header_value_lf, body_chunk_size_before, body_content_length, keep, at, after, go,
  with_world, or_set, invalid_char_in_header, lf_expected,
}
use nbio.Http.Parser.Framing.{
  Result, ok, err, is_framing_key, parse_transfer_encoding, parse_content_length, parse_trailer,
  handle_message,
}

module _ {S : Type 0} (h : Processor S) where
  abbrev pub with_trailer : Parser S × Result (Parser S) → Outcome S
  with_trailer (q, ok p) = go p header_over_lf after
  with_trailer (q, err e) = fail q e

  abbrev pub with_length : Parser S → Result (Parser S) → Outcome S
  with_length q (ok p) =
      with_trailer (parse_trailer (with_world p (h.on_content_length p.content_length p.world)))
  with_length q (err e) = fail q e

  abbrev pub with_encoding : Parser S × Result (Parser S) → Outcome S
  with_encoding (q, ok p) = with_length p (parse_content_length p)
  with_encoding (q, err e) = fail q e

  -- At the CR of the empty line: how the body is framed is decided here.
  unfoldable pub end_headers : Parser S → Outcome S
  end_headers p = with_encoding (parse_transfer_encoding p)

  unfoldable pub step_header_key_before : Parser S → Bytes → ℕ → Outcome S
  step_header_key_before p tok c =
      if c == b' '
      then (if p.header_exists then next p keep else fail p invalid_char_in_header)
      else if c == b'\r'
      then end_headers p
      else if c == b'\n'
      then fail p invalid_char_in_header
      else if is_token c
      then go (record p { header_exists = true }) header_key at
      else fail p invalid_char_in_header

  -- A space ends the name, and what stands between it and the colon is passed over.
  unfoldable pub step_header_key : Parser S → Bytes → ℕ → Outcome S
  step_header_key p tok c =
      let named = record p { header_key = or_set p.header_key (canonical_header_key tok) } in
      if c == b' '
      then next named keep
      else if c == b':'
      then go named header_value_before after
      else if c == b'\r' || c == b'\n'
      then fail p invalid_char_in_header
      else if is_token c
      then next p keep
      else fail p invalid_char_in_header

  -- At the CR behind a value. The framing headers are also kept in p.header.
  unfoldable pub end_header : Parser S → Bytes → Outcome S
  end_header p tok =
      let value = or_set p.header_value tok in
      go
        (record p {
          header =
              if is_framing_key p.header_key then add p.header p.header_key value else p.header;
          world = h.on_header p.header_key value p.world;
          header_key = [];
          header_value = [];
        })
        header_value_lf after

  unfoldable pub step_header_value_before : Parser S → Bytes → ℕ → Outcome S
  step_header_value_before p tok c =
      if c == b' '
      then next p keep
      else if c == b'\r'
      then end_header p tok
      else if c == b'\n'
      then fail p invalid_char_in_header
      else go p header_value at

  unfoldable pub step_header_value : Parser S → Bytes → ℕ → Outcome S
  step_header_value p tok c =
      if c == b'\r'
      then end_header p tok
      else if c == b'\n'
      then fail p invalid_char_in_header
      else next p keep

  unfoldable pub step_header_over_lf : Parser S → Bytes → ℕ → Outcome S
  step_header_over_lf p tok c =
      let q = record p { header_exists = false } in
      if c == b'\n'
      then (if p.chunked
          then go q body_chunk_size_before after
          else if is_pos p.content_length
          then go q body_content_length after
          else next (handle_message h q) after)
      else fail p lf_expected
