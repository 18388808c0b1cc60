-- ===== src/Http/Parser/Body.antt =====
-- nbhttp/parser.go: the cases of the switch in Parse for the body, its chunks and the trailer.
-- `tok` is data[start:i], `c` is data[i], and `rest` is data[i+1:].
use nbio.Base.{
  ℕ, suc, ◌+◌, not, [], ◌∷◌, ◌++◌, ◌==◌, leb, if◌then◌else◌, Bytes, length, take, minus_one, is_neg,
  is_pos, is_nil, pos_part, ℤ,
}
use nbio.Go.Header.{canonical_header_key}
use nbio.Http.Table.{is_token, is_hex}
use nbio.Http.Parser.State.{
  Parser, Processor, Outcome, next, skip, exit, fail, body_chunk_size, body_chunk_size_before,
  body_chunk_size_lf, body_chunk_data, body_chunk_data_cr, body_chunk_data_lf,
  body_trailer_header_key_before, body_trailer_header_key, body_trailer_header_value_before,
  body_trailer_header_value, body_trailer_header_value_lf, tail_cr, tail_lf, keep, at, after, go,
  checked, or_set, next_state, invalid_char_in_header, lf_expected, cr_expected, invalid_chunk_size,
  trailer_expected, invalid_trailer,
}
use nbio.Http.Parser.Framing.{
  Result, ok, err, parse_and_validate_chunk_size, unexpect, handle_message,
}

module _ {S : Type 0} (h : Processor S) where
  -- `left >= cl`, the call of OnBody, and `goto Exit` where the bytes are not all there.
  unfoldable pub step_body : Parser S → ℕ → (Parser S → Parser S) → Bytes → ℕ → Bytes → Outcome S
  step_body p cl finish tok c rest =
      if leb cl (length tok + suc (length rest))
      then checked p (h.on_body (take cl (tok ++ c ∷ rest)) p.world) (λ q. skip (finish q) cl)
      else exit

  unfoldable pub step_body_content_length : Parser S → Bytes → ℕ → Bytes → Outcome S
  unfolding step_body
  step_body_content_length p = step_body p (pos_part p.content_length) (handle_message h)

  unfoldable pub step_body_chunk_data : Parser S → Bytes → ℕ → Bytes → Outcome S
  unfolding step_body
  step_body_chunk_data p =
      step_body p (pos_part p.chunk_size) (λ q. next_state q body_chunk_data_cr)

  unfoldable pub step_body_chunk_size_before : Parser S → Bytes → ℕ → Outcome S
  step_body_chunk_size_before p tok c =
      if is_hex c
      then go (record p { chunk_size = minus_one }) body_chunk_size at
      else fail p invalid_chunk_size

  abbrev set_chunk_size : Parser S → Result ℤ → (Parser S → Outcome S) → Outcome S
  set_chunk_size p (ok n) rest = rest (record p { chunk_size = n })
  set_chunk_size p (err e) rest = fail p e

  -- `if p.chunkSize < 0 { parse and set it }`
  abbrev with_chunk_size : Parser S → Bytes → (Parser S → Outcome S) → Outcome S
  with_chunk_size p tok rest =
      if is_neg p.chunk_size
      then set_chunk_size p (parse_and_validate_chunk_size tok) rest
      else rest p

  unfoldable pub step_body_chunk_size : Parser S → Bytes → ℕ → Outcome S
  step_body_chunk_size p tok c =
      if c == b' '
      then with_chunk_size p tok (λ q. next q keep)
      else if c == b'\r'
      then with_chunk_size p tok (λ q. go q body_chunk_size_lf after)
      else if not (is_hex c)
      then with_chunk_size p tok (λ q. next q keep)
      else next p keep

  unfoldable pub step_body_chunk_size_lf : Parser S → Bytes → ℕ → Outcome S
  step_body_chunk_size_lf p tok c =
      if c == b'\n'
      then (if is_pos p.chunk_size
          then go p body_chunk_data after
          else if is_nil p.trailer
          then go p tail_cr after
          else go p body_trailer_header_key_before after)
      else fail p lf_expected

  unfoldable pub step_body_chunk_data_cr : Parser S → Bytes → ℕ → Outcome S
  step_body_chunk_data_cr p tok c =
      if c == b'\r' then go p body_chunk_data_lf keep else fail p cr_expected

  unfoldable pub step_body_chunk_data_lf : Parser S → Bytes → ℕ → Outcome S
  step_body_chunk_data_lf p tok c =
      if c == b'\n' then go p body_chunk_size_before keep else fail p lf_expected

  unfoldable pub step_trailer_value_lf : Parser S → Bytes → ℕ → Outcome S
  step_trailer_value_lf p tok c =
      if c == b'\n' then go p body_trailer_header_key_before at else fail p lf_expected

  -- The trailer ends only once every announced header is read. Any other byte is passed over.
  unfoldable pub step_trailer_key_before : Parser S → Bytes → ℕ → Outcome S
  step_trailer_key_before p tok c =
      if is_token c
      then go p body_trailer_header_key at
      else if c == b'\r'
      then (if is_nil p.trailer then go p tail_lf after else fail p trailer_expected)
      else next p keep

  unfoldable pub step_trailer_key : Parser S → Bytes → ℕ → Outcome S
  step_trailer_key p tok c =
      let named = record p { header_key = or_set p.header_key (canonical_header_key tok) } in
      if c == b' '
      then next named keep
      else if c == b':'
      then go named body_trailer_header_value_before after
      else if is_token c
      then next p keep
      else fail p invalid_char_in_header

  abbrev report_trailer : Parser S → Bytes → Outcome S
  report_trailer p value =
      go
        (record p {
          world = h.on_trailer_header p.header_key value p.world;
          header_key = [];
          header_value = [];
        })
        body_trailer_header_value_lf after

  -- An empty value does not strike the header off p.trailer.
  unfoldable pub step_trailer_value_before : Parser S → Bytes → ℕ → Outcome S
  step_trailer_value_before p tok c =
      if c == b' '
      then next p keep
      else if c == b'\r'
      then report_trailer p (or_set p.header_value tok)
      else go p body_trailer_header_value at

  unfoldable pub step_trailer_value : Parser S → Bytes → ℕ → Outcome S
  step_trailer_value p tok c =
      let value = or_set p.header_value tok in
      if c == b' '
      then next (record p { header_value = value }) keep
      else if c == b'\r'
      then (if is_nil p.trailer
          then fail (record p { header_value = value }) invalid_trailer
          else report_trailer (record p { trailer = unexpect p.trailer p.header_key }) value)
      else next p keep

  unfoldable pub step_tail_cr : Parser S → Bytes → ℕ → Outcome S
  step_tail_cr p tok c = if c == b'\r' then go p tail_lf keep else fail p cr_expected

  unfoldable pub step_tail_lf : Parser S → Bytes → ℕ → Outcome S
  step_tail_lf p tok c = if c == b'\n' then next (handle_message h p) after else fail p lf_expected
