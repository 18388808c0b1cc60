-- ===== src/Http/Parser/Loop.antt =====
-- nbhttp/parser.go: the switch, the loop of Parse with its exit, Parse and CloseAndClean.
-- The loop's variables are the bytes data[start:i] and data[i:] of the code's buffer.
use nbio.Base.{
  ℕ, zero, suc, ◌+◌, true, false, not, ◌&&◌, Option, none, some, [], ◌∷◌, ◌++◌, ltb, if◌then◌else◌,
  Bytes, length, drop, is_nil,
}
use nbio.Http.Parser.State.{
  Parser, Processor, Outcome, next, skip, exit, fail, token, with_world, is_close, Error, closed,
  too_long, next_state, State, close, method_before, method, path_before, path, proto_before, proto,
  proto_lf, client_proto_before, client_proto, status_code_before, status_code, status_before,
  status, status_lf, header_key_before, header_value_lf, header_key, header_value_before,
  header_value, body_content_length, header_over_lf, body_chunk_size_before, body_chunk_size,
  body_chunk_size_lf, body_chunk_data, body_chunk_data_cr, body_chunk_data_lf,
  body_trailer_header_value_lf, body_trailer_header_key_before, body_trailer_header_key,
  body_trailer_header_value_before, body_trailer_header_value, tail_cr, tail_lf,
}
use nbio.Http.Parser.Framing.{handle_message}
use nbio.Http.Parser.StartLine
use nbio.Http.Parser.Fields
use nbio.Http.Parser.Body

-- How a call of Parse ends: with nil, with an error, or (in the model alone) out of fuel.
pub data Finish (S : Type 0) : Type 0 where
  ok : Parser S → Finish S
  err : Parser S → Error → Finish S
  out_of_fuel : Finish S

module _ {S : Type 0} (h : Processor S) where
  -- A proof that unfolds `step_in` sees through the cases.
  unfoldable pub step_in : State → Parser S → Bytes → ℕ → Bytes → Outcome S
  unfolding next_state handle_message StartLine.step_method_before StartLine.step_method
      StartLine.step_path_before StartLine.step_path StartLine.step_proto_before
      StartLine.step_proto StartLine.step_client_proto_before StartLine.step_client_proto
      StartLine.step_status_code_before StartLine.step_status_code StartLine.step_status_before
      StartLine.step_status StartLine.step_status_lf StartLine.step_line_lf Fields.end_headers
      Fields.step_header_key_before Fields.step_header_key Fields.end_header
      Fields.step_header_value_before Fields.step_header_value Fields.step_header_over_lf
      Body.step_body_content_length Body.step_body_chunk_data Body.step_body_chunk_size_before
      Body.step_body_chunk_size Body.step_body_chunk_size_lf Body.step_body_chunk_data_cr
      Body.step_body_chunk_data_lf Body.step_trailer_value_lf Body.step_trailer_key_before
      Body.step_trailer_key Body.step_trailer_value_before Body.step_trailer_value Body.step_tail_cr
      Body.step_tail_lf
  step_in close p tok c rest = fail p closed
  step_in method_before p tok c rest = StartLine.step_method_before h p tok c
  step_in method p tok c rest = StartLine.step_method h p tok c
  step_in path_before p tok c rest = StartLine.step_path_before h p tok c
  step_in path p tok c rest = StartLine.step_path h p tok c
  step_in proto_before p tok c rest = StartLine.step_proto_before h p tok c
  step_in proto p tok c rest = StartLine.step_proto h p tok c
  step_in proto_lf p tok c rest = StartLine.step_line_lf h p tok c
  step_in client_proto_before p tok c rest = StartLine.step_client_proto_before h p tok c
  step_in client_proto p tok c rest = StartLine.step_client_proto h p tok c
  step_in status_code_before p tok c rest = StartLine.step_status_code_before h p tok c
  step_in status_code p tok c rest = StartLine.step_status_code h p tok c
  step_in status_before p tok c rest = StartLine.step_status_before h p tok c
  step_in status p tok c rest = StartLine.step_status h p tok c
  step_in status_lf p tok c rest = StartLine.step_status_lf h p tok c
  step_in header_key_before p tok c rest = Fields.step_header_key_before h p tok c
  step_in header_value_lf p tok c rest = StartLine.step_line_lf h p tok c
  step_in header_key p tok c rest = Fields.step_header_key h p tok c
  step_in header_value_before p tok c rest = Fields.step_header_value_before h p tok c
  step_in header_value p tok c rest = Fields.step_header_value h p tok c
  step_in header_over_lf p tok c rest = Fields.step_header_over_lf h p tok c
  step_in body_content_length p tok c rest = Body.step_body_content_length h p tok c rest
  step_in body_chunk_size_before p tok c rest = Body.step_body_chunk_size_before h p tok c
  step_in body_chunk_size p tok c rest = Body.step_body_chunk_size h p tok c
  step_in body_chunk_size_lf p tok c rest = Body.step_body_chunk_size_lf h p tok c
  step_in body_chunk_data p tok c rest = Body.step_body_chunk_data h p tok c rest
  step_in body_chunk_data_cr p tok c rest = Body.step_body_chunk_data_cr h p tok c
  step_in body_chunk_data_lf p tok c rest = Body.step_body_chunk_data_lf h p tok c
  step_in body_trailer_header_value_lf p tok c rest = Body.step_trailer_value_lf h p tok c
  step_in body_trailer_header_key_before p tok c rest = Body.step_trailer_key_before h p tok c
  step_in body_trailer_header_key p tok c rest = Body.step_trailer_key h p tok c
  step_in body_trailer_header_value_before p tok c rest = Body.step_trailer_value_before h p tok c
  step_in body_trailer_header_value p tok c rest = Body.step_trailer_value h p tok c
  step_in tail_cr p tok c rest = Body.step_tail_cr h p tok c
  step_in tail_lf p tok c rest = Body.step_tail_lf h p tok c

  abbrev pub finish_with : Parser S → S × Option Error → Finish S
  finish_with p (s, none) = ok (record p { world = s; bytes_cached = [] })
  finish_with p (s, some e) = err (record p { world = s; bytes_cached = [] }) e

  -- `UPGRADER:` hands data[start:] to the ParserCloser and drops the cache.
  unfoldable pub upgraded : Parser S → Bytes → Finish S
  upgraded p udata = finish_with p (h.upgraded_parse udata p.world)

  -- `Exit:` caches data[start:] for the next call.
  abbrev pub leave : Parser S → Bytes → Finish S
  leave p left = ok (record p { bytes_cached = left })

  -- What a round's outcome does to the loop's variables, with `again` for the rounds to come.
  abbrev pub resume :
      (Parser S → Bytes → Bytes → Finish S) → Parser S → Bytes → ℕ → Bytes → Outcome S → Finish S
  resume again p tok c rest (next q m) = again q (token m tok c) rest
  resume again p tok c rest (skip q n) = again q [] (drop n (tok ++ c ∷ rest))
  resume again p tok c rest exit = leave p (tok ++ c ∷ rest)
  resume again p tok c rest (fail q e) = err q e

  unfoldable pub loop : ℕ → Parser S → Bytes → Bytes → Finish S
  unfolding upgraded
  loop fuel p tok [] = leave p tok
  loop zero p tok (c ∷ rest) = out_of_fuel
  loop (suc fuel) p tok (c ∷ rest) = elim p.parser_closer [
    | true ↦ upgraded (with_world p (h.clean p.world)) (tok ++ c ∷ rest)
    | false ↦ resume (loop fuel) p tok c rest (step_in p.state p tok c rest)
  ]

  unfoldable pub init_read_deadline : Parser S → Parser S
  init_read_deadline p = if not p.initial_read_deadline_pending then p else record p {
    initial_read_deadline_pending = false;
    world = if is_close p.state then p.world else h.set_read_deadline p.world;
  }

  -- From the label UPGRADER on, with data[:offset] the bytes that were cached. The bytes that
  -- were cached are looked at again where OnBody failed on them in an earlier call, so that as many
  -- rounds as there are bytes of both are enough.
  unfoldable pub start : Parser S → Bytes → Bytes → Finish S
  unfolding loop upgraded
  start p cached more = elim p.parser_closer [
    | true ↦ upgraded p (cached ++ more)
    | false ↦ loop (length cached + length more) p cached more
  ]

  -- The rest of Parse once the deadline is set: the limit, and the cache joined with the data.
  unfoldable pub receive : Parser S → Bytes → Finish S
  unfolding start
  receive p more =
      if is_nil more
      then ok p
      else if is_nil p.bytes_cached
      then start p [] more
      else if ltb 0 p.read_limit && ltb p.read_limit (length p.bytes_cached + length more)
      then err p too_long
      else start (record p { bytes_cached = p.bytes_cached ++ more }) p.bytes_cached more

  unfoldable pub parse : Parser S → Bytes → Finish S
  unfolding receive init_read_deadline
  parse p more = if is_close p.state then err p closed else receive (init_read_deadline p) more

  -- The second and later calls do nothing.
  unfoldable pub close_and_clean : Parser S → Option Error → Parser S
  close_and_clean p e =
      if is_close p.state
      then p
      else record p { state = close; world = h.on_close e (h.close e p.world) }
