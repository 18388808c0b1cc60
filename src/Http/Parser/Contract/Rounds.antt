-- ===== src/Http/Parser/Contract/Rounds.antt =====
-- nbhttp/parser.go: each round of the loop in Parse keeps the parser and its Processor in agreement.
use nbio.Base.{
  ℕ, ◌≡◌, inl, refl, true, false, Bool, ◌∷◌, ◌++◌, arith, Bytes, sym, ap, ◌∙◌, take, pos_part,
}
use nbio.Go.Text.{to_upper}
use nbio.Http.Parser.State.{
  Parser, Processor, State, next_state, with_world, close, method, path, proto, client_proto,
  status, header_key_before, body_content_length, body_chunk_data, header_value, header_over_lf,
  or_set, header_value_before, body_trailer_header_value_before, body_trailer_header_value, tail_lf,
}
use nbio.Http.Parser.Framing.{Result, parse_transfer_encoding, parse_content_length, parse_trailer}
use nbio.Http.Parser.Framing
use nbio.Http.Parser.Fields.{
  with_trailer, with_length, with_encoding, end_headers, step_header_key_before,
}
use nbio.Http.Parser.Body.{step_body}
use nbio.Http.Parser.Loop.{step_in}
use nbio.Http.Parser.Contract.{
  Phase, busy, phase_of, belongs, before_proto, Serves, Agrees, AgreesOutcome,
}

module _ {S : Type 0} (phase : S → Phase) (client replaced : Bool) (h : Processor S)
    (serves : Serves phase client replaced h) where
  open serves use {
    on_method, on_url, on_proto, on_status, on_header, on_content_length, on_body,
    on_trailer_header, on_complete,
  }

  -- The phase at a state that is known.
  phase_at :
      (st : State) (p : Parser S)
      → p.state ≡ st
      → Agrees phase client replaced p
      → phase p.world ≡ phase_of st
  phase_at st p e s = s.in_phase ∙ ap phase_of e

  is_server : (b : Bool) → belongs b method ≡ true → b ≡ false
  is_server true e = absurd cc
  is_server false e = refl

  -- A parser at the end of its headers, and what the framing functions make of it.
  abbrev AtHeaders : Parser S → Type 0
  AtHeaders p =
      (p.state ≡ header_key_before)
      × (p.parser_closer ≡ false)
      × (p.is_client ≡ client)
      × (phase p.world ≡ busy)

  abbrev AtResult : Result (Parser S) → Type 0
  AtResult (Framing.ok q) = AtHeaders q
  AtResult (Framing.err e) = Unit {0}

  either_side :
      (b : Bool) → (belongs b header_key_before ≡ true) × (belongs b header_over_lf ≡ true)
  either_side true = (refl, refl)
  either_side false = (refl, refl)

  AtHeaders-Agrees : (p : Parser S) → AtHeaders p → Agrees phase client replaced p
  AtHeaders-Agrees p (e, k, side, b) = record {
    in_phase = b ∙ sym (ap phase_of e);
    side = side;
    own_state = ap (belongs client) e ∙ (either_side client).0;
    between = inl k;
  }

  encoding-AtHeaders :
      (p : Parser S)
      → AtHeaders p
      → AtHeaders (parse_transfer_encoding p).0 × AtResult (parse_transfer_encoding p).1
  unfolding parse_transfer_encoding
  encoding-AtHeaders p s = ground arith

  length-AtHeaders : (p : Parser S) → AtHeaders p → AtResult (parse_content_length p)
  unfolding parse_content_length
  length-AtHeaders p s = ground arith

  trailer-AtHeaders :
      (p : Parser S) → AtHeaders p → AtHeaders (parse_trailer p).0 × AtResult (parse_trailer p).1
  unfolding parse_trailer
  trailer-AtHeaders p s = ground arith

  with_trailer-Agrees :
      (r : Parser S × Result (Parser S))
      → AtHeaders r.0 × AtResult r.1
      → AgreesOutcome phase client replaced (with_trailer h r)
  unfolding next_state
  with_trailer-Agrees (q, Framing.ok p) (_, (e, k, side, b)) =
      rw e
        (record { in_phase = b; side = side; own_state = (either_side client).1; between = inl k })
  with_trailer-Agrees (q, Framing.err e) (s, _) = AtHeaders-Agrees q s

  with_length-Agrees :
      (q : Parser S) (r : Result (Parser S))
      → AtHeaders q
      → AtResult r
      → AgreesOutcome phase client replaced (with_length h q r)
  with_length-Agrees q (Framing.ok p) s (e, k, side, b) =
      let p' = with_world p (h.on_content_length p.content_length p.world) in
      with_trailer-Agrees (parse_trailer p')
        (trailer-AtHeaders p' (e, k, side, on_content_length p.content_length p.world b))
  with_length-Agrees q (Framing.err e) s t = AtHeaders-Agrees q s

  with_encoding-Agrees :
      (r : Parser S × Result (Parser S))
      → AtHeaders r.0 × AtResult r.1
      → AgreesOutcome phase client replaced (with_encoding h r)
  with_encoding-Agrees (q, Framing.ok p) (s, t) =
      with_length-Agrees p (parse_content_length p) t (length-AtHeaders p t)
  with_encoding-Agrees (q, Framing.err e) (s, t) = AtHeaders-Agrees q s

  end_headers-Agrees :
      (p : Parser S) → AtHeaders p → AgreesOutcome phase client replaced (end_headers h p)
  unfolding end_headers
  end_headers-Agrees p s = with_encoding-Agrees (parse_transfer_encoding p) (encoding-AtHeaders p s)

  step_header_key_before-Agrees :
      (p : Parser S) (tok : Bytes) (c : ℕ)
      → p.state ≡ header_key_before
      → p.parser_closer ≡ false
      → Agrees phase client replaced p
      → AgreesOutcome phase client replaced (step_header_key_before h p tok c)
  unfolding step_header_key_before next_state
  step_header_key_before-Agrees p tok c e k s =
      ground (arith, end_headers-Agrees p (e, k, s.side, phase_at header_key_before p e s))

  is_client_side : (b : Bool) → belongs b client_proto ≡ true → b ≡ true
  is_client_side true e = refl
  is_client_side false e = absurd cc

  is_server_side : (b : Bool) → belongs b proto ≡ true → b ≡ false
  is_server_side true e = absurd cc
  is_server_side false e = refl

  step_method-Agrees :
      (p : Parser S) (tok : Bytes) (c : ℕ) (rest : Bytes)
      → p.state ≡ method
      → p.parser_closer ≡ false
      → Agrees phase client replaced p
      → AgreesOutcome phase client replaced (step_in h method p tok c rest)
  unfolding step_in
  step_method-Agrees p tok c rest e k s = ground (
    arith,
    on_method (is_server client (ap (belongs client) (sym e) ∙ s.own_state)) (to_upper tok) p.world
        (phase_at method p e s),
  )

  pub step-Agrees :
      (st : State) (p : Parser S) (tok : Bytes) (c : ℕ) (rest : Bytes)
      → p.state ≡ st
      → p.parser_closer ≡ false
      → Agrees phase client replaced p
      → AgreesOutcome phase client replaced (step_in h st p tok c rest)
  unfolding step_in step_body
  step-Agrees close p tok c rest e k s = s
  step-Agrees method p tok c rest e k s = step_method-Agrees p tok c rest e k s
  step-Agrees path p tok c rest e k s = ground (arith, on_url tok p.world (phase_at path p e s))
  step-Agrees proto p tok c rest e k s =
      let server = is_server_side client (ap (belongs client) (sym e) ∙ s.own_state) in
      ground (
        arith,
        on_proto (or_set p.proto tok) p.world (phase_at proto p e s ∙ ap before_proto (sym server)),
      )
  step-Agrees client_proto p tok c rest e k s =
      let asks = is_client_side client (ap (belongs client) (sym e) ∙ s.own_state) in
      ground (
        arith,
        on_proto (or_set p.proto tok) p.world
            (phase_at client_proto p e s ∙ ap before_proto (sym asks)),
      )
  step-Agrees status p tok c rest e k s =
      ground (arith, on_status p.status_code (or_set p.status tok) p.world (phase_at status p e s))
  step-Agrees header_key_before p tok c rest e k s = step_header_key_before-Agrees p tok c e k s
  step-Agrees header_value_before p tok c rest e k s = ground (
    arith,
    on_header p.header_key (or_set p.header_value tok) p.world (phase_at header_value_before p e s),
  )
  step-Agrees header_value p tok c rest e k s = ground (
    arith,
    on_header p.header_key (or_set p.header_value tok) p.world (phase_at header_value p e s),
  )
  step-Agrees header_over_lf p tok c rest e k s =
      ground (arith, on_complete p.world (phase_at header_over_lf p e s))
  step-Agrees body_content_length p tok c rest e k s =
      let b = take (pos_part p.content_length) (tok ++ c ∷ rest) in
      let read = on_body b p.world (phase_at body_content_length p e s) in
      ground (arith, read, on_complete (h.on_body b p.world).0 read)
  step-Agrees body_chunk_data p tok c rest e k s = ground (
    arith,
    on_body (take (pos_part p.chunk_size) (tok ++ c ∷ rest)) p.world
        (phase_at body_chunk_data p e s),
  )
  step-Agrees body_trailer_header_value_before p tok c rest e k s = ground (
    arith,
    on_trailer_header p.header_key (or_set p.header_value tok) p.world
        (phase_at body_trailer_header_value_before p e s),
  )
  step-Agrees body_trailer_header_value p tok c rest e k s = ground (
    arith,
    on_trailer_header p.header_key (or_set p.header_value tok) p.world
        (phase_at body_trailer_header_value p e s),
  )
  step-Agrees tail_lf p tok c rest e k s =
      ground (arith, on_complete p.world (phase_at tail_lf p e s))
  step-Agrees _ p tok c rest e k s = ground arith
