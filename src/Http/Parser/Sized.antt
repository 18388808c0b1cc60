-- ===== src/Http/Parser/Sized.antt =====
-- nbhttp/parser.go: the length of the body that is awaited, with errors.
use nbio.Base.{
  ℕ, zero, suc, ◌<◌, ◌≡◌, refl, [], ◌∷◌, ◌++◌, arith, Bytes, drop, Bool-cases, inl, inr, is_pos_lem,
}
use nbio.Http.Parser.State.{
  Parser, Processor, Outcome, next, skip, exit, fail, token, State, header_key_before, with_world,
  next_state,
}
use nbio.Http.Parser.Framing.{Result, parse_transfer_encoding, parse_content_length, parse_trailer}
use nbio.Http.Parser.Framing
use nbio.Http.Parser.Fields.{
  with_trailer, with_length, with_encoding, end_headers, step_header_key_before,
}
use nbio.Http.Parser.Loop.{Finish, ok, err, out_of_fuel, step_in, loop, resume, upgraded}
use nbio.Http.Parser.Progress.{Inside, InBody}

module _ {S : Type 0} where
  -- A body that is awaited has a byte at least.
  abbrev pub Sized : Parser S → Type 0
  Sized p = InBody p []

  -- What a round leaves behind, an error included; a body that is taken has a byte at least.
  abbrev pub SizedOutcome : Parser S → Outcome S → Type 0
  SizedOutcome p (next q m) = Sized q
  SizedOutcome p (skip q n) = (0 < n) × Sized q
  SizedOutcome p exit = Sized p
  SizedOutcome p (fail q e) = Sized q

  abbrev pub SizedFinish : Finish S → Type 0
  SizedFinish (ok q) = Sized q
  SizedFinish (err q e) = Sized q
  SizedFinish out_of_fuel = Unit {0}

  -- A parser at the end of its headers, and what the framing functions make of it.
  abbrev AtHeaders : Parser S → Type 0
  AtHeaders p = p.state ≡ header_key_before

  abbrev AtResult : Result (Parser S) → Type 0
  AtResult (Framing.ok q) = AtHeaders q
  AtResult (Framing.err e) = Unit {0}

  AtHeaders-Sized : (p : Parser S) → AtHeaders p → Sized p
  AtHeaders-Sized p e = rw e tt

  encoding-AtHeaders :
      (p : Parser S)
      → AtHeaders p
      → AtHeaders (parse_transfer_encoding p).0 × AtResult (parse_transfer_encoding p).1
  unfolding parse_transfer_encoding
  encoding-AtHeaders p s = ground arith

  length-AtHeaders : (p : Parser S) → AtHeaders p → AtResult (parse_content_length p)
  unfolding parse_content_length
  length-AtHeaders p s = ground arith

  trailer-AtHeaders :
      (p : Parser S) → AtHeaders p → AtHeaders (parse_trailer p).0 × AtResult (parse_trailer p).1
  unfolding parse_trailer
  trailer-AtHeaders p s = ground arith

module _ {S : Type 0} (h : Processor S) where
  with_trailer-Sized :
      (p : Parser S) (r : Parser S × Result (Parser S))
      → AtHeaders r.0 × AtResult r.1
      → SizedOutcome p (with_trailer h r)
  unfolding next_state
  with_trailer-Sized p (q, Framing.ok r) (_, e) = rw e tt
  with_trailer-Sized p (q, Framing.err e) (s, _) = AtHeaders-Sized q s

  with_length-Sized :
      (p q : Parser S) (r : Result (Parser S))
      → AtHeaders q
      → AtResult r
      → SizedOutcome p (with_length h q r)
  with_length-Sized p q (Framing.ok r) s e =
      let r' = with_world r (h.on_content_length r.content_length r.world) in
      with_trailer-Sized p (parse_trailer r') (trailer-AtHeaders r' e)
  with_length-Sized p q (Framing.err e) s t = AtHeaders-Sized q s

  with_encoding-Sized :
      (p : Parser S) (r : Parser S × Result (Parser S))
      → AtHeaders r.0 × AtResult r.1
      → SizedOutcome p (with_encoding h r)
  with_encoding-Sized p (q, Framing.ok r) (s, t) =
      with_length-Sized p r (parse_content_length r) t (length-AtHeaders r t)
  with_encoding-Sized p (q, Framing.err e) (s, t) = AtHeaders-Sized q s

  end_headers-Sized : (p q : Parser S) → AtHeaders q → SizedOutcome p (end_headers h q)
  unfolding end_headers
  end_headers-Sized p q s =
      with_encoding-Sized p (parse_transfer_encoding q) (encoding-AtHeaders q s)

  step_header_key_before-Sized :
      (p : Parser S) (tok : Bytes) (c : ℕ)
      → AtHeaders p
      → SizedOutcome p (step_header_key_before h p tok c)
  unfolding step_header_key_before next_state
  step_header_key_before-Sized p tok c e = ground (arith, end_headers-Sized p p e)

  pub step-Sized :
      (st : State) (p : Parser S) (tok : Bytes) (c : ℕ) (rest : Bytes)
      → p.state ≡ st
      → Inside st p.content_length p.chunk_size []
      → SizedOutcome p (step_in h st p tok c rest)
  unfolding step_in
  step-Sized State.header_key_before p tok c rest e f = step_header_key_before-Sized p tok c e
  step-Sized State.header_over_lf p tok c rest e f = ground (arith, is_pos_lem p.content_length)
  step-Sized State.body_chunk_size_lf p tok c rest e f = ground (arith, is_pos_lem p.chunk_size)
  step-Sized _ p tok c rest e f = ground arith

  pub upgraded-Sized : (p : Parser S) (udata : Bytes) → Sized p → SizedFinish (upgraded h p udata)
  unfolding upgraded
  upgraded-Sized p udata f = ground arith

  pub loop-Sized :
      (fuel : ℕ) (p : Parser S) (tok rest : Bytes) → Sized p → SizedFinish (loop h fuel p tok rest)
  unfolding loop
  loop-Sized fuel p tok [] f = f
  loop-Sized zero p tok (c ∷ rest) f = tt
  loop-Sized (suc fuel) p tok (c ∷ rest) f = elim (Bool-cases p.parser_closer) [
    | inl up ↦ rw (up, loop) (upgraded-Sized (with_world p (h.clean p.world)) (tok ++ c ∷ rest) f)
    | inr down ↦
        rw (down, loop)
          (after_step (step_in h p.state p tok c rest) (step-Sized p.state p tok c rest refl f)
            (λ q t r f'. loop-Sized fuel q t r f'))
  ]
    where
      after_step :
          (o : Outcome S)
          → SizedOutcome p o
          → ((q : Parser S) (t r : Bytes) → Sized q → SizedFinish (loop h fuel q t r))
          → SizedFinish (resume h (loop h fuel) p tok c rest o)
      after_step (next q m) k ih = ih q (token m tok c) rest k
      after_step (skip q n) k ih = ih q [] (drop n (tok ++ c ∷ rest)) k.1
      after_step exit k ih = k
      after_step (fail q e) k ih = k
