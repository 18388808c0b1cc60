-- ===== src/Http/Parser/Steady.antt =====
-- nbhttp/parser.go: what no round of the loop in Parse changes, as long as no handler upgrades the
-- connection: the parser is not closed, not replaced, and its limit and deadline stay.
use nbio.Base.{ℕ, zero, suc, ◌≡◌, false, [], ◌∷◌, ◌++◌, arith, Bytes, drop, take, pos_part}
use nbio.Http.Parser.State.{
  Parser, Processor, Outcome, next, skip, exit, fail, token, State, header_key_before, is_close,
  next_state, with_world,
}
use nbio.Http.Parser.Framing.{Result, parse_transfer_encoding, parse_content_length, parse_trailer}
use nbio.Http.Parser.Framing
use nbio.Http.Parser.Fields.{
  with_trailer, with_length, with_encoding, end_headers, step_header_key_before,
}
use nbio.Http.Parser.Body.{step_body}
use nbio.Http.Parser.Loop.{Finish, ok, err, out_of_fuel, step_in, loop, resume}

module _ {S : Type 0} where
  pub record Steady (p q : Parser S) : Type 0 where
    pub open_state : is_close q.state ≡ false
    pub not_replaced : q.parser_closer ≡ false
    pub limit : q.read_limit ≡ p.read_limit
    pub deadline : q.initial_read_deadline_pending ≡ p.initial_read_deadline_pending

  pub Steady-trans : {p q r : Parser S} → Steady p q → Steady q r → Steady p r
  Steady-trans s t = ground arith

  pub Steady-self : {p q : Parser S} → Steady p q → Steady q q
  Steady-self s = ground arith

  abbrev SteadyResult : Parser S → Result (Parser S) → Type 0
  SteadyResult p (Framing.ok q) = Steady p q
  SteadyResult p (Framing.err e) = Unit {0}

  abbrev pub SteadyOutcome : Parser S → Outcome S → Type 0
  SteadyOutcome p (next q m) = Steady p q
  SteadyOutcome p (skip q n) = Steady p q
  SteadyOutcome p exit = Unit {0}
  SteadyOutcome p (fail q e) = Unit {0}

  encoding-Steady : (b p : Parser S) → Steady b p → SteadyResult b (parse_transfer_encoding p).1
  unfolding parse_transfer_encoding
  encoding-Steady b p s = ground arith

  length-Steady : (b p : Parser S) → Steady b p → SteadyResult b (parse_content_length p)
  unfolding parse_content_length
  length-Steady b p s = ground arith

  trailer-Steady : (b p : Parser S) → Steady b p → SteadyResult b (parse_trailer p).1
  unfolding parse_trailer
  trailer-Steady b p s = ground arith

module _ {S : Type 0} (h : Processor S) where
  -- A round of a parser that is not replaced.
  pub loop_open :
      (fuel : ℕ) (p : Parser S) (tok : Bytes) (c : ℕ) (rest : Bytes)
      → p.parser_closer ≡ false
      → loop h (suc fuel) p tok (c ∷ rest)
        ≡ resume h (loop h fuel) p tok c rest (step_in h p.state p tok c rest)
  unfolding loop
  loop_open fuel p tok c rest e = ground arith

-- The hypothesis that the theorems on splitting make of the handlers.
abbrev pub NeverUpgrades : {S : Type 0} → Processor S → Type 0
NeverUpgrades {S} h = (s : S) → (h.on_complete s).1 ≡ false

module _ {S : Type 0} (h : Processor S) (plain : NeverUpgrades h) where
  with_trailer-Steady :
      (b : Parser S) (r : Parser S × Result (Parser S))
      → SteadyResult b r.1
      → SteadyOutcome b (with_trailer h r)
  unfolding next_state
  with_trailer-Steady b (q, Framing.ok p) s = ground arith
  with_trailer-Steady b (q, Framing.err e) s = tt

  with_length-Steady :
      (b q : Parser S) (r : Result (Parser S))
      → SteadyResult b r
      → SteadyOutcome b (with_length h q r)
  with_length-Steady b q (Framing.ok p) s =
      let p' = with_world p (h.on_content_length p.content_length p.world) in
      with_trailer-Steady b (parse_trailer p') (trailer-Steady b p' (ground arith))
  with_length-Steady b q (Framing.err e) s = tt

  with_encoding-Steady :
      (b : Parser S) (r : Parser S × Result (Parser S))
      → SteadyResult b r.1
      → SteadyOutcome b (with_encoding h r)
  with_encoding-Steady b (q, Framing.ok p) s =
      with_length-Steady b p (parse_content_length p) (length-Steady b p s)
  with_encoding-Steady b (q, Framing.err e) s = tt

  end_headers-Steady : (p : Parser S) → Steady p p → SteadyOutcome p (end_headers h p)
  unfolding end_headers
  end_headers-Steady p s =
      with_encoding-Steady p (parse_transfer_encoding p) (encoding-Steady p p s)

  step_header_key_before-Steady :
      (p : Parser S) (tok : Bytes) (c : ℕ)
      → Steady p p
      → SteadyOutcome p (step_header_key_before h p tok c)
  unfolding step_header_key_before next_state
  step_header_key_before-Steady p tok c s = ground (arith, end_headers-Steady p s)

  pub step-Steady :
      (st : State) (p : Parser S) (tok : Bytes) (c : ℕ) (rest : Bytes)
      → Steady p p
      → SteadyOutcome p (step_in h st p tok c rest)
  unfolding step_in step_body
  step-Steady State.close p tok c rest s = tt
  step-Steady header_key_before p tok c rest s = step_header_key_before-Steady p tok c s
  step-Steady State.body_content_length p tok c rest s =
      ground
        (arith, plain (h.on_body (take (pos_part p.content_length) (tok ++ c ∷ rest)) p.world).0)
  step-Steady _ p tok c rest s = ground (arith, plain p.world)

  -- From round to round, and so to the end of the call.
  abbrev pub SteadyFinish : Parser S → Finish S → Type 0
  SteadyFinish b (ok q) = Steady b q
  SteadyFinish b (err q e) = Unit {0}
  SteadyFinish b out_of_fuel = Unit {0}

  SteadyFinish-trans :
      {p q : Parser S} (r : Finish S) → Steady p q → SteadyFinish q r → SteadyFinish p r
  SteadyFinish-trans (ok r) s t = Steady-trans s t
  SteadyFinish-trans (err r e) s t = tt
  SteadyFinish-trans out_of_fuel s t = tt

  pub loop-Steady :
      (fuel : ℕ) (p : Parser S) (tok rest : Bytes)
      → Steady p p
      → SteadyFinish p (loop h fuel p tok rest)
  unfolding loop
  loop-Steady fuel p tok [] s = ground arith
  loop-Steady zero p tok (c ∷ rest) s = tt
  loop-Steady (suc fuel) p tok (c ∷ rest) s = rw (loop_open h fuel p tok c rest s.not_replaced) (
      after_step (step_in h p.state p tok c rest) (step-Steady p.state p tok c rest s)
        (λ q t r s'. loop-Steady fuel q t r s'))
    where
      after_step :
          (o : Outcome S)
          → SteadyOutcome p o
          → ((q : Parser S) (t r : Bytes) → Steady q q → SteadyFinish q (loop h fuel q t r))
          → SteadyFinish p (resume h (loop h fuel) p tok c rest o)
      after_step (next q m) k ih =
          SteadyFinish-trans _ k (ih q (token m tok c) rest (Steady-self k))
      after_step (skip q n) k ih =
          SteadyFinish-trans _ k (ih q [] (drop n (tok ++ c ∷ rest)) (Steady-self k))
      after_step exit k ih = ground arith
      after_step (fail q e) k ih = tt
