-- ===== src/Http/Parser/Contract/Calls.antt =====
-- nbhttp/parser.go: a call of Parse, and one of CloseAndClean, keep the parser and its Processor in
-- agreement.
use nbio.Base.{
  ℕ, zero, suc, ◌+◌, ◌≡◌, ◌⊎◌, inl, inr, refl, true, false, Bool, Option, none, some, [], ◌∷◌, ◌++◌,
  arith, Bytes, drop, ap, ◌∙◌, Bool-cases, length,
}
use nbio.Http.Parser.State.{
  Parser, Processor, Outcome, next, skip, exit, fail, token, Error, with_world, is_close, close,
}
use nbio.Http.Parser.Loop.{
  Finish, ok, err, out_of_fuel, step_in, loop, resume, upgraded, finish_with, init_read_deadline,
  start, receive, parse, close_and_clean,
}
use nbio.Http.Parser.Steady.{loop_open}
use nbio.Http.Parser.Contract.{
  Phase, at_rest, phase_of, belongs, Serves, Agrees, AgreesOutcome, Unbroken,
}
use nbio.Http.Parser.Contract.Rounds.{step-Agrees}

module _ {S : Type 0} (phase : S → Phase) (client replaced : Bool) (h : Processor S)
    (serves : Serves phase client replaced h) where
  abbrev pub AgreesFinish : Finish S → Type 0
  AgreesFinish (ok q) = Agrees phase client replaced q
  AgreesFinish (err q e) = Agrees phase client replaced q
  AgreesFinish out_of_fuel = Unit {0}

  cached-Agrees :
      (p : Parser S) (b : Bytes)
      → Agrees phase client replaced p
      → Agrees phase client replaced (record p { bytes_cached = b })
  cached-Agrees p b s = record {
    in_phase = s.in_phase;
    side = s.side;
    own_state = s.own_state;
    between = s.between;
  }

  finish-Agrees :
      (p : Parser S) (r : S × Option Error)
      → Agrees phase client replaced p
      → phase r.0 ≡ phase_of p.state
      → AgreesFinish (finish_with h p r)
  finish-Agrees p (s, none) k e = record {
    in_phase = e;
    side = k.side;
    own_state = k.own_state;
    between = k.between;
  }
  finish-Agrees p (s, some x) k e = record {
    in_phase = e;
    side = k.side;
    own_state = k.own_state;
    between = k.between;
  }

  -- A replaced parser stands between messages.
  resting :
      (p : Parser S)
      → p.parser_closer ≡ true
      → Agrees phase client replaced p
      → (replaced ≡ true) × (at_rest (phase_of p.state) ≡ true)
  resting p e s = by_cases s.between
    where
      by_cases :
          (p.parser_closer ≡ false) ⊎ ((replaced ≡ true) × (at_rest (phase_of p.state) ≡ true))
          → (replaced ≡ true) × (at_rest (phase_of p.state) ≡ true)
      by_cases (inl f) = absurd cc
      by_cases (inr f) = f

  upgraded-Agrees :
      (p : Parser S) (b : Bytes)
      → p.parser_closer ≡ true
      → Agrees phase client replaced p
      → AgreesFinish (upgraded h p b)
  unfolding upgraded
  upgraded-Agrees p b e s =
      let (can, still) = resting p e s in
      finish-Agrees p (h.upgraded_parse b p.world) s
        (serves.upgraded_parse can b p.world (ap at_rest s.in_phase ∙ still) ∙ s.in_phase)

  cleaned-Agrees :
      (p : Parser S)
      → p.parser_closer ≡ true
      → Agrees phase client replaced p
      → Agrees phase client replaced (with_world p (h.clean p.world))
  cleaned-Agrees p e s =
      let (can, still) = resting p e s in
      record {
        in_phase = serves.clean can p.world (ap at_rest s.in_phase ∙ still) ∙ s.in_phase;
        side = s.side;
        own_state = s.own_state;
        between = s.between;
      }

  loop_replaced :
      (fuel : ℕ) (p : Parser S) (tok : Bytes) (c : ℕ) (rest : Bytes)
      → p.parser_closer ≡ true
      → loop h (suc fuel) p tok (c ∷ rest)
        ≡ upgraded h (with_world p (h.clean p.world)) (tok ++ c ∷ rest)
  unfolding loop
  loop_replaced fuel p tok c rest e = ground arith

  loop-Agrees :
      (fuel : ℕ) (p : Parser S) (tok rest : Bytes)
      → Agrees phase client replaced p
      → AgreesFinish (loop h fuel p tok rest)
  unfolding loop
  loop-Agrees fuel p tok [] s = cached-Agrees p tok s
  loop-Agrees zero p tok (c ∷ rest) s = tt
  loop-Agrees (suc fuel) p tok (c ∷ rest) s = elim (Bool-cases p.parser_closer) [
    | inl e ↦ rw (loop_replaced fuel p tok c rest e) (
        upgraded-Agrees (with_world p (h.clean p.world)) (tok ++ c ∷ rest) e (cleaned-Agrees p e s))
    | inr e ↦ rw (loop_open h fuel p tok c rest e) (
        after_step (step_in h p.state p tok c rest)
          (step-Agrees phase client replaced h serves p.state p tok c rest refl e s)
          (λ q t r s'. loop-Agrees fuel q t r s'))
  ]
    where
      after_step :
          (o : Outcome S)
          → AgreesOutcome phase client replaced o
          → ((q : Parser S) (t r : Bytes)
              → Agrees phase client replaced q
              → AgreesFinish (loop h fuel q t r))
          → AgreesFinish (resume h (loop h fuel) p tok c rest o)
      after_step (next q m) k ih = ih q (token m tok c) rest k
      after_step (skip q n) k ih = ih q [] (drop n (tok ++ c ∷ rest)) k
      after_step exit k ih = cached-Agrees p (tok ++ c ∷ rest) s
      after_step (fail q e) k ih = k

  start-Agrees :
      (p : Parser S) (cached more : Bytes)
      → Agrees phase client replaced p
      → AgreesFinish (start h p cached more)
  unfolding start
  start-Agrees p cached more s = by_closer p.parser_closer refl
    where
      by_closer :
          (b : Bool)
          → p.parser_closer ≡ b
          → AgreesFinish (elim b [
            | true ↦ upgraded h p (cached ++ more)
            | false ↦ loop h (length cached + length more) p cached more
          ])
      by_closer true e = upgraded-Agrees p (cached ++ more) e s
      by_closer false e = loop-Agrees (length cached + length more) p cached more s

  receive-Agrees :
      (p : Parser S) (more : Bytes)
      → Agrees phase client replaced p
      → AgreesFinish (receive h p more)
  unfolding receive
  receive-Agrees p more s = ground (
    arith,
    start-Agrees p [] more s,
    start-Agrees (record p { bytes_cached = p.bytes_cached ++ more }) p.bytes_cached more
        (cached-Agrees p (p.bytes_cached ++ more) s),
  )

  deadline-Agrees :
      (p : Parser S)
      → Agrees phase client replaced p
      → Agrees phase client replaced (init_read_deadline h p)
  unfolding init_read_deadline
  deadline-Agrees p s = ground (arith, serves.set_read_deadline p.world)

  pub parse-Agrees :
      (p : Parser S) (more : Bytes) → Agrees phase client replaced p → AgreesFinish (parse h p more)
  unfolding parse
  parse-Agrees p more s =
      ground (arith, receive-Agrees (init_read_deadline h p) more (deadline-Agrees p s))

  pub unbroken :
      (p : Parser S)
      → Agrees phase client replaced p
      → is_close p.state ≡ false
      → Unbroken phase p.world
  unbroken p s e = ground arith

  belongs-close : (b : Bool) → belongs b close ≡ true
  belongs-close true = refl
  belongs-close false = refl

  closed_between :
      (p : Parser S)
      → (p.parser_closer ≡ false) ⊎ ((replaced ≡ true) × (at_rest (phase_of p.state) ≡ true))
      → (p.parser_closer ≡ false) ⊎ ((replaced ≡ true) × (true ≡ true))
  closed_between p (inl e) = inl e
  closed_between p (inr (e, f)) = inr (e, refl)

  pub close-Agrees :
      (p : Parser S) (e : Option Error)
      → Agrees phase client replaced p
      → Agrees phase client replaced (close_and_clean h p e)
  unfolding close_and_clean
  close-Agrees p e s = elim (Bool-cases (is_close p.state)) [
    | inl down ↦ rw down s
    | inr up ↦ rw up (record {
      in_phase = serves.close e e p.world (unbroken p s up);
      side = s.side;
      own_state = belongs-close client;
      between = closed_between p s.between;
    })
  ]
