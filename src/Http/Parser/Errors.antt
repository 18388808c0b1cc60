-- ===== src/Http/Parser/Errors.antt =====
-- nbhttp/parser.go: calls of Parse after one that failed. A body that OnBody failed on may be cached
-- whole, and is looked at again by the next call.
use nbio.Base.{
  ℕ, zero, suc, ◌+◌, ◌≤◌, ◌≡◌, refl, [], ◌∷◌, ◌++◌, arith, Bytes, length, drop, length-drop,
  length-append, Bool-cases, inl, inr, ◌≢◌,
}
use nbio.Http.Parser.State.{
  Parser, Processor, Outcome, next, skip, exit, fail, token, State, body_content_length,
  body_chunk_data, with_world,
}
use nbio.Http.Parser.Loop.{
  Finish, ok, err, out_of_fuel, step_in, loop, resume, upgraded, start, receive, init_read_deadline,
  parse,
}
use nbio.Http.Parser.Sized.{
  Sized, SizedOutcome, SizedFinish, step-Sized, upgraded-Sized, loop-Sized,
}
use nbio.Http.Parser.Progress.{InBody, Keeps, Ends, loop-Ends, step-Keeps}

module _ {S : Type 0} (h : Processor S) where
  abbrev NextInBody : Bytes → ℕ → Outcome S → Type 0
  NextInBody tok c (next q m) = InBody q (token m tok c)
  NextInBody tok c _ = Unit {0}

  Keeps-NextInBody :
      (p : Parser S) (tok : Bytes) (c : ℕ) (rest : Bytes) (o : Outcome S)
      → Keeps p tok c rest o
      → NextInBody tok c o
  Keeps-NextInBody p tok c rest (next q m) k = k
  Keeps-NextInBody p tok c rest (skip q n) k = tt
  Keeps-NextInBody p tok c rest exit k = tt
  Keeps-NextInBody p tok c rest (fail q e) k = tt

  -- A round in a body takes it whole or leaves the loop.
  step-NextInBody :
      (st : State) (p : Parser S) (tok : Bytes) (c : ℕ) (rest : Bytes)
      → p.state ≡ st
      → NextInBody tok c (step_in h st p tok c rest)
  unfolding step_in
  step-NextInBody body_content_length p tok c rest e = ground arith
  step-NextInBody body_chunk_data p tok c rest e = ground arith
  step-NextInBody st p tok c rest e =
      Keeps-NextInBody p tok c rest (step_in h st p tok c rest) (step-Keeps h st p tok c rest e tt)

  Ends-not_out : (r : Finish S) → Ends r → r ≢ out_of_fuel
  Ends-not_out (ok q) k = cc
  Ends-not_out (err q e) k = cc
  Ends-not_out out_of_fuel k = absurd k

  upgraded-not_out : (p : Parser S) (udata : Bytes) → upgraded h p udata ≢ out_of_fuel
  unfolding upgraded
  upgraded-not_out p udata = ground arith

  -- The loop ends, whatever is cached: the first round may take the bytes that were.
  loop-not_out :
      (fuel : ℕ) (p : Parser S) (tok rest : Bytes)
      → length tok + length rest ≤ fuel
      → Sized p
      → loop h fuel p tok rest ≢ out_of_fuel
  unfolding loop
  loop-not_out fuel p tok [] b f = cc
  loop-not_out zero p tok (c ∷ rest) b f = absurd (omega arith)
  loop-not_out (suc fuel) p tok (c ∷ rest) b f = elim (Bool-cases p.parser_closer) [
    | inl up ↦ rw (up, loop) (upgraded-not_out (with_world p (h.clean p.world)) (tok ++ c ∷ rest))
    | inr down ↦
        rw (down, loop)
          (after_step (step_in h p.state p tok c rest) (step-Sized h p.state p tok c rest refl f)
            (step-NextInBody p.state p tok c rest refl))
  ]
    where
      after_step :
          (o : Outcome S)
          → SizedOutcome p o
          → NextInBody tok c o
          → resume h (loop h fuel) p tok c rest o ≢ out_of_fuel
      after_step (next q m) k i =
          Ends-not_out (loop h fuel q (token m tok c) rest)
            (loop-Ends h fuel q (token m tok c) rest (omega arith) i)
      after_step (skip q n) k i =
          let left = drop n (tok ++ c ∷ rest) in
          Ends-not_out (loop h fuel q [] left) (
            loop-Ends h fuel q [] left
              (omega (arith, length-drop n (tok ++ c ∷ rest), length-append tok (c ∷ rest))) k.1)
      after_step exit k i = cc
      after_step (fail q e) k i = cc

  -- How a call of Parse ends: not out of fuel, and so that the next one does not either.
  abbrev pub Lasts : Finish S → Type 0
  Lasts r = SizedFinish r × (r ≢ out_of_fuel)

  start-Lasts : (p : Parser S) (cached more : Bytes) → Sized p → Lasts (start h p cached more)
  unfolding start
  start-Lasts p cached more f = elim (Bool-cases p.parser_closer) [
    | inl up ↦
        rw (up, start) (upgraded-Sized h p (cached ++ more) f, upgraded-not_out p (cached ++ more))
    | inr down ↦
        rw (down, start)
          (
            loop-Sized h (length cached + length more) p cached more f,
            loop-not_out (length cached + length more) p cached more (omega arith) f,
          )
  ]

  receive-Lasts : (p : Parser S) (more : Bytes) → Sized p → Lasts (receive h p more)
  unfolding receive
  receive-Lasts p more f = ground (
    arith,
    start-Lasts p [] more f,
    start-Lasts (record p { bytes_cached = p.bytes_cached ++ more }) p.bytes_cached more f,
  )

  init-Sized : (p : Parser S) → Sized p → Sized (init_read_deadline h p)
  unfolding init_read_deadline
  init-Sized p f = elim (Bool-cases p.initial_read_deadline_pending) [
    | inl e ↦ rw (e, init_read_deadline) f
    | inr e ↦ rw (e, init_read_deadline) f
  ]

  -- A call of Parse ends, with nil or with an error, whatever calls with an error were before it.
  pub parse-Lasts : (p : Parser S) (more : Bytes) → Sized p → Lasts (parse h p more)
  unfolding parse
  parse-Lasts p more f =
      ground (arith, receive-Lasts (init_read_deadline h p) more (init-Sized p f))
