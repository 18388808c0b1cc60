-- ===== src/Http/Parser/Progress.antt =====
-- nbhttp/parser.go: the loop of Parse goes forward. While a body is awaited, fewer bytes than its
-- length stand before the cursor.
use nbio.Base.{
  ℕ, zero, suc, ◌+◌, ◌≤◌, ◌<◌, ◌≡◌, refl, [], ◌∷◌, ◌++◌, arith, Bytes, length, drop, length-drop,
  length-append, Bool-cases, inl, inr, pos_part, is_pos_lem, ℤ,
}
use nbio.Http.Parser.State.{
  Parser, Processor, Outcome, next, skip, exit, fail, token, State, body_content_length,
  body_chunk_data, with_world,
}
use nbio.Http.Parser.Loop.{
  Finish, ok, err, out_of_fuel, step_in, loop, resume, upgraded, start, receive, init_read_deadline,
  parse,
}

-- The body's bytes are not all in `tok`.
abbrev pub Inside : State → ℤ → ℤ → Bytes → Type 0
Inside body_content_length length_left chunk_left tok = length tok < pos_part length_left
Inside body_chunk_data length_left chunk_left tok = length tok < pos_part chunk_left
Inside _ length_left chunk_left tok = Unit {0}

pub Inside-nil : (st : State) (m n : ℤ) (tok : Bytes) → Inside st m n tok → Inside st m n []
Inside-nil body_content_length m n tok h = omega arith
Inside-nil body_chunk_data m n tok h = omega arith
Inside-nil _ m n tok h = tt

module _ {S : Type 0} where
  abbrev pub InBody : Parser S → Bytes → Type 0
  InBody p = Inside p.state p.content_length p.chunk_size

  -- What a round leaves behind, at any outcome.
  abbrev pub Keeps : Parser S → Bytes → ℕ → Bytes → Outcome S → Type 0
  Keeps p tok c rest (next q m) = InBody q (token m tok c)
  Keeps p tok c rest (skip q n) = (length tok < n) × InBody q []
  Keeps p tok c rest exit = InBody p (tok ++ c ∷ rest)
  Keeps p tok c rest (fail q e) = Unit {0}

  -- A call of Parse ends by itself, and what it caches is less than the body that is awaited.
  abbrev pub Ends : Finish S → Type 0
  Ends (ok q) = InBody q q.bytes_cached
  Ends (err q e) = Unit {0}
  Ends out_of_fuel = ⊥

module _ {S : Type 0} (h : Processor S) where
  pub step-Keeps :
      (st : State) (p : Parser S) (tok : Bytes) (c : ℕ) (rest : Bytes)
      → p.state ≡ st
      → Inside st p.content_length p.chunk_size tok
      → Keeps p tok c rest (step_in h st p tok c rest)
  unfolding step_in
  step-Keeps State.close p tok c rest e f = tt
  step-Keeps State.header_over_lf p tok c rest e f = ground (arith, is_pos_lem p.content_length)
  step-Keeps State.body_chunk_size_lf p tok c rest e f = ground (arith, is_pos_lem p.chunk_size)
  step-Keeps State.body_content_length p tok c rest e f =
      ground (arith, length-append tok (c ∷ rest))
  step-Keeps State.body_chunk_data p tok c rest e f = ground (arith, length-append tok (c ∷ rest))
  step-Keeps _ p tok c rest e f = ground arith

  upgraded-Ends : (p : Parser S) (udata : Bytes) → InBody p [] → Ends (upgraded h p udata)
  unfolding upgraded
  upgraded-Ends p udata f = ground arith

  -- As many rounds as there are bytes are enough.
  pub loop-Ends :
      (fuel : ℕ) (p : Parser S) (tok rest : Bytes)
      → length rest ≤ fuel
      → InBody p tok
      → Ends (loop h fuel p tok rest)
  unfolding loop
  loop-Ends fuel p tok [] b f = f
  loop-Ends zero p tok (c ∷ rest) b f = absurd (omega arith)
  loop-Ends (suc fuel) p tok (c ∷ rest) b f = elim (Bool-cases p.parser_closer) [
    | inl up ↦
        rw (up, loop)
          (upgraded-Ends (with_world p (h.clean p.world)) (tok ++ c ∷ rest)
            (Inside-nil p.state p.content_length p.chunk_size tok f))
    | inr down ↦
        rw (down, loop)
          (after_step (step_in h p.state p tok c rest) (step-Keeps p.state p tok c rest refl f)
            (λ q t r b' f'. loop-Ends fuel q t r b' f'))
  ]
    where
      after_step :
          (o : Outcome S)
          → Keeps p tok c rest o
          → ((q : Parser S) (t r : Bytes) → length r ≤ fuel → InBody q t → Ends (loop h fuel q t r))
          → Ends (resume h (loop h fuel) p tok c rest o)
      after_step (next q m) k ih = ih q (token m tok c) rest (omega arith) k
      after_step (skip q n) k ih =
          ih q [] (drop n (tok ++ c ∷ rest))
            (omega (arith, length-drop n (tok ++ c ∷ rest), length-append tok (c ∷ rest))) k.1
      after_step exit k ih = k
      after_step (fail q e) k ih = tt

  start-Ends : (p : Parser S) (cached more : Bytes) → InBody p cached → Ends (start h p cached more)
  unfolding start
  start-Ends p cached more f = elim (Bool-cases p.parser_closer) [
    | inl up ↦
        rw (up, start)
          (upgraded-Ends p (cached ++ more)
            (Inside-nil p.state p.content_length p.chunk_size cached f))
    | inr down ↦
        rw (down, start) (loop-Ends (length cached + length more) p cached more (omega arith) f)
  ]

  receive-Ends : (p : Parser S) (more : Bytes) → InBody p p.bytes_cached → Ends (receive h p more)
  unfolding receive
  receive-Ends p more f = ground (
    arith,
    start-Ends p [] more (Inside-nil p.state p.content_length p.chunk_size p.bytes_cached f),
    start-Ends (record p { bytes_cached = p.bytes_cached ++ more }) p.bytes_cached more f,
  )

  pub init-InBody :
      (p : Parser S)
      → InBody p p.bytes_cached
      → InBody (init_read_deadline h p) (init_read_deadline h p).bytes_cached
  unfolding init_read_deadline
  init-InBody p f = elim (Bool-cases p.initial_read_deadline_pending) [
    | inl e ↦ rw (e, init_read_deadline) f
    | inr e ↦ rw (e, init_read_deadline) f
  ]

  -- A call of Parse on any bytes ends, with nil or with an error, and leaves the parser ready for
  -- the next call: what is cached while a body is awaited is shorter than that body, or than the
  -- chunk.
  pub parse-Ends : (p : Parser S) (more : Bytes) → InBody p p.bytes_cached → Ends (parse h p more)
  unfolding parse
  parse-Ends p more f = ground (arith, receive-Ends (init_read_deadline h p) more (init-InBody p f))
