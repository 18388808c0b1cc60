-- ===== src/Http/Parser/Locality.antt =====
-- nbhttp/parser.go: what one round of the loop in Parse depends on. It neither reads nor writes the
-- cache, and of the bytes behind the cursor it looks only at a body that is there in full.
use nbio.Base.{
  ℕ, suc, ◌+◌, ◌≤◌, ◌≡◌, refl, sym, ap, ◌∙◌, true, Option, none, some, ◌∷◌, ◌++◌, arith, Bytes,
  length, take, length-append, take-append_le, append_assoc, inl, inr, leb, leb→le, le→leb,
  Bool-cases,
}
use nbio.Http.Parser.State.{
  Parser, Processor, Outcome, next, skip, exit, fail, State, body_content_length, body_chunk_data,
  header_key_before, Error, checked, next_state, with_world,
}
use nbio.Http.Parser.Framing.{
  Result, ok, err, parse_transfer_encoding, parse_content_length, parse_trailer,
}
use nbio.Http.Parser.Fields.{
  with_trailer, with_length, with_encoding, end_headers, step_header_key_before,
}
use nbio.Http.Parser.Body.{step_body}
use nbio.Http.Parser.Loop.{step_in}

module _ {S : Type 0} (b : Bytes) where
  abbrev pub recache : Parser S → Parser S
  recache p = record p { bytes_cached = b }

  abbrev recache_result : Result (Parser S) → Result (Parser S)
  recache_result (ok p) = ok (recache p)
  recache_result (err e) = err e

  abbrev recache_pair : Parser S × Result (Parser S) → Parser S × Result (Parser S)
  recache_pair (p, r) = (recache p, recache_result r)

  abbrev pub recache_outcome : Outcome S → Outcome S
  recache_outcome (next q m) = next (recache q) m
  recache_outcome (skip q n) = skip (recache q) n
  recache_outcome exit = exit
  recache_outcome (fail q e) = fail (recache q) e

  encoding-recache :
      (p : Parser S)
      → parse_transfer_encoding (recache p) ≡ recache_pair (parse_transfer_encoding p)
  unfolding parse_transfer_encoding
  encoding-recache p = ground arith

  length-recache :
      (p : Parser S) → parse_content_length (recache p) ≡ recache_result (parse_content_length p)
  unfolding parse_content_length
  length-recache p = ground arith

  trailer-recache : (p : Parser S) → parse_trailer (recache p) ≡ recache_pair (parse_trailer p)
  unfolding parse_trailer
  trailer-recache p = ground arith

module _ {S : Type 0} (h : Processor S) where
  with_trailer-recache :
      (b : Bytes) (r : Parser S × Result (Parser S))
      → with_trailer h (recache_pair b r) ≡ recache_outcome b (with_trailer h r)
  unfolding next_state
  with_trailer-recache b (q, ok p) = ground arith
  with_trailer-recache b (q, err e) = refl

  with_length-recache :
      (b : Bytes) (q : Parser S) (r : Result (Parser S))
      → with_length h (recache b q) (recache_result b r) ≡ recache_outcome b (with_length h q r)
  with_length-recache b q (ok p) =
      let p' = with_world p (h.on_content_length p.content_length p.world) in
      rw (trailer-recache b p') (with_trailer-recache b (parse_trailer p'))
  with_length-recache b q (err e) = refl

  with_encoding-recache :
      (b : Bytes) (r : Parser S × Result (Parser S))
      → with_encoding h (recache_pair b r) ≡ recache_outcome b (with_encoding h r)
  with_encoding-recache b (q, ok p) =
      rw (length-recache b p) (with_length-recache b p (parse_content_length p))
  with_encoding-recache b (q, err e) = refl

  end_headers-recache :
      (b : Bytes) (p : Parser S) → end_headers h (recache b p) ≡ recache_outcome b (end_headers h p)
  unfolding end_headers
  end_headers-recache b p =
      rw (encoding-recache b p) (with_encoding-recache b (parse_transfer_encoding p))

  step_header_key_before-recache :
      (b : Bytes) (p : Parser S) (tok : Bytes) (c : ℕ)
      → step_header_key_before h (recache b p) tok c
        ≡ recache_outcome b (step_header_key_before h p tok c)
  unfolding step_header_key_before next_state
  step_header_key_before-recache b p tok c = ground (arith, end_headers-recache b p)

  pub step-recache :
      (st : State) (b : Bytes) (p : Parser S) (tok : Bytes) (c : ℕ) (rest : Bytes)
      → step_in h st (recache b p) tok c rest ≡ recache_outcome b (step_in h st p tok c rest)
  unfolding step_in step_body
  step-recache State.close b p tok c rest = refl
  step-recache header_key_before b p tok c rest = step_header_key_before-recache b p tok c
  step-recache _ b p tok c rest = ground arith

  -- The outcome with more bytes behind the cursor, where the round does not wait for them.
  abbrev pub Extends : Bytes → ℕ → Bytes → Outcome S → Outcome S → Type 0
  Extends tok c rest (next q m) o = o ≡ next q m
  Extends tok c rest (skip q n) o = (o ≡ skip q n) × (n ≤ length (tok ++ c ∷ rest))
  Extends tok c rest exit o = Unit {0}
  Extends tok c rest (fail q e) o = o ≡ fail q e

  body-Extends :
      (p : Parser S) (cl : ℕ) (finish : Parser S → Parser S) (tok : Bytes) (c : ℕ)
      (rest more : Bytes)
      → Extends tok c rest
          (step_body h p cl finish tok c rest)
          (step_body h p cl finish tok c (rest ++ more))
  unfolding step_body
  body-Extends p cl finish tok c rest more =
      elim (Bool-cases (leb cl (length tok + suc (length rest)))) [
        | inl enough ↦
            let fits : cl ≤ length (tok ++ c ∷ rest) =
              omega (arith, leb→le _ _ enough, length-append tok (c ∷ rest)) in
            let still : leb cl (length tok + suc (length (rest ++ more))) ≡ true =
              le→leb _ _ (omega (arith, leb→le _ _ enough, length-append rest more)) in
            let same : take cl (tok ++ c ∷ (rest ++ more)) ≡ take cl (tok ++ c ∷ rest) =
              ap (take cl) (sym (append_assoc tok (c ∷ rest) more))
              ∙ take-append_le cl _ more fits in
            rw (enough, still, same) (reported fits (h.on_body (take cl (tok ++ c ∷ rest)) p.world))
        | inr short ↦ rw short tt
      ]
    where
      reported :
          cl ≤ length (tok ++ c ∷ rest)
          → (r : S × Option Error)
          → Extends tok c rest
              (checked p r (λ q. skip (finish q) cl))
              (checked p r (λ q. skip (finish q) cl))
      reported fits (s, none) = (refl, fits)
      reported fits (s, some e) = refl

  pub step-Extends :
      (st : State) (p : Parser S) (tok : Bytes) (c : ℕ) (rest more : Bytes)
      → Extends tok c rest (step_in h st p tok c rest) (step_in h st p tok c (rest ++ more))
  unfolding step_in
  step-Extends body_content_length p tok c rest more = body-Extends p _ _ tok c rest more
  step-Extends body_chunk_data p tok c rest more = body-Extends p _ _ tok c rest more
  step-Extends _ p tok c rest more = ground arith

  abbrev pub Waits : Outcome S → Type 0
  Waits (next q m) = ⊥
  Waits (skip q n) = Unit {0}
  Waits exit = Unit {0}
  Waits (fail q e) = Unit {0}

  body-Waits :
      (p : Parser S) (cl : ℕ) (finish : Parser S → Parser S) (tok : Bytes) (c : ℕ) (rest : Bytes)
      → Waits (step_body h p cl finish tok c rest)
  unfolding step_body
  body-Waits p cl finish tok c rest = ground arith

  body-shift :
      (p : Parser S) (cl : ℕ) (finish : Parser S → Parser S) (tok : Bytes) (c : ℕ) (rest : Bytes)
      (d : ℕ) (more : Bytes)
      → step_body h p cl finish tok c (rest ++ d ∷ more)
        ≡ step_body h p cl finish (tok ++ c ∷ rest) d more
  unfolding step_body
  body-shift p cl finish tok c rest d more =
      let same : (tok ++ c ∷ rest) ++ d ∷ more ≡ tok ++ c ∷ (rest ++ d ∷ more) =
        append_assoc tok (c ∷ rest) (d ∷ more) in
      let long : length tok + suc (length (rest ++ d ∷ more))
          ≡ length (tok ++ c ∷ rest) + suc (length more) =
        omega (arith, length-append tok (c ∷ rest), length-append rest (d ∷ more)) in
      rw (same, long)

  -- A round that waits for more of a body is the round that sees more of it later.
  pub step-shift :
      (st : State) (p : Parser S) (tok : Bytes) (c : ℕ) (rest : Bytes) (d : ℕ) (more : Bytes)
      → step_in h st p tok c rest ≡ exit
      → (step_in h st p tok c (rest ++ d ∷ more) ≡ step_in h st p (tok ++ c ∷ rest) d more)
        × Waits (step_in h st p (tok ++ c ∷ rest) d more)
  unfolding step_in
  step-shift body_content_length p tok c rest d more e =
      (body-shift p _ _ tok c rest d more, body-Waits p _ _ (tok ++ c ∷ rest) d more)
  step-shift body_chunk_data p tok c rest d more e =
      (body-shift p _ _ tok c rest d more, body-Waits p _ _ (tok ++ c ∷ rest) d more)
  step-shift _ p tok c rest d more e = absurd (ground arith)
