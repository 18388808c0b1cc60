-- ===== src/Http/Parser/Split.antt =====
-- nbhttp/parser.go: Parse over a stream that arrives in pieces.
use nbio.Base.{
  ℕ, zero, suc, ◌+◌, ◌≤◌, ◌≡◌, refl, sym, ap, ◌∙◌, false, [], ◌∷◌, ◌++◌, arith, Bytes, length, drop,
  length-append, length-drop, drop-append_le, append_assoc, append-nil, inl, inr, Bool-cases,
}
use nbio.Http.Parser.State.{
  Parser, Processor, Outcome, next, skip, exit, fail, token, with_world, Error,
}
use nbio.Http.Parser.Loop.{Finish, ok, err, out_of_fuel, step_in, loop, resume, leave, upgraded}
use nbio.Http.Parser.Progress.{InBody, Keeps, step-Keeps}
use nbio.Http.Parser.Locality.{
  recache, recache_outcome, step-recache, Extends, step-Extends, Waits, step-shift,
}
use nbio.Http.Parser.Steady.{
  Steady, Steady-self, SteadyOutcome, step-Steady, NeverUpgrades, loop_open,
}

-- What is observed of a call: all of the parser, but after an error not its cache, which the code
-- leaves as it is and never reads again.
abbrev pub view : {S : Type 0} → Finish S → Finish S
view (ok q) = ok q
view (err q e) = err (recache [] q) e
view out_of_fuel = out_of_fuel

module _ {S : Type 0} where
  pub view_ok : (f : Finish S) {q : Parser S} → view f ≡ ok q → f ≡ ok q
  view_ok (ok p) e = e
  view_ok (err p x) e = cc
  view_ok out_of_fuel e = cc

  pub view_err :
      (f : Finish S) {q : Parser S} {x : Error}
      → view f ≡ err q x
      → (p : Parser S) × (f ≡ err p x) × (recache [] p ≡ q)
  view_err (ok p) e = cc
  view_err (err p x) e = (p, cc, cc)
  view_err out_of_fuel e = cc

module _ {S : Type 0} (h : Processor S) where
  upgraded-recache :
      (b : Bytes) (p : Parser S) (udata : Bytes)
      → upgraded h (recache b p) udata ≡ upgraded h p udata
  unfolding upgraded
  upgraded-recache b p udata = ground arith

  -- The loop does not look at the cache.
  pub loop-recache :
      (fuel : ℕ) (b : Bytes) (p : Parser S) (tok rest : Bytes)
      → view (loop h fuel (recache b p) tok rest) ≡ view (loop h fuel p tok rest)
  unfolding loop
  loop-recache fuel b p tok [] = refl
  loop-recache zero b p tok (c ∷ rest) = refl
  loop-recache (suc fuel) b p tok (c ∷ rest) = elim (Bool-cases p.parser_closer) [
    | inl up ↦
        rw (up, loop)
          (ap view (upgraded-recache b (with_world p (h.clean p.world)) (tok ++ c ∷ rest)))
    | inr down ↦
        rw (down, loop)
          (rw (step-recache h p.state b p tok c rest)
            (after_step (step_in h p.state p tok c rest) (λ q t r. loop-recache fuel b q t r)))
  ]
    where
      after_step :
          (o : Outcome S)
          → ((q : Parser S) (t r : Bytes)
              → view (loop h fuel (recache b q) t r) ≡ view (loop h fuel q t r))
          → view (resume h (loop h fuel) (recache b p) tok c rest (recache_outcome b o))
            ≡ view (resume h (loop h fuel) p tok c rest o)
      after_step (next q m) ih = ih q (token m tok c) rest
      after_step (skip q n) ih = ih q [] (drop n (tok ++ c ∷ rest))
      after_step exit ih = refl
      after_step (fail q e) ih = refl

  -- Fuel beyond what is enough changes nothing.
  pub loop_fuel :
      (f g : ℕ) (p : Parser S) (tok rest : Bytes)
      → length rest ≤ f
      → length rest ≤ g
      → InBody p tok
      → loop h f p tok rest ≡ loop h g p tok rest
  unfolding loop
  loop_fuel f g p tok [] a b k = refl
  loop_fuel zero g p tok (c ∷ rest) a b k = absurd (omega arith)
  loop_fuel (suc f) zero p tok (c ∷ rest) a b k = absurd (omega arith)
  loop_fuel (suc f) (suc g) p tok (c ∷ rest) a b k = elim (Bool-cases p.parser_closer) [
    | inl up ↦ rw (up, loop)
    | inr down ↦
        rw (down, loop)
          (after_step (step_in h p.state p tok c rest) (step-Keeps h p.state p tok c rest refl k)
            (λ q t r. loop_fuel f g q t r))
  ]
    where
      after_step :
          (o : Outcome S)
          → Keeps p tok c rest o
          → ((q : Parser S) (t r : Bytes)
              → length r ≤ f
              → length r ≤ g
              → InBody q t
              → loop h f q t r ≡ loop h g q t r)
          → resume h (loop h f) p tok c rest o ≡ resume h (loop h g) p tok c rest o
      after_step (next q m) k' ih = ih q (token m tok c) rest (omega arith) (omega arith) k'
      after_step (skip q n) k' ih =
          let short : length (drop n (tok ++ c ∷ rest)) ≤ length rest =
            omega (arith, length-drop n (tok ++ c ∷ rest), length-append tok (c ∷ rest)) in
          ih q [] (drop n (tok ++ c ∷ rest)) (omega arith) (omega arith) k'.1
      after_step exit k' ih = refl
      after_step (fail q e) k' ih = refl

-- What the loop over d1 ++ d2 gives, where the loop over d1 gave the first finish: with nil, what
-- the next loop gives over d2 behind the cache; with an error, that error.
abbrev pub Follows : {S : Type 0} → Processor S → Bytes → Finish S → Finish S → Type 0
Follows h d2 (ok q) w = view w ≡ view (loop h (length d2) q q.bytes_cached d2)
Follows h d2 (err q e) w = w ≡ err q e
Follows h d2 out_of_fuel w = Unit {0}

module _ {S : Type 0} (h : Processor S) where
  -- The same body bytes are looked at, from wherever they are.
  resume_shift :
      (f g : ℕ) (p : Parser S) (tok : Bytes) (c : ℕ) (rest : Bytes) (d : ℕ) (more : Bytes)
      → (o : Outcome S) → length rest + suc (length more) ≤ f
      → length more ≤ g
      → Waits h o
      → Keeps p (tok ++ c ∷ rest) d more o
      → resume h (loop h f) p tok c (rest ++ d ∷ more) o
        ≡ resume h (loop h g) p (tok ++ c ∷ rest) d more o
  resume_shift f g p tok c rest d more (next q m) a b w k = absurd w
  resume_shift f g p tok c rest d more (skip q n) a b w k =
      rw (append_assoc tok (c ∷ rest) (d ∷ more)) (
        loop_fuel h f g q [] (drop n (tok ++ c ∷ (rest ++ d ∷ more))) (omega (arith, left))
          (omega (arith, left)) k.1)
    where
      left : length (drop n (tok ++ c ∷ (rest ++ d ∷ more))) ≤ length more
      left = omega (
        arith,
        length-drop n (tok ++ c ∷ (rest ++ d ∷ more)),
        length-append tok (c ∷ (rest ++ d ∷ more)),
        length-append rest (d ∷ more),
        length-append tok (c ∷ rest),
        k.0,
      )
  resume_shift f g p tok c rest d more exit a b w k = rw (append_assoc tok (c ∷ rest) (d ∷ more))
  resume_shift f g p tok c rest d more (fail q e) a b w k = refl

  -- `goto Exit` in the middle of a body.
  wait-Follows :
      (g : ℕ) (p : Parser S) (tok : Bytes) (c : ℕ) (rest d2 : Bytes)
      → length rest + length d2 ≤ g
      → p.parser_closer ≡ false
      → InBody p (tok ++ c ∷ rest)
      → step_in h p.state p tok c rest ≡ exit
      → Follows h d2
          (leave h p (tok ++ c ∷ rest))
          (resume h (loop h g) p tok c (rest ++ d2) (step_in h p.state p tok c (rest ++ d2)))
  wait-Follows g p tok c rest [] b n k e = unfold loop in rw (append-nil rest, e)
  wait-Follows g p tok c rest (d ∷ more) b n k e =
      let (same, waits) = step-shift h p.state p tok c rest d more e in
      rw
        (
          same,
          loop-recache h (suc (length more)) (tok ++ c ∷ rest) p (tok ++ c ∷ rest) (d ∷ more),
          loop_open h (length more) p (tok ++ c ∷ rest) d more n,
        )
        (ap view (
          resume_shift g (length more) p tok c rest d more _ (omega arith) (omega arith) waits
            (step-Keeps h p.state p (tok ++ c ∷ rest) d more refl k)))

module _ {S : Type 0} (h : Processor S) (plain : NeverUpgrades h) where
  pub loop-Follows :
      (f g : ℕ) (p : Parser S) (tok d1 d2 : Bytes)
      → length d1 ≤ f
      → length d1 + length d2 ≤ g
      → InBody p tok
      → Steady p p
      → Follows h d2 (loop h f p tok d1) (loop h g p tok (d1 ++ d2))
  unfolding loop
  loop-Follows f g p tok [] d2 a b k s =
      ap view (loop_fuel h g (length d2) p tok d2 (omega arith) (omega arith) k)
      ∙ sym (loop-recache h (length d2) tok p tok d2)
  loop-Follows zero g p tok (c ∷ rest) d2 a b k s = absurd (omega arith)
  loop-Follows (suc f) zero p tok (c ∷ rest) d2 a b k s = absurd (omega arith)
  loop-Follows (suc f) (suc g) p tok (c ∷ rest) d2 a b k s =
      rw
        (
          loop_open h f p tok c rest s.not_replaced,
          loop_open h g p tok c (rest ++ d2) s.not_replaced,
        )
        (after_step (step_in h p.state p tok c rest) refl (step-Keeps h p.state p tok c rest refl k)
          (step-Extends h p.state p tok c rest d2) (step-Steady h plain p.state p tok c rest s)
          (λ q t r. loop-Follows f g q t r d2))
    where
      after_step :
          (o : Outcome S)
          → step_in h p.state p tok c rest ≡ o
          → Keeps p tok c rest o
          → Extends h tok c rest o (step_in h p.state p tok c (rest ++ d2))
          → SteadyOutcome p o
          → ((q : Parser S) (t r : Bytes)
              → length r ≤ f
              → length r + length d2 ≤ g
              → InBody q t
              → Steady q q
              → Follows h d2 (loop h f q t r) (loop h g q t (r ++ d2)))
          → Follows h d2
              (resume h (loop h f) p tok c rest o)
              (resume h (loop h g) p tok c (rest ++ d2) (step_in h p.state p tok c (rest ++ d2)))
      after_step (next q m) e k' x s' ih =
          rw x (ih q (token m tok c) rest (omega arith) (omega arith) k' (Steady-self s'))
      after_step (skip q n) e k' x s' ih =
          let short : length (drop n (tok ++ c ∷ rest)) ≤ length rest =
            omega (arith, length-drop n (tok ++ c ∷ rest), length-append tok (c ∷ rest)) in
          rw (x.0, ← append_assoc tok (c ∷ rest) d2, drop-append_le n (tok ++ c ∷ rest) d2 x.1)
            (ih q [] (drop n (tok ++ c ∷ rest)) (omega arith) (omega arith) k'.1 (Steady-self s'))
      after_step exit e k' x s' ih =
          wait-Follows h g p tok c rest d2 (omega arith) s.not_replaced k' e
      after_step (fail q er) e k' x s' ih = rw x
