-- ===== src/Http/Parser/Contract/Sessions.antt =====
-- nbhttp/parser.go: Parse and CloseAndClean, called in any order, keep the parser and its Processor
-- in agreement.
use nbio.Base.{
  ℕ, ◌≡◌, inl, refl, true, false, Bool, Option, List, [], ◌∷◌, arith, Bytes, sym, ◌∙◌, ◌≢◌,
}
use nbio.Http.Parser.State.{Parser, Processor, State, Error, new_parser}
use nbio.Http.Parser.Loop.{Finish, ok, err, out_of_fuel, parse, close_and_clean}
use nbio.Http.Parser.Sized.{Sized}
use nbio.Http.Parser.Errors.{Lasts, parse-Lasts}
use nbio.Http.Parser.Contract.{Phase, idle, broken, phase_of, Serves, Agrees}
use nbio.Http.Parser.Contract.Calls.{AgreesFinish, parse-Agrees, close-Agrees}

-- What the engine does with a parser: it hands it data, and closes it.
pub data Call : Type 0 where
  parsing : Bytes → Call
  closing : Option Error → Call

-- The parser that a call of Parse leaves, with nil or with an error; Returns is that it ends in one of
-- the two.
abbrev pub left_by : {S : Type 0} → Parser S → Finish S → Parser S
left_by p (ok q) = q
left_by p (err q e) = q
left_by p out_of_fuel = p

module _ {S : Type 0} (h : Processor S) where
  abbrev pub call : Parser S → Call → Parser S
  call p (parsing more) = left_by p (parse h p more)
  call p (closing e) = close_and_clean h p e

  unfoldable pub calls : Parser S → List Call → Parser S
  calls p [] = p
  calls p (c ∷ cs) = calls (call p c) cs

  -- Every call of Parse returns.
  unfoldable pub Returns : Parser S → List Call → Type 0
  Returns p [] = Unit {0}
  Returns p (parsing more ∷ cs) =
      (parse h p more ≢ out_of_fuel) × Returns (left_by p (parse h p more)) cs
  Returns p (closing e ∷ cs) = Returns (close_and_clean h p e) cs

  left-Sized : (p : Parser S) (r : Finish S) → Lasts h r → Sized (left_by p r)
  left-Sized p (ok q) k = k.0
  left-Sized p (err q e) k = k.0
  left-Sized p out_of_fuel k = absurd (k.1 refl)

  close-Sized : (p : Parser S) (e : Option Error) → Sized p → Sized (close_and_clean h p e)
  unfolding close_and_clean
  close-Sized p e f = ground arith

  all_return : (cs : List Call) (p : Parser S) → Sized p → Returns p cs
  unfolding Returns
  all_return [] p f = tt
  all_return (parsing more ∷ cs) p f =
      let lasts = parse-Lasts h p more f in
      (lasts.1, all_return cs (left_by p (parse h p more)) (left-Sized p (parse h p more) lasts))
  all_return (closing e ∷ cs) p f = all_return cs (close_and_clean h p e) (close-Sized p e f)

module _ {S : Type 0} (phase : S → Phase) (client replaced : Bool) (h : Processor S)
    (serves : Serves phase client replaced h) where
  left-Agrees :
      (p : Parser S) (r : Finish S)
      → Agrees phase client replaced p
      → AgreesFinish phase client replaced h serves r
      → Agrees phase client replaced (left_by p r)
  left-Agrees p (ok q) s k = k
  left-Agrees p (err q e) s k = k
  left-Agrees p out_of_fuel s k = s

  pub calls-Agrees :
      (cs : List Call) (p : Parser S)
      → Agrees phase client replaced p
      → Agrees phase client replaced (calls h p cs)
  unfolding calls
  calls-Agrees [] p s = s
  calls-Agrees (parsing more ∷ cs) p s =
      calls-Agrees cs (left_by p (parse h p more))
        (left-Agrees p (parse h p more) s (parse-Agrees phase client replaced h serves p more s))
  calls-Agrees (closing e ∷ cs) p s =
      calls-Agrees cs (close_and_clean h p e) (close-Agrees phase client replaced h serves p e s)

new_parser-Agrees :
    {S : Type 0} (phase : S → Phase) (client replaced : Bool) (s : S) (limit : ℕ)
    → phase s ≡ idle
    → Agrees phase client replaced (new_parser s limit client)
unfolding new_parser
new_parser-Agrees phase true replaced s limit e = record {
  in_phase = e;
  side = refl;
  own_state = refl;
  between = inl refl;
}
new_parser-Agrees phase false replaced s limit e = record {
  in_phase = e;
  side = refl;
  own_state = refl;
  between = inl refl;
}

new_parser-Sized :
    {S : Type 0} (s : S) (limit : ℕ) (client : Bool) → Sized (new_parser s limit client)
unfolding new_parser
new_parser-Sized s limit true = tt
new_parser-Sized s limit false = tt

-- Whatever data a new parser is given in whatever pieces, with errors and after them, and however it
-- is closed in between: every call of Parse returns, and a Processor that serves a server or a client,
-- and starts between messages, is called in its order, and never broken by a call that it cannot serve.
pub calls-Unbroken :
    {S : Type 0} (phase : S → Phase) (client replaced : Bool) (h : Processor S)
    → Serves phase client replaced h
    → (s : S) → phase s ≡ idle
    → (limit : ℕ) (cs : List Call)
    → Returns h (new_parser s limit client) cs
      × (phase (calls h (new_parser s limit client) cs).world ≢ broken)
calls-Unbroken phase client replaced h serves s e limit cs =
    let start = new_parser s limit client in
    let agrees =
      calls-Agrees phase client replaced h serves cs start
        (new_parser-Agrees phase client replaced s limit e) in
    (
      all_return h cs start (new_parser-Sized s limit client),
      λ b. whole (calls h start cs).state (sym agrees.in_phase ∙ b),
    )
  where
    whole : (st : State) → phase_of st ≢ broken
    whole st = grind arith
