-- ===== src/Http/Parser/Stream.antt =====
-- nbhttp/parser.go: Parse over a stream that arrives in pieces does what it does at once.
use nbio.Base.{
  suc, ◌+◌, ◌≡◌, refl, sym, ap, ◌∙◌, false, List, [], ◌∷◌, ◌++◌, arith, Bytes, length,
  length-append, append-nil,
}
use nbio.Http.Parser.State.{Parser, Processor, Error, is_close}
use nbio.Http.Parser.Loop.{
  Finish, ok, err, out_of_fuel, loop, start, receive, parse, init_read_deadline,
}
use nbio.Http.Parser.Split.{view, view_ok, view_err, loop-recache, loop_fuel, Follows, loop-Follows}
use nbio.Http.Parser.Progress.{InBody, Inside-nil, init-InBody, loop-Ends, parse-Ends}
use nbio.Http.Parser.Locality.{recache}
use nbio.Http.Parser.Steady.{Steady, loop-Steady, NeverUpgrades}

-- A parser between two calls: open, not replaced by an upgrade, with no limit on what it caches, and
-- caching less than the body that it awaits.
pub record Ready {S : Type 0} (p : Parser S) : Type 0 where
  pub body : InBody p p.bytes_cached
  pub open_state : is_close p.state ≡ false
  pub not_replaced : p.parser_closer ≡ false
  pub unlimited : p.read_limit ≡ 0

-- Parse called with one piece after the other, up to an error.
unfoldable pub feed : {S : Type 0} → Processor S → Parser S → List Bytes → Finish S
feed h p [] = ok p
feed h p (d ∷ ds) = elim (parse h p d) [
  | ok q ↦ feed h q ds
  | err q e ↦ err q e
  | out_of_fuel ↦ out_of_fuel
]

abbrev pub concat : List Bytes → Bytes
concat [] = []
concat (d ∷ ds) = d ++ concat ds

module _ {S : Type 0} (h : Processor S) where
  start-loop :
      (p : Parser S) (cached more : Bytes)
      → p.parser_closer ≡ false
      → InBody p cached
      → start h p cached more ≡ loop h (length more) p cached more
  unfolding start
  start-loop p cached more e b = ground (
    arith,
    loop_fuel h (length cached + length more) (length more) p cached more (omega arith)
        (omega arith) b,
  )

  receive-loop :
      (p : Parser S) (more : Bytes)
      → p.parser_closer ≡ false
      → p.read_limit ≡ 0
      → InBody p p.bytes_cached
      → view (receive h p more) ≡ view (loop h (length more) p p.bytes_cached more)
  unfolding receive
  receive-loop p [] e l b = unfold loop in refl
  receive-loop p (d ∷ ds) e l b = ground (
    arith,
    start-loop p [] (d ∷ ds) e (Inside-nil p.state p.content_length p.chunk_size p.bytes_cached b),
    start-loop (recache (p.bytes_cached ++ d ∷ ds) p) p.bytes_cached (d ∷ ds) e b,
    loop-recache h (suc (length ds)) (p.bytes_cached ++ d ∷ ds) p p.bytes_cached (d ∷ ds),
  )

  init-Ready : (p : Parser S) → Ready p → Ready (init_read_deadline h p)
  unfolding init_read_deadline
  init-Ready p r = record {
    body = init-InBody h p r.body;
    open_state = ground arith;
    not_replaced = ground arith;
    unlimited = ground arith;
  }

  init_cached : (p : Parser S) → (init_read_deadline h p).bytes_cached ≡ p.bytes_cached
  unfolding init_read_deadline
  init_cached p = ground arith

  -- Whatever is cached, a call is one run of the loop.
  parse-loop :
      (p : Parser S) (more : Bytes)
      → Ready p
      → view (parse h p more)
        ≡ view (loop h (length more) (init_read_deadline h p) p.bytes_cached more)
  unfolding parse
  parse-loop p more r =
      let q = init_read_deadline h p in
      let ready = init-Ready p r in
      ground
        (arith, receive-loop q more ready.not_replaced ready.unlimited ready.body, init_cached p)

module _ {S : Type 0} (h : Processor S) (plain : NeverUpgrades h) where
  set_pending : (p : Parser S) → (init_read_deadline h p).initial_read_deadline_pending ≡ false
  unfolding init_read_deadline
  set_pending p = ground arith

  init_idle : (p : Parser S) → p.initial_read_deadline_pending ≡ false → init_read_deadline h p ≡ p
  unfolding init_read_deadline
  init_idle p e = ground arith

  Ready-Steady : (p : Parser S) → Ready p → Steady p p
  Ready-Steady p r = ground arith

  Ready-body : (p : Parser S) → Ready p → InBody (init_read_deadline h p) p.bytes_cached
  Ready-body p r = rw (init_cached h p) at (init-Ready h p r).body

  loop_of_parse :
      (p : Parser S) (more : Bytes) {f : Finish S}
      → Ready p
      → parse h p more ≡ f
      → view (loop h (length more) (init_read_deadline h p) p.bytes_cached more) ≡ view f
  loop_of_parse p more r e = sym (parse-loop h p more r) ∙ ap view e

  -- What a call leaves is ready for the next one, and its deadline is set.
  parse-Ready :
      (p : Parser S) (more : Bytes) {q : Parser S}
      → Ready p
      → parse h p more ≡ ok q
      → Ready q × (init_read_deadline h q ≡ q)
  parse-Ready p more {q} r e =
      let i = init_read_deadline h p in
      let ran : loop h (length more) i p.bytes_cached more ≡ ok q =
        view_ok _ (loop_of_parse p more r e) in
      let ends : InBody q q.bytes_cached =
        rw ran at
          (loop-Ends h (length more) i p.bytes_cached more (omega arith) (Ready-body p r)) in
      let steady : Steady i q = rw ran at (
        loop-Steady h plain (length more) i p.bytes_cached more
          (Ready-Steady i (init-Ready h p r))) in
      let ready = init-Ready h p r in
      (
        record {
          body = ends;
          open_state = steady.open_state;
          not_replaced = steady.not_replaced;
          unlimited = steady.limit ∙ ready.unlimited;
        },
        init_idle q (steady.deadline ∙ set_pending p),
      )

  follows :
      (p : Parser S) (d1 d2 : Bytes)
      → Ready p
      → Follows h d2
          (loop h (length d1) (init_read_deadline h p) p.bytes_cached d1)
          (loop h (length (d1 ++ d2)) (init_read_deadline h p) p.bytes_cached (d1 ++ d2))
  follows p d1 d2 r =
      loop-Follows h plain (length d1) (length (d1 ++ d2)) (init_read_deadline h p) p.bytes_cached
        d1 d2 (omega arith) (omega (arith, length-append d1 d2)) (Ready-body p r)
        (Ready-Steady _ (init-Ready h p r))

  -- Two pieces one after the other do what their concatenation does at once.
  pub parse-append :
      (p : Parser S) (d1 d2 : Bytes) {q : Parser S}
      → Ready p
      → parse h p d1 ≡ ok q
      → view (parse h p (d1 ++ d2)) ≡ view (parse h q d2)
  parse-append p d1 d2 {q} r e =
      let ran = view_ok _ (loop_of_parse p d1 r e) in
      let (ready, set) = parse-Ready p d1 r e in
      parse-loop h p (d1 ++ d2) r
      ∙ rw ran at (follows p d1 d2 r)
      ∙ sym (rw set at (parse-loop h q d2 ready))

  -- An error stands, whatever would have come behind it.
  pub parse-append_err :
      (p : Parser S) (d1 d2 : Bytes) {q : Parser S} {x : Error}
      → Ready p
      → parse h p d1 ≡ err q x
      → view (parse h p (d1 ++ d2)) ≡ view (err q x)
  parse-append_err p d1 d2 {q} {x} r e =
      let (p', ran, same) = view_err _ (loop_of_parse p d1 r e) in
      parse-loop h p (d1 ++ d2) r ∙ ap view (rw ran at (follows p d1 d2 r)) ∙ cc

  -- However a stream is cut into pieces, Parse called with one piece after the other ends as it does
  -- with the whole stream at once: with the same parser and the same calls of the Processor, or with
  -- the same error. The parser is open and has no read limit, and no handler upgrades it.
  pub feed-concat :
      (p : Parser S) (d : Bytes) (ds : List Bytes)
      → Ready p
      → view (feed h p (d ∷ ds)) ≡ view (parse h p (concat (d ∷ ds)))
  unfolding feed
  feed-concat p d [] r = rw (append-nil d) (last (parse h p d))
    where
      last :
          (f : Finish S)
          → view (elim f [ ok q ↦ ok q | err q x ↦ err q x | out_of_fuel ↦ out_of_fuel ]) ≡ view f
      last (ok q) = refl
      last (err q x) = refl
      last out_of_fuel = refl
  feed-concat p d (d2 ∷ ds) r = go (parse h p d) refl (λ q r'. feed-concat q d2 ds r')
    where
      go :
          (f : Finish S)
          → parse h p d ≡ f
          → ((q : Parser S)
              → Ready q
              → view (feed h q (d2 ∷ ds)) ≡ view (parse h q (concat (d2 ∷ ds))))
          → view
              (elim f [ ok q ↦ feed h q (d2 ∷ ds) | err q x ↦ err q x | out_of_fuel ↦ out_of_fuel ])
            ≡ view (parse h p (d ++ concat (d2 ∷ ds)))
      go (ok q) e ih = ih q (parse-Ready p d r e).0 ∙ sym (parse-append p d (concat (d2 ∷ ds)) r e)
      go (err q x) e ih = sym (parse-append_err p d (concat (d2 ∷ ds)) r e)
      go out_of_fuel e ih = absurd (rw e at (parse-Ends h p d r.body))
