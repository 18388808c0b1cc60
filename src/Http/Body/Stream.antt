-- ===== src/Http/Body/Stream.antt =====
-- nbhttp/body.go: what Read gives is what append took, in order.
use nbio.Base.{
  ◌-◌, drop_whole, ◌||◌, if◌then◌else◌, ℕ, suc, ◌<◌, ◌≡◌, refl, sym, ap, ◌∙◌, true, false, List, [],
  ◌∷◌, ◌++◌, Bytes, Option, none, some, length, take, drop, arith, inl, inr, ◌⊎◌, Bool-cases,
  append_assoc, append-nil, take-append-drop, is_nil, ltb,
}
use nbio.Http.Body.{BodyReader, Allocation, ReadResult, bytes, eof, read_loop, read, close, append}
use nbio.Http.Body.Rounds.{unread, Counted}
use nbio.Http.Body.Filling.{Appended, Appends, append-Appends}
use nbio.Http.Body.Reads.{read_loop-Reads}

-- What Read promises: io.EOF once the body is closed or at its end, and else up to `n` bytes.
abbrev pub expected_read : BodyReader → ℕ → ReadResult
expected_read br n = if br.closed || is_nil (unread br) then eof else bytes (take n (unread br))

left_nil : (br : BodyReader) → Counted br → ltb 0 br.left ≡ false → unread br ≡ []
left_nil br c e = drop_whole 0 (unread br) (ground (arith, c.all_left))

left_some : (br : BodyReader) → Counted br → ltb 0 br.left ≡ true → is_nil (unread br) ≡ false
left_some br c e = nonempty (unread br) (ground (arith, c.all_left))
  where
    nonempty : (xs : Bytes) → 0 < length xs → is_nil xs ≡ false
    nonempty [] h = absurd (omega arith)
    nonempty (x ∷ xs) h = refl

-- What a call of Read leaves.
pub record Read (br : BodyReader) (n : ℕ) (r : BodyReader × ReadResult) : Type 0 where
  result : r.1 ≡ expected_read br n
  rest : unread r.0 ≡ (if br.closed then unread br else drop n (unread br))
  counted : Counted r.0
  owned : r.0.freed ++ r.0.buffers ≡ br.freed ++ br.buffers
  open_still : r.0.closed ≡ br.closed

read_stops :
    (br : BodyReader) (n : ℕ) → (br.closed ≡ true) ⊎ (ltb 0 br.left ≡ false) → read br n ≡ (br, eof)
unfolding read
read_stops br n e = ground arith

read_goes :
    (br : BodyReader) (n : ℕ)
    → br.closed ≡ false
    → ltb 0 br.left ≡ true
    → read br n ≡ read_loop (suc (length br.buffers)) n br []
unfolding read
read_goes br n e f = ground arith

-- A call of Read ends: with io.EOF if the body is closed or at its end, and else with as many bytes as
-- are asked for and there; those bytes are no longer unread, the rest is, in order, and every buffer
-- that is dropped is freed, in order. The reader counts its bytes, and so it does afterwards.
pub read-Read : (br : BodyReader) (n : ℕ) → Counted br → Read br n (read br n)
read-Read br n c = elim (Bool-cases br.closed) [
  | inl shut ↦ rw (read_stops br n (inl shut)) (record {
    result = ground arith;
    rest = ground arith;
    counted = c;
    owned = refl;
    open_still = refl;
  })
  | inr here ↦ elim (Bool-cases (ltb 0 br.left)) [
    | inl some_left ↦
        let r =
          read_loop-Reads (suc (length br.buffers)) n br [] (omega arith) (omega arith)
            (inr (omega arith)) c in
        let size : n - length {A = ℕ} [] ≡ n = omega arith in
        rw (read_goes br n here some_left) (record {
          result = r.result ∙ ground (arith, left_some br c some_left);
          rest = ground (arith, r.rest, size);
          counted = r.counted;
          owned = r.owned;
          open_still = r.open_still;
        })
    | inr none_left ↦ rw (read_stops br n (inr none_left)) (record {
      result = ground (arith, left_nil br c none_left);
      rest = ground (arith, left_nil br c none_left, drop_whole {A = ℕ} n [] (omega arith));
      counted = c;
      owned = refl;
      open_still = refl;
    })
  ]
]

-- Closing frees the buffers that reading would have freed one by one: whatever is read before, the
-- buffers that are freed once the body is closed are the same, in the same order. The reader counts
-- its bytes.
pub close-read :
    (br : BodyReader) (n : ℕ) → Counted br → (close (read br n).0).freed ≡ (close br).freed
unfolding close
close-read br n c =
    let r = read-Read br n c in
    elim (Bool-cases br.closed) [
      | inl shut ↦ ap (λ q. (close q).freed) (ap (λ x. x.0) (read_stops br n (inl shut)))
      | inr here ↦ ground (arith, r.owned, r.open_still)
    ]

-- What the parser and a handler do with a body: append bytes, read up to n bytes.
pub data Operation : Type 0 where
  put : Bytes → Operation
  get : ℕ → Operation

abbrev got : ReadResult → Bytes
got (bytes d) = d
got _ = []

-- After a run: the reader, the bytes that append took, and the bytes that were read.
pub record Log : Type 0 where
  pub reader : BodyReader
  pub taken : Bytes
  pub read_out : Bytes

abbrev took : Bytes → Log → Log
took d l = record l { taken = d ++ l.taken }

abbrev gave : Bytes → Log → Log
gave d l = record l { read_out = d ++ l.read_out }

-- The operations one after the other. What append refuses is lost to the body.
unfoldable pub run : Allocation → BodyReader → List Operation → Log
run a br [] = record { reader = br; taken = []; read_out = [] }
run a br (put d ∷ ops) = elim (append a br d) [
  | none ↦ run a br ops
  | some q ↦ took d (run a q ops)
]
run a br (get n ∷ ops) = let (q, r) = read br n in gave (got r) (run a q ops)

-- The bytes come out in the order in which they went in.
pub record InOrder (br : BodyReader) (l : Log) : Type 0 where
  pub same : l.read_out ++ unread l.reader ≡ unread br ++ l.taken
  pub counted : Counted l.reader
  pub open_still : l.reader.closed ≡ false

got_all :
    (br : BodyReader) (n : ℕ)
    → Counted br
    → br.closed ≡ false
    → got (read br n).1 ++ unread (read br n).0 ≡ unread br
got_all br n c e =
    let r = read-Read br n c in
    let result : (read br n).1 ≡ (if is_nil (unread br) then eof else bytes (take n (unread br))) =
      r.result ∙ ap (λ k. if k || is_nil (unread br) then eof else bytes (take n (unread br))) e in
    let rest : unread (read br n).0 ≡ drop n (unread br) =
      r.rest ∙ ap (λ k. if k then unread br else drop n (unread br)) e in
    rw (result, rest) (front (unread br))
  where
    front : (xs : Bytes) → got (if is_nil xs then eof else bytes (take n xs)) ++ drop n xs ≡ xs
    front [] = drop_whole n [] (omega arith)
    front (x ∷ xs) = take-append-drop n (x ∷ xs)

module _ (a : Allocation) where
  took-InOrder :
      (br q : BodyReader) (d : Bytes) (l : Log)
      → Appended a br d q
      → InOrder q l
      → InOrder br (took d l)
  took-InOrder br q d l f i = record {
    same = i.same ∙ ap (λ t. t ++ l.taken) f.behind ∙ append_assoc (unread br) d l.taken;
    counted = i.counted;
    open_still = i.open_still;
  }

  gave-InOrder :
      (br q : BodyReader) (d : Bytes) (l : Log)
      → d ++ unread q ≡ unread br
      → InOrder q l
      → InOrder br (gave d l)
  gave-InOrder br q d l e i = record {
    same =
        append_assoc d l.read_out (unread l.reader)
        ∙ ap (λ t. d ++ t) i.same
        ∙ sym (append_assoc d (unread q) l.taken)
        ∙ ap (λ t. t ++ l.taken) e;
    counted = i.counted;
    open_still = i.open_still;
  }

  -- However appends and reads are mixed: what was read and what is still unread, together, are what
  -- was unread at first and what append took, in that order. The reader counts its bytes and is
  -- open, and so it is afterwards.
  pub run-InOrder :
      (ops : List Operation) (br : BodyReader)
      → Counted br
      → br.closed ≡ false
      → InOrder br (run a br ops)
  unfolding run
  run-InOrder [] br c e = record {
    same = sym (append-nil (unread br));
    counted = c;
    open_still = e;
  }
  run-InOrder (put d ∷ ops) br c e =
      after (append a br d) (append-Appends a br d c) (run-InOrder ops)
    where
      after :
          (o : Option BodyReader)
          → Appends a br d o
          → ((q : BodyReader) → Counted q → q.closed ≡ false → InOrder q (run a q ops))
          → InOrder br (elim o [ none ↦ run a br ops | some q ↦ took d (run a q ops) ])
      after none f ih = ih br c e
      after (some q) f ih = took-InOrder br q d _ f (ih q f.counted (f.closed_same ∙ e))
  run-InOrder (get n ∷ ops) br c e =
      let r = read-Read br n c in
      gave-InOrder br (read br n).0 (got (read br n).1) _ (got_all br n c e)
        (run-InOrder ops (read br n).0 r.counted (r.open_still ∙ e))
