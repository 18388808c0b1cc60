-- ===== src/Http/ClientConn/Ordered.antt =====
-- nbhttp/client_conn.go: whatever is done with a client's connection, in any order and with any
-- answers of its surroundings, its handlers are called in the order of their requests.
use nbio.Base.{
  ℕ, ◌+◌, ◌≡◌, ◌⊎◌, inl, inr, refl, sym, ap, ◌∙◌, Bool, true, false, List, [], ◌∷◌, ◌++◌, Option,
  none, some, arith, append-nil, append_assoc, map, is_pos, ltb, pos_part, if◌then◌else◌,
}
use nbio.Http.ClientConn.{
  Error, Socket, at, never, ResHandler, handled, set_read_deadline, ClientConn, Event, emit,
  on_conn, reset, close_with_error_without_lock, close_with_error, after_response, respond,
  on_response, client_timeout,
}
use nbio.Http.ClientConn.Request.{Request, World, do_request}
use nbio.Http.ClientConn.Account.{
  called, faults, called-append, faults-append, Owes, emit-Owes, close_without_lock-Owes, Open,
  close_without_lock-Open, on_conn-Calls, Orderly,
}
use nbio.Http.ClientConn.Sending.{do_request-Orderly}

-- CloseWithError
close_with_error-Orderly :
    (total : List ℕ) (e : Option Error) (c : ClientConn)
    → Orderly total c
    → Orderly total (close_with_error e c)
unfolding close_with_error close_with_error_without_lock
close_with_error-Orderly total e c (owes, at_s, state) = by_closed c.closed
  where
    by_closed :
        (b : Bool)
        → Orderly total
            (if b then c else close_with_error_without_lock e (record c { closed = true }))
    by_closed true = (owes, at_s, state)
    by_closed false =
        (close_without_lock-Owes total e (record c { closed = true }) owes, inl refl, inr refl)

-- Reset
reset-Orderly : (total : List ℕ) (c : ClientConn) → Orderly total c → Orderly total (reset c)
unfolding reset
reset-Orderly total c ((same, f), at_s, state) = by_closed c.closed refl state
  where
    by_closed :
        (b : Bool)
        → c.closed ≡ b
        → (c.closed ≡ false) ⊎ (c.handlers ≡ [])
        → Orderly total (if b then record c { conn = none; handlers = []; closed = false } else c)
    by_closed true down (inl up) = absurd cc
    by_closed true down (inr idle) =
        ((ap (λ t. called c.events ++ map (λ r. r.h) t) (sym idle) ∙ same, f), inl refl, inl refl)
    by_closed false up s = ((same, f), at_s, s)

-- The end of onResponse, with a handler that waits.
next-Orderly :
    (total : List ℕ) (now : ℕ) (next : ResHandler) (rest : List ResHandler) (c : ClientConn)
    → (s : Socket) → c.conn ≡ some s
    → Owes total c
    → c.closed ≡ false
    → Orderly total (after_response now (next ∷ rest) c)
unfolding after_response called faults
next-Orderly total now next rest c s e owes up =
    renewed (is_pos c.timeout) (ltb (next.t + pos_part c.timeout) now)
  where
    closing : Open total (close_with_error_without_lock (some client_timeout) c)
    closing = close_without_lock-Open total (some client_timeout) c owes up

    renewed :
        (a b : Bool)
        → Orderly total (
            if a
            then (if b then close_with_error_without_lock (some client_timeout) c else c)
            else emit (on_conn c.conn (λ t. set_read_deadline t (at next.t c.timeout))) c)
    renewed true true = (closing.0, closing.1, inl closing.2)
    renewed true false = (owes, inr (s, e), inl up)
    renewed false b = (
      emit-Owes total (on_conn c.conn (λ t. set_read_deadline t (at next.t c.timeout))) c
          (on_conn-Calls c.conn s (λ t. set_read_deadline t (at next.t c.timeout)) e
            (λ t. (refl, refl)))
          owes,
      inr (s, e),
      inl up,
    )

after_response-Orderly :
    (total : List ℕ) (now : ℕ) (hs : List ResHandler) (c : ClientConn) (s : Socket)
    → c.conn ≡ some s
    → Owes total c
    → c.closed ≡ false
    → Orderly total (after_response now hs c)
unfolding after_response called faults
after_response-Orderly total now [] c s e owes up =
    let idle : Socket → Event = λ t.
      set_read_deadline t
        (if is_pos c.idle_conn_timeout then at now c.idle_conn_timeout else never) in
    (
      emit-Owes total (on_conn c.conn idle) c (on_conn-Calls c.conn s idle e (λ t. (refl, refl)))
          owes,
      inr (s, e),
      inl up,
    )
after_response-Orderly total now (next ∷ rest) c s e owes up =
    next-Orderly total now next rest c s e owes up

answered-Owes :
    (total : List ℕ) (r : ResHandler) (rest : List ResHandler) (c : ClientConn) (res : Option ℕ)
    (err : Option Error)
    → c.handlers ≡ r ∷ rest
    → Owes total c
    → Owes total (emit (handled r.h res c.conn err ∷ []) (record c { handlers = rest }))
unfolding called faults
answered-Owes total r rest c res err e (same, f) = (
  ap (λ t. t ++ map (λ q. q.h) rest) (called-append c.events (handled r.h res c.conn err ∷ []))
      ∙ append_assoc (called c.events) (r.h ∷ []) (map (λ q. q.h) rest)
      ∙ ap (λ t. called c.events ++ map (λ q. q.h) t) (sym e)
      ∙ same,
  omega (arith, faults-append c.events (handled r.h res c.conn err ∷ []), f),
)

-- onResponse
on_response-Orderly :
    (total : List ℕ) (now : ℕ) (res : Option ℕ) (err : Option Error) (c : ClientConn)
    → Orderly total c
    → Orderly total (on_response now res err c)
unfolding on_response respond
on_response-Orderly total now res err c (owes, at_s, state) = by_closed c.closed refl
  where
    by_head :
        (hs : List ResHandler)
        → c.handlers ≡ hs
        → c.closed ≡ false
        → (c.handlers ≡ []) ⊎ ((s : Socket) × (c.conn ≡ some s))
        → Orderly total (respond now res err hs c)
    by_head [] e up a = (owes, at_s, state)
    by_head (head ∷ rest) e up (inl idle) = absurd cc
    by_head (head ∷ rest) e up (inr (s, there)) =
        after_response-Orderly total now rest
          (emit (handled head.h res c.conn err ∷ []) (record c { handlers = rest })) s there
          (answered-Owes total head rest c res err e owes) up

    by_closed :
        (b : Bool)
        → c.closed ≡ b
        → Orderly total (if b then c else respond now res err c.handlers c)
    by_closed true down = (owes, at_s, state)
    by_closed false up = by_head c.handlers refl up at_s

-- What is done with a connection. A call of CloseWithError is the user's, the Client's, or that of
-- the parser's OnClose.
pub data Operation : Type 0 where
  resetting : Operation
  closing : Option Error → Operation
  responding : (now : ℕ) (res : Option ℕ) (err : Option Error) → Operation
  requesting : World → Request → (h : ℕ) → Operation

abbrev pub apply : Operation → ClientConn → ClientConn
apply resetting c = reset c
apply (closing e) c = close_with_error e c
apply (responding now res err) c = on_response now res err c
apply (requesting w req h) c = do_request w req h c

unfoldable pub run : List Operation → ClientConn → ClientConn
run [] c = c
run (o ∷ os) c = run os (apply o c)

-- The handlers that Do is given, in order.
unfoldable pub requested : List Operation → List ℕ
requested [] = []
requested (requesting w req h ∷ os) = h ∷ requested os
requested (_ ∷ os) = requested os

run-Orderly :
    (os : List Operation) (total : List ℕ) (c : ClientConn)
    → Orderly total c
    → Orderly (total ++ requested os) (run os c)
unfolding run requested
run-Orderly [] total c s = rw (append-nil total) s
run-Orderly (resetting ∷ os) total c s = run-Orderly os total (reset c) (reset-Orderly total c s)
run-Orderly (closing e ∷ os) total c s =
    run-Orderly os total (close_with_error e c) (close_with_error-Orderly total e c s)
run-Orderly (responding now res err ∷ os) total c s =
    run-Orderly os total (on_response now res err c) (on_response-Orderly total now res err c s)
run-Orderly (requesting w req h ∷ os) total c s =
    rw (sym (append_assoc total (h ∷ []) (requested os))) (
      run-Orderly os (total ++ h ∷ []) (do_request w req h c)
        (do_request-Orderly total w req h c s))

-- Nothing has been done with the connection yet.
abbrev pub IsFresh : ClientConn → Type 0
IsFresh c = (c.events ≡ []) × (c.handlers ≡ []) × (c.closed ≡ false)

fresh-Orderly :
    (os : List Operation) (c : ClientConn) → IsFresh c → Orderly (requested os) (run os c)
unfolding called faults
fresh-Orderly os c (none_yet, idle, up) =
    run-Orderly os [] c ((rw (none_yet, idle) refl, rw none_yet refl), inl idle, inl up)

-- Whatever is done with a new connection of the client, in any order and with any answers: the
-- handlers that were called, in the order of the calls, and behind them those that still wait, are
-- the handlers that Do was given, in that order, each as often; and no method was called on a nil
-- connection.
pub run-Owes : (os : List Operation) (c : ClientConn) → IsFresh c → Owes (requested os) (run os c)
unfolding called faults
run-Owes os c fresh = (fresh-Orderly os c fresh).0

idle_after_close :
    (e : Option Error) (c : ClientConn)
    → (c.closed ≡ false) ⊎ (c.handlers ≡ [])
    → (close_with_error e c).handlers ≡ []
unfolding close_with_error close_with_error_without_lock
idle_after_close e c state = by_closed c.closed refl state
  where
    by_closed :
        (b : Bool)
        → c.closed ≡ b
        → (c.closed ≡ false) ⊎ (c.handlers ≡ [])
        → ((if b then c else close_with_error_without_lock e (record c { closed = true })).handlers)
          ≡ []
    by_closed true down (inl up) = absurd cc
    by_closed true down (inr idle) = idle
    by_closed false up s = refl

-- CloseWithError settles everything: after any operations on a new connection of the client and
-- then a CloseWithError, the handlers that were called, in the order of the calls, are the
-- handlers that Do was given, in that order, each as often.
pub called-close_with_error :
    (os : List Operation) (e : Option Error) (c : ClientConn)
    → IsFresh c
    → called (close_with_error e (run os c)).events ≡ requested os
called-close_with_error os e c fresh =
    let q = run os c in
    let before = fresh-Orderly os c fresh in
    let after = close_with_error-Orderly (requested os) e q before in
    sym (append-nil (called (close_with_error e q).events))
    ∙ ap (λ t. called (close_with_error e q).events ++ map (λ r. r.h) t)
        (sym (idle_after_close e q before.2))
    ∙ after.0.0
