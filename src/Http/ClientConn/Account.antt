-- ===== src/Http/ClientConn/Account.antt =====
-- nbhttp/client_conn.go: which handlers a list of calls calls, what a connection owes its callers,
-- and that closing it settles that.
use nbio.Base.{
  ℕ, ◌+◌, ◌≡◌, ◌⊎◌, inl, refl, ap, ◌∙◌, Bool, true, false, List, [], ◌∷◌, ◌++◌, Option, none, some,
  arith, append-nil, map, if◌then◌else◌,
}
use nbio.Http.ClientConn.{
  Error, Socket, ResHandler, DialEvent, dialing, Event, handled, set_read_deadline,
  set_write_deadline, dialer_added, wrote_request, on_close, nil_call, ClientConn, emit, on_conn,
  fail_all, close_socket, or_eof, close_with_error_without_lock, nbio_conn, tls_conn, wrapped,
}

-- The handlers that were called, in the order of the calls.
unfoldable pub called : List Event → List ℕ
called [] = []
called (handled h res conn err ∷ es) = h ∷ called es
called (_ ∷ es) = called es

-- How many methods were called on a nil connection.
unfoldable pub faults : List Event → ℕ
faults [] = 0
faults (nil_call ∷ es) = 1 + faults es
faults (_ ∷ es) = faults es

abbrev pub waiting : ClientConn → List ℕ
waiting c = map (λ r. r.h) c.handlers

pub called-append : (xs ys : List Event) → called (xs ++ ys) ≡ called xs ++ called ys
unfolding called
called-append [] ys = refl
called-append (handled h res conn err ∷ es) ys = ap (λ t. h ∷ t) (called-append es ys)
called-append (set_read_deadline s d ∷ es) ys = called-append es ys
called-append (set_write_deadline s d ∷ es) ys = called-append es ys
called-append (dialing d ∷ es) ys = called-append es ys
called-append (dialer_added n ∷ es) ys = called-append es ys
called-append (Event.dialer_deleted n ∷ es) ys = called-append es ys
called-append (Event.closed_conn s ∷ es) ys = called-append es ys
called-append (wrote_request n s ∷ es) ys = called-append es ys
called-append (on_close ∷ es) ys = called-append es ys
called-append (nil_call ∷ es) ys = called-append es ys

pub faults-append : (xs ys : List Event) → faults (xs ++ ys) ≡ faults xs + faults ys
unfolding faults
faults-append [] ys = omega arith
faults-append (handled h res conn err ∷ es) ys = faults-append es ys
faults-append (set_read_deadline s d ∷ es) ys = faults-append es ys
faults-append (set_write_deadline s d ∷ es) ys = faults-append es ys
faults-append (dialing d ∷ es) ys = faults-append es ys
faults-append (dialer_added n ∷ es) ys = faults-append es ys
faults-append (Event.dialer_deleted n ∷ es) ys = faults-append es ys
faults-append (Event.closed_conn s ∷ es) ys = faults-append es ys
faults-append (wrote_request n s ∷ es) ys = faults-append es ys
faults-append (on_close ∷ es) ys = faults-append es ys
faults-append (nil_call ∷ es) ys = omega (arith, faults-append es ys)

-- Events that call `hs`, and nothing on a nil connection.
abbrev pub Calls : List ℕ → List Event → Type 0
Calls hs es = (called es ≡ hs) × (faults es ≡ 0)

Calls-append :
    (hs ks : List ℕ) (xs ys : List Event) → Calls hs xs → Calls ks ys → Calls (hs ++ ks) (xs ++ ys)
Calls-append hs ks xs ys (a, f) (b, g) =
    (called-append xs ys ∙ rw a (rw b refl), omega (arith, faults-append xs ys, f, g))

fail_all-Calls :
    (s : Option Socket) (e : Error) (rs : List ResHandler)
    → Calls (map (λ r. r.h) rs) (fail_all s e rs)
unfolding fail_all called faults
fail_all-Calls s e [] = (refl, refl)
fail_all-Calls s e (r ∷ rs) = let (a, f) = fail_all-Calls s e rs in (ap (λ t. r.h ∷ t) a, f)

close_socket-Calls : (s : Option Socket) → Calls [] (close_socket s)
unfolding close_socket called faults
close_socket-Calls none = (refl, refl)
close_socket-Calls (some (nbio_conn n)) = (refl, refl)
close_socket-Calls (some (tls_conn n)) = (refl, refl)
close_socket-Calls (some (wrapped n)) = (refl, refl)

on_close-Calls : (b : Bool) → Calls [] (if b then on_close ∷ [] else [])
unfolding called faults
on_close-Calls true = (refl, refl)
on_close-Calls false = (refl, refl)

pub dialing-Calls : (es : List DialEvent) → Calls [] (map dialing es)
unfolding called faults
dialing-Calls [] = (refl, refl)
dialing-Calls (e ∷ es) = dialing-Calls es

-- The handlers that were called, and behind them those that wait, are `total`; no method was called
-- on a nil connection.
abbrev pub Owes : List ℕ → ClientConn → Type 0
Owes total c = (called c.events ++ waiting c ≡ total) × (faults c.events ≡ 0)

pub emit-Owes :
    (total : List ℕ) (es : List Event) (c : ClientConn)
    → Calls [] es
    → Owes total c
    → Owes total (emit es c)
emit-Owes total es c s (same, f) =
    let (a, g) = Calls-append (called c.events) [] c.events es (refl, f) s in
    (ap (λ t. t ++ waiting c) (a ∙ append-nil (called c.events)) ∙ same, g)

Calls-silent : (hs : List ℕ) (xs ys : List Event) → Calls hs xs → Calls [] ys → Calls hs (xs ++ ys)
Calls-silent hs xs ys a b =
    let (same, f) = Calls-append hs [] xs ys a b in (same ∙ append-nil hs, f)

pub close_without_lock-Owes :
    (total : List ℕ) (e : Option Error) (c : ClientConn)
    → Owes total c
    → Owes total (close_with_error_without_lock e c)
unfolding close_with_error_without_lock
close_without_lock-Owes total e c (same, f) =
    let failed = fail_all c.conn (or_eof e) c.handlers in
    let ended =
      Calls-silent (waiting c) (failed ++ close_socket c.conn)
        (if c.has_on_close then on_close ∷ [] else [])
        (Calls-silent (waiting c) failed (close_socket c.conn)
          (fail_all-Calls c.conn (or_eof e) c.handlers) (close_socket-Calls c.conn))
        (on_close-Calls c.has_on_close) in
    let (a, g) =
      Calls-append (called c.events) (waiting c) c.events
        (failed ++ close_socket c.conn ++ (if c.has_on_close then on_close ∷ [] else [])) (refl, f)
        ended in
    (
      append-nil (
            called (
              c.events
              ++ (failed ++ close_socket c.conn ++ (if c.has_on_close then on_close ∷ [] else []))))
          ∙ a
          ∙ same,
      g,
    )

-- While handlers wait, the connection is there.
abbrev pub Attached : ClientConn → Type 0
Attached c = (c.handlers ≡ []) ⊎ ((s : Socket) × (c.conn ≡ some s))

-- An open client's connection, that owes `total`.
abbrev pub Open : List ℕ → ClientConn → Type 0
Open total c = Owes total c × Attached c × (c.closed ≡ false)

pub close_without_lock-Open :
    (total : List ℕ) (e : Option Error) (c : ClientConn)
    → Owes total c
    → c.closed ≡ false
    → Open total (close_with_error_without_lock e c)
unfolding close_with_error_without_lock
close_without_lock-Open total e c owes up = (close_without_lock-Owes total e c owes, inl refl, up)

pub on_conn-Calls :
    (o : Option Socket) (s : Socket) (f : Socket → Event)
    → o ≡ some s
    → ((t : Socket) → Calls [] (f t ∷ []))
    → Calls [] (on_conn o f)
on_conn-Calls none s f e h = absurd cc
on_conn-Calls (some t) s f e h = h t

-- A client's connection that owes `total`: open, or closed and with nothing that waits.
abbrev pub Orderly : List ℕ → ClientConn → Type 0
Orderly total c = Owes total c × Attached c × ((c.closed ≡ false) ⊎ (c.handlers ≡ []))
