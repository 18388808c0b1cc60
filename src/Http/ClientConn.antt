-- ===== src/Http/ClientConn.antt =====
-- nbhttp/client_conn.go: one connection of the client, with the handlers of the requests that wait
-- for their response. What it asks of its surroundings (the clock, dialing, the proxy, TLS, NBConn,
-- AddConn, writing the request) is answered by a record; `events` is no field of the source, it
-- records the calls that the connection makes, in order. Panics that Do recovers are not modelled.
pub mod Request
pub mod Account
pub mod Ways
pub mod Sending
pub mod Ordered
mod Tests
use nbio.Base.{
  ℕ, ◌+◌, Bool, true, false, List, [], ◌∷◌, ◌++◌, Option, none, some, Bytes, ℤ, pos, is_pos, ltb,
  leb, is_nil, length, codes, ◌⊎◌, inl, inr, if◌then◌else◌, pos_part, ◌==◌, ◌&&◌, not, map,
}

-- The errors that the connection makes itself, io.EOF, and one that it is given.
pub data Error : Type 0 where
  eof client_timeout client_closed client_unsupported_schema : Error
  other : ℕ → Error

-- What c.conn holds: an *nbio.Conn, a *tls.Conn over one, or this package's *Conn over that.
pub data Socket : Type 0 where
  nbio_conn tls_conn wrapped : ℕ → Socket

-- time.Time of a deadline: a time with a duration added, or time.Time{}.
pub data Deadline : Type 0 where
  at : ℕ → ℤ → Deadline
  never : Deadline

-- resHandler, with the handler as a number.
pub record ResHandler : Type 0 where
  pub c : Option Socket
  pub t : ℕ
  pub h : ℕ

-- What a dialer calls: a connection that dialing returned is a number.
pub data DialEvent : Type 0 where
  dialed : Bytes → DialEvent
  dialed_deadline : ℕ → Deadline → DialEvent
  proxy_call : ℕ → DialEvent

-- `nil_call` is a call of a method of c.conn where that is nil.
pub data Event : Type 0 where
  handled : (h : ℕ) (res : Option ℕ) (conn : Option Socket) (err : Option Error) → Event
  set_read_deadline set_write_deadline : Socket → Deadline → Event
  dialing : DialEvent → Event
  dialer_added dialer_deleted : ℕ → Event
  closed_conn : Socket → Event
  wrote_request : ℕ → Socket → Event
  on_close nil_call : Event

-- ClientConn, with the WriteTimeout of its Engine.
pub record ClientConn : Type 0 where
  pub conn : Option Socket
  pub handlers : List ResHandler
  pub closed : Bool
  pub has_on_close : Bool
  pub timeout : ℤ
  pub idle_conn_timeout : ℤ
  pub write_timeout : ℤ
  pub events : List Event

abbrev pub emit : List Event → ClientConn → ClientConn
emit es c = record c { events = c.events ++ es }

-- A method of c.conn.
abbrev pub on_conn : Option Socket → (Socket → Event) → List Event
on_conn none f = nil_call ∷ []
on_conn (some s) f = f s ∷ []

unfoldable pub reset : ClientConn → ClientConn
reset c = if c.closed then record c { conn = none; handlers = []; closed = false } else c

-- `for _, h := range c.handlers { h.h(nil, c.conn, err) }`
unfoldable pub fail_all : Option Socket → Error → List ResHandler → List Event
fail_all conn err [] = []
fail_all conn err (r ∷ rs) = handled r.h none conn (some err) ∷ fail_all conn err rs

-- The *nbio.Conn that is taken off Engine.dialerConns, if c.conn is one or a *tls.Conn over one.
unfoldable pub close_socket : Option Socket → List Event
close_socket none = []
close_socket (some (nbio_conn n)) = dialer_deleted n ∷ closed_conn (nbio_conn n) ∷ []
close_socket (some (tls_conn n)) = dialer_deleted n ∷ closed_conn (tls_conn n) ∷ []
close_socket (some (wrapped n)) = closed_conn (wrapped n) ∷ []

abbrev pub or_eof : Option Error → Error
or_eof none = eof
or_eof (some e) = e

unfoldable pub close_with_error_without_lock : Option Error → ClientConn → ClientConn
close_with_error_without_lock err c =
    emit
      (fail_all c.conn (or_eof err) c.handlers
        ++ close_socket c.conn
        ++ (if c.has_on_close then on_close ∷ [] else []))
      (record c { handlers = []; conn = none })

unfoldable pub close_with_error : Option Error → ClientConn → ClientConn
close_with_error err c =
    if c.closed then c else close_with_error_without_lock err (record c { closed = true })

-- Close
abbrev pub close : ClientConn → ClientConn
close = close_with_error (some eof)

-- onResponse behind the call of the head's handler, with the handlers that are left.
unfoldable pub after_response : (now : ℕ) → List ResHandler → ClientConn → ClientConn
after_response now [] c =
    emit
      (on_conn c.conn (λ s.
        set_read_deadline s
          (if is_pos c.idle_conn_timeout then at now c.idle_conn_timeout else never)))
      c
after_response now (next ∷ rest) c =
    if is_pos c.timeout
    then (if ltb (next.t + pos_part c.timeout) now
        then close_with_error_without_lock (some client_timeout) c
        else c)
    else emit (on_conn c.conn (λ s. set_read_deadline s (at next.t c.timeout))) c

-- `len(c.handlers) > 0`, with the head and the rest.
unfoldable pub respond : ℕ → Option ℕ → Option Error → List ResHandler → ClientConn → ClientConn
respond now res err [] c = c
respond now res err (head ∷ rest) c =
    after_response now rest
      (emit (handled head.h res c.conn err ∷ []) (record c { handlers = rest }))

unfoldable pub on_response : ℕ → Option ℕ → Option Error → ClientConn → ClientConn
on_response now res err c = if c.closed then c else respond now res err c.handlers c
