-- ===== src/Http/ClientConn/Request.antt =====
-- nbhttp/client_conn.go: Do, with what it asks of its surroundings.
use nbio.Base.{
  ℕ, ◌+◌, Bool, List, [], ◌∷◌, ◌++◌, Option, none, some, Bytes, ℤ, is_pos, leb, length, ◌⊎◌, inl,
  inr, if◌then◌else◌, pos_part, ◌==◌, ◌&&◌, map,
}
use nbio.Go.Text.{split}
use nbio.Http.ClientConn.{
  ClientConn, DialEvent, Error, ResHandler, Socket, close_with_error_without_lock, emit, on_conn,
  client_timeout, client_closed, client_unsupported_schema, nbio_conn, wrapped, at, dialed,
  dialed_deadline, handled, set_read_deadline, set_write_deadline, dialing, dialer_added,
  wrote_request,
}

-- netDial: what it calls, and the connection or an error.
abbrev pub Dial : Type 0
Dial = Bytes → List DialEvent × (Error ⊎ ℕ)

-- c.Proxy: nil, an error of it, no proxy for the request, an error of proxyFromURL, or its dialer,
-- which dials by the dialer that it is given.
pub data Proxy : Type 0 where
  no_proxy no_proxy_url : Proxy
  proxy_failed proxy_refused : Error → Proxy
  through : (Dial → Dial) → Proxy

pub data Scheme : Type 0 where
  http https other_scheme : Scheme

-- A request, with its number, req.URL.Scheme and req.URL.Host.
pub record Request : Type 0 where
  pub ident : ℕ
  pub scheme : Scheme
  pub host : Bytes

-- What the surroundings answer in one call of Do. The parser put behind the connection is not part
-- of the state: its OnClose is a call of CloseWithError of its own. `now` is the clock at the start, `until` where
-- the rest of the time to dial is taken. `dial` is c.Dial or the package net's.
pub record World : Type 0 where
  pub now : ℕ
  pub until : ℕ
  pub proxy : Proxy
  pub dial : Bytes → Error ⊎ ℕ
  pub nb_conn : Option Error
  pub handshake : Option Error
  pub insecure_skip_verify : Bool
  pub verify_hostname : Option Error
  pub conn_key : Option Error
  pub add_conn : Option Error
  pub write_request : Option Error

abbrev pub http_port : Bytes
http_port = 56 ∷ 48 ∷ []

abbrev pub https_port : Bytes
https_port = 52 ∷ 52 ∷ 51 ∷ []

-- `port` where the host names none
abbrev pub default_port : Scheme → Bytes
default_port https = https_port
default_port _ = http_port

abbrev pub join_addr : Scheme → List Bytes → Bytes
join_addr s [] = 58 ∷ default_port s
join_addr s (host ∷ []) = host ++ 58 ∷ default_port s
join_addr s (host ∷ port ∷ _) = host ++ 58 ∷ port

-- `addr`: the first two of strings.Split(req.URL.Host, ":")
unfoldable pub addr_of : Request → Bytes
addr_of r = join_addr r.scheme (split 58 r.host)

module _ (w : World) (req : Request) where
  -- `c.closeWithErrorWithoutLock(err); return`, or the rest of Do.
  abbrev pub unless : Option Error → (ClientConn → ClientConn) → ClientConn → ClientConn
  unless none rest c = rest c
  unless (some e) rest c = close_with_error_without_lock (some e) c

  -- sendRequest
  unfoldable pub send_request : ClientConn → ClientConn
  send_request c =
      unless w.write_request (λ q. q)
        (emit (on_conn c.conn (wrote_request req.ident)) (
          emit
            (if is_pos c.write_timeout
              then on_conn c.conn (λ s. set_write_deadline s (at w.now c.write_timeout))
              else [])
            c))

  -- The case "http" behind NBConn.
  unfoldable pub adopt_plain : ℕ → ClientConn → ClientConn
  adopt_plain n c =
      send_request (emit (dialer_added n ∷ []) (record c { conn = some (nbio_conn n) }))

  -- The case "https" behind conn2Array.
  unfoldable pub adopt_tls : ℕ → ClientConn → ClientConn
  adopt_tls n c =
      unless w.add_conn send_request
        (emit (dialer_added n ∷ []) (record c { conn = some (wrapped n) }))

  -- The switch on req.URL.Scheme, with the connection that was dialed.
  unfoldable pub adopt : Scheme → ℕ → ClientConn → ClientConn
  adopt http n c = unless w.nb_conn (adopt_plain n) c
  adopt https n c =
      unless w.handshake
        (unless (if w.insecure_skip_verify then none else w.verify_hostname)
          (unless w.nb_conn (unless w.conn_key (adopt_tls n))))
        c
  adopt other_scheme n c = close_with_error_without_lock (some client_unsupported_schema) c

  abbrev pub dialed_ok : Error ⊎ ℕ → ClientConn → ClientConn
  dialed_ok (inl e) c = close_with_error_without_lock (some e) c
  dialed_ok (inr n) c = adopt req.scheme n c

  abbrev pub set_deadline_of : ℤ → Error ⊎ ℕ → List DialEvent
  set_deadline_of t (inl e) = []
  set_deadline_of t (inr n) = dialed_deadline n (at w.now t) ∷ []

  -- netDial without a proxy: with a timeout it sets the deadline of what it dialed.
  abbrev pub net_dial : ℤ → Dial
  net_dial t addr =
      let got = w.dial addr in (dialed addr ∷ (if is_pos t then set_deadline_of t got else []), got)

  abbrev pub after_dial : List DialEvent × (Error ⊎ ℕ) → ClientConn → ClientConn
  after_dial (es, got) c = dialed_ok got (emit (map dialing es) c)

  unfoldable pub dial_by : Proxy → ClientConn → ClientConn
  dial_by no_proxy c = after_dial (net_dial c.timeout (addr_of req)) c
  dial_by no_proxy_url c = after_dial (net_dial c.timeout (addr_of req)) c
  dial_by (proxy_failed e) c = close_with_error_without_lock (some e) c
  dial_by (proxy_refused e) c = close_with_error_without_lock (some e) c
  dial_by (through d) c = after_dial (d (net_dial c.timeout) (addr_of req)) c

  -- The branch of Do with no connection yet.
  unfoldable pub connect : ClientConn → ClientConn
  connect c =
      if is_pos c.timeout && leb (w.now + pos_part c.timeout) w.until
      then close_with_error_without_lock (some client_timeout) c
      else dial_by w.proxy c

  abbrev pub is_one : List ResHandler → Bool
  is_one hs = length hs == 1

  -- The branch with a connection.
  unfoldable pub reuse : Socket → ClientConn → ClientConn
  reuse s c = send_request (
      emit
        (if is_pos c.timeout && is_one c.handlers
          then set_read_deadline s (at w.now c.timeout) ∷ []
          else [])
        c)

  unfoldable pub send_on : Option Socket → ClientConn → ClientConn
  send_on none c = connect c
  send_on (some s) c = reuse s c

  -- Do, with the handler as a number.
  unfoldable pub do_request : ℕ → ClientConn → ClientConn
  do_request handler c =
      if c.closed
      then emit (handled handler none none (some client_closed) ∷ []) c
      else send_on c.conn
          (record c { handlers = c.handlers ++ record { c = c.conn; t = w.now; h = handler } ∷ [] })
