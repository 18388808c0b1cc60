-- ===== src/Http/ClientConn/Ways.antt =====
-- nbhttp/client_conn.go: the ways through Do, from sending on an open connection to dialing one.
use nbio.Base.{
  ℕ, ◌+◌, ◌≡◌, ◌⊎◌, inl, inr, refl, Bool, true, false, List, [], ◌∷◌, Option, none, some, map,
  is_pos, leb, ◌&&◌, pos_part, if◌then◌else◌, length, ◌==◌,
}
use nbio.Http.ClientConn.{
  Error, Socket, Deadline, at, DialEvent, dialing, set_read_deadline, set_write_deadline,
  dialer_added, wrote_request, ClientConn, emit, on_conn, close_with_error_without_lock,
  client_timeout, nbio_conn, wrapped, client_unsupported_schema,
}
use nbio.Http.ClientConn.Request.{
  Proxy, no_proxy, no_proxy_url, proxy_failed, proxy_refused, through, Scheme, http, https,
  other_scheme, Request, World, send_request, unless, adopt_plain, adopt_tls, adopt, dial_by,
  connect, reuse, send_on, addr_of, net_dial, after_dial,
}
use nbio.Http.ClientConn.Account.{
  called, faults, Calls, dialing-Calls, Owes, emit-Owes, Open, close_without_lock-Open,
  on_conn-Calls,
}

module _ (w : World) (req : Request) where
  pub unless-Open :
      (total : List ℕ) (o : Option Error) (rest : ClientConn → ClientConn) (c : ClientConn)
      → Owes total c
      → c.closed ≡ false
      → ((q : ClientConn) → Owes total q → q.closed ≡ false → Open total (rest q))
      → Open total (unless w req o rest c)
  unless-Open total none rest c owes up h = h c owes up
  unless-Open total (some e) rest c owes up h = close_without_lock-Open total (some e) c owes up

  pub write_deadline-Calls :
      (b : Bool) (o : Option Socket) (s : Socket) (d : Deadline)
      → o ≡ some s
      → Calls [] (if b then on_conn o (λ t. set_write_deadline t d) else [])
  unfolding called faults
  write_deadline-Calls true o s d e = on_conn-Calls o s _ e (λ t. (refl, refl))
  write_deadline-Calls false o s d e = (refl, refl)

  pub sent-Open :
      (total : List ℕ) (o : Option Error) (q : ClientConn)
      → Open total q
      → Open total (unless w req o (λ r. r) q)
  sent-Open total none q h = h
  sent-Open total (some e) q (owes, at_s, up) = close_without_lock-Open total (some e) q owes up

  -- sendRequest, on a connection.
  pub send_request-Open :
      (total : List ℕ) (c : ClientConn) (s : Socket)
      → c.conn ≡ some s
      → Owes total c
      → c.closed ≡ false
      → Open total (send_request w req c)
  unfolding send_request called faults
  send_request-Open total c s e owes up =
      let armed =
        if is_pos c.write_timeout
        then on_conn c.conn (λ t. set_write_deadline t (at w.now c.write_timeout))
        else [] in
      sent-Open total w.write_request
        (emit (on_conn c.conn (wrote_request req.ident)) (emit armed c))
        (
          emit-Owes total (on_conn c.conn (wrote_request req.ident)) (emit armed c)
              (on_conn-Calls c.conn s (wrote_request req.ident) e (λ t. (refl, refl)))
              (emit-Owes total armed c
                (write_deadline-Calls (is_pos c.write_timeout) c.conn s (at w.now c.write_timeout)
                  e)
                owes),
          inr (s, e),
          up,
        )

  -- What has been dialed becomes the connection, and Engine.dialerConns has it.
  pub adopted-Owes :
      (total : List ℕ) (n : ℕ) (s : Socket) (c : ClientConn)
      → Owes total c
      → Owes total (emit (dialer_added n ∷ []) (record c { conn = some s }))
  unfolding called faults
  adopted-Owes total n s c owes =
      emit-Owes total (dialer_added n ∷ []) (record c { conn = some s }) (refl, refl) owes

  pub adopt_plain-Open :
      (total : List ℕ) (n : ℕ) (c : ClientConn)
      → Owes total c
      → c.closed ≡ false
      → Open total (adopt_plain w req n c)
  unfolding adopt_plain
  adopt_plain-Open total n c owes up =
      send_request-Open total (emit (dialer_added n ∷ []) (record c { conn = some (nbio_conn n) }))
        (nbio_conn n) refl (adopted-Owes total n (nbio_conn n) c owes) up

  pub adopt_tls-Open :
      (total : List ℕ) (n : ℕ) (c : ClientConn)
      → Owes total c
      → c.closed ≡ false
      → Open total (adopt_tls w req n c)
  unfolding adopt_tls
  adopt_tls-Open total n c owes up = added w.add_conn
    where
      q : ClientConn
      q = emit (dialer_added n ∷ []) (record c { conn = some (wrapped n) })

      added : (o : Option Error) → Open total (unless w req o (send_request w req) q)
      added none =
          send_request-Open total q (wrapped n) refl (adopted-Owes total n (wrapped n) c owes) up
      added (some e) =
          close_without_lock-Open total (some e) q (adopted-Owes total n (wrapped n) c owes) up

  pub adopt-Open :
      (total : List ℕ) (s : Scheme) (n : ℕ) (c : ClientConn)
      → Owes total c
      → c.closed ≡ false
      → Open total (adopt w req s n c)
  unfolding adopt
  adopt-Open total http n c owes up =
      unless-Open total w.nb_conn (adopt_plain w req n) c owes up (adopt_plain-Open total n)
  adopt-Open total https n c owes up = unless-Open total w.handshake _ c owes up (λ p o u.
      unless-Open total (if w.insecure_skip_verify then none else w.verify_hostname) _ p o u
        (λ q o' u'. unless-Open total w.nb_conn _ q o' u' (λ r o'' u''.
          unless-Open total w.conn_key (adopt_tls w req n) r o'' u'' (adopt_tls-Open total n))))
  adopt-Open total other_scheme n c owes up =
      close_without_lock-Open total (some client_unsupported_schema) c owes up

  pub dialed-Open :
      (total : List ℕ) (got : List DialEvent × (Error ⊎ ℕ)) (c : ClientConn)
      → Owes total c
      → c.closed ≡ false
      → Open total (after_dial w req got c)
  dialed-Open total (es, inl e) c owes up =
      close_without_lock-Open total (some e) (emit (map dialing es) c)
        (emit-Owes total (map dialing es) c (dialing-Calls es) owes) up
  dialed-Open total (es, inr n) c owes up =
      adopt-Open total req.scheme n (emit (map dialing es) c)
        (emit-Owes total (map dialing es) c (dialing-Calls es) owes) up

  pub dial_by-Open :
      (total : List ℕ) (p : Proxy) (c : ClientConn)
      → Owes total c
      → c.closed ≡ false
      → Open total (dial_by w req p c)
  unfolding dial_by
  dial_by-Open total no_proxy c owes up =
      dialed-Open total (net_dial w req c.timeout (addr_of req)) c owes up
  dial_by-Open total no_proxy_url c owes up =
      dialed-Open total (net_dial w req c.timeout (addr_of req)) c owes up
  dial_by-Open total (proxy_failed e) c owes up = close_without_lock-Open total (some e) c owes up
  dial_by-Open total (proxy_refused e) c owes up = close_without_lock-Open total (some e) c owes up
  dial_by-Open total (through d) c owes up =
      dialed-Open total (d (net_dial w req c.timeout) (addr_of req)) c owes up

  pub connect-Open :
      (total : List ℕ) (c : ClientConn)
      → Owes total c
      → c.closed ≡ false
      → Open total (connect w req c)
  unfolding connect
  connect-Open total c owes up = late (is_pos c.timeout && leb (w.now + pos_part c.timeout) w.until)
    where
      late :
          (b : Bool)
          → Open total (
              if b
              then close_with_error_without_lock (some client_timeout) c
              else dial_by w req w.proxy c)
      late true = close_without_lock-Open total (some client_timeout) c owes up
      late false = dial_by-Open total w.proxy c owes up

  pub read_deadline-Calls :
      (b : Bool) (s : Socket) (d : Deadline)
      → Calls [] (if b then set_read_deadline s d ∷ [] else [])
  unfolding called faults
  read_deadline-Calls true s d = (refl, refl)
  read_deadline-Calls false s d = (refl, refl)

  pub send_on-Open :
      (total : List ℕ) (o : Option Socket) (c : ClientConn)
      → c.conn ≡ o
      → Owes total c
      → c.closed ≡ false
      → Open total (send_on w req o c)
  unfolding send_on reuse
  send_on-Open total none c e owes up = connect-Open total c owes up
  send_on-Open total (some s) c e owes up =
      let first =
        if is_pos c.timeout && (length c.handlers == 1)
        then set_read_deadline s (at w.now c.timeout) ∷ []
        else [] in
      send_request-Open total (emit first c) s e
        (emit-Owes total first c
          (read_deadline-Calls (is_pos c.timeout && (length c.handlers == 1)) s
            (at w.now c.timeout))
          owes)
        up
