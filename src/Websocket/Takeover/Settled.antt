-- ===== src/Websocket/Takeover/Settled.antt =====
-- Upgrade of nbhttp/websocket/upgrader.go: what it returns, and how it leaves the connection.
use nbio.Base.{
  ℕ, Bool, true, false, ◌&&◌, List, none, some, ◌≡◌, refl, ◌≢◌, ◌⊎◌, Bytes, inl, inr, arith,
  Bool-cases, Option-cases,
}
use nbio.Websocket.Upgrade.{Checked, accepted, refused}
use nbio.Websocket.Takeover.{
  Session, empty, parser, websocket, other, Under, polled, tls_polled, tls_std, tcp, unknown, Arg,
  Error, World, Settings, Carrier, inner_tls, nb_conn, unset, check, not_hijacker, failed, Conn,
  Effects, Upgraded, return_error, untouched, moved, cleared, clear_session, finished, announced,
  flag_of, polled_conn, blocking_conn, kept, transferred_conn, finish, from_poller, transfer, stay,
  take_over, upgrade,
}

-- Every other connection of the poller has the parser of nbhttp as its session.
abbrev pub IsServed : Under → Type 0
IsServed (polled session) = session ≡ parser
IsServed (tls_polled session) = session ≡ parser
IsServed _ = Unit {0}

abbrev pub Placed : Bool → Conn → Effects → Type 0
Placed true c e =
    (e.session ≡ empty) × (e.added ≡ false) × (c.is_reading_by_parser && c.read_loop ≡ false)
Placed false c e = (e.session ≡ websocket) × (c.execute ≢ unset) × (c.read_loop ≡ false)

-- A websocket on the poller is its connection's session and has what executes its handlers; a
-- blocking one is no session, is not added to the poller, and is read by the parser or by a
-- goroutine, never by both.
unfoldable pub Attached : Conn → Effects → Type 0
Attached c e = (e.closed ≡ false) × (e.http_error ≡ none) × Placed c.is_blocking_mod c e

-- A websocket has the subprotocol and the choice of compression of the check.
abbrev pub Dealt : Checked → Conn → Type 0
Dealt (accepted key p c) conn = (conn.subprotocol ≡ p) × (conn.remote_compression_enabled ≡ c)
Dealt (refused status e) conn = ⊥

-- A failure leaves no websocket as a session, nor one in the poller that is not closed.
unfoldable pub Failed : Effects → Type 0
Failed e = (e.session ≢ websocket) × ((e.added ≡ false) ⊎ (e.closed ≡ true))

-- Upgrade returns a websocket that is attached and no error, or an error and no websocket.
unfoldable pub Settled : Checked → Upgraded → Type 0
Settled checked u =
    ((c : Conn) × (u.conn ≡ some c) × (u.error ≡ none) × Dealt checked c × Attached c u.effects)
    ⊎ ((e : Error) × (u.conn ≡ none) × (u.error ≡ some e) × Failed u.effects)

Start : Bool → Conn → Effects → Type 0
Start true c e = (e.session ≡ empty) × (e.added ≡ false)
Start false c e = (e.session ≡ websocket) × (c.execute ≢ unset)

refused-Settled :
    (checked : Checked) (status : ℕ) (err : Error) (e : Effects)
    → e.session ≢ websocket
    → e.added ≡ false
    → Settled checked (return_error status (some err) e)
unfolding Settled Failed
refused-Settled checked status err e none_left not_added =
    inr (err, refl, refl, (none_left, inl not_added))

module _ (w : World) (s : Settings) (args : List Arg) (key p : Bytes) (z : Bool) where
  finished-Placed :
      (blocking : Bool) (c : Conn) (e : Effects)
      → c.is_blocking_mod ≡ blocking
      → Start blocking c e
      → Placed blocking (finished w s args c) (announced s e)
  unfolding Start
  finished-Placed true c e kind start = (start.0, start.1, ground arith)
  finished-Placed false c e kind start = (start.0, start.1, rw kind)

  clear_session-Failed :
      (c : Conn) (e : Effects) → Failed (record (clear_session e) { closed = true })
  unfolding Failed
  clear_session-Failed c e = (not_websocket e.session, inr refl)
    where
      not_websocket : (t : Session) → cleared t ≢ websocket
      not_websocket empty = cc
      not_websocket parser = cc
      not_websocket websocket = cc
      not_websocket other = cc

  finish-Settled :
      (c : Conn) (e : Effects)
      → e.closed ≡ false
      → e.http_error ≡ none
      → Start c.is_blocking_mod c e
      → Dealt (accepted key p z) c
      → Settled (accepted key p z) (finish w s args c e)
  unfolding finish Settled Attached
  finish-Settled c e running quiet start dealt = elim (Option-cases w.write_error) [
    | inl ok ↦ rw ok (
        inl (
          finished w s args c,
          refl,
          refl,
          dealt,
          (running, quiet, finished-Placed c.is_blocking_mod c e refl start),
        ))
    | inr (n, bad) ↦ rw bad (inr (failed n, refl, refl, clear_session-Failed c e))
  ]

  from_poller-Settled : Settled (accepted key p z) (from_poller w s args p z parser)
  unfolding from_poller Start
  from_poller-Settled =
      finish-Settled (polled_conn p z)
        (record untouched { session = websocket; parser_cleared = w.by_parser }) refl refl
        (refl, cc) (refl, refl)

  stay-Settled : Settled (accepted key p z) (stay w s args p z)
  unfolding stay Start
  stay-Settled = finish-Settled (blocking_conn p z w s) (kept w) refl refl (refl, refl) (refl, refl)

  transfer-Settled :
      (carrier : Carrier) → Settled (accepted key p z) (transfer w s args p z carrier)
  unfolding transfer Start
  transfer-Settled carrier = elim (Option-cases w.nb_conn_error) [
    | inr (n, bad) ↦ rw bad (refused-Settled (accepted key p z) 500 (failed n) untouched (cc) refl)
    | inl made ↦ elim (Option-cases w.add_error) [
      | inr (n, bad) ↦
          rw (made, bad)
            (refused-Settled (accepted key p z) 500 (failed n) (clear_session (moved w)) (cc) refl)
      | inl good ↦
          rw (made, good)
            (finish-Settled (transferred_conn p z s carrier) (record (moved w) { added = true })
              refl refl (refl, ground arith) (refl, refl))
    ]
  ]

  take_over-Settled :
      (under : Under) → IsServed under → Settled (accepted key p z) (take_over w s args p z under)
  unfolding take_over
  take_over-Settled (polled session) h = rw h from_poller-Settled
  take_over-Settled (tls_polled session) h = rw h from_poller-Settled
  take_over-Settled tls_std h = elim (Bool-cases (flag_of args s.transfer_conn_to_poller)) [
    | inl e ↦ rw e (transfer-Settled inner_tls)
    | inr e ↦ rw e stay-Settled
  ]
  take_over-Settled tcp h = elim (Bool-cases (flag_of args s.transfer_conn_to_poller)) [
    | inl e ↦ rw e (transfer-Settled nb_conn)
    | inr e ↦ rw e stay-Settled
  ]
  take_over-Settled unknown h = stay-Settled

-- Upgrade, whatever the check says, the connection is and fails: it returns a websocket that is
-- attached, with the subprotocol and the choice of compression of the check, and no error, or an error and no websocket, and then no session is a websocket and a
-- connection that was added to the poller is closed. A connection of the poller has its parser as its
-- session.
pub upgrade-Settled :
    (w : World) (s : Settings) (args : List Arg) (checked : Checked)
    → IsServed w.under
    → Settled checked (upgrade w s args checked)
unfolding upgrade
upgrade-Settled w s args (refused status e) served =
    refused-Settled (refused status e) status (check e) untouched (cc) refl
upgrade-Settled w s args (accepted key subprotocol compress) served =
    elim (Bool-cases w.is_hijacker) [
      | inr none_given ↦
          rw none_given (
            refused-Settled (accepted key subprotocol compress) 500 not_hijacker untouched (cc)
              refl)
      | inl given ↦ elim (Option-cases w.hijack_error) [
        | inl ok ↦
            rw (given, ok) (take_over-Settled w s args key subprotocol compress w.under served)
        | inr (n, bad) ↦
            rw (given, bad)
              (refused-Settled (accepted key subprotocol compress) 500 (failed n) untouched (cc)
                refl)
      ]
    ]
