-- ===== src/Http/ClientConn/Tests.antt =====
-- Runs of the client's connection, and the theorems at concrete inputs.
use nbio.Base.{ℕ, ◌≡◌, refl, false, List, [], ◌∷◌, none, some, pos, inr, codes}
use nbio.Http.ClientConn.{
  ClientConn, respond, after_response, close_with_error_without_lock, fail_all, close_socket,
  on_response, other, nbio_conn, at, handled, dialing, dialed, dialed_deadline, dialer_added,
  wrote_request, client_timeout, dialer_deleted, closed_conn, close_with_error, other,
}
use nbio.Http.ClientConn.Request.{
  send_on, connect, dial_by, adopt, adopt_plain, send_request, reuse, do_request, World, no_proxy,
  Request, http, addr_of,
}
use nbio.Go.Text.{split}
use nbio.Http.ClientConn.Account.{called, Owes}
use nbio.Http.ClientConn.Ordered.{
  Operation, requesting, responding, run, requested, run-Owes, called-close_with_error,
}

abbrev fresh_conn : ClientConn
fresh_conn = record {
  conn = none;
  handlers = [];
  closed = false;
  has_on_close = false;
  timeout = pos 100;
  idle_conn_timeout = pos 0;
  write_timeout = pos 0;
  events = [];
}

abbrev calm : World
calm = record {
  now = 5;
  until = 6;
  proxy = no_proxy;
  dial = λ addr. inr 7;
  nb_conn = none;
  handshake = none;
  insecure_skip_verify = false;
  verify_hostname = none;
  conn_key = none;
  add_conn = none;
  write_request = none;
}

abbrev ask : ℕ → Request
ask n = record { ident = n; scheme = http; host = codes "a.b" }

-- Two requests, a response in time, a response that comes too late for the next, and a third request.
abbrev session : List Operation
session =
    requesting calm (ask 1) 11
    ∷ requesting calm (ask 2) 12
    ∷ responding 20 (some 21) none
    ∷ requesting calm (ask 3) 13
    ∷ responding 300 (some 22) none
    ∷ requesting calm (ask 4) 14
    ∷ []

addr_of_default : addr_of (ask 1) ≡ codes "a.b:80"
unfolding addr_of split
addr_of_default = refl

-- An address of IPv6 is cut at its first colon.
addr_of_ipv6 : addr_of (record { ident = 1; scheme = http; host = codes "[::1]:8080" }) ≡ codes "[:"
unfolding addr_of split
addr_of_ipv6 = refl

session_events :
    (run session fresh_conn).events
    ≡ dialing (dialed (codes "a.b:80"))
      ∷ dialing (dialed_deadline 7 (at 5 (pos 100)))
      ∷ dialer_added 7
      ∷ wrote_request 1 (nbio_conn 7)
      ∷ wrote_request 2 (nbio_conn 7)
      ∷ handled 11 (some 21) (some (nbio_conn 7)) none
      ∷ wrote_request 3 (nbio_conn 7)
      ∷ handled 12 (some 22) (some (nbio_conn 7)) none
      ∷ handled 13 none (some (nbio_conn 7)) (some client_timeout)
      ∷ dialer_deleted 7
      ∷ closed_conn (nbio_conn 7)
      ∷ dialing (dialed (codes "a.b:80"))
      ∷ dialing (dialed_deadline 7 (at 5 (pos 100)))
      ∷ dialer_added 7
      ∷ wrote_request 4 (nbio_conn 7)
      ∷ []
unfolding run addr_of do_request on_response send_on connect dial_by adopt adopt_plain send_request
    reuse respond after_response close_with_error_without_lock split fail_all close_socket
session_events = refl

run-Owes_example : Owes (11 ∷ 12 ∷ 13 ∷ 14 ∷ []) (run session fresh_conn)
unfolding requested
run-Owes_example = run-Owes session fresh_conn (refl, refl, refl)

called-close_with_error_example :
    called (close_with_error (some (other 3)) (run session fresh_conn)).events
    ≡ 11 ∷ 12 ∷ 13 ∷ 14 ∷ []
unfolding requested
called-close_with_error_example =
    called-close_with_error session (some (other 3)) fresh_conn (refl, refl, refl)
