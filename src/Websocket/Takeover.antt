-- ===== src/Websocket/Takeover.antt =====
-- nbhttp/websocket/upgrader.go: Upgrade, from the check of the request to the websocket connection
-- that it returns: which of the scenarios takes the hijacked connection over, and what each step does
-- to it when a later one fails. The types of the connections, and whether the calls of the package
-- net, of the engine and of the poller fail, are the parameter World; `closed` is whether Upgrade itself
-- closes the connection.
pub mod Settled
mod Tests
use nbio.Base.{
  ℕ, Bool, true, false, not, ◌&&◌, ◌||◌, List, [], ◌∷◌, Option, none, some, Bytes, if◌then◌else◌,
}
use nbio.Websocket.Upgrade.{UpgradeError, Checked, accepted, refused}

-- What Session of a connection of the poller holds.
pub data Session : Type 0 where
  empty parser websocket other : Session

-- The hijacked connection, without the *nbhttp.Conn around it: a *nbio.Conn; a *tls.Conn over one; a
-- *tls.Conn over anything else; a *net.TCPConn; and any other.
pub data Under : Type 0 where
  polled tls_polled : Session → Under
  tls_std tcp unknown : Under

-- An argument of type interface{}.
pub data Arg : Type 0 where
  bool : Bool → Arg
  no_bool : Arg

pub data Error : Type 0 where
  check : UpgradeError → Error
  not_hijacker : Error
  failed : ℕ → Error

-- `by_parser` is whether Hijack gives a *nbhttp.Conn, `conn_parser` whether that has a Parser;
-- `response_parser` is none where the ResponseWriter is no *nbhttp.Response, and else whether that has
-- a Parser. The errors are those of Hijack, nbio.NBConn, AddTransferredConn and the Write of the response.
pub record World : Type 0 where
  pub is_hijacker : Bool
  pub by_parser : Bool
  pub conn_parser : Bool
  pub response_parser : Option Bool
  pub under : Under
  pub hijack_error : Option ℕ
  pub nb_conn_error : Option ℕ
  pub add_error : Option ℕ
  pub write_error : Option ℕ

-- The fields of Upgrader, of its engine and of the parser's that the scenarios read. `one_shot` is the
-- test for EPOLLET with EPOLLONESHOT; KeepaliveTime is 0 where it is not positive.
pub record Settings : Type 0 where
  pub transfer_conn_to_poller : Bool
  pub async_write : Bool
  pub handle_read : Bool
  pub release_payload : Bool
  pub engine_releases : Bool
  pub parser_engine_releases : Bool
  pub keepalive_time : ℕ
  pub has_open_handler : Bool
  pub one_shot : Bool

-- The connection that a websocket writes to: the hijacked one, the *tls.Conn inside it, or the new
-- *nbio.Conn.
pub data Carrier : Type 0 where
  hijacked inner_tls nb_conn : Carrier

pub data Execute : Type 0 where
  unset of_parser of_nb_conn sync : Execute

pub record Conn : Type 0 where
  pub carrier : Carrier
  pub subprotocol : Bytes
  pub remote_compression_enabled : Bool
  pub engine_of_parser : Bool
  pub execute : Execute
  pub is_blocking_mod : Bool
  pub async_write : Bool
  pub is_reading_by_parser : Bool
  pub read_loop : Bool
  pub release_payload : Bool

-- What Upgrade does besides: the status that returnError writes, the session of the poller's
-- connection, whether nbhttpConn.Parser is set to nil and Trasfered to true, whether the parser is
-- closed with the websocket, whether the connection was added to the poller, and whether it is closed;
-- the read deadline that is set, from now on, or `some 0` for none; and whether openHandler is called.
pub record Effects : Type 0 where
  pub http_error : Option ℕ
  pub session : Session
  pub parser_cleared : Bool
  pub transferred : Bool
  pub parser_closer : Bool
  pub added : Bool
  pub closed : Bool
  pub read_deadline : Option ℕ
  pub opened : Bool

pub record Upgraded : Type 0 where
  pub conn : Option Conn
  pub error : Option Error
  pub effects : Effects

abbrev pub untouched : Effects
untouched = record {
  http_error = none;
  session = empty;
  parser_cleared = false;
  transferred = false;
  parser_closer = false;
  added = false;
  closed = false;
  read_deadline = none;
  opened = false;
}

-- returnError(w, r, status, err), and `return nil, err`: err may be nil.
abbrev pub return_error : ℕ → Option Error → Effects → Upgraded
return_error status err e = record {
  conn = none;
  error = err;
  effects = record e { http_error = some status };
}

-- `b, ok := args[i].(bool); return ok && b` where there is such an argument.
abbrev pub flag_of : List Arg → Bool → Bool
flag_of [] d = d
flag_of (bool b ∷ _) d = b
flag_of (no_bool ∷ _) d = false

abbrev pub behind : List Arg → List Arg
behind [] = []
behind (_ ∷ args) = args

-- NewServerConn
abbrev pub new_server_conn : (subprotocol : Bytes) (compress : Bool) → Carrier → Bool → Conn
new_server_conn subprotocol compress carrier async = record {
  carrier = carrier;
  subprotocol = subprotocol;
  remote_compression_enabled = compress;
  engine_of_parser = false;
  execute = unset;
  is_blocking_mod = false;
  async_write = async;
  is_reading_by_parser = false;
  read_loop = false;
  release_payload = false;
}

-- clearNBCWSSession
abbrev pub cleared : Session → Session
cleared websocket = empty
cleared session = session

abbrev pub clear_session : Effects → Effects
clear_session e = record e { session = cleared e.session }

abbrev pub finished : World → Settings → List Arg → Conn → Conn
finished w s args c = record c {
  is_reading_by_parser = w.by_parser;
  read_loop = c.is_blocking_mod && (not w.by_parser && flag_of (behind args) s.handle_read);
  release_payload =
      s.release_payload
      || (if c.engine_of_parser then s.parser_engine_releases else s.engine_releases);
}

abbrev pub announced : Settings → Effects → Effects
announced s e = record e { read_deadline = some s.keepalive_time; opened = s.has_open_handler }

-- What is left of Upgrade once a scenario has made the websocket.
unfoldable pub finish : World → Settings → List Arg → Conn → Effects → Upgraded
finish w s args c e = elim w.write_error [
  | some n ↦ record {
    conn = none;
    error = some (failed n);
    effects = record (clear_session e) { closed = true };
  }
  | none ↦ record { conn = some (finished w s args c); error = none; effects = announced s e }
]

abbrev pub polled_conn : Bytes → Bool → Conn
polled_conn p c = record (new_server_conn p c hijacked false) {
  engine_of_parser = true;
  execute = of_parser;
}

-- Scenarios 1 and 2.2: the poller has the connection already.
unfoldable pub from_poller : World → Settings → List Arg → Bytes → Bool → Session → Upgraded
unfolding finish
from_poller w s args p c parser =
    finish w s args (polled_conn p c)
      (record untouched { session = websocket; parser_cleared = w.by_parser })
from_poller w s args p c session = return_error 500 none (record untouched { session = session })

abbrev pub moved : World → Effects
moved w = record untouched {
  session = websocket;
  parser_cleared = w.by_parser;
  transferred = w.by_parser;
}

abbrev pub transferred_conn : Bytes → Bool → Settings → Carrier → Conn
transferred_conn p c s carrier = record (new_server_conn p c carrier false) {
  execute = if s.one_shot then sync else of_nb_conn;
}

-- Scenarios 2.1.1 and 3.1: the connection is transferred to the poller.
unfoldable pub transfer : World → Settings → List Arg → Bytes → Bool → Carrier → Upgraded
unfolding finish
transfer w s args p c carrier = elim w.nb_conn_error [
  | some n ↦ return_error 500 (some (failed n)) untouched
  | none ↦ elim w.add_error [
    | some n ↦ return_error 500 (some (failed n)) (clear_session (moved w))
    | none ↦ finish w s args (transferred_conn p c s carrier) (record (moved w) { added = true })
  ]
]

-- What getParser leaves in `parser`.
abbrev pub has_parser : World → Bool
has_parser w = elim w.response_parser [ none ↦ w.by_parser && w.conn_parser | some b ↦ b ]

abbrev pub blocking_conn : Bytes → Bool → World → Settings → Conn
blocking_conn p c w s = record (new_server_conn p c hijacked s.async_write) {
  is_blocking_mod = true;
  execute = if has_parser w then of_parser else unset;
}

abbrev pub kept : World → Effects
kept w = record untouched {
  parser_closer = has_parser w;
  parser_cleared = has_parser w && w.by_parser;
}

-- Scenarios 2.1.2, 3.2 and 4: the connection stays blocking.
unfoldable pub stay : World → Settings → List Arg → Bytes → Bool → Upgraded
unfolding finish
stay w s args p c = finish w s args (blocking_conn p c w s) (kept w)

-- The switch on the type of the connection.
unfoldable pub take_over : World → Settings → List Arg → Bytes → Bool → Under → Upgraded
unfolding from_poller transfer stay
take_over w s args p c (polled session) = from_poller w s args p c session
take_over w s args p c (tls_polled session) = from_poller w s args p c session
take_over w s args p c tls_std =
    if flag_of args s.transfer_conn_to_poller
    then transfer w s args p c inner_tls
    else stay w s args p c
take_over w s args p c tcp =
    if flag_of args s.transfer_conn_to_poller
    then transfer w s args p c nb_conn
    else stay w s args p c
take_over w s args p c unknown = stay w s args p c

unfoldable pub after_hijack : World → Settings → List Arg → Bytes → Bool → Option ℕ → Upgraded
unfolding take_over
after_hijack w s args p c (some n) = return_error 500 (some (failed n)) untouched
after_hijack w s args p c none = take_over w s args p c w.under

-- Upgrade, of a request on which commCheck answers so.
unfoldable pub upgrade : World → Settings → List Arg → Checked → Upgraded
unfolding after_hijack
upgrade w s args (refused status e) = return_error status (some (check e)) untouched
upgrade w s args (accepted key subprotocol compress) =
    if w.is_hijacker
    then after_hijack w s args subprotocol compress w.hijack_error
    else return_error 500 (some not_hijacker) untouched
