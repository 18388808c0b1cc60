-- ===== src/Websocket/Control.antt =====
-- nbhttp/websocket/conn.go: handleWsMessage with validCloseCode and SetCloseError, and WriteClose; the close handler of upgrader.go. Calls
-- of the handlers, of WriteMessage and of Close are recorded in their order. The keepalive deadline is left out.
pub mod Closing
mod Tests
use nbio.Base.{
  ℕ, ◌+◌, ◌*◌, ◌/◌, ◌%◌, Bool, true, false, not, ◌&&◌, ◌||◌, Option, none, some, List, [], ◌∷◌,
  ◌++◌, Bytes, length, leb, ltb, ◌==◌, within, if◌then◌else◌, codes,
}

pub data CloseErr : Type 0 where
  invalid_utf8 invalid_close_code invalid_fragment : CloseErr
  invalid_type : ℕ → CloseErr
  close_error : (code : ℕ) → (reason : Bytes) → CloseErr

pub data Action : Type 0 where
  message_handler : ℕ → Option Bytes → Action
  ping_handler pong_handler : Bytes → Action
  write_message_call : ℕ → Bytes → Action
  close_call : Action

pub record Session : Type 0 where
  pub close_err : Option CloseErr
  pub actions : List Action

-- SetCloseError keeps the first one.
unfoldable pub set_close_error : CloseErr → Session → Session
set_close_error e s = elim s.close_err [ none ↦ record s { close_err = some e } | some f ↦ s ]

abbrev pub act : List Action → Session → Session
act as' s = record s { actions = s.actions ++ as' }

-- binary.BigEndian.PutUint16 of a uint16.
abbrev pub put_uint16 : ℕ → Bytes
put_uint16 n = (n / 256) % 256 ∷ n % 256 ∷ []

unfoldable pub valid_close_code : ℕ → Bool
valid_close_code code =
    if code == 1000 || code == 1001 || code == 1002 || code == 1003
    then true
    else if code == 1004 || code == 1005 || code == 1006
    then false
    else if code == 1007
        || code == 1008
        || code == 1009
        || code == 1010
        || code == 1011
        || code == 1015
    then true
    else leb 3000 code && ltb code 5000

abbrev pub err_invalid_utf8_text : Bytes
err_invalid_utf8_text = codes "invalid UTF-8 bytes"

abbrev pub proto_error : Bytes → Bytes
proto_error text = put_uint16 1002 ++ text

-- To ErrExit: the error, a close message, and Close.
abbrev pub refuse : CloseErr → Bytes → Session → Session
refuse e payload s = act (write_message_call 8 payload ∷ close_call ∷ []) (set_close_error e s)

abbrev pub data_of : Option Bytes → Bytes
data_of none = []
data_of (some b) = b

module _ (check_utf8 : Bytes → Bool) (close_handler : ℕ → Bytes → List Action) where
  -- The close handler is called, then Close.
  abbrev pub call_close : ℕ → Bytes → Session → Session
  call_close code reason s =
      act (close_handler code reason ++ close_call ∷ [])
        (if code == 1000 then s else set_close_error (close_error code reason) s)

  abbrev pub handle_close : Bytes → Session → Session
  handle_close [] s = call_close 1005 [] s
  handle_close (a ∷ []) s = call_close 1002 [] s
  handle_close (a ∷ b ∷ reason) s =
      if not (valid_close_code (a * 256 + b))
      then refuse invalid_close_code (proto_error []) s
      else if not (check_utf8 reason)
      then refuse invalid_utf8 (proto_error err_invalid_utf8_text) s
      else call_close (a * 256 + b) reason s

  abbrev pub handle_text : Option Bytes → Session → Session
  handle_text none s = act (message_handler 1 none ∷ []) s
  handle_text (some b) s =
      if not (check_utf8 b)
      then refuse invalid_utf8 (proto_error err_invalid_utf8_text) s
      else act (message_handler 1 (some b) ∷ []) s

  -- handleWsMessage
  unfoldable pub handle_ws_message : ℕ → Option Bytes → Session → Session
  unfolding set_close_error valid_close_code
  handle_ws_message opcode pdata s =
      if opcode == 2
      then act (message_handler 2 pdata ∷ []) s
      else if opcode == 1
      then handle_text pdata s
      else if opcode == 9
      then act (ping_handler (data_of pdata) ∷ []) s
      else if opcode == 10
      then act (pong_handler (data_of pdata) ∷ []) s
      else if opcode == 8
      then handle_close (data_of pdata) s
      else if opcode == 0
      then act (close_call ∷ []) (set_close_error invalid_fragment s)
      else act (close_call ∷ []) (set_close_error (invalid_type opcode) s)

-- u.closeMessageHandler as NewUpgrader sets it.
abbrev pub default_close_handler : ℕ → Bytes → List Action
default_close_handler code text =
    write_message_call 8 (if code == 1005 then [] else put_uint16 code ++ text) ∷ []

-- What WriteClose gives to WriteMessage.
abbrev pub close_payload : ℕ → Bytes → Bytes
close_payload code reason = put_uint16 code ++ reason
