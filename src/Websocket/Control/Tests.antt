-- ===== src/Websocket/Control/Tests.antt =====
-- nbhttp/websocket/conn.go: close messages.
use nbio.Base.{◌≡◌, refl, Bool, true, none, some, [], ◌∷◌, ◌++◌, Bytes, arith, codes}
use nbio.Websocket.Control.{
  Session, write_message_call, close_call, close_error, handle_ws_message, default_close_handler,
  close_payload,
}
use nbio.Websocket.Control.Closing.{answer_to, handle_ws_message-answer_to}

abbrev any_text : Bytes → Bool
any_text b = true

abbrev open_session : Session
open_session = record { close_err = none; actions = [] }

going_away :
    handle_ws_message any_text default_close_handler 8
      (some (close_payload 1001 (codes "bye")))
      open_session
    ≡ record {
      close_err = some (close_error 1001 (codes "bye"));
      actions = write_message_call 8 (3 ∷ 233 ∷ codes "bye") ∷ close_call ∷ [];
    }
unfolding handle_ws_message
going_away = refl

handle_ws_message-answer_to_example :
    (handle_ws_message any_text default_close_handler 8 (some (3 ∷ 236 ∷ [])) open_session).actions
    ≡ [] ++ write_message_call 8 (answer_to any_text (3 ∷ 236 ∷ [])) ∷ close_call ∷ []
handle_ws_message-answer_to_example =
    handle_ws_message-answer_to any_text (3 ∷ 236 ∷ []) open_session
      (omega arith, (omega arith, tt))
