-- ===== src/Websocket/Handled.antt =====
-- nbhttp/websocket/conn.go: Parse with handleWsMessage behind it, on the frames of WriteMessage.
mod Tests
use nbio.Base.{
  ℕ, ◌+◌, ◌^◌, ◌≤◌, ◌<◌, ◌≡◌, refl, ◌⊎◌, inl, inr, Bool, true, false, none, some, List, [], ◌∷◌,
  ◌++◌, Bytes, IsBytes, length, arith, Bool-cases,
}
use nbio.Websocket.Frame.{Rules, is_message_too_large}
use nbio.Websocket.Conn.{Handlers, ok, parse, Writer, write_message, Written, wrote, write_refused}
use nbio.Websocket.Taking.{IsData, messages_only}
use nbio.Websocket.Delivery.{idle, Received, parse-write_message}
use nbio.Websocket.Control.{
  Session, Action, message_handler, invalid_utf8, act, refuse, proto_error, err_invalid_utf8_text,
  handle_ws_message,
}

module _ (check_utf8 : Bytes → Bool) (close_handler : ℕ → Bytes → List Action) where
  -- handleMessage and handleProtocolMessage, where Execute or SyncCall runs what it is given at once.
  abbrev pub handled : Handlers Session → Handlers Session
  handled g = messages_only (record g {
    handle_message = λ kind d s. handle_ws_message check_utf8 close_handler kind (some d) s;
    handle_protocol_message =
        λ kind d s. handle_ws_message check_utf8 close_handler kind (some d) s;
  })

  -- The message handler is called with the message, and nothing else; or the message is a text that is
  -- not UTF-8, and is answered with a close message of code 1002, and the connection closed.
  abbrev pub Told : ℕ → Bytes → Session → Session → Type 0
  Told mt d s t =
      (((mt ≡ 2) ⊎ (check_utf8 d ≡ true)) × (t ≡ act (message_handler mt (some d) ∷ []) s))
      ⊎ ((mt ≡ 1)
          × (check_utf8 d ≡ false)
          × (t ≡ refuse invalid_utf8 (proto_error err_invalid_utf8_text) s))

  handle_ws_message-Told :
      (mt : ℕ) (d : Bytes) (s : Session)
      → IsData mt
      → Told mt d s (handle_ws_message check_utf8 close_handler mt (some d) s)
  unfolding handle_ws_message
  handle_ws_message-Told mt d s (inr binary) = inl (inl binary, rw binary refl)
  handle_ws_message-Told mt d s (inl text) = elim (Bool-cases (check_utf8 d)) [
    | inl valid ↦ inl (inr valid, rw (text, valid) refl)
    | inr invalid ↦ inr (text, invalid, rw (text, invalid) refl)
  ]

  module _ (g : Handlers Session) (r : Rules) (limit mt : ℕ) (kind : IsData mt) (w : Writer) where
    abbrev pub Delivered : Bytes → Session → Written → Type 0
    Delivered d s (wrote (some wire)) =
        (t : Session) × (parse (handled g) (idle (handled g) r limit mt kind w s) wire
          ≡ ok (idle (handled g) r limit mt kind w t))
        × Told mt d s t
    Delivered d s _ = ⊥

    -- A text or binary message of at least a byte that WriteMessage writes without compression, in as
    -- many frames as it takes, is read as one message, and the reader of frames is then as it was
    -- before. The message handler is called with it once, whole, and with nothing else; but for a text
    -- that is not UTF-8 it is not called, and a close message of code 1002 is written and the connection
    -- closed. The reader waits for a message, is open, handles messages and not frames, at once, and its
    -- limit does not refuse the message; a frame may hold a byte or more; the message is of bytes and
    -- its length does not overflow.
    pub handle_ws_message-write_message :
        (d : Bytes) (s : Session)
        → 1 ≤ w.max_frame
        → 0 < length d
        → IsBytes d
        → length d + 14 < 2 ^ 63
        → is_message_too_large r (length d) ≡ false
        → g.is_closed s ≡ false
        → Delivered d s (write_message w mt false d)
    handle_ws_message-write_message d s max full range bound fits here =
        told (write_message w mt false d)
          (parse-write_message (handled g) r limit mt kind w d s max full range bound fits here)
      where
        told : (x : Written) → Received (handled g) r limit mt kind w d s x → Delivered d s x
        told (wrote (some wire)) e = (
          handle_ws_message check_utf8 close_handler mt (some d) s,
          e,
          handle_ws_message-Told mt d s kind,
        )
        told (wrote none) k = absurd k
        told (write_refused e) k = absurd k
