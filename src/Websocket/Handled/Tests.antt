-- ===== src/Websocket/Handled/Tests.antt =====
-- Messages of WriteMessage, through Parse and handleWsMessage.
use nbio.Base.{
  ◌+◌, none, inl, false, [], ◌∷◌, Bytes, IsBytes, codes, arith, Bool, ◌&&◌, true, refl, ltb,
}
use nbio.Websocket.Frame.{Rules, is_message_too_large}
use nbio.Websocket.Conn.{Handlers, inflated, Writer, write_message}
use nbio.Websocket.Control.{Session, default_close_handler}
use nbio.Websocket.Handled.{Delivered, handle_ws_message-write_message}

-- Of the UTF-8 texts only those of single bytes.
abbrev all_ascii : Bytes → Bool
all_ascii [] = true
all_ascii (b ∷ bs) = ltb b 128 && all_ascii bs

abbrev open_session : Session
open_session = record { close_err = none; actions = [] }

abbrev recording : Handlers Session
recording = record {
  has_message_handler = true;
  has_data_frame_handler = false;
  handle_message = λ kind d s. s;
  handle_data_frame = λ kind fin d s. s;
  handle_protocol_message = λ kind d s. s;
  decompress = λ d s. inflated d;
  write_close = λ code s. s;
  is_closed = λ s. false;
}

abbrev up_to_100 : Rules
up_to_100 = record { message_length_limit = 100; enable_compression = false }

-- A client whose frames hold two bytes.
abbrev small_frames : Writer
small_frames = record { is_client = true; max_frame = 2; key_at = λ left. 0x3d21fa37 + left }

abbrev greeting : Bytes
greeting = codes "Hello"

greeting-IsBytes : IsBytes greeting
greeting-IsBytes = ground arith

handle_ws_message-write_message_example :
    Delivered all_ascii default_close_handler recording up_to_100 0 1
      (inl refl)
      small_frames
      greeting
      open_session
      (write_message small_frames 1 false greeting)
unfolding is_message_too_large
handle_ws_message-write_message_example =
    handle_ws_message-write_message all_ascii default_close_handler recording up_to_100 0 1
      (inl refl) small_frames greeting open_session (omega arith) (omega arith) greeting-IsBytes
      (ground arith) refl refl
