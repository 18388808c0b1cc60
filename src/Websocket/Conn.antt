-- ===== src/Websocket/Conn.antt =====
-- nbhttp/websocket/conn.go: Parse, which takes frames off the cache and joins fragments to messages,
-- and WriteMessage, which cuts a message into frames.

use nbio.Base.{
  ℕ, zero, suc, ◌+◌, min, Bool, true, false, not, ◌&&◌, ◌||◌, [], ◌∷◌, ◌++◌, Option, none, some,
  Bytes, length, take, drop, is_nil, ltb, ◌==◌, if◌then◌else◌,
}
use nbio.Websocket.Frame.{
  Rules, Error, Frame, NextFrame, refuse, need_more, panics, frame, next_frame, put_frame, too_long,
  net_closed, message_too_large, control_message_too_big, invalid_fragment_message, parse_error,
  invalid_frame_size, fragment_message, text_message, binary_message, is_control,
  max_control_frame_payload_size,
}

-- What readAll gives of the decompressor's reader.
pub data Inflated : Type 0 where
  inflated : Bytes → Inflated
  inflate_failed : Error → Inflated

-- What Parse calls: c.handleMessage, c.handleDataFrame and c.handleProtocolMessage, which hand over
-- to Execute or SyncCall; readAll over the decompressor; WriteClose; and c.closed. `S` is the state
-- behind them. The two Booleans say which handlers are set.
pub record Handlers (S : Type 0) : Type 0 where
  pub has_message_handler : Bool
  pub has_data_frame_handler : Bool
  pub handle_message : ℕ → Bytes → S → S
  pub handle_data_frame : ℕ → Bool → Bytes → S → S
  pub handle_protocol_message : ℕ → Bytes → S → S
  pub decompress : Bytes → S → Inflated
  pub write_close : ℕ → S → S
  pub is_closed : S → Bool

-- The fields of Conn that Parse works on; [] stands for a nil bytesCached or message, since
-- neither is ever an empty buffer.
pub record Conn (S : Type 0) : Type 0 where
  pub rules : Rules
  pub read_limit : ℕ
  pub msg_type : ℕ
  pub compress : Bool
  pub expecting_fragments : Bool
  pub message : Bytes
  pub bytes_cached : Bytes
  pub world : S

-- What the locked part of a round leaves: an error; a panic; or the local variables message, frame
-- and protocolMessage, each if it is not nil.
pub data Taken (S : Type 0) : Type 0 where
  failed : Conn S → Error → Taken S
  panicked : Conn S → Taken S
  taken : Conn S → Option Bytes → Option Bytes → Option Bytes → Taken S

pub data Finish (S : Type 0) : Type 0 where
  ok : Conn S → Finish S
  err : Conn S → Error → Finish S
  out_of_fuel : Finish S

module _ {S : Type 0} (h : Handlers S) where
  abbrev pub held : Bytes → Option Bytes
  held d = if is_nil d then none else some d

  abbrev pub message_done : Conn S → Conn S
  message_done c = record c { msg_type = 0; compress = false; expecting_fragments = false }

  abbrev pub inflate : Conn S → Option Bytes → Inflated → Taken S
  inflate c fr (inflate_failed e) = failed c e
  inflate c fr (inflated d) = taken (message_done c) (some d) fr none

  -- `if fin`, with `m` for *c.message. A compressed message that is nil is dereferenced.
  abbrev pub end_message : Conn S → Bytes → Option Bytes → Taken S
  end_message c m fr =
      if c.compress
      then (if is_nil m then panicked c else inflate c fr (h.decompress m c.world))
      else taken (message_done c) (held m) fr none

  abbrev pub take_message : Conn S → Frame → Option Bytes → Taken S
  take_message c f fr =
      if not h.has_message_handler
      then taken c none fr none
      else if f.fin
      then end_message (record c { message = [] }) (c.message ++ f.body) fr
      else taken (record c { message = c.message ++ f.body; expecting_fragments = true }) none fr
          none

  -- `switch opcode`
  abbrev pub take_body : Conn S → Frame → Taken S
  take_body c f =
      let first = c.msg_type == 0 in
      let q = record c {
        msg_type = if first then f.opcode else c.msg_type;
        compress = if first then f.compress else c.compress;
      } in
      if f.opcode == fragment_message || f.opcode == text_message || f.opcode == binary_message
      then take_message q f (if h.has_data_frame_handler then held f.body else none)
      else if is_control f.opcode
      then taken c none none (some f.body)
      else failed c invalid_fragment_message

  -- The frame is taken off the cache.
  abbrev pub consume : Frame → Taken S → Taken S
  consume f (taken c m fr pr) =
      if f.total == 0 || ltb (length c.bytes_cached) f.total
      then failed (record c { bytes_cached = [] }) invalid_frame_size
      else taken (record c { bytes_cached = drop f.total c.bytes_cached }) m fr pr
  consume f t = t

  abbrev pub call : Option Bytes → (Bytes → S → S) → S → S
  call none g s = s
  call (some d) g s = g d s

  abbrev pub is_too_large : Error → Bool
  is_too_large message_too_large = true
  is_too_large control_message_too_big = true
  is_too_large _ = false

  abbrev pub fail : Conn S → Error → Finish S
  fail c e = err (if is_too_large e then record c { world = h.write_close 1009 c.world } else c) e

  -- The handlers, behind the lock: `kind` is msgType as it was when the frame was taken.
  abbrev pub dispatch : (Conn S → Finish S) → Frame → ℕ → Taken S → Finish S
  dispatch again f kind (failed c e) = fail c e
  dispatch again f kind (panicked c) = err (record c { bytes_cached = [] }) parse_error
  dispatch again f kind (taken c m fr pr) = again (record c {
    world =
        call pr (h.handle_protocol_message f.opcode)
          (call fr (h.handle_data_frame kind f.fin) (call m (h.handle_message kind) c.world));
  })

  abbrev pub round : (Conn S → Finish S) → Conn S → NextFrame → Finish S
  round again c (refuse e) = fail c e
  round again c panics = err (record c { bytes_cached = [] }) parse_error
  round again c need_more = ok c
  round again c (frame f) =
      dispatch again f (if c.msg_type == 0 then f.opcode else c.msg_type)
        (consume f (take_body c f))

  -- `for !c.closed`. A frame is at least two bytes, so that as many rounds as bytes, and one, are
  -- enough.
  unfoldable pub loop : ℕ → Conn S → Finish S
  loop zero c = out_of_fuel
  loop (suc fuel) c = elim (h.is_closed c.world) [
    | true ↦ ok c
    | false ↦
        round (loop fuel) c
          (next_frame c.rules (length c.message) c.expecting_fragments c.bytes_cached)
  ]

  unfoldable pub parse : Conn S → Bytes → Finish S
  unfolding loop
  parse c more =
      let q = record c { bytes_cached = c.bytes_cached ++ more } in
      if is_nil more
      then ok c
      else if h.is_closed c.world
      then err c net_closed
      else if ltb 0 c.read_limit
          && not (is_nil c.bytes_cached)
          && ltb c.read_limit (length c.bytes_cached + length more)
      then err c too_long
      else loop (suc (length q.bytes_cached)) q

-- What a writer works with: isClient, the engine's MaxWebsocketFramePayloadSize, and what
-- rand.Uint32 gives for the frame that starts where so many bytes are left.
pub record Writer : Type 0 where
  pub is_client : Bool
  pub max_frame : ℕ
  pub key_at : ℕ → ℕ

abbrev pub put_before : Bytes → Option Bytes → Option Bytes
put_before f none = none
put_before f (some rest) = some (f ++ rest)

-- `for len(data) > 0`: the bytes that are written. none is a loop that does not end.
unfoldable pub write_frames : ℕ → Writer → ℕ → Bool → Bool → Bytes → Option Bytes
write_frames fuel w mt send compress [] = some []
write_frames zero w mt send compress (b ∷ bs) = none
write_frames (suc fuel) w mt send compress (b ∷ bs) =
    let payload = b ∷ bs in
    let n = min (length payload) w.max_frame in
    let piece = take n payload in
    let fin = n == length payload in
    put_before (put_frame w.is_client (w.key_at (length payload)) mt send fin piece compress)
      (write_frames fuel w mt false false (drop n payload))

pub data Written : Type 0 where
  wrote : Option Bytes → Written
  write_refused : Error → Written

-- WriteMessage on a connection that writes without error, on the data that the compressor gave if
-- there is one. Each frame of at least a byte, as many rounds as bytes are enough.
unfoldable pub write_message : Writer → ℕ → Bool → Bytes → Written
unfolding write_frames
write_message w mt compress payload =
    if is_control mt && ltb max_control_frame_payload_size (length payload)
    then write_refused control_message_too_big
    else if is_nil payload
    then wrote (some (put_frame w.is_client (w.key_at 0) mt true true [] compress))
    else wrote (write_frames (length payload) w mt true compress payload)
