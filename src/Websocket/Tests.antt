-- ===== src/Websocket/Tests.antt =====
-- Frames and masks on concrete bytes.
use nbio.Base.{
  ℕ, ◌+◌, List, Option, some, none, false, true, [], ◌∷◌, ◌++◌, ◌≡◌, refl, Bytes, IsBytes, codes,
  length, arith,
}
use nbio.Websocket.Mask.{put_le, mask_xor, mask_by_block, mask_by_word, mask_tail}
use nbio.Websocket.Bytewise.{xor_from, mask_xor-xor_from}
use nbio.Websocket.Frame.{
  Rules, frame, need_more, next_frame, put_frame, put_size, put_first, put_be, read_size,
  judge_frame, is_message_too_large, cut_frame, valid_frame, text_message,
}
use nbio.Websocket.Conn.{
  Handlers, Conn, Finish, inflated, Writer, Written, wrote, write_message, write_frames, parse,
  loop,
}
use nbio.Websocket.Taking.{between}
use nbio.Websocket.Prefix.{next_frame-append}
use nbio.Websocket.RoundTrip.{next_frame-put_frame}

abbrev some_key : Bytes
some_key = 0x37 ∷ 0xfa ∷ 0x21 ∷ 0x3d ∷ []

abbrev hello : Bytes
hello = codes "Hello"

abbrev hello_masked : Bytes
hello_masked = 0x7f ∷ 0x9f ∷ 0x4d ∷ 0x51 ∷ 0x58 ∷ []

key-IsBytes : IsBytes some_key
key-IsBytes = ground arith

hello-IsBytes : IsBytes hello
hello-IsBytes = ground arith

-- The masked text of RFC 6455, section 5.7.
masked_hello : mask_xor hello some_key ≡ hello_masked
unfolding mask_xor mask_by_block mask_by_word mask_tail
masked_hello = refl

mask_xor-xor_from_example : mask_xor hello some_key ≡ xor_from 0 some_key hello
mask_xor-xor_from_example = mask_xor-xor_from hello some_key refl key-IsBytes hello-IsBytes

abbrev limited : Rules
limited = record { message_length_limit = 100; enable_compression = false }

-- The single-frame masked text message of RFC 6455, section 5.7, cut off and whole.
masked_frame_short :
    next_frame limited 0 false (0x81 ∷ 0x85 ∷ (some_key ++ codes "abcd")) ≡ need_more
unfolding next_frame read_size judge_frame is_message_too_large cut_frame
masked_frame_short = refl

masked_frame :
    next_frame limited 0 false (0x81 ∷ 0x85 ∷ (some_key ++ hello_masked))
    ≡ frame
        (record { total = 11; opcode = text_message; body = hello; fin = true; compress = false })
unfolding next_frame read_size mask_xor judge_frame is_message_too_large cut_frame valid_frame
    mask_by_block mask_by_word mask_tail
masked_frame = refl

next_frame-put_frame_example :
    next_frame limited 0 false (put_frame true 0x3d21fa37 1 true true hello false ++ hello)
    ≡ frame (record {
      total = length (put_frame true 0x3d21fa37 1 true true hello false);
      opcode = 1;
      body = hello;
      fin = true;
      compress = false;
    })
unfolding is_message_too_large valid_frame
next_frame-put_frame_example =
    next_frame-put_frame limited 0 false true 0x3d21fa37 1 true true false hello hello
      (ground arith) hello-IsBytes (omega arith) refl (λ e. absurd (ground arith)) refl

-- Handlers that list the messages they are given.
abbrev collecting : Handlers (List (ℕ × Bytes))
collecting = record {
  has_message_handler = true;
  has_data_frame_handler = false;
  handle_message = λ kind d s. s ++ (kind, d) ∷ [];
  handle_data_frame = λ kind fin d s. s;
  handle_protocol_message = λ kind d s. s;
  decompress = λ d s. inflated d;
  write_close = λ code s. s;
  is_closed = λ s. false;
}

-- A client whose frames hold two bytes.
abbrev client : Writer
client = record { is_client = true; max_frame = 2; key_at = λ left. 0x3d21fa37 + left }

abbrev waiting : List (ℕ × Bytes) → Conn (List (ℕ × Bytes))
waiting s = between limited 0 true 1 [] [] s

abbrev world_of : Finish (List (ℕ × Bytes)) → Option (List (ℕ × Bytes))
world_of (Finish.ok c) = some c.world
world_of _ = none

abbrev message_of : Written → Bytes
message_of (wrote (some d)) = d
message_of _ = []

three_frames : length (message_of (write_message client 1 false hello)) ≡ 23
unfolding write_message write_frames put_frame put_size put_first put_be put_le mask_xor
    mask_by_block mask_by_word mask_tail
three_frames = refl

-- An empty message is taken off the cache, and no handler is called.
empty_message :
    world_of (parse collecting (waiting []) (0x81 ∷ 0x00 ∷ 0x81 ∷ 0x01 ∷ codes "a"))
    ≡ some ((1, codes "a") ∷ [])
unfolding parse loop next_frame read_size judge_frame is_message_too_large cut_frame valid_frame
empty_message = refl

next_frame-append_example :
    next_frame limited 0 false ((0x81 ∷ 0x85 ∷ (some_key ++ hello_masked)) ++ hello)
    ≡ frame
        (record { total = 11; opcode = text_message; body = hello; fin = true; compress = false })
next_frame-append_example =
    next_frame-append limited 0 false (0x81 ∷ 0x85 ∷ (some_key ++ hello_masked)) hello masked_frame
