-- ===== src/Websocket/Frame.antt =====
-- nbhttp/websocket/conn.go: the frames. nextFrame takes one off the cache, validFrame and
-- isMessageTooLarge judge it, and writeFrame lays one out. Numbers that the code keeps in an int64
-- are below 2 ^ 64 before they wrap.
use nbio.Base.{
  ℕ, zero, suc, ◌+◌, ◌-◌, ◌*◌, ◌/◌, ◌%◌, ◌^◌, Bool, not, ◌&&◌, ◌||◌, [], ◌∷◌, ◌++◌, Option, none,
  some, Bytes, length, take, drop, leb, ltb, ◌==◌, if◌then◌else◌, bit_or,
}
use nbio.Websocket.Mask.{put_le, mask_xor}

abbrev pub fragment_message : ℕ
fragment_message = 0

abbrev pub text_message : ℕ
text_message = 1

abbrev pub binary_message : ℕ
binary_message = 2

abbrev pub close_message : ℕ
close_message = 8

abbrev pub ping_message : ℕ
ping_message = 9

abbrev pub pong_message : ℕ
pong_message = 10

abbrev pub max_control_frame_payload_size : ℕ
max_control_frame_payload_size = 125

pub data Error : Type 0 where
  net_closed too_long invalid_fragment_message message_too_large control_message_too_big : Error
  reserve_bit_set reserved_message_type control_message_fragmented : Error
  fragments_should_not_have_binary_or_text_message parse_error invalid_frame_size : Error

-- The fields of Conn that a frame is judged by. A limit of 0 means no limit.
pub record Rules : Type 0 where
  pub message_length_limit : ℕ
  pub enable_compression : Bool

-- `x & (1 << k) != 0`, and `x & 0xF`, `x & 0x7F`.
abbrev pub has_bit : ℕ → ℕ → Bool
has_bit x k = x / 2 ^ k % 2 == 1

abbrev pub low_bits : ℕ → ℕ → ℕ
low_bits x k = x % 2 ^ k

unfoldable pub is_message_too_large : Rules → ℕ → Bool
is_message_too_large r n = ltb 0 r.message_length_limit && ltb r.message_length_limit n

abbrev pub is_control : ℕ → Bool
is_control op = op == ping_message || op == pong_message || op == close_message

unfoldable pub valid_frame : Rules → ℕ → Bool → Bool → Bool → Bool → Bool → Option Error
valid_frame r op fin res1 res2 res3 expecting =
    if res1 && not r.enable_compression
    then some reserve_bit_set
    else if res2 || res3
    then some reserve_bit_set
    else if ltb binary_message op && ltb op close_message
    then some reserved_message_type
    else if not fin && not (op == fragment_message || op == text_message || op == binary_message)
    then some control_message_fragmented
    else if expecting && (op == text_message || op == binary_message)
    then some fragments_should_not_have_binary_or_text_message
    else none

-- A big-endian word, and its `n` lowest bytes written out.
unfoldable pub be_from : ℕ → Bytes → ℕ
be_from v [] = v
be_from v (b ∷ bs) = be_from (v * 256 + b) bs

abbrev pub be_word : Bytes → ℕ
be_word = be_from 0

unfoldable pub put_be : ℕ → ℕ → Bytes
put_be zero v = []
put_be (suc n) v = put_be n (v / 256) ++ (v % 256) ∷ []

-- The length field: not all there, beyond an int64, or the head's and the body's length.
pub data Size : Type 0 where
  incomplete negative : Size
  size : ℕ → ℕ → Size

unfoldable pub read_size : ℕ → Bytes → Size
unfolding be_from
read_size payload_len cached =
    let n = be_word (take 8 (drop 2 cached)) in
    if payload_len == 126
    then (if leb 4 (length cached) then size 4 (be_word (take 2 (drop 2 cached))) else incomplete)
    else if payload_len == 127
    then (if leb 10 (length cached)
        then (if leb (2 ^ 63) n then negative else size 10 n)
        else incomplete)
    else size 2 payload_len

pub record Frame : Type 0 where
  pub total : ℕ
  pub opcode : ℕ
  pub body : Bytes
  pub fin : Bool
  pub compress : Bool

-- `need_more` is `ok == false`; `panics` is a slice out of range, which Parse recovers from.
pub data NextFrame : Type 0 where
  refuse : Error → NextFrame
  need_more panics : NextFrame
  frame : Frame → NextFrame

abbrev refuse_or : Option Error → Frame → NextFrame
refuse_or none f = frame f
refuse_or (some e) f = refuse e

-- `masked` adds the key to the head; the body is unmasked in place. A total that wraps is negative.
unfoldable pub cut_frame : Rules → Bool → ℕ → ℕ → Bytes → ℕ → ℕ → NextFrame
cut_frame r expecting b0 b1 cached head body_len =
    let head_len = if has_bit b1 7 then head + 4 else head in
    let total = head_len + body_len in
    let raw = take body_len (drop head_len cached) in
    let op = low_bits b0 4 in
    if leb (2 ^ 63) total
    then panics
    else if leb total (length cached)
    then refuse_or
        (valid_frame r op (has_bit b0 7) (has_bit b0 6) (has_bit b0 5) (has_bit b0 4) expecting)
        (record {
          total = total;
          opcode = op;
          body = if has_bit b1 7 then mask_xor raw (take 4 (drop head cached)) else raw;
          fin = has_bit b0 7;
          compress = has_bit b0 6;
        })
    else need_more

-- Both limits are tested before the body is there. The sum that is held to the first limit wraps.
unfoldable pub judge_frame : Rules → ℕ → Bool → ℕ → ℕ → Bytes → Size → NextFrame
judge_frame r message_len expecting b0 b1 cached negative = refuse invalid_fragment_message
judge_frame r message_len expecting b0 b1 cached incomplete =
    if is_message_too_large r (message_len - 1) then refuse message_too_large else need_more
judge_frame r message_len expecting b0 b1 cached (size head body_len) =
    let sum = message_len + body_len in
    if not (leb (2 ^ 63) sum) && is_message_too_large r sum
    then refuse message_too_large
    else if ltb max_control_frame_payload_size body_len && is_control (low_bits b0 4)
    then refuse control_message_too_big
    else cut_frame r expecting b0 b1 cached head body_len

-- nextFrame, on c.bytesCached, len(*c.message) and c.expectingFragments.
unfoldable pub next_frame : Rules → ℕ → Bool → Bytes → NextFrame
next_frame r message_len expecting (b0 ∷ b1 ∷ rest) =
    judge_frame r message_len expecting b0 b1 (b0 ∷ b1 ∷ rest)
      (read_size (low_bits b1 7) (b0 ∷ b1 ∷ rest))
next_frame r message_len expecting _ = need_more

-- The second byte and the extended length, of a body of `n` bytes; `byte1` is the mask bit.
unfoldable pub put_size : ℕ → ℕ → Bytes
unfolding put_be
put_size byte1 n =
    if ltb n 126
    then bit_or byte1 (n % 256) ∷ []
    else if leb n 65535
    then bit_or byte1 126 ∷ put_be 2 n
    else bit_or byte1 127 ∷ put_be 8 n

-- The first byte: the opcode, RSV1 and FIN.
unfoldable pub put_first : ℕ → Bool → Bool → Bool → ℕ
put_first message_type send_opcode fin compress =
    let op = if send_opcode then message_type % 256 else 0 in
    let rsv = if compress then bit_or op 0x40 else op in if fin then bit_or rsv 0x80 else rsv

-- The buffer that writeFrame fills. `key` is what rand.Uint32 gave; a client masks with it.
unfoldable pub put_frame : Bool → ℕ → ℕ → Bool → Bool → Bytes → Bool → Bytes
put_frame is_client key message_type send_opcode fin body compress =
    let first = put_first message_type send_opcode fin compress in
    let mask = put_le 4 key in
    if is_client
    then first ∷ (put_size 128 (length body) ++ (mask ++ mask_xor body mask))
    else first ∷ (put_size 0 (length body) ++ body)
