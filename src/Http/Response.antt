-- ===== src/Http/Response.antt =====
-- nbhttp/response.go: the struct Response, WriteHeader, checkChunked, contentLength and formatInt. The connection is a parameter that
-- answers Write; `sent` is no field of the source, it records what the connection took. `buffer` and `body_buffer`
-- are `none` for nil.
pub mod Head
pub mod Write
pub mod Flush
pub mod Digits
pub mod Chunks
pub mod Chunked
pub mod Stale
pub mod Sized
pub mod Length
pub mod Delivered
pub mod Framing
mod Tests
use nbio.Base.{
  ℕ, zero, suc, ◌+◌, ◌/◌, ◌%◌, Bool, true, false, not, ◌&&◌, ◌||◌, Option, none, some, List, [],
  ◌∷◌, ◌++◌, Bytes, length, is_nil, is_neg, is_pos, get_or, ltb, leb, ◌==◌, if◌then◌else◌, ℤ, pos,
  equal, codes,
}
use nbio.Go.Header.{Header, values, get, set, delete}
use nbio.Go.Number.{parse_int}
use nbio.Http.Parser.Framing.{transfer_encoding_header, content_length_header, trailer_header}

-- What the response reads of its http.Request: Proto, ProtoAtLeast(1, 1), Close.
pub record Request : Type 0 where
  pub proto : Bytes
  pub at_least_1_1 : Bool
  pub close : Bool

-- time.Time as Weekday, Date and Clock give it.
pub record Time : Type 0 where
  pub weekday : ℕ
  pub year : ℕ
  pub month : ℕ
  pub day : ℕ
  pub hour : ℕ
  pub minute : ℕ
  pub second : ℕ

-- conn.Write takes all bytes, or returns how many it took and an error.
pub data Reply : Type 0 where
  accepted : Reply
  failed : (n e : ℕ) → Reply

-- conn.Write, http.StatusText, time.Now, and what a buffer that mempool.Malloc returns holds: it comes
-- from a pool, with its length set to the size and with the bytes that were left in it.
pub record Outside (C : Type 0) : Type 0 where
  pub write_conn : Bytes → C → C × Reply
  pub status_text : ℕ → Bytes
  pub now : C → Time
  pub stale_buffer : ℕ → C → Bytes

pub data WriteError : Type 0 where
  err_content_length bad_number : WriteError
  conn_error : ℕ → WriteError

pub record Response (C : Type 0) : Type 0 where
  pub net : C
  pub sent : Bytes
  pub has_conn : Bool
  pub request : Request
  pub status : Bytes
  pub status_code : ℕ
  pub header : Header
  pub trailer : List (Bytes × Bytes)
  pub trailer_size : ℕ
  pub buffer : Option Bytes
  pub body_buffer : Option Bytes
  pub content_len : ℤ
  pub body_written : ℕ
  pub chunked : Bool
  pub chunk_checked : Bool
  pub head_encoded : Bool
  pub has_body : Bool
  pub hijacked : Bool

abbrev pub max_packet_size : ℕ
max_packet_size = 65536

abbrev pub crlf : Bytes
crlf = b'\r' ∷ b'\n' ∷ []

abbrev pub held : Option Bytes → Bytes
held none = []
held (some b) = b

abbrev pub num_map : Bytes
num_map = codes "0123456789abcdef"

-- The loop of formatInt, on the digits that are there already.
unfoldable pub format_digits : ℕ → ℕ → ℕ → Bytes → Bytes
format_digits zero n base buf = buf
format_digits (suc i) n base buf =
    let buf' = get_or num_map (n % base) 0 ∷ buf in
    let rest = format_digits i (n / base) base buf' in if n / base == 0 then buf' else rest

-- formatInt, which has room for ten digits.
unfoldable pub format_int : ℕ → ℕ → Bytes
unfolding format_digits
format_int n base = if ltb 0x7FFFFFFF n then [] else format_digits 10 n base []

abbrev pub any_chunked : List Bytes → Bool
any_chunked [] = false
any_chunked (v ∷ vs) = equal v (codes "chunked") || any_chunked vs

abbrev pub all_values : Option (List Bytes) → List Bytes
all_values none = []
all_values (some vs) = vs

-- strconv.ParseInt gives a number that is not negative.
abbrev is_length : Option ℤ → Bool
is_length none = false
is_length (some v) = not (is_neg v)

module _ {C : Type 0} where
  abbrev set_status : ℕ → Bytes → Response C → Response C
  set_status code text res =
      if is_nil text then res else record res { status = text; status_code = code }

  abbrev drop_bad_length : Response C → Response C
  drop_bad_length res =
      let cl = get res.header content_length_header in
      if not (is_nil cl) && not (is_length (parse_int cl 10 64))
      then record res { header = delete res.header content_length_header }
      else res

  -- WriteHeader
  unfoldable pub write_header : Outside C → ℕ → Response C → Response C
  unfolding get parse_int delete
  write_header o code res =
      if not res.hijacked && res.status_code == 0 && not (res.status_code == code)
      then drop_bad_length (set_status code (o.status_text code) res)
      else res

  -- The second and the third question of checkChunked.
  abbrev pub should_chunk : Response C → Bool
  should_chunk res =
      (res.request.at_least_1_1
        && is_nil (get res.header content_length_header)
        && not (res.status_code == 204)
        && not (res.status_code == 304))
      || not (is_nil (all_values (values res.header trailer_header)))

  abbrev pub decide_chunked : Response C → Response C
  decide_chunked res =
      if any_chunked (all_values (values res.header transfer_encoding_header))
      then record res { chunked = true; header = delete res.header content_length_header }
      else if res.chunked || should_chunk res
      then record res {
        chunked = true;
        header =
            delete (set res.header transfer_encoding_header (codes "chunked"))
              content_length_header;
      }
      else res

  -- checkChunked
  unfoldable pub check_chunked : Response C → Response C
  unfolding equal get values set delete
  check_chunked res =
      if res.chunk_checked then res else decide_chunked (record res { chunk_checked = true })

  abbrev note_length : Response C → Option ℤ → Response C × Option ℤ
  note_length res none = (res, none)
  note_length res (some v) = (record res { content_len = v }, some v)

  -- contentLength, `none` for an error.
  unfoldable pub content_length : Response C → Response C × Option ℤ
  unfolding get parse_int
  content_length res =
      if is_pos res.content_len
      then (res, some res.content_len)
      else if is_nil (get res.header content_length_header)
      then (res, some (pos 0))
      else note_length res (parse_int (get res.header content_length_header) 10 64)

  abbrev pub taken : Bytes → Response C → C × Reply → Response C × Reply
  taken b res (c, accepted) = (record res { net = c; sent = res.sent ++ b }, accepted)
  taken b res (c, failed n e) = (record res { net = c }, failed n e)

  -- conn.Write; `sent` has what successful calls were given.
  unfoldable pub send : Outside C → Response C → Bytes → Response C × Reply
  send o res b = taken b res (o.write_conn b res.net)
