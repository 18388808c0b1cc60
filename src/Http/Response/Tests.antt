-- ===== src/Http/Response/Tests.antt =====
-- nbhttp/response.go: runs of responses to a small connection.
use nbio.Base.{
  ℕ, zero, suc, ◌+◌, ◌≡◌, inr, refl, true, false, none, some, [], ◌∷◌, ◌++◌, Bytes, length, arith,
  codes, pos, ltb, if◌then◌else◌,
}
use nbio.Go.Header.{Header}
use nbio.Http.Parser.Framing.{ok, parse_and_validate_chunk_size}
use nbio.Http.Response.{
  Request, Time, Outside, Response, Reply, accepted, failed, crlf, format_int, err_content_length,
}
use nbio.Http.Response.Digits.{parse_and_validate_chunk_size-format_int}
use nbio.Http.Response.Write.{write, chunk_of}
use nbio.Http.Response.Flush.{finish}
use nbio.Http.Response.Chunks.{Chunking, emitted}
use nbio.Http.Response.Chunked.{respond, Responded, respond-Responded}
use nbio.Http.Response.Length.{Settled, write-Settled}
use nbio.Http.Response.Delivered.{Delivered, respond-Delivered}
use nbio.Http.Response.{check_chunked}
use nbio.Http.Response.Framing.{OneFraming, check_chunked-OneFraming}
use nbio.Http.Response.Stale.{write-stale_buffer}

abbrev monday : Time
monday = record { weekday = 1; year = 2026; month = 3; day = 9; hour = 7; minute = 5; second = 30 }

-- A buffer from the pool holds stale bytes.
abbrev stale : ℕ → ℕ → Bytes
stale n k = if ltb 0 n then b'?' ∷ [] else []

-- The connection takes so many packets, and then fails.
abbrev take_packet : Bytes → ℕ → ℕ × Reply
take_packet b zero = (0, failed 0 32)
take_packet b (suc n) = (n, accepted)

abbrev failing : Outside ℕ
failing = record {
  write_conn = take_packet;
  status_text = λ n. codes "OK";
  now = λ k. monday;
  stale_buffer = stale;
}

abbrev taking : Outside ℕ
taking = record {
  write_conn = λ b k. (k + 1, accepted);
  status_text = λ n. codes "OK";
  now = λ k. monday;
  stale_buffer = stale;
}

abbrev request : Request
request = record { proto = codes "HTTP/1.1"; at_least_1_1 = true; close = false }

abbrev fresh : Header → Response ℕ
fresh h = record {
  net = 1;
  sent = [];
  has_conn = true;
  request = request;
  status = [];
  status_code = 0;
  header = h;
  trailer = [];
  trailer_size = 0;
  buffer = none;
  body_buffer = none;
  content_len = pos 0;
  body_written = 0;
  chunked = false;
  chunk_checked = false;
  head_encoded = false;
  has_body = false;
  hijacked = false;
}

-- A handler that writes twice.
two_chunks :
    (respond taking (codes "ab" ∷ codes "c" ∷ []) (fresh [])).0.sent
    ≡ codes "HTTP/1.1 200 OK"
      ++ crlf
      ++ codes "Content-Type: text/plain; charset=utf-8"
      ++ crlf
      ++ codes "Date: Mon, 09 Mar 2026 07:05:30 GMT"
      ++ crlf
      ++ codes "Transfer-Encoding: chunked"
      ++ crlf
      ++ crlf
      ++ codes "2"
      ++ crlf
      ++ codes "ab"
      ++ crlf
      ++ codes "1"
      ++ crlf
      ++ codes "c"
      ++ crlf
      ++ codes "0"
      ++ crlf
      ++ crlf
unfolding finish write
two_chunks = refl

-- The connection fails at the second packet.
refused_packet :
    (respond failing (codes "ab" ∷ []) (fresh ((codes "Content-Length", codes "2" ∷ []) ∷ []))).1
    ≡ none
unfolding finish write
refused_packet = refl

-- Three bytes against a Content-Length of two.
too_long :
    (write taking (fresh ((codes "Content-Length", codes "2" ∷ []) ∷ [])) (codes "abc")).1
    ≡ (0, some err_content_length)
unfolding write
too_long = refl

-- A chunked response with its head cached.
abbrev chunking : Response ℕ
chunking = record (fresh []) {
  status_code = 200;
  buffer = some (codes "head");
  chunked = true;
  chunk_checked = true;
  head_encoded = true;
}

chunking-Chunking : Chunking chunking
chunking-Chunking = record {
  checked = refl;
  is_chunked = refl;
  encoded = refl;
  connected = refl;
  coded = refl;
}

-- A response of eight bytes, with its head cached.
abbrev plain : Response ℕ
plain = record (fresh []) {
  status_code = 200;
  buffer = some (codes "head");
  content_len = pos 8;
  chunk_checked = true;
  head_encoded = true;
}

parse_and_validate_chunk_size-format_int_example :
    parse_and_validate_chunk_size (format_int 48879 16) ≡ ok (pos 48879)
parse_and_validate_chunk_size-format_int_example =
    parse_and_validate_chunk_size-format_int 48879 (omega arith)

respond-Responded_example :
    Responded failing chunking
      (codes "ab" ∷ codes "c" ∷ [])
      (respond failing (codes "ab" ∷ codes "c" ∷ []) chunking)
respond-Responded_example =
    respond-Responded failing (codes "ab" ∷ codes "c" ∷ []) chunking chunking-Chunking refl
      (omega arith, omega arith, (omega arith, omega arith, tt))

write-Settled_example : Settled plain (codes "abc") (write taking plain (codes "abc"))
write-Settled_example =
    write-Settled taking plain (codes "abc") (refl, refl, refl, refl, refl, refl) (inr refl)
      (omega arith)

respond-Delivered_example :
    Delivered taking plain
      (codes "abc" ∷ codes "de" ∷ [])
      (respond taking (codes "abc" ∷ codes "de" ∷ []) plain)
respond-Delivered_example =
    respond-Delivered taking (codes "abc" ∷ codes "de" ∷ []) plain
      (refl, refl, refl, refl, refl, refl) (inr refl) (omega arith) (omega arith, (omega arith, tt))

repeated : ℕ → Bytes
repeated zero = []
repeated (suc n) = b'x' ∷ repeated n

length-repeated : (n : ℕ) → length (repeated n) ≡ n
unfolding repeated
length-repeated zero = refl
length-repeated (suc n) = omega (arith, length-repeated n)

write-stale_buffer_example :
    emitted (write taking (write taking chunking (repeated 65534)).0 (codes "c")).0
    ≡ emitted chunking
      ++ chunk_of (repeated 65534)
      ++ stale (length (format_int 1 16) + 1 + 4 + 0) (write taking chunking (repeated 65534)).0.net
      ++ chunk_of (codes "c")
unfolding format_int
write-stale_buffer_example =
    write-stale_buffer taking (λ b k. refl) chunking (codes "head") (repeated 65534) (codes "c")
      chunking-Chunking refl (omega (arith, length-repeated 65534)) (omega arith) (omega arith)

check_chunked-OneFraming_example : OneFraming (fresh []) (check_chunked (fresh []))
check_chunked-OneFraming_example = check_chunked-OneFraming (fresh []) refl refl
