-- ===== src/Http/Response/Flush.antt =====
-- nbhttp/response.go: Flush, and flush, which ends the response; flushResponse of nbhttp/processor.go.
use nbio.Base.{
  ℕ, ◌+◌, not, ◌||◌, Option, none, some, [], ◌∷◌, ◌++◌, Bytes, length, is_nil, ltb, if◌then◌else◌,
  codes,
}
use nbio.Http.Response.{
  Response, Outside, Reply, accepted, failed, max_packet_size, crlf, held, write_header,
  check_chunked, send,
}
use nbio.Http.Response.Head.{eoncode_head, field_line, Trailers}

-- The end of a chunked body, with the trailers.
abbrev pub trailer_lines : Trailers → Bytes
trailer_lines [] = []
trailer_lines ((k, v) ∷ ts) = field_line k v ++ trailer_lines ts

abbrev pub last_chunk : Trailers → Bytes
last_chunk [] = codes "0" ++ crlf ++ crlf
last_chunk (t ∷ ts) = codes "0" ++ crlf ++ trailer_lines (t ∷ ts) ++ crlf

module _ {C : Type 0} (o : Outside C) where
  abbrev after_buffer : Response C × Reply → Response C
  after_buffer (res, accepted) = record res { buffer = some [] }
  after_buffer (res, failed n e) = record res { buffer = none }

  abbrev flush_buffer : Response C → Response C
  flush_buffer res =
      if is_nil (held res.buffer) then res else after_buffer (send o res (held res.buffer))

  abbrev after_body : Response C × Reply → Response C
  after_body (res, accepted) = record res { body_buffer = some [] }
  after_body (res, failed n e) = record res { body_buffer = none }

  abbrev flush_body : Response C → Response C
  flush_body res =
      if is_nil (held res.body_buffer) then res else after_body (send o res (held res.body_buffer))

  -- Flush
  unfoldable pub flush_out : Response C → Response C
  unfolding eoncode_head write_header check_chunked send
  flush_out res =
      if res.hijacked || not res.has_conn
      then res
      else flush_body (flush_buffer (eoncode_head o (check_chunked (write_header o 200 res))))

  abbrev pub error_of : Response C × Reply → Response C × Option ℕ
  error_of (res, accepted) = (res, none)
  error_of (res, failed n e) = (res, some e)

  -- What is left of the body once the rest is sent.
  abbrev pub end_body : Response C → Response C × Option ℕ
  end_body res =
      if is_nil (held res.body_buffer)
      then (res, none)
      else error_of (send o (record res { body_buffer = none }) (held res.body_buffer))

  abbrev pub then_body : Response C × Reply → Response C × Option ℕ
  then_body (res, accepted) = end_body res
  then_body (res, failed n e) = (res, some e)

  -- The head was sent alone, being too long for one packet with the body.
  abbrev pub then_packet : Response C × Reply → Response C × Option ℕ
  then_packet (res, accepted) =
      then_body (send o (record res { body_buffer = none }) (held res.body_buffer))
  then_packet (res, failed n e) = (record res { body_buffer = none }, some e)

  abbrev pub end_plain : Option Bytes → Response C → Response C × Option ℕ
  end_plain none res = end_body res
  end_plain (some b) res =
      let body = held res.body_buffer in
      let bare = record res { buffer = none } in
      if is_nil body
      then then_body (send o bare b)
      else if ltb max_packet_size (length b + length body)
      then then_packet (send o bare b)
      else then_body (send o (record bare { body_buffer = none }) (b ++ body))

  abbrev pub end_chunks : Response C → Response C × Option ℕ
  end_chunks res =
      error_of (send o (record res { buffer = none }) (held res.buffer ++ last_chunk res.trailer))

  -- flush
  unfoldable pub flush : Response C → Response C × Option ℕ
  unfolding send
  flush res = if res.chunked then end_chunks res else end_plain res.buffer res

  -- flushResponse up to flush.
  unfoldable pub finish : Response C → Response C × Option ℕ
  unfolding flush eoncode_head write_header check_chunked
  finish res = flush (eoncode_head o (check_chunked (write_header o 200 res)))
