-- ===== src/Http/Response/Write.antt =====
-- nbhttp/response.go: Write, writeChunk, Flush, and flush, which ends the response.
use nbio.Base.{
  ℕ, ◌+◌, Bool, true, false, not, ◌&&◌, ◌||◌, Option, none, some, [], ◌++◌, Bytes, length, is_nil,
  is_pos, pos_part, ltb, leb, if◌then◌else◌, ℤ,
}
use nbio.Http.Response.{
  Response, Outside, Reply, accepted, failed, WriteError, err_content_length, bad_number,
  conn_error, max_packet_size, crlf, held, format_int, write_header, check_chunked, content_length,
  send,
}
use nbio.Http.Response.Head.{eoncode_head}

-- (n, err)
abbrev pub Wrote : Type 0
Wrote = ℕ × Option WriteError

-- A chunk: its length in hex, the data, each with CR and LF.
abbrev pub chunk_of : Bytes → Bytes
chunk_of b = format_int (length b) 16 ++ crlf ++ b ++ crlf

module _ {C : Type 0} (o : Outside C) where
  -- On an error of conn.Write: 0 and the error.
  abbrev pub sent_or : (Response C → Response C × Wrote) → Response C × Reply → Response C × Wrote
  sent_or next (res, accepted) = next res
  sent_or next (res, failed n e) = (res, (0, some (conn_error e)))

  -- The end of writeChunk.
  abbrev pub end_chunk : Bytes → Response C → Response C × Wrote
  end_chunk body res =
      let packet = body ++ crlf in
      if ltb (length packet) max_packet_size
      then (record res { buffer = some packet }, (length body, none))
      else sent_or (λ q. (q, (length body, none))) (send o res packet)

  -- writeChunk from a packet of max_packet_size on.
  abbrev pub write_big_chunk : Option Bytes → Bytes → Response C → Response C × Wrote
  write_big_chunk none body res =
      let packet = chunk_of body in
      if ltb (length packet) max_packet_size
      then (record res { buffer = some packet }, (length body, none))
      else sent_or (λ q. (q, (length body, none))) (send o res packet)
  write_big_chunk (some b) body res =
      sent_or (end_chunk body) (send o res (b ++ format_int (length body) 16 ++ crlf))

  -- The buffer to which writeChunk appends a small chunk: what is cached, or a buffer from the pool,
  -- which is not cut to length 0.
  abbrev pub base_of : Option Bytes → ℕ → C → Bytes
  base_of none total c = o.stale_buffer total c
  base_of (some b) total c = b

  -- writeChunk once the head is encoded.
  abbrev pub put_chunk : Bytes → Response C → Response C × Wrote
  put_chunk body res =
      let total =
        length (format_int (length body) 16) + length body + 4 + length (held res.buffer) in
      if ltb total max_packet_size
      then (
        record res { buffer = some (base_of res.buffer total res.net ++ chunk_of body) },
        (length body, none),
      )
      else write_big_chunk res.buffer body (record res { buffer = none })

  -- writeChunk
  unfoldable pub write_chunk : Response C → Bytes → Response C × Wrote
  unfolding eoncode_head format_int send
  write_chunk res body = put_chunk body (eoncode_head o res)

  -- `return conn.Write(data)`
  abbrev pub write_direct : Bytes → Response C × Reply → Response C × Wrote
  write_direct body (res, accepted) = (res, (length body, none))
  write_direct body (res, failed n e) = (res, (n, some (conn_error e)))

  abbrev pub flush_kept : Bytes → Response C × Reply → Response C × Wrote
  flush_kept packet (res, accepted) = (record res { body_buffer = some [] }, (length packet, none))
  flush_kept packet (res, failed n e) =
      (record res { body_buffer = none }, (n, some (conn_error e)))

  -- Appends the data to the cache; a full one is sent, and its length is what Write returns.
  abbrev pub keep_data : Bool → Bytes → Bytes → Response C → Response C × Wrote
  keep_data sized b body res =
      let packet = b ++ body in
      let kept = record res {
        body_written = res.body_written + length body;
        body_buffer = some packet;
      } in
      if sized && leb max_packet_size (length packet)
      then flush_kept packet (send o kept packet)
      else (kept, (length body, none))

  abbrev pub direct_or : Bool → Bytes → Response C → Response C × Wrote
  direct_or sized body res =
      if sized && leb max_packet_size (length body)
      then write_direct body (
          send o (record res { body_written = res.body_written + length body; body_buffer = none })
            body)
      else keep_data sized [] body res

  -- The cache is sent to make room.
  abbrev pub after_cache : Bytes → Response C × Reply → Response C × Wrote
  after_cache body (res, accepted) = direct_or true body (record res { body_buffer = some [] })
  after_cache body (res, failed n e) = (record res { body_buffer = none }, (0, some (conn_error e)))

  -- APPEND_BODY, with whether a Content-Length is set.
  abbrev pub append_body : Bool → Bytes → Option Bytes → Response C → Response C × Wrote
  append_body sized body none res = direct_or sized body res
  append_body sized body (some b) res =
      if sized && ltb max_packet_size (length b + length body)
      then (if is_nil b then direct_or sized body res else after_cache body (send o res b))
      else keep_data sized b body res

  -- With a Content-Length, once the head is encoded: `pbuf` is the head, if it is not sent yet.
  abbrev pub append_sized : Bytes → Option Bytes → Response C → Response C × Wrote
  append_sized body none res = append_body true body res.body_buffer res
  append_sized body (some pbuf) res =
      if ltb (length pbuf + length body) max_packet_size
      then append_body true body (some pbuf) (record res { body_buffer = some pbuf })
      else sent_or (λ q. append_body true body q.body_buffer q) (send o res pbuf)

  abbrev pub write_sized : Bytes → Response C → Response C × Wrote
  write_sized body res = append_sized body res.buffer (record res { buffer = none })

  abbrev pub write_plain : Bytes → Response C × Option ℤ → Response C × Wrote
  write_plain body (res, none) = (res, (0, some bad_number))
  write_plain body (res, some cl) =
      if is_pos cl
      then (if ltb (pos_part cl) (res.body_written + length body)
          then (res, (0, some err_content_length))
          else write_sized body (eoncode_head o res))
      else append_body false body res.body_buffer res

  abbrev pub write_data : Bytes → Response C → Response C × Wrote
  write_data body res =
      if res.chunked then write_chunk res body else write_plain body (content_length res)

  -- Write
  unfoldable pub write : Response C → Bytes → Response C × Wrote
  unfolding write_chunk eoncode_head send write_header check_chunked content_length
  write res body =
      if is_nil body || not res.has_conn
      then (res, (0, none))
      else write_data body (record (check_chunked (write_header o 200 res)) { has_body = true })
