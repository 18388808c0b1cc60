-- ===== src/Http/Response/Stale.antt =====
-- nbhttp/response.go: what writeChunk puts in front of a chunk when nothing is cached.
use nbio.Base.{
  ◌+◌, ◌≤◌, ◌<◌, ◌≡◌, refl, sym, ap, ◌∙◌, true, false, none, some, ◌++◌, Bytes, length, is_nil, ltb,
  arith, append-nil, append_assoc, length-append,
}
use nbio.Http.Response.{
  Response, Outside, Reply, accepted, failed, max_packet_size, crlf, held, taken, send, format_int,
}
use nbio.Http.Response.Write.{Wrote, chunk_of, put_chunk, end_chunk, sent_or, write}
use nbio.Http.Response.Chunks.{Chunking, emitted, Put, put_chunk-Put, big_chunk}
use nbio.Http.Response.Chunked.{not_empty, write-put_chunk}

module _ {C : Type 0} (o : Outside C)
    (takes_all : (b : Bytes) (k : C) → (o.write_conn b k).1 ≡ accepted) where
  Emptied : Response C × Wrote → Type 0
  Emptied x = (x.0.buffer ≡ none) × (x.1.1 ≡ none)

  second_sent :
      (q : Response C) (b packet : Bytes) (x : C × Reply)
      → x.1 ≡ accepted
      → q.buffer ≡ none
      → Emptied (sent_or o (λ q. (q, (length b, none))) (taken packet q x))
  unfolding Emptied
  second_sent q b packet (k, accepted) a e = (e, refl)
  second_sent q b packet (k, failed n f) a e = cc

  end_chunk-Emptied :
      (q : Response C) (b : Bytes)
      → q.buffer ≡ none
      → max_packet_size ≤ length b + 2
      → Emptied (end_chunk o b q)
  unfolding send
  end_chunk-Emptied q b e big =
      let size = length-append b crlf in
      let full : ltb (length (b ++ crlf)) max_packet_size ≡ false = ground arith in
      rw full (
        second_sent q b (b ++ crlf) (o.write_conn (b ++ crlf) q.net) (takes_all (b ++ crlf) q.net)
          e)

  head_sent :
      (c : Response C) (b packet : Bytes) (x : C × Reply)
      → x.1 ≡ accepted
      → max_packet_size ≤ length b + 2
      → Emptied (sent_or o (end_chunk o b) (taken packet (record c { buffer = none }) x))
  unfolding Emptied
  head_sent c b packet (k, accepted) a big =
      end_chunk-Emptied (record c { net = k; sent = c.sent ++ packet; buffer = none }) b refl big
  head_sent c b packet (k, failed n f) a big = cc

  put_chunk-Emptied :
      (c : Response C) (p b : Bytes)
      → c.buffer ≡ some p
      → max_packet_size ≤ length b + 2
      → Emptied (put_chunk o b c)
  unfolding send
  put_chunk-Emptied c p b e big =
      let packet = p ++ format_int (length b) 16 ++ crlf in
      rw (big_chunk o c p b e (ground arith))
        (head_sent c b packet (o.write_conn packet c.net) (takes_all packet c.net) big)

  bare_chunk :
      (c : Response C) (b : Bytes)
      → c.buffer ≡ none
      → length (format_int (length b) 16) + length b + 4 + 0 < max_packet_size
      → emitted (put_chunk o b c).0
        ≡ c.sent
          ++ (o.stale_buffer (length (format_int (length b) 16) + length b + 4 + 0) c.net
              ++ chunk_of b)
  bare_chunk c b e small = ground arith

  added :
      (c : Response C) (b : Bytes) (x : Response C × Wrote)
      → x.1.1 ≡ none
      → Put c b x.0 x.1
      → Chunking x.0 × (emitted x.0 ≡ emitted c ++ chunk_of b)
  added c b (q, (n, none)) e (whole, t, same, trailers, kept) = (t, same)
  added c b (q, (n, some f)) e h = cc

  with_body : (c : Response C) → Chunking c → Chunking (record c { has_body = true })
  with_body c s = record {
    checked = s.checked;
    is_chunked = s.is_chunked;
    encoded = s.encoded;
    connected = s.connected;
    coded = s.coded;
  }

  behind_big :
      (c d : Response C) (p big small : Bytes)
      → d ≡ (put_chunk o big c).0
      → Chunking c
      → c.buffer ≡ some p
      → max_packet_size ≤ length big + 2
      → is_nil small ≡ false
      → length (format_int (length small) 16) + length small + 4 + 0 < max_packet_size
      → emitted (write o d small).0
        ≡ emitted c
          ++ chunk_of big
          ++ o.stale_buffer (length (format_int (length small) 16) + length small + 4 + 0) d.net
          ++ chunk_of small
  unfolding Emptied
  behind_big c d p big small g s e l some_bytes fits =
      let total = length (format_int (length small) 16) + length small + 4 + 0 in
      let empty = put_chunk-Emptied c p big e l in
      let (t, same) = added c big (put_chunk o big c) empty.1 (put_chunk-Put o c p big s e) in
      let t' : Chunking d = rw g t in
      let bare : d.buffer ≡ none = ap (λ q. q.buffer) g ∙ empty.0 in
      let so_far : d.sent ≡ emitted c ++ chunk_of big =
        sym (append-nil d.sent) ∙ ap (λ x. d.sent ++ held x) (sym bare) ∙ ap emitted g ∙ same in
      ap (λ x. emitted x.0) (write-put_chunk o d small t' some_bytes)
      ∙ bare_chunk (record d { has_body = true }) small bare fits
      ∙ ap (λ x. x ++ (o.stale_buffer total d.net ++ chunk_of small)) so_far
      ∙ sym (append_assoc (emitted c ++ chunk_of big) (o.stale_buffer total d.net) (chunk_of small))

  -- In a chunked response, behind a chunk that fills a packet a chunk that does not comes with bytes in front of it: what
  -- the buffer held that mempool.Malloc gives, of the size that the chunk is to have. The head is encoded and something is
  -- cached, and the connection takes all bytes.
  pub write-stale_buffer :
      (c : Response C) (p big small : Bytes)
      → Chunking c
      → c.buffer ≡ some p
      → max_packet_size ≤ length big + 2
      → 0 < length small
      → length (format_int (length small) 16) + length small + 4 < max_packet_size
      → emitted (write o (write o c big).0 small).0
        ≡ emitted c
          ++ chunk_of big
          ++ o.stale_buffer
              (length (format_int (length small) 16) + length small + 4 + 0)
              (write o c big).0.net
          ++ chunk_of small
  write-stale_buffer c p big small s e l some_bytes fits =
      behind_big (record c { has_body = true }) (write o c big).0 p big small
        (ap (λ x. x.0) (write-put_chunk o c big s (not_empty big (omega arith)))) (with_body c s) e
        l (not_empty small some_bytes) (omega arith)
