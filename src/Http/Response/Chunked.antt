-- ===== src/Http/Response/Chunked.antt =====
-- nbhttp/response.go: a chunked response from its first write to its end.
use nbio.Base.{
  ℕ, ◌+◌, ◌≤◌, ◌<◌, ◌≡◌, ◌⊎◌, inl, inr, refl, sym, ap, ◌∙◌, true, false, not, ◌&&◌, ◌||◌, Option,
  none, some, List, [], ◌∷◌, ◌++◌, Bytes, length, is_nil, ◌==◌, if◌then◌else◌, arith, append-nil,
  append_assoc,
}
use nbio.Http.Response.{
  Response, Outside, Reply, accepted, failed, conn_error, err_content_length, bad_number,
  max_packet_size, held, taken, send, write_header, check_chunked, content_length,
}
use nbio.Http.Response.Head.{eoncode_head}
use nbio.Http.Response.Write.{
  Wrote, chunk_of, put_chunk, write_data, write_plain, write_chunk, write,
}
use nbio.Http.Response.Flush.{last_chunk, error_of, end_plain, flush, finish, end_chunks}
use nbio.Http.Response.Chunks.{Chunking, emitted, is_some, Put, put_chunk-Put}

abbrev pub chunks_of : List Bytes → Bytes
chunks_of [] = []
chunks_of (b ∷ bs) = chunk_of b ++ chunks_of bs

some_buffer : (x : Option Bytes) → is_some x ≡ true → (p : Bytes) × (x ≡ some p)
some_buffer none e = cc
some_buffer (some p) e = (p, refl)

pub not_empty : (b : Bytes) → 0 < length b → is_nil b ≡ false
not_empty [] h = absurd (omega arith)
not_empty (x ∷ b) h = refl

-- Slices of a byte at least that leave room for CR and LF in a packet.
abbrev pub AllShort : List Bytes → Type 0
AllShort [] = Unit {0}
AllShort (b ∷ bs) = (0 < length b) × (length b + 2 < max_packet_size) × AllShort bs

module _ {C : Type 0} (o : Outside C) where
  pub eoncode_head_encoded : (c : Response C) → c.head_encoded ≡ true → eoncode_head o c ≡ c
  unfolding eoncode_head
  eoncode_head_encoded c e = ground arith

  write_header_coded : (c : Response C) → (c.status_code == 0) ≡ false → write_header o 200 c ≡ c
  unfolding write_header
  write_header_coded c e =
      let off : (not c.hijacked && c.status_code == 0 && not (c.status_code == 200)) ≡ false =
        ground arith in
      rw (off, write_header) refl

  check_chunked_checked : (c : Response C) → c.chunk_checked ≡ true → check_chunked c ≡ c
  unfolding check_chunked
  check_chunked_checked c e = ground arith

  pub ready :
      (c : Response C)
      → c.chunk_checked ≡ true
      → (c.status_code == 0) ≡ false
      → check_chunked (write_header o 200 c) ≡ c
  ready c e f = ap check_chunked (write_header_coded c f) ∙ check_chunked_checked c e

  pub write_ready :
      (c : Response C) (b : Bytes)
      → c.chunk_checked ≡ true
      → (c.status_code == 0) ≡ false
      → c.has_conn ≡ true
      → is_nil b ≡ false
      → write o c b ≡ write_data o b (record c { has_body = true })
  unfolding write
  write_ready c b e f g some_bytes =
      let on : (is_nil b || not c.has_conn) ≡ false = ground arith in
      rw (on, write) (ap (λ d. write_data o b (record d { has_body = true })) (ready c e f))

  write_data_chunked :
      (c : Response C) (b : Bytes) → c.chunked ≡ true → write_data o b c ≡ write_chunk o c b
  write_data_chunked c b e =
      ap (λ t. if t then write_chunk o c b else write_plain o b (content_length c)) e

  write_chunk_encoded :
      (c : Response C) (b : Bytes) → c.head_encoded ≡ true → write_chunk o c b ≡ put_chunk o b c
  unfolding write_chunk
  write_chunk_encoded c b e = ap (put_chunk o b) (eoncode_head_encoded c e)

  -- The steps before writeChunk have been done.
  pub write-put_chunk :
      (c : Response C) (b : Bytes)
      → Chunking c
      → is_nil b ≡ false
      → write o c b ≡ put_chunk o b (record c { has_body = true })
  write-put_chunk c b s some_bytes =
      let d = record c { has_body = true } in
      write_ready c b s.checked s.coded s.connected some_bytes
      ∙ write_data_chunked d b s.is_chunked
      ∙ write_chunk_encoded d b s.encoded

  finish-end_chunks : (c : Response C) → Chunking c → finish o c ≡ end_chunks o c
  unfolding finish flush
  finish-end_chunks c s =
      ap (λ d. flush o (eoncode_head o d)) (ready c s.checked s.coded)
      ∙ ap (flush o) (eoncode_head_encoded c s.encoded)
      ∙ ap (λ t. if t then end_chunks o c else end_plain o c.buffer c) s.is_chunked

  -- A handler that writes one slice after the other, up to an error, and the end of the response.
  abbrev pub after_write :
      (Response C → Response C × Option ℕ) → Response C × Wrote → Response C × Option ℕ
  after_write next (res, (n, none)) = next res
  after_write next (res, (n, some (conn_error e))) = (res, some e)
  after_write next (res, (n, some e)) = (res, some 0)

  abbrev pub respond : List Bytes → Response C → Response C × Option ℕ
  respond [] res = finish o res
  respond (b ∷ bs) res = after_write (respond bs) (write o res b)

  -- A response that ends with no error has sent all chunks and the end; else the first part of that.
  abbrev pub Responded : Response C → List Bytes → Response C × Option ℕ → Type 0
  Responded c bs (q, none) = q.sent ≡ emitted c ++ chunks_of bs ++ last_chunk c.trailer
  Responded c bs (q, some e) =
      (rest : Bytes) × (q.sent ++ rest ≡ emitted c ++ chunks_of bs ++ last_chunk c.trailer)

  finish-Responded : (c : Response C) → Chunking c → Responded c [] (finish o c)
  unfolding send
  finish-Responded c s =
      let packet = held c.buffer ++ last_chunk c.trailer in
      rw (finish-end_chunks c s) (last_sent (o.write_conn packet c.net))
    where
      whole :
          c.sent ++ (held c.buffer ++ last_chunk c.trailer)
          ≡ emitted c ++ [] ++ last_chunk c.trailer
      whole =
          sym (append_assoc c.sent (held c.buffer) (last_chunk c.trailer))
          ∙ ap (λ t. t ++ last_chunk c.trailer) (sym (append-nil (emitted c)))

      last_sent :
          (x : C × Reply)
          → Responded c [] (
              error_of o
                (taken (held c.buffer ++ last_chunk c.trailer) (record c { buffer = none }) x))
      last_sent (k, accepted) = whole
      last_sent (k, failed n e) = (held c.buffer ++ last_chunk c.trailer, whole)

  one_more :
      (t b : Bytes) (bs : List Bytes) (end : Bytes)
      → (t ++ chunk_of b) ++ chunks_of bs ++ end ≡ t ++ chunks_of (b ∷ bs) ++ end
  one_more t b bs end = ap (λ x. x ++ end) (append_assoc t (chunk_of b) (chunks_of bs))

  behind :
      (c q : Response C) (b : Bytes) (bs : List Bytes) (x : Response C × Option ℕ)
      → emitted q ≡ emitted c ++ chunk_of b
      → q.trailer ≡ c.trailer
      → Responded q bs x
      → Responded c (b ∷ bs) x
  behind c q b bs (r, none) same t h =
      h
      ∙ ap (λ x. x ++ chunks_of bs ++ last_chunk q.trailer) same
      ∙ ap (λ ts. (emitted c ++ chunk_of b) ++ chunks_of bs ++ last_chunk ts) t
      ∙ one_more (emitted c) b bs (last_chunk c.trailer)
  behind c q b bs (r, some e) same t (rest, h) = (
    rest,
    h
        ∙ ap (λ x. x ++ chunks_of bs ++ last_chunk q.trailer) same
        ∙ ap (λ ts. (emitted c ++ chunk_of b) ++ chunks_of bs ++ last_chunk ts) t
        ∙ one_more (emitted c) b bs (last_chunk c.trailer),
  )

  cut_short :
      (c q : Response C) (b rest : Bytes) (bs : List Bytes)
      → q.sent ++ rest ≡ emitted c ++ chunk_of b
      → q.sent ++ (rest ++ (chunks_of bs ++ last_chunk c.trailer))
        ≡ emitted c ++ chunks_of (b ∷ bs) ++ last_chunk c.trailer
  cut_short c q b rest bs same =
      let end = last_chunk c.trailer in
      sym (append_assoc q.sent rest (chunks_of bs ++ end))
      ∙ ap (λ x. x ++ (chunks_of bs ++ end)) same
      ∙ sym (append_assoc (emitted c ++ chunk_of b) (chunks_of bs) end)
      ∙ one_more (emitted c) b bs end

  still_cached :
      (x : Option Bytes) (b : Bytes)
      → length b + 2 < max_packet_size
      → (is_some x ≡ true) ⊎ (max_packet_size ≤ length b + 2)
      → is_some x ≡ true
  still_cached x b h (inl e) = e
  still_cached x b h (inr l) = absurd (omega arith)

  -- A chunked response whose head is cached, of which a handler writes slices of a byte at least that leave room for
  -- CR and LF in a packet, one after the other up to an error: if it ends with no error, the connection was given what was
  -- emitted before, a chunk for each slice, and the end with the trailers, in that order and nothing else; if with an error, the
  -- first part of that.
  pub respond-Responded :
      (bs : List Bytes) (c : Response C)
      → Chunking c
      → is_some c.buffer ≡ true
      → AllShort bs
      → Responded c bs (respond bs c)
  respond-Responded [] c s e h = finish-Responded c s
  respond-Responded (b ∷ bs) c s e h =
      let d = record c { has_body = true } in
      let (p, full) = some_buffer c.buffer e in
      let put =
        put_chunk-Put o d p b
          (record {
            checked = s.checked;
            is_chunked = s.is_chunked;
            encoded = s.encoded;
            connected = s.connected;
            coded = s.coded;
          })
          full in
      let some_bytes : is_nil b ≡ false = not_empty b h.0 in
      rw (write-put_chunk c b s some_bytes) (on_write (respond-Responded bs) (put_chunk o b d) put)
    where
      on_write :
          ((q : Response C)
            → Chunking q
            → is_some q.buffer ≡ true
            → AllShort bs
            → Responded q bs (respond bs q))
          → (x : Response C × Wrote) → Put (record c { has_body = true }) b x.0 x.1
          → Responded c (b ∷ bs) (after_write (respond bs) x)
      on_write ih (q, (n, none)) (whole, t, same, trailers, kept) =
          behind c q b bs (respond bs q) same trailers
            (ih q t (still_cached q.buffer b h.1 kept) h.2)
      on_write ih (q, (n, some (conn_error f))) (rest, same) =
          (rest ++ (chunks_of bs ++ last_chunk c.trailer), cut_short c q b rest bs same)
      on_write ih (q, (n, some err_content_length)) (rest, same) =
          (rest ++ (chunks_of bs ++ last_chunk c.trailer), cut_short c q b rest bs same)
      on_write ih (q, (n, some bad_number)) (rest, same) =
          (rest ++ (chunks_of bs ++ last_chunk c.trailer), cut_short c q b rest bs same)
