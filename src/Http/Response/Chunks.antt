-- ===== src/Http/Response/Chunks.antt =====
-- nbhttp/response.go: the writes of a chunked response, one after the other.
use nbio.Base.{
  ◌+◌, ◌≤◌, ◌≡◌, ◌⊎◌, inl, inr, refl, sym, ap, ◌∙◌, Bool, true, false, Option, none, some, ◌++◌,
  Bytes, length, ltb, ◌==◌, arith, Bool-cases, append-nil, append_assoc, length-append,
}
use nbio.Http.Response.{
  Response, Outside, Reply, accepted, failed, max_packet_size, crlf, held, taken, send, format_int,
}
use nbio.Http.Response.Write.{Wrote, chunk_of, put_chunk, end_chunk, sent_or}

abbrev pub is_some : Option Bytes → Bool
is_some none = false
is_some (some b) = true

split_chunk :
    (s p b : Bytes)
    → (s ++ (p ++ format_int (length b) 16 ++ crlf)) ++ (b ++ crlf) ≡ (s ++ p) ++ chunk_of b
split_chunk s p b = simp append_assoc

module _ {C : Type 0} where
  -- The body is written in chunks, and the head is written or cached.
  pub record Chunking (res : Response C) : Type 0 where
    pub checked : res.chunk_checked ≡ true
    pub is_chunked : res.chunked ≡ true
    pub encoded : res.head_encoded ≡ true
    pub connected : res.has_conn ≡ true
    pub coded : (res.status_code == 0) ≡ false

  -- What the connection took, and what is cached for it.
  abbrev pub emitted : Response C → Bytes
  emitted res = res.sent ++ held res.buffer

  -- A write that ends with no error adds a chunk behind what was emitted, and something stays cached
  -- unless the chunk filled a packet. One that fails has sent the first part of that.
  abbrev pub Put : Response C → Bytes → Response C → Wrote → Type 0
  Put c b q (n, none) =
      (n ≡ length b)
      × Chunking q
      × (emitted q ≡ emitted c ++ chunk_of b)
      × (q.trailer ≡ c.trailer)
      × ((is_some q.buffer ≡ true) ⊎ (max_packet_size ≤ length b + 2))
  Put c b q (n, some e) = (rest : Bytes) × (q.sent ++ rest ≡ emitted c ++ chunk_of b)

module _ {C : Type 0} (o : Outside C) where
  packet_sent :
      (c q : Response C) (b : Bytes) (x : C × Reply)
      → Chunking q
      → q.trailer ≡ c.trailer
      → q.buffer ≡ none
      → max_packet_size ≤ length b + 2
      → q.sent ++ (b ++ crlf) ≡ emitted c ++ chunk_of b
      → Put c b
          (sent_or o (λ q. (q, (length b, none))) (taken (b ++ crlf) q x)).0
          (sent_or o (λ q. (q, (length b, none))) (taken (b ++ crlf) q x)).1
  packet_sent c q b (k, accepted) s t e big same = (
    refl,
    record {
      checked = s.checked;
      is_chunked = s.is_chunked;
      encoded = s.encoded;
      connected = s.connected;
      coded = s.coded;
    },
    ap (λ x. (q.sent ++ (b ++ crlf)) ++ held x) e ∙ append-nil (q.sent ++ (b ++ crlf)) ∙ same,
    t,
    inr big,
  )
  packet_sent c q b (k, failed n f) s t e big same = (b ++ crlf, same)

  end_chunk-Put :
      (c q : Response C) (b : Bytes)
      → Chunking q
      → q.trailer ≡ c.trailer
      → q.buffer ≡ none
      → q.sent ++ (b ++ crlf) ≡ emitted c ++ chunk_of b
      → Put c b (end_chunk o b q).0 (end_chunk o b q).1
  unfolding send
  end_chunk-Put c q b s t e same =
      let size = length-append b crlf in
      elim (Bool-cases (ltb (length (b ++ crlf)) max_packet_size)) [
        | inl small ↦ rw small (
          refl,
          record {
            checked = s.checked;
            is_chunked = s.is_chunked;
            encoded = s.encoded;
            connected = s.connected;
            coded = s.coded;
          },
          same,
          t,
          inl refl,
        )
        | inr big ↦
            rw big (packet_sent c q b (o.write_conn (b ++ crlf) q.net) s t e (ground arith) same)
      ]

  small_chunk :
      (c : Response C) (p b : Bytes)
      → c.buffer ≡ some p
      → ltb (length (format_int (length b) 16) + length b + 4 + length p) max_packet_size ≡ true
      → put_chunk o b c ≡ (record c { buffer = some (p ++ chunk_of b) }, (length b, none))
  small_chunk c p b e small = ground arith

  pub big_chunk :
      (c : Response C) (p b : Bytes)
      → c.buffer ≡ some p
      → ltb (length (format_int (length b) 16) + length b + 4 + length p) max_packet_size ≡ false
      → put_chunk o b c
        ≡ sent_or o
            (end_chunk o b)
            (send o (record c { buffer = none }) (p ++ format_int (length b) 16 ++ crlf))
  big_chunk c p b e big = ground arith

  head_sent :
      (c : Response C) (p b : Bytes) (x : C × Reply)
      → Chunking c
      → c.buffer ≡ some p
      → Put c b
          (sent_or o
            (end_chunk o b)
            (taken (p ++ format_int (length b) 16 ++ crlf) (record c { buffer = none }) x)).0
          (sent_or o
            (end_chunk o b)
            (taken (p ++ format_int (length b) 16 ++ crlf) (record c { buffer = none }) x)).1
  head_sent c p b (k, accepted) s e =
      let before : emitted c ≡ c.sent ++ p = ap (λ t. c.sent ++ held t) e in
      let q = record c {
        net = k;
        sent = c.sent ++ (p ++ format_int (length b) 16 ++ crlf);
        buffer = none;
      } in
      end_chunk-Put c q b
        (record {
          checked = s.checked;
          is_chunked = s.is_chunked;
          encoded = s.encoded;
          connected = s.connected;
          coded = s.coded;
        })
        refl refl (split_chunk c.sent p b ∙ ap (λ t. t ++ chunk_of b) (sym before))
  head_sent c p b (k, failed n f) s e = (
    p ++ chunk_of b,
    sym (append_assoc c.sent p (chunk_of b)) ∙ ap (λ t. (c.sent ++ held t) ++ chunk_of b) (sym e),
  )

  pub put_chunk-Put :
      (c : Response C) (p b : Bytes)
      → Chunking c
      → c.buffer ≡ some p
      → Put c b (put_chunk o b c).0 (put_chunk o b c).1
  unfolding send
  put_chunk-Put c p b s e =
      elim (Bool-cases
        (ltb (length (format_int (length b) 16) + length b + 4 + length p) max_packet_size)) [
          | inl small ↦ rw (small_chunk c p b e small) (
            refl,
            record {
              checked = s.checked;
              is_chunked = s.is_chunked;
              encoded = s.encoded;
              connected = s.connected;
              coded = s.coded;
            },
            sym (append_assoc c.sent p (chunk_of b))
                ∙ ap (λ t. (c.sent ++ held t) ++ chunk_of b) (sym e),
            refl,
            inl refl,
          )
          | inr big ↦
              rw (big_chunk c p b e big)
                (head_sent c p b (o.write_conn (p ++ format_int (length b) 16 ++ crlf) c.net) s e)
        ]
