-- ===== src/Http/Response/Length.antt =====
-- nbhttp/response.go: a write of a response with a Content-Length.
use nbio.Base.{
  ◌+◌, ◌≤◌, ◌<◌, ◌≡◌, ◌⊎◌, inl, inr, refl, ap, ◌∙◌, true, false, none, some, ◌++◌, Bytes, length,
  is_pos, pos_part, ltb, if◌then◌else◌, arith, Bool-cases, append-nil,
}
use nbio.Http.Response.{
  Response, Outside, err_content_length, bad_number, conn_error, held, content_length,
}
use nbio.Http.Response.Write.{Wrote, write, write_data, write_plain, write_chunk, write_sized}
use nbio.Http.Response.Chunked.{eoncode_head_encoded, write_ready, not_empty}
use nbio.Http.Response.Sized.{Plain, Added, append_sized-Added}

module _ {C : Type 0} where
  -- What the connection took, and what is cached for it.
  abbrev pub whole : Response C → Bytes
  whole res = res.sent ++ held res.buffer ++ held res.body_buffer

  -- The head and the body are not both cached.
  abbrev pub Apart : Response C → Type 0
  Apart res = (res.buffer ≡ none) ⊎ (res.body_buffer ≡ none)

  -- A write is added behind all else and within the Content-Length; or it is refused, and goes beyond it; or
  -- the connection failed.
  abbrev pub Settled : Response C → Bytes → Response C × Wrote → Type 0
  Settled c b (q, (n, none)) =
      Plain q
      × Apart q
      × (whole q ≡ whole c ++ b)
      × (q.body_written ≡ c.body_written + length b)
      × (q.body_written ≤ pos_part c.content_len)
      × (q.content_len ≡ c.content_len)
  Settled c b (q, (n, some err_content_length)) =
      (pos_part c.content_len < c.body_written + length b)
      × (n ≡ 0)
      × (q ≡ record c { has_body = true })
  Settled c b (q, (n, some (conn_error e))) = (rest : Bytes) × (q.sent ++ rest ≡ whole c ++ b)
  Settled c b (q, (n, some bad_number)) = ⊥

  Added-Settled :
      (c : Response C) (b : Bytes) (x : Response C × Wrote)
      → c.body_written + length b ≤ pos_part c.content_len
      → Added (whole c) c.body_written c.content_len b x
      → Settled c b x
  Added-Settled c b (q, (n, none)) l (s, e, same, m, cl) = (
    s,
    inl e,
    ap (λ t. q.sent ++ held t ++ held q.body_buffer) e
        ∙ ap (λ t. t ++ held q.body_buffer) (append-nil q.sent)
        ∙ same,
    m,
    omega arith,
    cl,
  )
  Added-Settled c b (q, (n, some (conn_error e))) l h = h
  Added-Settled c b (q, (n, some err_content_length)) l h = absurd h
  Added-Settled c b (q, (n, some bad_number)) l h = absurd h

module _ {C : Type 0} (o : Outside C) where
  write_data_plain :
      (c : Response C) (b : Bytes)
      → c.chunked ≡ false
      → write_data o b c ≡ write_plain o b (content_length c)
  write_data_plain c b e =
      ap (λ t. if t then write_chunk o c b else write_plain o b (content_length c)) e

  content_length_noted :
      (c : Response C) → is_pos c.content_len ≡ true → content_length c ≡ (c, some c.content_len)
  unfolding content_length
  content_length_noted c e = rw (e, content_length) refl

  write_plain-Settled :
      (c : Response C) (b : Bytes)
      → Plain c
      → Apart c
      → Settled c b (write_plain o b (record c { has_body = true }, some c.content_len))
  write_plain-Settled c b s a =
      let d = record c { has_body = true } in
      elim (Bool-cases (ltb (pos_part c.content_len) (c.body_written + length b))) [
        | inl over ↦ rw (s.5, over) (ground arith, refl, refl)
        | inr fits ↦
            rw (s.5, fits, eoncode_head_encoded o d s.2)
              (Added-Settled c b (write_sized o b d) (ground arith)
                (append_sized-Added o (record d { buffer = none }) c.buffer b s refl a))
      ]

  -- Write of a byte at least, with a Content-Length and the head encoded, ends in one of three ways: the bytes are behind all
  -- that was sent and cached, and within the Content-Length, and head and body are not both cached; or http.ErrContentLength
  -- with 0 and nothing changed but that the response has a body, and they would have gone beyond it; or an error of the
  -- connection, with the first part sent. Head and body are not both cached before.
  pub write-Settled :
      (c : Response C) (b : Bytes) → Plain c → Apart c → 0 < length b → Settled c b (write o c b)
  write-Settled c b s a some_bytes =
      let d = record c { has_body = true } in
      rw
        (
          write_ready o c b s.0 s.4 s.3 (not_empty b some_bytes),
          write_data_plain d b s.1,
          content_length_noted d s.5,
        )
        (write_plain-Settled c b s a)
