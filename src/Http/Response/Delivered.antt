-- ===== src/Http/Response/Delivered.antt =====
-- nbhttp/response.go: a response with a Content-Length, from its first write to its end.
use nbio.Base.{
  ℕ, ◌+◌, ◌≤◌, ◌<◌, ◌≡◌, inl, inr, refl, sym, ap, ◌∙◌, Option, none, some, List, [], ◌∷◌, ◌++◌,
  Bytes, length, is_nil, pos_part, ltb, if◌then◌else◌, arith, Bool-cases, append-nil, append_assoc,
  length-append, is_nil-eq,
}
use nbio.Http.Response.{
  Response, Outside, Reply, accepted, failed, err_content_length, bad_number, conn_error,
  max_packet_size, held, taken, send,
}
use nbio.Http.Response.Head.{eoncode_head}
use nbio.Http.Response.Write.{Wrote, write}
use nbio.Http.Response.Flush.{
  flush, finish, end_plain, end_chunks, end_body, then_body, then_packet, error_of,
}
use nbio.Http.Response.Chunked.{ready, eoncode_head_encoded, respond, after_write}
use nbio.Http.Response.Sized.{Plain}
use nbio.Http.Response.Length.{whole, Apart, Settled, write-Settled}

abbrev pub joined : List Bytes → Bytes
joined [] = []
joined (b ∷ bs) = b ++ joined bs

abbrev pub AllFilled : List Bytes → Type 0
AllFilled [] = Unit {0}
AllFilled (b ∷ bs) = (0 < length b) × AllFilled bs

module _ {C : Type 0} (o : Outside C) where
  -- A response that ends with no error has sent all that was cached and written, and that is within the
  -- Content-Length; else the first part of it.
  abbrev pub Delivered : Response C → List Bytes → Response C × Option ℕ → Type 0
  Delivered c bs (q, none) =
      (q.sent ≡ whole c ++ joined bs)
      × (c.body_written + length (joined bs) ≤ pos_part c.content_len)
  Delivered c bs (q, some e) = (rest : Bytes) × (q.sent ++ rest ≡ whole c ++ joined bs)

  -- What flush sends, with no regard to lengths.
  abbrev Sends : Bytes → Response C × Option ℕ → Type 0
  Sends t (q, none) = q.sent ≡ t
  Sends t (q, some e) = (rest : Bytes) × (q.sent ++ rest ≡ t)

  last_sent :
      (c : Response C) (b : Bytes) (x : C × Reply) → Sends (c.sent ++ b) (error_of o (taken b c x))
  last_sent c b (k, accepted) = refl
  last_sent c b (k, failed n e) = (b, refl)

  end_body-Sends : (c : Response C) → Sends (c.sent ++ held c.body_buffer) (end_body o c)
  unfolding send
  end_body-Sends c = elim (Bool-cases (is_nil (held c.body_buffer))) [
    | inl empty ↦ rw (empty, is_nil-eq (held c.body_buffer) empty) (sym (append-nil c.sent))
    | inr some_bytes ↦ rw some_bytes (
        last_sent (record c { body_buffer = none }) (held c.body_buffer)
          (o.write_conn (held c.body_buffer) c.net))
  ]

  body_after :
      (c : Response C) (b : Bytes) (x : C × Reply)
      → Sends (c.sent ++ b ++ held c.body_buffer) (then_body o (taken b c x))
  body_after c b (k, accepted) = end_body-Sends (record c { net = k; sent = c.sent ++ b })
  body_after c b (k, failed n e) =
      (b ++ held c.body_buffer, sym (append_assoc c.sent b (held c.body_buffer)))

  packet_after :
      (c : Response C) (b : Bytes) (x : C × Reply)
      → Sends (c.sent ++ b ++ held c.body_buffer) (then_packet o (taken b c x))
  unfolding send
  packet_after c b (k, accepted) =
      let q = record c { net = k; sent = c.sent ++ b; body_buffer = none } in
      rw (append-nil (c.sent ++ b ++ held c.body_buffer)) at
        (body_after q (held c.body_buffer) (o.write_conn (held c.body_buffer) k))
  packet_after c b (k, failed n e) =
      (b ++ held c.body_buffer, sym (append_assoc c.sent b (held c.body_buffer)))

  end_plain-Sends :
      (c : Response C) (x : Option Bytes)
      → Sends (c.sent ++ held x ++ held c.body_buffer) (end_plain o x c)
  unfolding send
  end_plain-Sends c none = rw (append-nil c.sent) (end_body-Sends c)
  end_plain-Sends c (some b) =
      let bare = record c { buffer = none } in
      let body = held c.body_buffer in
      elim (Bool-cases (is_nil body)) [
        | inl empty ↦ rw empty (body_after bare b (o.write_conn b c.net))
        | inr some_bytes ↦ elim (Bool-cases (ltb max_packet_size (length b + length body))) [
          | inl over ↦ rw (some_bytes, over) (packet_after bare b (o.write_conn b c.net))
          | inr fits ↦
              rw (some_bytes, fits)
                (rw (append-nil (c.sent ++ (b ++ body)), sym (append_assoc c.sent b body)) at
                  (body_after (record bare { body_buffer = none }) (b ++ body)
                    (o.write_conn (b ++ body) c.net)))
        ]
      ]

  finish-end_plain : (c : Response C) → Plain c → finish o c ≡ end_plain o c.buffer c
  unfolding finish flush
  finish-end_plain c s =
      ap (λ d. flush o (eoncode_head o d)) (ready o c s.0 s.4)
      ∙ ap (flush o) (eoncode_head_encoded o c s.2)
      ∙ ap (λ t. if t then end_chunks o c else end_plain o c.buffer c) s.1

  Sends-Delivered :
      (c : Response C) (x : Response C × Option ℕ)
      → c.body_written ≤ pos_part c.content_len
      → Sends (whole c) x
      → Delivered c [] x
  Sends-Delivered c (q, none) l h = (h ∙ sym (append-nil (whole c)), omega arith)
  Sends-Delivered c (q, some e) l (rest, h) = (rest, h ∙ sym (append-nil (whole c)))

  behind :
      (c q : Response C) (b : Bytes) (bs : List Bytes) (x : Response C × Option ℕ)
      → whole q ≡ whole c ++ b
      → q.body_written ≡ c.body_written + length b
      → q.content_len ≡ c.content_len
      → Delivered q bs x
      → Delivered c (b ∷ bs) x
  behind c q b bs (r, none) same m cl (h, l) =
      let size = length-append b (joined bs) in
      (
        h ∙ ap (λ t. t ++ joined bs) same ∙ append_assoc (whole c) b (joined bs),
        ground (arith, ap pos_part cl),
      )
  behind c q b bs (r, some e) same m cl (rest, h) =
      (rest, h ∙ ap (λ t. t ++ joined bs) same ∙ append_assoc (whole c) b (joined bs))

  -- A response with a Content-Length, whose head is encoded, of which a handler writes slices of a byte at least one after the
  -- other up to an error: if it ends with no error, the connection was given what was there before and all slices, in
  -- that order and nothing else, and the body is within the Content-Length; if with an error, the first part of
  -- that. The body written before is within the Content-Length, and head and body are not both cached.
  pub respond-Delivered :
      (bs : List Bytes) (c : Response C)
      → Plain c
      → Apart c
      → c.body_written ≤ pos_part c.content_len
      → AllFilled bs
      → Delivered c bs (respond o bs c)
  respond-Delivered [] c s a l h =
      rw (finish-end_plain c s)
        (Sends-Delivered c (end_plain o c.buffer c) l (end_plain-Sends c c.buffer))
  respond-Delivered (b ∷ bs) c s a l h =
      on_write (respond-Delivered bs) (write o c b) (write-Settled o c b s a h.0)
    where
      on_write :
          ((q : Response C)
            → Plain q
            → Apart q
            → q.body_written ≤ pos_part q.content_len
            → AllFilled bs
            → Delivered q bs (respond o bs q))
          → (x : Response C × Wrote) → Settled c b x
          → Delivered c (b ∷ bs) (after_write o (respond o bs) x)
      on_write ih (q, (n, none)) (t, apart, same, m, fits, cl) =
          behind c q b bs (respond o bs q) same m cl (ih q t apart (rw cl fits) h.1)
      on_write ih (q, (n, some (conn_error f))) (rest, same) = (
        rest ++ joined bs,
        sym (append_assoc q.sent rest (joined bs))
            ∙ ap (λ t. t ++ joined bs) same
            ∙ append_assoc (whole c) b (joined bs),
      )
      on_write ih (q, (n, some err_content_length)) (over, zero_taken, kept) = (
        held q.buffer ++ held q.body_buffer ++ (b ++ joined bs),
        sym (append_assoc q.sent (held q.buffer ++ held q.body_buffer) (b ++ joined bs))
            ∙ ap (λ t. t ++ (b ++ joined bs))
                (sym (append_assoc q.sent (held q.buffer) (held q.body_buffer)) ∙ ap whole kept),
      )
      on_write ih (q, (n, some bad_number)) h = absurd h
