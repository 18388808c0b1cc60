-- ===== src/Http/Response/Sized.antt =====
-- nbhttp/response.go: the writes of a response that has a Content-Length.
use nbio.Base.{
  ℕ, ◌+◌, ◌≡◌, ◌⊎◌, inl, inr, refl, sym, ap, ◌∙◌, true, false, Option, none, some, [], ◌++◌, Bytes,
  length, is_nil, is_pos, ltb, leb, ◌==◌, if◌then◌else◌, Bool-cases, append-nil, append_assoc, ℤ,
  is_nil-eq,
}
use nbio.Http.Response.{
  Response, Outside, Reply, accepted, failed, conn_error, max_packet_size, held, taken, send,
}
use nbio.Http.Response.Write.{
  Wrote, keep_data, flush_kept, direct_or, write_direct, after_cache, append_body, append_sized,
  sent_or,
}

module _ {C : Type 0} where
  -- Not chunked, with a Content-Length that is noted, and the head is encoded.
  abbrev pub Plain : Response C → Type 0
  Plain res =
      (res.chunk_checked ≡ true)
      × (res.chunked ≡ false)
      × (res.head_encoded ≡ true)
      × (res.has_conn ≡ true)
      × ((res.status_code == 0) ≡ false)
      × (is_pos res.content_len ≡ true)

  -- A write of `b` behind `t`, when `m` bytes of the body were written: with no error, what the connection took and what is cached is
  -- both of them; with an error, what it took is the first part of that.
  abbrev pub Added : Bytes → ℕ → ℤ → Bytes → Response C × Wrote → Type 0
  Added t m cl b (q, (n, none)) =
      Plain q
      × (q.buffer ≡ none)
      × (q.sent ++ held q.body_buffer ≡ t ++ b)
      × (q.body_written ≡ m + length b)
      × (q.content_len ≡ cl)
  Added t m cl b (q, (n, some (conn_error e))) = (rest : Bytes) × (q.sent ++ rest ≡ t ++ b)
  Added t m cl b (q, (n, some _)) = ⊥

module _ {C : Type 0} (o : Outside C) where
  full_sent :
      (res : Response C) (p b : Bytes) (x : C × Reply)
      → Plain res
      → res.buffer ≡ none
      → Added (res.sent ++ p) res.body_written res.content_len b (
          flush_kept o (p ++ b) (
            taken
              (p ++ b)
              (record res {
                body_written = res.body_written + length b;
                body_buffer = some (p ++ b);
              })
              x))
  full_sent res p b (k, accepted) s e =
      (s, e, append-nil (res.sent ++ (p ++ b)) ∙ sym (append_assoc res.sent p b), refl, refl)
  full_sent res p b (k, failed n f) s e = (p ++ b, sym (append_assoc res.sent p b))

  keep_data-Added :
      (res : Response C) (p b : Bytes)
      → Plain res
      → res.buffer ≡ none
      → Added (res.sent ++ p) res.body_written res.content_len b (keep_data o true p b res)
  unfolding send
  keep_data-Added res p b s e = elim (Bool-cases (leb max_packet_size (length (p ++ b)))) [
    | inl full ↦ rw full (full_sent res p b (o.write_conn (p ++ b) res.net) s e)
    | inr room ↦ rw room (s, e, sym (append_assoc res.sent p b), refl, refl)
  ]

  direct_sent :
      (res : Response C) (b : Bytes) (x : C × Reply)
      → Plain res
      → res.buffer ≡ none
      → Added res.sent res.body_written res.content_len b (
          write_direct o b (
            taken b
              (record res { body_written = res.body_written + length b; body_buffer = none })
              x))
  direct_sent res b (k, accepted) s e = (s, e, append-nil (res.sent ++ b), refl, refl)
  direct_sent res b (k, failed n f) s e = (b, refl)

  direct_keeps :
      (res : Response C) (b : Bytes)
      → leb max_packet_size (length b) ≡ false
      → direct_or o true b res ≡ keep_data o true [] b res
  direct_keeps res b room =
      ap
        (λ t.
          if t
          then write_direct o b (
              send o (record res { body_written = res.body_written + length b; body_buffer = none })
                b)
          else keep_data o true [] b res)
        room

  direct_or-Added :
      (res : Response C) (b : Bytes)
      → Plain res
      → res.buffer ≡ none
      → Added res.sent res.body_written res.content_len b (direct_or o true b res)
  unfolding send
  direct_or-Added res b s e = elim (Bool-cases (leb max_packet_size (length b))) [
    | inl full ↦ rw full (direct_sent res b (o.write_conn b res.net) s e)
    | inr room ↦
        rw (direct_keeps res b room) (rw (append-nil res.sent) at (keep_data-Added res [] b s e))
  ]

  cache_sent :
      (res : Response C) (p b : Bytes) (x : C × Reply)
      → Plain res
      → res.buffer ≡ none
      → Added (res.sent ++ p) res.body_written res.content_len b (after_cache o b (taken p res x))
  cache_sent res p b (k, accepted) s e =
      direct_or-Added (record res { net = k; sent = res.sent ++ p; body_buffer = some [] }) b s e
  cache_sent res p b (k, failed n f) s e = (p ++ b, sym (append_assoc res.sent p b))

  append_body-Added :
      (res : Response C) (x : Option Bytes) (b : Bytes)
      → Plain res
      → res.buffer ≡ none
      → Added (res.sent ++ held x) res.body_written res.content_len b (append_body o true b x res)
  unfolding send
  append_body-Added res none b s e = rw (append-nil res.sent) (direct_or-Added res b s e)
  append_body-Added res (some p) b s e =
      elim (Bool-cases (ltb max_packet_size (length p + length b))) [
        | inl over ↦ elim (Bool-cases (is_nil p)) [
          | inl empty ↦
              rw (over, empty, is_nil-eq p empty, append-nil res.sent) (direct_or-Added res b s e)
          | inr some_bytes ↦ rw (over, some_bytes) (cache_sent res p b (o.write_conn p res.net) s e)
        ]
        | inr room ↦ rw room (keep_data-Added res p b s e)
      ]

  head_sent :
      (res : Response C) (p b : Bytes) (x : C × Reply)
      → Plain res
      → res.buffer ≡ none
      → res.body_buffer ≡ none
      → Added
          (res.sent ++ p)
          res.body_written
          res.content_len
          b
          (sent_or o (λ q. append_body o true b q.body_buffer q) (taken p res x))
  head_sent res p b (k, accepted) s e f =
      let q = record res { net = k; sent = res.sent ++ p } in
      let bare : (res.sent ++ p) ++ held res.body_buffer ≡ res.sent ++ p =
        ap (λ t. (res.sent ++ p) ++ held t) f ∙ append-nil (res.sent ++ p) in
      rw bare at (append_body-Added q res.body_buffer b s e)
  head_sent res p b (k, failed n g) s e f = (p ++ b, sym (append_assoc res.sent p b))

  sized_small :
      (res : Response C) (p b : Bytes)
      → ltb (length p + length b) max_packet_size ≡ true
      → append_sized o b (some p) res
        ≡ append_body o true b (some p) (record res { body_buffer = some p })
  sized_small res p b small =
      ap
        (λ t.
          if t
          then append_body o true b (some p) (record res { body_buffer = some p })
          else sent_or o (λ q. append_body o true b q.body_buffer q) (send o res p))
        small

  sized_big :
      (res : Response C) (p b : Bytes)
      → ltb (length p + length b) max_packet_size ≡ false
      → append_sized o b (some p) res
        ≡ sent_or o (λ q. append_body o true b q.body_buffer q) (send o res p)
  sized_big res p b big =
      ap
        (λ t.
          if t
          then append_body o true b (some p) (record res { body_buffer = some p })
          else sent_or o (λ q. append_body o true b q.body_buffer q) (send o res p))
        big

  cached_head :
      (res : Response C) (p b : Bytes)
      → Plain res
      → res.buffer ≡ none
      → res.body_buffer ≡ none
      → Added (res.sent ++ p) res.body_written res.content_len b (append_sized o b (some p) res)
  unfolding send
  cached_head res p b s e f = elim (Bool-cases (ltb (length p + length b) max_packet_size)) [
    | inl small ↦
        rw (sized_small res p b small)
          (append_body-Added (record res { body_buffer = some p }) (some p) b s e)
    | inr big ↦ rw (sized_big res p b big) (head_sent res p b (o.write_conn p res.net) s e f)
  ]

  pub append_sized-Added :
      (res : Response C) (x : Option Bytes) (b : Bytes)
      → Plain res
      → res.buffer ≡ none
      → (x ≡ none) ⊎ (res.body_buffer ≡ none)
      → Added
          (res.sent ++ held x ++ held res.body_buffer)
          res.body_written
          res.content_len
          b
          (append_sized o b x res)
  append_sized-Added res none b s e f =
      rw (append-nil res.sent) (append_body-Added res res.body_buffer b s e)
  append_sized-Added res (some p) b s e (inl g) = cc
  append_sized-Added res (some p) b s e (inr f) =
      let bare : res.sent ++ p ++ held res.body_buffer ≡ res.sent ++ p =
        ap (λ t. res.sent ++ p ++ held t) f ∙ append-nil (res.sent ++ p) in
      rw bare (cached_head res p b s e f)
