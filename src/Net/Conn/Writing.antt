-- ===== src/Net/Conn/Writing.antt =====
-- conn_unix.go: what Write makes of the stream.
use nbio.Base.{
  is_nil-eq, ◌+◌, ◌-◌, ◌≤◌, ◌≡◌, inl, inr, refl, sym, ap, ◌∙◌, true, false, [], ◌∷◌, ◌++◌, Bytes,
  length, take, drop, ltb, arith, Bool-cases, append-nil, append_assoc, length-drop,
  take-append-drop, is_nil, pos, none, some, take_whole,
}
use nbio.Net.Conn.{
  sys_write, Answer, done, interrupted, again, broken, Kernel, Conn, Limits, count, is_stream,
  system, is_overflow,
}
use nbio.Net.Conn.Write.{do_write, Returned, is_fatal, write, after_write, keep_rest}
use nbio.Net.Conn.Sound.{
  Bounded, pending, stream, queued, WithinLimit, Sound, new_to_write_buf-stream,
  new_to_write_buf-Sound, fits-WithinLimit,
}

-- The kernel took the first bytes of `b`, and nothing else has changed but the events.
pub record Sent {K : Type 0} (c : Conn K) (b : Bytes) (r : Conn K × Answer) : Type 0 where
  pub took : r.0.sent ≡ c.sent ++ take (count r.1) b
  pub bound : count r.1 ≤ length b
  pub list_same : r.0.write_list ≡ c.write_list
  pub left_same : r.0.left ≡ c.left
  pub closed_same : r.0.closed ≡ c.closed
  pub typ_same : r.0.typ ≡ c.typ
  pub armed_same : r.0.is_w_added ≡ c.is_w_added

module _ {K : Type 0} (o : Kernel K) (bounded : Bounded o) (l : Limits) where
  do_write-Sent : (c : Conn K) (b : Bytes) → is_stream c.typ ≡ true → Sent c b (do_write o c b)
  unfolding do_write system
  do_write-Sent c b s = ground (arith, bounded (sys_write b) c.kernel)

  -- A write that is accepted adds its bytes to the stream; one that fails has sent nothing.
  abbrev pub Wrote : Conn K → Bytes → Conn K → Returned → Type 0
  Wrote c b q (n, none) =
      (n ≡ pos (length b)) × Sound l q × (stream o q ≡ stream o c ++ b) × (q.typ ≡ c.typ)
  Wrote c b q (n, some e) = (is_fatal (some e) ≡ true) × (q.sent ≡ c.sent) × (q.typ ≡ c.typ)

  pub empty_stream : (c : Conn K) → c.write_list ≡ [] → stream o c ≡ c.sent
  empty_stream c e = ap (λ ts. c.sent ++ pending o ts) e ∙ append-nil c.sent

  pub Sent-Sound :
      (c q : Conn K) (b : Bytes) (a : Answer)
      → Sound l c
      → c.write_list ≡ []
      → Sent c b (q, a)
      → Sound l q
  Sent-Sound c q b a s empty t =
      let gone : q.write_list ≡ [] = t.list_same ∙ empty in
      record {
        is_open = t.closed_same ∙ s.is_open;
        all_ready = rw gone tt;
        counted = t.left_same ∙ s.counted ∙ ap queued (sym t.list_same);
        limited = ground (arith, s.limited, t.left_same);
      }

  keep_rest-Wrote :
      (c q : Conn K) (b : Bytes) (a : Answer)
      → Sound l c
      → c.write_list ≡ []
      → is_stream c.typ ≡ true
      → is_overflow l c (length b) ≡ false
      → Sent c b (q, a)
      → Wrote c b (keep_rest o q b (count a)).0 (keep_rest o q b (count a)).1
  keep_rest-Wrote c q b a s empty stream_typ fits t =
      let n = count a in
      let kind : is_stream q.typ ≡ true = ap is_stream t.typ_same ∙ stream_typ in
      let sound = Sent-Sound c q b a s empty t in
      let now : stream o q ≡ c.sent ++ take n b = empty_stream q (t.list_same ∙ empty) ∙ t.took in
      let before : stream o c ≡ c.sent = empty_stream c empty in
      let size = length-drop n b in
      elim (Bool-cases (ltb 0 (length b - n))) [
        | inl more ↦
            let limit : WithinLimit l (q.left + length (drop n b)) =
              ground (arith, fits-WithinLimit l c (length b) fits, t.left_same) in
            rw (more, kind)
              (
                refl,
                new_to_write_buf-Sound l q (drop n b) sound (ground arith) limit,
                new_to_write_buf-stream o q (drop n b) sound.all_ready
                    ∙ ap (λ x. x ++ drop n b) now
                    ∙ append_assoc c.sent (take n b) (drop n b)
                    ∙ ap (λ x. c.sent ++ x) (take-append-drop n b)
                    ∙ ap (λ x. x ++ b) (sym before),
                t.typ_same,
              )
        | inr all ↦
            let whole : take n b ≡ b = take_whole n b (ground arith) in
            rw all (
              refl,
              sound,
              now ∙ ap (λ x. c.sent ++ x) whole ∙ ap (λ x. x ++ b) (sym before),
              t.typ_same,
            )
      ]

  after_write-Wrote :
      (c q : Conn K) (b : Bytes) (a : Answer)
      → Sound l c
      → c.write_list ≡ []
      → is_stream c.typ ≡ true
      → is_overflow l c (length b) ≡ false
      → Sent c b (q, a)
      → Wrote c b (after_write o b (q, a)).0 (after_write o b (q, a)).1
  after_write-Wrote c q b (done n) s e k f t = keep_rest-Wrote c q b (done n) s e k f t
  after_write-Wrote c q b interrupted s e k f t = keep_rest-Wrote c q b interrupted s e k f t
  after_write-Wrote c q b again s e k f t = keep_rest-Wrote c q b again s e k f t
  after_write-Wrote c q b (broken x) s e k f t = (refl, t.took ∙ append-nil c.sent, t.typ_same)

  -- write on an open stream that is sound takes on all bytes, behind those sent and queued, and
  -- the bytes then queued keep to the limit; or it fails with an error that closes the connection,
  -- and has sent nothing. The kernel takes no more bytes than it is given.
  pub write-Wrote :
      (c : Conn K) (b : Bytes)
      → Sound l c
      → is_stream c.typ ≡ true
      → Wrote c b (write o l c b).0 (write o l c b).1
  unfolding write
  write-Wrote c [] s k = (refl, s, sym (append-nil (stream o c)), refl)
  write-Wrote c (x ∷ xs) s k =
      let b = x ∷ xs in
      elim (Bool-cases (is_overflow l c (length b))) [
        | inl over ↦ rw (over, write) (refl, refl, refl)
        | inr fits ↦ elim (Bool-cases (is_nil c.write_list)) [
          | inl empty ↦
              rw (fits, empty, write)
                (after_write-Wrote c (do_write o c b).0 b (do_write o c b).1 s
                  (is_nil-eq c.write_list empty) k fits (do_write-Sent c b k))
          | inr busy ↦
              rw (fits, busy, write)
                (
                  refl,
                  new_to_write_buf-Sound l c b s (omega arith)
                      (fits-WithinLimit l c (length b) fits),
                  new_to_write_buf-stream o c b s.all_ready,
                  refl,
                )
        ]
      ]
