-- ===== src/Net/Conn/Vectored.antt =====
-- conn_unix.go: what Writev makes of the stream.
use nbio.Base.{
  is_nil-eq, ℕ, ◌+◌, ◌-◌, ◌≡◌, ◌⊎◌, inl, inr, refl, sym, ap, ◌∙◌, List, [], ◌∷◌, ◌++◌, Bytes,
  length, take, drop, ltb, arith, Bool-cases, append-nil, append_assoc, length-append, length-drop,
  is_nil, pos, none, take_whole,
}
use nbio.Net.Conn.{
  sys_writev, Answer, done, interrupted, again, broken, Kernel, Conn, Limits, written, count,
  concat, emit, system, new_to_write_buf, is_overflow,
}
use nbio.Net.Conn.{Event, error_of}
use nbio.Net.Conn.Write.{
  Returned, writev, not_nil, queue_all, queue_partial, after_writev, writev_call,
}
use nbio.Net.Conn.Sound.{
  Bounded, stream, WithinLimit, Sound, new_to_write_buf-stream, new_to_write_buf-Sound,
  fits-WithinLimit,
}
use nbio.Net.Conn.Writing.{Sent, Sent-Sound, empty_stream}
use nbio.Net.Conn.Slices.{
  through, AllFull, rest_of, not_nil_full, through-zero, take-rest_of, through_all,
}

module _ {K : Type 0} (o : Kernel K) (l : Limits) where
  queue_all-Sound :
      (bs : List Bytes) (c : Conn K)
      → Sound l c
      → AllFull bs
      → WithinLimit l (c.left + length (concat bs))
      → Sound l (queue_all o c bs)
        × (stream o (queue_all o c bs) ≡ stream o c ++ concat bs)
        × ((queue_all o c bs).typ ≡ c.typ)
  queue_all-Sound [] c s f w = (s, sym (append-nil (stream o c)), refl)
  queue_all-Sound (b ∷ bs) c s f w =
      let size = length-append b (concat bs) in
      let near : WithinLimit l (c.left + length b) = ground arith in
      let far : WithinLimit l (c.left + length b + length (concat bs)) = ground arith in
      let (sound, same, kind) =
        queue_all-Sound bs (new_to_write_buf c b) (new_to_write_buf-Sound l c b s f.0 near) f.1
          far in
      (
        sound,
        same
            ∙ ap (λ t. t ++ concat bs) (new_to_write_buf-stream o c b s.all_ready)
            ∙ append_assoc (stream o c) b (concat bs),
        kind,
      )

  emit-Sound : (e : Event) (c : Conn K) → Sound l c → Sound l (emit e c)
  emit-Sound e c s = record {
    is_open = s.is_open;
    all_ready = s.all_ready;
    counted = s.counted;
    limited = s.limited;
  }

  -- The loop queues the rest of one buffer at most.
  queue_partial-Sound :
      (bs : List Bytes) (c : Conn K) (n : ℕ)
      → Sound l c
      → WithinLimit l (c.left + length (concat bs))
      → Sound l (queue_partial o c bs n)
        × (stream o (queue_partial o c bs n) ≡ stream o c ++ rest_of bs n)
        × ((queue_partial o c bs n).typ ≡ c.typ)
  unfolding queue_partial
  queue_partial-Sound [] c n s w = (s, sym (append-nil (stream o c)), refl)
  queue_partial-Sound (b ∷ bs) c n s w =
      let size = length-append b (concat bs) in
      let left = length-drop n b in
      elim (Bool-cases (ltb 0 n)) [
        | inl some_left ↦ elim (Bool-cases (ltb n (length b))) [
          | inl inside ↦
              let q = emit (written n) c in
              let sound = emit-Sound (written n) c s in
              rw (some_left, inside, queue_partial)
                (
                  new_to_write_buf-Sound l q (drop n b) sound (ground arith) (ground arith),
                  new_to_write_buf-stream o q (drop n b) s.all_ready,
                  refl,
                )
          | inr past ↦
              rw (some_left, past, queue_partial)
                (queue_partial-Sound bs (emit (written (length b)) c) (n - length b)
                  (emit-Sound (written (length b)) c s) (ground arith))
        ]
        | inr gone ↦ rw (gone, queue_partial) (s, sym (append-nil (stream o c)), refl)
      ]

-- What Writev takes on: all up to the end of the buffer in which the kernel stopped, though it returns
-- only what the kernel took.
abbrev pub accepted : List Bytes → Returned → Bytes
accepted bs (pos n, none) = through bs n
accepted bs _ = []

module _ {K : Type 0} (o : Kernel K) (bounded : Bounded o) (l : Limits) where
  pub record Wrotev (c : Conn K) (bs : List Bytes) (q : Conn K) (r : Returned) : Type 0 where
    pub sound : Sound l q
    pub same : stream o q ≡ stream o c ++ accepted bs r
    pub typ_same : q.typ ≡ c.typ
    pub sent_same : (r.1 ≡ none) ⊎ (q.sent ≡ c.sent)

  writev_call-Sent :
      (c : Conn K) (bs : List Bytes)
      → AllFull bs
      → Sent c (concat bs) (writev_call o c (not_nil bs))
  unfolding system
  writev_call-Sent c bs f =
      rw (not_nil_full bs f) (ground (arith, bounded (sys_writev bs) c.kernel, append-nil c.sent))

  after_writev-Wrotev :
      (c q : Conn K) (bs : List Bytes) (a : Answer)
      → Sound l c
      → c.write_list ≡ []
      → AllFull bs
      → WithinLimit l (c.left + length (concat bs))
      → Sent c (concat bs) (q, a)
      → Wrotev c bs (after_writev o bs (q, a)).0 (after_writev o bs (q, a)).1
  after_writev-Wrotev c q bs a s empty full w t =
      let n = count a in
      let sound = Sent-Sound o bounded l c q (concat bs) a s empty t in
      let now : stream o q ≡ c.sent ++ take n (concat bs) =
        empty_stream o bounded l q (t.list_same ∙ empty) ∙ t.took in
      let before : stream o c ≡ c.sent = empty_stream o bounded l c empty in
      elim (Bool-cases (ltb 0 n)) [
        | inl some_bytes ↦ elim (Bool-cases (ltb n (length (concat bs)))) [
          | inl part ↦
              let limit : WithinLimit l (q.left + length (concat bs)) =
                ground (arith, t.left_same) in
              let (sound', same, kind) = queue_partial-Sound o l bs q n sound limit in
              rw (some_bytes, part)
                (record {
                  sound = sound';
                  same =
                      same
                      ∙ ap (λ x. x ++ rest_of bs n) now
                      ∙ append_assoc c.sent (take n (concat bs)) (rest_of bs n)
                      ∙ ap (λ x. c.sent ++ x) (take-rest_of bs n)
                      ∙ ap (λ x. x ++ through bs n) (sym before);
                  typ_same = kind ∙ t.typ_same;
                  sent_same = inl refl;
                })
          | inr all ↦
              let whole = through_all bs n full (ground arith) in
              let took_all : take n (concat bs) ≡ concat bs =
                take_whole n (concat bs) (ground arith) in
              rw (some_bytes, all)
                (record {
                  sound = sound;
                  same =
                      now
                      ∙ ap (λ x. c.sent ++ x) (took_all ∙ sym whole)
                      ∙ ap (λ x. x ++ through bs n) (sym before);
                  typ_same = t.typ_same;
                  sent_same = inl refl;
                })
        ]
        | inr nothing ↦
            let zero_taken : n ≡ 0 = ground arith in
            let sent : q.sent ≡ c.sent = rw zero_taken at t.took ∙ append-nil c.sent in
            rw nothing (record {
              sound = sound;
              same =
                  empty_stream o bounded l q (t.list_same ∙ empty)
                  ∙ sent
                  ∙ sym before
                  ∙ sym (append-nil (stream o c))
                  ∙ ap (λ x. stream o c ++ x) (sym (accepted_none bs a));
              typ_same = t.typ_same;
              sent_same = inr sent;
            })
      ]
    where
      accepted_none : (bs : List Bytes) (a : Answer) → accepted bs (pos 0, error_of a) ≡ []
      accepted_none bs (done n) = through-zero bs
      accepted_none bs interrupted = refl
      accepted_none bs again = refl
      accepted_none bs (broken e) = refl

  -- writev of slices that are not empty, on an open connection that is sound, takes on nothing
  -- with an error, and else the slices up to the end of the one in which its n-th byte stands, if
  -- it returns n; those are behind what was sent and queued, and the bytes then queued keep to the
  -- limit. The kernel takes no more bytes than it is given.
  pub writev-Wrotev :
      (c : Conn K) (bs : List Bytes)
      → Sound l c
      → AllFull bs
      → Wrotev c bs (writev o l c bs).0 (writev o l c bs).1
  unfolding writev
  writev-Wrotev c bs s full = elim (Bool-cases (is_overflow l c (length (concat bs)))) [
    | inl over ↦
        rw (over, writev)
          (record {
            sound = s;
            same = sym (append-nil (stream o c));
            typ_same = refl;
            sent_same = inr refl;
          })
    | inr fits ↦
        let w = fits-WithinLimit l c (length (concat bs)) fits in
        elim (Bool-cases (is_nil c.write_list)) [
          | inl empty ↦
              let (q, a) = writev_call o c (not_nil bs) in
              rw (fits, empty, writev)
                (after_writev-Wrotev c q bs a s (is_nil-eq c.write_list empty) full w
                  (writev_call-Sent c bs full))
          | inr busy ↦
              let (sound, same, kind) = queue_all-Sound o l bs c s full w in
              rw (fits, busy, writev)
                (record {
                  sound = sound;
                  same =
                      same
                      ∙ ap (λ x. stream o c ++ x)
                          (sym (through_all bs (length (concat bs)) full (omega arith)));
                  typ_same = kind;
                  sent_same = inl refl;
                })
        ]
  ]
