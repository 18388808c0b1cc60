-- ===== src/Net/Conn/Flushing.antt =====
-- conn_unix.go: flush sends what is queued, in order, and ends.
use nbio.Base.{
  ℕ, zero, suc, ◌+◌, ◌-◌, ◌≤◌, ◌<◌, ◌≡◌, inl, inr, refl, sym, ap, ◌∙◌, true, List, [], ◌∷◌, ◌++◌,
  Bytes, length, take, drop, leb, ltb, ◌==◌, arith, Bool-cases, append_assoc, length-append,
  length-drop, length-take, take-append-drop, drop_add, take_whole, drop_whole,
}
use nbio.Net.Conn.{
  ToWrite, buffer, file, Call, sys_write, sys_sendfile, Answer, Kernel, Conn, Limits, count,
  payload, system,
}
use nbio.Net.Conn.Flush.{wrote_buffer, wrote_file, flush_head}
use nbio.Net.Conn.Writing.{Sent}
use nbio.Net.Conn.Sound.{Bounded, pending, stream, AllReady, queued, WithinLimit, Sound}

drop-take : (n r : ℕ) (xs : Bytes) → drop n (take r xs) ≡ take (r - n) (drop n xs)
drop-take zero r xs = ap (λ k. take k xs) (omega arith)
drop-take (suc n) zero [] = let gone : 0 - suc n ≡ 0 = omega arith in rw gone refl
drop-take (suc n) zero (x ∷ xs) = let gone : 0 - suc n ≡ 0 = omega arith in rw gone refl
drop-take (suc n) (suc r) [] = sym (take_whole {A = ℕ} (suc r - suc n) [] (omega arith))
drop-take (suc n) (suc r) (x ∷ xs) = drop-take n r xs ∙ ap (λ k. take k (drop n xs)) (omega arith)

-- The head after a write of `n` bytes.
pub record Headed {K : Type 0} (o : Kernel K) (l : Limits) (c : Conn K) (r : Conn K × Answer)
    : Type 0 where
  pub sound : Sound l r.0
  pub same : stream o r.0 ≡ stream o c
  pub typ_same : r.0.typ ≡ c.typ
  pub armed_same : r.0.is_w_added ≡ c.is_w_added
  pub shorter : length (pending o r.0.write_list) + count r.1 ≡ length (pending o c.write_list)

-- The kernel has taken the first bytes `take n b` of the entry in front of `ts`, `b` what it had to send.
record Part {K : Type 0} (o : Kernel K) (c q : Conn K) (b : Bytes) (ts : List ToWrite) (n : ℕ)
    : Type 0 where
  took : q.sent ≡ c.sent ++ take n b
  before : pending o c.write_list ≡ b ++ pending o ts
  after : pending o q.write_list ≡ drop n b ++ pending o ts
  bound : n ≤ length b

module _ {K : Type 0} (o : Kernel K) where
  Part-same :
      (c q : Conn K) (b : Bytes) (ts : List ToWrite) (n : ℕ)
      → Part o c q b ts n
      → (stream o q ≡ stream o c)
        × (length (pending o q.write_list) + n ≡ length (pending o c.write_list))
  Part-same c q b ts n p = (
    rw (p.took, p.after, p.before)
        (append_assoc c.sent (take n b) (drop n b ++ pending o ts)
          ∙ ap (λ t. c.sent ++ t)
              (sym (append_assoc (take n b) (drop n b) (pending o ts))
                ∙ ap (λ t. t ++ pending o ts) (take-append-drop n b))),
    omega (
      arith,
      ap length p.before,
      ap length p.after,
      length-append b (pending o ts),
      length-append (drop n b) (pending o ts),
      length-drop n b,
      p.bound,
    ),
  )

  module _ (bounded : Bounded o) (l : Limits) where
    Part-Headed :
        (c q : Conn K) (b : Bytes) (ts : List ToWrite) (a : Answer)
        → Part o c q b ts (count a)
        → Sound l q
        → q.typ ≡ c.typ
        → q.is_w_added ≡ c.is_w_added
        → Headed o l c (q, a)
    Part-Headed c q b ts a p s k w = record {
      sound = s;
      same = (Part-same c q b ts (count a) p).0;
      typ_same = k;
      armed_same = w;
      shorter = (Part-same c q b ts (count a) p).1;
    }

    system-Sent : (c : Conn K) (call : Call) → Sent c (payload o call) (system o c call)
    unfolding system
    system-Sent c call = record {
      took = refl;
      bound = bounded call c.kernel;
      list_same = refl;
      left_same = refl;
      closed_same = refl;
      typ_same = refl;
      armed_same = refl;
    }

    -- Nothing was taken.
    idle-Headed :
        (c q : Conn K) (b : Bytes) (t : ToWrite) (ts : List ToWrite) (a : Answer)
        → c.write_list ≡ t ∷ ts
        → pending o (t ∷ ts) ≡ b ++ pending o ts
        → Sound l c
        → Sent c b (q, a)
        → count a ≡ 0
        → Headed o l c (q, a)
    idle-Headed c q b t ts a e f s r zero_taken =
        Part-Headed c q b ts a
          (rw zero_taken (record {
            took = rw zero_taken at r.took;
            before = ap (pending o) e ∙ f;
            after = ap (pending o) (r.list_same ∙ e) ∙ f;
            bound = omega arith;
          }))
          (record {
            is_open = r.closed_same ∙ s.is_open;
            all_ready = rw (r.list_same) s.all_ready;
            counted = r.left_same ∙ s.counted ∙ ap queued (sym r.list_same);
            limited = ground (arith, s.limited, r.left_same);
          })
          r.typ_same r.armed_same

    wrote_buffer-Headed :
        (c q : Conn K) (d : Bytes) (offset : ℕ) (ts : List ToWrite) (a : Answer)
        → c.write_list ≡ buffer d offset ∷ ts
        → Sound l c
        → Sent c (drop offset d) (q, a)
        → Headed o l c (wrote_buffer o d offset (drop offset d) ts (q, a))
    wrote_buffer-Headed c q d offset ts a e s r =
        let n = count a in
        let b = drop offset d in
        let size = length-drop offset d in
        let ready : AllReady (buffer d offset ∷ ts) = rw e at s.all_ready in
        let counted : c.left ≡ (length d - offset) + queued ts = s.counted ∙ ap queued e in
        let limited : WithinLimit l (q.left - n) = ground (arith, s.limited, r.left_same) in
        elim (Bool-cases (ltb 0 n)) [
          | inl some_bytes ↦ elim (Bool-cases (length b == n)) [
            | inl all ↦
                let whole : drop n b ≡ [] = drop_whole n b (ground arith) in
                rw (some_bytes, all)
                  (Part-Headed c _ b ts a
                    (record {
                      took = r.took;
                      before = ap (pending o) e;
                      after = rw whole refl;
                      bound = r.bound;
                    })
                    (record {
                      is_open = r.closed_same ∙ s.is_open;
                      all_ready = ready.1;
                      counted = ground (arith, counted, r.left_same);
                      limited = limited;
                    })
                    r.typ_same r.armed_same)
            | inr part ↦
                let less : n < length b = ground (arith, r.bound) in
                rw (some_bytes, part)
                  (Part-Headed c _ b ts a
                    (record {
                      took = r.took;
                      before = ap (pending o) e;
                      after = ap (λ t. t ++ pending o ts) (drop_add offset n d);
                      bound = r.bound;
                    })
                    (record {
                      is_open = r.closed_same ∙ s.is_open;
                      all_ready = (omega arith, ready.1);
                      counted = omega (arith, counted, r.left_same);
                      limited = limited;
                    })
                    r.typ_same r.armed_same)
          ]
          | inr nothing ↦
              rw nothing (idle-Headed c q b (buffer d offset) ts a e refl s r (ground arith))
        ]

    wrote_file-Headed :
        (c q : Conn K) (fd offset remain : ℕ) (ts : List ToWrite) (a : Answer)
        → c.write_list ≡ file fd offset remain ∷ ts
        → Sound l c
        → Sent c (take remain (drop offset (o.file_of fd))) (q, a)
        → Headed o l c (wrote_file o fd offset remain ts (q, a))
    wrote_file-Headed c q fd offset remain ts a e s r =
        let n = count a in
        let f = drop offset (o.file_of fd) in
        let b = take remain f in
        let size = length-take remain f in
        let ready : AllReady (file fd offset remain ∷ ts) = rw e at s.all_ready in
        let counted : c.left ≡ queued ts = s.counted ∙ ap queued e in
        let limited : WithinLimit l q.left = ground (arith, s.limited, r.left_same) in
        elim (Bool-cases (ltb 0 n)) [
          | inl some_bytes ↦ elim (Bool-cases (leb remain n)) [
            | inl all ↦
                let whole : drop n b ≡ [] = drop_whole n b (ground arith) in
                rw (some_bytes, all)
                  (Part-Headed c _ b ts a
                    (record {
                      took = r.took;
                      before = ap (pending o) e;
                      after = rw whole refl;
                      bound = r.bound;
                    })
                    (record {
                      is_open = r.closed_same ∙ s.is_open;
                      all_ready = ready.1;
                      counted = r.left_same ∙ counted;
                      limited = limited;
                    })
                    r.typ_same r.armed_same)
            | inr part ↦
                let rest : take (remain - n) (drop (offset + n) (o.file_of fd)) ≡ drop n b =
                  ap (take (remain - n)) (drop_add offset n (o.file_of fd))
                  ∙ sym (drop-take n remain f) in
                rw (some_bytes, part)
                  (Part-Headed c _ b ts a
                    (record {
                      took = r.took;
                      before = ap (pending o) e;
                      after = ap (λ t. t ++ pending o ts) rest;
                      bound = r.bound;
                    })
                    (record {
                      is_open = r.closed_same ∙ s.is_open;
                      all_ready = (ground arith, ready.1);
                      counted = r.left_same ∙ counted;
                      limited = limited;
                    })
                    r.typ_same r.armed_same)
          ]
          | inr nothing ↦
              rw nothing (idle-Headed c q b (file fd offset remain) ts a e refl s r (ground arith))
        ]

    -- A round of flush on the head of the queue.
    pub flush_head-Headed :
        (c : Conn K) (t : ToWrite) (ts : List ToWrite)
        → c.write_list ≡ t ∷ ts
        → Sound l c
        → Headed o l c (flush_head o c t ts)
    unfolding flush_head
    flush_head-Headed c (buffer d offset) ts e s =
        let (q, a) = system o c (sys_write (drop offset d)) in
        wrote_buffer-Headed c q d offset ts a e s (system-Sent c (sys_write (drop offset d)))
    flush_head-Headed c (file fd offset remain) ts e s =
        let ready : AllReady (file fd offset remain ∷ ts) = rw e at s.all_ready in
        let some_left : ltb 0 remain ≡ true = ground (arith, ready.0) in
        let (q, a) = system o c (sys_sendfile fd offset remain) in
        rw some_left (
          wrote_file-Headed c q fd offset remain ts a e s
            (system-Sent c (sys_sendfile fd offset remain)))
