-- ===== src/Net/Conn/Order.antt =====
-- conn_unix.go: Write, Writev and writing events in any order, from any answers of the kernel.
use nbio.Base.{
  ℕ, zero, suc, ◌+◌, ◌≤◌, ◌≡◌, inl, inr, refl, sym, ap, ◌∙◌, true, false, List, [], ◌∷◌, ◌++◌,
  Bytes, length, arith, append-nil, append_assoc, pos, minus_one, Option, none, some,
}
use nbio.Net.Conn.{
  is_stream, ToWrite, Answer, done, interrupted, again, broken, Kernel, Conn, Limits, Error,
  net_closed,
}
use nbio.Net.Conn.Write.{Returned, write, writev, write_or_writev, settle, conn_write, conn_writev}
use nbio.Net.Conn.Flush.{
  Flushed, flushed, out_of_fuel, after_head, flush_head, flush_round, flush_loop, flush,
}
use nbio.Net.Conn.Sound.{Bounded, pending}
use nbio.Net.Conn.Writing.{write-Wrote}
use nbio.Net.Conn.Slices.{AllFull}
use nbio.Net.Conn.Vectored.{accepted, writev-Wrotev}
use nbio.Net.Conn.Ending.{Progresses, Flushes, flush-Flushes}
use nbio.Net.Conn.Files.{write-AllThere, writev-AllThere}
use nbio.Net.Conn.Session.{taken_by, Alive, InOrder, Wrote-InOrder, Wrotev-InOrder}

-- What Writev takes on of its slices; one slice it passes to write.
abbrev pub accepted_by : List Bytes → Returned → Bytes
accepted_by (b ∷ []) r = taken_by b r
accepted_by bs r = accepted bs r

module _ {K : Type 0} (o : Kernel K) (l : Limits) where
  -- One call on the connection, with the bytes that it takes on.
  pub data Step : Conn K → Bytes → Conn K → Type 0 where
    write_step :
        (c : Conn K) (b : Bytes) → Step c (taken_by b (conn_write o l c b).1) (conn_write o l c b).0
    writev_step :
        (c : Conn K) (bs : List Bytes)
        → AllFull bs
        → Step c (accepted_by bs (conn_writev o l c bs).1) (conn_writev o l c bs).0
    flush_step :
        (c q : Conn K) (e : Option Error) (fuel : ℕ) → flush o fuel l c ≡ flushed q e → Step c [] q

  -- The calls in their order, with all the bytes that they take on.
  pub data Reach (c : Conn K) : Bytes → Conn K → Type 0 where
    start : Reach c [] c
    later : {q p : Conn K} {bs b : Bytes} → Reach c bs q → Step q b p → Reach c (bs ++ b) p

abbrev conn_of : {K : Type 0} → Conn K → Flushed K → Conn K
conn_of c (flushed q e) = q
conn_of c out_of_fuel = c

flushed_conn : {K : Type 0} (c q : Conn K) (e f : Option Error) → flushed c e ≡ flushed q f → c ≡ q
flushed_conn c q e f h = ap (conn_of c) h

module _ {K : Type 0} (o : Kernel K) (bounded : Bounded o) (patience : K → ℕ)
    (progresses : Progresses o patience) (l : Limits) where
  write-open :
      (c : Conn K) (b : Bytes) → c.closed ≡ false → conn_write o l c b ≡ settle o (write o l c b)
  unfolding conn_write
  write-open c b e = ground arith

  write-closed :
      (c : Conn K) (b : Bytes)
      → c.closed ≡ true
      → conn_write o l c b ≡ (c, (minus_one, some net_closed))
  unfolding conn_write
  write-closed c b e = ground arith

  writev-open :
      (c : Conn K) (bs : List Bytes)
      → c.closed ≡ false
      → conn_writev o l c bs ≡ settle o (write_or_writev o l c bs)
  unfolding conn_writev
  writev-open c bs e = ground arith

  writev-closed :
      (c : Conn K) (bs : List Bytes)
      → c.closed ≡ true
      → conn_writev o l c bs ≡ (c, (pos 0, some net_closed))
  unfolding conn_writev
  writev-closed c bs e = ground arith

  after_head_more :
      (next next' : Conn K → Flushed K) (r : Conn K × Answer) (q : Conn K) (e : Option Error)
      → ((c : Conn K) → next c ≡ flushed q e → next' c ≡ flushed q e)
      → after_head o l next r ≡ flushed q e
      → after_head o l next' r ≡ flushed q e
  after_head_more next next' (c, done n) q e more h = more c h
  after_head_more next next' (c, interrupted) q e more h = more c h
  after_head_more next next' (c, again) q e more h = h
  after_head_more next next' (c, broken x) q e more h = h

  round_more :
      (next next' : Conn K → Flushed K) (c q : Conn K) (ts : List ToWrite) (e : Option Error)
      → ((c : Conn K) → next c ≡ flushed q e → next' c ≡ flushed q e)
      → flush_round o l next c ts ≡ flushed q e
      → flush_round o l next' c ts ≡ flushed q e
  round_more next next' c q [] e more h = h
  round_more next next' c q (t ∷ ts) e more h =
      after_head_more next next' (flush_head o c t ts) q e more h

  -- Once flush ends, more fuel changes nothing.
  flush_loop_more :
      (fuel more : ℕ) (c q : Conn K) (e : Option Error)
      → fuel ≤ more
      → flush_loop o fuel l c ≡ flushed q e
      → flush_loop o more l c ≡ flushed q e
  unfolding flush_loop
  flush_loop_more zero more c q e w h = absurd (cc)
  flush_loop_more (suc fuel) zero c q e w h = absurd (omega arith)
  flush_loop_more (suc fuel) (suc more) c q e w h =
      round_more (flush_loop o fuel l) (flush_loop o more l) c q c.write_list e
        (λ p. flush_loop_more fuel more p q e (omega arith)) h

  flush_more :
      (fuel more : ℕ) (c q : Conn K) (e : Option Error)
      → fuel ≤ more
      → flush o fuel l c ≡ flushed q e
      → flush o more l c ≡ flushed q e
  unfolding flush
  flush_more fuel more c q e w h = ground (arith, flush_loop_more fuel more c q e w)

  flush-closed :
      (c : Conn K) (fuel : ℕ) → c.closed ≡ true → flush o fuel l c ≡ flushed c (some net_closed)
  unfolding flush
  flush-closed c fuel e = ground arith

  Flushes-InOrder :
      (total : Bytes) (c q : Conn K) (e : Option Error)
      → Alive o l total c
      → Flushes o bounded patience progresses l c (flushed q e)
      → InOrder o l total q
  Flushes-InOrder total c q none s (sound, armed, same, kind, there) = inl (record {
    sound = sound;
    armed = armed;
    stream_typ = ap is_stream kind ∙ s.stream_typ;
    there = there;
    same = same ∙ s.same;
  })
  Flushes-InOrder total c q (some e) s (closed, gone, (rest, same)) =
      inr (record { closed = closed; no_list = gone; rest = rest; same = same ∙ s.same })

  -- A flush that ends leaves the connection in order.
  flush-InOrder :
      (total : Bytes) (c q : Conn K) (e : Option Error) (fuel : ℕ)
      → flush o fuel l c ≡ flushed q e
      → InOrder o l total c
      → InOrder o l total q
  flush-InOrder total c q e fuel h (inl s) =
      let more = fuel + suc (length (pending o c.write_list) + patience c.kernel) in
      Flushes-InOrder total c q e s (
        rw (flush_more fuel more c q e (omega arith) h) at (
          flush-Flushes o bounded patience progresses l more c (omega arith) s.sound s.there
            s.armed))
  flush-InOrder total c q e fuel h (inr d) =
      rw (sym (flushed_conn c q (some net_closed) e (sym (flush-closed c fuel d.closed) ∙ h)))
        (inr d)

  settle_returned : (x : Conn K × Returned) → (settle o x).1 ≡ x.1
  settle_returned (q, (n, e)) = ground arith

  write-InOrder :
      (total : Bytes) (c : Conn K) (b : Bytes)
      → Alive o l total c
      → InOrder o l (total ++ taken_by b (settle o (write o l c b)).1) (settle o (write o l c b)).0
  write-InOrder total c b s =
      let x = write o l c b in
      rw (settle_returned x) (
        Wrote-InOrder o bounded l c x.0 b total x.1 s (write-AllThere o l c b s.there)
          (write-Wrote o bounded l c b s.sound s.stream_typ))

  several-InOrder :
      (total : Bytes) (c : Conn K) (bs : List Bytes)
      → AllFull bs
      → Alive o l total c
      → InOrder o l
          (total ++ accepted bs (settle o (writev o l c bs)).1)
          (settle o (writev o l c bs)).0
  several-InOrder total c bs full s =
      let x = writev o l c bs in
      rw (settle_returned x) (
        Wrotev-InOrder o bounded l c x.0 bs total x.1 s (writev-AllThere o l c bs s.there)
          (writev-Wrotev o bounded l c bs s.sound full))

  slices-InOrder :
      (total : Bytes) (c : Conn K) (bs : List Bytes)
      → AllFull bs
      → Alive o l total c
      → InOrder o l
          (total ++ accepted_by bs (settle o (write_or_writev o l c bs)).1)
          (settle o (write_or_writev o l c bs)).0
  slices-InOrder total c [] full s = several-InOrder total c [] full s
  slices-InOrder total c (b ∷ []) full s = write-InOrder total c b s
  slices-InOrder total c (b ∷ d ∷ bs) full s = several-InOrder total c (b ∷ d ∷ bs) full s

  none_accepted : (bs : List Bytes) (e : Error) → accepted_by bs (pos 0, some e) ≡ []
  none_accepted [] e = refl
  none_accepted (b ∷ []) e = refl
  none_accepted (b ∷ d ∷ bs) e = refl

  pub Step-InOrder :
      (total : Bytes) {c : Conn K} {b : Bytes} {q : Conn K}
      → Step o l c b q
      → InOrder o l total c
      → InOrder o l (total ++ b) q
  Step-InOrder total (write_step c b) (inl s) =
      rw (write-open c b s.sound.is_open) (write-InOrder total c b s)
  Step-InOrder total (write_step c b) (inr d) =
      rw (write-closed c b d.closed, append-nil total) (inr d)
  Step-InOrder total (writev_step c bs full) (inl s) =
      rw (writev-open c bs s.sound.is_open) (slices-InOrder total c bs full s)
  Step-InOrder total (writev_step c bs full) (inr d) =
      rw (writev-closed c bs d.closed, none_accepted bs net_closed, append-nil total) (inr d)
  Step-InOrder total (flush_step c q e fuel f) h =
      rw (append-nil total) (flush-InOrder total c q e fuel f h)

  -- From a connection that is in order, any calls of Write and Writev, of slices that are not
  -- empty, and any writing events, in any order, leave it in order: either it is open, what was
  -- sent and what is queued are together all bytes that were taken on, call by call in that order,
  -- `left` counts the bytes queued and keeps to the limit, and while some are queued the poller is
  -- asked for a writing event; or it is closed, and what was sent is the first part of them. The
  -- kernel takes no more bytes than it is given, takes some if it takes any, and is interrupted
  -- only so often.
  pub Reach-InOrder :
      (total : Bytes) (c : Conn K) {bs : Bytes} {q : Conn K}
      → InOrder o l total c
      → Reach o l c bs q
      → InOrder o l (total ++ bs) q
  Reach-InOrder total c h start = rw (append-nil total) h
  Reach-InOrder total c h (later {q = p} {bs = t} {b = b} r s) =
      rw (sym (append_assoc total t b)) (Step-InOrder (total ++ t) s (Reach-InOrder total c h r))
