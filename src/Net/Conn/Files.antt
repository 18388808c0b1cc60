-- ===== src/Net/Conn/Files.antt =====
-- conn_unix.go: Write and Writev leave the queued files alone.
use nbio.Base.{ℕ, ◌-◌, ◌≡◌, List, [], ◌∷◌, Bytes, length, drop, arith}
use nbio.Net.Conn.{
  ToWrite, buffer, file, Kernel, Answer, done, interrupted, again, broken, count, emit, written,
  system, Conn, Limits, queue, new_to_write_buf,
}
use nbio.Net.Conn.Write.{
  after_write, write, writev, queue_all, queue_partial, do_write, writev_call, not_nil,
}
use nbio.Net.Conn.Ending.{AllThere}

-- Queueing bytes leaves the files as they are.
module _ {K : Type 0} (o : Kernel K) where
  queue-AllThere : (ts : List ToWrite) (b : Bytes) → AllThere o ts → AllThere o (queue ts b)
  unfolding queue
  queue-AllThere [] b h = tt
  queue-AllThere (buffer d n ∷ []) b h = ground arith
  queue-AllThere (file fd n r ∷ []) b h = h
  queue-AllThere (buffer d n ∷ u ∷ ts) b h = queue-AllThere (u ∷ ts) b h
  queue-AllThere (file fd n r ∷ u ∷ ts) b h = (h.0, queue-AllThere (u ∷ ts) b h.1)

  do_write_list : (c : Conn K) (b : Bytes) → (do_write o c b).0.write_list ≡ c.write_list
  unfolding do_write system
  do_write_list c b = ground arith

  after_write-AllThere :
      (b : Bytes) (c : Conn K) (a : Answer)
      → AllThere o c.write_list
      → AllThere o (after_write o b (c, a)).0.write_list
  after_write-AllThere b c (broken e) h = h
  after_write-AllThere b c (done n) h = ground (arith, queue-AllThere c.write_list (drop n b))
  after_write-AllThere b c interrupted h = ground (arith, queue-AllThere c.write_list b)
  after_write-AllThere b c again h = ground (arith, queue-AllThere c.write_list b)

  pub write-AllThere :
      (l : Limits) (c : Conn K) (b : Bytes)
      → AllThere o c.write_list
      → AllThere o (write o l c b).0.write_list
  unfolding write
  write-AllThere l c b h =
      let (q, a) = do_write o c b in
      let there : AllThere o q.write_list = rw (do_write_list c b) h in
      ground (arith, after_write-AllThere b q a there, queue-AllThere c.write_list b)

  queue_all-AllThere :
      (bs : List Bytes) (c : Conn K)
      → AllThere o c.write_list
      → AllThere o (queue_all o c bs).write_list
  queue_all-AllThere [] c h = h
  queue_all-AllThere (b ∷ bs) c h =
      queue_all-AllThere bs (new_to_write_buf c b) (queue-AllThere c.write_list b h)

  queue_partial-AllThere :
      (bs : List Bytes) (c : Conn K) (n : ℕ)
      → AllThere o c.write_list
      → AllThere o (queue_partial o c bs n).write_list
  unfolding queue_partial
  queue_partial-AllThere [] c n h = h
  queue_partial-AllThere (b ∷ bs) c n h = ground (
    arith,
    queue-AllThere c.write_list (drop n b),
    queue_partial-AllThere bs (emit (written (length b)) c) (n - length b) h,
  )

  writev_call_list :
      (c : Conn K) (bs : List Bytes) → (writev_call o c bs).0.write_list ≡ c.write_list
  unfolding system
  writev_call_list c bs = ground arith

  pub writev-AllThere :
      (l : Limits) (c : Conn K) (bs : List Bytes)
      → AllThere o c.write_list
      → AllThere o (writev o l c bs).0.write_list
  unfolding writev
  writev-AllThere l c bs h =
      let (q, a) = writev_call o c (not_nil bs) in
      let there : AllThere o q.write_list = rw (writev_call_list c (not_nil bs)) h in
      ground (arith, queue_partial-AllThere bs q (count a) there, queue_all-AllThere bs c h)
