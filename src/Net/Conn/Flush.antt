-- ===== src/Net/Conn/Flush.antt =====
-- conn_unix.go: flush, on a writing event.
use nbio.Base.{
  ℕ, zero, suc, ◌+◌, ◌-◌, true, List, [], ◌∷◌, Option, none, some, Bytes, length, drop, is_nil, leb,
  ltb, ◌==◌, if◌then◌else◌,
}
use nbio.Net.Conn.{
  ToWrite, buffer, file, sys_write, sys_sendfile, Answer, done, interrupted, again, broken, Kernel,
  Error, net_closed, errno, written, mod_write_event, release, Conn, Limits, count, system, emit,
  reset_read, close_without_lock,
}

pub data Flushed (K : Type 0) : Type 0 where
  flushed : Conn K → Option Error → Flushed K
  out_of_fuel : Flushed K

module _ {K : Type 0} (o : Kernel K) where
  -- writeBuffer, with `b` the bytes of the head from its offset on.
  abbrev pub wrote_buffer : Bytes → ℕ → Bytes → List ToWrite → Conn K × Answer → Conn K × Answer
  wrote_buffer d offset b ts (c, a) =
      if ltb 0 (count a)
      then (
        if length b == count a
            then emit (release (buffer d (offset + count a)))
                (record (emit (written (count a)) c) { left = c.left - count a; write_list = ts })
            else record (emit (written (count a)) c) {
              left = c.left - count a;
              write_list = buffer d (offset + count a) ∷ ts;
            },
        a,
      )
      else (c, a)

  -- One round of writeFile.
  abbrev pub wrote_file : ℕ → ℕ → ℕ → List ToWrite → Conn K × Answer → Conn K × Answer
  wrote_file fd offset remain ts (c, a) =
      if ltb 0 (count a)
      then (
        if leb remain (count a)
            then emit (release (file fd (offset + count a) (remain - count a)))
                (record (emit (written (count a)) c) { write_list = ts })
            else record (emit (written (count a)) c) {
              write_list = file fd (offset + count a) (remain - count a) ∷ ts;
            },
        a,
      )
      else (c, a)

  -- A file with nothing left is neither sent nor taken off the list.
  unfoldable pub flush_head : Conn K → ToWrite → List ToWrite → Conn K × Answer
  unfolding system
  flush_head c (buffer d offset) ts =
      wrote_buffer d offset (drop offset d) ts (system o c (sys_write (drop offset d)))
  flush_head c (file fd offset remain) ts =
      if ltb 0 remain
      then wrote_file fd offset remain ts (system o c (sys_sendfile fd offset remain))
      else (c, done 0)

  abbrev pub after_head : Limits → (Conn K → Flushed K) → Conn K × Answer → Flushed K
  after_head l next (c, done n) = next c
  after_head l next (c, interrupted) = next c
  after_head l next (c, again) = flushed (if l.is_oneshot then emit mod_write_event c else c) none
  after_head l next (c, broken e) =
      flushed (close_without_lock (record c { closed = true }) (some (errno e))) (some (errno e))

  abbrev pub flush_round : Limits → (Conn K → Flushed K) → Conn K → List ToWrite → Flushed K
  flush_round l next c [] = flushed (reset_read c) none
  flush_round l next c (t ∷ ts) = after_head l next (flush_head c t ts)

  -- `for len(c.writeList) > 0`. The loop of writeFile is part of it: it goes on with the same head
  -- until the file is sent or a call fails.
  unfoldable pub flush_loop : ℕ → Limits → Conn K → Flushed K
  unfolding flush_head reset_read close_without_lock
  flush_loop zero l c = out_of_fuel
  flush_loop (suc fuel) l c = flush_round l (flush_loop fuel l) c c.write_list

  unfoldable pub flush : ℕ → Limits → Conn K → Flushed K
  unfolding flush_loop
  flush fuel l c =
      if c.closed
      then flushed c (some net_closed)
      else if is_nil c.write_list
      then flushed c none
      else flush_loop fuel l c
