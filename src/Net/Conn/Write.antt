-- ===== src/Net/Conn/Write.antt =====
-- conn_unix.go: Write and Writev, with write, writev and doWrite behind the lock.
use nbio.Base.{
  ℕ, ◌-◌, Bool, true, false, not, ◌&&◌, List, [], ◌∷◌, Option, none, some, Bytes, length, drop,
  is_nil, ltb, if◌then◌else◌, ℤ, pos, minus_one,
}
use nbio.Net.Conn.{
  ConnType, tcp, unix, udp_server, udp_client_from_read, udp_client_from_dial, Call, sys_write,
  sys_sendto, sys_writev, Answer, done, broken, Kernel, Error, overflow, net_closed, eintr, eagain,
  errno, written, Conn, Limits, count, error_of, is_stream, concat, system, emit, mod_write,
  is_overflow, new_to_write_buf, close_without_lock, queue,
}

-- (n, err)
abbrev pub Returned : Type 0
Returned = ℤ × Option Error

-- `!errors.Is(err, syscall.EINTR) && !errors.Is(err, syscall.EAGAIN)` of an error.
abbrev pub is_fatal : Option Error → Bool
is_fatal none = false
is_fatal (some eintr) = false
is_fatal (some eagain) = false
is_fatal (some _) = true

abbrev pub is_from_read : ConnType → Bool
is_from_read udp_client_from_read = true
is_from_read _ = false

abbrev pub not_nil : List Bytes → List Bytes
not_nil [] = []
not_nil (b ∷ bs) = if is_nil b then not_nil bs else b ∷ not_nil bs

module _ {K : Type 0} (o : Kernel K) where
  abbrev pub call_of : ConnType → Bytes → Option Call
  call_of tcp b = some (sys_write b)
  call_of unix b = some (sys_write b)
  call_of udp_client_from_dial b = some (sys_write b)
  call_of udp_client_from_read b = some (sys_sendto b)
  call_of udp_server b = none

  abbrev pub notify : Conn K × Answer → Conn K × Answer
  notify (c, a) = (if ltb 0 (count a) then emit (written (count a)) c else c, a)

  abbrev pub do_call : Conn K → Option Call → Conn K × Answer
  do_call c none = (c, done 0)
  do_call c (some call) = notify (system o c call)

  -- A server's socket writes nothing.
  unfoldable pub do_write : Conn K → Bytes → Conn K × Answer
  unfolding system
  do_write c b = do_call c (call_of c.typ b)

  -- What write does once the kernel has taken `n` bytes.
  abbrev pub keep_rest : Conn K → Bytes → ℕ → Conn K × Returned
  keep_rest c b n = (
    if ltb 0 (length b - n) && is_stream c.typ then new_to_write_buf c (drop n b) else c,
    (pos (length b), none),
  )

  abbrev pub after_write : Bytes → Conn K × Answer → Conn K × Returned
  after_write b (c, broken e) =
      (c, (if is_from_read c.typ then pos 0 else minus_one, some (errno e)))
  after_write b (c, a) = keep_rest c b (count a)

  unfoldable pub write : Limits → Conn K → Bytes → Conn K × Returned
  unfolding is_overflow do_write queue
  write l c b =
      if is_nil b
      then (c, (pos 0, none))
      else if is_overflow l c (length b)
      then (c, (minus_one, some overflow))
      else if is_nil c.write_list
      then after_write b (do_write c b)
      else (new_to_write_buf c b, (pos (length b), none))

  abbrev pub queue_all : Conn K → List Bytes → Conn K
  queue_all c [] = c
  queue_all c (b ∷ bs) = queue_all (new_to_write_buf c b) bs

  -- `for i := 0; i < len(in) && n > 0; i++`: the loop ends with the buffer in which the write ended.
  unfoldable pub queue_partial : Conn K → List Bytes → ℕ → Conn K
  unfolding queue
  queue_partial c [] n = c
  queue_partial c (b ∷ bs) n =
      if not (ltb 0 n)
      then c
      else if ltb n (length b)
      then new_to_write_buf (emit (written n) c) (drop n b)
      else queue_partial (emit (written (length b)) c) bs (n - length b)

  abbrev pub after_writev : List Bytes → Conn K × Answer → Conn K × Returned
  after_writev bs (c, a) =
      if ltb 0 (count a)
      then (
        if ltb (count a) (length (concat bs)) then queue_partial c bs (count a) else c,
        (pos (count a), none),
      )
      else (c, (pos 0, error_of a))

  -- The system call of writev_linux.go, on the slices that are not empty.
  abbrev pub writev_call : Conn K → List Bytes → Conn K × Answer
  writev_call c bs = if is_nil bs then (c, done 0) else system o c (sys_writev bs)

  unfoldable pub writev : Limits → Conn K → List Bytes → Conn K × Returned
  unfolding is_overflow system queue_partial queue
  writev l c bs =
      if is_overflow l c (length (concat bs))
      then (c, (minus_one, some overflow))
      else if is_nil c.write_list
      then after_writev bs (writev_call c (not_nil bs))
      else (queue_all c bs, (pos (length (concat bs)), none))

  -- The end of Write and of Writev.
  abbrev pub settle : Conn K × Returned → Conn K × Returned
  settle (c, (n, e)) =
      if is_fatal e
      then (close_without_lock (record c { closed = true }) e, (n, e))
      else if is_nil c.write_list
      then (record c { has_write_timer = false }, (n, e))
      else (mod_write c, (n, e))

  -- Write
  unfoldable pub conn_write : Limits → Conn K → Bytes → Conn K × Returned
  unfolding write mod_write close_without_lock
  conn_write l c b = if c.closed then (c, (minus_one, some net_closed)) else settle (write l c b)

  abbrev pub write_or_writev : Limits → Conn K → List Bytes → Conn K × Returned
  write_or_writev l c (b ∷ []) = write l c b
  write_or_writev l c bs = writev l c bs

  -- Writev
  unfoldable pub conn_writev : Limits → Conn K → List Bytes → Conn K × Returned
  unfolding write writev mod_write close_without_lock
  conn_writev l c bs =
      if c.closed then (c, (pos 0, some net_closed)) else settle (write_or_writev l c bs)
