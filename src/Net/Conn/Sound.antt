-- ===== src/Net/Conn/Sound.antt =====
-- conn_unix.go: what holds of a connection's queue, and what is still to be sent.
use nbio.Base.{
  ℕ, ◌+◌, ◌-◌, ◌≤◌, ◌<◌, ◌≡◌, ◌⊎◌, sym, ap, ◌∙◌, true, false, List, [], ◌∷◌, ◌++◌, Bytes, length,
  take, drop, arith, append-nil, append_assoc, length-append, drop-append_le,
}
use nbio.Net.Conn.{
  ToWrite, buffer, file, Call, Kernel, Conn, Limits, count, payload, seen, queue, new_to_write_buf,
  is_overflow,
}

-- The kernel takes no more than it is given, and sends no more of a file than there is.
abbrev pub Bounded : {K : Type 0} → Kernel K → Type 0
Bounded {K} o =
    (call : Call) (k : K) → count (seen call (o.answer call k).1) ≤ length (payload o call)

module _ {K : Type 0} (o : Kernel K) where
  -- What the queue still has to send.
  abbrev pub pending : List ToWrite → Bytes
  pending [] = []
  pending (buffer d n ∷ ts) = drop n d ++ pending ts
  pending (file fd n r ∷ ts) = take r (drop n (o.file_of fd)) ++ pending ts

  -- What the peer gets if all goes well: what was sent, and what is pending.
  abbrev pub stream : Conn K → Bytes
  stream c = c.sent ++ pending c.write_list

-- Something of the entry is left to be sent.
abbrev pub Ready : ToWrite → Type 0
Ready (buffer d n) = n < length d
Ready (file fd n r) = 0 < r

abbrev pub AllReady : List ToWrite → Type 0
AllReady [] = Unit {0}
AllReady (t ∷ ts) = Ready t × AllReady ts

-- The bytes in buffers; files do not count against the limit.
abbrev pub queued : List ToWrite → ℕ
queued [] = 0
queued (buffer d n ∷ ts) = (length d - n) + queued ts
queued (file fd n r ∷ ts) = queued ts

abbrev pub WithinLimit : Limits → ℕ → Type 0
WithinLimit l n = (l.max_write_buffer_size ≡ 0) ⊎ (n ≤ l.max_write_buffer_size)

-- An open connection: every entry has something to send, `left` counts the bytes in buffers, and the
-- limit holds.
pub record Sound {K : Type 0} (l : Limits) (c : Conn K) : Type 0 where
  pub is_open : c.closed ≡ false
  pub all_ready : AllReady c.write_list
  pub counted : c.left ≡ queued c.write_list
  pub limited : WithinLimit l c.left

-- While something is queued, the poller is asked for writing events.
abbrev pub Armed : {K : Type 0} → Conn K → Type 0
Armed c = (c.write_list ≡ []) ⊎ (c.is_w_added ≡ true)

queue-AllReady :
    (ts : List ToWrite) (b : Bytes) → AllReady ts → 0 < length b → AllReady (queue ts b)
unfolding queue
queue-AllReady [] b h s = omega arith
queue-AllReady (buffer d n ∷ []) b h s = ground (arith, length-append d b)
queue-AllReady (file fd n r ∷ []) b h s = ground arith
queue-AllReady (t ∷ u ∷ ts) b h s = (h.0, queue-AllReady (u ∷ ts) b h.1 s)

queued-queue :
    (ts : List ToWrite) (b : Bytes) → AllReady ts → queued (queue ts b) ≡ queued ts + length b
unfolding queue
queued-queue [] b h = omega arith
queued-queue (buffer d n ∷ []) b h = ground (arith, length-append d b)
queued-queue (file fd n r ∷ []) b h = omega arith
queued-queue (buffer d n ∷ u ∷ ts) b h = omega (arith, queued-queue (u ∷ ts) b h.1)
queued-queue (file fd n r ∷ u ∷ ts) b h = queued-queue (u ∷ ts) b h.1

module _ {K : Type 0} (o : Kernel K) where
  pub pending-queue :
      (ts : List ToWrite) (b : Bytes) → AllReady ts → pending o (queue ts b) ≡ pending o ts ++ b
  unfolding queue
  pending-queue [] b h = append-nil b
  pending-queue (buffer d n ∷ []) b h = ground (
    arith,
    append-nil b,
    append-nil (drop n d),
    append-nil (drop n (d ++ b)),
    drop-append_le n d b,
  )
  pending-queue (file fd n r ∷ []) b h =
      ground (arith, append-nil b, append-nil (take r (drop n (o.file_of fd))))
  pending-queue (buffer d n ∷ u ∷ ts) b h =
      rw (pending-queue (u ∷ ts) b h.1) (sym (append_assoc (drop n d) (pending o (u ∷ ts)) b))
  pending-queue (file fd n r ∷ u ∷ ts) b h =
      rw (pending-queue (u ∷ ts) b h.1)
        (sym (append_assoc (take r (drop n (o.file_of fd))) (pending o (u ∷ ts)) b))

  -- newToWriteBuf
  pub new_to_write_buf-stream :
      (c : Conn K) (b : Bytes)
      → AllReady c.write_list
      → stream o (new_to_write_buf c b) ≡ stream o c ++ b
  new_to_write_buf-stream c b h =
      ap (λ t. c.sent ++ t) (pending-queue c.write_list b h)
      ∙ sym (append_assoc c.sent (pending o c.write_list) b)

pub new_to_write_buf-Sound :
    {K : Type 0} (l : Limits) (c : Conn K) (b : Bytes)
    → Sound l c
    → 0 < length b
    → WithinLimit l (c.left + length b)
    → Sound l (new_to_write_buf c b)
new_to_write_buf-Sound l c b s some_bytes limit = record {
  is_open = s.is_open;
  all_ready = queue-AllReady c.write_list b s.all_ready some_bytes;
  counted = omega (arith, queued-queue c.write_list b s.all_ready, s.counted);
  limited = limit;
}

pub fits-WithinLimit :
    {K : Type 0} (l : Limits) (c : Conn K) (n : ℕ)
    → is_overflow l c n ≡ false
    → WithinLimit l (c.left + n)
unfolding is_overflow
fits-WithinLimit l c n h = ground arith
