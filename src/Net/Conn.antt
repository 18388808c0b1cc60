-- ===== src/Net/Conn.antt =====
-- conn_unix.go: a connection, what it has queued to be written, and the calls that it makes. The
-- kernel is a parameter that answers the system calls; `sent` and `events` are no fields of the
-- source, they record what the kernel took and what else the connection called, in that order.
pub mod Write
pub mod Flush
pub mod Sound
pub mod Writing
pub mod Slices
pub mod Vectored
pub mod Flushing
pub mod Ending
pub mod Files
pub mod Session
pub mod Order
pub mod Stuck
mod Tests
use nbio.Base.{
  ℕ, ◌+◌, ◌-◌, ◌*◌, Bool, true, false, not, ◌&&◌, List, [], ◌∷◌, ◌++◌, Option, none, some, Bytes,
  length, take, drop, is_nil, ltb, if◌then◌else◌,
}

pub data ConnType : Type 0 where
  tcp udp_server udp_client_from_read udp_client_from_dial unix : ConnType

-- toWrite: bytes from an offset on, or `remain` bytes of the file behind a descriptor.
pub data ToWrite : Type 0 where
  buffer : Bytes → ℕ → ToWrite
  file : (fd offset remain : ℕ) → ToWrite

-- The system calls on the connection's descriptor, with what they are given.
pub data Call : Type 0 where
  sys_write sys_sendto : Bytes → Call
  sys_writev : List Bytes → Call
  sys_sendfile : (fd offset count : ℕ) → Call
  sys_dup : ℕ → Call

-- (n, nil), or -1 with EINTR, EAGAIN or another error.
pub data Answer : Type 0 where
  done : ℕ → Answer
  interrupted again : Answer
  broken : ℕ → Answer

pub record Kernel (K : Type 0) : Type 0 where
  pub answer : Call → K → K × Answer
  pub file_of : ℕ → Bytes

pub data Error : Type 0 where
  overflow net_closed eintr eagain : Error
  errno : ℕ → Error

-- Calls of onWrittenSize, of the poller, and the release of buffers and descriptors. Closing
-- is syscall.Close, or udpConn.Close for a datagram connection.
pub data Event : Type 0 where
  written : ℕ → Event
  mod_write_event reset_read_event delete_conn close_fd close_udp : Event
  release : ToWrite → Event

pub record Conn (K : Type 0) : Type 0 where
  pub kernel : K
  pub sent : Bytes
  pub events : List Event
  pub typ : ConnType
  pub left : ℕ
  pub write_list : List ToWrite
  pub closed : Bool
  pub is_w_added : Bool
  pub has_write_timer : Bool
  pub close_err : Option Error

-- Of the engine: MaxWriteBufferSize, where 0 is no limit, and whether epoll is one-shot.
pub record Limits : Type 0 where
  pub max_write_buffer_size : ℕ
  pub is_oneshot : Bool

abbrev pub max_write_cache_or_flush_size : ℕ
max_write_cache_or_flush_size = 1024 * 64

abbrev pub count : Answer → ℕ
count (done n) = n
count _ = 0

abbrev pub error_of : Answer → Option Error
error_of (done n) = none
error_of interrupted = some eintr
error_of again = some eagain
error_of (broken e) = some (errno e)

abbrev pub is_stream : ConnType → Bool
is_stream tcp = true
is_stream unix = true
is_stream _ = false

abbrev pub concat : List Bytes → Bytes
concat [] = []
concat (b ∷ bs) = b ++ concat bs

-- The bytes that a call puts on the wire if the kernel takes `n` of them.
abbrev pub payload : {K : Type 0} → Kernel K → Call → Bytes
payload o (sys_write b) = b
payload o (sys_sendto b) = b
payload o (sys_writev bs) = concat bs
payload o (sys_sendfile fd offset n) = take n (drop offset (o.file_of fd))
payload o (sys_dup fd) = []

-- On the list, newToWriteBuf: the tail takes the bytes if it is a buffer and stays small.
unfoldable pub queue : List ToWrite → Bytes → List ToWrite
queue [] b = buffer b 0 ∷ []
queue (buffer d n ∷ []) b =
    if ltb max_write_cache_or_flush_size (length d + length b)
    then buffer d n ∷ buffer b 0 ∷ []
    else buffer (d ++ b) n ∷ []
queue (file fd n r ∷ []) b = file fd n r ∷ buffer b 0 ∷ []
queue (t ∷ u ∷ ts) b = t ∷ queue (u ∷ ts) b

abbrev pub releases : List ToWrite → List Event
releases [] = []
releases (t ∷ ts) = release t ∷ releases ts

-- sendto takes all of its bytes or fails.
abbrev pub seen : Call → Answer → Answer
seen (sys_sendto b) (done n) = done (length b)
seen call a = a

module _ {K : Type 0} where
  -- A system call: the kernel's state, and what it took.
  abbrev pub took : Kernel K → Conn K → Call → K × Answer → Conn K × Answer
  took o c call (k, a) =
      let a' = seen call a in
      (record c { kernel = k; sent = c.sent ++ take (count a') (payload o call) }, a')

  unfoldable pub system : Kernel K → Conn K → Call → Conn K × Answer
  system o c call = took o c call (o.answer call c.kernel)

  abbrev pub emit : Event → Conn K → Conn K
  emit e c = record c { events = c.events ++ e ∷ [] }

  unfoldable pub mod_write : Conn K → Conn K
  mod_write c =
      if not c.closed && not c.is_w_added
      then emit mod_write_event (record c { is_w_added = true })
      else c

  unfoldable pub reset_read : Conn K → Conn K
  reset_read c =
      if not c.closed && c.is_w_added
      then emit reset_read_event (record c { is_w_added = false })
      else c

  unfoldable pub is_overflow : Limits → Conn K → ℕ → Bool
  is_overflow l c n = ltb 0 l.max_write_buffer_size && ltb l.max_write_buffer_size (c.left + n)

  abbrev pub new_to_write_buf : Conn K → Bytes → Conn K
  new_to_write_buf c b = record c { left = c.left + length b; write_list = queue c.write_list b }

  abbrev pub new_to_write_file : Conn K → ℕ → ℕ → ℕ → Conn K
  new_to_write_file c fd offset remain = record c {
    write_list = c.write_list ++ file fd offset remain ∷ [];
  }

  -- closeWithErrorWithoutLock.
  unfoldable pub close_without_lock : Conn K → Option Error → Conn K
  close_without_lock c e = record c {
    close_err = e;
    write_list = [];
    events =
        c.events
        ++ (releases c.write_list
            ++ delete_conn ∷ (if is_stream c.typ then close_fd else close_udp) ∷ []);
  }

  -- closeWithError, the body of Close and CloseWithError.
  unfoldable pub close_with_error : Conn K → Option Error → Conn K
  unfolding close_without_lock
  close_with_error c e =
      if c.closed
      then c
      else close_without_lock (record c { closed = true; has_write_timer = false }) e
