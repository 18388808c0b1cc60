-- ===== src/Net/Poller.antt =====
-- poller_epoll.go: what readWriteLoop does with one event of a socket, and the events that a socket
-- waits for. What the kernel answers to the reads that follow one another is a list; behind its end
-- it answers EAGAIN. `events` records what is called, in order, and is no field of the source.
pub mod Opened
pub mod Hangup
mod Tests
use nbio.Base.{
  ℕ, zero, suc, ◌+◌, Bool, true, false, not, ◌&&◌, ◌||◌, List, [], ◌∷◌, ◌++◌, Option, none, some,
  Bytes, length, ltb, is_nil, if◌then◌else◌,
}

-- (n, nil) with the n bytes, or EINTR, EAGAIN or another error.
pub data Answer : Type 0 where
  got : Bytes → Answer
  interrupted again : Answer
  failed : ℕ → Answer

-- The error that a connection is closed with: io.EOF, one of a system call, or one of the handler of
-- data.
pub data Error : Type 0 where
  eof : Error
  system by_handler : ℕ → Error

-- The events that a descriptor waits for: reading (with errors and hangups), writing, EPOLLET and
-- EPOLLONESHOT.
pub record Interest : Type 0 where
  pub writing : Bool
  pub edge : Bool
  pub oneshot : Bool

pub data Event : Type 0 where
  flushed connected async_read on_read : Event
  data' : Bytes → Event
  control : Interest → Event
  closed_with : Error → Event

-- Of Conn what the poller reads: its kind, whether it is closed, whether onConnected is set, whether
-- it waits for writing (isWAdded), and whether writeList is empty.
pub record Socket : Type 0 where
  pub datagram : Bool
  pub closed : Bool
  pub has_on_connected : Bool
  pub is_w_added : Bool
  pub nothing_queued : Bool
  pub events : List Event

-- Of Engine: the handler of reads, AsyncReadInPoller, EpollMod == EPOLLET, isOneshot,
-- MaxConnReadTimesPerEventLoop, and the length of a buffer that borrow gives. `data_closes` stands for
-- the handler of data: whether it closes the connection, and with which error, in the call that is the
-- last of the events.
pub record Engine : Type 0 where
  pub has_on_read : Bool
  pub async_read_in_poller : Bool
  pub edge : Bool
  pub oneshot : Bool
  pub max_read_times : ℕ
  pub buffer_length : ℕ
  pub data_closes : List Event → Option ℕ

-- The flags of an event: EPOLLOUT, EPOLLIN or EPOLLPRI, EPOLLHUP or EPOLLRDHUP, EPOLLERR.
pub record Flags : Type 0 where
  pub write : Bool
  pub read : Bool
  pub hangup : Bool
  pub error : Bool

abbrev pub emit : List Event → Socket → Socket
emit es c = record c { events = c.events ++ es }

-- closeWithError
unfoldable pub close_with_error : Error → Socket → Socket
close_with_error e c =
    if c.closed then c else emit (closed_with e ∷ []) (record c { closed = true })

module _ (g : Engine) where
  -- setRead and setReadWrite for an operation that is not EPOLL_CTL_ADD. With EPOLLET and without
  -- EPOLLONESHOT they do nothing, since everything was added at first.
  unfoldable pub modify : Bool → Socket → Socket
  modify writing c =
      if g.edge && not g.oneshot
      then c
      else emit
          (control (record { writing = writing; edge = g.edge; oneshot = g.edge && g.oneshot })
            ∷ [])
          c

  -- What a descriptor is added with by addRead and addReadWrite.
  unfoldable pub added : Bool → Interest
  added writing = record {
    writing = writing || (g.edge && not g.oneshot);
    edge = g.edge;
    oneshot = g.edge && g.oneshot;
  }

  -- ResetPollerEvent
  unfoldable pub reset_poller_event : Socket → Socket
  unfolding modify
  reset_poller_event c = if g.oneshot && not c.closed then modify (not c.nothing_queued) c else c

  -- resetRead of Conn
  unfoldable pub reset_read : Socket → Socket
  unfolding modify
  reset_read c =
      if not c.closed && c.is_w_added then modify false (record c { is_w_added = false }) else c

  -- `if n > 0 { g.onDataPtr(rc, pbuf) }`
  abbrev pub closed_by : Option ℕ → Socket → Socket
  closed_by none c = c
  closed_by (some n) c = close_with_error (by_handler n) c

  abbrev pub deliver : Bytes → Socket → Socket
  deliver b c =
      let told = emit (data' b ∷ []) c in
      if is_nil b then c else closed_by (g.data_closes told.events) told

  -- The test behind a read that gave bytes: whether to go on.
  abbrev pub goes_on : Bool → Bool → Bytes → Bool
  goes_on drain datagram b =
      if drain then not (is_nil b) else not (ltb (length b) g.buffer_length && not datagram)

  -- `readLimit < 0 || i < readLimit`, with `none` for no limit: the rounds that are left behind one.
  abbrev pub one_less : Option ℕ → Option (Option ℕ)
  one_less none = some none
  one_less (some zero) = none
  one_less (some (suc n)) = some (some n)

  abbrev pub in_limit : Option (Option ℕ) → (Option ℕ → Socket) → Socket → Socket
  in_limit none round c = c
  in_limit (some limit) round c = round limit

  -- One round, with the rounds to come.
  abbrev pub read_round : Bool → Answer → (Socket → Socket) → Socket → Socket
  read_round drain (got b) again_from c =
      let next = again_from (deliver b c) in
      if goes_on drain c.datagram b then next else deliver b c
  read_round drain interrupted again_from c = again_from c
  read_round drain again again_from c = c
  read_round drain (failed e) again_from c = close_with_error (system e) c

  -- The loop of reads. ReadAndGetConn of a closed socket gives net.ErrClosed at once, which ends the
  -- loop and closes it no second time.
  unfoldable pub read_rounds : Bool → Option ℕ → List Answer → Socket → Socket
  unfolding close_with_error
  read_rounds drain limit [] c = c
  read_rounds drain limit (a ∷ rest) c =
      in_limit (one_less limit)
        (λ l. elim c.closed [ true ↦ c | false ↦ read_round drain a (read_rounds drain l rest) c ])
        c

  -- The reads of an event, and the reset of the descriptor behind them.
  unfoldable pub read_all : Bool → List Answer → Socket → Socket
  unfolding read_rounds reset_poller_event
  read_all drain answers c =
      let done = read_rounds drain (if drain then none else some g.max_read_times) answers c in
      if g.oneshot then reset_poller_event done else done

  abbrev pub async_enabled : Bool
  async_enabled = g.async_read_in_poller && g.edge

  -- drainPeer
  abbrev pub drains : Flags → Socket → Bool
  drains ev c = ev.hangup && not g.has_on_read && not async_enabled && not c.datagram

  -- `ev.Events&epollEventsWrite != 0`: flush, which may close the connection with an error, or
  -- onConnected.
  abbrev pub flush_with : Option ℕ → Socket → Socket
  flush_with none c = emit (flushed ∷ []) c
  flush_with (some e) c = close_with_error (system e) (emit (flushed ∷ []) c)

  unfoldable pub handle_write : Option ℕ → Socket → Socket
  unfolding close_with_error reset_read
  handle_write flushing c =
      if c.has_on_connected
      then reset_read (record (emit (connected ∷ []) c) { has_on_connected = false })
      else flush_with flushing c

  unfoldable pub handle_read : Bool → List Answer → Socket → Socket
  unfolding read_all
  handle_read drain answers c =
      if g.has_on_read
      then emit (on_read ∷ []) c
      else if async_enabled
      then emit (async_read ∷ []) c
      else read_all drain answers c

  -- What comes behind the writing of an event.
  unfoldable pub after_write : Flags → List Answer → Socket → Socket
  unfolding handle_read close_with_error
  after_write ev answers c =
      let drain = drains ev c in
      let read = if ev.read || drain then handle_read drain answers c else c in
      if ev.error || ev.hangup then close_with_error eof read else read

  -- The body of `for _, ev := range events` for a socket, with the error of flush, if it has one,
  -- and the answers to its reads.
  unfoldable pub handle_event : Flags → Option ℕ → List Answer → Socket → Socket
  unfolding handle_write after_write
  handle_event ev flushing answers c =
      after_write ev answers (if ev.write then handle_write flushing c else c)
