-- ===== src/Net/Poller/Hangup.antt =====
-- poller_epoll.go: what the kernel holds when the peer hangs up is delivered before the close.
use nbio.Base.{
  ℕ, ◌≡◌, refl, sym, ap, ◌∙◌, Bool, true, false, ◌&&◌, List, [], ◌∷◌, ◌++◌, none, Bytes, arith,
  append-nil, append_assoc, if◌then◌else◌, ◌⊎◌, inl, inr, some, Option-cases,
}
use nbio.Net.Poller.{
  Answer, got, interrupted, again, failed, Error, eof, system, by_handler, Event, data',
  closed_with, Socket, Engine, Flags, emit, close_with_error, reset_poller_event, closed_by,
  read_round, read_rounds, read_all, handle_write, handle_read, after_write, handle_event,
}
use nbio.Net.Poller.Opened.{
  delivered, held_bytes, delivered-append, Open, choose-Open, write-Open, reset-Open, reset_closed,
}

module _ (g : Engine) where
  -- The handler of data closed the socket before it was given all of `total`.
  abbrev CutShort : Bytes → List Event → Error → Type 0
  CutShort total es e =
      (n : ℕ) × (e ≡ by_handler n)
      × (g.data_closes es ≡ some n)
      × (rest : Bytes) × (delivered es ++ rest ≡ total)

  -- A socket that was closed last of all, and whose handler was given `total` before, or closed it
  -- itself.
  abbrev pub Ended : Bytes → Socket → Type 0
  Ended total c =
      (c.closed ≡ true)
      × (es : List Event) × (e : Error) × (c.events ≡ es ++ closed_with e ∷ [])
      × ((delivered es ≡ total) ⊎ CutShort total es e)

  -- An open socket whose handler was given `total`, or one that has ended with that.
  abbrev Gave : Bytes → Socket → Type 0
  Gave total c = Open total c ⊎ Ended total c

  close-Ended :
      (total : Bytes) (e : Error) (c : Socket) → Open total c → Ended total (close_with_error e c)
  unfolding close_with_error
  close-Ended total e c (up, stream, d) = rw up (refl, c.events, e, refl, inl d)

  told-Open :
      (total : Bytes) (b : ℕ) (bs : Bytes) (c : Socket)
      → Open total c
      → Open (total ++ (b ∷ bs)) (emit (data' (b ∷ bs) ∷ []) c)
  unfolding delivered
  told-Open total b bs c (up, stream, d) = (
    up,
    stream,
    delivered-append c.events (data' (b ∷ bs) ∷ [])
        ∙ ap (λ t. delivered c.events ++ t) (append-nil (b ∷ bs))
        ∙ ap (λ t. t ++ (b ∷ bs)) d,
  )

  -- The handler closes the socket in the call that gives it the last of `total`.
  cut-Ended :
      (total rest : Bytes) (n : ℕ) (c : Socket)
      → Open total c
      → g.data_closes c.events ≡ some n
      → Ended (total ++ rest) (close_with_error (by_handler n) c)
  unfolding close_with_error
  cut-Ended total rest n c (up, stream, d) said =
      rw up (refl, c.events, by_handler n, refl, inr (n, refl, said, rest, ap (λ t. t ++ rest) d))

  rounds_closed :
      (answers : List Answer) (c : Socket) → c.closed ≡ true → read_rounds g true none answers c ≡ c
  unfolding read_rounds
  rounds_closed [] c down = refl
  rounds_closed (a ∷ rest) c down = ground arith

  rounds_open :
      (a : Answer) (rest : List Answer) (c : Socket)
      → c.closed ≡ false
      → read_rounds g true none (a ∷ rest) c ≡ read_round g true a (read_rounds g true none rest) c
  unfolding read_rounds
  rounds_open a rest c up = ground arith

  stays : (total : Bytes) (c : Socket) → Open total c → Gave (total ++ []) c
  stays total c (up, stream, d) = inl (up, stream, d ∙ sym (append-nil total))

  -- The rounds behind a call of the handler, which may have closed the socket.
  after_data :
      (total : Bytes) (rest : List Answer) (c : Socket)
      → Open total c
      → ((d : Socket)
          → Open total d
          → Gave (total ++ held_bytes rest) (read_rounds g true none rest d))
      → Gave
          (total ++ held_bytes rest)
          (read_rounds g true none rest (closed_by g (g.data_closes c.events) c))
  after_data total rest c h more = elim (Option-cases (g.data_closes c.events)) [
    | inl open_still ↦ rw open_still (more c h)
    | inr (n, said) ↦
        let ended = cut-Ended total (held_bytes rest) n c h said in
        rw (said, rounds_closed rest (close_with_error (by_handler n) c) ended.0) (inr ended)
  ]

  drain-Gave :
      (answers : List Answer) (total : Bytes) (c : Socket)
      → Open total c
      → Gave (total ++ held_bytes answers) (read_rounds g true none answers c)
  unfolding held_bytes
  drain-Gave [] total c h = unfold read_rounds in stays total c h
  drain-Gave (got [] ∷ rest) total c h = rw (rounds_open (got []) rest c h.0) (stays total c h)
  drain-Gave (got (b ∷ bs) ∷ rest) total c h =
      rw
        (rounds_open (got (b ∷ bs)) rest c h.0, sym (append_assoc total (b ∷ bs) (held_bytes rest)))
        (after_data (total ++ (b ∷ bs)) rest (emit (data' (b ∷ bs) ∷ []) c)
          (told-Open total b bs c h) (λ d k. drain-Gave rest (total ++ (b ∷ bs)) d k))
  drain-Gave (interrupted ∷ rest) total c h =
      rw (rounds_open interrupted rest c h.0) (drain-Gave rest total c h)
  drain-Gave (again ∷ rest) total c h = rw (rounds_open again rest c h.0) (stays total c h)
  drain-Gave (failed e ∷ rest) total c (up, stream, d) =
      rw (rounds_open (failed e) rest c up)
        (inr (close-Ended (total ++ []) (system e) c (up, stream, d ∙ sym (append-nil total))))

  reset-Gave :
      (total : Bytes) (c : Socket)
      → Gave total c
      → (b : Bool) → Gave total (if b then reset_poller_event g c else c)
  reset-Gave total c h false = h
  reset-Gave total c (inl h) true = inl (reset-Open g total c h)
  reset-Gave total c (inr h) true = rw (reset_closed g c h.0) (inr h)

  read_all-Gave :
      (answers : List Answer) (total : Bytes) (c : Socket)
      → Open total c
      → Gave (total ++ held_bytes answers) (read_all g true answers c)
  unfolding read_all
  read_all-Gave answers total c h =
      reset-Gave (total ++ held_bytes answers) (read_rounds g true none answers c)
        (drain-Gave answers total c h) g.oneshot

  close_closed : (e : Error) (c : Socket) → c.closed ≡ true → close_with_error e c ≡ c
  unfolding close_with_error
  close_closed e c down =
      ap (λ t. if t then c else emit (closed_with e ∷ []) (record c { closed = true })) down

  close_last : (total : Bytes) (c : Socket) → Gave total c → Ended total (close_with_error eof c)
  close_last total c (inl h) = close-Ended total eof c h
  close_last total c (inr h) = rw (close_closed eof c h.0) h

  -- A hangup of a stream that the poller reads itself.
  after_write_drains :
      (ev : Flags) (answers : List Answer) (c : Socket)
      → ev.hangup ≡ true
      → g.has_on_read ≡ false
      → (g.async_read_in_poller && g.edge) ≡ false
      → c.datagram ≡ false
      → after_write g ev answers c ≡ close_with_error eof (read_all g true answers c)
  unfolding after_write handle_read
  after_write_drains ev answers c e f k s = ground arith

  -- An event with EPOLLHUP or EPOLLRDHUP closes the connection last of all, and before that the
  -- handler of data is given, behind what it was given earlier, all bytes that the kernel holds, in
  -- order, or a first part of them and the handler itself closes the connection in its last call. The
  -- connection is an open stream that the poller reads itself, with no handler of reads,
  -- not asynchronously, and flush does not fail.
  pub hangup-Ended :
      (ev : Flags) (answers : List Answer) (c : Socket)
      → ev.hangup ≡ true
      → g.has_on_read ≡ false
      → (g.async_read_in_poller && g.edge) ≡ false
      → c.datagram ≡ false
      → c.closed ≡ false
      → Ended (delivered c.events ++ held_bytes answers) (handle_event g ev none answers c)
  unfolding handle_event
  hangup-Ended ev answers c e f k stream up =
      let written = if ev.write then handle_write g none c else c in
      let h : Open (delivered c.events) written =
        choose-Open g (delivered c.events) ev.write (handle_write g none c) c
          (write-Open g (delivered c.events) c (up, stream, refl)) (up, stream, refl) in
      rw (after_write_drains ev answers written e f k h.1) (
        close_last (delivered c.events ++ held_bytes answers) (read_all g true answers written)
          (read_all-Gave answers (delivered c.events) written h))
