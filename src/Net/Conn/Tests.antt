-- ===== src/Net/Conn/Tests.antt =====
-- conn_unix.go: runs on a socket that takes a few bytes at a time.
use nbio.Base.{
  ℕ, zero, suc, ◌-◌, ◌<◌, ◌≡◌, inl, inr, refl, sym, true, false, List, [], ◌∷◌, ◌++◌, Bytes, length,
  take, drop, arith, min, pos, none,
}
use nbio.Net.Conn.{
  buffer, file, Call, sys_write, sys_sendto, sys_writev, sys_sendfile, sys_dup, Answer, done, again,
  Kernel, Conn, Limits, concat, payload, tcp, mod_write_event, written, release,
}
use nbio.Net.Conn.Write.{conn_write, conn_writev, writev}
use nbio.Net.Conn.Flush.{flushed, out_of_fuel, flush}
use nbio.Net.Conn.Sound.{Bounded, Sound}
use nbio.Net.Conn.Vectored.{Wrotev, writev-Wrotev}
use nbio.Net.Conn.Ending.{Progresses, Flushes, flush-Flushes}
use nbio.Net.Conn.Session.{taken_by, Alive, InOrder}
use nbio.Net.Conn.Order.{
  accepted_by, Reach, write_step, writev_step, flush_step, start, later, Reach-InOrder,
}
use nbio.Net.Conn.Stuck.{flush-Nothing}

abbrev files : ℕ → Bytes
files fd = 1 ∷ 2 ∷ 3 ∷ 4 ∷ 5 ∷ []

-- The bytes of a call.
abbrev given : Call → Bytes
given (sys_write b) = b
given (sys_sendto b) = b
given (sys_writev bs) = concat bs
given (sys_sendfile fd offset n) = take n (drop offset (files fd))
given (sys_dup fd) = []

-- The state is the room in the socket. When it is full, three bytes of room come next.
abbrev small_answer : Call → ℕ → ℕ × Answer
small_answer call zero = (3, again)
small_answer call (suc r) =
    (suc r - min (suc r) (length (given call)), done (min (suc r) (length (given call))))

abbrev small : Kernel ℕ
small = record { answer = small_answer; file_of = files }

given-payload : (call : Call) → payload small call ≡ given call
given-payload (sys_write b) = refl
given-payload (sys_sendto b) = refl
given-payload (sys_writev bs) = refl
given-payload (sys_sendfile fd offset n) = refl
given-payload (sys_dup fd) = refl

small-Bounded : Bounded small
small-Bounded (sys_write b) zero = omega arith
small-Bounded (sys_sendto b) zero = omega arith
small-Bounded (sys_writev bs) zero = omega arith
small-Bounded (sys_sendfile fd offset n) zero = omega arith
small-Bounded (sys_dup fd) zero = omega arith
small-Bounded (sys_write b) (suc r) = omega arith
small-Bounded (sys_sendto b) (suc r) = omega arith
small-Bounded (sys_writev bs) (suc r) = omega arith
small-Bounded (sys_sendfile fd offset n) (suc r) = omega arith
small-Bounded (sys_dup fd) (suc r) = omega arith

-- The socket is never interrupted.
abbrev no_patience : ℕ → ℕ
no_patience k = 0

small-Progresses : Progresses small no_patience
small-Progresses call zero h = tt
small-Progresses call (suc r) h =
    let some_bytes : 0 < length (given call) = rw (sym (given-payload call)) h in ground arith

abbrev limits : Limits
limits = record { max_write_buffer_size = 20; is_oneshot = true }

abbrev fresh : Conn ℕ
fresh = record {
  kernel = 2;
  sent = [];
  events = [];
  typ = tcp;
  left = 0;
  write_list = [];
  closed = false;
  is_w_added = false;
  has_write_timer = true;
  close_err = none;
}

fresh-Sound : Sound limits fresh
fresh-Sound = record { is_open = refl; all_ready = tt; counted = refl; limited = inr (omega arith) }

abbrev message : Bytes
message = 7 ∷ 8 ∷ 9 ∷ []

abbrev slices : List Bytes
slices = (10 ∷ 11 ∷ []) ∷ (12 ∷ []) ∷ []

-- Two of the three bytes are sent, the third is queued, and the poller is asked for a writing event.
write_partly : conn_write small limits fresh message ≡ (
  record fresh {
    kernel = 0;
    sent = 7 ∷ 8 ∷ [];
    events = written 2 ∷ mod_write_event ∷ [];
    left = 1;
    write_list = buffer (9 ∷ []) 0 ∷ [];
    is_w_added = true;
  },
  (pos 3, none),
)
unfolding conn_write
write_partly = refl

-- The second slice is lost: two of four bytes are taken, of one and a half slices.
writev_partly :
    ((conn_writev small limits fresh ((1 ∷ []) ∷ (2 ∷ 3 ∷ []) ∷ (4 ∷ []) ∷ [])).0.write_list
      ≡ buffer (3 ∷ []) 0 ∷ [])
    × ((conn_writev small limits fresh ((1 ∷ []) ∷ (2 ∷ 3 ∷ []) ∷ (4 ∷ []) ∷ [])).1 ≡ (pos 2, none))
unfolding conn_writev
writev_partly = (refl, refl)

-- A connection with a buffer of which a byte is sent, and with two bytes of a file.
abbrev waiting : Conn ℕ
waiting = record {
  kernel = 2;
  sent = 6 ∷ [];
  events = [];
  typ = tcp;
  left = 2;
  write_list = buffer (6 ∷ 7 ∷ 8 ∷ []) 1 ∷ file 9 1 2 ∷ [];
  closed = false;
  is_w_added = true;
  has_write_timer = true;
  close_err = none;
}

waiting-Sound : Sound limits waiting
waiting-Sound = record {
  is_open = refl;
  all_ready = (omega arith, (omega arith, tt));
  counted = refl;
  limited = inr (omega arith);
}

fresh-Alive : Alive small limits [] fresh
fresh-Alive = record {
  sound = fresh-Sound;
  armed = inl refl;
  stream_typ = refl;
  there = tt;
  same = refl;
}

-- One flush fills the socket, the next one sends the file.
flush_fills :
    flush small 6 limits waiting
    ≡ flushed
        (record waiting {
          kernel = 3;
          sent = 6 ∷ 7 ∷ 8 ∷ [];
          events = written 2 ∷ release (buffer (6 ∷ 7 ∷ 8 ∷ []) 3) ∷ mod_write_event ∷ [];
          left = 0;
          write_list = file 9 1 2 ∷ [];
        })
        none
unfolding flush
flush_fills = refl

flush_after_write :
    flush small 2 limits (conn_write small limits fresh message).0
    ≡ flushed
        (record fresh {
          kernel = 3;
          sent = 7 ∷ 8 ∷ [];
          events = written 2 ∷ mod_write_event ∷ mod_write_event ∷ [];
          left = 1;
          write_list = buffer (9 ∷ []) 0 ∷ [];
          is_w_added = true;
        })
        none
unfolding flush conn_write
flush_after_write = refl

abbrev flushed_once : Conn ℕ
flushed_once = record fresh {
  kernel = 3;
  sent = 7 ∷ 8 ∷ [];
  events = written 2 ∷ mod_write_event ∷ mod_write_event ∷ [];
  left = 1;
  write_list = buffer (9 ∷ []) 0 ∷ [];
  is_w_added = true;
}

-- A Write, a writing event, a Writev.
three_calls :
    Reach small limits fresh
      ((([] ++ taken_by message (conn_write small limits fresh message).1) ++ [])
        ++ accepted_by slices (conn_writev small limits flushed_once slices).1)
      (conn_writev small limits flushed_once slices).0
three_calls =
    later
      (later (later start (write_step fresh message)) (
        flush_step (conn_write small limits fresh message).0 flushed_once none 2 flush_after_write))
      (writev_step flushed_once slices (omega arith, (omega arith, tt)))

Reach-InOrder_example :
    InOrder small limits
      ([]
        ++ ((([] ++ taken_by message (conn_write small limits fresh message).1) ++ [])
            ++ accepted_by slices (conn_writev small limits flushed_once slices).1))
      (conn_writev small limits flushed_once slices).0
Reach-InOrder_example =
    Reach-InOrder small small-Bounded no_patience small-Progresses limits [] fresh (inl fresh-Alive)
      three_calls

flush-Flushes_example :
    Flushes small small-Bounded no_patience small-Progresses limits waiting
      (flush small 6 limits waiting)
flush-Flushes_example =
    flush-Flushes small small-Bounded no_patience small-Progresses limits 6 waiting (omega arith)
      waiting-Sound (omega arith, tt) (inr refl)

writev-Wrotev_example :
    Wrotev small small-Bounded limits fresh slices
      (writev small limits fresh slices).0
      (writev small limits fresh slices).1
writev-Wrotev_example =
    writev-Wrotev small small-Bounded limits fresh slices fresh-Sound
      (omega arith, (omega arith, tt))

-- A kernel that takes all that it is given.
abbrev eager : Kernel ℕ
eager = record { answer = λ call k. (k, done (length (given call))); file_of = files }

flush-Nothing_example :
    flush eager 100 limits (record waiting { write_list = file 9 5 0 ∷ buffer (1 ∷ []) 0 ∷ [] })
    ≡ out_of_fuel
flush-Nothing_example =
    flush-Nothing eager (λ k. refl) 100 limits
      (record waiting { write_list = file 9 5 0 ∷ buffer (1 ∷ []) 0 ∷ [] }) (file 9 5 0)
      (buffer (1 ∷ []) 0 ∷ []) refl refl refl
