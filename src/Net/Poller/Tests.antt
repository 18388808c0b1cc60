-- ===== src/Net/Poller/Tests.antt =====
-- Events of the poller, and the theorem at one of them.
use nbio.Base.{◌≡◌, refl, true, false, List, [], ◌∷◌, ◌++◌, none, some, codes}
use nbio.Net.Poller.{
  Answer, got, interrupted, eof, by_handler, flushed, data', closed_with, Socket, Engine, Flags,
  handle_event, read_all, read_rounds, handle_read, handle_write, after_write, close_with_error,
}
use nbio.Net.Poller.Opened.{delivered, held_bytes}
use nbio.Net.Poller.Hangup.{Ended, hangup-Ended}

abbrev level : Engine
level = record {
  has_on_read = false;
  async_read_in_poller = false;
  edge = false;
  oneshot = false;
  max_read_times = 1;
  buffer_length = 4;
  data_closes = λ es. none;
}

abbrev stream_socket : Socket
stream_socket = record {
  datagram = false;
  closed = false;
  has_on_connected = false;
  is_w_added = false;
  nothing_queued = true;
  events = [];
}

abbrev last_words : List Answer
last_words = got (codes "abcd") ∷ interrupted ∷ got (codes "ef") ∷ got [] ∷ []

abbrev hung_up : Flags
hung_up = record { write = true; read = true; hangup = true; error = false }

abbrev readable : Flags
readable = record { write = false; read = true; hangup = false; error = false }

-- The handler of data closes the connection in its first call: nothing more is read.
closed_early :
    (handle_event
      (record level { data_closes = λ es. some 9 })
      hung_up
      none
      last_words
      stream_socket).events
    ≡ flushed ∷ data' (codes "abcd") ∷ closed_with (by_handler 9) ∷ []
unfolding handle_event after_write handle_write handle_read read_all read_rounds close_with_error
closed_early = refl

hangup-Ended_example :
    Ended level
      (delivered [] ++ held_bytes last_words)
      (handle_event level hung_up none last_words stream_socket)
hangup-Ended_example = hangup-Ended level hung_up last_words stream_socket refl refl refl refl refl

-- One read for an event, without a hangup: the rest stays with the kernel.
one_read :
    (handle_event level readable none last_words stream_socket).events ≡ data' (codes "abcd") ∷ []
unfolding handle_event after_write handle_read read_all read_rounds
one_read = refl

all_read :
    (handle_event level hung_up none last_words stream_socket).events
    ≡ flushed ∷ data' (codes "abcd") ∷ data' (codes "ef") ∷ closed_with eof ∷ []
unfolding handle_event after_write handle_write handle_read read_all read_rounds close_with_error
all_read = refl
