-- ===== src/Websocket/SendQueue.antt =====
-- nbhttp/websocket/conn.go: the send queue of a connection that writes asynchronously: the end of
-- writeFrame, the goroutine that it starts for the first frame, and CloseAndClean. What happens under
-- the lock is one step, and so is a Write of the connection. `accepted` and `sent` are no fields of
-- the source: the frames for which writeFrame returned nil, and those that the connection took;
-- `broken` is whether a Write has failed. A nil entry of the queue is `none`.
pub mod States
pub mod Steps
pub mod Ordered
mod Tests
use nbio.Base.{
  ℕ, zero, suc, ◌+◌, ◌≤◌, ◌<◌, ◌≡◌, ◌≢◌, ◌⊎◌, Bool, true, false, List, [], ◌∷◌, ◌++◌, Option, none,
  some, Bytes, length, map,
}

-- The goroutine: before its Write of pbuf, or behind it, with i as it is under the lock then.
pub data Writer : Type 0 where
  writing : (i : ℕ) (pbuf : Bytes) → Writer
  written : (i : ℕ) → Writer

pub record Sender : Type 0 where
  pub send_queue : List (Option Bytes)
  pub closed : Bool
  pub writers : List Writer
  pub broken : Bool
  pub accepted : List Bytes
  pub sent : List Bytes

abbrev pub new_sender : Sender
new_sender = record {
  send_queue = [];
  closed = false;
  writers = [];
  broken = false;
  accepted = [];
  sent = [];
}

-- c.sendQueue[i], and c.sendQueue[i] = nil.
abbrev pub entry : List (Option Bytes) → ℕ → Option Bytes
entry [] i = none
entry (e ∷ q) zero = e
entry (e ∷ q) (suc i) = entry q i

abbrev pub set_nil : List (Option Bytes) → ℕ → List (Option Bytes)
set_nil [] i = []
set_nil (e ∷ q) zero = none ∷ q
set_nil (e ∷ q) (suc i) = e ∷ set_nil q i

abbrev pub all_nil : List (Option Bytes) → List (Option Bytes)
all_nil [] = []
all_nil (e ∷ q) = none ∷ all_nil q

-- `size` is sendQueueSize, of which 0 is no limit.
module _ (size : ℕ) where
  pub data Step (s : Sender) : Sender → Type 0 where
    -- writeFrame of a frame that becomes the head, of one behind others, and of one too much.
    write_head :
        (b : Bytes)
        → s.closed ≡ false
        → s.send_queue ≡ []
        → Step s (record s {
          send_queue = none ∷ [];
          writers = writing 0 b ∷ s.writers;
          accepted = s.accepted ++ b ∷ [];
        })
    write_behind :
        (b : Bytes)
        → s.closed ≡ false
        → s.send_queue ≢ []
        → (size ≡ 0) ⊎ (length s.send_queue < size)
        → Step s
            (record s { send_queue = s.send_queue ++ some b ∷ []; accepted = s.accepted ++ b ∷ [] })
    write_full : 0 < size → size ≤ length s.send_queue → Step s s
    -- The goroutine writes its frame, or fails and returns.
    conn_write :
        (i : ℕ) (b : Bytes) (xs ys : List Writer)
        → s.writers ≡ xs ++ writing i b ∷ ys
        → Step s (record s { writers = xs ++ written (suc i) ∷ ys; sent = s.sent ++ b ∷ [] })
    conn_fails :
        (i : ℕ) (b : Bytes) (xs ys : List Writer)
        → s.writers ≡ xs ++ writing i b ∷ ys
        → Step s (record s { writers = xs ++ ys; broken = true })
    -- Then it takes the next frame, or returns: of a closed connection, of a queue that is done,
    -- which it empties, and at a nil entry.
    take_next :
        (i : ℕ) (b : Bytes) (xs ys : List Writer)
        → s.writers ≡ xs ++ written i ∷ ys
        → s.closed ≡ false
        → i < length s.send_queue
        → entry s.send_queue i ≡ some b
        → Step s
            (record s { writers = xs ++ writing i b ∷ ys; send_queue = set_nil s.send_queue i })
    take_nil :
        (i : ℕ) (xs ys : List Writer)
        → s.writers ≡ xs ++ written i ∷ ys
        → s.closed ≡ false
        → i < length s.send_queue
        → entry s.send_queue i ≡ none
        → Step s (record s { writers = xs ++ ys })
    drained :
        (i : ℕ) (xs ys : List Writer)
        → s.writers ≡ xs ++ written i ∷ ys
        → s.closed ≡ false
        → length s.send_queue ≤ i
        → Step s (record s { writers = xs ++ ys; send_queue = [] })
    quits :
        (i : ℕ) (xs ys : List Writer)
        → s.writers ≡ xs ++ written i ∷ ys
        → s.closed ≡ true
        → Step s (record s { writers = xs ++ ys })
    -- CloseAndClean
    close_and_clean :
        s.closed ≡ false → Step s (record s { closed = true; send_queue = all_nil s.send_queue })

  pub data Reach : Sender → Type 0 where
    start : Reach new_sender
    next : {s t : Sender} → Reach s → Step s t → Reach t
