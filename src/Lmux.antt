-- ===== src/Lmux.antt =====
-- lmux/lmux.go: the accept loops of a ListenerMux, one for each listener, its counter, and the
-- channels of the ChanListeners A and B of each, in steps that are taken in any order. A listener
-- and a connection are numbers. The channels have no bound here: that of the code, 65536, only
-- delays a loop. `accepted` and `released` are no fields of the source.
pub mod Online
pub mod Placed
mod Tests
use nbio.Base.{
  ℕ, suc, ◌+◌, ◌-◌, ◌≤◌, ◌<◌, ◌≡◌, Bool, true, false, List, [], ◌∷◌, ◌++◌, ◌==◌, if◌then◌else◌,
}

-- Where an accept loop stands: at Accept, before the addition, between it and the subtraction, at a
-- send to A or to B, at the two sends of an error, or returned.
pub data Place : Type 0 where
  accepting failing_a failing_b ended : Place
  adding over to_a to_b : ℕ → Place

-- An accept loop, with its listener.
pub record Loop : Type 0 where
  pub listener : ℕ
  pub place : Place

-- An event in the channel of a listener: a connection, or an error.
pub data Event : Type 0 where
  conn : (listener c : ℕ) → Event
  failed : (listener : ℕ) → Event

-- ListenerMux: `closed` is chClose closed, `chan_a` and `chan_b` are the channels of all its
-- ChanListeners; `open_a` and `open_b` are the connections that Accept has returned.
pub record ListenerMux : Type 0 where
  pub shutdown : Bool
  pub closed : Bool
  pub online_a : ℕ
  pub loops : List Loop
  pub chan_a : List Event
  pub chan_b : List Event
  pub open_a : List ℕ
  pub open_b : List ℕ
  pub accepted : List ℕ
  pub released : List ℕ

abbrev is_of : ℕ → Event → Bool
is_of l (conn k c) = k == l
is_of l (failed k) = k == l

-- The events of one listener.
abbrev pub of_listener : ℕ → List Event → List Event
of_listener l [] = []
of_listener l (e ∷ es) = if is_of l e then e ∷ of_listener l es else of_listener l es

-- Start, with a loop for each listener.
abbrev pub loop_of : List ℕ → List Loop
loop_of [] = []
loop_of (l ∷ ls) = record { listener = l; place = accepting } ∷ loop_of ls

-- New, Mux of each listener, and Start.
abbrev pub started : List ℕ → ListenerMux
started ls = record {
  shutdown = false;
  closed = false;
  online_a = 0;
  loops = loop_of ls;
  chan_a = [];
  chan_b = [];
  open_a = [];
  open_b = [];
  accepted = [];
  released = [];
}

abbrev pub at : ℕ → Place → Loop
at l p = record { listener = l; place = p }

-- `max` is lm.maxOnlineA.
module _ (max : ℕ) where
  pub data Step (m : ListenerMux) : ListenerMux → Type 0 where
    -- Accept returns a connection, an error that may pass, or one that ends the loop.
    accept :
        (l c : ℕ) (xs ys : List Loop)
        → m.loops ≡ xs ++ at l accepting ∷ ys
        → Step m (record m { loops = xs ++ at l (adding c) ∷ ys; accepted = c ∷ m.accepted })
    accept_timeout : (l : ℕ) (xs ys : List Loop) → m.loops ≡ xs ++ at l accepting ∷ ys → Step m m
    accept_failed :
        (l : ℕ) (xs ys : List Loop)
        → m.loops ≡ xs ++ at l accepting ∷ ys
        → Step m (record m { loops = xs ++ at l failing_a ∷ ys })
    -- `for !lm.shutdown`
    leave :
        (l : ℕ) (xs ys : List Loop)
        → m.loops ≡ xs ++ at l accepting ∷ ys
        → m.shutdown ≡ true
        → Step m (record m { loops = xs ++ at l ended ∷ ys })
    -- `atomic.AddInt32(&lm.onlineA, 1) <= lm.maxOnlineA`, or not
    add_a :
        (l c : ℕ) (xs ys : List Loop)
        → m.loops ≡ xs ++ at l (adding c) ∷ ys
        → m.online_a + 1 ≤ max
        → Step m (record m { loops = xs ++ at l (to_a c) ∷ ys; online_a = m.online_a + 1 })
    add_over :
        (l c : ℕ) (xs ys : List Loop)
        → m.loops ≡ xs ++ at l (adding c) ∷ ys
        → max < m.online_a + 1
        → Step m (record m { loops = xs ++ at l (over c) ∷ ys; online_a = m.online_a + 1 })
    subtract :
        (l c : ℕ) (xs ys : List Loop)
        → m.loops ≡ xs ++ at l (over c) ∷ ys
        → Step m (record m { loops = xs ++ at l (to_b c) ∷ ys; online_a = m.online_a - 1 })
    send_a :
        (l c : ℕ) (xs ys : List Loop)
        → m.loops ≡ xs ++ at l (to_a c) ∷ ys
        → Step m
            (record m { loops = xs ++ at l accepting ∷ ys; chan_a = m.chan_a ++ conn l c ∷ [] })
    send_b :
        (l c : ℕ) (xs ys : List Loop)
        → m.loops ≡ xs ++ at l (to_b c) ∷ ys
        → Step m
            (record m { loops = xs ++ at l accepting ∷ ys; chan_b = m.chan_b ++ conn l c ∷ [] })
    send_error_a :
        (l : ℕ) (xs ys : List Loop)
        → m.loops ≡ xs ++ at l failing_a ∷ ys
        → Step m
            (record m { loops = xs ++ at l failing_b ∷ ys; chan_a = m.chan_a ++ failed l ∷ [] })
    send_error_b :
        (l : ℕ) (xs ys : List Loop)
        → m.loops ≡ xs ++ at l failing_b ∷ ys
        → Step m (record m { loops = xs ++ at l ended ∷ ys; chan_b = m.chan_b ++ failed l ∷ [] })
    -- Accept of a ChanListener takes the first event of its channel, or finds chClose closed.
    take_a :
        (l c : ℕ) (xs ys : List Event)
        → m.chan_a ≡ xs ++ conn l c ∷ ys
        → of_listener l xs ≡ []
        → Step m (record m { chan_a = xs ++ ys; open_a = c ∷ m.open_a })
    take_b :
        (l c : ℕ) (xs ys : List Event)
        → m.chan_b ≡ xs ++ conn l c ∷ ys
        → of_listener l xs ≡ []
        → Step m (record m { chan_b = xs ++ ys; open_b = c ∷ m.open_b })
    take_error_a :
        (l : ℕ) (xs ys : List Event)
        → m.chan_a ≡ xs ++ failed l ∷ ys
        → of_listener l xs ≡ []
        → Step m (record m { chan_a = xs ++ ys })
    take_error_b :
        (l : ℕ) (xs ys : List Event)
        → m.chan_b ≡ xs ++ failed l ∷ ys
        → of_listener l xs ≡ []
        → Step m (record m { chan_b = xs ++ ys })
    take_closed : m.closed ≡ true → Step m m
    -- Decrease of a ChanListener A, once for a connection that it has returned; that of B does
    -- nothing.
    decrease :
        (c : ℕ) (xs ys : List ℕ)
        → m.open_a ≡ xs ++ c ∷ ys
        → Step m
            (record m { open_a = xs ++ ys; online_a = m.online_a - 1; released = c ∷ m.released })
    decrease_b : (c : ℕ) (xs ys : List ℕ) → m.open_b ≡ xs ++ c ∷ ys → Step m m
    -- Stop
    shut_down : Step m (record m { shutdown = true })
    close : m.shutdown ≡ true → m.closed ≡ false → Step m (record m { closed = true })

  pub data Reach (ls : List ℕ) : ListenerMux → Type 0 where
    start : Reach ls (started ls)
    later : {m n : ListenerMux} → Reach ls m → Step m n → Reach ls n
