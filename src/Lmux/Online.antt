-- ===== src/Lmux/Online.antt =====
-- lmux/lmux.go: the counter of A, and how many connections are for A.
use nbio.Base.{ℕ, ◌+◌, ◌≤◌, ◌≡◌, List, [], ◌∷◌, length, arith, refl}
use nbio.Base.Times.{length_split, sum, sum-append, sum_replace, sum_take}
use nbio.Lmux.{
  Place, accepting, adding, over, to_a, to_b, failing_a, failing_b, ended, Loop, Event, conn,
  failed, ListenerMux, loop_of, started, at, Step, Reach, start, later, accept, accept_timeout,
  accept_failed, leave, add_a, add_over, subtract, send_a, send_b, send_error_a, send_error_b,
  take_a, take_b, take_error_a, take_error_b, take_closed, decrease, decrease_b, shut_down, close,
}

-- A loop that has a connection for A, and one that has added to the counter for nothing.
abbrev for_a : Loop → ℕ
for_a l = weight l.place
  where
    weight : Place → ℕ
    weight (to_a c) = 1
    weight _ = 0

abbrev for_nothing : Loop → ℕ
for_nothing l = weight l.place
  where
    weight : Place → ℕ
    weight (over c) = 1
    weight _ = 0

abbrev is_conn : Event → ℕ
is_conn (conn l c) = 1
is_conn (failed l) = 0

-- The connections that are for A: at a send, in a channel, or returned and not yet decreased.
abbrev pub online : ListenerMux → ℕ
online m = sum for_a m.loops + sum is_conn m.chan_a + length m.open_a

module _ (max : ℕ) where
  -- The counter is what it should be, and `max` connections are for A at most.
  pub record Limited (m : ListenerMux) : Type 0 where
    pub counted : m.online_a ≡ online m + sum for_nothing m.loops
    pub few : online m ≤ max

  Step-Limited : {m n : ListenerMux} → Step max m n → Limited m → Limited n
  unfolding sum
  Step-Limited {m} (accept l k xs ys e) c = record {
    counted = omega (
      arith,
      c.counted,
      c.few,
      sum_replace for_a m.loops xs ys (at l accepting) (at l (adding k)) e,
      sum_replace for_nothing m.loops xs ys (at l accepting) (at l (adding k)) e,
    );
    few = omega (
      arith,
      c.counted,
      c.few,
      sum_replace for_a m.loops xs ys (at l accepting) (at l (adding k)) e,
      sum_replace for_nothing m.loops xs ys (at l accepting) (at l (adding k)) e,
    );
  }
  Step-Limited (accept_timeout l xs ys e) c = c
  Step-Limited {m} (accept_failed l xs ys e) c = record {
    counted = omega (
      arith,
      c.counted,
      c.few,
      sum_replace for_a m.loops xs ys (at l accepting) (at l failing_a) e,
      sum_replace for_nothing m.loops xs ys (at l accepting) (at l failing_a) e,
    );
    few = omega (
      arith,
      c.counted,
      c.few,
      sum_replace for_a m.loops xs ys (at l accepting) (at l failing_a) e,
      sum_replace for_nothing m.loops xs ys (at l accepting) (at l failing_a) e,
    );
  }
  Step-Limited {m} (leave l xs ys e h) c = record {
    counted = omega (
      arith,
      c.counted,
      c.few,
      sum_replace for_a m.loops xs ys (at l accepting) (at l ended) e,
      sum_replace for_nothing m.loops xs ys (at l accepting) (at l ended) e,
    );
    few = omega (
      arith,
      c.counted,
      c.few,
      sum_replace for_a m.loops xs ys (at l accepting) (at l ended) e,
      sum_replace for_nothing m.loops xs ys (at l accepting) (at l ended) e,
    );
  }
  Step-Limited {m} (add_a l k xs ys e h) c = record {
    counted = omega (
      arith,
      c.counted,
      c.few,
      sum_replace for_a m.loops xs ys (at l (adding k)) (at l (to_a k)) e,
      sum_replace for_nothing m.loops xs ys (at l (adding k)) (at l (to_a k)) e,
    );
    few = omega (
      arith,
      c.counted,
      c.few,
      sum_replace for_a m.loops xs ys (at l (adding k)) (at l (to_a k)) e,
      sum_replace for_nothing m.loops xs ys (at l (adding k)) (at l (to_a k)) e,
    );
  }
  Step-Limited {m} (add_over l k xs ys e h) c = record {
    counted = omega (
      arith,
      c.counted,
      c.few,
      sum_replace for_a m.loops xs ys (at l (adding k)) (at l (over k)) e,
      sum_replace for_nothing m.loops xs ys (at l (adding k)) (at l (over k)) e,
    );
    few = omega (
      arith,
      c.counted,
      c.few,
      sum_replace for_a m.loops xs ys (at l (adding k)) (at l (over k)) e,
      sum_replace for_nothing m.loops xs ys (at l (adding k)) (at l (over k)) e,
    );
  }
  Step-Limited {m} (subtract l k xs ys e) c = record {
    counted = omega (
      arith,
      c.counted,
      c.few,
      sum_replace for_a m.loops xs ys (at l (over k)) (at l (to_b k)) e,
      sum_replace for_nothing m.loops xs ys (at l (over k)) (at l (to_b k)) e,
    );
    few = omega (
      arith,
      c.counted,
      c.few,
      sum_replace for_a m.loops xs ys (at l (over k)) (at l (to_b k)) e,
      sum_replace for_nothing m.loops xs ys (at l (over k)) (at l (to_b k)) e,
    );
  }
  Step-Limited {m} (send_a l k xs ys e) c = record {
    counted = omega (
      arith,
      c.counted,
      c.few,
      sum_replace for_a m.loops xs ys (at l (to_a k)) (at l accepting) e,
      sum_replace for_nothing m.loops xs ys (at l (to_a k)) (at l accepting) e,
      sum-append is_conn m.chan_a (conn l k ∷ []),
    );
    few = omega (
      arith,
      c.counted,
      c.few,
      sum_replace for_a m.loops xs ys (at l (to_a k)) (at l accepting) e,
      sum_replace for_nothing m.loops xs ys (at l (to_a k)) (at l accepting) e,
      sum-append is_conn m.chan_a (conn l k ∷ []),
    );
  }
  Step-Limited {m} (send_b l k xs ys e) c = record {
    counted = omega (
      arith,
      c.counted,
      c.few,
      sum_replace for_a m.loops xs ys (at l (to_b k)) (at l accepting) e,
      sum_replace for_nothing m.loops xs ys (at l (to_b k)) (at l accepting) e,
    );
    few = omega (
      arith,
      c.counted,
      c.few,
      sum_replace for_a m.loops xs ys (at l (to_b k)) (at l accepting) e,
      sum_replace for_nothing m.loops xs ys (at l (to_b k)) (at l accepting) e,
    );
  }
  Step-Limited {m} (send_error_a l xs ys e) c = record {
    counted = omega (
      arith,
      c.counted,
      c.few,
      sum_replace for_a m.loops xs ys (at l failing_a) (at l failing_b) e,
      sum_replace for_nothing m.loops xs ys (at l failing_a) (at l failing_b) e,
      sum-append is_conn m.chan_a (failed l ∷ []),
    );
    few = omega (
      arith,
      c.counted,
      c.few,
      sum_replace for_a m.loops xs ys (at l failing_a) (at l failing_b) e,
      sum_replace for_nothing m.loops xs ys (at l failing_a) (at l failing_b) e,
      sum-append is_conn m.chan_a (failed l ∷ []),
    );
  }
  Step-Limited {m} (send_error_b l xs ys e) c = record {
    counted = omega (
      arith,
      c.counted,
      c.few,
      sum_replace for_a m.loops xs ys (at l failing_b) (at l ended) e,
      sum_replace for_nothing m.loops xs ys (at l failing_b) (at l ended) e,
    );
    few = omega (
      arith,
      c.counted,
      c.few,
      sum_replace for_a m.loops xs ys (at l failing_b) (at l ended) e,
      sum_replace for_nothing m.loops xs ys (at l failing_b) (at l ended) e,
    );
  }
  Step-Limited {m} (take_a l k xs ys e h) c = record {
    counted = omega (arith, c.counted, c.few, sum_take is_conn m.chan_a xs ys (conn l k) e);
    few = omega (arith, c.counted, c.few, sum_take is_conn m.chan_a xs ys (conn l k) e);
  }
  Step-Limited (take_b l k xs ys e h) c = record { counted = c.counted; few = c.few }
  Step-Limited {m} (take_error_a l xs ys e h) c = record {
    counted = omega (arith, c.counted, c.few, sum_take is_conn m.chan_a xs ys (failed l) e);
    few = omega (arith, c.counted, c.few, sum_take is_conn m.chan_a xs ys (failed l) e);
  }
  Step-Limited (take_error_b l xs ys e h) c = record { counted = c.counted; few = c.few }
  Step-Limited (take_closed h) c = c
  Step-Limited {m} (decrease k xs ys e) c = record {
    counted = omega (arith, c.counted, c.few, length_split m.open_a xs ys k e);
    few = omega (arith, c.counted, c.few, length_split m.open_a xs ys k e);
  }
  Step-Limited (decrease_b k xs ys e) c = c
  Step-Limited shut_down c = record { counted = c.counted; few = c.few }
  Step-Limited (close h k) c = record { counted = c.counted; few = c.few }

  start-Limited : (ls : List ℕ) → Limited (started ls)
  unfolding sum
  start-Limited ls = record { counted = omega (arith, fresh ls); few = omega (arith, fresh ls) }
    where
      fresh : (ls : List ℕ) → (sum for_a (loop_of ls) ≡ 0) × (sum for_nothing (loop_of ls) ≡ 0)
      fresh [] = (refl, refl)
      fresh (l ∷ ls) = let (f, g) = fresh ls in (omega (arith, f), omega (arith, g))

  pub Reach-Limited : {ls : List ℕ} {m : ListenerMux} → Reach max ls m → Limited m
  Reach-Limited {ls} start = start-Limited ls
  Reach-Limited (later r st) = Step-Limited st (Reach-Limited r)
