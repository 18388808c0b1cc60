-- ===== src/Lmux/Placed.antt =====
-- lmux/lmux.go: where each connection that was accepted is.
use nbio.Base.{ℕ, ◌+◌, ◌≤◌, ◌≡◌, List, [], ◌∷◌, arith, refl}
use nbio.Base.Times.{one, times, times_split, sum, sum-append, sum_replace, sum_take}
use nbio.Lmux.{
  Place, accepting, adding, over, to_a, to_b, failing_a, failing_b, ended, Loop, Event, conn,
  failed, ListenerMux, loop_of, started, at, Step, Reach, start, later, accept, accept_timeout,
  accept_failed, leave, add_a, add_over, subtract, send_a, send_b, send_error_a, send_error_b,
  take_a, take_b, take_error_a, take_error_b, take_closed, decrease, decrease_b, shut_down, close,
}
use nbio.Lmux.Online.{online, Reach-Limited}

-- How often a loop or an event has a connection.
abbrev pub in_loop : ℕ → Loop → ℕ
in_loop d l = weight l.place
  where
    weight : Place → ℕ
    weight (adding c) = one d c
    weight (over c) = one d c
    weight (to_a c) = one d c
    weight (to_b c) = one d c
    weight _ = 0

abbrev pub in_event : ℕ → Event → ℕ
in_event d (conn l c) = one d c
in_event d (failed l) = 0

-- Where a connection that was accepted can be.
abbrev pub places : ℕ → ListenerMux → ℕ
places d m =
    sum (in_loop d) m.loops
    + sum (in_event d) m.chan_a
    + sum (in_event d) m.chan_b
    + times d m.open_a
    + times d m.open_b
    + times d m.released

module _ (max : ℕ) where
  abbrev Placed : ListenerMux → Type 0
  Placed m = (d : ℕ) → times d m.accepted ≡ places d m

  Step-Placed : {m n : ListenerMux} → Step max m n → Placed m → Placed n
  unfolding sum times
  Step-Placed {m} (accept l k xs ys e) c d =
      omega (arith, c d, sum_replace (in_loop d) m.loops xs ys (at l accepting) (at l (adding k)) e)
  Step-Placed (accept_timeout l xs ys e) c d = c d
  Step-Placed {m} (accept_failed l xs ys e) c d =
      omega (arith, c d, sum_replace (in_loop d) m.loops xs ys (at l accepting) (at l failing_a) e)
  Step-Placed {m} (leave l xs ys e h) c d =
      omega (arith, c d, sum_replace (in_loop d) m.loops xs ys (at l accepting) (at l ended) e)
  Step-Placed {m} (add_a l k xs ys e h) c d =
      omega (arith, c d, sum_replace (in_loop d) m.loops xs ys (at l (adding k)) (at l (to_a k)) e)
  Step-Placed {m} (add_over l k xs ys e h) c d =
      omega (arith, c d, sum_replace (in_loop d) m.loops xs ys (at l (adding k)) (at l (over k)) e)
  Step-Placed {m} (subtract l k xs ys e) c d =
      omega (arith, c d, sum_replace (in_loop d) m.loops xs ys (at l (over k)) (at l (to_b k)) e)
  Step-Placed {m} (send_a l k xs ys e) c d = omega (
    arith,
    c d,
    sum_replace (in_loop d) m.loops xs ys (at l (to_a k)) (at l accepting) e,
    sum-append (in_event d) m.chan_a (conn l k ∷ []),
  )
  Step-Placed {m} (send_b l k xs ys e) c d = omega (
    arith,
    c d,
    sum_replace (in_loop d) m.loops xs ys (at l (to_b k)) (at l accepting) e,
    sum-append (in_event d) m.chan_b (conn l k ∷ []),
  )
  Step-Placed {m} (send_error_a l xs ys e) c d = omega (
    arith,
    c d,
    sum_replace (in_loop d) m.loops xs ys (at l failing_a) (at l failing_b) e,
    sum-append (in_event d) m.chan_a (failed l ∷ []),
  )
  Step-Placed {m} (send_error_b l xs ys e) c d = omega (
    arith,
    c d,
    sum_replace (in_loop d) m.loops xs ys (at l failing_b) (at l ended) e,
    sum-append (in_event d) m.chan_b (failed l ∷ []),
  )
  Step-Placed {m} (take_a l k xs ys e h) c d =
      omega (arith, c d, sum_take (in_event d) m.chan_a xs ys (conn l k) e)
  Step-Placed {m} (take_b l k xs ys e h) c d =
      omega (arith, c d, sum_take (in_event d) m.chan_b xs ys (conn l k) e)
  Step-Placed {m} (take_error_a l xs ys e h) c d =
      omega (arith, c d, sum_take (in_event d) m.chan_a xs ys (failed l) e)
  Step-Placed {m} (take_error_b l xs ys e h) c d =
      omega (arith, c d, sum_take (in_event d) m.chan_b xs ys (failed l) e)
  Step-Placed (take_closed h) c d = c d
  Step-Placed {m} (decrease k xs ys e) c d = omega (arith, c d, times_split d m.open_a xs ys k e)
  Step-Placed (decrease_b k xs ys e) c d = c d
  Step-Placed shut_down c d = c d
  Step-Placed (close h k) c d = c d

  start-Placed : (ls : List ℕ) → Placed (started ls)
  unfolding sum times
  start-Placed ls d = omega (arith, fresh ls)
    where
      fresh : (ls : List ℕ) → sum (in_loop d) (loop_of ls) ≡ 0
      fresh [] = refl
      fresh (l ∷ ls) = omega (arith, fresh ls)

  Reach-Placed : {ls : List ℕ} {m : ListenerMux} → Reach max ls m → Placed m
  Reach-Placed {ls} start = start-Placed ls
  Reach-Placed (later r st) = Step-Placed st (Reach-Placed r)

  -- However the accept loops, the callers of Accept and of Decrease, and Stop take turns: the
  -- connections that are for A, at a send, in a channel or returned and not yet decreased, are
  -- maxOnlineA at most; and a connection stands as often with a loop, in a channel of A or of B, and
  -- with those that were returned, taken together, as it was accepted. Decrease is called once at
  -- most for a connection that A returned.
  pub Reach-Dispatched :
      (ls : List ℕ) (m : ListenerMux)
      → Reach max ls m
      → (d : ℕ) → (online m ≤ max) × (times d m.accepted ≡ places d m)
  Reach-Dispatched ls m r d = ((Reach-Limited max r).few, Reach-Placed r d)
