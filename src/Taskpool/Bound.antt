-- ===== src/Taskpool/Bound.antt =====
-- taskpool/taskpool.go: how many workers there are.
use nbio.Base.{ℕ, ◌+◌, ◌≤◌, ◌≡◌, length, arith, refl, ap, if◌then◌else◌}
use nbio.Base.Times.{length_split}
use nbio.Taskpool.{
  Dispatcher, refused, TaskPool, Step, Reach, start, later, go_fork, go_refused, go_undo, go_queue,
  go_hand_worker, go_hand_dispatcher, go_closed, finish, poll_task, poll_empty, release, signal,
  dispatch_take, dispatch_fork, dispatch_refused, dispatch_undo, dispatch_wake, dispatch_return,
  dispatch_drop, stop, close,
}

-- Workers that have not subtracted themselves.
abbrev pub workers : TaskPool → ℕ
workers p = length p.running + p.polling + p.releasing

-- The dispatcher has added one to the counter and not yet subtracted it.
abbrev in_refusal : Dispatcher → ℕ
in_refusal (refused f) = 1
in_refusal _ = 0

module _ (max size : ℕ) where
  -- The counter is what it should be, and there are `max` workers at most.
  pub record Counted (p : TaskPool) : Type 0 where
    pub counted :
        p.concurrent
        ≡ workers p + length p.undoing + in_refusal p.dispatcher + (if p.stopping then max else 0)
    pub few : workers p ≤ max

  Step-Counted : {p q : TaskPool} → Step max size p q → Counted p → Counted q
  Step-Counted (go_fork f h) c = record {
    counted = omega (arith, c.counted);
    few = omega (arith, c.counted);
  }
  Step-Counted (go_refused f h) c = record { counted = omega (arith, c.counted); few = c.few }
  Step-Counted {p} (go_undo f xs ys e) c = record {
    counted = omega (arith, c.counted, length_split p.undoing xs ys f e);
    few = c.few;
  }
  Step-Counted (go_queue f xs ys e h) c = record { counted = c.counted; few = c.few }
  Step-Counted (go_hand_worker f xs ys n e h k) c = record {
    counted = omega (arith, c.counted);
    few = omega (arith, c.few);
  }
  Step-Counted (go_hand_dispatcher f xs ys e h k) c = record {
    counted = omega (arith, c.counted, ap in_refusal k);
    few = c.few;
  }
  Step-Counted (go_closed f xs ys e h) c = record { counted = c.counted; few = c.few }
  Step-Counted {p} (finish f xs ys e) c = record {
    counted = omega (arith, c.counted, length_split p.running xs ys f e);
    few = omega (arith, c.few, length_split p.running xs ys f e);
  }
  Step-Counted (poll_task f fs n e h) c = record {
    counted = omega (arith, c.counted);
    few = omega (arith, c.few);
  }
  Step-Counted (poll_empty n e h) c = record {
    counted = omega (arith, c.counted);
    few = omega (arith, c.few);
  }
  Step-Counted (release n e) c = record {
    counted = omega (arith, c.counted);
    few = omega (arith, c.few);
  }
  Step-Counted (signal n e) c = record { counted = c.counted; few = c.few }
  Step-Counted (dispatch_take f fs e h) c = record {
    counted = omega (arith, c.counted, ap in_refusal e);
    few = c.few;
  }
  Step-Counted (dispatch_fork f e h) c = record {
    counted = omega (arith, c.counted, ap in_refusal e);
    few = omega (arith, c.counted, ap in_refusal e);
  }
  Step-Counted (dispatch_refused f e h) c = record {
    counted = omega (arith, c.counted, ap in_refusal e);
    few = c.few;
  }
  Step-Counted (dispatch_undo f e) c = record {
    counted = omega (arith, c.counted, ap in_refusal e);
    few = c.few;
  }
  Step-Counted (dispatch_wake f e h) c = record {
    counted = omega (arith, c.counted, ap in_refusal e);
    few = c.few;
  }
  Step-Counted (dispatch_return e h) c = record {
    counted = omega (arith, c.counted, ap in_refusal e);
    few = c.few;
  }
  Step-Counted (dispatch_drop f e h) c = record {
    counted = omega (arith, c.counted, ap in_refusal e);
    few = c.few;
  }
  Step-Counted (stop e) c = record {
    counted = omega (arith, c.counted, ap (λ b. if b then max else 0) e);
    few = c.few;
  }
  Step-Counted (close e h) c = record { counted = c.counted; few = c.few }

  Reach-Counted : {p : TaskPool} → Reach max size p → Counted p
  Reach-Counted start = record { counted = refl; few = omega arith }
  Reach-Counted (later r st) = Step-Counted st (Reach-Counted r)

  -- However the callers of Go, the workers, the dispatcher and Stop take turns, there are never more
  -- workers than maxConcurrent, and so never more tasks that are called at one time.
  pub few_workers : (p : TaskPool) → Reach max size p → workers p ≤ max
  few_workers p r = (Reach-Counted r).few
