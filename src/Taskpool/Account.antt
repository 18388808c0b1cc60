-- ===== src/Taskpool/Account.antt =====
-- taskpool/taskpool.go: no task is lost, and none is called twice.
use nbio.Base.{ℕ, ◌+◌, ◌≡◌, ◌⊎◌, inl, inr, true, List, [], ◌∷◌, arith, refl, ap}
use nbio.Base.Times.{times, times-append, times_split}
use nbio.Taskpool.{
  Dispatcher, trying, refused, parked, TaskPool, Step, Reach, start, later, go_fork, go_refused,
  go_undo, go_queue, go_hand_worker, go_hand_dispatcher, go_closed, finish, poll_task, poll_empty,
  release, signal, dispatch_take, dispatch_fork, dispatch_refused, dispatch_undo, dispatch_wake,
  dispatch_return, dispatch_drop, stop, close,
}

-- The task that the dispatcher holds.
abbrev pub held : Dispatcher → List ℕ
held (trying f) = f ∷ []
held (refused f) = f ∷ []
held (parked f) = f ∷ []
held _ = []

-- Where a task that was given to Go can be.
abbrev pub places : ℕ → TaskPool → ℕ
places f p =
    times f p.undoing
    + times f p.blocked
    + times f p.queue
    + times f (held p.dispatcher)
    + times f p.running
    + times f p.finished
    + times f p.dropped

-- A task stands as often in the places as it was given to Go; and nothing is dropped before Stop.
pub record Kept (p : TaskPool) : Type 0 where
  pub all : (f : ℕ) → times f p.submitted ≡ places f p
  pub none_dropped : (p.closed ≡ true) ⊎ (p.dropped ≡ [])

module _ (max size : ℕ) where
  Step-Kept : {p q : TaskPool} → Step max size p q → Kept p → Kept q
  unfolding times
  Step-Kept (go_fork g h) c = record {
    all = λ f. omega (arith, c.all f);
    none_dropped = c.none_dropped;
  }
  Step-Kept (go_refused g h) c = record {
    all = λ f. omega (arith, c.all f);
    none_dropped = c.none_dropped;
  }
  Step-Kept {p} (go_undo g xs ys e) c = record {
    all = λ f. omega (arith, c.all f, times_split f p.undoing xs ys g e);
    none_dropped = c.none_dropped;
  }
  Step-Kept {p} (go_queue g xs ys e h) c = record {
    all = λ f.
        omega (arith, c.all f, times_split f p.blocked xs ys g e, times-append f p.queue (g ∷ []));
    none_dropped = c.none_dropped;
  }
  Step-Kept {p} (go_hand_worker g xs ys n e h k) c = record {
    all = λ f. omega (arith, c.all f, times_split f p.blocked xs ys g e);
    none_dropped = c.none_dropped;
  }
  Step-Kept {p} (go_hand_dispatcher g xs ys e h k) c = record {
    all = λ f.
        omega (arith, c.all f, times_split f p.blocked xs ys g e, ap (λ d. times f (held d)) k);
    none_dropped = c.none_dropped;
  }
  Step-Kept {p} (go_closed g xs ys e h) c = record {
    all = λ f. omega (arith, c.all f, times_split f p.blocked xs ys g e);
    none_dropped = inl h;
  }
  Step-Kept {p} (finish g xs ys e) c = record {
    all = λ f. omega (arith, c.all f, times_split f p.running xs ys g e);
    none_dropped = c.none_dropped;
  }
  Step-Kept (poll_task g fs n e h) c = record {
    all = λ f. omega (arith, c.all f, ap (times f) h);
    none_dropped = c.none_dropped;
  }
  Step-Kept (poll_empty n e h) c = record { all = c.all; none_dropped = c.none_dropped }
  Step-Kept (release n e) c = record { all = c.all; none_dropped = c.none_dropped }
  Step-Kept (signal n e) c = record { all = c.all; none_dropped = c.none_dropped }
  Step-Kept (dispatch_take g fs e h) c = record {
    all = λ f. omega (arith, c.all f, ap (times f) h, ap (λ d. times f (held d)) e);
    none_dropped = c.none_dropped;
  }
  Step-Kept (dispatch_fork g e h) c = record {
    all = λ f. omega (arith, c.all f, ap (λ d. times f (held d)) e);
    none_dropped = c.none_dropped;
  }
  Step-Kept (dispatch_refused g e h) c = record {
    all = λ f. omega (arith, c.all f, ap (λ d. times f (held d)) e);
    none_dropped = c.none_dropped;
  }
  Step-Kept (dispatch_undo g e) c = record {
    all = λ f. omega (arith, c.all f, ap (λ d. times f (held d)) e);
    none_dropped = c.none_dropped;
  }
  Step-Kept (dispatch_wake g e h) c = record {
    all = λ f. omega (arith, c.all f, ap (λ d. times f (held d)) e);
    none_dropped = c.none_dropped;
  }
  Step-Kept (dispatch_return e h) c = record {
    all = λ f. omega (arith, c.all f, ap (λ d. times f (held d)) e);
    none_dropped = inl h;
  }
  Step-Kept (dispatch_drop g e h) c = record {
    all = λ f. omega (arith, c.all f, ap (λ d. times f (held d)) e);
    none_dropped = inl h;
  }
  Step-Kept (stop e) c = record { all = c.all; none_dropped = c.none_dropped }
  Step-Kept (close e h) c = record { all = c.all; none_dropped = inl refl }

  -- However the callers of Go, the workers, the dispatcher and Stop take turns: a task stands as
  -- often in the hands of a caller of Go, in the queue, with the dispatcher, with a worker, among
  -- the tasks that have been called and among those dropped, taken together, as it was given to Go;
  -- and none is dropped before the pool is closed.
  pub Reach-Kept : (p : TaskPool) → Reach max size p → Kept p
  unfolding times
  Reach-Kept p start = record { all = λ f. refl; none_dropped = inr refl }
  Reach-Kept p (later {p = q} r st) = Step-Kept st (Reach-Kept q r)
