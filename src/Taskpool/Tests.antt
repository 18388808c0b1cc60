-- ===== src/Taskpool/Tests.antt =====
-- Runs of the task pool, and the theorems at one of them.
use nbio.Base.{◌≤◌, ◌≡◌, false, [], ◌∷◌, arith, refl}
use nbio.Taskpool.{
  parked, TaskPool, Reach, start, later, go_fork, go_refused, go_undo, go_queue, finish, poll_empty,
  release, signal, dispatch_take, dispatch_refused, dispatch_undo, dispatch_wake,
}
use nbio.Taskpool.Bound.{workers, few_workers}
use nbio.Taskpool.Account.{Kept, Reach-Kept}

-- One worker calls task 1, and the dispatcher holds task 2. While task 3 is between the two
-- additions of its acquire, the worker leaves; the dispatcher wakes, is refused for the addition of
-- task 3, and waits again.
abbrev left_behind : TaskPool
left_behind = record {
  concurrent = 0;
  queue = 3 ∷ [];
  slot = false;
  stopping = false;
  closed = false;
  undoing = [];
  blocked = [];
  running = [];
  polling = 0;
  releasing = 0;
  signalling = 0;
  dispatcher = parked 2;
  submitted = 3 ∷ 2 ∷ 1 ∷ [];
  finished = 1 ∷ [];
  dropped = [];
}

parked_reached : (p : TaskPool) × Reach 1 8 p × (p.dispatcher ≡ parked 2) × (p.running ≡ 1 ∷ [])
parked_reached = (
  _,
  later
      (later
        (later
          (later
            (later (later (later start (go_fork 1 (omega arith))) (go_refused 2 (omega arith)))
              (go_undo 2 [] [] refl))
            (go_queue 2 [] [] refl (omega arith)))
          (dispatch_take 2 [] refl refl))
        (dispatch_refused 2 refl (omega arith)))
      (dispatch_undo 2 refl),
  refl,
  refl,
)

-- Tasks 2 and 3 are left with no worker and no signal: a lost wakeup.
lost_wakeup : Reach 1 8 left_behind
unfolding parked_reached
lost_wakeup =
    later
      (later
        (later
          (later
            (later
              (later
                (later
                  (later
                    (later (later parked_reached.1 (go_refused 3 (omega arith)))
                      (finish 1 [] [] refl))
                    (poll_empty 0 refl refl))
                  (release 0 refl))
                (signal 0 refl))
              (dispatch_wake 2 refl refl))
            (dispatch_refused 2 refl (omega arith)))
          (dispatch_undo 2 refl))
        (go_undo 3 [] [] refl))
      (go_queue 3 [] [] refl (omega arith))

few_workers_example : workers left_behind ≤ 1
few_workers_example = few_workers 1 8 left_behind lost_wakeup

Reach-Kept_example : Kept left_behind
Reach-Kept_example = Reach-Kept 1 8 left_behind lost_wakeup
