-- ===== src/Taskpool.antt =====
-- taskpool/taskpool.go: the pool's counter and channels, and its goroutines, which take their steps
-- in any order: the callers of Go, the workers and the dispatcher. An atomic operation or a channel
-- operation is one step. A task is a number; the pool's caller recovers a panic of it, so that a
-- task always comes to its end. `submitted`, `finished` and `dropped` are no fields of the source.
pub mod Account
pub mod Bound
mod Tests
use nbio.Base.{
  ℕ, zero, suc, ◌+◌, ◌-◌, ◌≤◌, ◌<◌, ◌≡◌, Bool, true, false, List, [], ◌∷◌, ◌++◌, ℤ, pos, negsuc,
  length,
}

-- The dispatcher: at the select on the queue, before acquire for a task, between the two additions
-- of an acquire that failed, at the select on the slot, or returned.
pub data Dispatcher : Type 0 where
  waiting stopped : Dispatcher
  trying refused parked : ℕ → Dispatcher

-- TaskPool. The tasks of callers of Go stand in `undoing` between the two additions of an acquire
-- that failed, and in `blocked` at the select behind it. Workers call a task (`running`), are
-- behind one (`polling`), or leave: before the subtraction of release, or before its select.
pub record TaskPool : Type 0 where
  pub concurrent : ℕ
  pub queue : List ℕ
  pub slot : Bool
  pub stopping : Bool
  pub closed : Bool
  pub undoing : List ℕ
  pub blocked : List ℕ
  pub running : List ℕ
  pub polling : ℕ
  pub releasing : ℕ
  pub signalling : ℕ
  pub dispatcher : Dispatcher
  pub submitted : List ℕ
  pub finished : List ℕ
  pub dropped : List ℕ

-- maxConcurrent as New takes it.
abbrev pub max_concurrent : ℤ → ℕ
max_concurrent (pos zero) = 1
max_concurrent (pos (suc n)) = suc n
max_concurrent (negsuc n) = 1

-- New
abbrev pub new_pool : TaskPool
new_pool = record {
  concurrent = 0;
  queue = [];
  slot = false;
  stopping = false;
  closed = false;
  undoing = [];
  blocked = [];
  running = [];
  polling = 0;
  releasing = 0;
  signalling = 0;
  dispatcher = waiting;
  submitted = [];
  finished = [];
  dropped = [];
}

-- `max` is tp.maxConcurrent, `size` the capacity of tp.chQqueue.
module _ (max size : ℕ) where
  pub data Step (p : TaskPool) : TaskPool → Type 0 where
    -- Go: fork takes a worker slot, or the first addition of acquire is too much.
    go_fork :
        (f : ℕ)
        → p.concurrent + 1 ≤ max
        → Step p (record p {
          concurrent = p.concurrent + 1;
          running = f ∷ p.running;
          submitted = f ∷ p.submitted;
        })
    go_refused :
        (f : ℕ)
        → max < p.concurrent + 1
        → Step p (record p {
          concurrent = p.concurrent + 1;
          undoing = f ∷ p.undoing;
          submitted = f ∷ p.submitted;
        })
    go_undo :
        (f : ℕ) (xs ys : List ℕ)
        → p.undoing ≡ xs ++ f ∷ ys
        → Step p (record p {
          concurrent = p.concurrent - 1;
          undoing = xs ++ ys;
          blocked = f ∷ p.blocked;
        })
    -- The select of Go: the queue has room, a receiver takes the task, or the pool is closed.
    go_queue :
        (f : ℕ) (xs ys : List ℕ)
        → p.blocked ≡ xs ++ f ∷ ys
        → length p.queue < size
        → Step p (record p { blocked = xs ++ ys; queue = p.queue ++ f ∷ [] })
    go_hand_worker :
        (f : ℕ) (xs ys : List ℕ) (n : ℕ)
        → p.blocked ≡ xs ++ f ∷ ys
        → p.queue ≡ []
        → p.polling ≡ suc n
        → Step p (record p { blocked = xs ++ ys; polling = n; running = f ∷ p.running })
    go_hand_dispatcher :
        (f : ℕ) (xs ys : List ℕ)
        → p.blocked ≡ xs ++ f ∷ ys
        → p.queue ≡ []
        → p.dispatcher ≡ waiting
        → Step p (record p { blocked = xs ++ ys; dispatcher = trying f })
    go_closed :
        (f : ℕ) (xs ys : List ℕ)
        → p.blocked ≡ xs ++ f ∷ ys
        → p.closed ≡ true
        → Step p (record p { blocked = xs ++ ys; dropped = f ∷ p.dropped })
    -- A worker ends a task, and takes another one from the queue or leaves.
    finish :
        (f : ℕ) (xs ys : List ℕ)
        → p.running ≡ xs ++ f ∷ ys
        → Step p
            (record p { running = xs ++ ys; polling = p.polling + 1; finished = f ∷ p.finished })
    poll_task :
        (f : ℕ) (fs : List ℕ) (n : ℕ)
        → p.polling ≡ suc n
        → p.queue ≡ f ∷ fs
        → Step p (record p { polling = n; queue = fs; running = f ∷ p.running })
    poll_empty :
        (n : ℕ)
        → p.polling ≡ suc n
        → p.queue ≡ []
        → Step p (record p { polling = n; releasing = p.releasing + 1 })
    release :
        (n : ℕ)
        → p.releasing ≡ suc n
        → Step p (record p {
          releasing = n;
          concurrent = p.concurrent - 1;
          signalling = p.signalling + 1;
        })
    signal : (n : ℕ) → p.signalling ≡ suc n → Step p (record p { signalling = n; slot = true })
    -- dispatch
    dispatch_take :
        (f : ℕ) (fs : List ℕ)
        → p.dispatcher ≡ waiting
        → p.queue ≡ f ∷ fs
        → Step p (record p { dispatcher = trying f; queue = fs })
    dispatch_fork :
        (f : ℕ)
        → p.dispatcher ≡ trying f
        → p.concurrent + 1 ≤ max
        → Step p (record p {
          dispatcher = waiting;
          concurrent = p.concurrent + 1;
          running = f ∷ p.running;
        })
    dispatch_refused :
        (f : ℕ)
        → p.dispatcher ≡ trying f
        → max < p.concurrent + 1
        → Step p (record p { dispatcher = refused f; concurrent = p.concurrent + 1 })
    dispatch_undo :
        (f : ℕ)
        → p.dispatcher ≡ refused f
        → Step p (record p { dispatcher = parked f; concurrent = p.concurrent - 1 })
    dispatch_wake :
        (f : ℕ)
        → p.dispatcher ≡ parked f
        → p.slot ≡ true
        → Step p (record p { dispatcher = trying f; slot = false })
    dispatch_return :
        p.dispatcher ≡ waiting → p.closed ≡ true → Step p (record p { dispatcher = stopped })
    dispatch_drop :
        (f : ℕ)
        → p.dispatcher ≡ parked f
        → p.closed ≡ true
        → Step p (record p { dispatcher = stopped; dropped = f ∷ p.dropped })
    -- Stop: the addition, and the closing of chClose.
    stop :
        p.stopping ≡ false → Step p (record p { stopping = true; concurrent = p.concurrent + max })
    close : p.stopping ≡ true → p.closed ≡ false → Step p (record p { closed = true })

  pub data Reach : TaskPool → Type 0 where
    start : Reach new_pool
    later : {p q : TaskPool} → Reach p → Step p q → Reach q
