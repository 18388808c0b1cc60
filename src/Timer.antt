-- ===== src/Timer.antt =====
-- timer/timer.go: Async, with its list and the goroutines that run it, in steps that are taken in
-- any order; what is done under asyncMux is one step. A function is a number; a panic of it is
-- recovered, so that its call always comes to an end. Both ways of making the list empty again are
-- one here: its capacity is not modelled. `submitted` and `called` are no fields of the source.
-- After and AfterFunc are time's.
pub mod Ordered
mod Tests
use nbio.Base.{ℕ, zero, suc, ◌+◌, ◌≡◌, List, [], ◌∷◌, ◌++◌, length, Bool, is_nil, if◌then◌else◌}

-- A goroutine of Async: before the lock, with i, or in a call, with the i that comes next.
pub data Runner : Type 0 where
  checking : ℕ → Runner
  calling : (i f : ℕ) → Runner

pub record Timer : Type 0 where
  pub async_list : List ℕ
  pub runners : List Runner
  pub submitted : List ℕ
  pub called : List ℕ

-- New
abbrev pub new_timer : Timer
new_timer = record { async_list = []; runners = []; submitted = []; called = [] }

-- Async: the caller of a head starts a goroutine.
abbrev pub async : ℕ → Timer → Timer
async f t = record t {
  async_list = t.async_list ++ f ∷ [];
  runners = if is_nil t.async_list then checking 0 ∷ t.runners else t.runners;
  submitted = t.submitted ++ f ∷ [];
}

pub data Step (t : Timer) : Timer → Type 0 where
  add : (f : ℕ) → Step t (async f t)
  -- `i == len(t.asyncList)`, or t.asyncList[i] is called
  check_end :
      (i : ℕ) (xs ys : List Runner)
      → t.runners ≡ xs ++ checking i ∷ ys
      → i ≡ length t.async_list
      → Step t (record t { async_list = []; runners = xs ++ ys })
  check_next :
      (i f : ℕ) (xs ys : List Runner) (before behind : List ℕ)
      → t.runners ≡ xs ++ checking i ∷ ys
      → t.async_list ≡ before ++ f ∷ behind
      → i ≡ length before
      → Step t (record t { runners = xs ++ calling (i + 1) f ∷ ys; called = t.called ++ f ∷ [] })
  call_done :
      (i f : ℕ) (xs ys : List Runner)
      → t.runners ≡ xs ++ calling i f ∷ ys
      → Step t (record t { runners = xs ++ checking i ∷ ys })

pub data Reach : Timer → Type 0 where
  start : Reach new_timer
  later : {t u : Timer} → Reach t → Step t u → Reach u
