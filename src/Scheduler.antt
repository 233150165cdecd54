-- ===== src/Scheduler.antt =====
-- src/base/coro/scheduler.h and scheduler.cc: the queue of fibers and callbacks, and one round of the loop
-- of a thread over it. Fibers and callbacks are numbers; a thread is the number of its id, and `none` is
-- the thread -1, which is any. A round is two steps, since the lock is let go before the task runs.
pub mod Picking
pub mod Rounds
mod Examples
use agent_link_coro.Prelude.{
  ℕ, zero, suc, ◌+◌, ◌-◌, Bool, true, false, not, ◌&&◌, ◌||◌, List, [], ◌∷◌, ◌++◌, Option, none,
  some, ◌==◌, if◌then◌else◌,
}
use agent_link_coro.Prelude.Words.{sub64}
use agent_link_coro.Outcome.{Outcome, ok, fault, ◌>>=◌}

-- Fiber::State
pub data State : Type 0 where
  init hold exec term ready except : State

abbrev pub is_exec : State → Bool
is_exec exec = true
is_exec s = false

abbrev pub is_over : State → Bool
is_over term = true
is_over except = true
is_over s = false

abbrev pub is_ready : State → Bool
is_ready ready = true
is_ready s = false

-- FiberAndThread, which has a fiber or a callback.
pub data Job : Type 0 where
  fiber : ℕ → Job
  cb : ℕ → Job

pub record FiberAndThread : Type 0 where
  pub job : Job
  pub thread : Option ℕ

-- Scheduler, with the states of the fibers.
pub record Scheduler : Type 0 where
  pub fibers : List FiberAndThread
  pub states : ℕ → State
  pub active_thread_count : ℕ
  pub is_stopping : Bool
  pub auto_stop : Bool

abbrev pub is_empty : List FiberAndThread → Bool
is_empty [] = true
is_empty (ft ∷ fts) = false

-- scheduleNoLock: a null fiber or callback is not put into the queue. The Boolean asks for a tickle.
unfoldable pub schedule_no_lock : Scheduler → Option Job → Option ℕ → Scheduler × Bool
schedule_no_lock s none thread = (s, is_empty s.fibers)
schedule_no_lock s (some job) thread = (
  record s { fibers = s.fibers ++ (record { job = job; thread = thread }) ∷ [] },
  is_empty s.fibers,
)

-- schedule of a range, from `need_tickle` on.
unfoldable pub schedule_all : Scheduler → List (Option Job) → Bool → Scheduler × Bool
unfolding schedule_no_lock
schedule_all s [] need_tickle = (s, need_tickle)
schedule_all s (job ∷ jobs) need_tickle =
    let (s', first) = schedule_no_lock s job none in schedule_all s' jobs (first || need_tickle)

-- `it->thread != -1 && it->thread != base::GetThreadId()`
abbrev pub is_elsewhere : ℕ → FiberAndThread → Bool
is_elsewhere me ft = by ft.thread
  where
    by : Option ℕ → Bool
    by none = false
    by (some thread) = not (thread == me)

-- `it->fiber && it->fiber->getState() == Fiber::EXEC`
abbrev pub is_running : (ℕ → State) → FiberAndThread → Bool
is_running states ft = by ft.job
  where
    by : Job → Bool
    by (fiber f) = is_exec (states f)
    by (cb c) = false

-- The loop over the queue: the task taken, what is left of the queue, and tickle_me.
unfoldable pub pick :
    (ℕ → State) → ℕ → List FiberAndThread → Option FiberAndThread × List FiberAndThread × Bool
pick states me [] = (none, [], false)
pick states me (ft ∷ fts) =
    let (taken, rest, tickle_me) = pick states me fts in
    if is_elsewhere me ft
    then (taken, ft ∷ rest, true)
    else if is_running states ft
    then (taken, ft ∷ rest, tickle_me)
    else (some ft, fts, false)

abbrev pub one_if_some : Option FiberAndThread → ℕ
one_if_some none = 0
one_if_some (some ft) = 1

-- The part of a round under the lock: the task, and whether tickle is called.
unfoldable pub take_task : Scheduler → ℕ → Scheduler × Option FiberAndThread × Bool
unfolding pick
take_task s me =
    let (taken, rest, tickle_me) = pick s.states me s.fibers in
    (
      record s { fibers = rest; active_thread_count = s.active_thread_count + one_if_some taken },
      taken,
      tickle_me || not (is_empty rest),
    )

abbrev pub put_state : (ℕ → State) → ℕ → State → ℕ → State
put_state states f state g = if g == f then state else states g

-- Fiber::swapIn up to the switch; to switch to a fiber that runs fails an assertion.
unfoldable pub swap_in : Scheduler → ℕ → Outcome Scheduler
swap_in s f =
    if is_exec (s.states f) then fault else ok (record s { states = put_state s.states f exec })

-- What run does with a fiber that has switched back: its state is then `s.states f`.
unfoldable pub after_fiber : Scheduler → ℕ → Scheduler
unfolding schedule_no_lock
after_fiber s f =
    let fewer = record s { active_thread_count = sub64 s.active_thread_count 1 } in
    if is_ready (s.states f)
    then (schedule_no_lock fewer (some (fiber f)) none).0
    else if is_over (s.states f)
    then fewer
    else record fewer { states = put_state s.states f hold }

-- The same for the fiber of a callback: whether the thread keeps it for the next callback.
unfoldable pub after_cb : Scheduler → ℕ → Scheduler × Bool
unfolding schedule_no_lock
after_cb s f =
    let fewer = record s { active_thread_count = sub64 s.active_thread_count 1 } in
    if is_ready (s.states f)
    then ((schedule_no_lock fewer (some (fiber f)) none).0, false)
    else if is_over (s.states f)
    then (record fewer { states = put_state s.states f init }, true)
    else (record fewer { states = put_state s.states f hold }, false)

-- The switch to a task: a fiber that is over is dropped, and a callback runs in the fiber `f`, which is
-- new or has been reset. `none` says that nothing runs.
unfoldable pub start_task : Scheduler → FiberAndThread → ℕ → Outcome (Scheduler × Option ℕ)
unfolding swap_in
start_task s ft f = by ft.job
  where
    by : Job → Outcome (Scheduler × Option ℕ)
    by (fiber g) =
        if is_over (s.states g)
        then ok (record s { active_thread_count = sub64 s.active_thread_count 1 }, none)
        else (swap_in s g >>= λ s'. ok (s', some g))
    by (cb c) =
        swap_in (record s { states = put_state s.states f init }) f >>= λ s'. ok (s', some f)

-- Scheduler::stopping
unfoldable pub stopping : Scheduler → Bool
stopping s = s.auto_stop && s.is_stopping && is_empty s.fibers && (s.active_thread_count == 0)
