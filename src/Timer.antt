-- ===== src/Timer.antt =====
-- src/base/coro/timer.h and src/base/coro/timer.cc: timers and the manager that orders them. A
-- shared_ptr<Timer> is an address; the objects stand in a store, since the holder of a pointer and
-- the manager's set share them. GetCurrentMS is an argument of each call, and so is the address
-- that an allocation gives.
pub mod Ordered
pub mod Invariant
pub mod Expiry
pub mod Wait
pub mod Calls
mod Examples
use agent_link_coro.Prelude.{
  ℕ, ◌+◌, ◌-◌, ◌*◌, ◌^◌, Bool, true, false, not, ◌&&◌, ◌||◌, List, [], ◌∷◌, ◌++◌, Option, none,
  some, ltb, leb, ◌==◌, if◌then◌else◌,
}
use agent_link_coro.Prelude.Words.{add64, sub64}
use agent_link_coro.Outcome.{Outcome, ok, fault, ◌>>=◌}
use Ordered.{Timer, Store, update, insert, find_erase}

pub record TimerManager : Type 0 where
  pub store : Store
  pub timers : List ℕ
  pub tickled : Bool
  pub previous_time : ℕ

-- TimerManager::TimerManager
unfoldable pub new_timer_manager : Store → ℕ → TimerManager
new_timer_manager store now = record {
  store = store;
  timers = [];
  tickled = false;
  previous_time = now;
}

abbrev is_first : ℕ → List ℕ → Bool
is_first a [] = false
is_first a (x ∷ xs) = a == x

-- addTimer(Timer::ptr val, lock): the Boolean says that onTimerInsertedAtFront is called.
unfoldable pub insert_timer : TimerManager → ℕ → TimerManager × Bool
unfolding insert
insert_timer m a =
    let timers = insert m.store a m.timers in
    let at_front = is_first a timers && not m.tickled in
    (record m { timers = timers; tickled = m.tickled || at_front }, at_front)

-- addTimer(ms, cb, recurring), with the constructor of Timer; `a` is the address of the new timer.
unfoldable pub add_timer : TimerManager → ℕ → ℕ → ℕ → ℕ → Bool → TimerManager × Bool
unfolding insert_timer
add_timer m now a ms cb recurring =
    let timer : Timer = record {
      recurring = recurring;
      ms = ms;
      next = add64 now ms;
      cb = some cb;
    } in
    insert_timer (record m { store = update m.store a timer }) a

abbrev is_null : Option ℕ → Bool
is_null none = true
is_null (some cb) = false

-- Timer::cancel. To erase the end iterator is a fault.
unfoldable pub cancel : TimerManager → ℕ → Outcome (TimerManager × Bool)
unfolding find_erase
cancel m a =
    let store = update m.store a (record (m.store a) { cb = none }) in
    if is_null (m.store a).cb then ok (m, false) else elim (find_erase store a m.timers) [
      | none ↦ fault
      | some timers ↦ ok (record m { store = store; timers = timers }, true)
    ]

-- Timer::refresh
unfoldable pub refresh : TimerManager → ℕ → ℕ → TimerManager × Bool
unfolding find_erase insert
refresh m now a =
    let store = update m.store a (record (m.store a) { next = add64 now (m.store a).ms }) in
    if is_null (m.store a).cb then (m, false) else elim (find_erase m.store a m.timers) [
      | none ↦ (m, false)
      | some timers ↦ (record m { store = store; timers = insert store a timers }, true)
    ]

-- Timer::reset: the manager, the result, and whether onTimerInsertedAtFront is called.
unfoldable pub reset : TimerManager → ℕ → ℕ → ℕ → Bool → TimerManager × Bool × Bool
unfolding find_erase insert_timer
reset m now a ms from_now =
    let start = if from_now then now else sub64 (m.store a).next (m.store a).ms in
    let store = update m.store a (record (m.store a) { ms = ms; next = add64 start ms }) in
    if (ms == (m.store a).ms) && not from_now
    then (m, true, false)
    else if is_null (m.store a).cb
    then (m, false, false)
    else elim (find_erase m.store a m.timers) [
      | none ↦ (m, false, false)
      | some timers ↦
          let (m', at_front) = insert_timer (record m { store = store; timers = timers }) a in
          (m', true, at_front)
    ]

-- getNextTimer on the set: ~0ull where it is empty.
unfoldable pub time_to_first : Store → ℕ → List ℕ → ℕ
time_to_first store now [] = 2 ^ 64 - 1
time_to_first store now (a ∷ rest) = if leb (store a).next now then 0 else (store a).next - now

-- getNextTimer; it also clears m_tickled.
unfoldable pub get_next_timer : TimerManager → ℕ → TimerManager × ℕ
unfolding time_to_first
get_next_timer m now = (record m { tickled = false }, time_to_first m.store now m.timers)

-- detectClockRollover
unfoldable pub detect_clock_rollover : TimerManager → ℕ → TimerManager × Bool
detect_clock_rollover m now = (
  record m { previous_time = now },
  ltb now m.previous_time && ltb now (sub64 m.previous_time (60 * 60 * 1000)),
)

-- The timers from the front on that `lower_bound(now_timer)` and the loop behind it pass over: those
-- due before `now`, and then those due at `now`.
unfoldable pub split_due : Store → ℕ → List ℕ → List ℕ × List ℕ
split_due store now [] = ([], [])
split_due store now (a ∷ rest) =
    let (due, later) = split_due store now rest in
    if leb (store a).next now then (a ∷ due, later) else ([], a ∷ rest)

-- What the loop does to an expired timer: it is due again a period after `now`, or dead.
abbrev pub fired : ℕ → Timer → Timer
fired now t = if t.recurring then record t { next = add64 now t.ms } else record t { cb = none }

-- The loop over the expired timers: the store and the set afterwards, and the callbacks.
unfoldable pub fire : ℕ → Store → List ℕ → List ℕ → Store × List ℕ × List (Option ℕ)
unfolding insert
fire now store timers [] = (store, timers, [])
fire now store timers (a ∷ expired) =
    let changed = update store a (fired now (store a)) in
    let (store', timers', cbs) =
      fire now changed (if (store a).recurring then insert changed a timers else timers) expired in
    (store', timers', (store a).cb ∷ cbs)

abbrev is_empty : List ℕ → Bool
is_empty [] = true
is_empty (a ∷ rest) = false

-- hasTimer
unfoldable pub has_timer : TimerManager → Bool
has_timer m = not (is_empty m.timers)

abbrev first_later : Store → ℕ → List ℕ → Bool
first_later store now [] = true
first_later store now (a ∷ rest) = ltb now (store a).next

abbrev all_or_due : Bool → Store → ℕ → List ℕ → List ℕ × List ℕ
all_or_due rollover store now timers = if rollover then (timers, []) else split_due store now timers

-- listExpiredCb: the manager and the callbacks to call, in order.
unfoldable pub list_expired_cb : TimerManager → ℕ → TimerManager × List (Option ℕ)
unfolding split_due fire detect_clock_rollover
list_expired_cb m0 now =
    let (m, rollover) = detect_clock_rollover m0 now in
    let (expired, rest) = all_or_due rollover m.store now m.timers in
    let (store, timers, cbs) = fire now m.store rest expired in
    if is_empty m0.timers
    then (m0, [])
    else if not rollover && first_later m.store now m.timers
    then (m, [])
    else (record m { store = store; timers = timers }, cbs)
