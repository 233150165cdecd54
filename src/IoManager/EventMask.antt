-- ===== src/IoManager/EventMask.antt =====
-- One FdContext of src/base/coro/iomanager.h and iomanager.cc: the mask of its events, what waits for
-- each, and triggerEvent.
use agent_link_coro.Prelude.{
  ℕ, Bool, true, false, not, ◌||◌, List, [], ◌∷◌, ◌++◌, Option, none, some, if◌then◌else◌,
}
use agent_link_coro.Prelude.Words.{sub64}
use agent_link_coro.Outcome.{Outcome, ok, fault, ◌>>=◌}

-- enum Event. An event of the enum, and a mask made of READ and WRITE.
pub data Event : Type 0 where
  none_event read_event write_event : Event

pub record Events : Type 0 where
  pub read : Bool
  pub write : Bool

abbrev pub no_events : Events
no_events = record { read = false; write = false }

-- `events & event`, `events | event`, `events & ~event`, and `events` as a condition.
abbrev pub has : Events → Event → Bool
has e none_event = false
has e read_event = e.read
has e write_event = e.write

abbrev pub with_event : Events → Event → Events
with_event e none_event = e
with_event e read_event = record e { read = true }
with_event e write_event = record e { write = true }

abbrev pub without_event : Events → Event → Events
without_event e none_event = e
without_event e read_event = record e { read = false }
without_event e write_event = record e { write = false }

abbrev pub any_event : Events → Bool
any_event e = e.read || e.write

-- struct EventContext and struct FdContext
pub record EventContext : Type 0 where
  pub scheduler : Option ℕ
  pub fiber : Option ℕ
  pub cb : Option ℕ

abbrev pub reset_context : EventContext
reset_context = record { scheduler = none; fiber = none; cb = none }

pub record FdContext : Type 0 where
  pub read : EventContext
  pub write : EventContext
  pub fd : ℕ
  pub events : Events

abbrev pub new_fd_context : ℕ → FdContext
new_fd_context fd = record {
  read = reset_context;
  write = reset_context;
  fd = fd;
  events = no_events;
}

-- What a scheduler is given to run.
pub data Work : Type 0 where
  callback : ℕ → Work
  fiber : ℕ → Work

-- getContext, to read and to write.
abbrev pub get_context : FdContext → Event → Outcome EventContext
get_context c none_event = fault
get_context c read_event = ok c.read
get_context c write_event = ok c.write

abbrev pub set_context : FdContext → Event → EventContext → FdContext
set_context c none_event e = c
set_context c read_event e = record c { read = e }
set_context c write_event e = record c { write = e }

-- What `ctx.scheduler->schedule(...)` in triggerEvent is given, and the context after it: the pointer
-- given is swapped out of the context, and a null one is not scheduled.
abbrev schedule_parts : Option ℕ → Option ℕ → Option ℕ → Outcome (EventContext × List (ℕ × Work))
schedule_parts none f cb = fault
schedule_parts (some s) f (some cb) =
    ok (record { scheduler = none; fiber = f; cb = none }, (s, callback cb) ∷ [])
schedule_parts (some s) (some f) none = ok (reset_context, (s, fiber f) ∷ [])
schedule_parts (some s) none none = ok (reset_context, [])

abbrev pub schedule_context : EventContext → Outcome (EventContext × List (ℕ × Work))
schedule_context e = schedule_parts e.scheduler e.fiber e.cb

-- triggerEvent: the context, and what is scheduled.
unfoldable pub trigger_event : FdContext → Event → Outcome (FdContext × List (ℕ × Work))
trigger_event c event = if not (has c.events event) then ok (c, []) else (do
  e ← get_context c event
  r ← schedule_context e
  ok (set_context (record c { events = without_event c.events event }) event r.0, r.1))

-- `if (events & event) { triggerEvent(event); --m_pendingEventCount; }`: the context, the number and
-- what is scheduled.
unfoldable pub trigger_if : Bool → Event → FdContext → ℕ → Outcome (FdContext × ℕ × List (ℕ × Work))
unfolding trigger_event
trigger_if wanted event c count =
    if not wanted
    then ok (c, count, [])
    else (do r ← trigger_event c event; ok (r.0, sub64 count 1, r.1))

-- READ and then WRITE. `wanted` gives the mask that each is tested against, from the context then.
unfoldable pub trigger_both :
    (FdContext → Events) → FdContext → ℕ → Outcome (FdContext × ℕ × List (ℕ × Work))
unfolding trigger_if
trigger_both wanted c count = do
  r ← trigger_if (has (wanted c) read_event) read_event c count
  w ← trigger_if (has (wanted r.0) write_event) write_event r.0 r.1
  ok (w.0, w.1, r.2 ++ w.2)
