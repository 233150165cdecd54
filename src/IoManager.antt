-- ===== src/IoManager.antt =====
-- src/base/coro/iomanager.h and iomanager.cc: which fiber or callback waits for which event of a file
-- descriptor. A FdContext belongs to the descriptor at whose index it stands. An int is a 32-bit
-- pattern. Schedulers, fibers and callbacks are numbers, and null is `none`. A failed assertion, a
-- null pointer followed and an index out of the vector are the outcome `fault`.
mod EventMask
unfoldable pub use EventMask.*
pub mod Contexts
pub mod Triggers
pub mod Invariant
pub mod Answers
pub mod Adding
pub mod Polling
pub mod Calls
pub mod Resize
mod Examples
use agent_link_coro.Prelude.{
  ℕ, zero, suc, ◌-◌, ◌*◌, ◌/◌, ◌%◌, ◌^◌, Bool, true, false, not, ◌&&◌, ◌||◌, List, [], ◌∷◌, ◌++◌,
  Option, none, some, ltb, ◌==◌, if◌then◌else◌,
}
use agent_link_coro.Prelude.Words.{add64, sub64}
use agent_link_coro.Outcome.{Outcome, ok, fault, ◌>>=◌}
use agent_link_coro.FdManager.{le_int}

-- A call of epoll_ctl that has succeeded; EPOLLET, which is always set, is left out.
pub data CtlOp : Type 0 where
  epoll_ctl_add epoll_ctl_mod epoll_ctl_del : CtlOp

pub record CtlCall : Type 0 where
  pub op : CtlOp
  pub fd : ℕ
  pub events : Events

-- `size` contexts; those behind them are as contextResize would make them. `ctl_calls` are the calls
-- of epoll_ctl, the last one first, and `scheduled` what has been handed to which scheduler.
pub record IoManager : Type 0 where
  pub size : ℕ
  pub contexts : ℕ → FdContext
  pub pending_event_count : ℕ
  pub ctl_calls : List CtlCall
  pub scheduled : List (ℕ × Work)

-- contextResize
unfoldable pub context_resize : IoManager → ℕ → IoManager
context_resize m size = record m {
  size = size;
  contexts = λ i. if ltb i m.size && ltb i size then m.contexts i else new_fd_context i;
}

-- IOManager::IOManager, as far as contexts go.
unfoldable pub new_io_manager : IoManager
unfolding context_resize
new_io_manager =
    context_resize
      (record {
        size = 0;
        contexts = new_fd_context;
        pending_event_count = 0;
        ctl_calls = [];
        scheduled = [];
      })
      32

-- `m_fdContexts[fd]`
abbrev pub context_at : IoManager → ℕ → Outcome FdContext
context_at m fd = if ltb fd m.size then ok (m.contexts fd) else fault

-- `(int)m_fdContexts.size() <= fd`
unfoldable pub is_beyond : IoManager → ℕ → Bool
unfolding le_int
is_beyond m fd = le_int (m.size % 2 ^ 32) fd

abbrev pub update : (ℕ → FdContext) → ℕ → FdContext → ℕ → FdContext
update contexts fd c i = if i == fd then c else contexts i

-- A call of epoll_ctl that succeeds with what is done after it: the context of `fd` and the number of
-- pending events change, and work is scheduled.
abbrev pub commit : IoManager → ℕ → CtlOp → Events → FdContext → ℕ → List (ℕ × Work) → IoManager
commit m fd op asked c count work = record m {
  contexts = update m.contexts fd c;
  pending_event_count = count;
  ctl_calls = (record { op = op; fd = fd; events = asked }) ∷ m.ctl_calls;
  scheduled = m.scheduled ++ work;
}

-- Who calls addEvent: Scheduler::GetThis, Fiber::GetThis and whether that fiber is running.
pub record Caller : Type 0 where
  pub scheduler : Option ℕ
  pub fiber : ℕ
  pub is_exec : Bool

abbrev is_null : Option ℕ → Bool
is_null none = true
is_null (some x) = false

abbrev pub is_reset : EventContext → Bool
is_reset e = is_null e.scheduler && is_null e.fiber && is_null e.cb

-- The context of an event that addEvent registers.
abbrev pub armed_context : Caller → Option ℕ → Outcome EventContext
armed_context who (some cb) = ok (record { scheduler = who.scheduler; fiber = none; cb = some cb })
armed_context who none =
    if who.is_exec
    then ok (record { scheduler = who.scheduler; fiber = some who.fiber; cb = none })
    else fault

-- The first part of addEvent, under the lock of the manager: `look` under the read lock, where `true`
-- says that the contexts do not reach to the descriptor, and `grow` under the write lock.
unfoldable pub grow : IoManager → ℕ → IoManager
unfolding context_resize
grow m fd = context_resize m (fd * 3 / 2)

-- The second part, under the lock of the context. `ctl` says whether epoll_ctl succeeds, and the
-- Boolean returned that the code returns 0 and not -1.
unfoldable pub register :
    (CtlOp → ℕ → Events → Bool)
    → IoManager
    → ℕ
    → Event
    → Caller
    → Option ℕ
    → Outcome (IoManager × Bool)
register ctl m fd event who cb = do
  c ← context_at m fd
  let op = (if any_event c.events then epoll_ctl_mod else epoll_ctl_add) in
      let asked = with_event c.events event in
      if has c.events event then fault else if not (ctl op fd asked) then ok (m, false) else (do
        e ← get_context c event
        armed ← armed_context who cb
        if not (is_reset e)
            then fault
            else ok (
              commit m fd op asked (set_context (record c { events = asked }) event armed)
                  (add64 m.pending_event_count 1) [],
              true,
            ))

-- addEvent
unfoldable pub add_event :
    (CtlOp → ℕ → Events → Bool)
    → IoManager
    → ℕ
    → Event
    → Caller
    → Option ℕ
    → Outcome (IoManager × Bool)
unfolding register grow is_beyond
add_event ctl m fd event who cb =
    register ctl (if is_beyond m fd then grow m fd else m) fd event who cb

abbrev pub del_or_mod : Events → CtlOp
del_or_mod left = if any_event left then epoll_ctl_mod else epoll_ctl_del

-- delEvent
unfoldable pub del_event :
    (CtlOp → ℕ → Events → Bool) → IoManager → ℕ → Event → Outcome (IoManager × Bool)
unfolding is_beyond
del_event ctl m fd event = if is_beyond m fd then ok (m, false) else (do
  c ← context_at m fd
  let new_events = without_event c.events event in
      if not (has c.events event) || not (ctl (del_or_mod new_events) fd new_events)
      then ok (m, false)
      else ok (
        commit m fd (del_or_mod new_events) new_events
            (set_context (record c { events = new_events }) event reset_context)
            (sub64 m.pending_event_count 1) [],
        true,
      ))

-- cancelEvent
unfoldable pub cancel_event :
    (CtlOp → ℕ → Events → Bool) → IoManager → ℕ → Event → Outcome (IoManager × Bool)
unfolding is_beyond trigger_event
cancel_event ctl m fd event = if is_beyond m fd then ok (m, false) else (do
  c ← context_at m fd
  let new_events = without_event c.events event in
      if not (has c.events event) || not (ctl (del_or_mod new_events) fd new_events)
      then ok (m, false)
      else (do
        r ← trigger_event c event
        ok (
          commit m fd (del_or_mod new_events) new_events r.0 (sub64 m.pending_event_count 1) r.1,
          true,
        )))

-- cancelAll
unfoldable pub cancel_all : (CtlOp → ℕ → Events → Bool) → IoManager → ℕ → Outcome (IoManager × Bool)
unfolding is_beyond trigger_both
cancel_all ctl m fd = if is_beyond m fd then ok (m, false) else (do
  c ← context_at m fd
  if not (any_event c.events) || not (ctl epoll_ctl_del fd no_events) then ok (m, false) else (do
    r ← trigger_both (λ d. d.events) c m.pending_event_count
    if any_event r.0.events
        then fault
        else ok (commit m fd epoll_ctl_del no_events r.0 r.1 r.2, true)))

-- What epoll_wait says of a descriptor: readable, writable, and an error or a hang-up.
pub record Ready : Type 0 where
  pub fd : ℕ
  pub readable : Bool
  pub writable : Bool
  pub failed : Bool

-- real_events
abbrev pub real_events : Ready → Events → Events
real_events r events = record {
  read = r.readable || (r.failed && events.read);
  write = r.writable || (r.failed && events.write);
}

abbrev pub both_events : Events → Events → Events
both_events a b = record { read = a.read && b.read; write = a.write && b.write }

abbrev pub minus_events : Events → Events → Events
minus_events a b = record { read = a.read && not b.read; write = a.write && not b.write }

-- The body of the loop of idle over what epoll_wait gives, for an event of a context.
unfoldable pub on_ready : (CtlOp → ℕ → Events → Bool) → IoManager → Ready → Outcome IoManager
unfolding trigger_both
on_ready ctl m ready =
    let c = m.contexts ready.fd in
    let real = real_events ready c.events in
    let left_events = minus_events c.events real in
    if not (any_event (both_events c.events real))
      || not (ctl (del_or_mod left_events) c.fd left_events)
    then ok m
    else (do
      r ← trigger_both (λ d. real) c m.pending_event_count
      ok (commit m ready.fd (del_or_mod left_events) left_events r.0 r.1 r.2))

-- IOManager::stopping: `no_timer` says that there is no timer, and the last argument what
-- Scheduler::stopping gives.
unfoldable pub stopping : IoManager → Bool → Bool → Bool
stopping m no_timer scheduler_stopping =
    no_timer && (m.pending_event_count == 0) && scheduler_stopping
