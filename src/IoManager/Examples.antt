-- ===== src/IoManager/Examples.antt =====
-- Runs of the IOManager of src/base/coro/iomanager.cc.
use agent_link_coro.Prelude.{
  ℕ, ◌≤◌, ◌<◌, ◌≡◌, ◌≢◌, refl, Bool, true, false, [], ◌∷◌, none, some, arith, ◌&&◌, ltb,
  if◌then◌else◌,
}
use agent_link_coro.Prelude.Words.{add64, sub64}
use agent_link_coro.Outcome.{ok}
use agent_link_coro.FdManager.{le_int}
use agent_link_coro.IoManager.{
  has, new_fd_context, read_event, Events, no_events, CtlOp, epoll_ctl_add, Caller, callback, Ready,
  IoManager, context_resize, new_io_manager, grow, is_beyond, commit, register, add_event,
  cancel_event, on_ready, stopping,
}
use agent_link_coro.IoManager.Contexts.{armed}
use agent_link_coro.IoManager.Invariant.{IsConsistent, total, new_io_manager-IsConsistent}
use agent_link_coro.IoManager.Answers.{Changed, cancel_event_lem}
use agent_link_coro.IoManager.Adding.{CanAdd, add_event_lem}
use agent_link_coro.IoManager.Calls.{
  adds, step, Reach, created, after, Reach-IsConsistent, stopping_lem,
}
use agent_link_coro.IoManager.Resize.{resize_race, stale_report}

-- epoll_ctl that succeeds.
abbrev succeeds : CtlOp → ℕ → Events → Bool
succeeds op fd e = true

abbrev runner : Caller
runner = record { scheduler = some 1; fiber = 2; is_exec = true }

abbrev reading : Events
reading = record { read = true; write = false }

-- The manager in which callback 7 waits to read from descriptor 5.
abbrev waits_for_five : IoManager
waits_for_five =
    commit new_io_manager 5 epoll_ctl_add reading
      (record {
        read = armed 1 (callback 7);
        write = record { scheduler = none; fiber = none; cb = none };
        fd = 5;
        events = reading;
      })
      1 []

new-CanAdd : (fd : ℕ) → CanAdd new_io_manager fd read_event runner (some 7) 1 (callback 7)
unfolding new_io_manager context_resize
new-CanAdd fd = record {
  is_event = λ e. cc;
  is_new = by (ltb fd 0 && ltb fd 32);
  scheduler = refl;
  waits = refl;
}
  where
    by :
        (b : Bool)
        → has (if b then new_fd_context fd else new_fd_context fd).events read_event ≡ false
    by true = refl
    by false = refl

added : step succeeds new_io_manager (adds 5 read_event runner (some 7)) ≡ ok waits_for_five
unfolding step add_event register is_beyond le_int new_io_manager context_resize add64
added = refl

waits-Reach : Reach waits_for_five
waits-Reach =
    after succeeds (adds 5 read_event runner (some 7)) created
      (omega arith, 1, callback 7, new-CanAdd 5) added

waits-IsConsistent : IsConsistent waits_for_five
waits-IsConsistent = Reach-IsConsistent waits_for_five waits-Reach

five_lt : 5 < waits_for_five.size
unfolding new_io_manager context_resize
five_lt = omega arith

few_le : new_io_manager.size ≤ 40
unfolding new_io_manager context_resize
few_le = omega arith

Reach-IsConsistent_example : IsConsistent waits_for_five
Reach-IsConsistent_example = Reach-IsConsistent waits_for_five waits-Reach

stopping_lem_example : (new_io_manager.contexts 5).events ≡ no_events
unfolding stopping new_io_manager context_resize
stopping_lem_example = stopping_lem new_io_manager true true created refl 5

cancel_event_lem_example :
    (m' : IoManager) × (cancel_event succeeds waits_for_five 5 read_event ≡ ok (m', true))
    × Changed waits_for_five 5 no_events ((1, callback 7) ∷ []) m'
cancel_event_lem_example =
    cancel_event_lem succeeds waits_for_five 5 read_event waits-IsConsistent (omega arith)

add_event_lem_example :
    (m' : IoManager) × (add_event succeeds new_io_manager 40 read_event runner (some 7)
      ≡ ok (m', true))
    × Changed new_io_manager 40 reading [] m'
    × (true ≡ true → (m'.contexts 40).read ≡ armed 1 (callback 7))
unfolding new_io_manager context_resize
add_event_lem_example =
    add_event_lem succeeds new_io_manager 40 read_event runner (some 7) 1 (callback 7)
      new_io_manager-IsConsistent (omega arith) (new-CanAdd 40)

-- The descriptor has hung up.
abbrev hung_up : Ready
hung_up = record { fd = 5; readable = false; writable = false; failed = true }

resize_race_example :
    (is_beyond new_io_manager 40 ≡ true)
    × (m1 : IoManager) × (add_event succeeds new_io_manager 100 read_event runner (some 7)
        ≡ ok (m1, true))
    × (0 < (grow m1 40).pending_event_count)
    × ((ctl' : CtlOp → ℕ → Events → Bool)
        → cancel_event ctl' (grow m1 40) 100 read_event ≡ ok (grow m1 40, false))
resize_race_example =
    resize_race succeeds new_io_manager 40 100 read_event runner (some 7) 1 (callback 7)
      new_io_manager-IsConsistent few_le (omega arith) (omega arith) (new-CanAdd 100) refl

stale_report_example :
    (m' : IoManager) × (on_ready succeeds waits_for_five
        (record { fd = 5; readable = true; writable = true; failed = false })
      ≡ ok m')
    × ((m'.contexts 5).events ≡ no_events)
    × (m'.pending_event_count ≡ sub64 (sub64 1 1) 1)
    × (m'.pending_event_count ≢ total m'.contexts m'.size)
stale_report_example = stale_report succeeds waits_for_five 5 waits-IsConsistent five_lt refl refl
