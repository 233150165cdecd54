-- ===== src/Scheduler/Examples.antt =====
-- Rounds over the queue of src/base/coro/scheduler.cc.
use agent_link_coro.Prelude.{◌+◌, ◌≡◌, refl, false, not, [], ◌∷◌, none, some}
use agent_link_coro.Scheduler.{hold, fiber, cb, Scheduler, pick, take_task, is_empty, one_if_some}
use agent_link_coro.Scheduler.Picking.{Picked, take_task-Picked}

-- A callback for thread 9, and fiber 4 for any thread, twice.
abbrev busy : Scheduler
busy = record {
  fibers =
      (record { job = cb 3; thread = some 9 })
      ∷ (record { job = fiber 4; thread = none })
      ∷ (record { job = fiber 4; thread = none })
      ∷ [];
  states = λ f. hold;
  active_thread_count = 0;
  is_stopping = false;
  auto_stop = false;
}

take_by_eight : (take_task busy 8).1 ≡ some (record { job = fiber 4; thread = none })
unfolding take_task pick
take_by_eight = refl

take_task-Picked_example :
    let r = take_task busy 8 in
    Picked busy.states 8 busy.fibers r.1 r.0.fibers
    × (r.2 ≡ not (is_empty r.0.fibers))
    × (r.0.active_thread_count ≡ 0 + one_if_some r.1)
    × (r.0.states ≡ busy.states)
take_task-Picked_example = take_task-Picked busy 8

abbrev twice : Scheduler
twice = record busy {
  fibers =
      (record { job = fiber 4; thread = none }) ∷ (record { job = fiber 4; thread = none }) ∷ [];
}

abbrev pinned : Scheduler
pinned = record busy { fibers = (record { job = fiber 4; thread = some 8 }) ∷ [] }
