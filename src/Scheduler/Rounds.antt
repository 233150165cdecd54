-- ===== src/Scheduler/Rounds.antt =====
-- Rounds of two threads over the queue of src/base/coro/scheduler.cc.
use agent_link_coro.Scheduler.{Scheduler}
