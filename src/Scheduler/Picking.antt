-- ===== src/Scheduler/Picking.antt =====
-- Which task a thread takes from the queue of src/base/coro/scheduler.cc.
use agent_link_coro.Prelude.{
  ℕ, ◌+◌, ◌≡◌, refl, ap, Bool, true, false, not, ◌||◌, List, [], ◌∷◌, ◌++◌, Option, none, some, All,
  inl, inr, Bool-cases,
}
use agent_link_coro.Scheduler.{
  State, FiberAndThread, Scheduler, is_empty, is_elsewhere, is_running, pick, take_task,
  one_if_some,
}

-- A task that the thread may not take: it is for another thread, or its fiber runs.
abbrev pub is_skipped : (ℕ → State) → ℕ → FiberAndThread → Bool
is_skipped states me ft = is_elsewhere me ft || is_running states ft

-- What has been taken from a queue: the first task that may be, and nothing else.
abbrev pub Picked :
    (ℕ → State) → ℕ → List FiberAndThread → Option FiberAndThread → List FiberAndThread → Type 0
Picked states me queue none rest = (rest ≡ queue) × All (λ ft. is_skipped states me ft ≡ true) queue
Picked states me queue (some ft) rest =
    (before : List FiberAndThread) × (behind : List FiberAndThread) × (queue
      ≡ before ++ ft ∷ behind)
    × (rest ≡ before ++ behind)
    × All (λ ft. is_skipped states me ft ≡ true) before
    × (is_skipped states me ft ≡ false)

skipped_first :
    (states : ℕ → State) (me : ℕ) (queue : List FiberAndThread) (ft : FiberAndThread)
    (taken : Option FiberAndThread) (rest : List FiberAndThread)
    → is_skipped states me ft ≡ true
    → Picked states me queue taken rest
    → Picked states me (ft ∷ queue) taken (ft ∷ rest)
skipped_first states me queue ft none rest h (e, all) = (ap (λ q. ft ∷ q) e, (h, all))
skipped_first states me queue ft (some t) rest h (before, behind, e, left, all, may) =
    (ft ∷ before, behind, ap (λ q. ft ∷ q) e, ap (λ q. ft ∷ q) left, (h, all), may)

pub pick-Picked :
    (states : ℕ → State) (me : ℕ) (queue : List FiberAndThread)
    → let r = pick states me queue in
      Picked states me queue r.0 r.1 × ((r.2 || not (is_empty r.1)) ≡ not (is_empty r.1))
unfolding pick
pick-Picked states me [] = ((refl, tt), refl)
pick-Picked states me (ft ∷ fts) =
    let (picked, tickle) = pick-Picked states me fts in
    elim (Bool-cases (is_elsewhere me ft)) [
      | inl e ↦
          rw e (
            skipped_first states me fts ft _ _ (ap (λ b. b || is_running states ft) e) picked,
            refl,
          )
      | inr e ↦ elim (Bool-cases (is_running states ft)) [
        | inl q ↦
            rw (e, q)
              (
                skipped_first states me fts ft _ _ (rw (e, q) refl) picked,
                or_true (pick states me fts).2,
              )
        | inr q ↦ rw (e, q) (([], fts, refl, refl, tt, rw (e, q) refl), refl)
      ]
    ]
  where
    or_true : (b : Bool) → (b || true) ≡ true
    or_true true = refl
    or_true false = refl

-- A round of run takes the first task of the queue that is for its thread and whose fiber does not run, and
-- no other; the rest keeps its order. Where there is no such task it takes none. It calls tickle exactly
-- where tasks are left, and counts a thread that has a task as active.
pub take_task-Picked :
    (s : Scheduler) (me : ℕ)
    → let r = take_task s me in
      Picked s.states me s.fibers r.1 r.0.fibers
      × (r.2 ≡ not (is_empty r.0.fibers))
      × (r.0.active_thread_count ≡ s.active_thread_count + one_if_some r.1)
      × (r.0.states ≡ s.states)
unfolding take_task
take_task-Picked s me =
    let (picked, tickle) = pick-Picked s.states me s.fibers in (picked, tickle, refl, refl)

-- The first task of a queue, where the thread may take it.
pub take_first :
    (s : Scheduler) (me : ℕ) (ft : FiberAndThread) (rest : List FiberAndThread)
    → s.fibers ≡ ft ∷ rest
    → is_elsewhere me ft ≡ false
    → is_running s.states ft ≡ false
    → take_task s me ≡ (
      record s { fibers = rest; active_thread_count = s.active_thread_count + 1 },
      some ft,
      not (is_empty rest),
    )
unfolding take_task pick
take_first s me ft rest e here idle = rw (e, here, idle) refl
