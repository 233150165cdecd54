-- ===== src/IoManager/Calls.antt =====
-- Histories of calls of the IOManager of src/base/coro/iomanager.cc, and of what epoll says between them.
use agent_link_coro.Prelude.{
  ℕ, ◌<◌, ◌≡◌, refl, sym, ap, subst, ◌∙◌, Bool, true, false, ◌&&◌, List, Option, arith, ltb, ltb→lt,
  ltb→le, Bool-cases, inl, inr, ==_iff,
}
use agent_link_coro.Outcome.{Outcome, ok, ◌>>=◌}
use agent_link_coro.IoManager.{
  Event, Events, no_events, real_events, CtlOp, Caller, Ready, IoManager, Work, new_io_manager,
  add_event, del_event, cancel_event, cancel_all, on_ready, stopping,
}
use agent_link_coro.IoManager.Contexts.{count}
use agent_link_coro.IoManager.Triggers.{IsWithin}
use agent_link_coro.IoManager.Invariant.{
  IsConsistent, IsFd, new_io_manager-IsConsistent, count_le_total,
}
use agent_link_coro.IoManager.Answers.{Answered, del_event_lem, cancel_event_lem, cancel_all_lem}
use agent_link_coro.IoManager.Adding.{CanAdd, add_event_lem}
use agent_link_coro.IoManager.Polling.{on_ready_lem}

-- A call, or a report of epoll.
pub data Call : Type 0 where
  adds : (fd : ℕ) (event : Event) (who : Caller) (cb : Option ℕ) → Call
  deletes cancels : (fd : ℕ) (event : Event) → Call
  cancels_all : (fd : ℕ) → Call
  reports : Ready → Call

-- The manager after a call, with what epoll_ctl says to it.
unfoldable pub step : (CtlOp → ℕ → Events → Bool) → IoManager → Call → Outcome IoManager
step ctl m (adds fd event who cb) = add_event ctl m fd event who cb >>= λ r. ok r.0
step ctl m (deletes fd event) = del_event ctl m fd event >>= λ r. ok r.0
step ctl m (cancels fd event) = cancel_event ctl m fd event >>= λ r. ok r.0
step ctl m (cancels_all fd) = cancel_all ctl m fd >>= λ r. ok r.0
step ctl m (reports ready) = on_ready ctl m ready

-- The descriptors are such as the system gives; nothing is added twice; and epoll reports nothing but
-- what is in the mask.
abbrev pub IsAllowed : IoManager → Call → Type 0
IsAllowed m (adds fd event who cb) = IsFd fd × (s : ℕ) × (w : Work) × CanAdd m fd event who cb s w
IsAllowed m (deletes fd event) = IsFd fd
IsAllowed m (cancels fd event) = IsFd fd
IsAllowed m (cancels_all fd) = IsFd fd
IsAllowed m (reports ready) =
    (ready.fd < m.size)
    × IsWithin (real_events ready (m.contexts ready.fd).events) (m.contexts ready.fd).events

IsConsistent-after :
    (done : Bool) (m : IoManager) (fd : ℕ) (e : Events) (work : List (ℕ × Work)) (m' : IoManager)
    → Answered done m fd e work m'
    → IsConsistent m'
IsConsistent-after true m fd e work m' a = a.consistent
IsConsistent-after false m fd e work m' a = a.consistent

pub step-IsConsistent :
    (ctl : CtlOp → ℕ → Events → Bool) (m : IoManager) (c : Call)
    → IsConsistent m
    → IsAllowed m c
    → (m' : IoManager) × (step ctl m c ≡ ok m') × IsConsistent m'
unfolding step
step-IsConsistent ctl m (adds fd event who cb) v (small, s, w, can) =
    let (m', e, a, _) = add_event_lem ctl m fd event who cb s w v small can in
    (m', ap (λ o. o >>= λ r. ok r.0) e, IsConsistent-after _ m fd _ _ m' a)
step-IsConsistent ctl m (deletes fd event) v small =
    let (m', e, a) = del_event_lem ctl m fd event v small in
    (m', ap (λ o. o >>= λ r. ok r.0) e, IsConsistent-after _ m fd _ _ m' a)
step-IsConsistent ctl m (cancels fd event) v small =
    let (m', e, a) = cancel_event_lem ctl m fd event v small in
    (m', ap (λ o. o >>= λ r. ok r.0) e, IsConsistent-after _ m fd _ _ m' a)
step-IsConsistent ctl m (cancels_all fd) v small =
    let (m', e, a) = cancel_all_lem ctl m fd v small in
    (m', ap (λ o. o >>= λ r. ok r.0) e, IsConsistent-after _ m fd _ _ m' a)
step-IsConsistent ctl m (reports ready) v (lt, within) =
    let (m', e, a) = on_ready_lem ctl m ready v lt within in
    (m', e, IsConsistent-after _ m ready.fd _ _ m' a)

-- The managers that calls can lead to from a new one, whatever epoll_ctl says each time.
pub data Reach : IoManager → Type 0 where
  created : Reach new_io_manager
  after :
      {m m' : IoManager} (ctl : CtlOp → ℕ → Events → Bool) (c : Call)
      → Reach m
      → IsAllowed m c
      → step ctl m c ≡ ok m'
      → Reach m'

ok-injective : {m m' : IoManager} → ◌≡◌ {A = Outcome IoManager} (ok m) (ok m') → m ≡ m'
ok-injective e = cc

-- In every manager that any history of allowed calls and reports leads to, each context is set exactly
-- as its mask says, epoll watches what the masks say, each call of epoll_ctl made was one that epoll
-- could accept, and the number of pending events is that of the events in all masks.
pub Reach-IsConsistent : (m : IoManager) → Reach m → IsConsistent m
Reach-IsConsistent m created = new_io_manager-IsConsistent
Reach-IsConsistent m (after ctl c before allowed e) =
    let (m2, e2, v) = step-IsConsistent ctl _ c (Reach-IsConsistent _ before) allowed in
    subst IsConsistent (ok-injective (sym e2 ∙ e)) v

-- No allowed call that comes next fails.
pub Reach-step :
    (ctl : CtlOp → ℕ → Events → Bool) (m : IoManager) (c : Call)
    → Reach m
    → IsAllowed m c
    → (m' : IoManager) × (step ctl m c ≡ ok m') × Reach m'
Reach-step ctl m c r allowed =
    let (m', e, v) = step-IsConsistent ctl m c (Reach-IsConsistent m r) allowed in
    (m', e, after ctl c r allowed e)

-- An IOManager that any history of allowed calls and reports leads to says that it can stop only where
-- no mask has an event, so that nothing waits.
pub stopping_lem :
    (m : IoManager) (no_timer scheduler_stopping : Bool)
    → Reach m
    → stopping m no_timer scheduler_stopping ≡ true
    → (fd : ℕ) → (m.contexts fd).events ≡ no_events
unfolding stopping
stopping_lem m no_timer scheduler_stopping r h fd =
    let v = Reach-IsConsistent m r in
    let none_pending : m.pending_event_count ≡ 0 =
      (==_iff m.pending_event_count 0).0 (middle no_timer _ scheduler_stopping h) in
    elim (Bool-cases (ltb fd m.size)) [
      | inl q ↦ empty (m.contexts fd).events.read (m.contexts fd).events.write (
          omega (
            arith,
            none_pending,
            v.pending,
            count_le_total m.contexts m.size fd (ltb→lt fd m.size q),
          ))
      | inr q ↦ ap (λ c. c.events) (v.beyond fd (ltb→le fd m.size q))
    ]
  where
    middle : (a b c : Bool) → (a && b && c) ≡ true → b ≡ true
    middle true true c e = refl
    middle true false true e = e
    middle true false false e = e
    middle false b c e = absurd (lie e)
      where
        lie : false ≡ true → ⊥
        lie e = cc

    empty :
        (a b : Bool)
        → count (record { read = a; write = b }) ≡ 0
        → ◌≡◌ {A = Events} (record { read = a; write = b }) no_events
    empty true b e = absurd (omega (arith, e))
    empty false true e = absurd (omega (arith, e))
    empty false false e = refl
