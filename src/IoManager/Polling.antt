-- ===== src/IoManager/Polling.antt =====
-- What the loop of IOManager::idle of src/base/coro/iomanager.cc does with what epoll_wait says.
use agent_link_coro.Prelude.{
  ℕ, ◌<◌, ◌≡◌, refl, ap, subst, ◌∙◌, Bool, true, false, not, ◌&&◌, ◌||◌, List, [], ◌++◌, arith,
  if◌then◌else◌,
}
use agent_link_coro.Outcome.{Outcome, ok, ◌>>=◌}
use agent_link_coro.IoManager.{
  Events, any_event, both_events, minus_events, real_events, CtlOp, Work, IoManager, Ready, commit,
  del_or_mod, on_ready,
}
use agent_link_coro.IoManager.Contexts.{count, jobs}
use agent_link_coro.IoManager.Triggers.{IsWithin, trigger_both_lem}
use agent_link_coro.IoManager.Invariant.{
  IsConsistent, pending_le, commit_lem, Fits-del_or_mod, count_le_total,
}
use agent_link_coro.IoManager.Answers.{Changed, Unchanged-refl, Answered, commit-Changed}

guarded_ready :
    (a b : Bool) (x : Outcome IoManager) (m : IoManager) (fd : ℕ) (e : Events)
    (work : List (ℕ × Work))
    → IsConsistent m
    → (a ≡ true → b ≡ true → (m' : IoManager) × (x ≡ ok m') × Changed m fd e work m')
    → (m' : IoManager) × ((if not a || not b then ok m else x) ≡ ok m')
      × Answered (a && b) m fd e work m'
guarded_ready true true x m fd e work v f = f refl refl
guarded_ready true false x m fd e work v f = (m, refl, Unchanged-refl m v)
guarded_ready false b x m fd e work v f = (m, refl, Unchanged-refl m v)

any_of_both : (a b : Events) → any_event (both_events a b) ≡ true → any_event a ≡ true
any_of_both a b h = by a.read a.write b.read b.write h
  where
    by : (x y z w : Bool) → ((x && z) || (y && w)) ≡ true → (x || y) ≡ true
    by true y z w h = refl
    by false true z w h = refl
    by false false z w h = h

pub on_ready_lem :
    (ctl : CtlOp → ℕ → Events → Bool) (m : IoManager) (ready : Ready)
    → IsConsistent m
    → ready.fd < m.size
    → let c = m.contexts ready.fd in
      let real = real_events ready c.events in
      let left_events = minus_events c.events real in
      let done =
        any_event (both_events c.events real)
        && ctl (del_or_mod left_events) ready.fd left_events in
      IsWithin real c.events
      → (m' : IoManager) × (on_ready ctl m ready ≡ ok m')
        × Answered done m ready.fd left_events
            ((if real.read then jobs c.read else []) ++ (if real.write then jobs c.write else []))
            m'
unfolding on_ready
on_ready_lem ctl m ready v lt within =
    let fd = ready.fd in
    let c = m.contexts fd in
    let real = real_events ready c.events in
    let left_events = minus_events c.events real in
    let op = del_or_mod left_events in
    let work =
      (if real.read then jobs c.read else []) ++ (if real.write then jobs c.write else []) in
    let good = v.contexts fd in
    subst
      (λ d.
        (m' : IoManager) × (on_ready ctl m ready ≡ ok m')
        × Answered (any_event (both_events c.events real) && ctl op d left_events) m fd left_events
            work m')
      good.own
      (guarded_ready (any_event (both_events c.events real)) (ctl op c.fd left_events) _ m fd
        left_events work v
        (λ h q.
          let (c', n, w, e, t) =
            trigger_both_lem (λ d. real) real fd c m.pending_event_count refl (λ d p. refl) within
              good (omega (arith, v.pending, count_le_total m.contexts m.size fd lt))
              (omega (arith, pending_le m v)) in
          (
            commit m fd op left_events c' n work,
            ap (λ o. o >>= λ r. ok (commit m fd op left_events r.0 r.1 r.2)) e
                ∙ ap (λ z. ok (commit m fd op left_events c' n z)) t.handed,
            commit-Changed m fd op left_events c' n work t.events (
                commit_lem m fd op left_events c' n work v lt t.good t.events
                  (Fits-del_or_mod c.events left_events (any_of_both c.events real h))
                  (omega (arith, t.counted, ap count t.events))),
          )))
