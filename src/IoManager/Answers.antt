-- ===== src/IoManager/Answers.antt =====
-- What delEvent, cancelEvent, cancelAll and addEvent of src/base/coro/iomanager.cc do and return.
use agent_link_coro.Prelude.{
  ℕ, ◌+◌, ◌≤◌, ◌<◌, ◌≡◌, ◌≢◌, refl, sym, ap, ◌∙◌, Bool, true, false, not, ◌&&◌, ◌||◌, List, [],
  ◌++◌, arith, leb, if◌then◌else◌, inl, inr, Bool-cases, leb→le, leb→lt, lt→ltb,
}
use agent_link_coro.Prelude.Words.{sub64, sub64_no_wrap}
use agent_link_coro.Outcome.{Outcome, ok, fault, ◌>>=◌}
use agent_link_coro.IoManager.{
  Event, none_event, read_event, write_event, Events, no_events, has, without_event, any_event,
  minus_events, EventContext, reset_context, FdContext, CtlOp, epoll_ctl_del, Work, IoManager,
  set_context, commit, del_or_mod, del_event, cancel_event, cancel_all,
}
use agent_link_coro.IoManager.Contexts.{
  IsContext, IsArmed, count, jobs, waiting, trigger_event_lem, jobs-armed,
}
use agent_link_coro.IoManager.Triggers.{trigger_both_lem}
use agent_link_coro.IoManager.Invariant.{
  IsConsistent, IsFd, is_beyond_lem, pending_le, commit_lem, Fits-del_or_mod, update_here,
  update_other, count_le_total,
}

-- A manager that has changed the context of one descriptor, to the mask `e`, and scheduled `work`.
pub record Changed (m : IoManager) (fd : ℕ) (e : Events) (work : List (ℕ × Work)) (m' : IoManager)
    : Type 0 where
  pub consistent : IsConsistent m'
  pub events : (m'.contexts fd).events ≡ e
  pub others : (i : ℕ) → i ≢ fd → m'.contexts i ≡ m.contexts i
  pub scheduled : m'.scheduled ≡ m.scheduled ++ work

pub record Unchanged (m m' : IoManager) : Type 0 where
  pub consistent : IsConsistent m'
  pub contexts : (i : ℕ) → m'.contexts i ≡ m.contexts i
  pub scheduled : m'.scheduled ≡ m.scheduled

-- A call that has returned true or false.
abbrev pub Answered : Bool → IoManager → ℕ → Events → List (ℕ × Work) → IoManager → Type 0
Answered true m fd e work m' = Changed m fd e work m'
Answered false m fd e work m' = Unchanged m m'

pub Unchanged-refl : (m : IoManager) → IsConsistent m → Unchanged m m
Unchanged-refl m v = record { consistent = v; contexts = λ i. refl; scheduled = refl }

-- The two tests before a change.
pub guarded :
    (a b : Bool) (x : Outcome (IoManager × Bool)) (m : IoManager) (fd : ℕ) (e : Events)
    (work : List (ℕ × Work))
    → IsConsistent m
    → (a ≡ true → b ≡ true → (m' : IoManager) × (x ≡ ok (m', true)) × Changed m fd e work m')
    → (m' : IoManager) × ((if not a || not b then ok (m, false) else x) ≡ ok (m', a && b))
      × Answered (a && b) m fd e work m'
guarded true true x m fd e work v f = f refl refl
guarded true false x m fd e work v f = (m, refl, Unchanged-refl m v)
guarded false b x m fd e work v f = (m, refl, Unchanged-refl m v)

-- A change that `commit` makes.
pub commit-Changed :
    (m : IoManager) (fd : ℕ) (op : CtlOp) (e : Events) (c : FdContext) (n : ℕ)
    (work : List (ℕ × Work))
    → c.events ≡ e
    → IsConsistent (commit m fd op e c n work)
    → Changed m fd e work (commit m fd op e c n work)
commit-Changed m fd op e c n work events v = record {
  consistent = v;
  events = ap (λ d. d.events) (update_here m.contexts fd c) ∙ events;
  others = λ i ne. update_other m.contexts fd i c ne;
  scheduled = refl;
}

pub any_has : (e : Events) (event : Event) → has e event ≡ true → any_event e ≡ true
any_has e none_event h = absurd (lie h)
  where
    lie : false ≡ true → ⊥
    lie e = cc
any_has e read_event h = rw h refl
any_has e write_event h = by_read e.read
  where
    by_read : (r : Bool) → (r || e.write) ≡ true
    by_read true = refl
    by_read false = h

-- What delEvent puts in place.
deleted_lem :
    (fd : ℕ) (c : FdContext) (event : Event)
    → IsContext fd c
    → has c.events event ≡ true
    → let c' =
        set_context (record c { events = without_event c.events event }) event reset_context in
      IsContext fd c'
      × (c'.events ≡ without_event c.events event)
      × (count c.events ≡ count c'.events + 1)
deleted_lem fd c none_event g h = absurd (lie h)
  where
    lie : false ≡ true → ⊥
    lie e = cc
deleted_lem fd c read_event g h =
    (record { own = g.own; read = refl; write = g.write }, refl, rw h (omega arith))
deleted_lem fd c write_event g h =
    (record { own = g.own; read = g.read; write = refl }, refl, rw h (omega arith))

-- One pending event fewer.
one_less :
    (m : IoManager) (fd k : ℕ)
    → IsConsistent m
    → fd < m.size
    → count (m.contexts fd).events ≡ k + 1
    → sub64 m.pending_event_count 1 + count (m.contexts fd).events ≡ m.pending_event_count + k
one_less m fd k v lt e =
    let le = count_le_total m.contexts m.size fd lt in
    omega (
      arith,
      e,
      v.pending,
      sub64_no_wrap m.pending_event_count 1 (omega (arith, e, v.pending))
          (omega (arith, pending_le m v)),
    )

module _ (ctl : CtlOp → ℕ → Events → Bool) (m : IoManager) (fd : ℕ) (event : Event)
    (v : IsConsistent m) (small : IsFd fd) where
  none_beyond : m.size ≤ fd → has (m.contexts fd).events event ≡ false
  none_beyond h = ap (λ c. has c.events event) (v.beyond fd h) ∙ by event
    where
      by : (e : Event) → has no_events e ≡ false
      by none_event = refl
      by read_event = refl
      by write_event = refl

  -- In a consistent manager and for a descriptor below 2 ^ 30, delEvent returns true exactly where the event is in the mask and epoll_ctl succeeds; then it takes
  -- it out of the mask and schedules nothing, and otherwise it changes nothing.
  pub del_event_lem :
      let c = m.contexts fd in
      let left_events = without_event c.events event in
      let done = has c.events event && ctl (del_or_mod left_events) fd left_events in
      (m' : IoManager) × (del_event ctl m fd event ≡ ok (m', done))
      × Answered done m fd left_events [] m'
  unfolding del_event
  del_event_lem =
      let c = m.contexts fd in
      let left_events = without_event c.events event in
      elim (Bool-cases (leb m.size fd)) [
        | inl beyond ↦
            let no = none_beyond (leb→le m.size fd beyond) in
            rw (is_beyond_lem m fd v small, beyond, no) (m, refl, Unchanged-refl m v)
        | inr within ↦
            let lt = leb→lt m.size fd within in
            rw (is_beyond_lem m fd v small, within, lt→ltb fd m.size lt)
              (guarded (has c.events event) (ctl (del_or_mod left_events) fd left_events) _ m fd
                left_events [] v
                (λ h q.
                  let (good, events, counted) = deleted_lem fd c event (v.contexts fd) h in
                  (
                    _,
                    refl,
                    commit-Changed m fd (del_or_mod left_events) left_events _ _ [] events (
                        commit_lem m fd (del_or_mod left_events) left_events _ _ [] v lt good events
                          (Fits-del_or_mod c.events left_events (any_has c.events event h))
                          (omega (
                            arith,
                            ap count events,
                            one_less m fd (count left_events) v lt
                                (omega (arith, counted, ap count events)),
                          ))),
                  )))
      ]

  -- In a consistent manager and for a descriptor below 2 ^ 30, cancelEvent returns true exactly where
  -- the event is in the mask and epoll_ctl succeeds; then it takes it out of the mask and hands what
  -- waits for it to its scheduler, and otherwise it changes nothing.
  pub cancel_event_lem :
      let c = m.contexts fd in
      let left_events = without_event c.events event in
      let done = has c.events event && ctl (del_or_mod left_events) fd left_events in
      (m' : IoManager) × (cancel_event ctl m fd event ≡ ok (m', done))
      × Answered done m fd left_events (jobs (waiting c event)) m'
  unfolding cancel_event
  cancel_event_lem =
      let c = m.contexts fd in
      let left_events = without_event c.events event in
      let op = del_or_mod left_events in
      elim (Bool-cases (leb m.size fd)) [
        | inl beyond ↦
            let no = none_beyond (leb→le m.size fd beyond) in
            rw (is_beyond_lem m fd v small, beyond, no) (m, refl, Unchanged-refl m v)
        | inr within ↦
            let lt = leb→lt m.size fd within in
            rw (is_beyond_lem m fd v small, within, lt→ltb fd m.size lt)
              (guarded (has c.events event) (ctl op fd left_events) _ m fd left_events
                (jobs (waiting c event)) v
                (λ h q.
                  let (c', s, w, e, t) = trigger_event_lem fd c event (v.contexts fd) h in
                  let handed = sym (ap jobs t.was ∙ jobs-armed s w) in
                  let n = sub64 m.pending_event_count 1 in
                  (
                    commit m fd op left_events c' n (jobs (waiting c event)),
                    ap (λ o. o >>= λ r. ok (commit m fd op left_events r.0 n r.1, true)) e
                        ∙ ap (λ z. ok (commit m fd op left_events c' n z, true)) handed,
                    commit-Changed m fd op left_events c' n (jobs (waiting c event)) t.events (
                        commit_lem m fd op left_events c' n (jobs (waiting c event)) v lt t.good
                          t.events (Fits-del_or_mod c.events left_events (any_has c.events event h))
                          (omega (
                            arith,
                            ap count t.events,
                            one_less m fd (count left_events) v lt
                                (omega (arith, t.counted, ap count t.events)),
                          ))),
                  )))
      ]

minus_self : (e : Events) → minus_events e e ≡ no_events
minus_self e = by e.read e.write
  where
    by :
        (a b : Bool)
        → minus_events (record { read = a; write = b }) (record { read = a; write = b }) ≡ no_events
    by true true = refl
    by true false = refl
    by false true = refl
    by false false = refl

jobs_if : (b : Bool) (e : EventContext) → IsArmed b e → (if b then jobs e else []) ≡ jobs e
jobs_if true e a = refl
jobs_if false e a = sym (ap jobs a)

-- cancelAll returns true exactly where the mask is not empty and epoll_ctl succeeds; then it empties the
-- mask and hands what waits to read and then what waits to write to their schedulers, and otherwise it
-- changes nothing.
pub cancel_all_lem :
    (ctl : CtlOp → ℕ → Events → Bool) (m : IoManager) (fd : ℕ)
    → IsConsistent m
    → IsFd fd
    → let c = m.contexts fd in
      let done = any_event c.events && ctl epoll_ctl_del fd no_events in
      (m' : IoManager) × (cancel_all ctl m fd ≡ ok (m', done))
      × Answered done m fd no_events (jobs c.read ++ jobs c.write) m'
unfolding cancel_all
cancel_all_lem ctl m fd v small =
    let c = m.contexts fd in
    let work = jobs c.read ++ jobs c.write in
    elim (Bool-cases (leb m.size fd)) [
      | inl beyond ↦
          let no : any_event c.events ≡ false =
            ap (λ d. any_event d.events) (v.beyond fd (leb→le m.size fd beyond)) in
          rw (is_beyond_lem m fd v small, beyond, no) (m, refl, Unchanged-refl m v)
      | inr within ↦
          let lt = leb→lt m.size fd within in
          rw (is_beyond_lem m fd v small, within, lt→ltb fd m.size lt)
            (guarded (any_event c.events) (ctl epoll_ctl_del fd no_events) _ m fd no_events work v
              (λ h q.
                let good = v.contexts fd in
                let (c', n, w, e, t) =
                  trigger_both_lem (λ d. d.events) c.events fd c m.pending_event_count refl
                    (λ d p. p) (record { read = λ p. p; write = λ p. p }) good
                    (omega (arith, v.pending, count_le_total m.contexts m.size fd lt))
                    (omega (arith, pending_le m v)) in
                let empty = t.events ∙ minus_self c.events in
                let handed =
                  t.handed
                  ∙ ap (λ z. z ++ (if c.events.write then jobs c.write else []))
                      (jobs_if c.events.read c.read good.read)
                  ∙ ap (λ z. jobs c.read ++ z) (jobs_if c.events.write c.write good.write) in
                (
                  commit m fd epoll_ctl_del no_events c' n work,
                  ap
                        (λ o. o >>= λ r.
                          if any_event r.0.events
                          then fault
                          else ok (commit m fd epoll_ctl_del no_events r.0 r.1 r.2, true))
                        e
                      ∙ ap
                          (λ z.
                            if any_event z
                            then fault
                            else ok (commit m fd epoll_ctl_del no_events c' n w, true))
                          empty
                      ∙ ap (λ z. ok (commit m fd epoll_ctl_del no_events c' n z, true)) handed,
                  commit-Changed m fd epoll_ctl_del no_events c' n work empty (
                      commit_lem m fd epoll_ctl_del no_events c' n work v lt t.good empty
                        (rw h refl) (omega (arith, t.counted, ap count empty))),
                )))
    ]
