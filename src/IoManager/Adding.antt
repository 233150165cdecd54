-- ===== src/IoManager/Adding.antt =====
-- What addEvent of src/base/coro/iomanager.cc does and returns.
use agent_link_coro.Prelude.{
  ℕ, ◌+◌, ◌<◌, ◌≡◌, ◌≢◌, refl, ap, subst, ◌∙◌, Bool, true, false, ◌||◌, [], Option, none, some,
  arith, leb, if◌then◌else◌, inl, inr, Bool-cases, leb→le, leb→lt, lt→ltb,
}
use agent_link_coro.Prelude.Words.{add64, add64_no_wrap}
use agent_link_coro.Outcome.{ok}
use agent_link_coro.IoManager.{
  Event, none_event, read_event, write_event, Events, has, with_event, any_event, reset_context,
  FdContext, CtlOp, epoll_ctl_add, epoll_ctl_mod, Caller, armed_context, get_context, Work,
  callback, fiber, IoManager, set_context, commit, grow, context_resize, register, add_event,
}
use agent_link_coro.IoManager.Contexts.{IsContext, IsArmed, armed, count, waiting}
use agent_link_coro.IoManager.Invariant.{
  IsConsistent, IsFd, is_beyond_lem, pending_le, commit_lem, update_here, Fits, some_if_any,
  grow-IsConsistent,
}
use agent_link_coro.IoManager.Answers.{Unchanged-refl, Answered, commit-Changed}

-- What is to wait: the callback, where there is one, or else the fiber that runs.
abbrev pub Waits : Caller → Option ℕ → Work → Type 0
Waits who (some cb) w = w ≡ callback cb
Waits who none w = (who.is_exec ≡ true) × (w ≡ fiber who.fiber)

-- What addEvent needs besides a descriptor: an event that is not registered yet, on a thread of a
-- scheduler, and a callback or a fiber that is running.
pub record CanAdd (m : IoManager) (fd : ℕ) (event : Event) (who : Caller) (cb : Option ℕ) (s : ℕ)
    (w : Work) : Type 0 where
  pub is_event : event ≢ none_event
  pub is_new : has (m.contexts fd).events event ≡ false
  pub scheduler : who.scheduler ≡ some s
  pub waits : Waits who cb w

armed_context_lem :
    (who : Caller) (cb : Option ℕ) (s : ℕ) (w : Work)
    → who.scheduler ≡ some s
    → Waits who cb w
    → armed_context who cb ≡ ok (armed s w)
armed_context_lem who (some cb) s w e h = rw (e, h) refl
armed_context_lem who none s w e (runs, h) = rw (e, runs, h) refl

added_lem :
    (fd : ℕ) (c : FdContext) (event : Event) (s : ℕ) (w : Work)
    → IsContext fd c
    → event ≢ none_event
    → has c.events event ≡ false
    → let asked = with_event c.events event in
      let c' = set_context (record c { events = asked }) event (armed s w) in
      IsContext fd c'
      × (c'.events ≡ asked)
      × (count c'.events ≡ count c.events + 1)
      × (get_context c event ≡ ok reset_context)
      × (any_event asked ≡ true)
added_lem fd c none_event s w g ne h = absurd (ne refl)
added_lem fd c read_event s w g ne h = (
  record { own = g.own; read = (s, w, refl); write = g.write },
  refl,
  rw h (omega arith),
  ap ok (subst (λ b. IsArmed b c.read) h g.read),
  refl,
)
added_lem fd c write_event s w g ne h = (
  record { own = g.own; read = g.read; write = (s, w, refl) },
  refl,
  rw h (omega arith),
  ap ok (subst (λ b. IsArmed b c.write) h g.write),
  or_true c.events.read,
)
  where
    or_true : (b : Bool) → (b || true) ≡ true
    or_true true = refl
    or_true false = refl

Fits-add_or_mod :
    (d e : Events)
    → any_event e ≡ true
    → Fits (if any_event d then epoll_ctl_mod else epoll_ctl_add) (some_if_any d) e
Fits-add_or_mod d e h = elim (Bool-cases (any_event d)) [ inl q ↦ rw q h | inr q ↦ rw q h ]

-- addEvent that finds the descriptor within the contexts.
register_lem :
    (ctl : CtlOp → ℕ → Events → Bool) (m : IoManager) (fd : ℕ) (event : Event) (who : Caller)
    (cb : Option ℕ) (s : ℕ) (w : Work)
    → IsConsistent m
    → fd < m.size
    → CanAdd m fd event who cb s w
    → let c = m.contexts fd in
      let asked = with_event c.events event in
      let done = ctl (if any_event c.events then epoll_ctl_mod else epoll_ctl_add) fd asked in
      (m' : IoManager) × (register ctl m fd event who cb ≡ ok (m', done))
      × Answered done m fd asked [] m'
      × (done ≡ true → waiting (m'.contexts fd) event ≡ armed s w)
unfolding register
register_lem ctl m fd event who cb s w v lt can =
    let c = m.contexts fd in
    let asked = with_event c.events event in
    let c' = set_context (record c { events = asked }) event (armed s w) in
    let n = add64 m.pending_event_count 1 in
    let op = if any_event c.events then epoll_ctl_mod else epoll_ctl_add in
    let (good, events, counted, got, any) =
      added_lem fd c event s w (v.contexts fd) can.is_event can.is_new in
    elim (Bool-cases (ctl op fd asked)) [
      | inl q ↦
          rw
            (
              lt→ltb fd m.size lt,
              can.is_new,
              q,
              got,
              armed_context_lem who cb s w can.scheduler can.waits,
            )
            (
              commit m fd op asked c' n [],
              refl,
              commit-Changed m fd op asked c' n [] events (
                  commit_lem m fd op asked c' n [] v lt good events
                    (Fits-add_or_mod c.events asked any)
                    (omega (
                      arith,
                      counted,
                      ap count events,
                      add64_no_wrap m.pending_event_count 1 (omega (arith, pending_le m v)),
                    ))),
              λ _.
                  ap (λ d. waiting d event) (update_here m.contexts fd c')
                  ∙ waits event can.is_event,
            )
      | inr q ↦
          rw (lt→ltb fd m.size lt, can.is_new, q)
            (m, refl, Unchanged-refl m v, λ lie. absurd (no lie))
    ]
  where
    no : false ≡ true → ⊥
    no e = cc

    waits :
        (e : Event)
        → e ≢ none_event
        → waiting
            (set_context
              (record (m.contexts fd) { events = with_event (m.contexts fd).events event })
              e
              (armed s w))
            e
          ≡ armed s w
    waits none_event ne = absurd (ne refl)
    waits read_event ne = refl
    waits write_event ne = refl

-- What is said of a manager that has grown holds of the one before.
from_grown :
    (m : IoManager) (fd : ℕ) (done : Bool) (e : Events) (m' : IoManager)
    → ((i : ℕ) → (grow m fd).contexts i ≡ m.contexts i)
    → Answered done (grow m fd) fd e [] m'
    → Answered done m fd e [] m'
unfolding grow context_resize
from_grown m fd true e m' same a = record {
  consistent = a.consistent;
  events = a.events;
  others = λ i ne. a.others i ne ∙ same i;
  scheduled = a.scheduled;
}
from_grown m fd false e m' same a = record {
  consistent = a.consistent;
  contexts = λ i. a.contexts i ∙ same i;
  scheduled = a.scheduled;
}

-- In a consistent manager and for a descriptor below 2 ^ 30, addEvent of an event that is not
-- registered, on a thread of a scheduler and with a callback or a fiber that runs, returns 0 exactly
-- where epoll_ctl succeeds; then the event is in the mask of its descriptor and the callback, or else
-- the fiber that runs, waits for it, and nothing else has changed. Otherwise no mask and no context
-- has changed.
pub add_event_lem :
    (ctl : CtlOp → ℕ → Events → Bool) (m : IoManager) (fd : ℕ) (event : Event) (who : Caller)
    (cb : Option ℕ) (s : ℕ) (w : Work)
    → IsConsistent m
    → IsFd fd
    → CanAdd m fd event who cb s w
    → let c = m.contexts fd in
      let asked = with_event c.events event in
      let done = ctl (if any_event c.events then epoll_ctl_mod else epoll_ctl_add) fd asked in
      (m' : IoManager) × (add_event ctl m fd event who cb ≡ ok (m', done))
      × Answered done m fd asked [] m'
      × (done ≡ true → waiting (m'.contexts fd) event ≡ armed s w)
unfolding add_event
add_event_lem ctl m fd event who cb s w v small can = elim (Bool-cases (leb m.size fd)) [
  | inl beyond ↦
      let (v', lt, same) = grow-IsConsistent m fd v (leb→le m.size fd beyond) small in
      let g = grow m fd in
      let can' : CanAdd g fd event who cb s w = record {
        is_event = can.is_event;
        is_new = ap (λ c. has c.events event) (same fd) ∙ can.is_new;
        scheduler = can.scheduler;
        waits = can.waits;
      } in
      let (m', e, a, waits) = register_lem ctl g fd event who cb s w v' lt can' in
      rw (is_beyond_lem m fd v small, beyond)
        (subst
          (λ c.
            let asked = with_event c.events event in
            let done = ctl (if any_event c.events then epoll_ctl_mod else epoll_ctl_add) fd asked in
            (m' : IoManager) × (register ctl g fd event who cb ≡ ok (m', done))
            × Answered done m fd asked [] m'
            × (done ≡ true → waiting (m'.contexts fd) event ≡ armed s w))
          (same fd) (m', e, from_grown m fd _ _ m' same a, waits))
  | inr within ↦
      rw (is_beyond_lem m fd v small, within)
        (register_lem ctl m fd event who cb s w v (leb→lt m.size fd within) can)
]
