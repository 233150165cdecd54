-- ===== src/IoManager/Contexts.antt =====
-- One FdContext of src/base/coro/iomanager.cc: what waits for its events, and what triggerEvent does.
use agent_link_coro.Prelude.{
  ℕ, ◌+◌, ◌≡◌, refl, ap, ◌∙◌, Bool, true, false, List, [], ◌∷◌, Option, none, some, arith,
}
use agent_link_coro.Outcome.{ok, ◌>>=◌}
use agent_link_coro.IoManager.{
  Event, none_event, read_event, write_event, Events, has, without_event, EventContext,
  reset_context, FdContext, new_fd_context, Work, callback, fiber, set_context, schedule_context,
  trigger_event,
}

-- The context of an event for which a callback or a fiber waits in a scheduler.
abbrev pub armed : ℕ → Work → EventContext
armed s (callback f) = record { scheduler = some s; fiber = none; cb = some f }
armed s (fiber f) = record { scheduler = some s; fiber = some f; cb = none }

-- A context is set exactly when its event is in the mask, and then by a callback or a fiber.
abbrev pub IsArmed : Bool → EventContext → Type 0
IsArmed false e = e ≡ reset_context
IsArmed true e = (s : ℕ) × (w : Work) × (e ≡ armed s w)

pub record IsContext (fd : ℕ) (c : FdContext) : Type 0 where
  pub own : c.fd ≡ fd
  pub read : IsArmed c.events.read c.read
  pub write : IsArmed c.events.write c.write

pub new_fd_context-IsContext : (fd : ℕ) → IsContext fd (new_fd_context fd)
new_fd_context-IsContext fd = record { own = refl; read = refl; write = refl }

-- The number of events in a mask.
abbrev pub bit : Bool → ℕ
bit true = 1
bit false = 0

abbrev pub count : Events → ℕ
count e = bit e.read + bit e.write

-- The context of an event.
abbrev pub waiting : FdContext → Event → EventContext
waiting c none_event = reset_context
waiting c read_event = c.read
waiting c write_event = c.write

-- What a context hands to its scheduler.
abbrev jobs_of : Option ℕ → Option ℕ → Option ℕ → List (ℕ × Work)
jobs_of (some s) f (some cb) = (s, callback cb) ∷ []
jobs_of (some s) (some f) none = (s, fiber f) ∷ []
jobs_of (some s) none none = []
jobs_of none f cb = []

abbrev pub jobs : EventContext → List (ℕ × Work)
jobs e = jobs_of e.scheduler e.fiber e.cb

pub jobs-armed : (s : ℕ) (w : Work) → jobs (armed s w) ≡ (s, w) ∷ []
jobs-armed s (callback f) = refl
jobs-armed s (fiber f) = refl

-- The context of the other event is as it was.
abbrev pub Kept : Event → FdContext → FdContext → Type 0
Kept none_event c c' = c' ≡ c
Kept read_event c c' = c'.write ≡ c.write
Kept write_event c c' = c'.read ≡ c.read

-- A context that has been triggered for an event for which `w` waited in `s`.
pub record Triggered (fd : ℕ) (c : FdContext) (event : Event) (c' : FdContext) (s : ℕ) (w : Work)
    : Type 0 where
  pub good : IsContext fd c'
  pub events : c'.events ≡ without_event c.events event
  pub counted : count c.events ≡ count c'.events + 1
  pub was : waiting c event ≡ armed s w
  pub kept : Kept event c c'

schedule_armed : (s : ℕ) (w : Work) → schedule_context (armed s w) ≡ ok (reset_context, (s, w) ∷ [])
schedule_armed s (callback f) = refl
schedule_armed s (fiber f) = refl

armed_when :
    (b : Bool) (e : EventContext) → b ≡ true → IsArmed b e → (s : ℕ) × (w : Work) × (e ≡ armed s w)
armed_when true e h a = a
armed_when false e h a = absurd (lie h)
  where
    lie : false ≡ true → ⊥
    lie e = cc

bit-true : (b : Bool) → b ≡ true → bit b ≡ 1
bit-true b h = ap bit h

-- triggerEvent for an event in the mask hands what waits for it to its scheduler, once, and takes the
-- event out of the mask.
pub trigger_event_lem :
    (fd : ℕ) (c : FdContext) (event : Event)
    → IsContext fd c
    → has c.events event ≡ true
    → (c' : FdContext) × (s : ℕ) × (w : Work) × (trigger_event c event ≡ ok (c', (s, w) ∷ []))
      × Triggered fd c event c' s w
unfolding trigger_event
trigger_event_lem fd c none_event g h = absurd (lie h)
  where
    lie : false ≡ true → ⊥
    lie e = cc
trigger_event_lem fd c read_event g h =
    let (s, w, q) = armed_when c.events.read c.read h g.read in
    (
      _,
      s,
      w,
      rw h (
          ap
            (λ e. schedule_context e >>= λ r. ok (
              set_context (record c { events = without_event c.events read_event }) read_event r.0,
              r.1,
            ))
            q
          ∙ ap
              (λ o. o >>= λ r. ok (
                set_context (record c { events = without_event c.events read_event }) read_event
                    r.0,
                r.1,
              ))
              (schedule_armed s w)),
      record {
        good = record { own = g.own; read = refl; write = g.write };
        events = refl;
        counted = omega (arith, bit-true c.events.read h);
        was = q;
        kept = refl;
      },
    )
trigger_event_lem fd c write_event g h =
    let (s, w, q) = armed_when c.events.write c.write h g.write in
    (
      _,
      s,
      w,
      rw h (
          ap
            (λ e. schedule_context e >>= λ r. ok (
              set_context (record c { events = without_event c.events write_event }) write_event
                  r.0,
              r.1,
            ))
            q
          ∙ ap
              (λ o. o >>= λ r. ok (
                set_context (record c { events = without_event c.events write_event }) write_event
                    r.0,
                r.1,
              ))
              (schedule_armed s w)),
      record {
        good = record { own = g.own; read = g.read; write = refl };
        events = refl;
        counted = omega (arith, bit-true c.events.write h);
        was = q;
        kept = refl;
      },
    )
