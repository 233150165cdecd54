-- ===== src/IoManager/Triggers.antt =====
-- READ and WRITE triggered one after the other, as cancelAll and idle of src/base/coro/iomanager.cc do.
use agent_link_coro.Prelude.{
  ℕ, ◌+◌, ◌^◌, ◌≤◌, ◌<◌, ◌≡◌, refl, sym, ap, ◌∙◌, Bool, true, false, not, ◌&&◌, List, [], ◌∷◌, ◌++◌,
  arith, if◌then◌else◌,
}
use agent_link_coro.Prelude.Words.{sub64, sub64_no_wrap}
use agent_link_coro.Outcome.{ok, ◌>>=◌}
use agent_link_coro.IoManager.{
  Event, none_event, read_event, write_event, Events, has, without_event, FdContext, Work,
  trigger_if, trigger_both, minus_events,
}
use agent_link_coro.IoManager.Contexts.{
  IsContext, count, jobs, jobs-armed, waiting, Kept, trigger_event_lem,
}

sub64_small : (a b : ℕ) → b ≤ a → a < 2 ^ 64 → sub64 a b + b ≡ a
sub64_small a b h u = omega (arith, sub64_no_wrap a b h u)

-- A context that has been triggered for an event if `wanted`, with the number of pending events.
pub record TriggeredIf (wanted : Bool) (event : Event) (fd : ℕ) (c : FdContext) (n : ℕ)
    (c' : FdContext) (n' : ℕ) (work : List (ℕ × Work)) : Type 0 where
  pub good : IsContext fd c'
  pub events : c'.events ≡ (if wanted then without_event c.events event else c.events)
  pub counted : n' + count c.events ≡ n + count c'.events
  pub fewer : n' ≤ n
  pub handed : work ≡ (if wanted then jobs (waiting c event) else [])
  pub kept : Kept event c c'

Kept-same : (event : Event) (c : FdContext) → Kept event c c
Kept-same none_event c = refl
Kept-same read_event c = refl
Kept-same write_event c = refl

pub trigger_if_lem :
    (wanted : Bool) (event : Event) (fd : ℕ) (c : FdContext) (n : ℕ)
    → IsContext fd c
    → (wanted ≡ true → has c.events event ≡ true)
    → count c.events ≤ n
    → n < 2 ^ 64
    → (c' : FdContext) × (n' : ℕ) × (work : List (ℕ × Work)) × (trigger_if wanted event c n
        ≡ ok (c', n', work))
      × TriggeredIf wanted event fd c n c' n' work
unfolding trigger_if
trigger_if_lem true event fd c n g within le lt =
    let (c', s, w, e, t) = trigger_event_lem fd c event g (within refl) in
    (
      c',
      sub64 n 1,
      (s, w) ∷ [],
      ap (λ o. o >>= λ r. ok (r.0, sub64 n 1, r.1)) e,
      record {
        good = t.good;
        events = t.events;
        counted = omega (arith, sub64_small n 1 (omega (arith, t.counted)) lt, t.counted);
        fewer = omega (arith, sub64_small n 1 (omega (arith, t.counted)) lt);
        handed = sym (ap jobs t.was ∙ jobs-armed s w);
        kept = t.kept;
      },
    )
trigger_if_lem false event fd c n g within le lt = (
  c,
  n,
  [],
  refl,
  record {
    good = g;
    events = refl;
    counted = refl;
    fewer = omega arith;
    handed = refl;
    kept = Kept-same event c;
  },
)

-- The events of one mask are all in another.
pub record IsWithin (real events : Events) : Type 0 where
  pub read : real.read ≡ true → events.read ≡ true
  pub write : real.write ≡ true → events.write ≡ true

-- Both events triggered as far as they are in `real`.
pub record TriggeredBoth (real : Events) (fd : ℕ) (c : FdContext) (n : ℕ) (c' : FdContext) (n' : ℕ)
    (work : List (ℕ × Work)) : Type 0 where
  pub good : IsContext fd c'
  pub events : c'.events ≡ minus_events c.events real
  pub counted : n' + count c.events ≡ n + count c'.events
  pub fewer : n' ≤ n
  pub handed :
      work ≡ (if real.read then jobs c.read else []) ++ (if real.write then jobs c.write else [])

and_not : (a c : Bool) → (if c then false else a) ≡ (a && not c)
and_not true true = refl
and_not true false = refl
and_not false true = refl
and_not false false = refl

same_events :
    {a b c d : Bool}
    → a ≡ c
    → b ≡ d
    → ◌≡◌ {A = Events} (record { read = a; write = b }) (record { read = c; write = d })
same_events p q = cc

minus_lem :
    (e r : Events)
    → (if r.write
        then without_event (if r.read then without_event e read_event else e) write_event
        else (if r.read then without_event e read_event else e))
      ≡ minus_events e r
minus_lem e r = by r.read r.write
  where
    by :
        (c d : Bool)
        → (if d
            then without_event (if c then without_event e read_event else e) write_event
            else (if c then without_event e read_event else e))
          ≡ minus_events e (record { read = c; write = d })
    by true true = same_events (and_not e.read true) (and_not e.write true)
    by true false = same_events (and_not e.read true) (and_not e.write false)
    by false true = same_events (and_not e.read false) (and_not e.write true)
    by false false = same_events (and_not e.read false) (and_not e.write false)

write_kept : (b : Bool) (e : Events) → (if b then without_event e read_event else e).write ≡ e.write
write_kept true e = refl
write_kept false e = refl

-- READ and WRITE triggered as far as they are in `real`, which the masks tested come to.
pub trigger_both_lem :
    (wanted : FdContext → Events) (real : Events) (fd : ℕ) (c : FdContext) (n : ℕ)
    → (wanted c).read ≡ real.read
    → ((d : FdContext) → d.events.write ≡ c.events.write → (wanted d).write ≡ real.write)
    → IsWithin real c.events
    → IsContext fd c
    → count c.events ≤ n
    → n < 2 ^ 64
    → (c' : FdContext) × (n' : ℕ) × (work : List (ℕ × Work)) × (trigger_both wanted c n
        ≡ ok (c', n', work))
      × TriggeredBoth real fd c n c' n' work
unfolding trigger_both
trigger_both_lem wanted real fd c n first second within g le lt =
    let (c1, n1, w1, e1, t1) =
      trigger_if_lem (wanted c).read read_event fd c n g (λ h. within.read (sym first ∙ h)) le lt in
    let kept : c1.events.write ≡ c.events.write =
      ap (λ e. e.write) t1.events ∙ write_kept (wanted c).read c.events in
    let same = second c1 kept in
    let (c2, n2, w2, e2, t2) =
      trigger_if_lem (wanted c1).write write_event fd c1 n1 t1.good
        (λ h. kept ∙ within.write (sym same ∙ h)) (omega (arith, t1.counted))
        (omega (arith, t1.fewer)) in
    (
      c2,
      n2,
      w1 ++ w2,
      ap
            (λ o. o >>= λ r. trigger_if (has (wanted r.0) write_event) write_event r.0 r.1 >>= λ w.
              ok (w.0, w.1, r.2 ++ w.2))
            e1
          ∙ ap (λ o. o >>= λ w. ok (w.0, w.1, w1 ++ w.2)) e2,
      record {
        good = t2.good;
        events =
            t2.events
            ∙ ap (λ b. if b then without_event c1.events write_event else c1.events) same
            ∙ ap (λ e. if real.write then without_event e write_event else e)
                (t1.events
                  ∙ ap (λ b. if b then without_event c.events read_event else c.events) first)
            ∙ minus_lem c.events real;
        counted = omega (arith, t1.counted, t2.counted);
        fewer = omega (arith, t1.fewer, t2.fewer);
        handed =
            ap (λ w. w ++ w2) (t1.handed ∙ ap (λ b. if b then jobs c.read else []) first)
            ∙ ap (λ w. (if real.read then jobs c.read else []) ++ w)
                (t2.handed
                  ∙ ap (λ b. if b then jobs c1.write else []) same
                  ∙ ap (λ e. if real.write then jobs e else []) t1.kept);
      },
    )
