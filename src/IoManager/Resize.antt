-- ===== src/IoManager/Resize.antt =====
-- Where the calls of src/base/coro/iomanager.cc come between one another: two calls of addEvent that both
-- grow the table, and a report of epoll that is out of date.
use agent_link_coro.Prelude.{
  ℕ, ◌*◌, ◌/◌, ◌≤◌, ◌<◌, ◌≡◌, ◌≢◌, refl, sym, ap, subst, ◌∙◌, Bool, true, false, not, List, [], ◌∷◌,
  ◌++◌, append-nil, ◌||◌, Option, arith, if◌then◌else◌, le→leb, ltb, ltb→lt, ltb→le, Bool-cases,
  inl, inr,
}
use agent_link_coro.Prelude.Words.{sub64}
use agent_link_coro.Outcome.{Outcome, ok, ◌>>=◌}
use agent_link_coro.IoManager.{
  Event, none_event, read_event, write_event, Events, no_events, has, with_event, without_event,
  any_event, both_events, minus_events, FdContext, commit, del_or_mod, trigger_event, trigger_if,
  trigger_both, CtlOp, epoll_ctl_add, epoll_ctl_mod, epoll_ctl_del, Caller, Work, IoManager,
  context_resize, grow, is_beyond, add_event, cancel_event, on_ready,
}
use agent_link_coro.IoManager.Contexts.{count, trigger_event_lem}
use agent_link_coro.IoManager.Invariant.{
  IsConsistent, IsFd, is_beyond_lem, is_beyond_small, count_le_total, total, total-update,
  update_here, pending_le,
}
use agent_link_coro.IoManager.Answers.{Answered, any_has}
use agent_link_coro.IoManager.Adding.{CanAdd, add_event_lem}

has_with : (e : Events) (event : Event) → event ≢ none_event → has (with_event e event) event ≡ true
has_with e none_event ne = absurd (ne refl)
has_with e read_event ne = refl
has_with e write_event ne = refl

some_counted : (e : Events) → any_event e ≡ true → 0 < count e
some_counted e h = by e.read e.write h
  where
    by :
        (a b : Bool)
        → any_event (record { read = a; write = b }) ≡ true
        → 0 < count (record { read = a; write = b })
    by true b h = omega arith
    by false true h = omega arith
    by false false h = absurd (lie h)
      where
        lie : false ≡ true → ⊥
        lie e = cc

-- In a consistent manager, a call of addEvent for a descriptor beyond the table lets the lock go before it grows the table. When
-- another addEvent for a descriptor at least half as large again succeeds in between, the first one
-- makes the table smaller: the second event can then not be cancelled any more, but still counts as
-- pending.
pub resize_race :
    (ctl : CtlOp → ℕ → Events → Bool) (m : IoManager) (a b : ℕ) (event : Event) (who : Caller)
    (cb : Option ℕ) (s : ℕ) (w : Work)
    → IsConsistent m
    → m.size ≤ a
    → a * 3 / 2 ≤ b
    → IsFd b
    → CanAdd m b event who cb s w
    → ctl
        (if any_event (m.contexts b).events then epoll_ctl_mod else epoll_ctl_add)
        b
        (with_event (m.contexts b).events event)
      ≡ true
    → (is_beyond m a ≡ true)
      × (m1 : IoManager) × (add_event ctl m b event who cb ≡ ok (m1, true))
      × (0 < (grow m1 a).pending_event_count)
      × ((ctl' : CtlOp → ℕ → Events → Bool)
          → cancel_event ctl' (grow m1 a) b event ≡ ok (grow m1 a, false))
unfolding cancel_event grow context_resize
resize_race ctl m a b event who cb s w v beyond far small can done =
    let (m1, e, a1, _) = add_event_lem ctl m b event who cb s w v small can in
    (
      is_beyond_lem m a v (omega (arith, v.least)) ∙ le→leb m.size a beyond,
      m1,
      e ∙ ap (λ d. ok (m1, d)) done,
      pending m1
          (subst (λ d. Answered d m b (with_event (m.contexts b).events event) [] m1) done a1),
      λ ctl'. rw (gone m1) refl,
    )
  where
    pending :
        (m1 : IoManager)
        → Answered true m b (with_event (m.contexts b).events event) [] m1
        → 0 < (grow m1 a).pending_event_count
    pending m1 a1 =
        let v1 = a1.consistent in
        let there : any_event (m1.contexts b).events ≡ true =
          ap any_event a1.events
          ∙ any_has (with_event (m.contexts b).events event) event
              (has_with (m.contexts b).events event can.is_event) in
        elim (Bool-cases (ltb b m1.size)) [
          | inl q ↦ omega (
            arith,
            v1.pending,
            count_le_total m1.contexts m1.size b (ltb→lt b m1.size q),
            some_counted (m1.contexts b).events there,
          )
          | inr q ↦
              absurd (
                lie (sym (ap (λ c. any_event c.events) (v1.beyond b (ltb→le b m1.size q))) ∙ there))
        ]
      where
        lie : false ≡ true → ⊥
        lie e = cc

    gone : (m1 : IoManager) → is_beyond (grow m1 a) b ≡ true
    gone m1 = is_beyond_small (grow m1 a) b (omega arith) small ∙ le→leb (a * 3 / 2) b far

quiet : (c : FdContext) → c.events.write ≡ false → trigger_event c write_event ≡ ok (c, [])
unfolding trigger_event
quiet c h = rw h refl

-- Both triggered with only READ in the mask.
twice :
    (real : Events) (c c1 : FdContext) (n : ℕ) (work : List (ℕ × Work))
    → real ≡ record { read = true; write = true }
    → trigger_event c read_event ≡ ok (c1, work)
    → c1.events.write ≡ false
    → trigger_both (λ d. real) c n ≡ ok (c1, sub64 (sub64 n 1) 1, work)
unfolding trigger_both trigger_if
twice real c c1 n work both e h =
    let counted : FdContext × List (ℕ × Work) → Outcome (FdContext × ℕ × List (ℕ × Work)) =
      λ r. ok (r.0, sub64 n 1, r.1) in
    let again : FdContext × List (ℕ × Work) → Outcome (FdContext × ℕ × List (ℕ × Work)) =
      λ r. ok (r.0, sub64 (sub64 n 1) 1, r.1) in
    let joined : FdContext × ℕ × List (ℕ × Work) → Outcome (FdContext × ℕ × List (ℕ × Work)) =
      λ w. ok (w.0, w.1, work ++ w.2) in
    let second : FdContext × ℕ × List (ℕ × Work) → Outcome (FdContext × ℕ × List (ℕ × Work)) =
      λ r. trigger_if true write_event r.0 r.1 >>= λ w. ok (w.0, w.1, r.2 ++ w.2) in
    ap (λ z. trigger_both (λ d. z) c n) both
    ∙ ap (λ o. o >>= counted >>= second) e
    ∙ ap (λ o. o >>= again >>= joined) (quiet c1 h)
    ∙ ap (λ z. ok (c1, sub64 (sub64 n 1) 1, z)) (append-nil work)

-- A report of epoll made before delEvent took the write event out of a mask, and handled after it in a
-- consistent manager, with only the read event left and an epoll_ctl that succeeds: what waits to read is triggered, but the number of pending events goes down
-- by two, and is no longer that of the events in the masks.
pub stale_report :
    (ctl : CtlOp → ℕ → Events → Bool) (m : IoManager) (fd : ℕ)
    → IsConsistent m
    → fd < m.size
    → (m.contexts fd).events ≡ record { read = true; write = false }
    → ctl epoll_ctl_del fd no_events ≡ true
    → (m' : IoManager) × (on_ready ctl m
          (record { fd = fd; readable = true; writable = true; failed = false })
        ≡ ok m')
      × ((m'.contexts fd).events ≡ no_events)
      × (m'.pending_event_count ≡ sub64 (sub64 m.pending_event_count 1) 1)
      × (m'.pending_event_count ≢ total m'.contexts m'.size)
unfolding on_ready sub64
stale_report ctl m fd v lt only done =
    let c = m.contexts fd in
    let p = m.pending_event_count in
    let real : Events = record { read = true; write = true } in
    let left_events = minus_events c.events real in
    let good = v.contexts fd in
    let (c1, s, w, e, t) = trigger_event_lem fd c read_event good (ap (λ z. z.read) only) in
    let none_left : c1.events ≡ no_events = t.events ∙ ap (λ z. without_event z read_event) only in
    let cond : (not (any_event (both_events c.events real))
          || not (ctl (del_or_mod left_events) c.fd left_events))
        ≡ false =
      ap
        (λ z.
          not (any_event (both_events z real))
          || not (ctl (del_or_mod (minus_events z real)) c.fd (minus_events z real)))
        only
      ∙ ap (λ d. not (ctl epoll_ctl_del d no_events)) good.own
      ∙ ap not done in
    let n = sub64 (sub64 p 1) 1 in
    let one : count c.events ≡ 1 = ap count only in
    let le = count_le_total m.contexts m.size fd lt in
    let less = total-update m.contexts m.size fd c1 lt in
    (
      commit m fd (del_or_mod left_events) left_events c1 n ((s, w) ∷ []),
      rw cond (
          ap (λ o. o >>= λ r. ok (commit m fd (del_or_mod left_events) left_events r.0 r.1 r.2))
            (twice real c c1 p ((s, w) ∷ []) refl e (ap (λ z. z.write) none_left))),
      ap (λ d. d.events) (update_here m.contexts fd c1) ∙ none_left,
      refl,
      λ q. omega (arith, q, less, one, le, ap count none_left, v.pending, pending_le m v),
    )
