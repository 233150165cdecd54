-- ===== src/Timer/Wait.antt =====
-- How long the manager of src/base/coro/timer.cc may sleep, and when its owner is told of an earlier
-- timer.
use agent_link_coro.Prelude.{
  ℕ, ◌+◌, ◌≤◌, ◌≡◌, ◌≢◌, refl, sym, ap, ◌∙◌, subst, Bool, true, false, not, ◌&&◌, ◌||◌, List, [],
  ◌∷◌, none, some, arith, leb, ◌==◌, inl, inr, ◌⊎◌, All, Bool-cases, ==_iff, leb→le, leb→lt,
}
use mathlib.Core.Bool.{true≢false}
use agent_link_coro.Prelude.Words.{add64}
use agent_link_coro.Timer.{
  TimerManager, time_to_first, get_next_timer, add_timer, insert_timer, is_first,
}
use agent_link_coro.Timer.Ordered.{Timer, Store, update, before, insert}
use agent_link_coro.Timer.Ordered.Laws.{
  IsSorted, mem, All-mem, next-le, before_total, before_trans, All-map, IsSorted-update,
}
use agent_link_coro.Timer.Invariant.{IsValid, absent_of_null}

-- The wait for a set: none of its timers is overlooked, and one of them is due when it is over.
abbrev pub WakesInTime : Store → ℕ → List ℕ → ℕ → Type 0
WakesInTime s now xs w =
    ((a : ℕ) → mem a xs ≡ true → (w ≡ 0) ⊎ (now + w ≤ (s a).next))
    × ((a : ℕ) → mem a xs ≡ true → (b : ℕ) × (mem b xs ≡ true) × ((s b).next ≤ now + w))

time_to_first-WakesInTime :
    (s : Store) (now : ℕ) (xs : List ℕ)
    → IsSorted s xs
    → WakesInTime s now xs (time_to_first s now xs)
unfolding time_to_first
time_to_first-WakesInTime s now [] h = ((λ a m. cc), λ a m. cc)
time_to_first-WakesInTime s now (x ∷ xs) (h, hs) =
    let first : mem x (x ∷ xs) ≡ true = ap (λ t. t || mem x xs) ((==_iff x x).1 refl) in
    let least : (a : ℕ) → mem a (x ∷ xs) ≡ true → (s x).next ≤ (s a).next = λ a m.
      elim (Bool-cases (x == a)) [
        | inl e ↦ subst (λ z. (s x).next ≤ (s z).next) ((==_iff x a).0 e) (omega arith)
        | inr e ↦ next-le s x a (All-mem (λ y. before s x y ≡ true) a xs h (rw e at m))
      ] in
    elim (Bool-cases (leb (s x).next now)) [
      | inl e ↦
          let le = leb→le (s x).next now e in
          rw e ((λ a m. inl refl), λ a m. (x, first, omega arith))
      | inr e ↦
          let lt = leb→lt (s x).next now e in
          rw e ((λ a m. inr (omega (arith, least a m))), λ a m. (x, first, omega arith))
    ]

-- getNextTimer on a well formed manager: unless it says 0, no timer is due before the wait is over,
-- and if there is any timer at all, one is due when the wait is over. It clears the notice.
pub get_next_timer_lem :
    (m : TimerManager) (now : ℕ)
    → IsValid m
    → WakesInTime m.store now m.timers (get_next_timer m now).1
      × ((get_next_timer m now).0.tickled ≡ false)
      × IsValid (get_next_timer m now).0
unfolding get_next_timer
get_next_timer_lem m now v = (
  time_to_first-WakesInTime m.store now m.timers v.sorted,
  refl,
  record { sorted = v.sorted; live = v.live },
)

-- Whether a timer goes to the front says how it stands to the others.
is_first-insert :
    (s : Store) (a : ℕ) (xs : List ℕ)
    → mem a xs ≡ false
    → IsSorted s xs
    → (is_first a (insert s a xs) ≡ true → All (λ b. before s a b ≡ true) xs)
      × (is_first a (insert s a xs) ≡ false → (b : ℕ) × (mem b xs ≡ true) × (before s b a ≡ true))
unfolding insert
is_first-insert s a [] out h = ((λ _. tt), λ e. absurd (true≢false (sym ((==_iff a a).1 refl) ∙ e)))
is_first-insert s a (x ∷ xs) out (h, hs) = elim (Bool-cases (before s a x)) [
  | inl e ↦ rw e (
    (λ _. (
      refl,
      All-map (λ y. before s x y ≡ true) (λ y. before s a y ≡ true) xs (λ y. before_trans s a x y e)
          h,
    )),
    λ f. absurd (true≢false (sym ((==_iff a a).1 refl) ∙ f)),
  )
  | inr e ↦
      let differ : x ≢ a =
        λ q. true≢false (sym (ap (λ t. t || mem a xs) ((==_iff x a).1 q)) ∙ out) in
      rw e (elim (Bool-cases (before s x a)) [
        | inl f ↦ rw f (
          (λ q. absurd (differ (sym ((==_iff a x).0 q)))),
          λ _. (x, ap (λ t. t || mem x xs) ((==_iff x x).1 refl), f),
        )
        | inr f ↦ absurd (differ (sym (before_total s a x e f)))
      ])
]

-- addTimer of a dead or new timer on a well formed manager with no notice pending calls
-- onTimerInsertedAtFront exactly when the new timer comes before every other one; with a notice
-- pending it does not call it. Where it calls it, a notice is pending afterwards.
pub add_timer_notice :
    (m : TimerManager) (now a ms cb : ℕ) (recurring : Bool)
    → IsValid m
    → (m.store a).cb ≡ none
    → let r = add_timer m now a ms cb recurring in
      (m.tickled ≡ true → r.1 ≡ false)
      × (r.1 ≡ true → All (λ b. before r.0.store a b ≡ true) m.timers × (r.0.tickled ≡ true))
      × (r.1 ≡ false
          → m.tickled ≡ false
          → (b : ℕ) × (mem b m.timers ≡ true) × (before r.0.store b a ≡ true))
unfolding add_timer insert_timer
add_timer_notice m now a ms cb recurring v dead =
    let t : Timer = record { recurring = recurring; ms = ms; next = add64 now ms; cb = some cb } in
    let s = update m.store a t in
    let absent = absent_of_null m a v dead in
    let (front, behind) =
      is_first-insert s a m.timers absent (IsSorted-update m.store a t m.timers absent v.sorted) in
    (
      (λ e. rw e (and_false (is_first a (insert s a m.timers)))),
      (λ e. elim (Bool-cases (is_first a (insert s a m.timers))) [
        | inl f ↦ (front f, rw e (or_true m.tickled))
        | inr f ↦ absurd (true≢false (sym e ∙ ap (λ q. q && not m.tickled) f))
      ]),
      λ e quiet. behind (
          sym (and_true (is_first a (insert s a m.timers)))
          ∙ ap (λ q. is_first a (insert s a m.timers) && not q) (sym quiet)
          ∙ e),
    )
  where
    and_false : (p : Bool) → (p && false) ≡ false
    and_false true = refl
    and_false false = refl

    and_true : (p : Bool) → (p && true) ≡ p
    and_true true = refl
    and_true false = refl

    or_true : (p : Bool) → (p || true) ≡ true
    or_true true = refl
    or_true false = refl
