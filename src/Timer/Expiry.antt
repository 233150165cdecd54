-- ===== src/Timer/Expiry.antt =====
-- listExpiredCb of src/base/coro/timer.cc: which timers fire, and what becomes of them.
pub mod Split
pub mod Fire
use agent_link_coro.Prelude.{
  ℕ, ◌≡◌, ◌≢◌, refl, sym, ap, ◌∙◌, subst, Bool, true, false, not, ◌&&◌, ◌||◌, List, [], ◌∷◌, ◌++◌,
  Option, none, some, map, arith, ltb, leb, ◌==◌, if◌then◌else◌, inl, inr, All, Bool-cases,
}
use mathlib.Core.Bool.{true≢false}
use agent_link_coro.Prelude.Words.{add64}
use agent_link_coro.Timer.{
  TimerManager, list_expired_cb, detect_clock_rollover, all_or_due, first_later, is_null, is_empty,
  fire, fired,
}
use agent_link_coro.Timer.Ordered.{Timer, Store, before}
use agent_link_coro.Timer.Ordered.Laws.{IsSorted, mem, All-mem, All-map}
use agent_link_coro.Timer.Invariant.{IsValid}
use Split.{keep, keep_none, Divided, all_or_due-Divided, first_later_none}
use Fire.{Fired, fire-Fired}

-- An expired timer: a recurring one is due again a period after `now` and keeps its callback, another
-- one has none any more.
abbrev pub rearmed : ℕ → Timer → Timer
rearmed now t = record {
  recurring = t.recurring;
  ms = t.ms;
  next = if t.recurring then add64 now t.ms else t.next;
  cb = if t.recurring then t.cb else none;
}

fired-rearmed : (now : ℕ) (t : Timer) → fired now t ≡ rearmed now t
fired-rearmed now t = elim (Bool-cases t.recurring) [ inl e ↦ rw e refl | inr e ↦ rw e refl ]

-- What listExpiredCb promises of the timers that `due` picks.
pub record Expired (m : TimerManager) (now : ℕ) (due : ℕ → Bool)
    (result : TimerManager × List (Option ℕ)) : Type 0 where
  pub valid : IsValid result.0
  pub callbacks : result.1 ≡ map (λ a. (m.store a).cb) (keep due m.timers)
  pub objects :
      (b : ℕ)
      → result.0.store b ≡ (if mem b m.timers && due b then rearmed now (m.store b) else m.store b)

-- The timers that are due at `now`, and all of them when the clock has been set back.
abbrev pub is_due : TimerManager → ℕ → ℕ → Bool
is_due m now a = (detect_clock_rollover m now).1 || leb (m.store a).next now

mem-append : (b : ℕ) (xs ys : List ℕ) → mem b (xs ++ ys) ≡ (mem b xs || mem b ys)
mem-append b [] ys = refl
mem-append b (x ∷ xs) ys = rw (mem-append b xs ys) (or_assoc (x == b) (mem b xs) (mem b ys))
  where
    or_assoc : (p q r : Bool) → (p || (q || r)) ≡ ((p || q) || r)
    or_assoc true q r = refl
    or_assoc false q r = refl

All-append : (P : ℕ → Type 0) (xs ys : List ℕ) → All P (xs ++ ys) → All P xs × All P ys
All-append P [] ys h = (tt, h)
All-append P (x ∷ xs) ys (h, hs) = let (p, q) = All-append P xs ys hs in ((h, p), q)

IsSorted-append :
    (s : Store) (xs ys : List ℕ) → IsSorted s (xs ++ ys) → IsSorted s xs × IsSorted s ys
IsSorted-append s [] ys h = (tt, h)
IsSorted-append s (x ∷ xs) ys (h, hs) =
    let (p, q) = IsSorted-append s xs ys hs in
    (((All-append (λ y. before s x y ≡ true) xs ys h).0, p), q)

empty_is_nil : (xs : List ℕ) → is_empty xs ≡ true → xs ≡ []
empty_is_nil [] h = refl
empty_is_nil (x ∷ xs) h = cc

none_due :
    (b : ℕ) (due : ℕ → Bool) (xs : List ℕ)
    → All (λ a. due a ≡ false) xs
    → (mem b xs && due b) ≡ false
none_due b due xs h = elim (Bool-cases (mem b xs)) [
  | inl e ↦ rw e (All-mem (λ a. due a ≡ false) b xs h e)
  | inr e ↦ rw e
]

-- A pass over a manager in which nothing is due.
idle-Expired :
    (m m' : TimerManager) (now : ℕ) (due : ℕ → Bool)
    → IsValid m'
    → m'.store ≡ m.store
    → All (λ a. due a ≡ false) m.timers
    → Expired m now due (m', [])
idle-Expired m m' now due v same idle = record {
  valid = v;
  callbacks = rw (keep_none due m.timers idle);
  objects = λ b.
      ap (λ s. s b) same
      ∙ sym (
          ap (λ t. if t then rearmed now (m.store b) else m.store b)
            (none_due b due m.timers idle));
}

-- A pass that takes off what is due.
module _ (m : TimerManager) (now : ℕ) (due : ℕ → Bool) (v : IsValid m) (parts : List ℕ × List ℕ)
    (d : Divided due m.store m.timers parts) where
  both-IsSorted : IsSorted m.store parts.0 × IsSorted m.store parts.1
  both-IsSorted =
      IsSorted-append m.store parts.0 parts.1 (subst (IsSorted m.store) d.whole v.sorted)

  apart : (b : ℕ) → mem b parts.0 ≡ true → mem b parts.1 ≡ false
  apart b h = elim (Bool-cases (mem b parts.1)) [
    | inl e ↦ absurd (
        true≢false (
          sym (All-mem (λ a. due a ≡ true) b parts.0 d.taken h)
          ∙ All-mem (λ a. due a ≡ false) b parts.1 d.left e))
    | inr e ↦ e
  ]

  mem-whole : (b : ℕ) → mem b m.timers ≡ (mem b parts.0 || mem b parts.1)
  mem-whole b = ap (mem b) d.whole ∙ mem-append b parts.0 parts.1

  mem-taken : (b : ℕ) → mem b parts.0 ≡ (mem b m.timers && due b)
  mem-taken b = rw (mem-whole b) (elim (Bool-cases (mem b parts.0)) [
    | inl e ↦ rw e (sym (All-mem (λ a. due a ≡ true) b parts.0 d.taken e))
    | inr e ↦ rw e (sym (none_due b due parts.1 d.left))
  ])

  alive_again :
      (b : ℕ) (taken left : Bool)
      → (taken ≡ true → left ≡ false)
      → (taken || left) ≡ not (is_null (m.store b).cb)
      → (left || (taken && (m.store b).recurring))
        ≡ not (is_null (if taken then fired now (m.store b) else m.store b).cb)
  alive_again b true left h k =
      rw (h refl) (elim (Bool-cases (m.store b).recurring) [ inl r ↦ rw r k | inr r ↦ rw r ])
  alive_again b false true h k = k
  alive_again b false false h k = k

  pass-Expired :
      (m1 : TimerManager)
      → (f : Fired now m.store parts.1 parts.0 (fire now m.store parts.1 parts.0))
      → Expired m now due (
        record m1 {
          store = (fire now m.store parts.1 parts.0).0;
          timers = (fire now m.store parts.1 parts.0).1;
        },
        (fire now m.store parts.1 parts.0).2,
      )
  pass-Expired m1 f = record {
    valid = record {
      sorted = f.sorted;
      live = λ b.
          f.members b
          ∙ alive_again b (mem b parts.0) (mem b parts.1) (apart b) (sym (mem-whole b) ∙ v.live b)
          ∙ ap (λ z. not (is_null (z).cb)) (sym (f.objects b));
    };
    callbacks = f.callbacks ∙ ap (map (λ a. (m.store a).cb)) d.front;
    objects = λ b.
        f.objects b
        ∙ ap (λ t. if t then fired now (m.store b) else m.store b) (mem-taken b)
        ∙ ap (λ t. if mem b m.timers && due b then t else m.store b)
            (fired-rearmed now (m.store b));
  }

-- listExpiredCb on a well formed manager: it gives the callbacks of exactly the timers that are due
-- at `now`, or of all timers when detectClockRollover says so, in the order of the
-- set; of these timers the recurring ones are due again a period after `now` and the others dead;
-- all other timers are untouched, and the manager stays well formed.
pub list_expired_cb-Expired :
    (m : TimerManager) (now : ℕ) → IsValid m → Expired m now (is_due m now) (list_expired_cb m now)
unfolding list_expired_cb detect_clock_rollover
list_expired_cb-Expired m now v =
    let rolled = (detect_clock_rollover m now).1 in
    let m1 : TimerManager = record m { previous_time = now } in
    let v1 : IsValid m1 = record { sorted = v.sorted; live = v.live } in
    let parts = all_or_due rolled m.store now m.timers in
    let d = all_or_due-Divided m.store now rolled m.timers v.sorted in
    let f =
      fire-Fired now parts.0 m.store parts.1 (both-IsSorted m now (is_due m now) v parts d).1
        (both-IsSorted m now (is_due m now) v parts d).0 (apart m now (is_due m now) v parts d) in
    elim (Bool-cases (is_empty m.timers)) [
      | inl e ↦ rw e (
          idle-Expired m m now (is_due m now) v refl
            (subst (All (λ a. is_due m now a ≡ false)) (sym (empty_is_nil m.timers e)) tt))
      | inr e ↦ rw e (elim (Bool-cases (not rolled && first_later m.store now m.timers)) [
        | inl early ↦ rw early (
            idle-Expired m m1 now (is_due m now) v1 refl
              (first_later_none m.store now rolled m.timers v.sorted early))
        | inr some_due ↦ rw some_due (pass-Expired m now (is_due m now) v parts d m1 f)
      ])
    ]
