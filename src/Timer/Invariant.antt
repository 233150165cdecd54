-- ===== src/Timer/Invariant.antt =====
-- What every call of the timer manager of src/base/coro/timer.cc keeps: the set is ordered, and it
-- holds exactly the timers that have a callback.
use agent_link_coro.Prelude.{
  ℕ, ◌≡◌, ◌≢◌, refl, sym, ap, ◌∙◌, subst, Bool, true, false, not, ◌&&◌, ◌||◌, List, Option, none,
  some, ◌==◌, if◌then◌else◌, inl, inr, Bool-cases, ==_iff, ne→==,
}
use mathlib.Core.Bool.{true≢false}
use agent_link_coro.Prelude.Words.{add64, sub64}
use agent_link_coro.Outcome.{ok}
use agent_link_coro.Timer.{
  TimerManager, new_timer_manager, insert_timer, add_timer, cancel, refresh, reset, is_null,
}
use agent_link_coro.Timer.Ordered.{Timer, Store, update, insert}
use agent_link_coro.Timer.Ordered.Laws.{
  IsSorted, mem, insert-IsSorted, mem-insert, Erased, find_erase-Erased, IsSorted-agree,
  IsSorted-update, update_self, update_other, All-of_mem,
}

pub record IsValid (m : TimerManager) : Type 0 where
  pub sorted : IsSorted m.store m.timers
  pub live : (a : ℕ) → mem a m.timers ≡ not (is_null (m.store a).cb)

-- A manager is made with no timer alive.
pub new_timer_manager-IsValid :
    (s : Store) (now : ℕ) → ((a : ℕ) → (s a).cb ≡ none) → IsValid (new_timer_manager s now)
unfolding new_timer_manager
new_timer_manager-IsValid s now dead = record { sorted = tt; live = λ a. rw (dead a) }

module _ (s : Store) (a : ℕ) (t : Timer) (xs : List ℕ) (rest_sorted : IsSorted s xs)
    (absent : mem a xs ≡ false) where
  -- The timer at `a`, which is not in the set, is changed and put into it.
  pub changed-IsSorted : IsSorted (update s a t) (insert (update s a t) a xs)
  changed-IsSorted =
      insert-IsSorted (update s a t) a xs (IsSorted-update s a t xs absent rest_sorted)

  pub changed_live :
      is_null t.cb ≡ false
      → ((b : ℕ) → a ≢ b → mem b xs ≡ not (is_null (s b).cb))
      → (b : ℕ) → mem b (insert (update s a t) a xs) ≡ not (is_null (update s a t b).cb)
  changed_live h others b = rw mem-insert (elim (Bool-cases (a == b)) [
    | inl e ↦
        let q = (==_iff a b).0 e in
        rw e (rw (subst (λ z. update s a t z ≡ t) q (update_self s a t), h))
    | inr e ↦
        let ne : a ≢ b = λ q. true≢false (sym ((==_iff a b).1 q) ∙ e) in
        rw (e, update_other s a b t ne) (others b ne)
  ])

pub absent_of_null :
    (m : TimerManager) (a : ℕ) → IsValid m → (m.store a).cb ≡ none → mem a m.timers ≡ false
absent_of_null m a v h = v.live a ∙ ap (λ c. not (is_null c)) h

insert_timer-IsValid :
    (m : TimerManager) (a : ℕ)
    → IsSorted m.store m.timers
    → ((b : ℕ) → mem b (insert m.store a m.timers) ≡ not (is_null (m.store b).cb))
    → IsValid (insert_timer m a).0
unfolding insert_timer
insert_timer-IsValid m a sorted live = record {
  sorted = insert-IsSorted m.store a m.timers sorted;
  live = live;
}

-- addTimer of a dead or new timer keeps the manager well formed.
pub add_timer-IsValid :
    (m : TimerManager) (now a ms cb : ℕ) (recurring : Bool)
    → IsValid m
    → (m.store a).cb ≡ none
    → IsValid (add_timer m now a ms cb recurring).0
unfolding add_timer
add_timer-IsValid m now a ms cb recurring v dead =
    let t : Timer = record { recurring = recurring; ms = ms; next = add64 now ms; cb = some cb } in
    let absent = absent_of_null m a v dead in
    insert_timer-IsValid (record m { store = update m.store a t }) a
      (IsSorted-update m.store a t m.timers absent v.sorted)
      (changed_live m.store a t m.timers v.sorted absent refl (λ b ne. v.live b))

-- A timer with a callback is in the set, and what is left without it is the rest of the live ones.
module _ (m : TimerManager) (a : ℕ) (v : IsValid m) (alive : is_null (m.store a).cb ≡ false) where
  erased : Erased m.store a m.timers
  erased = find_erase-Erased m.store a m.timers v.sorted (v.live a ∙ ap not alive)

  rest_absent : mem a erased.rest ≡ false
  rest_absent = erased.members a ∙ ap (λ t. not t && mem a m.timers) ((==_iff a a).1 refl)

  rest_live : (b : ℕ) → a ≢ b → mem b erased.rest ≡ not (is_null (m.store b).cb)
  rest_live b ne = erased.members b ∙ ap (λ t. not t && mem b m.timers) (ne→== a b ne) ∙ v.live b

null_is_none : (c : Option ℕ) → is_null c ≡ true → c ≡ none
null_is_none none h = refl
null_is_none (some c) h = cc

update_next :
    (s : Store) (a : ℕ) (t : Timer)
    → t.next ≡ (s a).next
    → (y : ℕ) → (update s a t y).next ≡ (s y).next
update_next s a t h y = elim (Bool-cases (y == a)) [
  | inl e ↦ rw e (h ∙ ap (λ z. (s z).next) (sym ((==_iff y a).0 e)))
  | inr e ↦ rw e
]

-- cancel never faults on a well formed manager. It takes a live timer out of the set, kills its
-- callback and says true, and says false and changes nothing where the timer is dead; all other
-- timers stay as they are.
pub cancel_lem :
    (m : TimerManager) (a : ℕ)
    → IsValid m
    → (m' : TimerManager) × (cancel m a ≡ ok (m', not (is_null (m.store a).cb)))
      × IsValid m'
      × ((m'.store a).cb ≡ none)
      × ((b : ℕ) → a ≢ b → (m'.store b ≡ m.store b) × (mem b m'.timers ≡ mem b m.timers))
unfolding cancel
cancel_lem m a v = elim (Bool-cases (is_null (m.store a).cb)) [
  | inl dead ↦ rw dead (m, refl, v, null_is_none (m.store a).cb dead, λ b ne. (refl, refl))
  | inr alive ↦
      let t : Timer = record (m.store a) { cb = none } in
      let s = update m.store a t in
      let sorted =
        IsSorted-agree m.store s m.timers
          (All-of_mem (λ y. (s y).next ≡ (m.store y).next) m.timers
            (λ y _. update_next m.store a t refl y))
          v.sorted in
      let e = find_erase-Erased s a m.timers sorted (v.live a ∙ ap not alive) in
      let others : (b : ℕ) → a ≢ b → mem b e.rest ≡ mem b m.timers =
        λ b ne. e.members b ∙ ap (λ t. not t && mem b m.timers) (ne→== a b ne) in
      let live : (b : ℕ) → mem b e.rest ≡ not (is_null (s b).cb) = λ b. elim (Bool-cases (a == b)) [
        | inl q ↦
            e.members b
            ∙ rw q (
                ap (λ z. not (is_null (z).cb))
                  (sym (subst (λ z. s z ≡ t) ((==_iff a b).0 q) (update_self m.store a t))))
        | inr q ↦
            let ne : a ≢ b = λ r. true≢false (sym ((==_iff a b).1 r) ∙ q) in
            others b ne
            ∙ v.live b
            ∙ ap (λ z. not (is_null (z).cb)) (sym (update_other m.store a b t ne))
      ] in
      rw (alive, e.found)
        (
          record m { store = s; timers = e.rest },
          refl,
          record { sorted = e.sorted; live = live },
          ap (λ z. (z).cb) (update_self m.store a t),
          λ b ne. (update_other m.store a b t ne, others b ne),
        )
]

-- refresh keeps the manager well formed, and says true exactly for a live timer, which is then due
-- its period after now.
pub refresh_lem :
    (m : TimerManager) (now a : ℕ)
    → IsValid m
    → IsValid (refresh m now a).0
      × ((refresh m now a).1 ≡ not (is_null (m.store a).cb))
      × (is_null (m.store a).cb ≡ false
          → ((refresh m now a).0.store a).next ≡ add64 now (m.store a).ms)
unfolding refresh
refresh_lem m now a v = elim (Bool-cases (is_null (m.store a).cb)) [
  | inl dead ↦ rw dead (v, refl, λ h. cc)
  | inr alive ↦
      let t : Timer = record (m.store a) { next = add64 now (m.store a).ms } in
      let e = erased m a v alive in
      rw (alive, e.found)
        (
          record {
            sorted = changed-IsSorted m.store a t e.rest e.sorted (rest_absent m a v alive);
            live =
                changed_live m.store a t e.rest e.sorted (rest_absent m a v alive) alive
                  (rest_live m a v alive);
          },
          refl,
          λ _. ap (λ z. (z).next) (update_self m.store a t),
        )
]

-- reset keeps the manager well formed. It says true for a live timer, and for any timer whose
-- period is asked to stay with its start; a live timer with a new period or start is then due the
-- period after the start.
pub reset_lem :
    (m : TimerManager) (now a ms : ℕ) (from_now : Bool)
    → IsValid m
    → IsValid (reset m now a ms from_now).0
      × ((reset m now a ms from_now).1
          ≡ (((ms == (m.store a).ms) && not from_now) || not (is_null (m.store a).cb)))
      × (((ms == (m.store a).ms) && not from_now) ≡ false
          → is_null (m.store a).cb ≡ false
          → ((reset m now a ms from_now).0.store a).next
            ≡ add64 (if from_now then now else sub64 (m.store a).next (m.store a).ms) ms)
unfolding reset insert_timer
reset_lem m now a ms from_now v = elim (Bool-cases ((ms == (m.store a).ms) && not from_now)) [
  | inl kept ↦ rw kept (v, refl, λ h. cc)
  | inr changed ↦ rw changed (elim (Bool-cases (is_null (m.store a).cb)) [
    | inl dead ↦ rw dead (v, refl, λ _ h. cc)
    | inr alive ↦
        let start = if from_now then now else sub64 (m.store a).next (m.store a).ms in
        let t : Timer = record (m.store a) { ms = ms; next = add64 start ms } in
        let e = erased m a v alive in
        rw (alive, e.found)
          (
            record {
              sorted = changed-IsSorted m.store a t e.rest e.sorted (rest_absent m a v alive);
              live =
                  changed_live m.store a t e.rest e.sorted (rest_absent m a v alive) alive
                    (rest_live m a v alive);
            },
            refl,
            λ _ _. ap (λ z. (z).next) (update_self m.store a t),
          )
  ])
]
