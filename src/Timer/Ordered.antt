-- ===== src/Timer/Ordered.antt =====
-- The ordered set of timers of src/base/coro/timer.h: Timer::Comparator and std::set over it.
pub mod Laws
use agent_link_coro.Prelude.{
  ℕ, Bool, true, false, List, [], ◌∷◌, Option, none, some, ltb, ◌==◌, if◌then◌else◌,
}

-- class Timer: m_recurring, m_ms, m_next, m_cb, where `none` is the empty function.
pub record Timer : Type 0 where
  pub recurring : Bool
  pub ms : ℕ
  pub next : ℕ
  pub cb : Option ℕ

-- The timer at each address.
abbrev pub Store : Type 0
Store = ℕ → Timer

abbrev pub update : Store → ℕ → Timer → Store
update store a t b = if b == a then t else store b

-- Timer::Comparator; the null pointer is `none`.
unfoldable pub compare_timers : Store → Option ℕ → Option ℕ → Bool
compare_timers store none none = false
compare_timers store none (some b) = true
compare_timers store (some a) none = false
compare_timers store (some a) (some b) =
    if ltb (store a).next (store b).next
    then true
    else if ltb (store b).next (store a).next
    then false
    else ltb a b

-- The comparator on the timers of the set, none of which is null.
abbrev pub before : Store → ℕ → ℕ → Bool
before store a b = compare_timers store (some a) (some b)

-- m_timers.insert
unfoldable pub insert : Store → ℕ → List ℕ → List ℕ
insert store a [] = a ∷ []
insert store a (x ∷ xs) =
    if before store a x
    then a ∷ x ∷ xs
    else if before store x a
    then x ∷ insert store a xs
    else x ∷ xs

abbrev cons_some : ℕ → Option (List ℕ) → Option (List ℕ)
cons_some x none = none
cons_some x (some xs) = some (x ∷ xs)

-- m_timers.find and m_timers.erase: `none` where the search ends at the end of the set.
unfoldable pub find_erase : Store → ℕ → List ℕ → Option (List ℕ)
find_erase store a [] = none
find_erase store a (x ∷ xs) =
    if before store x a
    then cons_some x (find_erase store a xs)
    else if before store a x
    then none
    else some xs
