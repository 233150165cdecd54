-- ===== src/Timer/Examples.antt =====
-- Runs of the timer manager of src/base/coro/timer.cc.
use agent_link_coro.Prelude.{ℕ, ◌≡◌, refl, true, false, [], ◌∷◌, none, some, arith, ◌≢◌}
use agent_link_coro.Outcome.{ok}
use agent_link_coro.Timer.{TimerManager, cancel, get_next_timer, list_expired_cb}
use agent_link_coro.Timer.Ordered.{Timer, update, compare_timers}
use agent_link_coro.Timer.Ordered.Laws.{mem}
use agent_link_coro.Timer.Invariant.{IsValid, cancel_lem}
use agent_link_coro.Timer.Expiry.{Expired, is_due, list_expired_cb-Expired}
use agent_link_coro.Timer.Wait.{WakesInTime, get_next_timer_lem}
use agent_link_coro.Timer.Calls.{Call, lists, here, after, step, IsFresh, Reach-IsValid}

abbrev dead_timer : Timer
dead_timer = record { recurring = false; ms = 0; next = 0; cb = none }

abbrev tick : Timer
tick = record { recurring = true; ms = 10; next = 110; cb = some 7 }

abbrev once : Timer
once = record { recurring = false; ms = 30; next = 130; cb = some 8 }

-- A recurring timer at address 1, due at 110, and another at address 2, due at 130.
abbrev two_timers : TimerManager
two_timers = record {
  store = update (update (λ _. dead_timer) 1 tick) 2 once;
  timers = 1 ∷ 2 ∷ [];
  tickled = false;
  previous_time = 100;
}

two_timers-IsValid : IsValid two_timers
unfolding compare_timers
two_timers-IsValid = record { sorted = ((refl, tt), (tt, tt)); live = λ a. ground arith }

cancel_lem_example :
    (m' : TimerManager) × (cancel two_timers 2 ≡ ok (m', true))
    × IsValid m'
    × ((m'.store 2).cb ≡ none)
    × ((b : ℕ)
        → 2 ≢ b
        → (m'.store b ≡ two_timers.store b) × (mem b m'.timers ≡ mem b two_timers.timers))
cancel_lem_example = cancel_lem two_timers 2 two_timers-IsValid

list_expired_cb-Expired_example :
    Expired two_timers 120 (is_due two_timers 120) (list_expired_cb two_timers 120)
list_expired_cb-Expired_example = list_expired_cb-Expired two_timers 120 two_timers-IsValid

get_next_timer_lem_example :
    WakesInTime two_timers.store 105 (1 ∷ 2 ∷ []) (get_next_timer two_timers 105).1
    × ((get_next_timer two_timers 105).0.tickled ≡ false)
    × IsValid (get_next_timer two_timers 105).0
get_next_timer_lem_example = get_next_timer_lem two_timers 105 two_timers-IsValid

lists_at_120 : step two_timers 120 lists ≡ ok (list_expired_cb two_timers 120).0
unfolding step
lists_at_120 = refl

Reach-IsValid_example :
    IsValid (list_expired_cb two_timers 120).0
    × ((now : ℕ) (c : Call)
        → IsFresh (list_expired_cb two_timers 120).0 c
        → (m2 : TimerManager) × (step (list_expired_cb two_timers 120).0 now c ≡ ok m2)
          × IsValid m2)
Reach-IsValid_example =
    Reach-IsValid two_timers (list_expired_cb two_timers 120).0 two_timers-IsValid
      (after 120 lists here tt lists_at_120)
