-- ===== src/Timer/Calls.antt =====
-- Histories of calls of the timer manager of src/base/coro/timer.cc.
use agent_link_coro.Prelude.{ℕ, ◌≡◌, refl, sym, ◌∙◌, subst, Bool, none}
use agent_link_coro.Outcome.{Outcome, ok, ◌>>=◌}
use agent_link_coro.Timer.{
  TimerManager, add_timer, cancel, refresh, reset, get_next_timer, list_expired_cb,
}
use agent_link_coro.Timer.Invariant.{IsValid, add_timer-IsValid, cancel_lem, refresh_lem, reset_lem}
use agent_link_coro.Timer.Expiry.{list_expired_cb-Expired}
use agent_link_coro.Timer.Wait.{get_next_timer_lem}

-- A call, with the address of the timer that it is about.
pub data Call : Type 0 where
  adds : (a ms cb : ℕ) (recurring : Bool) → Call
  cancels refreshes : (a : ℕ) → Call
  resets : (a ms : ℕ) (from_now : Bool) → Call
  waits lists : Call

-- The manager after a call at the time `now`.
unfoldable pub step : TimerManager → ℕ → Call → Outcome TimerManager
step m now (adds a ms cb recurring) = ok (add_timer m now a ms cb recurring).0
step m now (cancels a) = cancel m a >>= λ r. ok r.0
step m now (refreshes a) = ok (refresh m now a).0
step m now (resets a ms from_now) = ok (reset m now a ms from_now).0
step m now waits = ok (get_next_timer m now).0
step m now lists = ok (list_expired_cb m now).0

-- An allocation gives no address at which a timer is alive.
abbrev pub IsFresh : TimerManager → Call → Type 0
IsFresh m (adds a ms cb recurring) = (m.store a).cb ≡ none
IsFresh m (cancels a) = Unit
IsFresh m (refreshes a) = Unit
IsFresh m (resets a ms from_now) = Unit
IsFresh m waits = Unit
IsFresh m lists = Unit

pub step-IsValid :
    (m : TimerManager) (now : ℕ) (c : Call)
    → IsValid m
    → IsFresh m c
    → (m' : TimerManager) × (step m now c ≡ ok m') × IsValid m'
unfolding step
step-IsValid m now (adds a ms cb recurring) v f =
    (_, refl, add_timer-IsValid m now a ms cb recurring v f)
step-IsValid m now (cancels a) v f = let r = cancel_lem m a v in (r.0, rw r.1, r.2)
step-IsValid m now (refreshes a) v f = (_, refl, (refresh_lem m now a v).0)
step-IsValid m now (resets a ms from_now) v f = (_, refl, (reset_lem m now a ms from_now v).0)
step-IsValid m now waits v f = (_, refl, (get_next_timer_lem m now v).2)
step-IsValid m now lists v f = (_, refl, (list_expired_cb-Expired m now v).valid)

-- The managers that calls can lead to, each at any time.
pub data Reach (m : TimerManager) : TimerManager → Type 0 where
  here : Reach m m
  after :
      {m1 m2 : TimerManager} (now : ℕ) (c : Call)
      → Reach m m1
      → IsFresh m1 c
      → step m1 now c ≡ ok m2
      → Reach m m2

ok-injective : {m m' : TimerManager} → ◌≡◌ {A = Outcome TimerManager} (ok m) (ok m') → m ≡ m'
ok-injective e = cc

-- Whatever calls led to a manager from a well formed one, it is well formed, and no further call
-- faults: each ends in a well formed manager again.
pub Reach-IsValid :
    (m m' : TimerManager)
    → IsValid m
    → Reach m m'
    → IsValid m'
      × ((now : ℕ) (c : Call)
          → IsFresh m' c
          → (m2 : TimerManager) × (step m' now c ≡ ok m2) × IsValid m2)
Reach-IsValid m m' v r = let w = valid v r in (w, λ now c f. step-IsValid m' now c w f)
  where
    valid : {a b : TimerManager} → IsValid a → Reach a b → IsValid b
    valid h here = h
    valid h (after now c p f e) =
        let s = step-IsValid _ now c (valid h p) f in subst IsValid (ok-injective (sym s.1 ∙ e)) s.2
