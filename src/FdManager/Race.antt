-- ===== src/FdManager/Race.antt =====
-- Two calls of FdManager::get of src/base/coro/fd_manager.cc for one descriptor, where both have let
-- the lock go before either takes it again; and descriptors below -1.
use agent_link_coro.Prelude.{
  ℕ, ◌+◌, ◌-◌, ◌%◌, ◌^◌, ◌≤◌, ◌<◌, ◌≡◌, ◌≢◌, refl, sym, ◌∙◌, Bool, true, false, Option, none, some,
  arith, leb, ◌==◌, length, ne→==, le→ltb, lt→leb,
}
use native.Mathlib.Nat.{mod-eq_of_lt}
use agent_link_coro.Outcome.{ok, fault}
use agent_link_coro.FdManager.{FdManager, slot, le_int, is_beyond, look, create, get}
use agent_link_coro.FdManager.Access.{IsValid, IsFd, create_lem, look_missing}

-- Where the table has no context for a descriptor, a call of get goes on to its second part; when two
-- calls have done so before either takes the lock again, both second parts succeed, with two contexts,
-- and the table ends with that of the second and not with that of the first.
pub race_lem :
    (m : FdManager) (a1 a2 fd : ℕ)
    → IsValid m
    → IsFd fd
    → a1 ≢ a2
    → slot m.datas fd ≡ none
    → (look m fd true ≡ ok none)
      × (m1 : FdManager) × (m2 : FdManager) × (create m a1 fd ≡ ok m1)
      × (slot m1.datas fd ≡ some a1)
      × (create m1 a2 fd ≡ ok m2)
      × (slot m2.datas fd ≡ some a2)
      × (slot m2.datas fd ≢ some a1)
race_lem m a1 a2 fd v small ne missing =
    let (m1, first, c1, _) = create_lem m a1 fd v small in
    let (m2, second, c2, _) = create_lem m1 a2 fd c1.valid small in
    (
      look_missing m fd v small missing,
      m1,
      m2,
      first,
      c1.here,
      second,
      c2.here,
      λ e. ne (some-injective (sym e ∙ c2.here)),
    )
  where
    some-injective : {p q : ℕ} → ◌≡◌ {A = Option ℕ} (some p) (some q) → p ≡ q
    some-injective e = cc

-- A negative descriptor other than -1 indexes the vector out of its bounds.
pub get_fault :
    (m : FdManager) (a fd : ℕ) (auto_create : Bool)
    → IsValid m
    → 2 ^ 31 ≤ fd
    → fd < 2 ^ 32 - 1
    → get m a fd auto_create ≡ fault
unfolding get look is_beyond le_int
get_fault m a fd auto_create (lo, hi) neg small =
    let n = length m.datas in
    let not_minus : (fd == (2 ^ 32 - 1)) ≡ false = ne→== fd (2 ^ 32 - 1) (λ e. omega arith) in
    let a1 : n % 2 ^ 32 ≡ n = mod-eq_of_lt (omega arith) in
    let b1 : (n + 2 ^ 31) % 2 ^ 32 ≡ n + 2 ^ 31 = mod-eq_of_lt (omega arith) in
    let within : leb (n + 2 ^ 31) ((fd + 2 ^ 31) % 2 ^ 32) ≡ false =
      lt→leb (n + 2 ^ 31) ((fd + 2 ^ 31) % 2 ^ 32) (omega arith) in
    rw (not_minus, a1, b1, within, le→ltb fd n (omega arith)) refl
