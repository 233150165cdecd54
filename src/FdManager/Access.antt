-- ===== src/FdManager/Access.antt =====
-- What FdManager::get and del of src/base/coro/fd_manager.cc do to the table.
use agent_link_coro.Prelude.{
  ℕ, ◌+◌, ◌-◌, ◌*◌, ◌/◌, ◌%◌, ◌^◌, ◌≤◌, ◌<◌, ◌≡◌, ◌≢◌, refl, sym, ap, ◌∙◌, Bool, true, false, not,
  ◌&&◌, Option, none, some, arith, ltb, leb, ◌==◌, length, inl, inr, Bool-cases, lt→ltb, ne→==,
  ==_iff, leb→le, leb→lt, if◌then◌else◌,
}
use native.Mathlib.Nat.{mod-eq_of_lt}
use agent_link_coro.Outcome.{ok}
use agent_link_coro.FdManager.{
  FdManager, Kernel, new_fd_ctx, slot, resize, le_int, is_beyond, set_nonblock, found_or,
  continue_with, look, create, get, del_fd,
}
use agent_link_coro.FdManager.Slots.{
  slot_beyond, slot-put_slot, slot-put_slot_other, length-put_slot, slot-resize, length-resize,
}

-- The vector has room to grow by a half, and its size is an int.
abbrev pub IsValid : FdManager → Type 0
IsValid m = (2 ≤ length m.datas) × (length m.datas < 2 ^ 31)

-- A descriptor that the system can give: not negative, and far below the largest int.
abbrev pub IsFd : ℕ → Type 0
IsFd fd = fd < 2 ^ 30

beyond_lem :
    (m : FdManager) (fd : ℕ) → IsValid m → IsFd fd → is_beyond m.datas fd ≡ leb (length m.datas) fd
unfolding is_beyond le_int
beyond_lem m fd (lo, hi) small =
    let n = length m.datas in
    let a : n % 2 ^ 32 ≡ n = mod-eq_of_lt (omega arith) in
    let b : (n + 2 ^ 31) % 2 ^ 32 ≡ n + 2 ^ 31 = mod-eq_of_lt (omega arith) in
    let c : (fd + 2 ^ 31) % 2 ^ 32 ≡ fd + 2 ^ 31 = mod-eq_of_lt (omega arith) in
    rw (a, b, c) (ground arith)

-- A table that has `v` for `fd`, and for every other descriptor what `m` has.
pub record Changed (m : FdManager) (fd : ℕ) (v : Option ℕ) (m' : FdManager) : Type 0 where
  pub valid : IsValid m'
  pub here : slot m'.datas fd ≡ v
  pub others : (d : ℕ) → fd ≢ d → slot m'.datas d ≡ slot m.datas d

-- What the write-locked part makes: a fresh context for `fd` at `a`.
pub create_lem :
    (m : FdManager) (a fd : ℕ)
    → IsValid m
    → IsFd fd
    → (m' : FdManager) × (create m a fd ≡ ok m')
      × Changed m fd (some a) m'
      × (m'.ctxs a ≡ (new_fd_ctx m.kernel fd).0)
unfolding create
create_lem m a fd v small = elim (Bool-cases (leb (length m.datas) fd)) [
  | inl beyond ↦
      let le = leb→le (length m.datas) fd beyond in
      let n = fd * 3 / 2 in
      let grown : length m.datas ≤ n = omega (arith, v.0) in
      let room = length-resize m.datas n grown in
      let inside : ltb fd (length (resize m.datas n)) ≡ true =
        lt→ltb fd (length (resize m.datas n)) (omega (arith, room, v.0)) in
      rw (beyond_lem m fd v small, beyond, inside)
        (
          _,
          refl,
          record {
            valid = (
              omega (arith, length-put_slot (resize m.datas n) fd (some a), room, v.0),
              omega (arith, length-put_slot (resize m.datas n) fd (some a), room),
            );
            here = slot-put_slot (resize m.datas n) fd (some a) (omega (arith, room, v.0));
            others = λ d ne.
                slot-put_slot_other (resize m.datas n) fd d (some a) ne
                ∙ slot-resize m.datas n d grown;
          },
          ap (λ t. if t then (new_fd_ctx m.kernel fd).0 else m.ctxs a) ((==_iff a a).1 refl),
        )
  | inr within ↦
      let lt = leb→lt (length m.datas) fd within in
      rw (beyond_lem m fd v small, within, lt→ltb fd (length m.datas) lt)
        (
          _,
          refl,
          record {
            valid = (
              omega (arith, length-put_slot m.datas fd (some a), v.0),
              omega (arith, length-put_slot m.datas fd (some a), v.1),
            );
            here = slot-put_slot m.datas fd (some a) lt;
            others = λ d ne. slot-put_slot_other m.datas fd d (some a) ne;
          },
          ap (λ t. if t then (new_fd_ctx m.kernel fd).0 else m.ctxs a) ((==_iff a a).1 refl),
        )
]

-- What get gives for a descriptor, from what the table has for it.
abbrev pub Got : FdManager → ℕ → ℕ → Option ℕ → Bool → FdManager → Option ℕ → Type 0
Got m a fd (some c) auto_create m' r = (m' ≡ m) × (r ≡ some c)
Got m a fd none false m' r = (m' ≡ m) × (r ≡ none)
Got m a fd none true m' r =
    (r ≡ some a) × Changed m fd (some a) m' × (m'.ctxs a ≡ (new_fd_ctx m.kernel fd).0)

created :
    (m : FdManager) (a fd : ℕ)
    → IsValid m
    → IsFd fd
    → (m' : FdManager) × (r : Option ℕ) × (continue_with m a fd none ≡ ok (m', r))
      × Got m a fd none true m' r
unfolding continue_with
created m a fd v small =
    let (m', done, changed, ctx) = create_lem m a fd v small in
    rw done (m', some a, refl, (refl, changed, ctx))

-- FdManager::get, for a descriptor that is not negative and below 2 ^ 30, on a well formed manager:
-- it gives the context that the table has and changes nothing; where there is none it gives none and
-- changes nothing, or if asked to makes a context for the descriptor, gives it and puts it into the
-- table, where every other descriptor stays as it is. It never leaves the vector.
pub get_lem :
    (m : FdManager) (a fd : ℕ) (auto_create : Bool)
    → IsValid m
    → IsFd fd
    → (m' : FdManager) × (r : Option ℕ) × (get m a fd auto_create ≡ ok (m', r))
      × Got m a fd (slot m.datas fd) auto_create m' r
unfolding get look continue_with
get_lem m a fd auto_create v small =
    let not_minus : (fd == (2 ^ 32 - 1)) ≡ false = ne→== fd (2 ^ 32 - 1) (λ e. omega arith) in
    elim (Bool-cases (leb (length m.datas) fd)) [
      | inl beyond ↦
          rw
            (
              not_minus,
              beyond_lem m fd v small,
              beyond,
              slot_beyond m.datas fd (leb→le (length m.datas) fd beyond),
            )
            (by_wish auto_create)
      | inr within ↦
          rw
            (
              not_minus,
              beyond_lem m fd v small,
              within,
              lt→ltb fd (length m.datas) (leb→lt (length m.datas) fd within),
            )
            (by_slot (slot m.datas fd) auto_create)
    ]
  where
    by_wish :
        (w : Bool)
        → (m' : FdManager) × (r : Option ℕ) × ((continue_with m a fd
              (if w then none else some none))
            ≡ ok (m', r))
          × Got m a fd none w m' r
    by_wish true = created m a fd v small
    by_wish false = (m, none, refl, (refl, refl))

    by_slot :
        (c : Option ℕ) (w : Bool)
        → (m' : FdManager) × (r : Option ℕ) × (continue_with m a fd (found_or c w) ≡ ok (m', r))
          × Got m a fd c w m' r
    by_slot (some c) w = (m, some c, refl, (refl, refl))
    by_slot none true = created m a fd v small
    by_slot none false = (m, none, refl, (refl, refl))

-- FdManager::del under the same conditions: the table then has no context for the descriptor, and
-- for every other one what it had.
pub del_fd_lem :
    (m : FdManager) (fd : ℕ)
    → IsValid m
    → IsFd fd
    → (m' : FdManager) × (del_fd m fd ≡ ok m') × Changed m fd none m'
unfolding del_fd
del_fd_lem m fd v small = elim (Bool-cases (leb (length m.datas) fd)) [
  | inl beyond ↦
      rw (beyond_lem m fd v small, beyond)
        (
          m,
          refl,
          record {
            valid = v;
            here = slot_beyond m.datas fd (leb→le (length m.datas) fd beyond);
            others = λ d ne. refl;
          },
        )
  | inr within ↦
      let lt = leb→lt (length m.datas) fd within in
      rw (beyond_lem m fd v small, within, lt→ltb fd (length m.datas) lt)
        (
          _,
          refl,
          record {
            valid = (
              omega (arith, length-put_slot m.datas fd none, v.0),
              omega (arith, length-put_slot m.datas fd none, v.1),
            );
            here = slot-put_slot m.datas fd none lt;
            others = λ d ne. slot-put_slot_other m.datas fd d none ne;
          },
        )
]

-- Asked to create, the first part of get goes on where the table has no context.
pub look_missing :
    (m : FdManager) (fd : ℕ)
    → IsValid m
    → IsFd fd
    → slot m.datas fd ≡ none
    → look m fd true ≡ ok none
unfolding look
look_missing m fd v small missing =
    let not_minus : (fd == (2 ^ 32 - 1)) ≡ false = ne→== fd (2 ^ 32 - 1) (λ e. omega arith) in
    elim (Bool-cases (leb (length m.datas) fd)) [
      | inl beyond ↦ rw (not_minus, beyond_lem m fd v small, beyond) refl
      | inr within ↦
          rw
            (
              not_minus,
              beyond_lem m fd v small,
              within,
              lt→ltb fd (length m.datas) (leb→lt (length m.datas) fd within),
            )
            (ap (λ c. ok (found_or c true)) missing)
    ]

-- FdCtx::init notes a descriptor as a socket exactly when the system shows an open socket; such a
-- descriptor then has O_NONBLOCK in the system, which the context notes, and no other descriptor's
-- flag changes.
pub new_fd_ctx_lem :
    (k : Kernel) (fd : ℕ)
    → let r = new_fd_ctx k fd in
      (r.0.is_socket ≡ (k.is_open fd && k.is_sock fd))
      × (r.0.sys_nonblock ≡ r.0.is_socket)
      × (r.0.is_socket ≡ true → r.1.has_nonblock fd ≡ true)
      × ((d : ℕ) → fd ≢ d → r.1.has_nonblock d ≡ k.has_nonblock d)
unfolding new_fd_ctx
new_fd_ctx_lem k fd =
    let socket = k.is_open fd && k.is_sock fd in
    (
      refl,
      refl,
      λ s.
          ap (λ t. (if t && not (k.has_nonblock fd) then set_nonblock k fd else k).has_nonblock fd)
            s
          ∙ flag (k.has_nonblock fd) refl,
      λ d ne. others (socket && not (k.has_nonblock fd)) d ne,
    )
  where
    flag :
        (b : Bool)
        → k.has_nonblock fd ≡ b
        → (if not b then set_nonblock k fd else k).has_nonblock fd ≡ true
    flag true e = e
    flag false e = ap (λ t. if t then true else k.has_nonblock fd) ((==_iff fd fd).1 refl)

    others :
        (c : Bool) (d : ℕ)
        → fd ≢ d
        → (if c then set_nonblock k fd else k).has_nonblock d ≡ k.has_nonblock d
    others true d ne = ap (λ t. if t then true else k.has_nonblock d) (ne→== d fd (λ e. ne (sym e)))
    others false d ne = refl
