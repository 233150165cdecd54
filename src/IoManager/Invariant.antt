-- ===== src/IoManager/Invariant.antt =====
-- What holds of the IOManager of src/base/coro/iomanager.cc between its calls.
use agent_link_coro.Prelude.{
  ℕ, zero, suc, ◌+◌, ◌-◌, ◌*◌, ◌/◌, ◌%◌, ◌^◌, ◌≤◌, ◌<◌, ◌≡◌, ◌≢◌, refl, sym, ap, subst, ◌∙◌, Bool,
  true, false, ◌&&◌, List, [], ◌∷◌, Option, none, some, arith, ltb, leb, ◌==◌, if◌then◌else◌, inl,
  inr, Bool-cases, ==_iff, ne→==, lt→ltb, ltb→lt, ltb→le,
}
use native.Mathlib.Nat.{mod-eq_of_lt}
use agent_link_coro.FdManager.{le_int}
use agent_link_coro.IoManager.{
  Events, any_event, no_events, FdContext, new_fd_context, CtlOp, epoll_ctl_add, epoll_ctl_mod,
  epoll_ctl_del, CtlCall, Work, IoManager, context_resize, new_io_manager, is_beyond, update,
  commit, grow, del_or_mod,
}
use agent_link_coro.IoManager.Contexts.{IsContext, new_fd_context-IsContext, bit, count}

-- What epoll watches for a descriptor after calls of epoll_ctl, the last one first.
abbrev after_call : CtlOp → Events → Option Events
after_call epoll_ctl_add e = some e
after_call epoll_ctl_mod e = some e
after_call epoll_ctl_del e = none

abbrev pub watched : List CtlCall → ℕ → Option Events
watched [] fd = none
watched (c ∷ cs) fd = if fd == c.fd then after_call c.op c.events else watched cs fd

-- A call that epoll can accept: what is added is not watched yet, what is changed or taken out is.
abbrev pub Fits : CtlOp → Option Events → Events → Type 0
Fits epoll_ctl_add none e = any_event e ≡ true
Fits epoll_ctl_add (some d) e = ⊥
Fits epoll_ctl_mod none e = ⊥
Fits epoll_ctl_mod (some d) e = any_event e ≡ true
Fits epoll_ctl_del none e = ⊥
Fits epoll_ctl_del (some d) e = any_event e ≡ false

abbrev pub AreLegal : List CtlCall → Type 0
AreLegal [] = Unit
AreLegal (c ∷ cs) = Fits c.op (watched cs c.fd) c.events × AreLegal cs

abbrev pub some_if_any : Events → Option Events
some_if_any e = if any_event e then some e else none

-- The number of events in the masks of the first `n` contexts.
abbrev pub total : (ℕ → FdContext) → ℕ → ℕ
total contexts zero = 0
total contexts (suc n) = total contexts n + count (contexts n).events

-- Every context is set as its mask says; epoll watches what the masks say, by calls that it could
-- accept; and the number of pending events is that of the events in all masks.
pub record IsConsistent (m : IoManager) : Type 0 where
  pub least : 32 ≤ m.size
  pub small : m.size < 2 ^ 31
  pub contexts : (i : ℕ) → IsContext i (m.contexts i)
  pub beyond : (i : ℕ) → m.size ≤ i → m.contexts i ≡ new_fd_context i
  pub watches : (i : ℕ) → watched m.ctl_calls i ≡ some_if_any (m.contexts i).events
  pub legal : AreLegal m.ctl_calls
  pub pending : m.pending_event_count ≡ total m.contexts m.size

bit_le : (b : Bool) → bit b ≤ 1
bit_le true = omega arith
bit_le false = omega arith

pub total_le : (f : ℕ → FdContext) (n : ℕ) → total f n ≤ 2 * n
total_le f zero = omega arith
total_le f (suc n) =
    omega (arith, total_le f n, bit_le (f n).events.read, bit_le (f n).events.write)

pub count_le_total : (f : ℕ → FdContext) (n fd : ℕ) → fd < n → count (f fd).events ≤ total f n
count_le_total f zero fd h = absurd (omega arith)
count_le_total f (suc n) fd h = elim (Bool-cases (fd == n)) [
  | inl e ↦ let q : fd ≡ n = (==_iff fd n).0 e in rw q (omega arith)
  | inr e ↦ omega (arith, count_le_total f n fd (ground arith))
]

total_cong :
    (f g : ℕ → FdContext) (n : ℕ) → ((i : ℕ) → (f i).events ≡ (g i).events) → total f n ≡ total g n
total_cong f g zero h = refl
total_cong f g (suc n) h = omega (arith, total_cong f g n h, ap count (h n))

total_beyond :
    (f : ℕ → FdContext) (n k : ℕ)
    → ((i : ℕ) → n ≤ i → (f i).events ≡ no_events)
    → total f (k + n) ≡ total f n
total_beyond f n zero h = ap (total f) (omega arith)
total_beyond f n (suc k) h =
    let e : suc k + n ≡ suc (k + n) = omega arith in
    omega (arith, ap (total f) e, total_beyond f n k h, ap count (h (k + n) (omega arith)))

pub update_here : (f : ℕ → FdContext) (fd : ℕ) (c : FdContext) → update f fd c fd ≡ c
update_here f fd c = ap (λ t. if t then c else f fd) ((==_iff fd fd).1 refl)

pub update_other : (f : ℕ → FdContext) (fd i : ℕ) (c : FdContext) → i ≢ fd → update f fd c i ≡ f i
update_other f fd i c ne = ap (λ t. if t then c else f i) (ne→== i fd ne)

total-update_out :
    (f : ℕ → FdContext) (n fd : ℕ) (c : FdContext) → n ≤ fd → total (update f fd c) n ≡ total f n
total-update_out f zero fd c h = refl
total-update_out f (suc n) fd c h = omega (
  arith,
  total-update_out f n fd c (omega arith),
  ap (λ d. count d.events) (update_other f fd n c (λ e. omega arith)),
)

pub total-update :
    (f : ℕ → FdContext) (n fd : ℕ) (c : FdContext)
    → fd < n
    → total (update f fd c) n + count (f fd).events ≡ total f n + count c.events
total-update f zero fd c h = absurd (omega arith)
total-update f (suc n) fd c h = elim (Bool-cases (fd == n)) [
  | inl e ↦
      let q : fd ≡ n = (==_iff fd n).0 e in
      omega (
        arith,
        total-update_out f n fd c (omega arith),
        ap (λ i. count (update f fd c i).events) (sym q),
        ap (λ d. count d.events) (update_here f fd c),
        ap (λ i. count (f i).events) q,
      )
  | inr e ↦
      let ne : n ≢ fd = (λ q. ground arith) in
      omega (
        arith,
        total-update f n fd c (ground arith),
        ap (λ d. count d.events) (update_other f fd n c ne),
      )
]

after-Fits :
    (op : CtlOp) (o : Option Events) (e : Events) → Fits op o e → after_call op e ≡ some_if_any e
after-Fits epoll_ctl_add none e h = rw h refl
after-Fits epoll_ctl_add (some d) e h = absurd h
after-Fits epoll_ctl_mod none e h = absurd h
after-Fits epoll_ctl_mod (some d) e h = rw h refl
after-Fits epoll_ctl_del none e h = absurd h
after-Fits epoll_ctl_del (some d) e h = rw h refl

-- A call that changes one context as it tells epoll to, and counts what it changes.
pub commit_lem :
    (m : IoManager) (fd : ℕ) (op : CtlOp) (e : Events) (c : FdContext) (n : ℕ)
    (work : List (ℕ × Work))
    → IsConsistent m
    → fd < m.size
    → IsContext fd c
    → c.events ≡ e
    → Fits op (some_if_any (m.contexts fd).events) e
    → n + count (m.contexts fd).events ≡ m.pending_event_count + count e
    → IsConsistent (commit m fd op e c n work)
commit_lem m fd op e c n work v lt good events fits counted = record {
  least = v.least;
  small = v.small;
  contexts = λ i.
      by_index i (λ d. IsContext i d) (λ q. subst (λ j. IsContext j c) (sym q) good) (v.contexts i);
  beyond = λ i h. update_other m.contexts fd i c (λ q. omega arith) ∙ v.beyond i h;
  watches = λ i. elim (Bool-cases (i == fd)) [
    | inl q ↦
        rw q
          (after-Fits op (some_if_any (m.contexts fd).events) e fits ∙ ap some_if_any (sym events))
    | inr q ↦ rw q (v.watches i)
  ];
  legal = (subst (λ o. Fits op o e) (sym (v.watches fd)) fits, v.legal);
  pending = omega (arith, total-update m.contexts m.size fd c lt, v.pending, ap count events);
}
  where
    by_index :
        (i : ℕ) (P : FdContext → Type 0)
        → (i ≡ fd → P c)
        → P (m.contexts i)
        → P (update m.contexts fd c i)
    by_index i P here there = elim (Bool-cases (i == fd)) [
      | inl q ↦ rw q (here ((==_iff i fd).0 q))
      | inr q ↦ rw q there
    ]

-- contextResize from below: the new contexts are empty.
pub grow-IsConsistent :
    (m : IoManager) (fd : ℕ)
    → IsConsistent m
    → m.size ≤ fd
    → fd < 2 ^ 30
    → IsConsistent (grow m fd)
      × (fd < (grow m fd).size)
      × ((i : ℕ) → (grow m fd).contexts i ≡ m.contexts i)
unfolding grow context_resize
grow-IsConsistent m fd v le small =
    let n = fd * 3 / 2 in
    let g = (context_resize m n).contexts in
    (
      record {
        least = omega (arith, v.least);
        small = omega arith;
        contexts = λ i.
            either i (λ q. subst (IsContext i) (sym q) (v.contexts i))
              (λ q. subst (IsContext i) (sym q.1) (new_fd_context-IsContext i));
        beyond = λ i h. same i ∙ v.beyond i (omega (arith, v.least));
        watches = λ i. v.watches i ∙ ap some_if_any (ap (λ c. c.events) (sym (same i)));
        legal = v.legal;
        pending =
            v.pending
            ∙ sym (
                total_cong g m.contexts n (λ i. ap (λ c. c.events) (same i))
                ∙ ap (total m.contexts) (omega (arith, v.least))
                ∙ total_beyond m.contexts m.size (n - m.size)
                    (λ i h. ap (λ c. c.events) (v.beyond i h)));
      },
      omega (arith, v.least),
      same,
    )
  where
    either :
        {P : Type 0} (i : ℕ)
        → ((context_resize m (fd * 3 / 2)).contexts i ≡ m.contexts i → P)
        → ((m.size ≤ i) × ((context_resize m (fd * 3 / 2)).contexts i ≡ new_fd_context i) → P)
        → P
    either i old new = elim (Bool-cases (ltb i m.size)) [
      | inl q ↦
          let lt = ltb→lt i m.size q in
          old (rw (q, lt→ltb i (fd * 3 / 2) (omega (arith, v.least))) refl)
      | inr q ↦ new (ltb→le i m.size q, rw q refl)
    ]

    same : (i : ℕ) → (context_resize m (fd * 3 / 2)).contexts i ≡ m.contexts i
    same i = either i (λ q. q) (λ q. q.1 ∙ sym (v.beyond i q.0))

pub new_io_manager-IsConsistent : IsConsistent new_io_manager
unfolding new_io_manager context_resize
new_io_manager-IsConsistent = record {
  least = omega arith;
  small = omega arith;
  contexts = λ i. subst (IsContext i) (sym (fresh i)) (new_fd_context-IsContext i);
  beyond = λ i h. fresh i;
  watches = λ i. sym (ap (λ c. some_if_any c.events) (fresh i));
  legal = tt;
  pending = refl;
}
  where
    if_same : (b : Bool) (c : FdContext) → (if b then c else c) ≡ c
    if_same true c = refl
    if_same false c = refl

    fresh : (i : ℕ) → new_io_manager.contexts i ≡ new_fd_context i
    fresh i = if_same (ltb i 0 && ltb i 32) (new_fd_context i)

-- A descriptor that the system can give: not negative, and far below the largest int.
abbrev pub IsFd : ℕ → Type 0
IsFd fd = fd < 2 ^ 30

pub is_beyond_small :
    (m : IoManager) (fd : ℕ) → m.size < 2 ^ 31 → IsFd fd → is_beyond m fd ≡ leb m.size fd
unfolding is_beyond le_int
is_beyond_small m fd few small =
    let n = m.size in
    let a : n % 2 ^ 32 ≡ n = mod-eq_of_lt (omega arith) in
    let b : (n + 2 ^ 31) % 2 ^ 32 ≡ n + 2 ^ 31 = mod-eq_of_lt (omega arith) in
    let c : (fd + 2 ^ 31) % 2 ^ 32 ≡ fd + 2 ^ 31 = mod-eq_of_lt (omega arith) in
    rw (a, b, c) (ground arith)

pub is_beyond_lem :
    (m : IoManager) (fd : ℕ) → IsConsistent m → IsFd fd → is_beyond m fd ≡ leb m.size fd
is_beyond_lem m fd v small = is_beyond_small m fd v.small small

-- The number of pending events is not above twice the number of contexts.
pub pending_le : (m : IoManager) → IsConsistent m → m.pending_event_count < 2 ^ 33
pending_le m v = omega (arith, v.pending, v.small, total_le m.contexts m.size)

pub Fits-del_or_mod : (d e : Events) → any_event d ≡ true → Fits (del_or_mod e) (some_if_any d) e
Fits-del_or_mod d e h = elim (Bool-cases (any_event e)) [
  | inl q ↦ rw (h, q) q
  | inr q ↦ rw (h, q) q
]
