-- ===== src/FdManager.antt =====
-- src/base/coro/fd_manager.h and fd_manager.cc: what the hooks know about each file descriptor. An
-- int is a 32-bit pattern. A shared_ptr<FdCtx> is an address; the address that an allocation gives is
-- an argument. get is two steps, as it lets the lock go in between.
pub mod Slots
pub mod Access
pub mod Race
mod Examples
use agent_link_coro.Prelude.{
  ℕ, zero, suc, ◌+◌, ◌-◌, ◌*◌, ◌/◌, ◌%◌, ◌^◌, Bool, true, false, not, ◌&&◌, List, [], ◌∷◌, ◌++◌,
  Option, none, some, ltb, leb, ◌==◌, if◌then◌else◌, length, take, replicate,
}
use agent_link_coro.Outcome.{Outcome, ok, fault, ◌>>=◌}

-- class FdCtx
pub record FdCtx : Type 0 where
  pub is_init : Bool
  pub is_socket : Bool
  pub sys_nonblock : Bool
  pub user_nonblock : Bool
  pub is_closed : Bool
  pub fd : ℕ
  pub recv_timeout : ℕ
  pub send_timeout : ℕ

-- What the system says of descriptors: whether fstat succeeds, whether it then shows a socket, and
-- whether F_GETFL has O_NONBLOCK.
pub record Kernel : Type 0 where
  pub is_open : ℕ → Bool
  pub is_sock : ℕ → Bool
  pub has_nonblock : ℕ → Bool

-- The contexts by address, the system, and m_datas.
pub record FdManager : Type 0 where
  pub ctxs : ℕ → FdCtx
  pub kernel : Kernel
  pub datas : List (Option ℕ)

-- fcntl_f(fd, F_SETFL, flags | O_NONBLOCK)
abbrev pub set_nonblock : Kernel → ℕ → Kernel
set_nonblock k fd = record k { has_nonblock = λ d. if d == fd then true else k.has_nonblock d }

-- FdCtx::FdCtx with FdCtx::init: the context, and the system afterwards.
unfoldable pub new_fd_ctx : Kernel → ℕ → FdCtx × Kernel
new_fd_ctx k fd =
    let socket = k.is_open fd && k.is_sock fd in
    (
      record {
        is_init = k.is_open fd;
        is_socket = socket;
        sys_nonblock = socket;
        user_nonblock = false;
        is_closed = false;
        fd = fd;
        recv_timeout = 2 ^ 64 - 1;
        send_timeout = 2 ^ 64 - 1;
      },
      (if socket && not (k.has_nonblock fd) then set_nonblock k fd else k),
    )

-- setUserNonblock and setSysNonblock
unfoldable pub set_user_nonblock : FdCtx → Bool → FdCtx
set_user_nonblock c v = record c { user_nonblock = v }

unfoldable pub set_sys_nonblock : FdCtx → Bool → FdCtx
set_sys_nonblock c v = record c { sys_nonblock = v }

-- setTimeout and getTimeout; the Boolean says that the type is SO_RCVTIMEO.
unfoldable pub set_timeout : FdCtx → Bool → ℕ → FdCtx
set_timeout c recv v = if recv then record c { recv_timeout = v } else record c { send_timeout = v }

unfoldable pub get_timeout : FdCtx → Bool → ℕ
get_timeout c recv = if recv then c.recv_timeout else c.send_timeout

-- FdManager::FdManager
unfoldable pub new_fd_manager : (ℕ → FdCtx) → Kernel → FdManager
new_fd_manager ctxs k = record { ctxs = ctxs; kernel = k; datas = replicate 64 none }

abbrev pub slot : List (Option ℕ) → ℕ → Option ℕ
slot [] i = none
slot (c ∷ cs) zero = c
slot (c ∷ cs) (suc i) = slot cs i

abbrev pub put_slot : List (Option ℕ) → ℕ → Option ℕ → List (Option ℕ)
put_slot [] i v = []
put_slot (c ∷ cs) zero v = v ∷ cs
put_slot (c ∷ cs) (suc i) v = c ∷ put_slot cs i v

-- m_datas[fd], to read and to write; outside of the vector it is a fault.
abbrev pub elem_at : List (Option ℕ) → ℕ → Outcome (Option ℕ)
elem_at datas fd = if ltb fd (length datas) then ok (slot datas fd) else fault

abbrev pub store_at : List (Option ℕ) → ℕ → Option ℕ → Outcome (List (Option ℕ))
store_at datas fd v = if ltb fd (length datas) then ok (put_slot datas fd v) else fault

-- m_datas.resize(n)
abbrev pub resize : List (Option ℕ) → ℕ → List (Option ℕ)
resize datas n = take n datas ++ replicate (n - length datas) none

-- `<=` on int.
unfoldable pub le_int : ℕ → ℕ → Bool
le_int a b = leb ((a + 2 ^ 31) % 2 ^ 32) ((b + 2 ^ 31) % 2 ^ 32)

-- `(int)m_datas.size() <= fd`
unfoldable pub is_beyond : List (Option ℕ) → ℕ → Bool
unfolding le_int
is_beyond datas fd = le_int (length datas % 2 ^ 32) fd

abbrev pub found_or : Option ℕ → Bool → Option (Option ℕ)
found_or (some a) auto_create = some (some a)
found_or none true = none
found_or none false = some none

-- FdManager::get up to lock.unlock(): what it returns, and `none` where it goes on.
unfoldable pub look : FdManager → ℕ → Bool → Outcome (Option (Option ℕ))
unfolding is_beyond
look m fd auto_create =
    if fd == 2 ^ 32 - 1
    then ok (some none)
    else if is_beyond m.datas fd
    then ok (if auto_create then none else some none)
    else elem_at m.datas fd >>= λ c. ok (found_or c auto_create)

-- FdManager::get from the write lock on, for a context at `a`; fd * 1.5 is cut down to an integer.
unfoldable pub create : FdManager → ℕ → ℕ → Outcome FdManager
unfolding new_fd_ctx is_beyond
create m a fd = do
  let (ctx, kernel) = new_fd_ctx m.kernel fd
  datas ←
      store_at (if is_beyond m.datas fd then resize m.datas (fd * 3 / 2) else m.datas) fd (some a)
  ok (record { ctxs = λ b. if b == a then ctx else m.ctxs b; kernel = kernel; datas = datas })

unfoldable pub continue_with :
    FdManager → ℕ → ℕ → Option (Option ℕ) → Outcome (FdManager × Option ℕ)
unfolding create
continue_with m a fd (some c) = ok (m, c)
continue_with m a fd none = create m a fd >>= λ m'. ok (m', some a)

-- FdManager::get with no other call in between.
unfoldable pub get : FdManager → ℕ → ℕ → Bool → Outcome (FdManager × Option ℕ)
unfolding look continue_with
get m a fd auto_create = look m fd auto_create >>= continue_with m a fd

-- FdManager::del
unfoldable pub del_fd : FdManager → ℕ → Outcome FdManager
unfolding is_beyond
del_fd m fd =
    if is_beyond m.datas fd
    then ok m
    else store_at m.datas fd none >>= λ datas. ok (record m { datas = datas })
