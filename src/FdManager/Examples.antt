-- ===== src/FdManager/Examples.antt =====
-- Runs of the descriptor table of src/base/coro/fd_manager.cc.
use agent_link_coro.Prelude.{
  ℕ, ◌≡◌, ◌≢◌, refl, true, false, Option, none, some, arith, replicate, ◌==◌,
}
use agent_link_coro.Outcome.{ok}
use agent_link_coro.FdManager.{FdCtx, FdManager, Kernel, slot, look, create, get}
use agent_link_coro.FdManager.Access.{IsValid, Got, get_lem}
use agent_link_coro.FdManager.Race.{race_lem}

abbrev no_ctx : FdCtx
no_ctx = record {
  is_init = false;
  is_socket = false;
  sys_nonblock = false;
  user_nonblock = false;
  is_closed = false;
  fd = 0;
  recv_timeout = 0;
  send_timeout = 0;
}

-- Descriptor 7 is a socket that blocks.
abbrev kernel : Kernel
kernel = record { is_open = λ d. d == 7; is_sock = λ d. true; has_nonblock = λ d. false }

abbrev start : FdManager
start = record { ctxs = λ a. no_ctx; kernel = kernel; datas = replicate 64 none }

start-IsValid : IsValid start
start-IsValid = (omega arith, omega arith)

get_lem_example :
    (m' : FdManager) × (r : Option ℕ) × (get start 100 7 true ≡ ok (m', r))
    × Got start 100 7 (slot start.datas 7) true m' r
get_lem_example = get_lem start 100 7 true start-IsValid (omega arith)

race_lem_example :
    (look start 7 true ≡ ok none)
    × (m1 : FdManager) × (m2 : FdManager) × (create start 100 7 ≡ ok m1)
    × (slot m1.datas 7 ≡ some 100)
    × (create m1 200 7 ≡ ok m2)
    × (slot m2.datas 7 ≡ some 200)
    × (slot m2.datas 7 ≢ some 100)
race_lem_example = race_lem start 100 200 7 start-IsValid (omega arith) (λ e. omega arith) refl
