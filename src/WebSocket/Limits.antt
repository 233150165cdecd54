-- ===== src/WebSocket/Limits.antt =====
-- WSRecvMessage of src/base/net/http/ws_session.cc returns on any stream at all.
use agent_link_coro.Prelude.{ℕ, ◌^◌, ◌≤◌, ◌<◌, ◌≡◌, Bool, true, List, length}
use agent_link_coro.Stream.{Stream}
use agent_link_coro.WebSocket.{message, closed, unfinished, Received}

-- A call that has returned: a message below the largest size, or null and a closed stream.
abbrev pub HasReturned : ℕ → Received → Type 0
HasReturned max_size (message opcode bytes s) = length bytes < max_size
HasReturned max_size (closed s) = s.is_closed ≡ true
HasReturned max_size unfinished = ⊥

module _ (max_size : ℕ) (client : Bool) (limit : max_size ≤ 2 ^ 31) where
  -- A continuation that returns on a stream with fewer than `fuel` bytes.
  abbrev Returns : ℕ → (ℕ → List ℕ → Stream → Received) → Type 0
  Returns fuel next =
      (opcode : ℕ) (so_far : List ℕ) (s : Stream)
      → length s.incoming < fuel
      → length so_far < max_size
      → HasReturned max_size (next opcode so_far s)
