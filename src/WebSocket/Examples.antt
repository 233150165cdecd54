-- ===== src/WebSocket/Examples.antt =====
-- WebSocket messages of src/base/net/http/ws_session.cc on streams that move a few bytes at a time.
use agent_link_coro.Prelude.{
  ℕ, ◌+◌, ◌≤◌, ◌<◌, ◌≡◌, refl, true, false, [], ◌∷◌, ◌++◌, none, some, arith, List,
}
use agent_link_coro.Stream.{Stream, read_fix_size}
use agent_link_coro.Stream.FixSize.{IsFlowing, HasRead, read_fix_size_lem}
use agent_link_coro.WebSocket.{
  head_bytes, pong_head, message, receive_loop, receive_message, send_message,
}
use agent_link_coro.WebSocket.Exchange.{Piece, fragment, ping, send-receive}
use agent_link_coro.WebSocket.Mishaps.{masked_ping, send_message_empty, receive_masked_ping}

-- A stream with three bytes on their way, which come by two, and that sends one byte and then three.
abbrev slow : Stream
slow = record {
  incoming = 7 ∷ 8 ∷ 9 ∷ [];
  arrivals = 2 ∷ 2 ∷ [];
  outgoing = [];
  departures = 1 ∷ 3 ∷ [];
  buff_size = 4;
  is_closed = false;
}

slow-IsFlowing : IsFlowing slow
slow-IsFlowing = record { arrives = omega arith; departs = omega arith; buffered = omega arith }

read_fix_size_lem_example :
    let r = read_fix_size slow 3 in
    (3 ≤ 3 → (r.0 ≡ 3) × (r.1 ≡ 7 ∷ 8 ∷ 9 ∷ []) × HasRead 3 slow r.2) × (3 < 3 → r.0 ≡ 0)
read_fix_size_lem_example = read_fix_size_lem slow 3 slow-IsFlowing (omega arith)

-- A stream that gets the bytes given, one at a time at first.
abbrev getting : List ℕ → Stream
getting bytes = record {
  incoming = bytes;
  arrivals = 1 ∷ 1 ∷ [];
  outgoing = [];
  departures = [];
  buff_size = 4;
  is_closed = false;
}

getting-IsFlowing : (bytes : List ℕ) → IsFlowing (getting bytes)
getting-IsFlowing bytes = record { arrives = omega arith; departs = tt; buffered = omega arith }

abbrev mask : List ℕ
mask = 1 ∷ 2 ∷ 3 ∷ 4 ∷ []

abbrev pieces : List Piece
pieces = fragment mask (72 ∷ 105 ∷ []) ∷ ping ∷ []

send-receive_example :
    ((send_message 77 2 (5 ∷ 6 ∷ []) true true slow).0 ≡ some (2 + 2))
    × ((r' : Stream) × (receive_message 100 false
            (getting (send_message 77 2 (5 ∷ 6 ∷ []) true true slow).1.outgoing)
          ≡ message 2 (5 ∷ 6 ∷ []) r')
        × (r'.incoming ≡ []))
send-receive_example =
    send-receive 77 100 2 (5 ∷ 6 ∷ []) true slow
      (getting (send_message 77 2 (5 ∷ 6 ∷ []) true true slow).1.outgoing) (omega arith)
      (omega arith) (omega arith) (omega arith) (omega arith) (omega arith) slow-IsFlowing
      (getting-IsFlowing (send_message 77 2 (5 ∷ 6 ∷ []) true true slow).1.outgoing) refl refl

send_message_empty_example :
    (s' : Stream) × (send_message 77 1 [] true true slow ≡ (none, s')) × (s'.is_closed ≡ true)
send_message_empty_example = send_message_empty 77 1 true true slow slow-IsFlowing

receive_masked_ping_example :
    (s' : Stream) × (receive_loop 2 100 false 0 []
        (getting (head_bytes masked_ping ++ (mask ++ [])))
      ≡ receive_loop 1 100 false 0 [] s')
    × (s'.incoming ≡ mask ++ [])
    × (s'.outgoing ≡ [] ++ head_bytes pong_head)
receive_masked_ping_example =
    receive_masked_ping 1 100 false 0 [] mask [] (getting (head_bytes masked_ping ++ (mask ++ [])))
      (getting-IsFlowing (head_bytes masked_ping ++ (mask ++ []))) refl
