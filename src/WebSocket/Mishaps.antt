-- ===== src/WebSocket/Mishaps.antt =====
-- Messages that src/base/net/http/ws_session.cc loses: empty ones, and the mask of a control frame.
use agent_link_coro.Prelude.{
  ℕ, suc, ◌%◌, ◌^◌, ◌≡◌, refl, ap, ◌∙◌, Bool, true, false, List, [], ◌++◌, none, arith,
  if◌then◌else◌,
}
use agent_link_coro.Prelude.Words.{add64}
use agent_link_coro.Stream.{Stream, close, write_fix_size, write_fix_loop}
use agent_link_coro.Stream.FixSize.{IsFlowing}
use agent_link_coro.ByteArray.Fixed.{memory_of}
use agent_link_coro.ByteArray.Fixed.RoundTrip.{length-memory_of}
use agent_link_coro.WebSocket.{
  Io, ◌>>=◌, continue_with, give, or_close, WsFrameHead, head_bytes, pong_head, apply_mask,
  send_exact, send_length, send_steps, send_message, send_control, with_head, after_pong,
  receive_loop,
}
use agent_link_coro.WebSocket.Frame.{data_head}
use agent_link_coro.WebSocket.Send.{bind_lem, send_exact_lem, send_length_lem, send_mask_lem}
use agent_link_coro.WebSocket.Rounds.{receive_head}

send_nothing : (s : Stream) → send_exact [] s ≡ (none, s)
unfolding send_exact write_fix_size write_fix_loop
send_nothing s = refl

-- WSSendMessage of an empty message on a flowing stream fails: it returns -1 and closes the stream.
pub send_message_empty :
    (random opcode : ℕ) (client fin : Bool) (s : Stream)
    → IsFlowing s
    → (s' : Stream) × (send_message random opcode [] client fin s ≡ (none, s'))
      × (s'.is_closed ≡ true)
unfolding send_message send_steps apply_mask
send_message_empty random opcode client fin s f =
    let mask = memory_of 4 random in
    let head = head_bytes (data_head fin opcode client 0) in
    let (s1, e1, w1) = send_exact_lem head s f (omega arith) (omega arith) in
    let (n2, s2, e2, w2) = send_length_lem 0 s1 w1.flowing in
    let (n3, s3, e3, w3) = send_mask_lem client mask s2 w2.flowing (length-memory_of 4 random) in
    let masking : Io ℕ = if client then send_exact mask else give 0 in
    let last : ℕ → Io ℕ = λ c.
      send_exact (if client then apply_mask 0 mask [] else []) >>= λ d. give (add64 0 2 % 2 ^ 32) in
    let third : ℕ → Io ℕ = λ b. masking >>= last in
    let all : send_steps random opcode [] client fin s ≡ (none, s3) =
      bind_lem (send_exact head) (λ a. send_length 0 >>= third) e1
      ∙ bind_lem (send_length 0) third e2
      ∙ bind_lem masking last e3
      ∙ ap (λ r. continue_with r (λ d. give (add64 0 2 % 2 ^ 32))) (either_way client s3) in
    (close s3, ap or_close all, refl)
  where
    either_way :
        (c : Bool) (z : Stream)
        → send_exact (if c then apply_mask 0 (memory_of 4 random) [] else []) z ≡ (none, z)
    either_way true z = send_nothing z
    either_way false z = send_nothing z

abbrev pub masked_ping : WsFrameHead
masked_ping = record { opcode = 0x9; rsv = 0; fin = true; payload = 0; mask = true }

-- A ping with a mask, as a client has to send it, is answered, but WSRecvMessage leaves its mask on the
-- stream and goes on as if the next frame began with it.
pub receive_masked_ping :
    (fuel max_size : ℕ) (client : Bool) (opcode : ℕ) (so_far mask rest : List ℕ) (s : Stream)
    → IsFlowing s
    → s.incoming ≡ head_bytes masked_ping ++ (mask ++ rest)
    → (s' : Stream) × (receive_loop (suc fuel) max_size client opcode so_far s
        ≡ receive_loop fuel max_size client opcode so_far s')
      × (s'.incoming ≡ mask ++ rest)
      × (s'.outgoing ≡ s.outgoing ++ head_bytes pong_head)
unfolding with_head send_control
receive_masked_ping fuel max_size client opcode so_far mask rest s f e =
    let (s1, e1, t1) =
      receive_head fuel max_size client opcode so_far masked_ping (mask ++ rest) s f
        (record { opcode = omega arith; rsv = omega arith; payload = omega arith }) e in
    let (s2, e2, w) =
      send_exact_lem (head_bytes pong_head) s1 t1.flowing (omega arith) (omega arith) in
    (
      s2,
      e1 ∙ ap (λ r. after_pong (receive_loop fuel max_size client opcode so_far) (or_close r)) e2,
      w.incoming ∙ t1.incoming,
      w.outgoing ∙ ap (λ z. z ++ head_bytes pong_head) t1.outgoing,
    )
