-- ===== src/WebSocket/Rounds.antt =====
-- Whole rounds of WSRecvMessage of src/base/net/http/ws_session.cc: a frame with data, a ping, a pong.
use agent_link_coro.Prelude.{
  ℕ, suc, ◌<◌, ◌≡◌, refl, ap, ◌∙◌, Bool, true, false, not, ◌&&◌, List, ◌++◌, arith, ◌==◌,
  if◌then◌else◌, length, ne→==, append_assoc,
}
use agent_link_coro.Stream.{Stream}
use agent_link_coro.Stream.FixSize.{IsFlowing}
use agent_link_coro.WebSocket.{
  WsFrameHead, head_bytes, is_data, pong_head, ping_head, send_control, with_head, after_head,
  after_payload, after_pong, receive_loop, message, or_close,
}
use agent_link_coro.WebSocket.Frame.{
  FitsBits, head_of-head_bytes, length_bytes, mask_bytes, masked_bytes, data_head, frame_bytes,
  data_head-FitsBits,
}
use agent_link_coro.WebSocket.Send.{send_exact_lem}
use agent_link_coro.WebSocket.Receive.{Took, Took-trans, read_exact_lem, Accepts, read_payload_lem}

-- A head on its way is read, and the round goes on with it.
pub receive_head :
    (fuel max_size : ℕ) (client : Bool) (opcode : ℕ) (so_far : List ℕ) (h : WsFrameHead)
    (rest : List ℕ) (s : Stream)
    → IsFlowing s
    → FitsBits h
    → s.incoming ≡ head_bytes h ++ rest
    → (s' : Stream) × (receive_loop (suc fuel) max_size client opcode so_far s
        ≡ with_head (receive_loop fuel max_size client) max_size client opcode so_far h s')
      × Took rest s s'
unfolding receive_loop after_head
receive_head fuel max_size client opcode so_far h rest s f fits e =
    let (s', got, t) =
      read_exact_lem 2 (head_bytes h) rest s f e refl (omega arith) (omega arith) in
    (
      s',
      ap (after_head (receive_loop fuel max_size client) max_size client opcode so_far) got
          ∙ ap
              (λ z.
                with_head (receive_loop fuel max_size client) max_size client opcode so_far z s')
              (head_of-head_bytes h fits),
      t,
    )

-- The opcode of a message is that of its first frame that has one.
abbrev pub next_opcode : ℕ → ℕ → ℕ
next_opcode opcode code = if (opcode == 0) && not (code == 0) then code else opcode

frame_parts :
    (fin : Bool) (code : ℕ) (masked : Bool) (mask xs rest : List ℕ)
    → frame_bytes fin code masked mask xs ++ rest
      ≡ head_bytes (data_head fin code masked (length xs))
        ++ (length_bytes (length xs)
            ++ (mask_bytes masked mask ++ (masked_bytes masked mask xs ++ rest)))
unfolding frame_bytes
frame_parts fin code masked mask xs rest =
    let a = length_bytes (length xs) in
    let b = mask_bytes masked mask in
    let c = masked_bytes masked mask xs in
    ap (λ z. head_bytes (data_head fin code masked (length xs)) ++ z)
      (append_assoc a (b ++ c) rest ∙ ap (λ z. a ++ z) (append_assoc b c rest))

pub receive_frame :
    (fuel max_size : ℕ) (client : Bool) (opcode : ℕ) (so_far : List ℕ) (fin : Bool) (code : ℕ)
    (masked : Bool) (mask xs rest : List ℕ) (s : Stream)
    → IsFlowing s
    → code < 3
    → Accepts max_size client masked so_far mask xs
    → s.incoming ≡ frame_bytes fin code masked mask xs ++ rest
    → (s' : Stream) × (receive_loop (suc fuel) max_size client opcode so_far s ≡ (
        if fin
        then message (next_opcode opcode code) (so_far ++ xs) s'
        else receive_loop fuel max_size client (next_opcode opcode code) (so_far ++ xs) s'))
      × Took rest s s'
unfolding with_head
receive_frame fuel max_size client opcode so_far fin code masked mask xs rest s f small c e =
    let h = data_head fin code masked (length xs) in
    let tail =
      length_bytes (length xs)
      ++ (mask_bytes masked mask ++ (masked_bytes masked mask xs ++ rest)) in
    let fits = data_head-FitsBits fin code masked (length xs) (omega arith) in
    let (s1, e1, t1) =
      receive_head fuel max_size client opcode so_far h tail s f fits
        (e ∙ frame_parts fin code masked mask xs rest) in
    let (s2, e2, t2) =
      read_payload_lem max_size client fin code masked so_far mask xs rest s1 t1.flowing c
        t1.incoming in
    let no_ping : (code == 9) ≡ false = ne→== code 9 (λ q. omega arith) in
    let no_pong : (code == 10) ≡ false = ne→== code 10 (λ q. omega arith) in
    let is : is_data code ≡ true = ground arith in
    (
      s2,
      e1
          ∙ rw (no_ping, no_pong, is)
              (ap (after_payload (receive_loop fuel max_size client) opcode h) e2),
      Took-trans tail rest s s1 s2 t1 t2,
    )

-- A pong is passed over.
pub receive_pong :
    (fuel max_size : ℕ) (client : Bool) (opcode : ℕ) (so_far rest : List ℕ) (s : Stream)
    → IsFlowing s
    → s.incoming ≡ head_bytes pong_head ++ rest
    → (s' : Stream) × (receive_loop (suc fuel) max_size client opcode so_far s
        ≡ receive_loop fuel max_size client opcode so_far s')
      × Took rest s s'
unfolding with_head
receive_pong fuel max_size client opcode so_far rest s f e =
    receive_head fuel max_size client opcode so_far pong_head rest s f
      (record { opcode = omega arith; rsv = omega arith; payload = omega arith }) e

-- A ping is answered by a pong.
pub receive_ping :
    (fuel max_size : ℕ) (client : Bool) (opcode : ℕ) (so_far rest : List ℕ) (s : Stream)
    → IsFlowing s
    → s.incoming ≡ head_bytes ping_head ++ rest
    → (s' : Stream) × (receive_loop (suc fuel) max_size client opcode so_far s
        ≡ receive_loop fuel max_size client opcode so_far s')
      × (s'.incoming ≡ rest)
      × (s'.outgoing ≡ s.outgoing ++ head_bytes pong_head)
      × IsFlowing s'
unfolding with_head send_control
receive_ping fuel max_size client opcode so_far rest s f e =
    let (s1, e1, t1) =
      receive_head fuel max_size client opcode so_far ping_head rest s f
        (record { opcode = omega arith; rsv = omega arith; payload = omega arith }) e in
    let (s2, e2, w) =
      send_exact_lem (head_bytes pong_head) s1 t1.flowing (omega arith) (omega arith) in
    (
      s2,
      e1 ∙ ap (λ r. after_pong (receive_loop fuel max_size client opcode so_far) (or_close r)) e2,
      w.incoming ∙ t1.incoming,
      w.outgoing ∙ ap (λ z. z ++ head_bytes pong_head) t1.outgoing,
      w.flowing,
    )
