-- ===== src/WebSocket/Send.antt =====
-- What WSSendMessage, WSPing and WSPong of src/base/net/http/ws_session.cc put on a stream.
use agent_link_coro.Prelude.{
  ℕ, ◌+◌, ◌%◌, ◌^◌, ◌<◌, ◌≡◌, refl, sym, ap, ◌∙◌, Bool, true, false, List, [], ◌++◌, Option, some,
  arith, ltb, ◌==◌, if◌then◌else◌, length, inl, inr, Bool-cases, ne→==, append-nil, ltb→lt,
}
use agent_link_coro.Prelude.Words.{add64, add64_no_wrap}
use agent_link_coro.Stream.{Stream, write_fix_size}
use agent_link_coro.Stream.FixSize.{IsFlowing, HasWritten, HasWritten-trans, write_fix_size_lem}
use agent_link_coro.ByteArray.Fixed.{memory_of}
use agent_link_coro.ByteArray.Fixed.RoundTrip.{
  image, length-image, memory_of-byteswap, length-memory_of,
}
use agent_link_coro.WebSocket.{
  Io, continue_with, ◌>>=◌, give, or_close, send_steps, head_bytes, send_exact, send_length,
  send_message,
}
use agent_link_coro.WebSocket.Frame.{
  length_bytes, mask_bytes, masked_bytes, data_head, frame_bytes, length-apply_mask,
}

pub bind_lem :
    {A B : Type 0} (m : Io A) (f : A → Io B) {s s' : Stream} {a : A}
    → m s ≡ (some a, s')
    → (m >>= f) s ≡ f a s'
bind_lem m f e = ap (λ r. continue_with r f) e

-- A step that has gone on and has sent `bytes`.
abbrev pub Sends : {A : Type 0} → List ℕ → Stream → Option A × Stream → Type 0
Sends {A} bytes s r = (a : A) × (s' : Stream) × (r ≡ (some a, s')) × HasWritten bytes s s'

pub send_exact_lem :
    (bytes : List ℕ) (s : Stream)
    → IsFlowing s
    → 0 < length bytes
    → length bytes < 2 ^ 31
    → (s' : Stream) × (send_exact bytes s ≡ (some (length bytes), s')) × HasWritten bytes s s'
unfolding send_exact
send_exact_lem bytes s f pos small =
    let (size, now) = write_fix_size_lem s bytes f small in
    let not_none : (length bytes == 0) ≡ false = ne→== (length bytes) 0 (λ e. omega arith) in
    ((write_fix_size s bytes).1, rw (size, not_none) refl, now)

HasWritten-same : (s : Stream) → IsFlowing s → HasWritten [] s s
HasWritten-same s f = record {
  outgoing = sym (append-nil s.outgoing);
  incoming = refl;
  is_closed = refl;
  flowing = f;
}

pub send_length_lem :
    (size : ℕ) (s : Stream)
    → IsFlowing s
    → (n : ℕ) × (s' : Stream) × (send_length size s ≡ (some n, s'))
      × HasWritten (length_bytes size) s s'
unfolding send_length
send_length_lem size s f = elim (Bool-cases (ltb size 126)) [
  | inl short ↦
      let lt = ltb→lt size 126 short in
      let a : (size == 126) ≡ false = ne→== size 126 (λ e. omega (arith, lt)) in
      let b : (size == 127) ≡ false = ne→== size 127 (λ e. omega (arith, lt)) in
      rw (short, a, b) (0, s, refl, HasWritten-same s f)
  | inr long ↦ rw long (elim (Bool-cases (ltb size 65536)) [
    | inl middle ↦
        let (s', sent, w) =
          send_exact_lem (image false 2 size) s f (omega (arith, length-image false 2 size))
            (omega (arith, length-image false 2 size)) in
        rw (middle, memory_of-byteswap 2 size, sent) (length (image false 2 size), s', refl, w)
    | inr longest ↦
        let (s', sent, w) =
          send_exact_lem (image false 8 size) s f (omega (arith, length-image false 8 size))
            (omega (arith, length-image false 8 size)) in
        rw (longest, memory_of-byteswap 8 size, sent) (length (image false 8 size), s', refl, w)
  ])
]

pub send_mask_lem :
    (client : Bool) (mask : List ℕ) (s : Stream)
    → IsFlowing s
    → length mask ≡ 4
    → (n : ℕ) × (s' : Stream) × ((if client then send_exact mask else give 0) s ≡ (some n, s'))
      × HasWritten (mask_bytes client mask) s s'
send_mask_lem true mask s f h =
    let (s', sent, w) = send_exact_lem mask s f (omega arith) (omega arith) in
    (length mask, s', sent, w)
send_mask_lem false mask s f h = (0, s, refl, HasWritten-same s f)

pub length-masked_bytes :
    (masked : Bool) (mask xs : List ℕ) → length (masked_bytes masked mask xs) ≡ length xs
unfolding masked_bytes
length-masked_bytes true mask xs = length-apply_mask 0 mask xs
length-masked_bytes false mask xs = refl

-- WSSendMessage on a flowing stream, of a message that is not empty and shorter than 2 ^ 31 bytes,
-- sends exactly one frame with its bytes, masked for a client, and returns the bit pattern of their
-- number and 2, which as an int32_t is negative from 2 ^ 31 - 2 bytes on.
pub send_message_lem :
    (random opcode : ℕ) (xs : List ℕ) (client fin : Bool) (s : Stream)
    → IsFlowing s
    → 0 < length xs
    → length xs < 2 ^ 31
    → (s' : Stream) × (send_message random opcode xs client fin s ≡ (some (length xs + 2), s'))
      × HasWritten (frame_bytes fin opcode client (memory_of 4 random) xs) s s'
unfolding send_message send_steps frame_bytes masked_bytes
send_message_lem random opcode xs client fin s f pos small =
    let mask = memory_of 4 random in
    let head = head_bytes (data_head fin opcode client (length xs)) in
    let body = masked_bytes client mask xs in
    let size = length-masked_bytes client mask xs in
    let returned : add64 (length xs) 2 % 2 ^ 32 ≡ length xs + 2 =
      omega (arith, add64_no_wrap (length xs) 2 (omega arith)) in
    let (s1, e1, w1) = send_exact_lem head s f (omega arith) (omega arith) in
    let (n2, s2, e2, w2) = send_length_lem (length xs) s1 w1.flowing in
    let (n3, s3, e3, w3) = send_mask_lem client mask s2 w2.flowing (length-memory_of 4 random) in
    let (s4, e4, w4) =
      send_exact_lem body s3 w3.flowing (omega (arith, size)) (omega (arith, size)) in
    let all : send_steps random opcode xs client fin s ≡ (some (length xs + 2), s4) =
      bind_lem (send_exact head) _ e1
      ∙ bind_lem (send_length (length xs)) _ e2
      ∙ bind_lem (if client then send_exact mask else give 0) _ e3
      ∙ bind_lem (send_exact body) _ e4
      ∙ ap (λ n. (some n, s4)) returned in
    (
      s4,
      ap or_close all,
      HasWritten-trans head (length_bytes (length xs) ++ (mask_bytes client mask ++ body)) s s1 s4
          w1
          (HasWritten-trans (length_bytes (length xs)) (mask_bytes client mask ++ body) s1 s2 s4 w2
            (HasWritten-trans (mask_bytes client mask) body s2 s3 s4 w3 w4)),
    )
