-- ===== src/WebSocket.antt =====
-- src/base/net/http/ws_session.h and ws_session.cc: WebSocket messages over a stream, in frames.
pub mod Frame
pub mod Send
pub mod Receive
pub mod Rounds
pub mod Exchange
pub mod Steps
pub mod Limits
pub mod Mishaps
mod Examples
use Prim.Native.Nat.{bit_xor}
use agent_link_coro.Prelude.{
  ℕ, zero, suc, ◌+◌, ◌*◌, ◌/◌, ◌%◌, ◌^◌, Bool, true, false, not, ◌&&◌, ◌||◌, List, [], ◌∷◌, ◌++◌,
  Option, none, some, ltb, leb, ◌==◌, if◌then◌else◌, length,
}
use agent_link_coro.Prelude.Words.{add64}
use agent_link_coro.Stream.{Stream, close, read_fix_size, write_fix_size}
use agent_link_coro.ByteArray.Fixed.{memory_of, from_memory, byteswap}

-- A step of a conversation: `none` where the code breaks out of its loop.
abbrev pub Io : Type 0 → Type 0
Io A = Stream → Option A × Stream

abbrev pub continue_with : {A B : Type 0} → Option A × Stream → (A → Io B) → Option B × Stream
continue_with (none, s) f = (none, s)
continue_with (some a, s) f = f a s

infixl 5 ◌>>=◌
abbrev pub ◌>>=◌ : {A B : Type 0} → Io A → (A → Io B) → Io B
◌>>=◌ m f s = continue_with (m s) f

abbrev pub give : {A : Type 0} → A → Io A
give a s = (some a, s)

abbrev pub stop : {A : Type 0} → Io A
stop s = (none, s)

-- `if (stream->readFixSize(...) <= 0) break;`
unfoldable pub read_exact : ℕ → Io (List ℕ)
read_exact n s =
    let (r, bytes, s') = read_fix_size s n in ((if r == 0 then none else some bytes), s')

-- `if (stream->writeFixSize(...) <= 0) break;`
unfoldable pub send_exact : List ℕ → Io ℕ
send_exact bytes s = let (r, s') = write_fix_size s bytes in ((if r == 0 then none else some r), s')

-- struct WSFrameHead; `rsv` is the number made of rsv3, rsv2 and rsv1.
pub record WsFrameHead : Type 0 where
  pub opcode : ℕ
  pub rsv : ℕ
  pub fin : Bool
  pub payload : ℕ
  pub mask : Bool

abbrev pub bit : Bool → ℕ
bit true = 1
bit false = 0

-- The two bytes of a head, its bit fields from the low bits up, and the head in two bytes.
abbrev pub head_bytes : WsFrameHead → List ℕ
head_bytes h =
    (h.opcode % 16 + 16 * (h.rsv % 8) + 128 * bit h.fin) ∷ (h.payload % 128 + 128 * bit h.mask) ∷ []

abbrev pub head_of : List ℕ → WsFrameHead
head_of [] = record { opcode = 0; rsv = 0; fin = false; payload = 0; mask = false }
head_of (x ∷ []) = record { opcode = 0; rsv = 0; fin = false; payload = 0; mask = false }
head_of (x ∷ y ∷ rest) = record {
  opcode = x % 16;
  rsv = x / 16 % 8;
  fin = leb 128 (x % 256);
  payload = y % 128;
  mask = leb 128 (y % 256);
}

-- `data[i] ^= mask[i % 4]`, from position `i` on.
abbrev pub mask_at : List ℕ → ℕ → ℕ
mask_at [] i = 0
mask_at (m ∷ ms) zero = m
mask_at (m ∷ ms) (suc i) = mask_at ms i

unfoldable pub apply_mask : ℕ → List ℕ → List ℕ → List ℕ
apply_mask i mask [] = []
apply_mask i mask (x ∷ xs) = bit_xor x (mask_at mask (i % 4)) ∷ apply_mask (i + 1) mask xs

-- The length that follows the head.
unfoldable pub read_length : WsFrameHead → Io ℕ
unfolding read_exact byteswap from_memory
read_length h =
    if h.payload == 126
    then (do raw ← read_exact 2; give (byteswap 2 (from_memory raw)))
    else if h.payload == 127
    then (do raw ← read_exact 8; give (byteswap 8 (from_memory raw)))
    else give h.payload

unfoldable pub read_mask : WsFrameHead → Io (List ℕ)
unfolding read_exact
read_mask h = if h.mask then read_exact 4 else give (0 ∷ 0 ∷ 0 ∷ 0 ∷ [])

-- What WSRecvMessage does with a frame that has data: the data so far with those of the frame.
unfoldable pub read_payload : ℕ → Bool → WsFrameHead → List ℕ → Io (List ℕ)
unfolding read_length read_mask read_exact apply_mask
read_payload max_size client h so_far = if not client && not h.mask then stop else (do
  size ← read_length h
  if leb max_size (add64 (length so_far) size) then stop else (do
    mask ← read_mask h
    bytes ← read_exact size
    give (so_far ++ (if h.mask then apply_mask 0 mask bytes else bytes))))

abbrev pub pong_head : WsFrameHead
pong_head = record { opcode = 0xA; rsv = 0; fin = true; payload = 0; mask = false }

abbrev pub ping_head : WsFrameHead
ping_head = record { opcode = 0x9; rsv = 0; fin = true; payload = 0; mask = false }

abbrev pub or_close : {A : Type 0} → Option A × Stream → Option A × Stream
or_close (none, s) = (none, close s)
or_close (some a, s) = (some a, s)

-- WSPong and WSPing
unfoldable pub send_control : WsFrameHead → Io ℕ
unfolding send_exact
send_control h s = or_close (send_exact (head_bytes h) s)

-- What WSRecvMessage returns: a message, or null with the stream closed. `unfinished` says that the
-- rounds given ran out.
pub data Received : Type 0 where
  message : (opcode : ℕ) (bytes : List ℕ) (s : Stream) → Received
  closed : (s : Stream) → Received
  unfinished : Received

-- The rest of a round: `next` is the next one, from the opcode and the data so far.
abbrev pub after_payload :
    (ℕ → List ℕ → Stream → Received) → ℕ → WsFrameHead → Option (List ℕ) × Stream → Received
after_payload next opcode h (none, s) = closed (close s)
after_payload next opcode h (some bytes, s) =
    let opcode' = if (opcode == 0) && not (h.opcode == 0) then h.opcode else opcode in
    if h.fin then message opcode' bytes s else next opcode' bytes s

abbrev pub after_pong : (Stream → Received) → Option ℕ × Stream → Received
after_pong next (none, s) = closed (close s)
after_pong next (some n, s) = next s

abbrev pub is_data : ℕ → Bool
is_data opcode = (opcode == 0) || (opcode == 1) || (opcode == 2)

unfoldable pub with_head :
    (ℕ → List ℕ → Stream → Received) → ℕ → Bool → ℕ → List ℕ → WsFrameHead → Stream → Received
unfolding send_control read_payload
with_head next max_size client opcode so_far h s =
    if h.opcode == 0x9
    then after_pong (next opcode so_far) (send_control pong_head s)
    else if h.opcode == 0xA
    then next opcode so_far s
    else if is_data h.opcode
    then after_payload next opcode h (read_payload max_size client h so_far s)
    else next opcode so_far s

unfoldable pub after_head :
    (ℕ → List ℕ → Stream → Received) → ℕ → Bool → ℕ → List ℕ → Option (List ℕ) × Stream → Received
unfolding with_head
after_head next max_size client opcode so_far (none, s) = closed (close s)
after_head next max_size client opcode so_far (some raw, s) =
    with_head next max_size client opcode so_far (head_of raw) s

-- The loop of WSRecvMessage, for `fuel` frames at most.
unfoldable pub receive_loop : ℕ → ℕ → Bool → ℕ → List ℕ → Stream → Received
unfolding read_exact after_head
receive_loop zero max_size client opcode so_far s = unfinished
receive_loop (suc fuel) max_size client opcode so_far s =
    after_head (receive_loop fuel max_size client) max_size client opcode so_far (read_exact 2 s)

-- WSRecvMessage. Every round but the last reads two bytes at least, so the bytes on their way are
-- rounds enough.
unfoldable pub receive_message : ℕ → Bool → Stream → Received
unfolding receive_loop
receive_message max_size client s = receive_loop (suc (length s.incoming)) max_size client 0 [] s

abbrev pub payload_of : ℕ → ℕ
payload_of size = if ltb size 126 then size else if ltb size 65536 then 126 else 127

-- The length behind the head: `byteswapOnLittleEndian(len)` as it lies in memory.
unfoldable pub send_length : ℕ → Io ℕ
unfolding send_exact byteswap memory_of
send_length size =
    if payload_of size == 126
    then send_exact (memory_of 2 (byteswap 2 size))
    else if payload_of size == 127
    then send_exact (memory_of 8 (byteswap 8 size))
    else give 0

-- The body of WSSendMessage; `random` is rand(), which makes the mask of a client.
unfoldable pub send_steps : ℕ → ℕ → List ℕ → Bool → Bool → Io ℕ
unfolding send_exact send_length apply_mask memory_of
send_steps random opcode bytes client fin =
    let size = length bytes in
    let mask = memory_of 4 random in
    let head : WsFrameHead = record {
      opcode = opcode;
      rsv = 0;
      fin = fin;
      payload = payload_of size;
      mask = client;
    } in
    (do
      a ← send_exact (head_bytes head)
      b ← send_length size
      c ← (if client then send_exact mask else give 0)
      d ← send_exact (if client then apply_mask 0 mask bytes else bytes)
      give (add64 size 2 % 2 ^ 32))

-- WSSendMessage: the number returned, or `none` for the -1 behind the loop, and the stream. The number
-- is a bit pattern of int32_t: `size + sizeof(ws_head)` is of type size_t, and is converted.
unfoldable pub send_message : ℕ → ℕ → List ℕ → Bool → Bool → Stream → Option ℕ × Stream
unfolding send_steps
send_message random opcode bytes client fin s =
    or_close (send_steps random opcode bytes client fin s)
