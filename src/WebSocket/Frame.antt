-- ===== src/WebSocket/Frame.antt =====
-- The bytes of one WebSocket frame, as src/base/net/http/ws_session.cc sends and takes them.
use agent_link_coro.Prelude.{
  ℕ, suc, ◌+◌, ◌%◌, ◌<◌, ◌≡◌, refl, ap, Bool, false, List, [], ◌∷◌, ◌++◌, arith, ltb, if◌then◌else◌,
  length,
}
use agent_link_coro.Prelude.Bits.{bit_xor_twice}
use agent_link_coro.ByteArray.Fixed.RoundTrip.{image}
use agent_link_coro.WebSocket.{WsFrameHead, head_bytes, head_of, mask_at, apply_mask, payload_of}

-- A head whose fields fit their bits.
pub record FitsBits (h : WsFrameHead) : Type 0 where
  pub opcode : h.opcode < 16
  pub rsv : h.rsv < 8
  pub payload : h.payload < 128

pub head_of-head_bytes : (h : WsFrameHead) → FitsBits h → head_of (head_bytes h) ≡ h
head_of-head_bytes h f = ground arith

pub apply_mask_twice : (i : ℕ) (mask xs : List ℕ) → apply_mask i mask (apply_mask i mask xs) ≡ xs
unfolding apply_mask
apply_mask_twice i mask [] = refl
apply_mask_twice i mask (x ∷ xs) =
    rw (bit_xor_twice x (mask_at mask (i % 4)), apply_mask_twice (i + 1) mask xs) refl

pub length-apply_mask : (i : ℕ) (mask xs : List ℕ) → length (apply_mask i mask xs) ≡ length xs
unfolding apply_mask
length-apply_mask i mask [] = refl
length-apply_mask i mask (x ∷ xs) = ap suc (length-apply_mask (i + 1) mask xs)

-- The length in network order, where the head has no room for it.
abbrev pub length_bytes : ℕ → List ℕ
length_bytes size =
    if ltb size 126 then [] else if ltb size 65536 then image false 2 size else image false 8 size

abbrev pub mask_bytes : Bool → List ℕ → List ℕ
mask_bytes masked mask = if masked then mask else []

unfoldable pub masked_bytes : Bool → List ℕ → List ℕ → List ℕ
unfolding apply_mask
masked_bytes masked mask xs = if masked then apply_mask 0 mask xs else xs

abbrev pub data_head : Bool → ℕ → Bool → ℕ → WsFrameHead
data_head fin opcode masked size = record {
  opcode = opcode;
  rsv = 0;
  fin = fin;
  payload = payload_of size;
  mask = masked;
}

-- A frame with data: the head, the length, the mask and the masked data.
unfoldable pub frame_bytes : Bool → ℕ → Bool → List ℕ → List ℕ → List ℕ
unfolding masked_bytes
frame_bytes fin opcode masked mask xs =
    head_bytes (data_head fin opcode masked (length xs))
    ++ (length_bytes (length xs) ++ (mask_bytes masked mask ++ masked_bytes masked mask xs))

pub payload_of-lt : (size : ℕ) → payload_of size < 128
payload_of-lt size = ground arith

pub data_head-FitsBits :
    (fin : Bool) (opcode : ℕ) (masked : Bool) (size : ℕ)
    → opcode < 16
    → FitsBits (data_head fin opcode masked size)
data_head-FitsBits fin opcode masked size h = record {
  opcode = h;
  rsv = omega arith;
  payload = payload_of-lt size;
}
