-- ===== src/ByteArray/Varint.antt =====
-- The variable-length integers of src/base/bytearray.h and the zigzag code under the signed ones.
-- An int32_t or int64_t is its two's complement bit pattern.
pub mod Groups
pub mod RoundTrip
pub mod Zigzag
use Prim.Native.Nat.{bit_and, bit_or, bit_xor}
use agent_link_coro.Prelude.{
  ℕ, zero, suc, ◌+◌, ◌-◌, ◌*◌, ◌/◌, ◌%◌, ◌^◌, List, [], ◌∷◌, ltb, leb, if◌then◌else◌,
}
use agent_link_coro.Outcome.{Outcome, ok, fault, ◌>>=◌}
use agent_link_coro.ByteArray.Store.{ByteArray, bytes, write}
use agent_link_coro.ByteArray.Fixed.{read_fuint8}

-- The loop of writeUint32 and writeUint64: what goes into `tmp`, of which `slots` elements are
-- left. To store behind its end is a fault.
unfoldable pub tmp_bytes : ℕ → ℕ → Outcome (List ℕ)
tmp_bytes zero value = fault
tmp_bytes (suc slots) value =
    let more : Outcome (List ℕ) = (do
      rest ← tmp_bytes slots (value / 128)
      ok (bit_or (bit_and value 0x7f) 0x80 ∷ rest)) in
    if leb 0x80 value then more else ok (value % 256 ∷ [])

-- writeUint32
unfoldable pub write_uint32 : ByteArray → ℕ → Outcome ByteArray
unfolding tmp_bytes
write_uint32 b value = do tmp ← tmp_bytes 5 value; write b (bytes tmp)

-- writeUint64
unfoldable pub write_uint64 : ByteArray → ℕ → Outcome ByteArray
unfolding tmp_bytes
write_uint64 b value = do tmp ← tmp_bytes 10 value; write b (bytes tmp)

-- The loops of readUint32 and readUint64 at width `w`, with so many rounds left: `i` goes up by 7
-- from 0 while it is below `w`, which is 5 rounds at 32 bits and 10 at 64.
unfoldable pub read_groups : ℕ → ℕ → ℕ → ℕ → ByteArray → Outcome (ℕ × ByteArray)
unfolding read_fuint8
read_groups w zero i result b = ok (result, b)
read_groups w (suc rounds) i result b0 = do
  (byte, b) ← read_fuint8 b0
  let more = read_groups w rounds (i + 7) (bit_or result (bit_and byte 0x7f * 2 ^ i % 2 ^ w)) b
  if ltb byte 0x80 then ok (bit_or result (byte * 2 ^ i % 2 ^ w), b) else more

-- readUint32
unfoldable pub read_uint32 : ByteArray → Outcome (ℕ × ByteArray)
unfolding read_groups
read_uint32 b = read_groups 32 5 0 0 b

-- readUint64
unfoldable pub read_uint64 : ByteArray → Outcome (ℕ × ByteArray)
unfolding read_groups
read_uint64 b = read_groups 64 10 0 0 b

-- EncodeZigzag32 at w = 32 and EncodeZigzag64 at w = 64. `-v` of the least integer overflows, which
-- is undefined in C++; here it wraps round to itself.
unfoldable pub encode_zigzag : ℕ → ℕ → ℕ
encode_zigzag w v =
    if ltb v (2 ^ (w - 1)) then v * 2 % 2 ^ w else ((2 ^ w - v) * 2 + 2 ^ w - 1) % 2 ^ w

-- DecodeZigzag32 and DecodeZigzag64: `(v >> 1) ^ -(v & 1)`, where `-` wraps at the width.
unfoldable pub decode_zigzag : ℕ → ℕ → ℕ
decode_zigzag w v = bit_xor (v / 2) ((2 ^ w - bit_and v 1) % 2 ^ w)

-- writeInt32, writeInt64, readInt32 and readInt64
unfoldable pub write_int32 : ByteArray → ℕ → Outcome ByteArray
unfolding encode_zigzag write_uint32
write_int32 b value = write_uint32 b (encode_zigzag 32 value)

unfoldable pub write_int64 : ByteArray → ℕ → Outcome ByteArray
unfolding encode_zigzag write_uint64
write_int64 b value = write_uint64 b (encode_zigzag 64 value)

unfoldable pub read_int32 : ByteArray → Outcome (ℕ × ByteArray)
unfolding decode_zigzag read_uint32
read_int32 b0 = do (v, b) ← read_uint32 b0; ok (decode_zigzag 32 v, b)

unfoldable pub read_int64 : ByteArray → Outcome (ℕ × ByteArray)
unfolding decode_zigzag read_uint64
read_int64 b0 = do (v, b) ← read_uint64 b0; ok (decode_zigzag 64 v, b)
