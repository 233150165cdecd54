-- ===== src/ByteArray/Fixed.antt =====
-- The fixed-width integers of src/base/bytearray.h and the byte order of src/base/endian.h. An
-- integer of `n` bytes, signed or not, is its bit pattern, a number below 256 ^ n. The host is a
-- little endian machine, so _BYTE_ORDER is _LITTLE_ENDIAN.
pub mod RoundTrip
use agent_link_coro.Prelude.{
  ℕ, zero, suc, ◌+◌, ◌*◌, ◌/◌, ◌%◌, Bool, not, List, [], ◌∷◌, if◌then◌else◌, reverse,
}
use agent_link_coro.Outcome.{Outcome, ok, ◌>>=◌}
use agent_link_coro.ByteArray.Store.{ByteArray, bytes, write, read}

-- The memory of an integer of `n` bytes on a little endian machine.
unfoldable pub memory_of : ℕ → ℕ → List ℕ
memory_of zero v = []
memory_of (suc n) v = v % 256 ∷ memory_of n (v / 256)

unfoldable pub from_memory : List ℕ → ℕ
from_memory [] = 0
from_memory (x ∷ xs) = x + 256 * from_memory xs

-- byteswap: bswap_64, bswap_32 and bswap_16 turn the bytes round.
unfoldable pub byteswap : ℕ → ℕ → ℕ
unfolding memory_of from_memory
byteswap n v = from_memory (reverse (memory_of n v))

-- writeFint8 and writeFuint8
unfoldable pub write_fint8 : ByteArray → ℕ → Outcome ByteArray
unfolding memory_of
write_fint8 b value = write b (bytes (memory_of 1 value))

-- writeFint16 to writeFuint64, for 2, 4 and 8 bytes: `if (m_endian != _BYTE_ORDER) byteswap`.
unfoldable pub write_fixed : ℕ → ByteArray → ℕ → Outcome ByteArray
unfolding byteswap memory_of
write_fixed n b v =
    let value = if not b.little_endian then byteswap n v else v in
    write b (bytes (memory_of n value))

-- readFint8 and readFuint8
unfoldable pub read_fuint8 : ByteArray → Outcome (ℕ × ByteArray)
unfolding from_memory
read_fuint8 b0 = do (raw, b) ← read b0 1; ok (from_memory raw, b)

-- readFint16 to readFuint64
unfoldable pub read_fixed : ℕ → ByteArray → Outcome (ℕ × ByteArray)
unfolding byteswap from_memory
read_fixed n b0 = do
  (raw, b) ← read b0 n
  let v = from_memory raw
  ok ((if b.little_endian then v else byteswap n v), b)
