-- ===== src/ByteArray/Text.antt =====
-- The strings of src/base/bytearray.h: their bytes behind their length.
pub mod RoundTrip
use agent_link_coro.Prelude.{ℕ, ◌%◌, ◌^◌, List, length}
use agent_link_coro.Outcome.{Outcome, ok, ◌>>=◌}
use agent_link_coro.ByteArray.Store.{ByteArray, bytes, write, read}
use agent_link_coro.ByteArray.Fixed.{write_fixed, read_fixed}
use agent_link_coro.ByteArray.Varint.{write_uint64, read_uint64}

-- writeStringF16, writeStringF32 and writeStringF64 for n = 2, 4 and 8: the length is cut down to
-- the type of its field.
unfoldable pub write_string_fixed : ℕ → ByteArray → List ℕ → Outcome ByteArray
unfolding write_fixed
write_string_fixed n b0 value = do
  b ← write_fixed n b0 (length value % 256 ^ n)
  write b (bytes value)

-- writeStringVint
unfoldable pub write_string_vint : ByteArray → List ℕ → Outcome ByteArray
unfolding write_uint64
write_string_vint b0 value = do b ← write_uint64 b0 (length value); write b (bytes value)

-- writeStringWithoutLength
unfoldable pub write_string_without_length : ByteArray → List ℕ → Outcome ByteArray
write_string_without_length b value = write b (bytes value)

-- readStringF16, readStringF32 and readStringF64
unfoldable pub read_string_fixed : ℕ → ByteArray → Outcome (List ℕ × ByteArray)
unfolding read_fixed
read_string_fixed n b0 = do (len, b) ← read_fixed n b0; read b len

-- readStringVint
unfoldable pub read_string_vint : ByteArray → Outcome (List ℕ × ByteArray)
unfolding read_uint64
read_string_vint b0 = do (len, b) ← read_uint64 b0; read b len
