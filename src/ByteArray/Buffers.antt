-- ===== src/ByteArray/Buffers.antt =====
-- The iovec arrays of src/base/bytearray.h, which sockets read into and write from.
pub mod Gather
use agent_link_coro.Prelude.{
  ℕ, zero, suc, ◌+◌, ◌-◌, ◌/◌, ◌%◌, List, [], ◌∷◌, ltb, leb, ◌==◌, if◌then◌else◌, length, drop,
}
use agent_link_coro.Prelude.Words.{sub64}
use agent_link_coro.Outcome.{Outcome, ok, fault, ◌>>=◌}
use agent_link_coro.ByteArray.Chain.{Node}
use agent_link_coro.ByteArray.Store.{ByteArray, get_read_size, add_capacity}

-- struct iovec: iov_base is `offset` bytes into the block of node number `node`.
pub record IoVec : Type 0 where
  pub node : ℕ
  pub offset : ℕ
  pub len : ℕ

-- The loop of the three functions, from node number `at` on.
unfoldable pub gather : List Node → ℕ → ℕ → ℕ → Outcome (List IoVec)
gather [] at npos len = fault
gather (node ∷ rest) at npos zero = ok []
gather (node ∷ rest) at npos (suc left) =
    let ncap = sub64 (length node) npos in
    let more : Outcome (List IoVec) = (do
      iovs ← gather rest (suc at) 0 (suc left - ncap)
      ok (record { node = at; offset = npos; len = ncap } ∷ iovs)) in
    if leb (suc left) ncap
    then ok (record { node = at; offset = npos; len = suc left } ∷ [])
    else more

-- getReadBuffers(buffers, len): the buffers added, and the length returned.
unfoldable pub get_read_buffers : ByteArray → ℕ → Outcome (List IoVec × ℕ)
unfolding gather
get_read_buffers b len = if len == 0 then ok ([], 0) else (do
  let size = if ltb (get_read_size b) len then get_read_size b else len
  iovs ← gather (drop b.cur b.nodes) b.cur (b.position % b.base_size) size
  ok (iovs, size))

-- `while (count > 0) { cur = cur->next; --count; }` from m_root on, and the null test behind it.
unfoldable pub gather_from : List Node → ℕ → ℕ → ℕ → ℕ → Outcome (List IoVec × ℕ)
unfolding gather
gather_from [] zero at npos size = ok ([], 0)
gather_from [] (suc count) at npos size = fault
gather_from (node ∷ rest) zero at npos size = do
  iovs ← gather (node ∷ rest) at npos size
  ok (iovs, size)
gather_from (node ∷ rest) (suc count) at npos size = gather_from rest count (suc at) npos size

-- getReadBuffers(buffers, len, position): `len` is held to what is to be read from m_position on.
unfoldable pub get_read_buffers_at : ByteArray → ℕ → ℕ → Outcome (List IoVec × ℕ)
unfolding gather_from
get_read_buffers_at b len position = if len == 0 then ok ([], 0) else (do
  let size = if ltb (get_read_size b) len then get_read_size b else len
  gather_from b.nodes (position / b.base_size) 0 (position % b.base_size) size)

-- getWriteBuffers: the buffer with the room made, the buffers added, and the length returned.
unfoldable pub get_write_buffers : ByteArray → ℕ → Outcome (ByteArray × List IoVec × ℕ)
unfolding gather
get_write_buffers b0 len = if len == 0 then ok (b0, [], 0) else (do
  b ← add_capacity b0 len
  iovs ← gather (drop b.cur b.nodes) b.cur (b.position % b.base_size) len
  ok (b, iovs, len))
