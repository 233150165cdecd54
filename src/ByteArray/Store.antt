-- ===== src/ByteArray/Store.antt =====
-- class ByteArray of src/base/bytearray.h: its members, and every operation that moves bytes or
-- the position. The codecs on top of `write` and `read` stand in the sibling modules.
pub mod Invariant
pub mod Grow
pub mod Cursor
pub mod Write
pub mod Read
pub mod View
use agent_link_coro.Prelude.{
  ℕ, zero, suc, ◌+◌, ◌-◌, ◌/◌, ◌%◌, ◌^◌, Bool, true, false, List, [], ◌∷◌, ◌++◌, ltb, leb, ◌==◌,
  if◌then◌else◌, length, take, drop,
}
use agent_link_coro.Prelude.Words.{sub64, add64}
use agent_link_coro.Outcome.{
  Outcome, ok, throw, fault, ◌>>=◌, out_of_range, invalid_argument, overflow_error,
}
use agent_link_coro.ByteArray.Chain.{Node, new_node, write_loop, read_loop, seek}

-- m_root is `nodes`; m_cur is the number of its node in the chain, and is the null pointer where
-- that is the length of the chain. `little_endian` is m_endian == _LITTLE_ENDIAN. `fill` is what
-- uninitialised bytes read as.
pub record ByteArray : Type 0 where
  pub base_size : ℕ
  pub position : ℕ
  pub capacity : ℕ
  pub size : ℕ
  pub little_endian : Bool
  pub owner : Bool
  pub nodes : List Node
  pub cur : ℕ
  pub fill : ℕ

-- A `const void *` of so many bytes: the null pointer, or memory that holds them.
pub data Buffer : Type 0 where
  null : ℕ → Buffer
  bytes : List ℕ → Buffer

abbrev pub size_max : ℕ
size_max = 2 ^ 64 - 1

-- ByteArray(size_t base_size)
unfoldable pub new_byte_array : ℕ → ℕ → ByteArray
new_byte_array fill base_size = record {
  base_size = base_size;
  position = 0;
  capacity = base_size;
  size = 0;
  little_endian = false;
  owner = true;
  nodes = new_node fill base_size ∷ [];
  cur = 0;
  fill = fill;
}

-- ByteArray(void *data, size_t size, bool owner)
unfoldable pub wrap_memory : ℕ → List ℕ → Bool → ByteArray
wrap_memory fill memory owner = record {
  base_size = length memory;
  position = 0;
  capacity = length memory;
  size = length memory;
  little_endian = false;
  owner = owner;
  nodes = memory ∷ [];
  cur = 0;
  fill = fill;
}

-- getReadSize and getCapacity
abbrev pub get_read_size : ByteArray → ℕ
get_read_size b = sub64 b.size b.position

abbrev pub get_capacity : ByteArray → ℕ
get_capacity b = sub64 b.capacity b.position

-- setIsLittleEndian
unfoldable pub set_is_little_endian : ByteArray → Bool → ByteArray
set_is_little_endian b val = record b { little_endian = val }

-- The loop of addCapacity that links `count` new nodes behind the last one.
unfoldable pub add_nodes : ℕ → ByteArray → Outcome ByteArray
add_nodes zero b = ok b
add_nodes (suc count) b =
    let linked = b.nodes ++ (new_node b.fill b.base_size ∷ []) in
    let rest = add_nodes count (record b { nodes = linked; capacity = b.capacity + b.base_size }) in
    if ltb (sub64 size_max b.base_size) b.capacity then throw overflow_error else rest

-- addCapacity. The quotient is rounded up: `ceil(1.0 * size / m_baseSize)` is exact on doubles for
-- sizes below 2 ^ 53.
unfoldable pub add_capacity : ByteArray → ℕ → Outcome ByteArray
unfolding add_nodes
add_capacity b size =
    let old_cap = get_capacity b in
    let need = sub64 size old_cap in
    let count = (need + b.base_size - 1) / b.base_size in
    if size == 0
    then ok b
    else if leb size old_cap
    then ok b
    else if ltb (sub64 size_max old_cap) size
    then throw overflow_error
    else (do
      grown ← add_nodes count b
      ok (if old_cap == 0 then record grown { cur = length b.nodes } else grown))

-- What `write` does with memory that is there and not empty.
unfoldable pub write_bytes : ByteArray → List ℕ → Outcome ByteArray
write_bytes b0 buf = do
  b ← add_capacity b0 (length buf)
  (chain, moved) ← write_loop (drop b.cur b.nodes) (b.position % b.base_size) buf
  let position = add64 b.position (length buf)
  ok (record b {
    nodes = take b.cur b.nodes ++ chain;
    cur = b.cur + moved;
    position = position;
    size = if ltb b.size position then position else b.size;
  })

-- write(const void *buf, size_t size)
unfoldable pub write : ByteArray → Buffer → Outcome ByteArray
unfolding write_bytes
write b (null size) = if size == 0 then ok b else throw invalid_argument
write b (bytes []) = ok b
write b (bytes (x ∷ xs)) = write_bytes b (x ∷ xs)

-- read(void *buf, size_t size)
unfoldable pub read : ByteArray → ℕ → Outcome (List ℕ × ByteArray)
read b size = if ltb (get_read_size b) size then throw out_of_range else (do
  (out, moved) ← read_loop (drop b.cur b.nodes) (b.position % b.base_size) size
  ok (out, record b { position = add64 b.position size; cur = b.cur + moved }))

-- read(void *buf, size_t size, size_t position) const: it starts at m_cur, whatever `position` is.
unfoldable pub read_at : ByteArray → ℕ → ℕ → Outcome (List ℕ)
read_at b size position =
    if ltb (sub64 b.size position) size
    then throw out_of_range
    else (do (out, moved) ← read_loop (drop b.cur b.nodes) (position % b.base_size) size; ok out)

-- setPosition
unfoldable pub set_position : ByteArray → ℕ → Outcome ByteArray
set_position b v = if ltb b.capacity v then throw out_of_range else (do
  cur ← seek b.nodes v
  ok (record b { position = v; size = if ltb b.size v then v else b.size; cur = cur }))

-- clear: every node behind the root is deleted. A moved-from buffer has no root.
unfoldable pub keep_root : ByteArray → List Node → Outcome ByteArray
keep_root b [] = fault
keep_root b (root ∷ rest) =
    ok (record b { position = 0; size = 0; capacity = b.base_size; nodes = root ∷ []; cur = 0 })

unfoldable pub clear : ByteArray → Outcome ByteArray
unfolding keep_root
clear b = keep_root b b.nodes

-- toString
unfoldable pub to_string : ByteArray → Outcome (List ℕ)
unfolding read_at
to_string b = if get_read_size b == 0 then ok [] else read_at b (get_read_size b) b.position
