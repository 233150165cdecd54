-- ===== src/ByteArray/Store/Invariant.antt =====
-- When a byte buffer of src/base/bytearray.h is well formed, and what it holds: the data
-- [0, m_size) and the part of it that is still to be read, [m_position, m_size).
use agent_link_coro.Prelude.{
  ℕ, ◌+◌, ◌-◌, ◌*◌, ◌%◌, ◌≤◌, ◌<◌, ◌≡◌, refl, Bool, List, arith, length, take, drop, length-take,
  length-drop, length-replicate,
}
use agent_link_coro.Prelude.Words.{IsU64, sub64_no_wrap}
use agent_link_coro.Prelude.Blocks.{mod_of_block, block_le}
use agent_link_coro.ByteArray.Chain.{bytes_of}
use agent_link_coro.ByteArray.Chain.Copies.{Sized, length-bytes_of}
use agent_link_coro.ByteArray.Store.{
  ByteArray, new_byte_array, wrap_memory, get_read_size, get_capacity, set_is_little_endian,
}

pub record IsValid (b : ByteArray) : Type 0 where
  pub base_pos : 0 < b.base_size
  pub base_fits : IsU64 b.base_size
  pub sized : Sized b.base_size b.nodes
  pub some_node : 0 < length b.nodes
  pub capacity_is : b.capacity ≡ length b.nodes * b.base_size
  pub capacity_fits : IsU64 b.capacity
  pub at_node : b.cur * b.base_size ≤ b.position
  pub in_node : b.position < b.cur * b.base_size + b.base_size
  pub position_le : b.position ≤ b.size
  pub size_le : b.size ≤ b.capacity

abbrev pub data_of : ByteArray → List ℕ
data_of b = take b.size (bytes_of b.nodes)

abbrev pub readable : ByteArray → List ℕ
readable b = drop b.position (data_of b)

pub length-data_of : (b : ByteArray) → IsValid b → length (data_of b) ≡ b.size
length-data_of b v = omega (
  arith,
  length-take b.size (bytes_of b.nodes),
  length-bytes_of b.base_size b.nodes v.sized,
  v.capacity_is,
  v.size_le,
)

pub length-readable : (b : ByteArray) → IsValid b → length (readable b) ≡ b.size - b.position
length-readable b v = omega (arith, length-drop b.position (data_of b), length-data_of b v)

pub get_read_size-length : (b : ByteArray) → IsValid b → get_read_size b ≡ length (readable b)
get_read_size-length b v = omega (
  arith,
  length-readable b v,
  sub64_no_wrap b.size b.position,
  v.size_le,
  v.capacity_fits,
  v.position_le,
)

pub get_capacity_lem : (b : ByteArray) → IsValid b → get_capacity b ≡ b.capacity - b.position
get_capacity_lem b v =
    omega (arith, sub64_no_wrap b.capacity b.position, v.size_le, v.capacity_fits, v.position_le)

pub cur-le : (b : ByteArray) → IsValid b → b.cur ≤ length b.nodes
cur-le b v =
    block_le b.base_size b.cur (length b.nodes) b.position v.at_node
      (omega (arith, v.position_le, v.size_le, v.capacity_is)) v.base_pos

pub npos_lem :
    (b : ByteArray) → IsValid b → b.position % b.base_size ≡ b.position - b.cur * b.base_size
npos_lem b v = mod_of_block b.base_size b.cur b.position v.at_node v.in_node

-- A buffer is well formed when it is made, and setIsLittleEndian keeps it so.
pub new_byte_array-IsValid :
    (fill base : ℕ) → 0 < base → IsU64 base → IsValid (new_byte_array fill base)
unfolding new_byte_array
new_byte_array-IsValid fill base pos fits = record {
  base_pos = pos;
  base_fits = fits;
  sized = (length-replicate base fill, tt);
  some_node = omega arith;
  capacity_is = omega arith;
  capacity_fits = fits;
  at_node = omega arith;
  in_node = omega arith;
  position_le = omega arith;
  size_le = omega arith;
}

pub wrap_memory-IsValid :
    (fill : ℕ) (memory : List ℕ) (owner : Bool)
    → 0 < length memory
    → IsU64 (length memory)
    → IsValid (wrap_memory fill memory owner)
unfolding wrap_memory
wrap_memory-IsValid fill memory owner pos fits = record {
  base_pos = pos;
  base_fits = fits;
  sized = (refl, tt);
  some_node = omega arith;
  capacity_is = omega arith;
  capacity_fits = fits;
  at_node = omega arith;
  in_node = omega arith;
  position_le = omega arith;
  size_le = omega arith;
}

pub set_is_little_endian-IsValid :
    (b : ByteArray) (val : Bool) → IsValid b → IsValid (set_is_little_endian b val)
unfolding set_is_little_endian
set_is_little_endian-IsValid b val v = record {
  base_pos = v.base_pos;
  base_fits = v.base_fits;
  sized = v.sized;
  some_node = v.some_node;
  capacity_is = v.capacity_is;
  capacity_fits = v.capacity_fits;
  at_node = v.at_node;
  in_node = v.in_node;
  position_le = v.position_le;
  size_le = v.size_le;
}
