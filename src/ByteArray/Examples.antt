-- ===== src/ByteArray/Examples.antt =====
-- Runs of the buffer of src/base/bytearray.h on a chain of two small blocks.
use agent_link_coro.Prelude.{◌≡◌, refl, true, false, List, [], ◌∷◌, arith, min}
use agent_link_coro.Outcome.{ok, fault}
use agent_link_coro.ByteArray.Store.{ByteArray, bytes, write, read, read_at}
use agent_link_coro.ByteArray.Store.Invariant.{IsValid}
use agent_link_coro.ByteArray.Store.View.{
  Implements, flat, flat_write, flat_read, write_refines, read_refines, read_at_wrong_block,
}
use agent_link_coro.ByteArray.Sequence.{RoundTrips}
use agent_link_coro.ByteArray.Fixed.{write_fixed, read_fixed, memory_of}
use agent_link_coro.ByteArray.Fixed.RoundTrip.{fixed_round_trip}
use agent_link_coro.ByteArray.Varint.{write_uint64, read_uint64}
use agent_link_coro.ByteArray.Varint.RoundTrip.{uint64_round_trip}
use agent_link_coro.ByteArray.Text.{read_string_fixed, write_string_vint, read_string_vint}
use agent_link_coro.ByteArray.Text.RoundTrip.{string_vint_round_trip, empty_string_faults}
use agent_link_coro.ByteArray.Buffers.{IoVec, get_read_buffers}
use agent_link_coro.ByteArray.Buffers.Gather.{iov_bytes, get_read_buffers_lem}

-- Two blocks of four bytes, six of them data, two of these read.
abbrev half_read : ByteArray
half_read = record {
  base_size = 4;
  position = 2;
  capacity = 8;
  size = 6;
  little_endian = false;
  owner = true;
  nodes = (1 ∷ 2 ∷ 3 ∷ 4 ∷ []) ∷ (5 ∷ 6 ∷ 0 ∷ 0 ∷ []) ∷ [];
  cur = 0;
  fill = 0;
}

-- A full block that ends in the length field of an empty string.
abbrev full_block : ByteArray
full_block = record {
  base_size = 4;
  position = 2;
  capacity = 4;
  size = 4;
  little_endian = false;
  owner = true;
  nodes = (9 ∷ 9 ∷ 0 ∷ 0 ∷ []) ∷ [];
  cur = 0;
  fill = 0;
}

half_read-IsValid : IsValid half_read
half_read-IsValid = omega arith

full_block-IsValid : IsValid full_block
full_block-IsValid = omega arith

write_refines_example :
    (b' : ByteArray) × (write half_read (bytes (7 ∷ 8 ∷ 9 ∷ [])) ≡ ok b')
    × IsValid b'
    × (flat b' ≡ flat_write (flat half_read) (7 ∷ 8 ∷ 9 ∷ []))
write_refines_example = write_refines half_read (7 ∷ 8 ∷ 9 ∷ []) half_read-IsValid (omega arith)

read_refines_example : Implements (read half_read 3) (flat_read (flat half_read) 3)
read_refines_example = read_refines half_read 3 half_read-IsValid (omega arith)

read_at_wrong_block_example : read_at (record half_read { position = 0 }) 1 4 ≡ ok (1 ∷ [])
read_at_wrong_block_example =
    read_at_wrong_block (record half_read { position = 0 }) 1 4 at_start (omega arith) refl
      (omega arith) (omega arith)
  where
    at_start : IsValid (record half_read { position = 0 })
    at_start = omega arith

fixed_round_trip_example :
    RoundTrips half_read (write_fixed 4 half_read 0xdead_beef) (read_fixed 4) 0xdead_beef
fixed_round_trip_example =
    fixed_round_trip 4 half_read 0xdead_beef half_read-IsValid (omega arith) (omega arith)
      (omega arith)

uint64_round_trip_example :
    RoundTrips half_read
      (write_uint64 half_read 0xffff_ffff_ffff_ffff)
      read_uint64
      0xffff_ffff_ffff_ffff
uint64_round_trip_example =
    uint64_round_trip half_read 0xffff_ffff_ffff_ffff half_read-IsValid (omega arith) (omega arith)

-- The pattern of -5.

string_vint_round_trip_example :
    RoundTrips half_read
      (write_string_vint half_read (104 ∷ 105 ∷ []))
      read_string_vint
      (104 ∷ 105 ∷ [])
string_vint_round_trip_example =
    string_vint_round_trip half_read (104 ∷ 105 ∷ []) half_read-IsValid (omega arith) (omega arith)
      (omega arith)

empty_string_faults_example : read_string_fixed 2 full_block ≡ fault
unfolding memory_of
empty_string_faults_example =
    empty_string_faults 2 full_block full_block-IsValid (omega arith) refl refl

get_read_buffers_lem_example :
    (iovs : List IoVec) × (get_read_buffers half_read 3 ≡ ok (iovs, min 3 4))
    × (iov_bytes half_read.nodes iovs ≡ 3 ∷ 4 ∷ 5 ∷ [])
get_read_buffers_lem_example = get_read_buffers_lem half_read 3 half_read-IsValid (omega arith)
