-- ===== src/ByteArray/Store/Read.antt =====
-- `read` and `setPosition` of src/base/bytearray.h on a well formed buffer.
use agent_link_coro.Prelude.{
  ℕ, ◌+◌, ◌-◌, ◌%◌, ◌≤◌, ◌<◌, ◌≡◌, refl, sym, ap, ◌∙◌, List, arith, length, take, drop, ltb,
  if◌then◌else◌, max, take-take, drop-take, le→ltb, drop-append_ge,
}
use agent_link_coro.Prelude.Words.{add64, add64_no_wrap}
use agent_link_coro.Outcome.{Outcome, ok}
use agent_link_coro.ByteArray.Chain.{bytes_of}
use agent_link_coro.ByteArray.Chain.Copies.{read_loop-Fetched, seek-Sought, some_node_of_room}
use agent_link_coro.ByteArray.Store.{ByteArray, read, set_position, get_read_size}
use agent_link_coro.ByteArray.Store.Invariant.{
  IsValid, data_of, readable, length-readable, get_read_size-length,
}
use agent_link_coro.ByteArray.Store.Cursor.{
  chain-Sized, chain_room, npos-lt, npos-add, chain_before, bytes_of-nodes,
}

-- What `read` promises: the next `n` bytes to be read, a position that moved by `n`, the same data.
pub record Took (b : ByteArray) (n : ℕ) (result : Outcome (List ℕ × ByteArray)) : Type 0 where
  pub b' : ByteArray
  pub succeeds : result ≡ ok (take n (readable b), b')
  pub valid : IsValid b'
  pub position_is : b'.position ≡ b.position + n
  pub base_is : b'.base_size ≡ b.base_size
  pub endian_is : b'.little_endian ≡ b.little_endian
  pub capacity_is : b'.capacity ≡ b.capacity
  pub data_is : data_of b' ≡ data_of b

module _ (b : ByteArray) (v : IsValid b) where
  -- What is to be read, as it stands in the chain from m_cur on.
  pub readable-chain :
      readable b
      ≡ take (b.size - b.position) (drop (b.position % b.base_size) (bytes_of (drop b.cur b.nodes)))
  readable-chain =
      drop-take b.position b.size (b.size - b.position) (bytes_of b.nodes)
        (omega (arith, v.position_le))
      ∙ ap (λ z. take (b.size - b.position) (drop b.position z)) (sym (bytes_of-nodes b v))
      ∙ ap (take (b.size - b.position)) (
          drop-append_ge b.position (b.position % b.base_size) (bytes_of (take b.cur b.nodes))
            (bytes_of (drop b.cur b.nodes)) (omega (arith, npos-add b v, chain_before b v)))

  pub some_node_left : b.position < b.capacity → 0 < length (drop b.cur b.nodes)
  some_node_left h =
      some_node_of_room b.base_size (drop b.cur b.nodes) (omega (arith, chain_room b v, v.at_node))

-- Away from the end of the last block, a read of what is there succeeds.
pub read-Took :
    (b : ByteArray) (n : ℕ)
    → IsValid b
    → b.position < b.capacity
    → n ≤ length (readable b)
    → Took b n (read b n)
unfolding read
read-Took b n v inside fits =
    let left = length-readable b v in
    let npos = b.position % b.base_size in
    let f =
      read_loop-Fetched b.base_size (drop b.cur b.nodes) npos n v.base_fits (npos-lt b v)
        (some_node_left b v inside) (chain-Sized b v)
        (omega (arith, npos-add b v, chain_room b v, v.size_le, v.position_le)) in
    let end : add64 b.position n ≡ b.position + n =
      add64_no_wrap b.position n (omega (arith, v.size_le, v.position_le, v.capacity_fits)) in
    let same : take n (drop npos (bytes_of (drop b.cur b.nodes))) ≡ take n (readable b) =
      sym (
        take-take n (b.size - b.position) (drop npos (bytes_of (drop b.cur b.nodes))) (omega arith))
      ∙ ap (take n) (sym (readable-chain b v)) in
    let b' : ByteArray = record b { position = add64 b.position n; cur = b.cur + f.moved } in
    rw (le→ltb (get_read_size b) n (omega (arith, get_read_size-length b v)), f.succeeds)
      (record {
        b' = b';
        succeeds = ap (λ z. ok (z, b')) same;
        valid = record {
          base_pos = v.base_pos;
          base_fits = v.base_fits;
          sized = v.sized;
          some_node = v.some_node;
          capacity_is = v.capacity_is;
          capacity_fits = v.capacity_fits;
          at_node = omega (arith, end, f.at_node, npos-add b v);
          in_node = omega (arith, end, f.in_node, npos-add b v);
          position_le = omega (arith, end, v.position_le);
          size_le = v.size_le;
        };
        position_is = end;
        base_is = refl;
        endian_is = refl;
        capacity_is = refl;
        data_is = refl;
      })

-- What `setPosition` promises: the position asked for, and the data kept; it grows where the
-- position goes past its end.
pub record Positioned (b : ByteArray) (v : ℕ) (result : Outcome ByteArray) : Type 0 where
  pub b' : ByteArray
  pub succeeds : result ≡ ok b'
  pub valid : IsValid b'
  pub position_is : b'.position ≡ v
  pub size_is : b'.size ≡ max b.size v
  pub base_is : b'.base_size ≡ b.base_size
  pub endian_is : b'.little_endian ≡ b.little_endian
  pub capacity_is : b'.capacity ≡ b.capacity
  pub data_is : take b.size (data_of b') ≡ data_of b

pub set_position-Positioned :
    (b : ByteArray) (p : ℕ) → IsValid b → p ≤ b.capacity → Positioned b p (set_position b p)
unfolding set_position
set_position-Positioned b p v inside =
    let s =
      seek-Sought b.base_size b.nodes p v.base_pos v.some_node v.sized
        (omega (arith, v.capacity_is)) in
    let b' : ByteArray = record b {
      position = p;
      size = if ltb b.size p then p else b.size;
      cur = s.moved;
    } in
    let size_is : b'.size ≡ max b.size p = ground arith in
    rw (le→ltb b.capacity p inside, s.succeeds)
      (record {
        b' = b';
        succeeds = refl;
        valid = record {
          base_pos = v.base_pos;
          base_fits = v.base_fits;
          sized = v.sized;
          some_node = v.some_node;
          capacity_is = v.capacity_is;
          capacity_fits = v.capacity_fits;
          at_node = s.at_node;
          in_node = s.in_node;
          position_le = omega arith;
          size_le = omega (arith, v.size_le);
        };
        position_is = refl;
        size_is = size_is;
        base_is = refl;
        endian_is = refl;
        capacity_is = refl;
        data_is = take-take b.size b'.size (bytes_of b.nodes) (omega arith);
      })
