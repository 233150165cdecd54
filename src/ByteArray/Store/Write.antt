-- ===== src/ByteArray/Store/Write.antt =====
-- `write` of src/base/bytearray.h on a well formed buffer.
use agent_link_coro.Prelude.{
  ℕ, ◌+◌, ◌*◌, ◌%◌, ◌≤◌, ◌<◌, ◌≡◌, refl, sym, ap, ◌∙◌, List, ◌++◌, arith, length, take, drop, ltb,
  if◌then◌else◌, max, length-append, length-take, length-drop,
}
use agent_link_coro.Prelude.Words.{add64, add64_no_wrap}
use agent_link_coro.Outcome.{Outcome, ok}
use agent_link_coro.ByteArray.Chain.{Node, bytes_of, splice, write_loop}
use agent_link_coro.ByteArray.Chain.Copies.{
  length-bytes_of, splice-append_right, Written, write_loop-Written,
}
use agent_link_coro.ByteArray.Store.{ByteArray, write_bytes}
use agent_link_coro.ByteArray.Store.Invariant.{IsValid, data_of, cur-le}
use agent_link_coro.ByteArray.Store.Grow.{
  HasRoom, add_capacity-Grown, bytes_of-append, Sized-append,
}
use agent_link_coro.ByteArray.Store.Cursor.{
  Sized-take, take-splice, chain-Sized, chain_room, npos-lt, npos-add, chain_before, bytes_of-nodes,
}

-- What `write` promises: `xs` stands at the old position, all other data is kept, the position is
-- behind `xs`, and the data grows where `xs` goes past its end.
pub record Wrote (b : ByteArray) (xs : List ℕ) (result : Outcome ByteArray) : Type 0 where
  pub b' : ByteArray
  pub succeeds : result ≡ ok b'
  pub valid : IsValid b'
  pub position_is : b'.position ≡ b.position + length xs
  pub base_is : b'.base_size ≡ b.base_size
  pub endian_is : b'.little_endian ≡ b.little_endian
  pub data_is : data_of b' ≡ splice b.position xs (data_of b)

-- The copy itself, into a buffer that is long enough.
abbrev stored : ByteArray → List ℕ → List Node → ℕ → ByteArray
stored b buf chain moved =
    let position = add64 b.position (length buf) in
    record b {
      nodes = take b.cur b.nodes ++ chain;
      cur = b.cur + moved;
      position = position;
      size = if ltb b.size position then position else b.size;
    }

module _ (b : ByteArray) (v : IsValid b) (xs : List ℕ) (fits : b.position + length xs ≤ b.capacity)
    (w : Written b.base_size
      (drop b.cur b.nodes)
      (b.position % b.base_size)
      xs
      (write_loop (drop b.cur b.nodes) (b.position % b.base_size) xs)) where
  abbrev after : ByteArray
  after = stored b xs w.chain' w.moved

  after-position : after.position ≡ b.position + length xs
  after-position = add64_no_wrap b.position (length xs) (omega (arith, v.capacity_fits))

  after-size : after.size ≡ max b.size (b.position + length xs)
  after-size = ground (arith, after-position)

  after-length : length after.nodes ≡ length b.nodes
  after-length = omega (
    arith,
    length-append (take b.cur b.nodes) w.chain',
    w.as_long,
    length-take b.cur b.nodes,
    length-drop b.cur b.nodes,
    cur-le b v,
  )

  after-bytes : bytes_of after.nodes ≡ splice b.position xs (bytes_of b.nodes)
  after-bytes =
      bytes_of-append (take b.cur b.nodes) w.chain'
      ∙ ap (◌++◌ (bytes_of (take b.cur b.nodes))) w.content
      ∙ sym (
          splice-append_right b.position (b.position % b.base_size) xs
            (bytes_of (take b.cur b.nodes)) (bytes_of (drop b.cur b.nodes))
            (omega (arith, npos-add b v, chain_before b v)))
      ∙ ap (splice b.position xs) (bytes_of-nodes b v)

  after-IsValid : IsValid after
  after-IsValid = record {
    base_pos = v.base_pos;
    base_fits = v.base_fits;
    sized =
        Sized-append b.base_size (take b.cur b.nodes) w.chain'
          (Sized-take b.base_size b.cur b.nodes v.sized) w.sized;
    some_node = omega (arith, after-length, v.some_node);
    capacity_is = v.capacity_is ∙ ap (λ (t : ℕ). t * b.base_size) (sym after-length);
    capacity_fits = v.capacity_fits;
    at_node = omega (arith, after-position, npos-add b v, w.at_node);
    in_node = omega (arith, after-position, npos-add b v, w.in_node);
    position_le = omega (arith, after-position, after-size);
    size_le = omega (arith, after-size, v.size_le);
  }

  after-data : data_of after ≡ splice b.position xs (data_of b)
  after-data =
      let total = length-bytes_of b.base_size b.nodes v.sized in
      ap (take after.size) after-bytes
      ∙ take-splice b.position b.size after.size xs (bytes_of b.nodes) v.position_le
          (omega (arith, v.size_le, v.capacity_is)) (omega (arith, v.capacity_is)) after-size

-- A write with room for its bytes succeeds, overwrites exactly its range and keeps the buffer well
-- formed.
pub write_bytes-Wrote :
    (b : ByteArray) (xs : List ℕ)
    → IsValid b
    → 0 < length xs
    → HasRoom b (length xs)
    → Wrote b xs (write_bytes b xs)
unfolding write_bytes
write_bytes-Wrote b xs v pos room =
    let g = add_capacity-Grown b (length xs) v pos room in
    let b1 = g.b' in
    let w =
      write_loop-Written b1.base_size (drop b1.cur b1.nodes) (b1.position % b1.base_size) xs
        g.valid.base_fits (npos-lt b1 g.valid) pos (chain-Sized b1 g.valid)
        (omega (arith, g.holds, g.same.position_is, npos-add b1 g.valid, chain_room b1 g.valid)) in
    let fits : b1.position + length xs ≤ b1.capacity = omega (arith, g.holds, g.same.position_is) in
    rw (g.succeeds, w.succeeds)
      (record {
        b' = after b1 g.valid xs fits w;
        succeeds = refl;
        valid = after-IsValid b1 g.valid xs fits w;
        position_is =
            after-position b1 g.valid xs fits w ∙ ap (λ (t : ℕ). t + length xs) g.same.position_is;
        base_is = g.same.base_is;
        endian_is = g.same.endian_is;
        data_is =
            after-data b1 g.valid xs fits w
            ∙ ap (λ p. splice p xs (data_of b1)) g.same.position_is
            ∙ ap (splice b.position xs) g.same.data_is;
      })
