-- ===== src/ByteArray/Store/Grow.antt =====
-- addCapacity of src/base/bytearray.h makes the room that it is asked for and keeps the data.
use agent_link_coro.Prelude.{
  ℕ, zero, suc, ◌+◌, ◌-◌, ◌*◌, ◌/◌, ◌^◌, ◌≤◌, ◌<◌, ◌≡◌, refl, sym, ap, ◌∙◌, List, [], ◌∷◌, ◌++◌,
  append_assoc, append-nil, arith, length, take, replicate, inl, inr, leb, ◌==◌, Bool-cases, false,
  length-append, length-replicate, take-append_le, le→ltb, leb→le, leb→lt, ==_iff, ne→==, subst,
}
use agent_link_coro.Prelude.Words.{IsU64, sub64, sub64_no_wrap}
use agent_link_coro.Prelude.Blocks.{round_up, block_eq}
use agent_link_coro.Outcome.{Outcome, ok}
use agent_link_coro.ByteArray.Chain.{Node, new_node, bytes_of}
use agent_link_coro.ByteArray.Chain.Copies.{Sized, length-bytes_of}
use agent_link_coro.ByteArray.Store.{ByteArray, add_nodes, add_capacity, get_capacity, size_max}
use agent_link_coro.ByteArray.Store.Invariant.{IsValid, data_of, get_capacity_lem}

abbrev fresh_nodes : ℕ → ByteArray → List Node
fresh_nodes count b = replicate count (new_node b.fill b.base_size)

abbrev grown_by : ℕ → ByteArray → ByteArray
grown_by count b = record b {
  nodes = b.nodes ++ fresh_nodes count b;
  capacity = b.capacity + count * b.base_size;
}

add_nodes-grown_by :
    (count : ℕ) (b : ByteArray)
    → IsU64 (b.capacity + count * b.base_size)
    → add_nodes count b ≡ ok (grown_by count b)
unfolding add_nodes
add_nodes-grown_by zero b fits = ground (arith, append-nil b.nodes)
add_nodes-grown_by (suc count) b fits =
    let b' : ByteArray = record b {
      nodes = b.nodes ++ (new_node b.fill b.base_size ∷ []);
      capacity = b.capacity + b.base_size;
    } in
    rw
      (le→ltb (sub64 size_max b.base_size) b.capacity
        (omega (arith, sub64_no_wrap size_max b.base_size)))
      (add_nodes-grown_by count b' (omega arith)
        ∙ ground
            (arith, append_assoc b.nodes (new_node b.fill b.base_size ∷ []) (fresh_nodes count b)))

-- The addresses that a write of `n` bytes can need stay inside size_t.
abbrev pub HasRoom : ByteArray → ℕ → Type 0
HasRoom b n = b.position + 2 * n + b.base_size ≤ 2 ^ 64

-- The two buffers hold the same data at the same position; only the chain may be longer.
pub record SameData (b b' : ByteArray) : Type 0 where
  pub position_is : b'.position ≡ b.position
  pub size_is : b'.size ≡ b.size
  pub base_is : b'.base_size ≡ b.base_size
  pub endian_is : b'.little_endian ≡ b.little_endian
  pub data_is : data_of b' ≡ data_of b

-- What addCapacity promises.
pub record Grown (b : ByteArray) (n : ℕ) (result : Outcome ByteArray) : Type 0 where
  pub b' : ByteArray
  pub succeeds : result ≡ ok b'
  pub valid : IsValid b'
  pub same : SameData b b'
  pub holds : b.position + n ≤ b'.capacity

pub bytes_of-append : (xs ys : List Node) → bytes_of (xs ++ ys) ≡ bytes_of xs ++ bytes_of ys
bytes_of-append [] ys = refl
bytes_of-append (x ∷ xs) ys =
    ap (◌++◌ x) (bytes_of-append xs ys) ∙ sym (append_assoc x (bytes_of xs) (bytes_of ys))

pub Sized-append :
    (base : ℕ) (xs ys : List Node) → Sized base xs → Sized base ys → Sized base (xs ++ ys)
Sized-append base [] ys hx hy = hy
Sized-append base (x ∷ xs) ys (h, hx) hy = (h, Sized-append base xs ys hx hy)

fresh_nodes-Sized : (count : ℕ) (b : ByteArray) → Sized b.base_size (fresh_nodes count b)
fresh_nodes-Sized zero b = tt
fresh_nodes-Sized (suc count) b = (length-replicate b.base_size b.fill, fresh_nodes-Sized count b)

grown_by-IsValid :
    (count : ℕ) (b : ByteArray)
    → IsU64 (b.capacity + count * b.base_size)
    → IsValid b
    → IsValid (grown_by count b)
grown_by-IsValid count b fits v = record {
  base_pos = v.base_pos;
  base_fits = v.base_fits;
  sized =
      Sized-append b.base_size b.nodes (fresh_nodes count b) v.sized (fresh_nodes-Sized count b);
  some_node = omega (arith, length-append b.nodes (fresh_nodes count b), v.some_node);
  capacity_is =
      rw
        (
          length-append b.nodes (fresh_nodes count b),
          length-replicate count (new_node b.fill b.base_size),
        )
        (omega (arith, v.capacity_is));
  capacity_fits = fits;
  at_node = v.at_node;
  in_node = v.in_node;
  position_le = v.position_le;
  size_le = omega (arith, v.size_le);
}

grown_by-SameData : (count : ℕ) (b : ByteArray) → IsValid b → SameData b (grown_by count b)
grown_by-SameData count b v = record {
  position_is = refl;
  size_is = refl;
  base_is = refl;
  endian_is = refl;
  data_is =
      ap (take b.size) (bytes_of-append b.nodes (fresh_nodes count b))
      ∙ take-append_le b.size (bytes_of b.nodes) (bytes_of (fresh_nodes count b))
          (omega (arith, length-bytes_of b.base_size b.nodes v.sized, v.capacity_is, v.size_le));
}

-- m_cur is set to the first new node where it was the null pointer, and that is where it pointed.
cur_at_end : (b : ByteArray) → IsValid b → get_capacity b ≡ 0 → b.cur ≡ length b.nodes
cur_at_end b v full =
    let h : b.capacity - b.position ≡ 0 = sym (get_capacity_lem b v) ∙ full in
    block_eq b.base_size b.cur (length b.nodes) b.position v.at_node v.in_node
      (omega (arith, v.position_le, v.size_le, v.capacity_is))

-- With room for them in size_t, addCapacity links the nodes that `n` more bytes need.
pub add_capacity-Grown :
    (b : ByteArray) (n : ℕ) → IsValid b → 0 < n → HasRoom b n → Grown b n (add_capacity b n)
unfolding add_capacity
add_capacity-Grown b n v pos room =
    let old : get_capacity b ≡ b.capacity - b.position = get_capacity_lem b v in
    let ne : (n == 0) ≡ false = ne→== n 0 (omega arith) in
    elim (Bool-cases (leb n (get_capacity b))) [
      | inl fits ↦
          rw (ne, fits)
            (record {
              b' = b;
              succeeds = refl;
              valid = v;
              same = record {
                position_is = refl;
                size_is = refl;
                base_is = refl;
                endian_is = refl;
                data_is = refl;
              };
              holds = omega (arith, leb→le n (get_capacity b) fits, v.position_le, v.size_le);
            })
      | inr short ↦
          let lack : get_capacity b < n = leb→lt n (get_capacity b) short in
          let need = sub64 n (get_capacity b) in
          let need_is : need ≡ n - get_capacity b =
            sub64_no_wrap n (get_capacity b) (omega arith) (omega arith) in
          let count = (need + b.base_size - 1) / b.base_size in
          let (enough, close) = round_up need b.base_size v.base_pos (omega arith) in
          let fits : IsU64 (b.capacity + count * b.base_size) =
            omega (arith, v.base_fits, v.position_le, v.size_le) in
          let grown : Grown b n (ok (grown_by count b)) = record {
            b' = grown_by count b;
            succeeds = refl;
            valid = grown_by-IsValid count b fits v;
            same = grown_by-SameData count b v;
            holds = omega (arith, v.position_le, v.size_le);
          } in
          let cap_max : sub64 size_max (get_capacity b) ≡ size_max - get_capacity b =
            sub64_no_wrap size_max (get_capacity b) (omega (arith, v.capacity_fits))
              (omega arith) in
          rw
            (
              ne,
              short,
              le→ltb (sub64 size_max (get_capacity b)) n (omega (arith, cap_max)),
              add_nodes-grown_by count b fits,
            )
            (elim (Bool-cases (get_capacity b == 0)) [
              | inl full ↦ rw full (
                  subst (λ c. Grown b n (ok (record (grown_by count b) { cur = c })))
                    (cur_at_end b v ((==_iff (get_capacity b) 0).0 full)) grown)
              | inr some ↦ rw some grown
            ])
    ]
