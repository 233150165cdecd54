-- ===== src/ByteArray/Store/View.antt =====
-- ByteArray of src/base/bytearray.h as what it promises: a sequence of bytes with a position in it.
use agent_link_coro.Prelude.{
  ℕ, ◌+◌, ◌-◌, ◌%◌, ◌≤◌, ◌<◌, ◌≡◌, refl, sym, ap, ◌∙◌, ◌≢◌, List, [], ◌∷◌, Option, none, some,
  arith, length, take, drop, inl, inr, leb, ◌==◌, if◌then◌else◌, Bool-cases, take-take,
  take-append-drop, take_all, ==_iff, drop_all, le→ltb, lt→ltb, leb→le, leb→lt,
}
use native.Mathlib.Nat.{add-zero}
use agent_link_coro.Prelude.Words.{sub64, sub64_no_wrap}
use agent_link_coro.Prelude.Blocks.{block_eq}
use mathlib.Core.Bool.{false≢true}
use agent_link_coro.Outcome.{
  Outcome, ok, throw, fault, out_of_range, invalid_argument, overflow_error,
}
use agent_link_coro.ByteArray.Chain.{Node, splice, read_loop, bytes_of}
use agent_link_coro.ByteArray.Chain.Copies.{Sized, read_loop-Fetched}
use agent_link_coro.ByteArray.Store.{
  ByteArray, bytes, write, read, read_at, set_position, clear, keep_root, to_string, get_read_size,
}
use agent_link_coro.ByteArray.Store.Invariant.{
  IsValid, data_of, readable, length-data_of, length-readable, get_read_size-length,
}
use agent_link_coro.ByteArray.Store.Cursor.{npos-lt, npos-add, chain_room, chain-Sized}
use agent_link_coro.ByteArray.Store.Grow.{HasRoom}
use agent_link_coro.ByteArray.Store.Write.{Wrote, write_bytes-Wrote}
use agent_link_coro.ByteArray.Store.Read.{
  read-Took, set_position-Positioned, readable-chain, some_node_left,
}

-- The abstract buffer.
pub record Flat : Type 0 where
  pub content : List ℕ
  pub position : ℕ

abbrev pub flat : ByteArray → Flat
flat b = record { content = data_of b; position = b.position }

abbrev pub flat_write : Flat → List ℕ → Flat
flat_write f xs = record {
  content = splice f.position xs f.content;
  position = f.position + length xs;
}

-- `none` is the exception out_of_range.
abbrev pub flat_read : Flat → ℕ → Option (List ℕ × Flat)
flat_read f n =
    if leb (f.position + n) (length f.content)
    then some (take n (drop f.position f.content), record f { position = f.position + n })
    else none

-- The outcome of an operation of the detailed buffer meets that of the abstract one.
abbrev pub Implements : Outcome (List ℕ × ByteArray) → Option (List ℕ × Flat) → Type 0
Implements (ok (xs, b)) (some (ys, f)) = (xs ≡ ys) × IsValid b × (flat b ≡ f)
Implements (throw out_of_range) none = Unit {0}
Implements (throw out_of_range) (some p) = ⊥
Implements (throw invalid_argument) o = ⊥
Implements (throw overflow_error) o = ⊥
Implements (ok p) none = ⊥
Implements fault o = ⊥

Flat-eq :
    (xs ys : List ℕ) (p q : ℕ)
    → xs ≡ ys
    → p ≡ q
    → ◌≡◌ {A = Flat} (record { content = xs; position = p }) (record { content = ys; position = q })
Flat-eq xs ys p q e h = λ i. record { content = e i; position = h i }

pub write-Wrote :
    (b : ByteArray) (xs : List ℕ)
    → IsValid b
    → 0 < length xs
    → HasRoom b (length xs)
    → Wrote b xs (write b (bytes xs))
unfolding write
write-Wrote b [] v pos room = absurd (omega arith)
write-Wrote b (x ∷ xs) v pos room = write_bytes-Wrote b (x ∷ xs) v pos room

splice-nil : (p : ℕ) (xs : List ℕ) → splice p [] xs ≡ xs
splice-nil p xs = rw add-zero (take-append-drop p xs)

-- On a well formed buffer, a write of bytes that fit the address space never faults or throws, keeps
-- the buffer well formed, and does to the data and the position exactly what the abstract buffer does.
pub write_refines :
    (b : ByteArray) (xs : List ℕ)
    → IsValid b
    → HasRoom b (length xs)
    → (b' : ByteArray) × (write b (bytes xs) ≡ ok b')
      × IsValid b'
      × (flat b' ≡ flat_write (flat b) xs)
unfolding write
write_refines b [] v room = (
  b,
  refl,
  v,
  Flat-eq (data_of b) (splice b.position [] (data_of b)) b.position (b.position + 0)
      (sym (splice-nil b.position (data_of b))) (omega arith),
)
write_refines b (x ∷ xs) v room =
    let w = write_bytes-Wrote b (x ∷ xs) v (omega arith) room in
    (
      w.b',
      w.succeeds,
      w.valid,
      Flat-eq (data_of w.b') (splice b.position (x ∷ xs) (data_of b)) w.b'.position
          (b.position + length (x ∷ xs)) w.data_is w.position_is,
    )

-- On a well formed buffer and away from the end of the last block, a read meets the abstract buffer
-- on every branch: it gives the bytes at the position and moves on, or throws out_of_range where there are too few.
pub read_refines :
    (b : ByteArray) (n : ℕ)
    → IsValid b
    → b.position < b.capacity
    → Implements (read b n) (flat_read (flat b) n)
unfolding read
read_refines b n v inside =
    let size = length-data_of b v in
    let left = length-readable b v in
    elim (Bool-cases (leb (b.position + n) (length (data_of b)))) [
      | inl fits ↦
          let le = leb→le (b.position + n) (length (data_of b)) fits in
          let t = read-Took b n v inside (omega (arith, v.position_le)) in
          rw (fits, t.succeeds)
            (
              refl,
              t.valid,
              Flat-eq (data_of t.b') (data_of b) t.b'.position (b.position + n) t.data_is
                  t.position_is,
            )
      | inr short ↦
          let lt = leb→lt (b.position + n) (length (data_of b)) short in
          rw
            (
              short,
              lt→ltb (get_read_size b) n (omega (arith, get_read_size-length b v, v.position_le)),
            )
            tt
    ]

-- On a well formed buffer, a position inside the data is taken over, and the data stays as it is; one beyond the capacity
-- is refused with out_of_range.
pub set_position_refines :
    (b : ByteArray) (p : ℕ)
    → IsValid b
    → (p ≤ b.size
        → (b' : ByteArray) × (set_position b p ≡ ok b')
          × IsValid b'
          × (flat b' ≡ record { content = data_of b; position = p }))
      × (b.capacity < p → set_position b p ≡ throw out_of_range)
unfolding set_position
set_position_refines b p v = (
  (λ h.
      let s = set_position-Positioned b p v (omega (arith, v.size_le)) in
      (
        s.b',
        s.succeeds,
        s.valid,
        Flat-eq (data_of s.b') (data_of b) s.b'.position p
            (sym (
                take_all b.size (data_of s.b')
                  (omega (arith, length-data_of s.b' s.valid, s.size_is)))
              ∙ s.data_is)
            s.position_is,
      )),
  λ h. rw (lt→ltb b.capacity p h),
)

-- read(buf, size, position) looks in the block of m_cur, whatever block `position` is in: at any
-- position with the offset of m_position it gives the bytes at m_position.
pub read_at_wrong_block :
    (b : ByteArray) (n p : ℕ)
    → IsValid b
    → b.position < b.capacity
    → p % b.base_size ≡ b.position % b.base_size
    → p + n ≤ b.size
    → n ≤ length (readable b)
    → read_at b n p ≡ ok (take n (readable b))
unfolding read_at
read_at_wrong_block b n p v inside e hp fits =
    let left = length-readable b v in
    let npos = b.position % b.base_size in
    let f =
      read_loop-Fetched b.base_size (drop b.cur b.nodes) npos n v.base_fits (npos-lt b v)
        (some_node_left b v inside) (chain-Sized b v)
        (omega (arith, npos-add b v, chain_room b v, v.size_le, v.position_le)) in
    let same : take n (drop npos (bytes_of (drop b.cur b.nodes))) ≡ take n (readable b) =
      sym (
        take-take n (b.size - b.position) (drop npos (bytes_of (drop b.cur b.nodes))) (omega arith))
      ∙ ap (take n) (sym (readable-chain b v)) in
    rw
      (
        le→ltb (sub64 b.size p) n
            (omega (arith, sub64_no_wrap b.size p, v.size_le, v.capacity_fits)),
        e,
        f.succeeds,
      )
      (ap ok same)

-- toString gives the bytes from the position to the end of the data, on every well formed buffer.
pub to_string_lem : (b : ByteArray) → IsValid b → to_string b ≡ ok (readable b)
unfolding to_string
to_string_lem b v =
    let left = length-readable b v in
    let rs = get_read_size-length b v in
    elim (Bool-cases (get_read_size b == 0)) [
      | inl empty ↦
          let z = (==_iff (get_read_size b) 0).0 empty in
          rw empty
            (ap ok (sym (drop_all b.position (data_of b) (omega (arith, length-data_of b v)))))
      | inr some_left ↦
          let nz : get_read_size b ≢ 0 =
            λ z. absurd (false≢true (sym some_left ∙ (==_iff (get_read_size b) 0).1 z)) in
          rw some_left (
            read_at_wrong_block b (get_read_size b) b.position v (omega (arith, v.size_le)) refl
              (omega (arith, v.position_le)) (omega arith)
            ∙ ap ok (take_all (get_read_size b) (readable b) (omega arith)))
    ]

-- With the position at the end of the last block m_cur is the null pointer, and a read of no bytes
-- follows it; a read of more is refused before that.
pub read_at_end :
    (b : ByteArray) (n : ℕ)
    → IsValid b
    → b.position ≡ b.capacity
    → (read b 0 ≡ fault) × (0 < n → read b n ≡ throw out_of_range)
unfolding read read_loop
read_at_end b n v e =
    let rs = get_read_size-length b v in
    let left = length-readable b v in
    let end : b.cur ≡ length b.nodes =
      block_eq b.base_size b.cur (length b.nodes) b.position v.at_node v.in_node
        (e ∙ v.capacity_is) in
    (
      rw (le→ltb (get_read_size b) 0 (omega arith), drop_all b.cur b.nodes (omega arith)),
      λ h. rw (lt→ltb (get_read_size b) n (omega (arith, v.size_le))),
    )

keep_root_refines :
    (b : ByteArray) (nodes : List Node)
    → IsValid b
    → 0 < length nodes
    → Sized b.base_size nodes
    → (b' : ByteArray) × (keep_root b nodes ≡ ok b')
      × IsValid b'
      × (flat b' ≡ record { content = []; position = 0 })
unfolding keep_root
keep_root_refines b [] v some_node sized = absurd (omega arith)
keep_root_refines b (root ∷ rest) v some_node (hr, hs) =
    let valid : IsValid
        (record b { position = 0; size = 0; capacity = b.base_size; nodes = root ∷ []; cur = 0 }) =
      record {
        base_pos = v.base_pos;
        base_fits = v.base_fits;
        sized = (hr, tt);
        some_node = omega arith;
        capacity_is = omega arith;
        capacity_fits = v.base_fits;
        at_node = omega arith;
        in_node = omega (arith, v.base_pos);
        position_le = omega arith;
        size_le = omega arith;
      } in
    (_, refl, valid, refl)

-- `clear` empties a well formed buffer, which stays well formed.
pub clear_refines :
    (b : ByteArray)
    → IsValid b
    → (b' : ByteArray) × (clear b ≡ ok b')
      × IsValid b'
      × (flat b' ≡ record { content = []; position = 0 })
unfolding clear
clear_refines b v = keep_root_refines b b.nodes v v.some_node v.sized
