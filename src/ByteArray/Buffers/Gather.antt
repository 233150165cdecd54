-- ===== src/ByteArray/Buffers/Gather.antt =====
-- The iovec arrays of src/base/bytearray.h cover exactly the bytes that they are asked for.
use agent_link_coro.Prelude.{
  ℕ, zero, suc, ◌+◌, ◌-◌, ◌*◌, ◌%◌, ◌≤◌, ◌<◌, ◌≡◌, refl, sym, ap, ◌∙◌, List, [], ◌∷◌, ◌++◌, arith,
  length, take, drop, ltb, leb, if◌then◌else◌, inl, inr, Bool-cases, leb→le, leb→lt, min,
  take-take-min, append-nil, ne→==, length-drop, length-take,
}
use agent_link_coro.Prelude.Words.{IsU64, sub64, sub64_no_wrap}
use agent_link_coro.Outcome.{Outcome, ok}
use agent_link_coro.ByteArray.Chain.{Node, bytes_of}
use agent_link_coro.ByteArray.Chain.Copies.{
  Sized, length-bytes_of, some_node_of_room, take-drop-append_left, take-drop-append_across,
}
use agent_link_coro.ByteArray.Store.{ByteArray, get_read_size}
use agent_link_coro.ByteArray.Store.Invariant.{
  IsValid, readable, length-readable, get_read_size-length,
}
use agent_link_coro.ByteArray.Store.Cursor.{
  chain-Sized, chain_room, npos-lt, npos-add, drop-position,
}
use agent_link_coro.ByteArray.Store.Grow.{HasRoom, SameData, add_capacity-Grown}
use agent_link_coro.ByteArray.Store.Read.{some_node_left, readable-chain}
use agent_link_coro.ByteArray.Buffers.{IoVec, gather, get_read_buffers, get_write_buffers}

abbrev node_at : List Node → ℕ → Node
node_at [] i = []
node_at (node ∷ rest) zero = node
node_at (node ∷ rest) (suc i) = node_at rest i

-- The bytes that an array of iovecs stands for.
abbrev pub iov_bytes : List Node → List IoVec → List ℕ
iov_bytes nodes [] = []
iov_bytes nodes (v ∷ vs) = take v.len (drop v.offset (node_at nodes v.node)) ++ iov_bytes nodes vs

node_at-drop :
    (nodes : List Node) (at : ℕ) (node : Node) (rest : List Node)
    → drop at nodes ≡ node ∷ rest
    → (node_at nodes at ≡ node) × (drop (suc at) nodes ≡ rest)
node_at-drop [] zero node rest e = cc
node_at-drop [] (suc at) node rest e = cc
node_at-drop (x ∷ xs) zero node rest e = (cc, cc)
node_at-drop (x ∷ xs) (suc at) node rest e = node_at-drop xs at node rest e

-- What `gather` promises: iovecs for `len` bytes from offset `npos` of the chain on.
pub record Gathered (nodes chain : List Node) (npos len : ℕ) (result : Outcome (List IoVec))
    : Type 0 where
  pub iovs : List IoVec
  pub succeeds : result ≡ ok iovs
  pub covers : iov_bytes nodes iovs ≡ take len (drop npos (bytes_of chain))

pub gather-Gathered :
    (base : ℕ) (nodes chain : List Node) (at npos len : ℕ)
    → IsU64 base
    → npos < base
    → 0 < length chain
    → Sized base chain
    → drop at nodes ≡ chain
    → npos + len ≤ length chain * base
    → Gathered nodes chain npos len (gather chain at npos len)
unfolding gather
gather-Gathered base nodes [] at npos len u h some_node sized e room = absurd (omega arith)
gather-Gathered base nodes (node ∷ rest) at npos zero u h some_node sized e room = record {
  iovs = [];
  succeeds = refl;
  covers = refl;
}
gather-Gathered base nodes (node ∷ rest) at npos (suc left) u h some_node (hn, hs) e room =
    let cap : sub64 (length node) npos ≡ base - npos =
      omega (arith, sub64_no_wrap (length node) npos) in
    let (here, behind) = node_at-drop nodes at node rest e in
    elim (Bool-cases (leb (suc left) (base - npos))) [
      | inl fits ↦
          let le = leb→le (suc left) (base - npos) fits in
          rw (cap, fits)
            (record {
              iovs = record { node = at; offset = npos; len = suc left } ∷ [];
              succeeds = refl;
              covers =
                  append-nil (take (suc left) (drop npos (node_at nodes at)))
                  ∙ ap (λ z. take (suc left) (drop npos z)) here
                  ∙ take-drop-append_left (suc left) npos node (bytes_of rest) (omega arith);
            })
      | inr long ↦
          let lt = leb→lt (suc left) (base - npos) long in
          let n = base - npos in
          let ih =
            gather-Gathered base nodes rest (suc at) 0 (suc left - n) u (omega arith)
              (some_node_of_room base rest (omega arith)) hs behind (omega arith) in
          rw (cap, long, ih.succeeds)
            (record {
              iovs = record { node = at; offset = npos; len = n } ∷ ih.iovs;
              succeeds = refl;
              covers =
                  ap (λ z. take n (drop npos z) ++ iov_bytes nodes ih.iovs) here
                  ∙ ap (λ z. take n (drop npos node) ++ z) ih.covers
                  ∙ take-drop-append_across (suc left) n (suc left - n) npos node (bytes_of rest)
                      (omega arith) (omega arith);
            })
    ]

-- On a well formed buffer whose position is below its capacity, getReadBuffers gives iovecs for exactly
-- the first `len` bytes to be read, or for all of them where there are fewer, and returns how many
-- they are.
pub get_read_buffers_lem :
    (b : ByteArray) (len : ℕ)
    → IsValid b
    → b.position < b.capacity
    → (iovs : List IoVec) × (get_read_buffers b len ≡ ok (iovs, min len (length (readable b))))
      × (iov_bytes b.nodes iovs ≡ take len (readable b))
unfolding get_read_buffers
get_read_buffers_lem b zero v inside = ([], ap (λ n. ok ([], n)) (omega arith), refl)
get_read_buffers_lem b (suc k) v inside =
    let len = suc k in
    let rs = get_read_size-length b v in
    let left = length-readable b v in
    let npos = b.position % b.base_size in
    let size = if ltb (get_read_size b) len then get_read_size b else len in
    let size_is : size ≡ min len (length (readable b)) = ground arith in
    let g =
      gather-Gathered b.base_size b.nodes (drop b.cur b.nodes) b.cur npos size v.base_fits
        (npos-lt b v) (some_node_left b v inside) (chain-Sized b v) refl
        (omega (arith, npos-add b v, chain_room b v, v.size_le, v.position_le)) in
    let tail = drop npos (bytes_of (drop b.cur b.nodes)) in
    rw (ne→== len 0 (omega arith), g.succeeds)
      (
        g.iovs,
        ap (λ n. ok (g.iovs, n)) size_is,
        g.covers
            ∙ sym (take-take-min len (b.size - b.position) size tail (omega arith))
            ∙ ap (take len) (sym (readable-chain b v)),
      )

-- On a well formed buffer with room for `len` more bytes, which are not none, in the address space,
-- getWriteBuffers makes room and gives iovecs for the next `len` bytes from the position on, with the
-- data kept.
pub get_write_buffers_lem :
    (b : ByteArray) (len : ℕ)
    → IsValid b
    → 0 < len
    → HasRoom b len
    → (b' : ByteArray) × (iovs : List IoVec) × (get_write_buffers b len ≡ ok (b', iovs, len))
      × IsValid b'
      × SameData b b'
      × (length (iov_bytes b'.nodes iovs) ≡ len)
      × (iov_bytes b'.nodes iovs ≡ take len (drop b.position (bytes_of b'.nodes)))
unfolding get_write_buffers
get_write_buffers_lem b len v pos room =
    let g = add_capacity-Grown b len v pos room in
    let b1 = g.b' in
    let npos = b1.position % b1.base_size in
    let inside : b1.position + len ≤ b1.capacity = omega (arith, g.holds, g.same.position_is) in
    let w =
      gather-Gathered b1.base_size b1.nodes (drop b1.cur b1.nodes) b1.cur npos len g.valid.base_fits
        (npos-lt b1 g.valid) (some_node_left b1 g.valid (omega arith)) (chain-Sized b1 g.valid) refl
        (omega (arith, npos-add b1 g.valid, chain_room b1 g.valid)) in
    let covers : iov_bytes b1.nodes w.iovs ≡ take len (drop b.position (bytes_of b1.nodes)) =
      w.covers
      ∙ ap (take len) (drop-position b1 g.valid)
      ∙ ap (λ p. take len (drop p (bytes_of b1.nodes))) g.same.position_is in
    let whole = length-bytes_of b1.base_size b1.nodes g.valid.sized in
    rw (ne→== len 0 (omega arith), g.succeeds, w.succeeds)
      (
        b1,
        w.iovs,
        refl,
        g.valid,
        g.same,
        ap length covers
            ∙ omega (
              arith,
              length-take len (drop b.position (bytes_of b1.nodes)),
              length-drop b.position (bytes_of b1.nodes),
              g.valid.capacity_is,
              g.same.position_is,
            ),
        covers,
      )
