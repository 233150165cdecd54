-- ===== src/ByteArray/Chain.antt =====
-- The chain of memory blocks of src/base/bytearray.h and the loops that walk it. A `Node *` is
-- the part of the chain that begins at that node; the null pointer is the empty chain.
pub mod Copies
use agent_link_coro.Prelude.{
  ℕ, zero, suc, ◌+◌, ◌-◌, List, [], ◌∷◌, ◌++◌, ltb, leb, ◌==◌, if◌then◌else◌, length, take, drop,
  replicate,
}
use agent_link_coro.Prelude.Words.{sub64}
use agent_link_coro.Outcome.{Outcome, ok, fault, ◌>>=◌}

-- struct Node: `size` is the length of the block at `ptr`, `next` is the rest of the chain.
abbrev pub Node : Type 0
Node = List ℕ

-- `new Node(s)`: the bytes of a new block are not initialised; `fill` stands for their value.
abbrev pub new_node : ℕ → ℕ → Node
new_node fill s = replicate s fill

-- The bytes `bs` put at offset `i` over what stood there.
abbrev pub splice : ℕ → List ℕ → List ℕ → List ℕ
splice i bs xs = take i xs ++ (bs ++ drop (i + length bs) xs)

-- `memcpy(node->ptr + npos, bs, size)`; a copy that leaves the block is a fault.
abbrev pub memcpy_to : Node → ℕ → List ℕ → Outcome Node
memcpy_to node npos bs =
    if leb (npos + length bs) (length node) then ok (splice npos bs node) else fault

-- `memcpy(buf, node->ptr + npos, size)`.
abbrev pub memcpy_from : Node → ℕ → ℕ → Outcome (List ℕ)
memcpy_from node npos size =
    if leb (npos + size) (length node) then ok (take size (drop npos node)) else fault

-- The loop of `write`, which is entered with data to copy: the chain with the data in it, and the
-- number of nodes that m_cur moved on.
unfoldable pub write_loop : List Node → ℕ → List ℕ → Outcome (List Node × ℕ)
write_loop [] npos buf = fault
write_loop (node ∷ rest) npos buf =
    let ncap = sub64 (length node) npos in
    let size = length buf in
    let more : Outcome (List Node × ℕ) = (do
      node' ← memcpy_to node npos (take ncap buf)
      (rest', moved) ← write_loop rest 0 (drop ncap buf)
      ok (node' ∷ rest', suc moved)) in
    if leb size ncap
    then (do
      node' ← memcpy_to node npos buf
      ok (node' ∷ rest, (if length node == npos + size then 1 else 0)))
    else more

-- The loop of `read`: the bytes copied, and the number of nodes that m_cur moved on. The code
-- reads `m_cur->size` before it tests the size, so the null pointer is a fault at size 0 too.
unfoldable pub read_loop : List Node → ℕ → ℕ → Outcome (List ℕ × ℕ)
read_loop [] npos size = fault
read_loop (node ∷ rest) npos zero = ok ([], 0)
read_loop (node ∷ rest) npos (suc left) =
    let ncap = sub64 (length node) npos in
    let size = suc left in
    let more : Outcome (List ℕ × ℕ) = (do
      bytes ← memcpy_from node npos ncap
      (bytes', moved) ← read_loop rest 0 (size - ncap)
      ok (bytes ++ bytes', suc moved)) in
    if leb size ncap
    then (do
      bytes ← memcpy_from node npos size
      ok (bytes, (if length node == npos + size then 1 else 0)))
    else more

-- The loop of `setPosition`, from m_root on: the number of the node that m_cur ends at.
unfoldable pub seek : List Node → ℕ → Outcome ℕ
seek [] v = fault
seek (node ∷ rest) v =
    let more : Outcome ℕ = (do moved ← seek rest (v - length node); ok (suc moved)) in
    if ltb (length node) v then more else ok (if v == length node then 1 else 0)

-- All bytes of a chain in order.
abbrev pub bytes_of : List Node → List ℕ
bytes_of [] = []
bytes_of (node ∷ rest) = node ++ bytes_of rest
