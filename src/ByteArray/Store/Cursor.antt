-- ===== src/ByteArray/Store/Cursor.antt =====
-- Where m_cur and the offset in its block stand in the flat sequence of bytes of a well formed
-- buffer (src/base/bytearray.h).
use agent_link_coro.Prelude.{
  ℕ, zero, suc, ◌+◌, ◌-◌, ◌*◌, ◌%◌, ◌≤◌, ◌<◌, ◌≡◌, sym, ap, ◌∙◌, List, [], ◌∷◌, ◌++◌, arith, length,
  take, drop, max, length-take, length-drop, take-append_ge, take-append-drop, take-take,
  drop-append_ge, drop-take_cut,
}
use agent_link_coro.ByteArray.Chain.{Node, bytes_of, splice}
use agent_link_coro.ByteArray.Chain.Copies.{Sized, length-bytes_of}
use agent_link_coro.ByteArray.Store.{ByteArray}
use agent_link_coro.ByteArray.Store.Invariant.{IsValid, cur-le, npos_lem}
use agent_link_coro.ByteArray.Store.Grow.{bytes_of-append}

pub Sized-take : (base n : ℕ) (xs : List Node) → Sized base xs → Sized base (take n xs)
Sized-take base zero xs h = tt
Sized-take base (suc n) [] h = tt
Sized-take base (suc n) (x ∷ xs) (h, hs) = (h, Sized-take base n xs hs)

Sized-drop : (base n : ℕ) (xs : List Node) → Sized base xs → Sized base (drop n xs)
Sized-drop base zero xs h = h
Sized-drop base (suc n) [] h = tt
Sized-drop base (suc n) (x ∷ xs) (h, hs) = Sized-drop base n xs hs

-- What is cut off behind a splice is cut off before it.
pub take-splice :
    (p s s' : ℕ) (bs xs : List ℕ)
    → p ≤ s
    → s ≤ length xs
    → p + length bs ≤ length xs
    → s' ≡ max s (p + length bs)
    → take s' (splice p bs xs) ≡ splice p bs (take s xs)
take-splice p s s' bs xs hp hs hb hm =
    let first = length-take p xs in
    let tail : take (s' - p - length bs) (drop (p + length bs) xs)
        ≡ drop (p + length bs) (take s xs) =
      drop-take_cut (p + length bs) s (s' - p - length bs) xs (omega arith) in
    rw (
      take-append_ge s' (s' - p) (take p xs) (bs ++ drop (p + length bs) xs) (omega arith),
      take-append_ge (s' - p) (s' - p - length bs) bs (drop (p + length bs) xs) (omega arith),
      take-take p s xs hp,
      tail,
    )

-- The part of the chain from m_cur on, as the loops meet it.
module _ (b : ByteArray) (v : IsValid b) where
  pub chain-Sized : Sized b.base_size (drop b.cur b.nodes)
  chain-Sized = Sized-drop b.base_size b.cur b.nodes v.sized

  pub chain_room : length (drop b.cur b.nodes) * b.base_size + b.cur * b.base_size ≡ b.capacity
  chain_room =
      let all : length (drop b.cur b.nodes) + b.cur ≡ length b.nodes =
        omega (arith, length-drop b.cur b.nodes, cur-le b v) in
      omega (arith, ap (λ (t : ℕ). t * b.base_size) all, v.capacity_is)

  pub npos-lt : b.position % b.base_size < b.base_size
  npos-lt = rw (npos_lem b v) (omega (arith, v.in_node, v.at_node, v.base_pos))

  pub npos-add : b.cur * b.base_size + b.position % b.base_size ≡ b.position
  npos-add = rw (npos_lem b v) (omega (arith, v.at_node))

  pub chain_before : length (bytes_of (take b.cur b.nodes)) ≡ b.cur * b.base_size
  chain_before =
      let n : length (take b.cur b.nodes) ≡ b.cur =
        omega (arith, length-take b.cur b.nodes, cur-le b v) in
      length-bytes_of b.base_size (take b.cur b.nodes)
        (Sized-take b.base_size b.cur b.nodes v.sized)
      ∙ ap (λ (t : ℕ). t * b.base_size) n

  pub bytes_of-nodes :
      bytes_of (take b.cur b.nodes) ++ bytes_of (drop b.cur b.nodes) ≡ bytes_of b.nodes
  bytes_of-nodes =
      sym (bytes_of-append (take b.cur b.nodes) (drop b.cur b.nodes))
      ∙ ap bytes_of (take-append-drop b.cur b.nodes)

  -- The bytes from m_cur's block and the offset in it on are those from the position on.
  pub drop-position :
      drop (b.position % b.base_size) (bytes_of (drop b.cur b.nodes))
      ≡ drop b.position (bytes_of b.nodes)
  drop-position =
      sym (
        drop-append_ge b.position (b.position % b.base_size) (bytes_of (take b.cur b.nodes))
          (bytes_of (drop b.cur b.nodes)) (omega (arith, npos-add, chain_before)))
      ∙ ap (drop b.position) bytes_of-nodes
