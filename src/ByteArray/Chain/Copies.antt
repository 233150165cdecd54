-- ===== src/ByteArray/Chain/Copies.antt =====
-- The loops over the chain of src/base/bytearray.h as copies on the flat sequence of its bytes.
use agent_link_coro.Prelude.{
  ℕ, zero, suc, ◌+◌, ◌-◌, ◌*◌, ◌≤◌, ◌<◌, ◌≡◌, refl, ap, sym, ◌∙◌, inl, inr, List, [], ◌∷◌, ◌++◌,
  append_assoc, append-nil, arith, ltb, leb, ◌==◌, if◌then◌else◌, length, take, drop, All,
  length-append, length-take, length-drop, le→leb, Bool-cases, leb→le, leb→lt, ltb→lt, ltb→le,
  take-append_le, take-append_ge, drop-append_le, drop-append_ge, take-append-drop, drop_all,
  take_all,
}
use agent_link_coro.Prelude.Words.{IsU64, sub64, sub64_no_wrap}
use agent_link_coro.Outcome.{Outcome, ok}
use agent_link_coro.ByteArray.Chain.{Node, splice, write_loop, read_loop, seek, bytes_of}

-- Every block has `base` bytes.
abbrev pub Sized : ℕ → List Node → Type 0
Sized base = All (λ node. length node ≡ base)

pub length-bytes_of :
    (base : ℕ) (chain : List Node)
    → Sized base chain
    → length (bytes_of chain) ≡ length chain * base
length-bytes_of base [] h = omega arith
length-bytes_of base (node ∷ rest) (h, hs) =
    omega (arith, length-append node (bytes_of rest), length-bytes_of base rest hs)

pub length-splice :
    (i : ℕ) (bs xs : List ℕ) → i + length bs ≤ length xs → length (splice i bs xs) ≡ length xs
length-splice i bs xs h = omega (
  arith,
  length-append (take i xs) (bs ++ drop (i + length bs) xs),
  length-append bs (drop (i + length bs) xs),
  length-take i xs,
  length-drop (i + length bs) xs,
)

-- A splice that stays in the first part.
splice-append_left :
    (i : ℕ) (bs xs ys : List ℕ)
    → i + length bs ≤ length xs
    → splice i bs (xs ++ ys) ≡ splice i bs xs ++ ys
splice-append_left i bs xs ys h =
    rw (take-append_le i xs ys (omega arith), drop-append_le (i + length bs) xs ys h)
      (simp append_assoc)

-- A splice that stays in the second part.
pub splice-append_right :
    (k i : ℕ) (bs xs ys : List ℕ)
    → k ≡ length xs + i
    → splice k bs (xs ++ ys) ≡ xs ++ splice i bs ys
splice-append_right k i bs xs ys h =
    rw
      (
        take-append_ge k i xs ys h,
        drop-append_ge (k + length bs) (i + length bs) xs ys (omega arith),
      )
      (simp append_assoc)

-- A splice across the border: the first part is filled up, and the rest goes on at 0.
splice-append_across :
    (i n : ℕ) (bs xs ys : List ℕ)
    → i + n ≡ length xs
    → n ≤ length bs
    → splice i bs (xs ++ ys) ≡ splice i (take n bs) xs ++ splice 0 (drop n bs) ys
splice-append_across i n bs xs ys h le =
    let front : length (take n bs) ≡ n = omega (arith, length-take n bs) in
    let back : length (drop n bs) ≡ length bs - n = length-drop n bs in
    rw
      (
        take-append_le i xs ys (omega arith),
        drop-append_ge (i + length bs) (0 + length (drop n bs)) xs ys (omega arith),
        drop_all (i + length (take n bs)) xs (omega arith),
      )
      (simp (append_assoc, append-nil)
        (ap (λ z. take i xs ++ z)
          (ap (λ z. z ++ drop (0 + length (drop n bs)) ys) (sym (take-append-drop n bs))
            ∙ append_assoc (take n bs) (drop n bs) _)))

-- What `write_loop` promises: the data stands at offset `npos`, all else is kept, and m_cur is at
-- the node of the first byte after the data.
pub record Written (base : ℕ) (chain : List Node) (npos : ℕ) (buf : List ℕ)
    (result : Outcome (List Node × ℕ)) : Type 0 where
  pub chain' : List Node
  pub moved : ℕ
  pub succeeds : result ≡ ok (chain', moved)
  pub sized : Sized base chain'
  pub as_long : length chain' ≡ length chain
  pub content : bytes_of chain' ≡ splice npos buf (bytes_of chain)
  pub at_node : moved * base ≤ npos + length buf
  pub in_node : npos + length buf < moved * base + base

pub write_loop-Written :
    (base : ℕ) (chain : List Node) (npos : ℕ) (buf : List ℕ)
    → IsU64 base
    → npos < base
    → 0 < length buf
    → Sized base chain
    → npos + length buf ≤ length chain * base
    → Written base chain npos buf (write_loop chain npos buf)
unfolding write_loop
write_loop-Written base [] npos buf u h pos sized room = absurd (omega arith)
write_loop-Written base (node ∷ rest) npos buf u h pos (hn, hs) room =
    let e : sub64 (length node) npos ≡ base - npos =
      omega (arith, sub64_no_wrap (length node) npos) in
    elim (Bool-cases (leb (length buf) (base - npos))) [
      | inl fits ↦
          let le = leb→le (length buf) (base - npos) fits in
          rw (e, fits, le→leb (npos + length buf) (length node) (omega arith))
            (record {
              chain' = splice npos buf node ∷ rest;
              moved = if length node == npos + length buf then 1 else 0;
              succeeds = refl;
              sized = (length-splice npos buf node (omega arith) ∙ hn, hs);
              as_long = refl;
              content = sym (splice-append_left npos buf node (bytes_of rest) (omega arith));
              at_node = ground arith;
              in_node = ground arith;
            })
      | inr long ↦
          let lt = leb→lt (length buf) (base - npos) long in
          let n = base - npos in
          let front = length-take n buf in
          let back = length-drop n buf in
          let ih =
            write_loop-Written base rest 0 (drop n buf) u (omega arith) (omega arith) hs
              (omega arith) in
          rw (e, long, le→leb (npos + length (take n buf)) (length node) (omega arith), ih.succeeds)
            (record {
              chain' = splice npos (take n buf) node ∷ ih.chain';
              moved = suc ih.moved;
              succeeds = refl;
              sized = (length-splice npos (take n buf) node (omega arith) ∙ hn, ih.sized);
              as_long = ap suc ih.as_long;
              content =
                  ap (◌++◌ (splice npos (take n buf) node)) ih.content
                  ∙ sym (
                      splice-append_across npos n buf node (bytes_of rest) (omega arith)
                        (omega arith));
              at_node = omega (arith, ih.at_node);
              in_node = omega (arith, ih.in_node);
            })
    ]

pub some_node_of_room : (base : ℕ) (chain : List Node) → 0 < length chain * base → 0 < length chain
some_node_of_room base [] h = absurd (omega arith)
some_node_of_room base (node ∷ rest) h = omega arith

-- A slice of two parts that stays in the first, and one that goes on into the second.
pub take-drop-append_left :
    (n i : ℕ) (xs ys : List ℕ) → i + n ≤ length xs → take n (drop i xs) ≡ take n (drop i (xs ++ ys))
take-drop-append_left n i xs ys h = rw (
  drop-append_le i xs ys (omega arith),
  take-append_le n (drop i xs) ys (omega (arith, length-drop i xs)),
)

pub take-drop-append_across :
    (m n k i : ℕ) (xs ys : List ℕ)
    → m ≡ n + k
    → i + n ≡ length xs
    → take n (drop i xs) ++ take k ys ≡ take m (drop i (xs ++ ys))
take-drop-append_across m n k i xs ys hm hi =
    let part = length-drop i xs in
    rw (
      drop-append_le i xs ys (omega arith),
      take_all n (drop i xs) (omega arith),
      take-append_ge m k (drop i xs) ys (omega arith),
    )

-- What `read_loop` promises.
pub record Fetched (base : ℕ) (chain : List Node) (npos size : ℕ) (result : Outcome (List ℕ × ℕ))
    : Type 0 where
  pub moved : ℕ
  pub succeeds : result ≡ ok (take size (drop npos (bytes_of chain)), moved)
  pub at_node : moved * base ≤ npos + size
  pub in_node : npos + size < moved * base + base

pub read_loop-Fetched :
    (base : ℕ) (chain : List Node) (npos size : ℕ)
    → IsU64 base
    → npos < base
    → 0 < length chain
    → Sized base chain
    → npos + size ≤ length chain * base
    → Fetched base chain npos size (read_loop chain npos size)
unfolding read_loop
read_loop-Fetched base [] npos size u h some_node sized room = absurd (omega arith)
read_loop-Fetched base (node ∷ rest) npos zero u h some_node sized room = record {
  moved = 0;
  succeeds = refl;
  at_node = omega arith;
  in_node = omega arith;
}
read_loop-Fetched base (node ∷ rest) npos (suc left) u h some_node (hn, hs) room =
    let e : sub64 (length node) npos ≡ base - npos =
      omega (arith, sub64_no_wrap (length node) npos) in
    elim (Bool-cases (leb (suc left) (base - npos))) [
      | inl fits ↦
          let le = leb→le (suc left) (base - npos) fits in
          rw (e, fits, le→leb (npos + suc left) (length node) (omega arith))
            (record {
              moved = if length node == npos + suc left then 1 else 0;
              succeeds =
                  ap (λ z. ok (z, if length node == npos + suc left then 1 else 0))
                    (take-drop-append_left (suc left) npos node (bytes_of rest) (omega arith));
              at_node = ground arith;
              in_node = ground arith;
            })
      | inr long ↦
          let lt = leb→lt (suc left) (base - npos) long in
          let n = base - npos in
          let ih =
            read_loop-Fetched base rest 0 (suc left - n) u (omega arith)
              (some_node_of_room base rest (omega arith)) hs (omega arith) in
          rw (e, long, le→leb (npos + n) (length node) (omega arith), ih.succeeds)
            (record {
              moved = suc ih.moved;
              succeeds =
                  ap (λ z. ok (z, suc ih.moved))
                    (take-drop-append_across (suc left) n (suc left - n) npos node (bytes_of rest)
                      (omega arith) (omega arith));
              at_node = omega (arith, ih.at_node);
              in_node = omega (arith, ih.in_node);
            })
    ]

-- What `seek` promises: the node of byte `v`, which is the null pointer at the end of the chain.
pub record Sought (base : ℕ) (v : ℕ) (result : Outcome ℕ) : Type 0 where
  pub moved : ℕ
  pub succeeds : result ≡ ok moved
  pub at_node : moved * base ≤ v
  pub in_node : v < moved * base + base

pub seek-Sought :
    (base : ℕ) (chain : List Node) (v : ℕ)
    → 0 < base
    → 0 < length chain
    → Sized base chain
    → v ≤ length chain * base
    → Sought base v (seek chain v)
unfolding seek
seek-Sought base [] v pos some_node sized room = absurd (omega arith)
seek-Sought base (node ∷ rest) v pos some_node (hn, hs) room =
    elim (Bool-cases (ltb (length node) v)) [
      | inl beyond ↦
          let lt = ltb→lt (length node) v beyond in
          let ih =
            seek-Sought base rest (v - length node) pos (some_node_of_room base rest (omega arith))
              hs (omega arith) in
          rw (beyond, ih.succeeds)
            (record {
              moved = suc ih.moved;
              succeeds = refl;
              at_node = omega (arith, ih.at_node);
              in_node = omega (arith, ih.in_node);
            })
      | inr within ↦
          let le = ltb→le (length node) v within in
          rw within (record {
            moved = if v == length node then 1 else 0;
            succeeds = refl;
            at_node = ground arith;
            in_node = ground arith;
          })
    ]
