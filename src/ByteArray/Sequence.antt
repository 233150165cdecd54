-- ===== src/ByteArray/Sequence.antt =====
-- Calls of src/base/bytearray.h one after the other: what two writes leave, what two reads take,
-- and reading back from where a write began.
use agent_link_coro.Prelude.{
  ℕ, ◌+◌, ◌≤◌, ◌<◌, ◌≡◌, refl, sym, ap, ◌∙◌, List, ◌++◌, append_assoc, arith, length, take, drop,
  length-append, length-take, take-append_ge, take-append_le, drop-append_ge, drop-append_le,
  take_all, drop-drop, drop_all,
}
use agent_link_coro.Outcome.{Outcome, ok, ◌>>=◌}
use agent_link_coro.ByteArray.Chain.{splice}
use agent_link_coro.ByteArray.Store.{ByteArray, read, set_position}
use agent_link_coro.ByteArray.Store.Invariant.{
  IsValid, data_of, readable, length-data_of, length-readable,
}
use agent_link_coro.ByteArray.Store.Write.{Wrote}
use agent_link_coro.ByteArray.Store.Read.{read-Took, set_position-Positioned}

splice-splice :
    (p : ℕ) (xs ys zs : List ℕ)
    → p ≤ length zs
    → splice (p + length xs) ys (splice p xs zs) ≡ splice p (xs ++ ys) zs
splice-splice p xs ys zs h =
    let front = length-take p zs in
    let both = length-append xs ys in
    rw
      (
        take-append_ge (p + length xs) (length xs) (take p zs) (xs ++ drop (p + length xs) zs)
            (omega arith),
        take-append_le (length xs) xs (drop (p + length xs) zs) (omega arith),
        take_all (length xs) xs (omega arith),
        drop-append_ge (p + length xs + length ys) (length xs + length ys) (take p zs)
            (xs ++ drop (p + length xs) zs) (omega arith),
        drop-append_ge (length xs + length ys) (length ys) xs (drop (p + length xs) zs)
            (omega arith),
        drop-drop (length ys) (p + length xs) (p + length (xs ++ ys)) zs (omega arith),
      )
      (simp append_assoc)

-- Two writes are one write of both.
pub Wrote->>= :
    (b : ByteArray) (xs ys : List ℕ) (m : Outcome ByteArray) (f : ByteArray → Outcome ByteArray)
    → IsValid b
    → (w : Wrote b xs m) → Wrote w.b' ys (f w.b')
    → Wrote b (xs ++ ys) (m >>= f)
Wrote->>= b xs ys m f v w u = rw w.succeeds (record {
  b' = u.b';
  succeeds = u.succeeds;
  valid = u.valid;
  position_is = omega (arith, u.position_is, w.position_is, length-append xs ys);
  base_is = u.base_is ∙ w.base_is;
  endian_is = u.endian_is ∙ w.endian_is;
  data_is =
      u.data_is
      ∙ ap (λ z. splice w.b'.position ys z) w.data_is
      ∙ ap (λ p. splice p ys (splice b.position xs (data_of b))) w.position_is
      ∙ splice-splice b.position xs ys (data_of b)
          (omega (arith, length-data_of b v, v.position_le));
})

-- What a reader promises that finds the `n` bytes of the value `a` at the position.
pub record Parsed {ℓ} {A : Type ℓ} (b : ByteArray) (n : ℕ) (a : A)
    (result : Outcome (A × ByteArray)) : Type ℓ where
  pub b' : ByteArray
  pub succeeds : result ≡ ok (a, b')
  pub valid : IsValid b'
  pub position_is : b'.position ≡ b.position + n
  pub endian_is : b'.little_endian ≡ b.little_endian
  pub capacity_is : b'.capacity ≡ b.capacity
  pub data_is : data_of b' ≡ data_of b

pub inside_of_readable :
    (b : ByteArray) → IsValid b → 0 < length (readable b) → b.position < b.capacity
inside_of_readable b v h = omega (arith, length-readable b v, v.size_le)

pub read-Parsed :
    (b : ByteArray) (xs ys : List ℕ)
    → IsValid b
    → 0 < length xs
    → readable b ≡ xs ++ ys
    → Parsed b (length xs) xs (read b (length xs))
read-Parsed b xs ys v pos e =
    let n : length (readable b) ≡ length xs + length ys = ap length e ∙ length-append xs ys in
    let t = read-Took b (length xs) v (inside_of_readable b v (omega arith)) (omega arith) in
    let front : take (length xs) (readable b) ≡ xs =
      ap (take (length xs)) e
      ∙ take-append_le (length xs) xs ys (omega arith)
      ∙ take_all (length xs) xs (omega arith) in
    record {
      b' = t.b';
      succeeds = t.succeeds ∙ ap (λ z. ok (z, t.b')) front;
      valid = t.valid;
      position_is = t.position_is;
      endian_is = t.endian_is;
      capacity_is = t.capacity_is;
      data_is = t.data_is;
    }

-- Behind what a reader took stands what stood behind it before.
pub Parsed-readable {ℓ} :
    {A : Type ℓ} {a : A} {result : Outcome (A × ByteArray)} (b : ByteArray) (xs ys : List ℕ)
    → readable b ≡ xs ++ ys
    → (p : Parsed b (length xs) a result) → readable p.b' ≡ ys
Parsed-readable b xs ys e p =
    ap (λ z. drop p.b'.position z) p.data_is
    ∙ ap (λ n. drop n (data_of b)) p.position_is
    ∙ sym (drop-drop (length xs) b.position (b.position + length xs) (data_of b) refl)
    ∙ ap (drop (length xs)) e
    ∙ drop-append_le (length xs) xs ys (omega arith)
    ∙ ap (λ z. z ++ ys) (drop_all (length xs) xs (omega arith))

pub Parsed->>= {ℓ κ} :
    {A : Type ℓ} {C : Type κ} {a : A} {c : C} (b : ByteArray) (n k : ℕ)
    (m : Outcome (A × ByteArray)) (f : A × ByteArray → Outcome (C × ByteArray))
    → (p : Parsed b n a m) → Parsed p.b' k c (f (a, p.b'))
    → Parsed b (n + k) c (m >>= f)
Parsed->>= b n k m f p q = rw p.succeeds (record {
  b' = q.b';
  succeeds = q.succeeds;
  valid = q.valid;
  position_is = omega (arith, q.position_is, p.position_is);
  endian_is = q.endian_is ∙ p.endian_is;
  capacity_is = q.capacity_is ∙ p.capacity_is;
  data_is = q.data_is ∙ p.data_is;
})

drop-splice :
    (p : ℕ) (xs zs : List ℕ)
    → p ≤ length zs
    → drop p (splice p xs zs) ≡ xs ++ drop (p + length xs) zs
drop-splice p xs zs h =
    drop-append_ge p 0 (take p zs) (xs ++ drop (p + length xs) zs) (omega (arith, length-take p zs))

-- A write succeeds; after a step back to where it began, a read gives `a` again, and ends where the
-- write ended, with the data as the write left it.
abbrev pub RoundTrips {ℓ} :
    {A : Type ℓ}
    → ByteArray
    → Outcome ByteArray
    → (ByteArray → Outcome (A × ByteArray))
    → A
    → Type ℓ
RoundTrips b written reader a =
    (b1 : ByteArray) × (written ≡ ok b1)
    × (b2 : ByteArray) × (set_position b1 b.position ≡ ok b2)
    × (b3 : ByteArray) × (reader b2 ≡ ok (a, b3))
    × (b3.position ≡ b1.position)
    × (data_of b3 ≡ data_of b1)

pub Wrote-RoundTrips {ℓ} :
    {A : Type ℓ} (b : ByteArray) (xs : List ℕ) (written : Outcome ByteArray)
    (reader : ByteArray → Outcome (A × ByteArray)) (a : A)
    → IsValid b
    → Wrote b xs written
    → ((b2 : ByteArray) (ys : List ℕ)
        → IsValid b2
        → b2.little_endian ≡ b.little_endian
        → readable b2 ≡ xs ++ ys
        → Parsed b2 (length xs) a (reader b2))
    → RoundTrips b written reader a
Wrote-RoundTrips b xs written reader a v w parse =
    let s =
      set_position-Positioned w.b' b.position w.valid
        (omega (arith, w.position_is, w.valid.position_le, w.valid.size_le)) in
    let kept : data_of s.b' ≡ data_of w.b' =
      sym (
        take_all w.b'.size (data_of s.b') (
          omega
            (arith, length-data_of s.b' s.valid, s.size_is, w.position_is, w.valid.position_le)))
      ∙ s.data_is in
    let front : readable s.b' ≡ xs ++ drop (b.position + length xs) (data_of b) =
      ap (λ z. drop s.b'.position z) (kept ∙ w.data_is)
      ∙ ap (λ n. drop n (splice b.position xs (data_of b))) s.position_is
      ∙ drop-splice b.position xs (data_of b) (omega (arith, length-data_of b v, v.position_le)) in
    let p =
      parse s.b' (drop (b.position + length xs) (data_of b)) s.valid (s.endian_is ∙ w.endian_is)
        front in
    (
      w.b',
      w.succeeds,
      s.b',
      s.succeeds,
      p.b',
      p.succeeds,
      omega (arith, p.position_is, s.position_is, w.position_is),
      p.data_is ∙ kept,
    )
