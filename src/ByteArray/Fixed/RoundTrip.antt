-- ===== src/ByteArray/Fixed/RoundTrip.antt =====
-- The fixed-width integers of src/base/bytearray.h come back as they were written, in both byte
-- orders.
use agent_link_coro.Prelude.{
  ℕ, zero, suc, ◌+◌, ◌*◌, ◌/◌, ◌%◌, ◌^◌, ◌<◌, ◌≡◌, refl, sym, ap, ◌∙◌, subst, Bool, true, false,
  List, [], ◌∷◌, ◌++◌, arith, length, All, length-append, if◌then◌else◌, reverse, not,
}
use agent_link_coro.Prelude.Words.{IsByte}
use mathlib.Core.List.{reverse-cons, reverse-reverse}
use native.Mathlib.Nat.{pow-suc}
use agent_link_coro.Outcome.{ok}
use agent_link_coro.ByteArray.Store.{ByteArray, read}
use agent_link_coro.ByteArray.Store.Invariant.{IsValid, readable}
use agent_link_coro.ByteArray.Store.Grow.{HasRoom}
use agent_link_coro.ByteArray.Store.Write.{Wrote}
use agent_link_coro.ByteArray.Store.View.{write-Wrote}
use agent_link_coro.ByteArray.Sequence.{Parsed, read-Parsed, RoundTrips, Wrote-RoundTrips}
use agent_link_coro.ByteArray.Fixed.{
  memory_of, from_memory, byteswap, write_fixed, read_fixed, read_fuint8,
}

pub length-memory_of : (n v : ℕ) → length (memory_of n v) ≡ n
unfolding memory_of
length-memory_of zero v = refl
length-memory_of (suc n) v = ap suc (length-memory_of n (v / 256))

memory_of-IsByte : (n v : ℕ) → All IsByte (memory_of n v)
unfolding memory_of
memory_of-IsByte zero v = tt
memory_of-IsByte (suc n) v = (omega arith, memory_of-IsByte n (v / 256))

-- The memory of a number that fits gives the number, and the number of a memory the memory.
pub from_memory-memory_of : (n v : ℕ) → v < 256 ^ n → from_memory (memory_of n v) ≡ v
unfolding memory_of from_memory
from_memory-memory_of zero v h = omega arith
from_memory-memory_of (suc n) v h =
    omega (arith, from_memory-memory_of n (v / 256) (omega (arith, pow-suc 256 n)))

memory_of-from_memory : (xs : List ℕ) → All IsByte xs → memory_of (length xs) (from_memory xs) ≡ xs
unfolding memory_of from_memory
memory_of-from_memory [] h = refl
memory_of-from_memory (x ∷ xs) (h, hs) =
    let low : (x + 256 * from_memory xs) % 256 ≡ x = omega arith in
    let high : (x + 256 * from_memory xs) / 256 ≡ from_memory xs = omega arith in
    rw (low, high) (ap (◌∷◌ x) (memory_of-from_memory xs hs))

All-append : (xs ys : List ℕ) → All IsByte xs → All IsByte ys → All IsByte (xs ++ ys)
All-append [] ys h k = k
All-append (x ∷ xs) ys (h, hs) k = (h, All-append xs ys hs k)

All-reverse : (xs : List ℕ) → All IsByte xs → All IsByte (reverse xs)
All-reverse [] h = h
All-reverse (x ∷ xs) (h, hs) =
    rw reverse-cons (All-append (reverse xs) (x ∷ []) (All-reverse xs hs) (h, tt))

length-reverse : (xs : List ℕ) → length (reverse xs) ≡ length xs
length-reverse [] = refl
length-reverse (x ∷ xs) =
    omega
      (arith, ap length (reverse-cons x xs), length-append (reverse xs) (x ∷ []), length-reverse xs)

-- The bytes that an integer takes in a buffer: lowest first, or highest first.
abbrev pub image : Bool → ℕ → ℕ → List ℕ
image little n v = if little then memory_of n v else reverse (memory_of n v)

pub length-image : (little : Bool) (n v : ℕ) → length (image little n v) ≡ n
length-image true n v = length-memory_of n v
length-image false n v = length-reverse (memory_of n v) ∙ length-memory_of n v

pub memory_of-byteswap : (n v : ℕ) → memory_of n (byteswap n v) ≡ reverse (memory_of n v)
unfolding byteswap
memory_of-byteswap n v =
    ap (λ k. memory_of k (from_memory (reverse (memory_of n v)))) (sym (length-image false n v))
    ∙ memory_of-from_memory (reverse (memory_of n v))
        (All-reverse (memory_of n v) (memory_of-IsByte n v))

-- byteswap is its own inverse on the integers of its width.
pub byteswap-byteswap : (n v : ℕ) → v < 256 ^ n → byteswap n (byteswap n v) ≡ v
unfolding byteswap
byteswap-byteswap n v h =
    ap (λ z. from_memory (reverse z)) (memory_of-byteswap n v)
    ∙ ap from_memory (reverse-reverse (memory_of n v))
    ∙ from_memory-memory_of n v h

stored_image :
    (little : Bool) (n v : ℕ)
    → memory_of n (if not little then byteswap n v else v) ≡ image little n v
stored_image true n v = refl
stored_image false n v = memory_of-byteswap n v

pub loaded_image :
    (little : Bool) (n v : ℕ)
    → v < 256 ^ n
    → (if little
        then from_memory (image little n v)
        else byteswap n (from_memory (image little n v)))
      ≡ v
unfolding byteswap
loaded_image true n v h = from_memory-memory_of n v h
loaded_image false n v h = byteswap-byteswap n v h

-- Every writer of a fixed width puts down the image of its value in the buffer's byte order.
pub write_fixed-Wrote :
    (n : ℕ) (b : ByteArray) (v : ℕ)
    → IsValid b
    → 0 < n
    → HasRoom b n
    → Wrote b (image b.little_endian n v) (write_fixed n b v)
unfolding write_fixed
write_fixed-Wrote n b v valid pos room =
    let len = length-image b.little_endian n v in
    rw (stored_image b.little_endian n v)
      (write-Wrote b (image b.little_endian n v) valid (omega arith) (omega arith))

-- Every reader of a fixed width takes the image of a value for that value.
pub read_fixed-Parsed :
    (n : ℕ) (b : ByteArray) (v : ℕ) (ys : List ℕ)
    → IsValid b
    → 0 < n
    → v < 256 ^ n
    → readable b ≡ image b.little_endian n v ++ ys
    → Parsed b n v (read_fixed n b)
unfolding read_fixed
read_fixed-Parsed n b v ys valid pos fits e =
    let xs = image b.little_endian n v in
    let len = length-image b.little_endian n v in
    let p = subst (λ k. Parsed b k xs (read b k)) len (read-Parsed b xs ys valid (omega arith) e) in
    rw p.succeeds (record {
      b' = p.b';
      succeeds =
          ap (λ little. ok ((if little then from_memory xs else byteswap n (from_memory xs)), p.b'))
            p.endian_is
          ∙ ap (λ z. ok (z, p.b')) (loaded_image b.little_endian n v fits);
      valid = p.valid;
      position_is = p.position_is;
      endian_is = p.endian_is;
      capacity_is = p.capacity_is;
      data_is = p.data_is;
    })

-- On a well formed buffer with room in the address space, an integer that fits a fixed width reads
-- back as it was written, in either byte order: writeFuint16, writeFuint32 and writeFuint64 and their
-- signed kin with the readers of the same width.
pub fixed_round_trip :
    (n : ℕ) (b : ByteArray) (v : ℕ)
    → IsValid b
    → 0 < n
    → v < 256 ^ n
    → HasRoom b n
    → RoundTrips b (write_fixed n b v) (read_fixed n) v
fixed_round_trip n b v valid pos fits room =
    Wrote-RoundTrips b (image b.little_endian n v) (write_fixed n b v) (read_fixed n) v valid
      (write_fixed-Wrote n b v valid pos room)
      λ b2 ys valid2 same e.
        subst (λ k. Parsed b2 k v (read_fixed n b2)) (sym (length-image b.little_endian n v))
          (read_fixed-Parsed n b2 v ys valid2 pos fits
            (e ∙ ap (λ little. image little n v ++ ys) (sym same)))

-- One byte, as the variable-length readers take it.
pub read_fuint8-Parsed :
    (b : ByteArray) (x : ℕ) (ys : List ℕ)
    → IsValid b
    → readable b ≡ x ∷ ys
    → Parsed b 1 x (read_fuint8 b)
unfolding read_fuint8 from_memory
read_fuint8-Parsed b x ys valid e =
    let p = read-Parsed b (x ∷ []) ys valid (omega arith) e in
    rw p.succeeds (record {
      b' = p.b';
      succeeds = ground arith;
      valid = p.valid;
      position_is = p.position_is;
      endian_is = p.endian_is;
      capacity_is = p.capacity_is;
      data_is = p.data_is;
    })
