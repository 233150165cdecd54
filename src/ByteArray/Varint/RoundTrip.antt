-- ===== src/ByteArray/Varint/RoundTrip.antt =====
-- The variable-length integers of src/base/bytearray.h read back as they were written.
use Prim.Native.Nat.{bit_and, bit_or}
use agent_link_coro.Prelude.{
  ℕ, zero, suc, ◌+◌, ◌*◌, ◌/◌, ◌%◌, ◌^◌, ◌<◌, ◌≡◌, refl, ap, ◌∙◌, subst, List, [], ◌∷◌, ◌++◌, arith,
  length, leb, if◌then◌else◌, inl, inr, Bool-cases, lt→ltb, le→ltb, leb→lt,
}
use agent_link_coro.Prelude.Words.{IsU32, IsU64}
use agent_link_coro.Prelude.Bits.{bit_or_fields}
use native.Mathlib.Nat.{pow-suc, mod-eq_of_lt, div-add-mod}
use native.Mathlib.Numerals.{towards_suc}
use agent_link_coro.Outcome.{Outcome, ◌>>=◌}
use agent_link_coro.ByteArray.Store.{ByteArray}
use agent_link_coro.ByteArray.Store.Invariant.{IsValid, readable}
use agent_link_coro.ByteArray.Store.Grow.{HasRoom}
use agent_link_coro.ByteArray.Store.Write.{Wrote}
use agent_link_coro.ByteArray.Store.View.{write-Wrote}
use agent_link_coro.ByteArray.Sequence.{
  Parsed, Parsed->>=, Parsed-readable, RoundTrips, Wrote-RoundTrips,
}
use agent_link_coro.ByteArray.Fixed.{read_fuint8}
use agent_link_coro.ByteArray.Fixed.RoundTrip.{read_fuint8-Parsed}
use agent_link_coro.ByteArray.Varint.{
  read_groups, write_uint32, write_uint64, read_uint32, read_uint64,
}
use agent_link_coro.ByteArray.Varint.Groups.{groups, low_group, tmp_bytes-groups, length-groups}

shift_seven : (i : ℕ) → 2 ^ (i + 7) ≡ 128 * 2 ^ i
shift_seven i = simp towards_suc (omega arith)

-- The lowest group of `v` and the rest, both shifted by `i`.
split_group : (v i : ℕ) → v * 2 ^ i ≡ v % 128 * 2 ^ i + v / 128 * 2 ^ (i + 7)
split_group v i = omega (
  arith,
  ap (λ (t : ℕ). t * 2 ^ i) (div-add-mod v 128),
  ap (λ (t : ℕ). v / 128 * t) (shift_seven i),
)

-- `result |= g << i` adds the group where the result is below bit `i` and the sum fits.
add_group :
    (w acc g i : ℕ)
    → acc < 2 ^ i
    → acc + g * 2 ^ i < 2 ^ w
    → bit_or acc (g * 2 ^ i % 2 ^ w) ≡ acc + g * 2 ^ i
add_group w acc g i low fits =
    let inner : g * 2 ^ i < 2 ^ w = omega arith in
    rw (mod-eq_of_lt inner) (bit_or_fields i acc g low)

group_fits : (acc g p : ℕ) → acc < p → g < 128 → acc + g * p < 128 * p
group_fits acc g p h k = grind arith

next-Parsed :
    (b : ByteArray) {x c : ℕ} (k : ℕ) (m : Outcome (ℕ × ByteArray))
    (f : ℕ × ByteArray → Outcome (ℕ × ByteArray))
    → (p : Parsed b 1 x m) → Parsed p.b' k c (f (x, p.b'))
    → Parsed b (suc k) c (m >>= f)
next-Parsed b {x} {c} k m f p q = subst (λ n. Parsed b n c (m >>= f)) one (Parsed->>= b 1 k m f p q)
  where
    one : 1 + k ≡ suc k
    one = omega arith

abbrev ReadsGroups : ℕ → ℕ → Type 0
ReadsGroups w k =
    (v acc i : ℕ) (b : ByteArray) (ys : List ℕ)
    → IsValid b
    → v < 128 ^ suc k
    → acc < 2 ^ i
    → acc + v * 2 ^ i < 2 ^ w
    → readable b ≡ groups k v ++ ys
    → Parsed b (length (groups k v)) (acc + v * 2 ^ i) (read_groups w (suc k) i acc b)

last_group :
    (w k v acc i : ℕ) (b : ByteArray) (ys : List ℕ)
    → IsValid b
    → v < 128
    → acc < 2 ^ i
    → acc + v * 2 ^ i < 2 ^ w
    → readable b ≡ v ∷ ys
    → Parsed b 1 (acc + v * 2 ^ i) (read_groups w (suc k) i acc b)
unfolding read_groups
last_group w k v acc i b ys valid h low fits e =
    let p = read_fuint8-Parsed b v ys valid e in
    rw (p.succeeds, lt→ltb v 0x80 h, add_group w acc v i low fits)
      (record {
        b' = p.b';
        succeeds = refl;
        valid = p.valid;
        position_is = p.position_is;
        endian_is = p.endian_is;
        capacity_is = p.capacity_is;
        data_is = p.data_is;
      })

inner_group :
    (w k g acc i n c : ℕ) (b : ByteArray) (ys : List ℕ)
    → IsValid b
    → g < 128
    → acc < 2 ^ i
    → acc + g * 2 ^ i < 2 ^ w
    → readable b ≡ (g + 128) ∷ ys
    → ((b' : ByteArray)
        → IsValid b'
        → readable b' ≡ ys
        → Parsed b' n c (read_groups w k (i + 7) (acc + g * 2 ^ i) b'))
    → Parsed b (suc n) c (read_groups w (suc k) i acc b)
unfolding read_groups
inner_group w k g acc i n c b ys valid h low fits e rest =
    let p = read_fuint8-Parsed b (g + 128) ys valid e in
    let mark : bit_and (g + 128) 0x7f ≡ g = low_group (g + 128) ∙ omega arith in
    next-Parsed b n (read_fuint8 b) _ p (
      rw (le→ltb (g + 128) 0x80 (omega arith), mark, add_group w acc g i low fits)
        (rest p.b' p.valid (Parsed-readable b ((g + 128) ∷ []) ys e p)))

read_groups-groups : (w k : ℕ) → ReadsGroups w k
read_groups-groups w zero v acc i b ys valid h low fits e =
    last_group w zero v acc i b ys valid (omega arith) low fits e
read_groups-groups w (suc k) v acc i b ys valid h low fits e = elim (Bool-cases (leb 128 v)) [
  | inl more ↦
      let split = split_group v i in
      let e' : readable b ≡ (v % 128 + 128) ∷ (groups k (v / 128) ++ ys) =
        e ∙ ap (λ t. (if t then (v % 128 + 128) ∷ groups k (v / 128) else v ∷ []) ++ ys) more in
      rw more (
        inner_group w (suc k) (v % 128) acc i (length (groups k (v / 128))) (acc + v * 2 ^ i) b
          (groups k (v / 128) ++ ys) valid (omega arith) low (omega arith) e'
          (λ b' valid' front.
            subst
              (λ c.
                Parsed b' (length (groups k (v / 128))) c
                  (read_groups w (suc k) (i + 7) (acc + v % 128 * 2 ^ i) b'))
              (omega arith)
              (read_groups-groups w k (v / 128) (acc + v % 128 * 2 ^ i) (i + 7) b' ys valid'
                (omega (arith, pow-suc 128 (suc k)))
                (rw shift_seven (group_fits acc (v % 128) (2 ^ i) low (omega arith))) (omega arith)
                front)))
  | inr last ↦ rw last (
      last_group w (suc k) v acc i b ys valid (leb→lt 128 v last) low fits
        (e ∙ ap (λ t. (if t then (v % 128 + 128) ∷ groups k (v / 128) else v ∷ []) ++ ys) last))
]

-- An unsigned 32-bit integer goes in as 1 to 5 groups and comes out of them.
pub write_uint32-Wrote :
    (b : ByteArray) (v : ℕ)
    → IsValid b
    → IsU32 v
    → HasRoom b 5
    → Wrote b (groups 4 v) (write_uint32 b v)
unfolding write_uint32
write_uint32-Wrote b v valid fits room = rw (tmp_bytes-groups 4 v (omega arith)) (
    write-Wrote b (groups 4 v) valid (omega (arith, length-groups 4 v))
      (omega (arith, length-groups 4 v)))

pub write_uint64-Wrote :
    (b : ByteArray) (v : ℕ)
    → IsValid b
    → IsU64 v
    → HasRoom b 10
    → Wrote b (groups 9 v) (write_uint64 b v)
unfolding write_uint64
write_uint64-Wrote b v valid fits room = rw (tmp_bytes-groups 9 v (omega arith)) (
    write-Wrote b (groups 9 v) valid (omega (arith, length-groups 9 v))
      (omega (arith, length-groups 9 v)))

one_times : (v : ℕ) → 0 + v * 2 ^ 0 ≡ v
one_times v = omega arith

pub read_uint32-Parsed :
    (b : ByteArray) (v : ℕ) (ys : List ℕ)
    → IsValid b
    → IsU32 v
    → readable b ≡ groups 4 v ++ ys
    → Parsed b (length (groups 4 v)) v (read_uint32 b)
unfolding read_uint32
read_uint32-Parsed b v ys valid fits e =
    subst (λ c. Parsed b (length (groups 4 v)) c (read_groups 32 5 0 0 b)) (one_times v)
      (read_groups-groups 32 4 v 0 0 b ys valid (omega arith) (omega arith) (omega arith) e)

pub read_uint64-Parsed :
    (b : ByteArray) (v : ℕ) (ys : List ℕ)
    → IsValid b
    → IsU64 v
    → readable b ≡ groups 9 v ++ ys
    → Parsed b (length (groups 9 v)) v (read_uint64 b)
unfolding read_uint64
read_uint64-Parsed b v ys valid fits e =
    subst (λ c. Parsed b (length (groups 9 v)) c (read_groups 64 10 0 0 b)) (one_times v)
      (read_groups-groups 64 9 v 0 0 b ys valid (omega arith) (omega arith) (omega arith) e)

-- On a well formed buffer with room in the address space, writeUint32 puts any uint32_t down, in the
-- 5 bytes of `tmp` at most, and readUint32 reads it back.
pub uint32_round_trip :
    (b : ByteArray) (v : ℕ)
    → IsValid b
    → IsU32 v
    → HasRoom b 5
    → RoundTrips b (write_uint32 b v) read_uint32 v
uint32_round_trip b v valid fits room =
    Wrote-RoundTrips b (groups 4 v) (write_uint32 b v) read_uint32 v valid
      (write_uint32-Wrote b v valid fits room)
      λ b2 ys valid2 same e. read_uint32-Parsed b2 v ys valid2 fits e

-- On a well formed buffer with room in the address space, writeUint64 puts any uint64_t down, in the
-- 10 bytes of `tmp` at most, and readUint64 reads it back.
pub uint64_round_trip :
    (b : ByteArray) (v : ℕ)
    → IsValid b
    → IsU64 v
    → HasRoom b 10
    → RoundTrips b (write_uint64 b v) read_uint64 v
uint64_round_trip b v valid fits room =
    Wrote-RoundTrips b (groups 9 v) (write_uint64 b v) read_uint64 v valid
      (write_uint64-Wrote b v valid fits room)
      λ b2 ys valid2 same e. read_uint64-Parsed b2 v ys valid2 fits e
