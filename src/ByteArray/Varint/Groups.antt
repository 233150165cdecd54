-- ===== src/ByteArray/Varint/Groups.antt =====
-- What the variable-length writers of src/base/bytearray.h put down, in plain arithmetic.
use Prim.Native.Nat.{bit_and, bit_or}
use agent_link_coro.Prelude.{
  ℕ, zero, suc, ◌+◌, ◌/◌, ◌%◌, ◌^◌, ◌≤◌, ◌<◌, ◌≡◌, ap, List, [], ◌∷◌, arith, length, leb,
  if◌then◌else◌, inl, inr, Bool-cases, lt→leb, leb→lt,
}
use agent_link_coro.Prelude.Bits.{bit_or_fields, bit_and_mask}
use native.Mathlib.Nat.{pow-suc}
use agent_link_coro.Outcome.{ok}
use agent_link_coro.ByteArray.Varint.{tmp_bytes}

-- The groups of seven bits of `v`, the lowest first, for `v` below 128 ^ (k + 1); all but the last
-- carry the mark 128.
abbrev pub groups : ℕ → ℕ → List ℕ
groups zero v = v ∷ []
groups (suc k) v = if leb 128 v then (v % 128 + 128) ∷ groups k (v / 128) else v ∷ []

pub low_group : (v : ℕ) → bit_and v 0x7f ≡ v % 128
low_group v = bit_and_mask 7 v

pub marked_group : (g : ℕ) → g < 128 → bit_or g 0x80 ≡ g + 128
marked_group g h = bit_or_fields 7 g 1 h

-- The loop of the writers stays inside `tmp` and stores the groups.
pub tmp_bytes-groups : (k v : ℕ) → v < 128 ^ suc k → tmp_bytes (suc k) v ≡ ok (groups k v)
unfolding tmp_bytes
tmp_bytes-groups zero v h = rw (lt→leb 0x80 v (omega arith)) (ap (λ z. ok (z ∷ [])) (omega arith))
tmp_bytes-groups (suc k) v h = elim (Bool-cases (leb 128 v)) [
  | inl more ↦ rw (
    more,
    tmp_bytes-groups k (v / 128) (omega (arith, pow-suc 128 (suc k))),
    low_group v,
    marked_group (v % 128) (omega arith),
  )
  | inr last ↦ let lt = leb→lt 128 v last in rw last (ap (λ z. ok (z ∷ [])) (omega arith))
]

pub length-groups : (k v : ℕ) → (1 ≤ length (groups k v)) × (length (groups k v) ≤ k + 1)
length-groups zero v = omega arith
length-groups (suc k) v = ground (arith, length-groups k (v / 128))
