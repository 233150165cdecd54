-- ===== src/ByteArray/Varint/Zigzag.antt =====
-- The zigzag code of src/base/bytearray.h, and the signed variable-length integers over it.
use Prim.Native.Nat.{bit_and}
use agent_link_coro.Prelude.{
  ℕ, ◌+◌, ◌-◌, ◌*◌, ◌/◌, ◌%◌, ◌^◌, ◌≤◌, ◌<◌, ◌≡◌, ap, ◌∙◌, arith, ltb, inl, inr, Bool-cases, lt→ltb,
  le→ltb, ltb→lt, ltb→le,
}
use agent_link_coro.Prelude.Bits.{bit_and_mask, bit_xor_ones, bit_xor-zero}
use agent_link_coro.Outcome.{ok}
use agent_link_coro.ByteArray.Store.{ByteArray}
use agent_link_coro.ByteArray.Store.Invariant.{IsValid}
use agent_link_coro.ByteArray.Store.Grow.{HasRoom}
use agent_link_coro.ByteArray.Sequence.{RoundTrips, Wrote-RoundTrips}
use agent_link_coro.ByteArray.Varint.{
  encode_zigzag, decode_zigzag, write_int32, write_int64, read_int32, read_int64,
}
use agent_link_coro.ByteArray.Varint.Groups.{groups}
use agent_link_coro.ByteArray.Varint.RoundTrip.{
  write_uint32-Wrote, write_uint64-Wrote, read_uint32-Parsed, read_uint64-Parsed,
}

-- The code of a 32-bit pattern: 0, 2, 4, ... for 0, 1, 2, ... and 1, 3, 5, ... for -1, -2, -3, ...
pub encode_zigzag_32 :
    (v : ℕ)
    → v < 2 ^ 32
    → (v < 2 ^ 31 → encode_zigzag 32 v ≡ 2 * v)
      × (2 ^ 31 ≤ v → encode_zigzag 32 v ≡ 2 * (2 ^ 32 - 1 - v) + 1)
unfolding encode_zigzag
encode_zigzag_32 v h = (
  (λ small. rw (lt→ltb v (2 ^ 31) small) (omega arith)),
  λ large. rw (le→ltb v (2 ^ 31) large) (omega arith),
)

decode_zigzag_32 :
    (c : ℕ)
    → c < 2 ^ 32
    → (c % 2 ≡ 0 → decode_zigzag 32 c ≡ c / 2)
      × (c % 2 ≡ 1 → decode_zigzag 32 c ≡ 2 ^ 32 - 1 - c / 2)
unfolding decode_zigzag
decode_zigzag_32 c h =
    let low : bit_and c 1 ≡ c % 2 = bit_and_mask 1 c in
    (
      (λ even. rw (low, even) (bit_xor-zero (c / 2))),
      λ odd. rw (low, odd) (bit_xor_ones 32 (c / 2) (omega arith)),
    )

-- Decoding undoes encoding on every 32-bit pattern, so the code tells all of them apart.
pub decode_zigzag-encode_zigzag_32 :
    (v : ℕ) → v < 2 ^ 32 → decode_zigzag 32 (encode_zigzag 32 v) ≡ v
decode_zigzag-encode_zigzag_32 v h =
    let (small, large) = encode_zigzag_32 v h in
    elim (Bool-cases (ltb v (2 ^ 31))) [
      | inl t ↦
          let e = small (ltb→lt v (2 ^ 31) t) in
          (decode_zigzag_32 (encode_zigzag 32 v) (omega (arith, ltb→lt v (2 ^ 31) t))).0
            (omega arith)
          ∙ omega arith
      | inr t ↦
          let le = ltb→le v (2 ^ 31) t in
          let e = large le in
          (decode_zigzag_32 (encode_zigzag 32 v) (omega arith)).1 (omega arith) ∙ omega arith
    ]

encode_zigzag_32-lt : (v : ℕ) → v < 2 ^ 32 → encode_zigzag 32 v < 2 ^ 32
unfolding encode_zigzag
encode_zigzag_32-lt v h = ground arith

-- On a well formed buffer with room in the address space, every bit pattern of an int32_t, of a
-- negative integer too, written by writeInt32 reads back by readInt32.
pub int32_round_trip :
    (b : ByteArray) (v : ℕ)
    → IsValid b
    → v < 2 ^ 32
    → HasRoom b 5
    → RoundTrips b (write_int32 b v) read_int32 v
unfolding write_int32 read_int32
int32_round_trip b v valid fits room =
    let code = encode_zigzag 32 v in
    let code_fits = encode_zigzag_32-lt v fits in
    Wrote-RoundTrips b (groups 4 code) (write_int32 b v) read_int32 v valid
      (write_uint32-Wrote b code valid code_fits room)
      λ b2 ys valid2 same e.
        let p = read_uint32-Parsed b2 code ys valid2 code_fits e in
        rw p.succeeds (record {
          b' = p.b';
          succeeds = ap (λ z. ok (z, p.b')) (decode_zigzag-encode_zigzag_32 v fits);
          valid = p.valid;
          position_is = p.position_is;
          endian_is = p.endian_is;
          capacity_is = p.capacity_is;
          data_is = p.data_is;
        })

-- The code of a 64-bit pattern: 0, 2, 4, ... for 0, 1, 2, ... and 1, 3, 5, ... for -1, -2, -3, ...
pub encode_zigzag_64 :
    (v : ℕ)
    → v < 2 ^ 64
    → (v < 2 ^ 63 → encode_zigzag 64 v ≡ 2 * v)
      × (2 ^ 63 ≤ v → encode_zigzag 64 v ≡ 2 * (2 ^ 64 - 1 - v) + 1)
unfolding encode_zigzag
encode_zigzag_64 v h = (
  (λ small. rw (lt→ltb v (2 ^ 63) small) (omega arith)),
  λ large. rw (le→ltb v (2 ^ 63) large) (omega arith),
)

decode_zigzag_64 :
    (c : ℕ)
    → c < 2 ^ 64
    → (c % 2 ≡ 0 → decode_zigzag 64 c ≡ c / 2)
      × (c % 2 ≡ 1 → decode_zigzag 64 c ≡ 2 ^ 64 - 1 - c / 2)
unfolding decode_zigzag
decode_zigzag_64 c h =
    let low : bit_and c 1 ≡ c % 2 = bit_and_mask 1 c in
    (
      (λ even. rw (low, even) (bit_xor-zero (c / 2))),
      λ odd. rw (low, odd) (bit_xor_ones 64 (c / 2) (omega arith)),
    )

-- Decoding undoes encoding on every 64-bit pattern, so the code tells all of them apart.
pub decode_zigzag-encode_zigzag_64 :
    (v : ℕ) → v < 2 ^ 64 → decode_zigzag 64 (encode_zigzag 64 v) ≡ v
decode_zigzag-encode_zigzag_64 v h =
    let (small, large) = encode_zigzag_64 v h in
    elim (Bool-cases (ltb v (2 ^ 63))) [
      | inl t ↦
          let e = small (ltb→lt v (2 ^ 63) t) in
          (decode_zigzag_64 (encode_zigzag 64 v) (omega (arith, ltb→lt v (2 ^ 63) t))).0
            (omega arith)
          ∙ omega arith
      | inr t ↦
          let le = ltb→le v (2 ^ 63) t in
          let e = large le in
          (decode_zigzag_64 (encode_zigzag 64 v) (omega arith)).1 (omega arith) ∙ omega arith
    ]

encode_zigzag_64-lt : (v : ℕ) → v < 2 ^ 64 → encode_zigzag 64 v < 2 ^ 64
unfolding encode_zigzag
encode_zigzag_64-lt v h = ground arith

-- On a well formed buffer with room in the address space, every bit pattern of an int64_t, of a
-- negative integer too, written by writeInt64 reads back by readInt64.
pub int64_round_trip :
    (b : ByteArray) (v : ℕ)
    → IsValid b
    → v < 2 ^ 64
    → HasRoom b 10
    → RoundTrips b (write_int64 b v) read_int64 v
unfolding write_int64 read_int64
int64_round_trip b v valid fits room =
    let code = encode_zigzag 64 v in
    let code_fits = encode_zigzag_64-lt v fits in
    Wrote-RoundTrips b (groups 9 code) (write_int64 b v) read_int64 v valid
      (write_uint64-Wrote b code valid code_fits room)
      λ b2 ys valid2 same e.
        let p = read_uint64-Parsed b2 code ys valid2 code_fits e in
        rw p.succeeds (record {
          b' = p.b';
          succeeds = ap (λ z. ok (z, p.b')) (decode_zigzag-encode_zigzag_64 v fits);
          valid = p.valid;
          position_is = p.position_is;
          endian_is = p.endian_is;
          capacity_is = p.capacity_is;
          data_is = p.data_is;
        })
