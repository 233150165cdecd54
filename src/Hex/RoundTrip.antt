-- ===== src/Hex/RoundTrip.antt =====
-- Hexadecimal strings of src/base/util/hash_util.cc read back.
use Prim.Native.Nat.{bit_and, bit_or}
use agent_link_coro.Prelude.{
  ℕ, ◌*◌, ◌/◌, ◌%◌, ◌^◌, ◌<◌, ◌≡◌, refl, ap, ◌∙◌, List, [], ◌∷◌, arith, length, All,
}
use agent_link_coro.Prelude.Words.{IsByte}
use agent_link_coro.Prelude.Bits.{bit_and_mask, bit_or_comm, bit_or_fields}
use agent_link_coro.Outcome.{ok}
use agent_link_coro.Hex.{digit_of, hexstring_from_data, value_of, decode_pairs, data_from_hexstring}

value_of-digit_of : (c : ℕ) → c < 16 → value_of (digit_of c) ≡ ok c
unfolding value_of digit_of
value_of-digit_of c h = ground arith

length-hexstring_from_data : (xs : List ℕ) → length (hexstring_from_data xs) % 2 ≡ 0
unfolding hexstring_from_data
length-hexstring_from_data [] = refl
length-hexstring_from_data (x ∷ xs) = omega (arith, length-hexstring_from_data xs)

joined_byte : (b : ℕ) → IsByte b → bit_or (bit_and (b / 16) 0xf * 16 % 256) (bit_and b 0xf) ≡ b
joined_byte b h =
    let high : bit_and (b / 16) 0xf * 16 % 256 ≡ b / 16 * 2 ^ 4 =
      omega (arith, bit_and_mask 4 (b / 16)) in
    let low : bit_and b 0xf ≡ b % 16 = bit_and_mask 4 b in
    rw (high, low)
      (bit_or_comm (b / 16 * 2 ^ 4) (b % 16)
        ∙ bit_or_fields 4 (b % 16) (b / 16) (omega arith)
        ∙ omega arith)

nibble : (b : ℕ) → bit_and b 0xf < 16
nibble b = omega (arith, bit_and_mask 4 b)

decode-hexstring : (xs : List ℕ) → All IsByte xs → decode_pairs (hexstring_from_data xs) ≡ ok xs
unfolding decode_pairs hexstring_from_data
decode-hexstring [] h = refl
decode-hexstring (x ∷ xs) (h, hs) =
    rw
      (
        value_of-digit_of (bit_and (x / 16) 0xf) (nibble (x / 16)),
        value_of-digit_of (bit_and x 0xf) (nibble x),
        decode-hexstring xs hs,
      )
      (ap (λ z. ok (z ∷ xs)) (joined_byte x h))

-- Every sequence of bytes, written as a hexadecimal string, reads back.
pub hex_round_trip :
    (xs : List ℕ) → All IsByte xs → data_from_hexstring (hexstring_from_data xs) ≡ ok xs
unfolding data_from_hexstring
hex_round_trip xs h = rw (length-hexstring_from_data xs) (decode-hexstring xs h)
