-- ===== src/Base64/Examples.antt =====
-- Runs of base64encode and base64decode of src/base/util/hash_util.cc.
use agent_link_coro.Prelude.{◌*◌, ◌/◌, ◌≤◌, ◌≡◌, refl, true, false, [], ◌∷◌, arith, length}
use agent_link_coro.Base64.{
  base64encode, base64decode, char_at, decode_loop, decode_group, value_of,
}
use agent_link_coro.Base64.RoundTrip.{base64_round_trip}
use agent_link_coro.Base64.Room.{length-base64decode}

-- "Ma" is "TWE=".
encode_two : base64encode false (77 ∷ 97 ∷ []) ≡ 84 ∷ 87 ∷ 69 ∷ 61 ∷ []
unfolding base64encode char_at
encode_two = refl

-- A character outside of the alphabet, and a group that is cut off, give nothing.
decode_invalid : base64decode false (84 ∷ 87 ∷ 33 ∷ 61 ∷ []) ≡ []
unfolding base64decode decode_loop decode_group value_of
decode_invalid = refl

decode_cut_off : base64decode false (84 ∷ 87 ∷ 69 ∷ []) ≡ []
unfolding base64decode decode_loop decode_group value_of
decode_cut_off = refl

base64_round_trip_example :
    base64decode true (base64encode true (255 ∷ 239 ∷ 190 ∷ 7 ∷ [])) ≡ 255 ∷ 239 ∷ 190 ∷ 7 ∷ []
base64_round_trip_example =
    base64_round_trip true (255 ∷ 239 ∷ 190 ∷ 7 ∷ [])
      (omega arith, (omega arith, (omega arith, (omega arith, tt))))

length-base64decode_example : length (base64decode false (84 ∷ 87 ∷ 69 ∷ 61 ∷ [])) ≤ 4 * 3 / 4
length-base64decode_example = length-base64decode false (84 ∷ 87 ∷ 69 ∷ 61 ∷ [])
