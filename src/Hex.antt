-- ===== src/Hex.antt =====
-- The hexadecimal strings of src/base/util/hash_util.cc. Characters are their ASCII codes.
pub mod RoundTrip
use Prim.Native.Nat.{bit_and, bit_or}
use agent_link_coro.Prelude.{
  ℕ, ◌+◌, ◌-◌, ◌*◌, ◌/◌, ◌%◌, ◌&&◌, Bool, List, [], ◌∷◌, ltb, leb, ◌==◌, if◌then◌else◌, length,
}
use agent_link_coro.Outcome.{Outcome, ok, throw, fault, invalid_argument, ◌>>=◌}

-- `(c > 9) ? c + 'a' - 10 : c + '0'`
unfoldable pub digit_of : ℕ → ℕ
digit_of c = if ltb 9 c then c + 97 - 10 else c + 48

-- hexstring_from_data
unfoldable pub hexstring_from_data : List ℕ → List ℕ
unfolding digit_of
hexstring_from_data [] = []
hexstring_from_data (b ∷ buf) =
    digit_of (bit_and (b / 16) 0xf) ∷ digit_of (bit_and b 0xf) ∷ hexstring_from_data buf

abbrev is_between : ℕ → ℕ → ℕ → Bool
is_between lo hi c = leb lo c && leb c hi

-- The switch on a character.
unfoldable pub value_of : ℕ → Outcome ℕ
value_of c =
    if is_between 97 102 c
    then ok (c - 97 + 10)
    else if is_between 65 70 c
    then ok (c - 65 + 10)
    else if is_between 48 57 c
    then ok (c - 48)
    else throw invalid_argument

-- The loop of data_from_hexstring. A single last character is not met, since the length is even.
unfoldable pub decode_pairs : List ℕ → Outcome (List ℕ)
unfolding value_of
decode_pairs [] = ok []
decode_pairs (c ∷ []) = fault
decode_pairs (c ∷ d ∷ rest) = do
  high ← value_of c
  low ← value_of d
  bytes ← decode_pairs rest
  ok (bit_or (high * 16 % 256) low ∷ bytes)

-- data_from_hexstring
unfoldable pub data_from_hexstring : List ℕ → Outcome (List ℕ)
unfolding decode_pairs
data_from_hexstring s = if length s % 2 == 0 then decode_pairs s else throw invalid_argument
