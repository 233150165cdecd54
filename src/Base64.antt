-- ===== src/Base64.antt =====
-- base64encode and base64decode of src/base/util/hash_util.cc, on lists of character codes. `url` chooses
-- the alphabet with - and _ in place of + and /. `|` joins bits onto low bits that are 0, and is a sum.
pub mod RoundTrip
pub mod Room
mod Examples
use agent_link_coro.Prelude.{
  ℕ, zero, suc, ◌+◌, ◌-◌, ◌*◌, ◌/◌, ◌%◌, ◌^◌, Bool, true, false, not, ◌&&◌, List, [], ◌∷◌, ◌++◌,
  Option, none, some, ltb, leb, ◌==◌, if◌then◌else◌, length,
}

-- c62 and c63
abbrev pub c62 : Bool → ℕ
c62 url = if url then 45 else 43

abbrev pub c63 : Bool → ℕ
c63 url = if url then 95 else 47

-- base64[v]: A to Z, a to z, 0 to 9, and the last two.
unfoldable pub char_at : Bool → ℕ → ℕ
char_at url v =
    if ltb v 26
    then 65 + v
    else if ltb v 52
    then 71 + v
    else if ltb v 62
    then v - 4
    else if v == 62
    then c62 url
    else c63 url

-- The four characters of three bytes.
unfoldable pub encode_three : Bool → ℕ → ℕ → ℕ → List ℕ
unfolding char_at
encode_three url a b c =
    let packed = (a * 2 ^ 8 + b) * 2 ^ 8 + c in
    char_at url (packed / 2 ^ 18)
    ∷ char_at url (packed / 2 ^ 12 % 64)
    ∷ char_at url (packed / 2 ^ 6 % 64)
    ∷ char_at url (packed % 64)
    ∷ []

-- base64encode; 61 is the character =.
unfoldable pub base64encode : Bool → List ℕ → List ℕ
unfolding encode_three char_at
base64encode url [] = []
base64encode url (a ∷ []) =
    let packed = a * 2 ^ 8 * 2 ^ 8 in
    char_at url (packed / 2 ^ 18) ∷ char_at url (packed / 2 ^ 12 % 64) ∷ 61 ∷ 61 ∷ []
base64encode url (a ∷ b ∷ []) =
    let packed = (a * 2 ^ 8 + b) * 2 ^ 8 in
    char_at url (packed / 2 ^ 18)
    ∷ char_at url (packed / 2 ^ 12 % 64)
    ∷ char_at url (packed / 2 ^ 6 % 64)
    ∷ 61
    ∷ []
base64encode url (a ∷ b ∷ c ∷ rest) = encode_three url a b c ++ base64encode url rest

-- val; `none` for an invalid character.
unfoldable pub value_of : Bool → ℕ → Option ℕ
value_of url c =
    if leb 65 c && leb c 90
    then some (c - 65)
    else if leb 97 c && leb c 122
    then some (c - 97 + 26)
    else if leb 48 c && leb c 57
    then some (c - 48 + 52)
    else if c == c62 url
    then some 62
    else if c == c63 url
    then some 63
    else none

abbrev pub and_then : {A : Type 0} → Option ℕ → (ℕ → Option A) → Option A
and_then none f = none
and_then (some v) f = f v

-- The inner loop, with `k` characters to go: padding, packed and the characters behind; `none` where
-- the code returns an empty string.
unfoldable pub decode_group : Bool → ℕ → List ℕ → ℕ → ℕ → Option (ℕ × ℕ × List ℕ)
unfolding value_of
decode_group url zero chars padding packed = some (padding, packed, chars)
decode_group url (suc k) [] padding packed = none
decode_group url (suc k) (c ∷ cs) padding packed =
    if c == 61
    then decode_group url k cs (padding + 1) (packed * 2 ^ 6)
    else if ltb 0 padding
    then none
    else and_then (value_of url c) (λ val. decode_group url k cs padding (packed * 2 ^ 6 + val))

abbrev pub is_empty : List ℕ → Bool
is_empty [] = true
is_empty (c ∷ cs) = false

-- The bytes that a group writes.
abbrev pub written : ℕ → ℕ → List ℕ
written padding packed =
    (packed / 2 ^ 16 % 256)
    ∷ ((if padding == 2 then [] else packed / 2 ^ 8 % 256 ∷ [])
        ++ (if padding == 0 then packed % 256 ∷ [] else []))

abbrev pub append_to : List ℕ → Option (List ℕ) → Option (List ℕ)
append_to bytes none = none
append_to bytes (some more) = some (bytes ++ more)

-- What follows a group: `next` is the rest of the loop.
abbrev pub after_group : (List ℕ → Option (List ℕ)) → Option (ℕ × ℕ × List ℕ) → Option (List ℕ)
after_group next none = none
after_group next (some (padding, packed, rest)) =
    if ltb 0 padding && not (is_empty rest)
    then none
    else if ltb 2 padding
    then none
    else append_to (written padding packed) (next rest)

-- The outer loop. A group takes four characters, so their number is rounds enough.
unfoldable pub decode_loop : ℕ → Bool → List ℕ → Option (List ℕ)
unfolding decode_group
decode_loop zero url chars = if is_empty chars then some [] else none
decode_loop (suc fuel) url [] = some []
decode_loop (suc fuel) url (c ∷ cs) =
    after_group (decode_loop fuel url) (decode_group url 4 (c ∷ cs) 0 0)

abbrev pub or_empty : Option (List ℕ) → List ℕ
or_empty none = []
or_empty (some bytes) = bytes

-- base64decode
unfoldable pub base64decode : Bool → List ℕ → List ℕ
unfolding decode_loop
base64decode url src = or_empty (decode_loop (length src) url src)
