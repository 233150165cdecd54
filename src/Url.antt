-- ===== src/Url.antt =====
-- StringUtil::UrlEncode and UrlDecode of src/base/util.cc, on lists of character codes. `ss` is null until
-- the first character that changes, when it takes over what stands before; `seen` is what stands before.
pub mod Plain
pub mod RoundTrip
mod Examples
use agent_link_coro.Prelude.{
  ℕ, zero, suc, ◌+◌, ◌-◌, ◌*◌, ◌/◌, ◌%◌, Bool, true, false, not, ◌&&◌, ◌||◌, List, [], ◌∷◌, ◌++◌,
  Option, none, some, ltb, leb, ◌==◌, if◌then◌else◌, length, take, drop,
}

abbrev pub is_between : ℕ → ℕ → ℕ → Bool
is_between lo hi c = leb lo c && leb c hi

-- CHAR_IS_UNRESERVED, as the table has it: - . 0 to 9, =, A to Z, _ a to z and ~.
unfoldable pub is_unreserved : ℕ → Bool
is_unreserved c =
    (c == 45)
    || (c == 46)
    || is_between 48 57 c
    || (c == 61)
    || is_between 65 90 c
    || (c == 95)
    || is_between 97 122 c
    || (c == 126)

-- hexdigits[v]
unfoldable pub hex_digit : ℕ → ℕ
hex_digit v = if ltb v 10 then 48 + v else 55 + v

-- isxdigit and xdigit_chars
unfoldable pub is_xdigit : ℕ → Bool
is_xdigit c = is_between 48 57 c || is_between 65 70 c || is_between 97 102 c

unfoldable pub xdigit_value : ℕ → ℕ
xdigit_value c =
    if is_between 48 57 c
    then c - 48
    else if is_between 65 70 c
    then c - 55
    else if is_between 97 102 c
    then c - 87
    else 0

-- What is appended for a character that is not unreserved.
unfoldable pub escaped : Bool → ℕ → List ℕ
unfolding hex_digit
escaped space_as_plus c =
    if (c == 32) && space_as_plus
    then 43 ∷ []
    else 37 ∷ hex_digit (c / 16) ∷ hex_digit (c % 16) ∷ []

-- `if (!ss) { ss = new std::string; ss->append(str, c - str); }`
abbrev pub started : List ℕ → Option (List ℕ) → List ℕ
started seen none = seen
started seen (some out) = out

-- `else if (ss) { ss->append(1, *c); }`
abbrev pub kept : ℕ → Option (List ℕ) → Option (List ℕ)
kept c none = none
kept c (some out) = some (out ++ c ∷ [])

-- The loop of UrlEncode.
unfoldable pub encode_loop : Bool → List ℕ → Option (List ℕ) → List ℕ → Option (List ℕ)
unfolding is_unreserved escaped
encode_loop plus seen ss [] = ss
encode_loop plus seen ss (c ∷ cs) =
    encode_loop plus (seen ++ c ∷ [])
      (if not (is_unreserved c) then some (started seen ss ++ escaped plus c) else kept c ss) cs

-- UrlEncode
unfoldable pub url_encode : Bool → List ℕ → List ℕ
unfolding encode_loop
url_encode plus str = started str (encode_loop plus [] none str)

-- `*c == '%' && (c + 2) < end && isxdigit(*(c + 1)) && isxdigit(*(c + 2))`: the character that an
-- escape stands for.
unfoldable pub escape_at : ℕ → List ℕ → Option ℕ
unfolding is_xdigit xdigit_value
escape_at c (x ∷ y ∷ rest) =
    if (c == 37) && is_xdigit x && is_xdigit y
    then some (xdigit_value x * 16 + xdigit_value y)
    else none
escape_at c cs = none

-- The loop of UrlDecode, for `fuel` rounds. An escape takes three characters, any other round one.
unfoldable pub decode_loop : ℕ → Bool → List ℕ → Option (List ℕ) → List ℕ → Option (List ℕ)
unfolding escape_at
decode_loop zero plus seen ss cs = ss
decode_loop (suc fuel) plus seen ss [] = ss
decode_loop (suc fuel) plus seen ss (c ∷ cs) =
    if (c == 43) && plus
    then decode_loop fuel plus (seen ++ c ∷ []) (some (started seen ss ++ 32 ∷ [])) cs
    else elim (escape_at c cs) [
      | none ↦ decode_loop fuel plus (seen ++ c ∷ []) (kept c ss) cs
      | some e ↦
          decode_loop fuel plus (seen ++ c ∷ take 2 cs) (some (started seen ss ++ e ∷ []))
            (drop 2 cs)
    ]

-- UrlDecode
unfoldable pub url_decode : Bool → List ℕ → List ℕ
unfolding decode_loop
url_decode plus str = started str (decode_loop (length str) plus [] none str)
