-- ===== src/Url/Examples.antt =====
-- Runs of UrlEncode and UrlDecode of src/base/util.cc.
use agent_link_coro.Prelude.{◌≡◌, refl, true, false, [], ◌∷◌, arith}
use agent_link_coro.Url.{
  is_unreserved, hex_digit, escaped, escape_at, encode_loop, url_encode, decode_loop, url_decode,
}
use agent_link_coro.Url.Plain.{encode_each, url_encode_lem}
use agent_link_coro.Url.RoundTrip.{url_round_trip}

-- "a b" is "a+b" or "a%20b".
encode_plus : url_encode true (97 ∷ 32 ∷ 98 ∷ []) ≡ 97 ∷ 43 ∷ 98 ∷ []
unfolding url_encode encode_loop is_unreserved escaped
encode_plus = refl

encode_escape : url_encode false (97 ∷ 32 ∷ 98 ∷ []) ≡ 97 ∷ 37 ∷ 50 ∷ 48 ∷ 98 ∷ []
unfolding url_encode encode_loop is_unreserved escaped hex_digit
encode_escape = refl

-- An escape that is cut off is kept as it is, and the equals sign is never escaped.
decode_cut_off : url_decode true (97 ∷ 43 ∷ 37 ∷ 50 ∷ []) ≡ 97 ∷ 32 ∷ 37 ∷ 50 ∷ []
unfolding url_decode decode_loop escape_at
decode_cut_off = refl

encode_equals : url_encode true (97 ∷ 61 ∷ 98 ∷ []) ≡ 97 ∷ 61 ∷ 98 ∷ []
unfolding url_encode encode_loop is_unreserved
encode_equals = refl

url_encode_lem_example :
    url_encode true (97 ∷ 32 ∷ 255 ∷ []) ≡ encode_each true (97 ∷ 32 ∷ 255 ∷ [])
url_encode_lem_example = url_encode_lem true (97 ∷ 32 ∷ 255 ∷ [])

url_round_trip_example :
    url_decode true (url_encode true (43 ∷ 32 ∷ 37 ∷ 255 ∷ [])) ≡ 43 ∷ 32 ∷ 37 ∷ 255 ∷ []
url_round_trip_example =
    url_round_trip true (43 ∷ 32 ∷ 37 ∷ 255 ∷ [])
      (omega arith, (omega arith, (omega arith, (omega arith, tt))))
