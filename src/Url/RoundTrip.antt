-- ===== src/Url/RoundTrip.antt =====
-- UrlDecode of src/base/util.cc gives back what UrlEncode has written.
use agent_link_coro.Prelude.{
  ℕ, zero, suc, ◌/◌, ◌%◌, ◌≤◌, ◌<◌, ◌≡◌, refl, sym, ap, ◌∙◌, Bool, true, false, ◌&&◌, List, [], ◌∷◌,
  ◌++◌, append_assoc, Option, none, some, arith, ◌==◌, ==_iff, if◌then◌else◌, inl, inr, Bool-cases,
  length, length-append, All, all_below, below, both_true,
}
use agent_link_coro.Url.{
  is_unreserved, hex_digit, is_xdigit, xdigit_value, escaped, started, kept, escape_at, decode_loop,
  url_encode, url_decode,
}
use agent_link_coro.Url.Plain.{encode_each, started-kept, started-nil, url_encode_lem}

all_digits : all_below (λ v. is_xdigit (hex_digit v) && (xdigit_value (hex_digit v) == v)) 16 ≡ true
unfolding is_xdigit hex_digit xdigit_value
all_digits = refl

digit_lem : (v : ℕ) → v < 16 → (is_xdigit (hex_digit v) ≡ true) × (xdigit_value (hex_digit v) ≡ v)
digit_lem v h =
    let (digit, value) = both_true _ _ (
      below (λ v. is_xdigit (hex_digit v) && (xdigit_value (hex_digit v) == v)) 16 v all_digits
        h) in
    (digit, (==_iff (xdigit_value (hex_digit v)) v).0 value)

-- An escape stands for its character.
escape_at-hex_digit :
    (c : ℕ) (rest : List ℕ)
    → c < 256
    → escape_at 37 (hex_digit (c / 16) ∷ hex_digit (c % 16) ∷ rest) ≡ some c
unfolding escape_at
escape_at-hex_digit c rest h =
    let (high, hv) = digit_lem (c / 16) (omega arith) in
    let (low, lv) = digit_lem (c % 16) (omega arith) in
    rw (high, low, hv, lv) (ap some (omega arith))

escape_at_other : (c : ℕ) (cs : List ℕ) → (c == 37) ≡ false → escape_at c cs ≡ none
unfolding escape_at
escape_at_other c [] h = refl
escape_at_other c (x ∷ []) h = refl
escape_at_other c (x ∷ y ∷ rest) h = rw h refl

-- An unreserved character is neither + nor %.
not_special : (c s : ℕ) → is_unreserved s ≡ false → is_unreserved c ≡ true → (c == s) ≡ false
not_special c s reserved h = elim (Bool-cases (c == s)) [
  | inl e ↦ absurd (lie (sym reserved ∙ ap is_unreserved (sym ((==_iff c s).0 e)) ∙ h))
  | inr e ↦ e
]
  where
    lie : false ≡ true → ⊥
    lie e = cc

piece_pos : (plus : Bool) (c : ℕ) → 0 < length (if is_unreserved c then c ∷ [] else escaped plus c)
unfolding escaped
piece_pos plus c = elim (Bool-cases (is_unreserved c)) [
  | inl e ↦ rw e (omega arith)
  | inr e ↦ elim (Bool-cases ((c == 32) && plus)) [
    | inl q ↦ rw (e, q) (omega arith)
    | inr q ↦ rw (e, q) (omega arith)
  ]
]

-- One round, for each kind of piece.
round_plain :
    (fuel : ℕ) (plus : Bool) (seen : List ℕ) (ss : Option (List ℕ)) (c : ℕ) (rest : List ℕ)
    → is_unreserved c ≡ true
    → decode_loop (suc fuel) plus seen ss (c ∷ rest)
      ≡ decode_loop fuel plus (seen ++ c ∷ []) (kept c ss) rest
unfolding decode_loop is_unreserved
round_plain fuel plus seen ss c rest e =
    rw (not_special c 43 refl e, escape_at_other c rest (not_special c 37 refl e)) refl

round_plus :
    (fuel : ℕ) (plus : Bool) (seen : List ℕ) (ss : Option (List ℕ)) (rest : List ℕ)
    → plus ≡ true
    → decode_loop (suc fuel) plus seen ss (43 ∷ rest)
      ≡ decode_loop fuel plus (seen ++ 43 ∷ []) (some (started seen ss ++ 32 ∷ [])) rest
unfolding decode_loop
round_plus fuel plus seen ss rest e = rw e refl

round_escape :
    (fuel : ℕ) (plus : Bool) (seen : List ℕ) (ss : Option (List ℕ)) (c : ℕ) (rest : List ℕ)
    → c < 256
    → decode_loop (suc fuel) plus seen ss (37 ∷ hex_digit (c / 16) ∷ hex_digit (c % 16) ∷ rest)
      ≡ decode_loop fuel plus
          (seen ++ 37 ∷ hex_digit (c / 16) ∷ hex_digit (c % 16) ∷ [])
          (some (started seen ss ++ c ∷ []))
          rest
unfolding decode_loop
round_escape fuel plus seen ss c rest h = rw (escape_at-hex_digit c rest h) refl

at_end :
    (fuel : ℕ) (plus : Bool) (seen : List ℕ) (ss : Option (List ℕ))
    → decode_loop fuel plus seen ss [] ≡ ss
unfolding decode_loop
at_end zero plus seen ss = refl
at_end (suc fuel) plus seen ss = refl

decode_loop_lem :
    (fuel : ℕ) (plus : Bool) (seen : List ℕ) (ss : Option (List ℕ)) (cs : List ℕ)
    → All (λ c. c < 256) cs
    → length (encode_each plus cs) ≤ fuel
    → started (seen ++ encode_each plus cs) (decode_loop fuel plus seen ss (encode_each plus cs))
      ≡ started seen ss ++ cs
unfolding encode_each escaped
decode_loop_lem fuel plus seen ss [] b h =
    ap (started (seen ++ [])) (at_end fuel plus seen ss) ∙ started-nil seen ss
decode_loop_lem zero plus seen ss (c ∷ cs) b h = absurd (
    omega (
      arith,
      h,
      length-append (if is_unreserved c then c ∷ [] else escaped plus c) (encode_each plus cs),
      piece_pos plus c,
    ))
decode_loop_lem (suc fuel) plus seen ss (c ∷ cs) b h =
    let rest = encode_each plus cs in
    let few : length rest ≤ fuel = omega (
      arith,
      h,
      length-append (if is_unreserved c then c ∷ [] else escaped plus c) rest,
      piece_pos plus c,
    ) in
    let then_on : (prefix : List ℕ) (out : Option (List ℕ))
        → decode_loop (suc fuel) plus seen ss (prefix ++ rest)
          ≡ decode_loop fuel plus (seen ++ prefix) out rest
        → started (seen ++ prefix) out ≡ started seen ss ++ c ∷ []
        → started (seen ++ (prefix ++ rest)) (decode_loop (suc fuel) plus seen ss (prefix ++ rest))
          ≡ started seen ss ++ c ∷ cs =
      λ prefix out step same.
        ap (started (seen ++ (prefix ++ rest))) step
        ∙ ap (λ z. started z (decode_loop fuel plus (seen ++ prefix) out rest))
            (sym (append_assoc seen prefix rest))
        ∙ decode_loop_lem fuel plus (seen ++ prefix) out cs b.1 few
        ∙ ap (λ z. z ++ cs) same
        ∙ append_assoc (started seen ss) (c ∷ []) cs in
    elim (Bool-cases (is_unreserved c)) [
      | inl e ↦ rw e (
          then_on (c ∷ []) (kept c ss) (round_plain fuel plus seen ss c rest e)
            (started-kept seen c ss))
      | inr e ↦ elim (Bool-cases ((c == 32) && plus)) [
        | inl q ↦
            let (space, on) = both_true (c == 32) plus q in
            rw (e, q)
              (then_on (43 ∷ []) (some (started seen ss ++ 32 ∷ []))
                (round_plus fuel plus seen ss rest on)
                (ap (λ z. started seen ss ++ z ∷ []) (sym ((==_iff c 32).0 space))))
        | inr q ↦
            rw (e, q)
              (then_on (37 ∷ hex_digit (c / 16) ∷ hex_digit (c % 16) ∷ [])
                (some (started seen ss ++ c ∷ [])) (round_escape fuel plus seen ss c rest b.0) refl)
      ]
    ]

-- Every sequence of bytes, written by UrlEncode, reads back by UrlDecode, where both or neither write a
-- space as +.
pub url_round_trip :
    (plus : Bool) (str : List ℕ)
    → All (λ c. c < 256) str
    → url_decode plus (url_encode plus str) ≡ str
unfolding url_decode
url_round_trip plus str b =
    ap (λ z. started z (decode_loop (length z) plus [] none z)) (url_encode_lem plus str)
    ∙ decode_loop_lem (length (encode_each plus str)) plus [] none str b (omega arith)
