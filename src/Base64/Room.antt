-- ===== src/Base64/Room.antt =====
-- The bytes that base64decode of src/base/util/hash_util.cc writes fit the buffer it has made for them.
use agent_link_coro.Prelude.{
  ℕ, zero, suc, ◌+◌, ◌*◌, ◌/◌, ◌^◌, ◌≤◌, ◌≡◌, Bool, not, ◌&&◌, List, [], ◌∷◌, Option, none, some,
  arith, ltb, ◌==◌, length, length-append, inl, inr, Bool-cases,
}
use agent_link_coro.Base64.{
  is_empty, and_then, value_of, decode_group, written, append_to, after_group, decode_loop,
  or_empty, base64decode,
}

-- A group that has taken `k` characters.
abbrev Takes : ℕ → ℕ → Option (ℕ × ℕ × List ℕ) → Type 0
Takes k n none = Unit
Takes k n (some (padding, packed, rest)) = length rest + k ≡ n

decode_group-Takes :
    (url : Bool) (k : ℕ) (chars : List ℕ) (padding packed : ℕ)
    → Takes k (length chars) (decode_group url k chars padding packed)
unfolding decode_group
decode_group-Takes url zero chars padding packed = omega arith
decode_group-Takes url (suc k) [] padding packed = tt
decode_group-Takes url (suc k) (c ∷ cs) padding packed = elim (Bool-cases (c == 61)) [
  | inl e ↦ rw e (one_more _ (decode_group-Takes url k cs (padding + 1) (packed * 2 ^ 6)))
  | inr e ↦ elim (Bool-cases (ltb 0 padding)) [
    | inl q ↦ rw (e, q) tt
    | inr q ↦
        rw (e, q)
          (by_value (value_of url c)
            (λ v. decode_group-Takes url k cs padding (packed * 2 ^ 6 + v)))
  ]
]
  where
    one_more :
        (o : Option (ℕ × ℕ × List ℕ)) → Takes k (length cs) o → Takes (suc k) (suc (length cs)) o
    one_more none h = tt
    one_more (some (p, q, rest)) h = omega (arith, h)

    by_value :
        (o : Option ℕ)
        → ((v : ℕ) → Takes k (length cs) (decode_group url k cs padding (packed * 2 ^ 6 + v)))
        → Takes
            (suc k)
            (suc (length cs))
            (and_then o (λ val. decode_group url k cs padding (packed * 2 ^ 6 + val)))
    by_value none h = tt
    by_value (some v) h = one_more _ (h v)

-- At most three bytes for four of `n` characters.
abbrev HasRoom : ℕ → Option (List ℕ) → Type 0
HasRoom n none = Unit
HasRoom n (some bytes) = 4 * length bytes ≤ 3 * n

length-written : (padding packed : ℕ) → length (written padding packed) ≤ 3
length-written padding packed = elim (Bool-cases (padding == 2)) [
  | inl e ↦ elim (Bool-cases (padding == 0)) [
    | inl q ↦ rw (e, q) (omega arith)
    | inr q ↦ rw (e, q) (omega arith)
  ]
  | inr e ↦ elim (Bool-cases (padding == 0)) [
    | inl q ↦ rw (e, q) (omega arith)
    | inr q ↦ rw (e, q) (omega arith)
  ]
]

after_group-HasRoom :
    (next : List ℕ → Option (List ℕ)) (n : ℕ) (r : Option (ℕ × ℕ × List ℕ))
    → ((rest : List ℕ) → HasRoom (length rest) (next rest))
    → Takes 4 n r
    → HasRoom n (after_group next r)
after_group-HasRoom next n none h t = tt
after_group-HasRoom next n (some (padding, packed, rest)) h t =
    elim (Bool-cases (ltb 0 padding && not (is_empty rest))) [
      | inl e ↦ rw e tt
      | inr e ↦ elim (Bool-cases (ltb 2 padding)) [
        | inl q ↦ rw (e, q) tt
        | inr q ↦
            rw (e, q)
              (append (written padding packed) (next rest) (length-written padding packed) (h rest))
      ]
    ]
  where
    append :
        (bytes : List ℕ) (o : Option (List ℕ))
        → length bytes ≤ 3
        → HasRoom (length rest) o
        → HasRoom n (append_to bytes o)
    append bytes none few room = tt
    append bytes (some more) few room = omega (arith, length-append bytes more, few, room, t)

decode_loop-HasRoom :
    (fuel : ℕ) (url : Bool) (chars : List ℕ) → HasRoom (length chars) (decode_loop fuel url chars)
unfolding decode_loop
decode_loop-HasRoom zero url [] = omega arith
decode_loop-HasRoom zero url (c ∷ cs) = tt
decode_loop-HasRoom (suc fuel) url [] = omega arith
decode_loop-HasRoom (suc fuel) url (c ∷ cs) =
    after_group-HasRoom (decode_loop fuel url) (suc (length cs)) _ (decode_loop-HasRoom fuel url)
      (decode_group-Takes url 4 (c ∷ cs) 0 0)

-- base64decode gives at most three quarters as many bytes as there are characters, for which it makes
-- room, on any characters at all.
pub length-base64decode :
    (url : Bool) (src : List ℕ) → length (base64decode url src) ≤ length src * 3 / 4
unfolding base64decode
length-base64decode url src =
    by (decode_loop (length src) url src) (decode_loop-HasRoom (length src) url src)
  where
    by : (o : Option (List ℕ)) → HasRoom (length src) o → length (or_empty o) ≤ length src * 3 / 4
    by none h = omega arith
    by (some bytes) h = omega (arith, h)
