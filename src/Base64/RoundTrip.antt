-- ===== src/Base64/RoundTrip.antt =====
-- base64decode of src/base/util/hash_util.cc gives back what base64encode has written.
use agent_link_coro.Prelude.{
  all_below, both_true, below, ℕ, zero, suc, ◌+◌, ◌*◌, ◌/◌, ◌%◌, ◌^◌, ◌<◌, ◌≡◌, refl, sym, ap, ◌∙◌,
  Bool, true, false, not, ◌&&◌, List, [], ◌∷◌, ◌++◌, Option, none, some, arith, ◌==◌, length, All,
  ==_iff,
}
use agent_link_coro.Base64.{
  char_at, encode_three, base64encode, value_of, decode_group, written, after_group, append_to,
  or_empty, decode_loop, base64decode,
}

gives : Option ℕ → ℕ → Bool
gives none v = false
gives (some w) v = w == v

gives_lem : (o : Option ℕ) (v : ℕ) → gives o v ≡ true → o ≡ some v
unfolding gives
gives_lem none v h = absurd (lie h)
  where
    lie : false ≡ true → ⊥
    lie e = cc
gives_lem (some w) v h = ap some ((==_iff w v).0 h)

all_read_back :
    (url : Bool)
    → all_below (λ v. gives (value_of url (char_at url v)) v && not (char_at url v == 61)) 64 ≡ true
unfolding gives value_of char_at
all_read_back true = refl
all_read_back false = refl

-- Every character of the alphabet has its value, and is not =.
alphabet :
    (url : Bool) (v : ℕ)
    → v < 64
    → (value_of url (char_at url v) ≡ some v) × ((char_at url v == 61) ≡ false)
alphabet url v h =
    let (value, other) = both_true _ _ (
      below (λ v. gives (value_of url (char_at url v)) v && not (char_at url v == 61)) 64 v
        (all_read_back url) h) in
    (gives_lem (value_of url (char_at url v)) v value, opposite (char_at url v == 61) other)
  where
    opposite : (b : Bool) → not b ≡ true → b ≡ false
    opposite false h = refl
    opposite true h = sym h

group_step :
    (url : Bool) (k v packed : ℕ) (cs : List ℕ)
    → v < 64
    → decode_group url (suc k) (char_at url v ∷ cs) 0 packed
      ≡ decode_group url k cs 0 (packed * 2 ^ 6 + v)
unfolding decode_group
group_step url k v packed cs h = let (value, other) = alphabet url v h in rw (other, value) refl

-- Four characters are their 24 bits.
group_four :
    (url : Bool) (a b c d p : ℕ) (rest : List ℕ)
    → a < 64
    → b < 64
    → c < 64
    → d < 64
    → ((a * 64 + b) * 64 + c) * 64 + d ≡ p
    → decode_group url 4 (char_at url a ∷ char_at url b ∷ char_at url c ∷ char_at url d ∷ rest) 0 0
      ≡ some (0, p, rest)
unfolding decode_group
group_four url a b c d p rest ha hb hc hd e =
    group_step url 3 a 0 (char_at url b ∷ char_at url c ∷ char_at url d ∷ rest) ha
    ∙ group_step url 2 b (0 * 64 + a) (char_at url c ∷ char_at url d ∷ rest) hb
    ∙ group_step url 1 c ((0 * 64 + a) * 64 + b) (char_at url d ∷ rest) hc
    ∙ group_step url 0 d (((0 * 64 + a) * 64 + b) * 64 + c) rest hd
    ∙ ap (λ z. some (0, z, rest)) (omega (arith, e))

-- The bits of a group, put together again.
sixes :
    (p : ℕ)
    → p < 2 ^ 24
    → ((p / 2 ^ 18 * 64 + p / 2 ^ 12 % 64) * 64 + p / 2 ^ 6 % 64) * 64 + p % 64 ≡ p
sixes p h = omega arith

first_six : (p : ℕ) → p < 2 ^ 24 → p / 2 ^ 18 < 64
first_six p h = omega arith

three :
    {a b c x y z : ℕ} → a ≡ x → b ≡ y → c ≡ z → ◌≡◌ {A = List ℕ} (a ∷ b ∷ c ∷ []) (x ∷ y ∷ z ∷ [])
three p q r = cc

written_three :
    (a b c : ℕ)
    → a < 256
    → b < 256
    → c < 256
    → written 0 ((a * 2 ^ 8 + b) * 2 ^ 8 + c) ≡ a ∷ b ∷ c ∷ []
written_three a b c ha hb hc = three (omega arith) (omega arith) (omega arith)

written_two : (a b : ℕ) → a < 256 → b < 256 → written 1 ((a * 2 ^ 8 + b) * 2 ^ 8) ≡ a ∷ b ∷ []
written_two a b ha hb = three_of (omega arith) (omega arith)
  where
    three_of : {a b x y : ℕ} → a ≡ x → b ≡ y → ◌≡◌ {A = List ℕ} (a ∷ b ∷ []) (x ∷ y ∷ [])
    three_of p q = cc

written_one : (a : ℕ) → a < 256 → written 2 (a * 2 ^ 8 * 2 ^ 8) ≡ a ∷ []
written_one a ha = ap (λ z. z ∷ []) (omega arith)

-- Two characters and two =.
group_two :
    (url : Bool) (a b p : ℕ)
    → a < 64
    → b < 64
    → (a * 64 + b) * 64 * 64 ≡ p
    → decode_group url 4 (char_at url a ∷ char_at url b ∷ 61 ∷ 61 ∷ []) 0 0 ≡ some (2, p, [])
unfolding decode_group
group_two url a b p ha hb e =
    group_step url 3 a 0 (char_at url b ∷ 61 ∷ 61 ∷ []) ha
    ∙ group_step url 2 b (0 * 64 + a) (61 ∷ 61 ∷ []) hb
    ∙ ap (λ z. some (2, z, [])) (omega (arith, e))

-- Three characters and one =.
group_three :
    (url : Bool) (a b c p : ℕ)
    → a < 64
    → b < 64
    → c < 64
    → ((a * 64 + b) * 64 + c) * 64 ≡ p
    → decode_group url 4 (char_at url a ∷ char_at url b ∷ char_at url c ∷ 61 ∷ []) 0 0
      ≡ some (1, p, [])
unfolding decode_group
group_three url a b c p ha hb hc e =
    group_step url 3 a 0 (char_at url b ∷ char_at url c ∷ 61 ∷ []) ha
    ∙ group_step url 2 b (0 * 64 + a) (char_at url c ∷ 61 ∷ []) hb
    ∙ group_step url 1 c ((0 * 64 + a) * 64 + b) (61 ∷ []) hc
    ∙ ap (λ z. some (1, z, [])) (omega (arith, e))

decode_nothing : (fuel : ℕ) (url : Bool) → decode_loop fuel url [] ≡ some []
unfolding decode_loop
decode_nothing zero url = refl
decode_nothing (suc fuel) url = refl

-- More fuel than there are bytes is enough.
decode_loop_lem :
    (fuel : ℕ) (url : Bool) (xs : List ℕ)
    → All (λ x. x < 256) xs
    → length xs < fuel
    → decode_loop fuel url (base64encode url xs) ≡ some xs
unfolding decode_loop base64encode encode_three
decode_loop_lem zero url xs h lt = absurd (omega arith)
decode_loop_lem (suc fuel) url [] h lt = refl
decode_loop_lem (suc fuel) url (a ∷ []) h lt =
    let p = a * 2 ^ 8 * 2 ^ 8 in
    ap (after_group (decode_loop fuel url)) (
      group_two url (p / 2 ^ 18) (p / 2 ^ 12 % 64) p (omega (arith, h.0)) (omega arith)
        (omega (arith, h.0)))
    ∙ ap (append_to (written 2 p)) (decode_nothing fuel url)
    ∙ ap (λ z. some (z ++ [])) (written_one a h.0)
decode_loop_lem (suc fuel) url (a ∷ b ∷ []) h lt =
    let p = (a * 2 ^ 8 + b) * 2 ^ 8 in
    ap (after_group (decode_loop fuel url)) (
      group_three url (p / 2 ^ 18) (p / 2 ^ 12 % 64) (p / 2 ^ 6 % 64) p (omega (arith, h.0, h.1.0))
        (omega arith) (omega arith) (omega (arith, h.0, h.1.0)))
    ∙ ap (append_to (written 1 p)) (decode_nothing fuel url)
    ∙ ap (λ z. some (z ++ [])) (written_two a b h.0 h.1.0)
decode_loop_lem (suc fuel) url (a ∷ b ∷ c ∷ rest) h lt =
    let p = (a * 2 ^ 8 + b) * 2 ^ 8 + c in
    let small : p < 2 ^ 24 = omega (arith, h.0, h.1.0, h.1.1.0) in
    ap (after_group (decode_loop fuel url)) (
      group_four url (p / 2 ^ 18) (p / 2 ^ 12 % 64) (p / 2 ^ 6 % 64) (p % 64) p
        (base64encode url rest) (first_six p small) (omega arith) (omega arith) (omega arith)
        (sixes p small))
    ∙ ap (append_to (written 0 p)) (decode_loop_lem fuel url rest h.1.1.1 (omega arith))
    ∙ ap (λ z. some (z ++ rest)) (written_three a b c h.0 h.1.0 h.1.1.0)

-- Fuel for the characters.
length-base64encode :
    (url : Bool) (xs : List ℕ) → 0 < length xs → length xs < length (base64encode url xs)
unfolding base64encode encode_three
length-base64encode url [] h = absurd (omega arith)
length-base64encode url (a ∷ []) h = omega arith
length-base64encode url (a ∷ b ∷ []) h = omega arith
length-base64encode url (a ∷ b ∷ c ∷ []) h = omega arith
length-base64encode url (a ∷ b ∷ c ∷ d ∷ rest) h =
    omega (arith, length-base64encode url (d ∷ rest) (omega arith))

-- Every sequence of bytes, written by base64encode, reads back by base64decode, in both alphabets.
pub base64_round_trip :
    (url : Bool) (xs : List ℕ) → All (λ x. x < 256) xs → base64decode url (base64encode url xs) ≡ xs
unfolding base64decode decode_loop base64encode
base64_round_trip url [] h = refl
base64_round_trip url (x ∷ xs) h = ap or_empty (
    decode_loop_lem (length (base64encode url (x ∷ xs))) url (x ∷ xs) h
      (length-base64encode url (x ∷ xs) (omega arith)))
