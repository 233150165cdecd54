-- ===== src/WebSocket/Steps.antt =====
-- What the steps of WSRecvMessage of src/base/net/http/ws_session.cc take off a stream, and how long the
-- data can get.
use agent_link_coro.Prelude.{
  ℕ, zero, suc, ◌+◌, ◌-◌, ◌%◌, ◌^◌, ◌≤◌, ◌<◌, ◌≡◌, ◌≢◌, refl, sym, ap, ◌∙◌, subst, Bool, true,
  false, not, ◌&&◌, List, [], ◌∷◌, ◌++◌, Option, none, some, arith, ltb, leb, ◌==◌, if◌then◌else◌,
  length, take, min, inl, inr, Bool-cases, ==_iff, ltb→lt, leb→lt, length-take, length-drop,
  length-append,
}
use mathlib.Core.Bool.{true≢false}
use agent_link_coro.Prelude.Words.{add64}
use agent_link_coro.Stream.{
  Stream, at_most, left_of, result_of, read_some, read_fix_loop, read_fix_size,
}
use agent_link_coro.WebSocket.{
  Io, continue_with, ◌>>=◌, give, stop, WsFrameHead, apply_mask, read_exact, read_length, read_mask,
  read_payload,
}
use agent_link_coro.WebSocket.Frame.{length-apply_mask}

-- Fewer bytes are on their way, or as many.
abbrev pub Shrinks : Stream → Stream → Type 0
Shrinks s s' = length s'.incoming ≤ length s.incoming

abbrev pub IsTame : {A : Type 0} → Io A → Type 0
IsTame m = (s : Stream) → Shrinks s (m s).1

read_fix_loop_drops :
    (fuel : ℕ) (s : Stream) (left : ℕ)
    → let r = read_fix_loop fuel s left in
      Shrinks s r.2
      × (length r.1 ≤ left)
      × (r.0 ≡ true → length r.2.incoming + left ≤ length s.incoming)
unfolding read_fix_loop read_some
read_fix_loop_drops zero s left =
    (omega arith, omega arith, λ e. omega (arith, (==_iff left 0).0 e))
read_fix_loop_drops (suc fuel) s left =
    let k = at_most s.arrivals (min left s.buff_size) in
    let bytes = take k s.incoming in
    let s1 = (read_some s (min left s.buff_size)).1 in
    let size = length-take k s.incoming in
    let less = length-drop k s.incoming in
    let asked = at_most-le s.arrivals (min left s.buff_size) in
    let (a, b, c) = read_fix_loop_drops fuel s1 (left - length bytes) in
    elim (Bool-cases (left == 0)) [
      | inl e ↦ rw e (omega arith, omega arith, λ _. omega (arith, (==_iff left 0).0 e))
      | inr e ↦ rw e (elim (Bool-cases (length bytes == 0)) [
        | inl nothing ↦
            rw nothing (omega (arith, less), omega arith, λ h. absurd (true≢false (sym h)))
        | inr some_bytes ↦ rw some_bytes (
          omega (arith, less, a),
          omega (
            arith,
            length-append bytes (read_fix_loop fuel s1 (left - length bytes)).1,
            b,
            size,
            asked,
          ),
          λ h. omega (arith, c h, less, size, asked),
        )
      ])
    ]
  where
    at_most-le : (cs : List ℕ) (n : ℕ) → at_most cs n ≤ n
    at_most-le [] n = omega arith
    at_most-le (c ∷ cs) n = omega arith

pub read_exact_drops :
    (n : ℕ) (s : Stream)
    → Shrinks s (read_exact n s).1
      × ((xs : List ℕ)
          → (read_exact n s).0 ≡ some xs
          → (length xs ≤ left_of n)
            × (length (read_exact n s).1.incoming + left_of n ≤ length s.incoming))
unfolding read_exact read_fix_size
read_exact_drops n s =
    let left = left_of n in
    let r = read_fix_loop left s left in
    let (a, b, c) = read_fix_loop_drops left s left in
    (
      a,
      λ xs e. elim (Bool-cases r.0) [
        | inl done ↦ elim (Bool-cases ((if r.0 then result_of n else 0) == 0)) [
          | inl zero_result ↦
              absurd (none-ne-some xs (sym (ap (λ (t : Bool). pick t r.1) zero_result) ∙ e))
          | inr positive ↦
              let same : r.1 ≡ xs =
                some-injective (sym (ap (λ (t : Bool). pick t r.1) positive) ∙ e) in
              (omega (arith, ap length same, b), c done)
        ]
        | inr short ↦ absurd (
            none-ne-some xs
              (sym (ap (λ (t : Bool). pick ((if t then result_of n else 0) == 0) r.1) short) ∙ e))
      ],
    )
  where
    pick : Bool → List ℕ → Option (List ℕ)
    pick t bytes = if t then none else some bytes

    none-ne-some : (xs : List ℕ) → ◌≢◌ {A = Option (List ℕ)} none (some xs)
    none-ne-some xs = λ e. cc

    some-injective : {xs ys : List ℕ} → ◌≡◌ {A = Option (List ℕ)} (some xs) (some ys) → xs ≡ ys
    some-injective e = cc

bind-IsTame :
    {A B : Type 0} (m : Io A) (f : A → Io B)
    → IsTame m
    → ((a : A) → IsTame (f a))
    → IsTame (m >>= f)
bind-IsTame {A} {B} m f tame later s = go (m s) (tame s)
  where
    go : (r : Option A × Stream) → Shrinks s r.1 → Shrinks s (continue_with r f).1
    go (none, s1) h = h
    go (some a, s1) h = omega (arith, h, later a s1)

if-IsTame : {A : Type 0} (t : Bool) (m k : Io A) → IsTame m → IsTame k → IsTame (if t then m else k)
if-IsTame true m k h j = h
if-IsTame false m k h j = j

-- Every step that succeeds gives a value of which `P` holds.
abbrev pub Gives : {A : Type 0} → (A → Type 0) → Io A → Type 0
Gives {A} P m = (s : Stream) (a : A) → (m s).0 ≡ some a → P a

bind-Gives :
    {A B : Type 0} (Q : A → Type 0) (P : B → Type 0) (m : Io A) (f : A → Io B)
    → Gives Q m
    → ((a : A) → Q a → Gives P (f a))
    → Gives P (m >>= f)
bind-Gives {A} {B} Q P m f first later s b e = go (m s) (first s) e
  where
    go :
        (r : Option A × Stream)
        → ((a : A) → r.0 ≡ some a → Q a)
        → (continue_with r f).0 ≡ some b
        → P b
    go (none, s1) h q = absurd (none-ne-some q)
      where
        none-ne-some : ◌≡◌ {A = Option B} none (some b) → ⊥
        none-ne-some q = cc
    go (some a, s1) h q = later a (h a refl) s1 b q

stop-Gives : {A : Type 0} (P : A → Type 0) → Gives P stop
stop-Gives {A} P s a e = absurd (none-ne-some e)
  where
    none-ne-some : ◌≡◌ {A = Option A} none (some a) → ⊥
    none-ne-some q = cc

give-Gives : {A : Type 0} (P : A → Type 0) (a : A) → P a → Gives P (give a)
give-Gives {A} P a h s b e = subst P (some-injective e) h
  where
    some-injective : ◌≡◌ {A = Option A} (some a) (some b) → a ≡ b
    some-injective q = cc

-- Nothing is said of the value.
abbrev Anything : {A : Type 0} → A → Type 0
Anything a = Unit {0}

if-Gives :
    {A : Type 0} (P : A → Type 0) (t : Bool) (m k : Io A)
    → (t ≡ true → Gives P m)
    → (t ≡ false → Gives P k)
    → Gives P (if t then m else k)
if-Gives P true m k h j = h refl
if-Gives P false m k h j = j refl

add64_lem : (a b : ℕ) → add64 a b ≡ (a + b) % 2 ^ 64
unfolding add64
add64_lem a b = refl

module _ (max_size : ℕ) (client : Bool) (h : WsFrameHead) (so_far : List ℕ) where
  pub read_payload-IsTame : IsTame (read_payload max_size client h so_far)
  unfolding read_payload read_length read_mask
  read_payload-IsTame =
      let exact : (n : ℕ) → IsTame (read_exact n) = λ n s. (read_exact_drops n s).0 in
      if-IsTame (not client && not h.mask) _ _ (λ s. omega arith)
        (bind-IsTame (read_length h) _
          (if-IsTame (h.payload == 126) _ _
            (bind-IsTame (read_exact 2) _ (exact 2) (λ raw s. omega arith))
            (if-IsTame (h.payload == 127) _ _
              (bind-IsTame (read_exact 8) _ (exact 8) (λ raw s. omega arith)) (λ s. omega arith)))
          λ size.
            if-IsTame (leb max_size (add64 (length so_far) size)) _ _ (λ s. omega arith)
              (bind-IsTame (read_mask h) _ (if-IsTame h.mask _ _ (exact 4) (λ s. omega arith))
                λ mask. bind-IsTame (read_exact size) _ (exact size) λ bytes s. omega arith))

  pub read_payload-Gives :
      length so_far < max_size
      → max_size ≤ 2 ^ 31
      → Gives (λ (bytes : List ℕ). length bytes < max_size) (read_payload max_size client h so_far)
  unfolding read_payload
  read_payload-Gives below limit =
      let P : List ℕ → Type 0 = λ bytes. length bytes < max_size in
      if-Gives P (not client && not h.mask) _ _ (λ _. stop-Gives P)
        (λ _.
          bind-Gives Anything P (read_length h) _ (λ s a e. tt)
            λ size _.
              if-Gives P (leb max_size (add64 (length so_far) size)) _ _ (λ _. stop-Gives P)
                λ small.
                  bind-Gives Anything P (read_mask h) _ (λ s a e. tt)
                    λ mask _.
                      bind-Gives (λ (bytes : List ℕ). length bytes ≤ left_of size) P
                        (read_exact size) _ (λ s xs e. ((read_exact_drops size s).1 xs e).0)
                        λ bytes fits. give-Gives P _ (
                          joined size mask bytes fits
                            (leb→lt max_size (add64 (length so_far) size) small)))
    where
      unmasked_size :
          (t : Bool) (mask bytes : List ℕ)
          → length (if t then apply_mask 0 mask bytes else bytes) ≡ length bytes
      unmasked_size true mask bytes = length-apply_mask 0 mask bytes
      unmasked_size false mask bytes = refl

      within :
          (size n : ℕ)
          → n ≤ left_of size
          → add64 (length so_far) size < max_size
          → length so_far + n < max_size
      within size n fits sum = elim (Bool-cases (ltb (size % 2 ^ 64) (2 ^ 63))) [
        | inl a ↦
            let no_wrap = ltb→lt (size % 2 ^ 64) (2 ^ 63) a in
            let short : n ≤ size % 2 ^ 64 = rw a at fits in
            omega (arith, add64_lem (length so_far) size)
        | inr a ↦ let none_left : n ≤ 0 = rw a at fits in omega arith
      ]

      joined :
          (size : ℕ) (mask bytes : List ℕ)
          → length bytes ≤ left_of size
          → add64 (length so_far) size < max_size
          → length (so_far ++ (if h.mask then apply_mask 0 mask bytes else bytes)) < max_size
      joined size mask bytes fits sum = omega (
        arith,
        length-append so_far (if h.mask then apply_mask 0 mask bytes else bytes),
        unmasked_size h.mask mask bytes,
        within size (length bytes) fits sum,
      )
