-- ===== src/Prelude/Bits.antt =====
-- `&`, `|` and `^` on fields of binary digits, as arithmetic at every width.
use Prim.Native.Nat.{
  ℕ, zero, suc, ◌+◌, ◌-◌, ◌*◌, ◌/◌, ◌%◌, ◌^◌, ◌≤◌, ◌<◌, min, max, bit_and, bit_or, bit_xor, digits,
  differ, bit_and-bitwise, bit_or-bitwise, bit_xor-bitwise,
}
use mathlib.Core.Path.{◌≡◌, refl, ap, sym, ◌∙◌}
use native.Mathlib.Nat.{
  pow-suc, one-le-pow, mul-add-mod_self_right, mod-eq_of_lt, mod-lt, div-add-mod',
}
use native.Mathlib.Omega.{arith}

-- One digit of a bitwise operation, for an operation that treats missing digits as 0.
module _ (z : ℕ → ℕ) (f : ℕ → ℕ → ℕ) where
  -- Any count of digits that the first number cannot exceed gives the same result.
  digits_any :
      (fuel x spare y : ℕ) → x ≤ spare → x ≤ fuel → digits z f spare x y ≡ digits z f fuel x y
  digits_any zero zero zero y hs hf = refl
  digits_any zero zero (suc spare) y hs hf = refl
  digits_any (suc fuel) zero zero y hs hf = refl
  digits_any (suc fuel) zero (suc spare) y hs hf = refl
  digits_any zero (suc x) spare y hs hf = absurd (omega arith)
  digits_any (suc fuel) (suc x) zero y hs hf = absurd (omega arith)
  digits_any (suc fuel) (suc x) (suc spare) y hs hf =
      ap (λ t. t * 2 + f (suc x % 2) (y % 2))
        (digits_any fuel (suc x / 2) spare (y / 2) (omega arith) (omega arith))

  digits_step :
      ((y : ℕ) → z y ≡ z (y / 2) * 2 + f 0 (y % 2))
      → (x y : ℕ) → digits z f x x y ≡ digits z f (x / 2) (x / 2) (y / 2) * 2 + f (x % 2) (y % 2)
  digits_step law zero y = law y
  digits_step law (suc x) y =
      ap (λ t. t * 2 + f (suc x % 2) (y % 2))
        (digits_any (suc x / 2) (suc x / 2) x (y / 2) (omega arith) (omega arith))

bit_and_step : (a b : ℕ) → bit_and a b ≡ bit_and (a / 2) (b / 2) * 2 + min (a % 2) (b % 2)
bit_and_step a b =
    bit_and-bitwise a b
    ∙ digits_step (λ _. 0) min (λ b. omega arith) a b
    ∙ ap (λ t. t * 2 + min (a % 2) (b % 2)) (sym (bit_and-bitwise (a / 2) (b / 2)))

bit_or_step : (a b : ℕ) → bit_or a b ≡ bit_or (a / 2) (b / 2) * 2 + max (a % 2) (b % 2)
bit_or_step a b =
    bit_or-bitwise a b
    ∙ digits_step (λ b. b) max (λ b. omega arith) a b
    ∙ ap (λ t. t * 2 + max (a % 2) (b % 2)) (sym (bit_or-bitwise (a / 2) (b / 2)))

bit_xor_step : (a b : ℕ) → bit_xor a b ≡ bit_xor (a / 2) (b / 2) * 2 + differ (a % 2) (b % 2)
bit_xor_step a b =
    bit_xor-bitwise a b
    ∙ digits_step (λ b. b) differ (λ b. omega arith) a b
    ∙ ap (λ t. t * 2 + differ (a % 2) (b % 2)) (sym (bit_xor-bitwise (a / 2) (b / 2)))

zero-bit_or : (b : ℕ) → bit_or 0 b ≡ b
zero-bit_or b = bit_or-bitwise 0 b

zero-bit_xor : (b : ℕ) → bit_xor 0 b ≡ b
zero-bit_xor b = bit_xor-bitwise 0 b

bit_or_comm_below : (n a b : ℕ) → a ≤ n → b ≤ n → bit_or a b ≡ bit_or b a
bit_or_comm_below zero zero zero h k = refl
bit_or_comm_below zero zero (suc b) h k = absurd (omega arith)
bit_or_comm_below zero (suc a) b h k = absurd (omega arith)
bit_or_comm_below (suc n) a b h k =
    let halves = bit_or_comm_below n (a / 2) (b / 2) (omega arith) (omega arith) in
    bit_or_step a b ∙ omega (arith, halves) ∙ sym (bit_or_step b a)

pub bit_or_comm : (a b : ℕ) → bit_or a b ≡ bit_or b a
bit_or_comm a b = bit_or_comm_below (a + b) a b (omega arith) (omega arith)

-- `low | (q << k)` is a sum where `low` fits in `k` bits.
pub bit_or_fields : (k low q : ℕ) → low < 2 ^ k → bit_or low (q * 2 ^ k) ≡ low + q * 2 ^ k
bit_or_fields zero zero q fits = rw zero-bit_or (omega arith)
bit_or_fields zero (suc low) q fits = absurd (omega arith)
bit_or_fields (suc k) low q fits =
    let double : q * 2 ^ suc k ≡ 2 * (q * 2 ^ k) =
      omega (arith, ap (λ (t : ℕ). q * t) (pow-suc 2 k)) in
    let half : q * 2 ^ suc k / 2 ≡ q * 2 ^ k = omega arith in
    let even : q * 2 ^ suc k % 2 ≡ 0 = omega arith in
    bit_or_step low (q * 2 ^ suc k)
    ∙ rw (half, even, bit_or_fields k (low / 2) q (omega (arith, pow-suc 2 k))) (omega arith)

bit_and-zero_below : (k x : ℕ) → x ≤ k → bit_and x 0 ≡ 0
bit_and-zero_below k zero h = bit_and-bitwise 0 0
bit_and-zero_below zero (suc x) h = absurd (omega arith)
bit_and-zero_below (suc k) (suc x) h =
    bit_and_step (suc x) 0 ∙ rw (bit_and-zero_below k (suc x / 2) (omega arith)) (omega arith)

pub mod_unique : (a m q r : ℕ) → r < m → a ≡ q * m + r → a % m ≡ r
mod_unique a m q r h e = rw e (rw (mul-add-mod_self_right q m r) (mod-eq_of_lt h))

differ_one : (x : ℕ) → x < 2 → differ x 1 ≡ 1 - x
differ_one zero h = refl
differ_one (suc zero) h = refl
differ_one (suc (suc x)) h = absurd (omega arith)

differ_zero : (x : ℕ) → differ x 0 ≡ x
differ_zero zero = refl
differ_zero (suc x) = refl

-- A mask of `k` low bits is the remainder by `2 ^ k`.
pub bit_and_mask : (k a : ℕ) → bit_and a (2 ^ k - 1) ≡ a % 2 ^ k
bit_and_mask zero a = bit_and-zero_below a a (omega arith) ∙ omega arith
bit_and_mask (suc k) a =
    let double = pow-suc 2 k in
    let some = one-le-pow k 2 in
    let half : (2 ^ suc k - 1) / 2 ≡ 2 ^ k - 1 = omega arith in
    let odd : (2 ^ suc k - 1) % 2 ≡ 1 = omega arith in
    let split : a / 2 ≡ a / 2 / 2 ^ k * 2 ^ k + a / 2 % 2 ^ k =
      omega (arith, div-add-mod' (a / 2) (2 ^ k)) in
    let below : a / 2 % 2 ^ k < 2 ^ k = mod-lt (a / 2) (omega arith) in
    bit_and_step a (2 ^ suc k - 1)
    ∙ rw (half, odd, bit_and_mask k (a / 2))
        (sym (
          mod_unique a (2 ^ suc k) (a / 2 / 2 ^ k) (a / 2 % 2 ^ k * 2 + min (a % 2) 1) (omega arith)
            (omega (arith, ap (λ (t : ℕ). a / 2 / 2 ^ k * t) double))))

-- `x ^ ~0` on `k` bits.
pub bit_xor_ones : (k x : ℕ) → x < 2 ^ k → bit_xor x (2 ^ k - 1) ≡ 2 ^ k - 1 - x
bit_xor_ones zero zero fits = zero-bit_xor 0
bit_xor_ones zero (suc x) fits = absurd (omega arith)
bit_xor_ones (suc k) x fits =
    let double = pow-suc 2 k in
    let some = one-le-pow k 2 in
    let half : (2 ^ suc k - 1) / 2 ≡ 2 ^ k - 1 = omega arith in
    let odd : (2 ^ suc k - 1) % 2 ≡ 1 = omega arith in
    bit_xor_step x (2 ^ suc k - 1)
    ∙ rw (half, odd, bit_xor_ones k (x / 2) (omega arith)) (omega (arith, differ_one (x % 2)))

bit_xor-zero_below : (k x : ℕ) → x ≤ k → bit_xor x 0 ≡ x
bit_xor-zero_below k zero h = zero-bit_xor 0
bit_xor-zero_below zero (suc x) h = absurd (omega arith)
bit_xor-zero_below (suc k) (suc x) h =
    bit_xor_step (suc x) 0
    ∙ rw (bit_xor-zero_below k (suc x / 2) (omega arith)) (omega (arith, differ_zero (suc x % 2)))

pub bit_xor-zero : (x : ℕ) → bit_xor x 0 ≡ x
bit_xor-zero x = bit_xor-zero_below x x (omega arith)

differ_twice : (x y : ℕ) → x < 2 → y < 2 → (differ x y < 2) × (differ (differ x y) y ≡ x)
differ_twice x zero h k = rw (differ_zero x) (h, differ_zero x)
differ_twice x (suc zero) h k =
    let once = differ_one x h in
    rw once (omega arith, differ_one (1 - x) (omega arith) ∙ omega arith)
differ_twice x (suc (suc y)) h k = absurd (omega arith)

bit_xor_twice_below : (n a b : ℕ) → a ≤ n → b ≤ n → bit_xor (bit_xor a b) b ≡ a
bit_xor_twice_below zero a b h k =
    let b0 : b ≡ 0 = omega arith in rw b0 (bit_xor-zero (bit_xor a 0) ∙ bit_xor-zero a)
bit_xor_twice_below (suc n) a b h k =
    let (small, back) = differ_twice (a % 2) (b % 2) (omega arith) (omega arith) in
    let high : bit_xor a b / 2 ≡ bit_xor (a / 2) (b / 2) = omega (arith, bit_xor_step a b, small) in
    let low : bit_xor a b % 2 ≡ differ (a % 2) (b % 2) = omega (arith, bit_xor_step a b, small) in
    bit_xor_step (bit_xor a b) b
    ∙ rw (high, low, bit_xor_twice_below n (a / 2) (b / 2) (omega arith) (omega arith), back)
        (omega arith)

-- What a mask changes, the same mask changes back.
pub bit_xor_twice : (a b : ℕ) → bit_xor (bit_xor a b) b ≡ a
bit_xor_twice a b = bit_xor_twice_below (a + b) a b (omega arith) (omega arith)
