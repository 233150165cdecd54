-- ===== src/Prelude/Blocks.antt =====
-- Positions in a sequence of blocks of one size.
use Prim.Native.Nat.{ℕ, ◌+◌, ◌-◌, ◌*◌, ◌/◌, ◌%◌, ◌≤◌, ◌<◌}
use mathlib.Core.Path.{◌≡◌}
use native.Mathlib.Omega.{arith}

pub mod_of_block : (base c p : ℕ) → c * base ≤ p → p < c * base + base → p % base ≡ p - c * base
mod_of_block base c p lo hi = grind arith

pub block_le : (base c n p : ℕ) → c * base ≤ p → p ≤ n * base → 0 < base → c ≤ n
block_le base c n p lo hi pos = grind arith

-- `count` blocks of `base` hold `need`, and one block less would not.
pub round_up :
    (need base : ℕ)
    → 0 < base
    → 0 < need
    → (need ≤ (need + base - 1) / base * base) × ((need + base - 1) / base * base < need + base)
round_up need base pos some = grind arith

pub block_eq : (base c n p : ℕ) → c * base ≤ p → p < c * base + base → p ≡ n * base → c ≡ n
block_eq base c n p lo hi e = grind arith
