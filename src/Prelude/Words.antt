-- ===== src/Prelude/Words.antt =====
-- Machine words as native numbers below a power of two.
use Prim.Native.Nat.{ℕ, ◌+◌, ◌-◌, ◌%◌, ◌^◌, ◌≤◌, ◌<◌}
use mathlib.Core.Path.{◌≡◌}
use native.Mathlib.Omega.{arith}

abbrev pub IsByte : ℕ → Type 0
IsByte b = b < 256

abbrev pub IsU32 : ℕ → Type 0
IsU32 v = v < 2 ^ 32

abbrev pub IsU64 : ℕ → Type 0
IsU64 v = v < 2 ^ 64

-- `a - b` at type size_t or uint64_t: it wraps around.
unfoldable pub sub64 : ℕ → ℕ → ℕ
sub64 a b = (a + 2 ^ 64 - b) % 2 ^ 64

-- `a + b` at type size_t or uint64_t.
unfoldable pub add64 : ℕ → ℕ → ℕ
add64 a b = (a + b) % 2 ^ 64

pub sub64_no_wrap : (a b : ℕ) → b ≤ a → IsU64 a → sub64 a b ≡ a - b
unfolding sub64
sub64_no_wrap a b h u = omega arith

pub add64_no_wrap : (a b : ℕ) → IsU64 (a + b) → add64 a b ≡ a + b
unfolding add64
add64_no_wrap a b u = omega arith
