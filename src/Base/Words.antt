-- ===== src/Base/Words.antt =====
-- Unsigned counters of 64 and 32 bits.
use Prim.Native.Nat.{ℕ, ◌+◌, ◌%◌, ◌^◌, ◌<◌}
use mathlib.Core.Path.{◌≡◌}
use native.Mathlib.Omega.{arith}

-- `n++` on a uint64_t.
unfoldable pub inc64 : ℕ → ℕ
inc64 n = (n + 1) % 2 ^ 64

-- `++n` on a uint32_t.
unfoldable pub inc32 : ℕ → ℕ
inc32 n = (n + 1) % 2 ^ 32

pub inc64_lem : (n : ℕ) → n + 1 < 2 ^ 64 → inc64 n ≡ n + 1
unfolding inc64
inc64_lem n h = omega arith

pub inc32_lem : (n : ℕ) → n + 1 < 2 ^ 32 → inc32 n ≡ n + 1
unfolding inc32
inc32_lem n h = omega arith

pub inc64-lt : (n : ℕ) → inc64 n < 2 ^ 64
unfolding inc64
inc64-lt n = omega arith
