-- ===== src/Prelude/Words.antt =====
-- Go's `uint64`: a number below 2^64, whose sums wrap around.
use Prim.Native.Nat.{ℕ, ◌%◌, ◌≤◌, ◌<◌}
use mathlib.Core.Path.{◌≡◌}
use native.Mathlib.Omega.{arith}

-- 2^64.
abbrev pub u64_mod : ℕ
u64_mod = 18446744073709551616

abbrev pub u64 : ℕ → ℕ
u64 n = n % 18446744073709551616

pub u64_exact : (n : ℕ) → n < u64_mod → u64 n ≡ n
u64_exact n h = omega arith

pub u64-le : (n : ℕ) → u64 n ≤ n
u64-le n = omega arith
