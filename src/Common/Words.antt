-- ===== src/Common/Words.antt =====
-- Rust's fixed-width arithmetic in a release build, where `+` and `-` wrap around.
use Prim.Native.Nat.{ℕ, ◌+◌, ◌-◌, ◌%◌, ◌^◌, ◌≤◌, ◌<◌}
use mathlib.Core.Path.{◌≡◌}
use native.Mathlib.Omega.{arith}
use mathlib.Core.Bool.{Bool}
use stratum_v2_tools.Common.Tests.{leb, if◌then◌else◌}

abbrev pub u32_mod : ℕ
u32_mod = 2 ^ 32

abbrev pub u64_mod : ℕ
u64_mod = 2 ^ 64

abbrev pub i64_half : ℕ
i64_half = 2 ^ 63

-- `n as i64` of a 64-bit word is negative from 2 ^ 63 on, and then `n - 2 ^ 64`.
unfoldable pub is_negative_i64 : ℕ → Bool
is_negative_i64 n = leb i64_half n

-- The absolute value of `n as i64`.
unfoldable pub abs_i64 : ℕ → ℕ
unfolding is_negative_i64
abs_i64 n = if is_negative_i64 n then u64_mod - n else n

-- `as u32` of a wider unsigned integer.
unfoldable pub as_u32 : ℕ → ℕ
as_u32 a = a % u32_mod

unfoldable pub add_u32 : ℕ → ℕ → ℕ
add_u32 a b = (a + b) % u32_mod

unfoldable pub add_u64 : ℕ → ℕ → ℕ
add_u64 a b = (a + b) % u64_mod

unfoldable pub sub_u64 : ℕ → ℕ → ℕ
sub_u64 a b = (a + u64_mod - b) % u64_mod

pub add_u32_exact : (a b : ℕ) → a + b < u32_mod → add_u32 a b ≡ a + b
unfolding add_u32
add_u32_exact a b h = omega arith

pub add_u64_exact : (a b : ℕ) → a + b < u64_mod → add_u64 a b ≡ a + b
unfolding add_u64
add_u64_exact a b h = omega arith

pub sub_u64_exact : (a b : ℕ) → a < u64_mod → b ≤ a → sub_u64 a b ≡ a - b
unfolding sub_u64
sub_u64_exact a b h k = omega arith

-- One more is taken away than is there.
pub sub_u64_below : (a : ℕ) → sub_u64 a (a + 1) ≡ u64_mod - 1
unfolding sub_u64
sub_u64_below a = omega arith
