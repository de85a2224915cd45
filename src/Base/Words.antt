-- ===== src/Base/Words.antt =====
-- uint32_t arithmetic.
use Prim.Native.Nat.{ℕ, ◌+◌, ◌-◌, ◌%◌, ◌<◌, ◌≤◌}
use mathlib.Core.Path.{◌≡◌}
use native.Mathlib.Omega.{arith}

abbrev pub u32_mod : ℕ
u32_mod = 4294967296

-- The bound of an int that is not negative.
abbrev pub int_mod : ℕ
int_mod = 2147483648

unfoldable pub add_u32 : ℕ → ℕ → ℕ
add_u32 a b = (a + b) % u32_mod

unfoldable pub sub_u32 : ℕ → ℕ → ℕ
sub_u32 a b = (a + u32_mod - b) % u32_mod

pub add_u32_exact : (a b : ℕ) → a + b < u32_mod → add_u32 a b ≡ a + b
unfolding add_u32
add_u32_exact a b h = omega arith

pub sub_u32_exact : (a b : ℕ) → a < u32_mod → b ≤ a → sub_u32 a b ≡ a - b
unfolding sub_u32
sub_u32_exact a b h l = omega arith
