-- ===== src/Common/Word.antt =====
-- `guint` and `uint32_t` arithmetic: native numbers, modulo 2 ^ 32 as in C.
use Prim.Native.Nat.{ℕ, ◌+◌, ◌-◌, ◌%◌, ◌<◌}
use mathlib.Core.Path.{◌≡◌}
use native.Mathlib.Omega.{arith}

abbrev pub u32_mod : ℕ
u32_mod = 0x1_0000_0000

-- A conversion to `guint`.
abbrev pub wrap32 : ℕ → ℕ
wrap32 a = a % u32_mod

abbrev pub add32 : ℕ → ℕ → ℕ
add32 a b = (a + b) % u32_mod

-- `a - b` where `b` is itself a 32-bit value.
abbrev pub sub32 : ℕ → ℕ → ℕ
sub32 a b = (a + u32_mod - b) % u32_mod

pub sub32-add32 : (a b : ℕ) → a < u32_mod → b < u32_mod → sub32 (add32 a b) b ≡ a
sub32-add32 a b p q = omega arith
