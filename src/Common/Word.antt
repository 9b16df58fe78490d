-- ===== src/Common/Word.antt =====
-- Go's `uint32` and `uint16` arithmetic, which wraps.
use kws_control.Common.{ℕ, ◌+◌, ◌-◌, ◌%◌, ◌^◌, ◌<◌, ◌≡◌, arith}

abbrev pub u32_mod : ℕ
u32_mod = 2 ^ 32

abbrev pub add32 : ℕ → ℕ → ℕ
add32 a b = (a + b) % u32_mod

abbrev pub sub32 : ℕ → ℕ → ℕ
sub32 a b = (a + u32_mod - b) % u32_mod

pub add32-sub32 : (a b : ℕ) → a < u32_mod → b < u32_mod → add32 (sub32 a b) b ≡ a
add32-sub32 a b ha hb = omega arith
