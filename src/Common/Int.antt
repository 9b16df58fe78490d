-- ===== src/Common/Int.antt =====
-- Go's `int`, as signed integers over the native numbers.
use kws_control.Common.{ℕ, zero, suc, Bool, true, false, leb}

-- `negsuc n` is -(n + 1).
pub data ℤ : Type 0 where
  pos : ℕ → ℤ
  negsuc : ℕ → ℤ

abbrev pub minus_one : ℤ
minus_one = negsuc 0

-- z < 0
abbrev pub is_neg : ℤ → Bool
is_neg (pos n) = false
is_neg (negsuc n) = true

-- z >= n
abbrev pub ge_ℕ : ℤ → ℕ → Bool
ge_ℕ (pos m) n = leb n m
ge_ℕ (negsuc m) n = false

-- z + 1
abbrev pub suc_ℤ : ℤ → ℤ
suc_ℤ (pos n) = pos (suc n)
suc_ℤ (negsuc zero) = pos 0
suc_ℤ (negsuc (suc k)) = negsuc k
