-- ===== src/Ops/Words.antt =====
-- The conversions that the operations make of their `int` arguments.
use puring.Base.{ℕ, ◌==◌, ℤ, pos, negsuc, to_unsigned, Bool, false}

-- `(uint64_t)x`, `(unsigned)x` and `(__u16)x`
abbrev pub u64 : ℤ → ℕ
u64 = to_unsigned 64

abbrev pub u32 : ℤ → ℕ
u32 = to_unsigned 32

abbrev pub u16 : ℤ → ℕ
u16 = to_unsigned 16

-- `x == y`
abbrev pub eqb_ℤ : ℤ → ℤ → Bool
eqb_ℤ (pos m) (pos n) = m == n
eqb_ℤ (pos m) (negsuc n) = false
eqb_ℤ (negsuc m) (pos n) = false
eqb_ℤ (negsuc m) (negsuc n) = m == n
