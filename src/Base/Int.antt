-- ===== src/Base/Int.antt =====
-- C's `int`, and its conversions to and from unsigned words. `negsuc n` is -(n + 1).
use Prim.Native.Nat.{ℕ, zero, suc, ◌-◌, ◌%◌, ◌^◌, ◌<◌}
use mathlib.Core.Path.{◌≡◌}
use mathlib.Core.Bool.{Bool, true, false}
use native.Mathlib.Omega.{arith}
use puring.Base.Tests.{ltb, if◌then◌else◌}

pub data ℤ : Type 0 where
  pos : ℕ → ℤ
  negsuc : ℕ → ℤ

abbrev pub is_neg : ℤ → Bool
is_neg (pos n) = false
is_neg (negsuc n) = true

abbrev pub is_zero : ℤ → Bool
is_zero (pos zero) = true
is_zero (pos (suc n)) = false
is_zero (negsuc n) = false

-- `x + 1`
abbrev pub inc : ℤ → ℤ
inc (pos n) = pos (suc n)
inc (negsuc zero) = pos 0
inc (negsuc (suc n)) = negsuc n

-- `x - 1`
abbrev pub dec : ℤ → ℤ
dec (pos zero) = negsuc 0
dec (pos (suc n)) = pos n
dec (negsuc n) = negsuc (suc n)

-- `x < y`
abbrev pub ltb_ℤ : ℤ → ℤ → Bool
ltb_ℤ (pos m) (pos n) = ltb m n
ltb_ℤ (pos m) (negsuc n) = false
ltb_ℤ (negsuc m) (pos n) = true
ltb_ℤ (negsuc m) (negsuc n) = ltb n m

-- The value of a number that is not negative; 0 for the others.
abbrev pub to_nat : ℤ → ℕ
to_nat (pos n) = n
to_nat (negsuc n) = 0

-- The conversion to an unsigned word of `w` bits, sign extension included.
unfoldable pub to_unsigned : ℕ → ℤ → ℕ
to_unsigned w (pos n) = n % 2 ^ w
to_unsigned w (negsuc n) = 2 ^ w - 1 - n % 2 ^ w

-- The conversion to a signed word of `w + 1` bits, as gcc and clang make it.
unfoldable pub to_signed : ℕ → ℕ → ℤ
to_signed w n = let m = n % 2 ^ suc w in if ltb m (2 ^ w) then pos m else negsuc (2 ^ suc w - 1 - m)

-- The values of `int`.
abbrev pub IsInt : ℤ → Type 0
IsInt (pos n) = n < 2 ^ 31
IsInt (negsuc n) = n < 2 ^ 31

-- An `int` that is widened to the 64-bit word of a tag, sign extension included, is read back from
-- it unchanged.
pub to_signed-to_unsigned : (x : ℤ) → IsInt x → to_signed 31 (to_unsigned 64 x) ≡ x
unfolding to_signed to_unsigned
to_signed-to_unsigned (pos n) h = ground arith
to_signed-to_unsigned (negsuc n) h = ground arith

-- A size that an `int` can hold.
pub to_signed_of_lt : (n : ℕ) → n < 2 ^ 31 → to_signed 31 n ≡ pos n
unfolding to_signed
to_signed_of_lt n h = ground arith

-- `(int)(uintptr_t)UINT64_MAX`
pub to_signed-all_ones : to_signed 31 (2 ^ 64 - 1) ≡ negsuc 0
unfolding to_signed
to_signed-all_ones = ground arith

pub to_unsigned_16_of_lt : (n : ℕ) → n < 2 ^ 16 → to_unsigned 16 (pos n) ≡ n
unfolding to_unsigned
to_unsigned_16_of_lt n h = ground arith

pub to_unsigned_32_of_lt : (n : ℕ) → n < 2 ^ 32 → to_unsigned 32 (pos n) ≡ n
unfolding to_unsigned
to_unsigned_32_of_lt n h = ground arith

pub to_unsigned_of_lt : (n : ℕ) → n < 2 ^ 31 → to_unsigned 64 (pos n) ≡ n
unfolding to_unsigned
to_unsigned_of_lt n h = ground arith
