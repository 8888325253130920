-- ===== src/Base/Int.antt =====
-- Signed integers over the native numbers, under the library's names, and the 16-bit signed
-- integers as a range of them.
use Prim.Native.Nat.{ℕ, suc, ◌+◌, ◌-◌, ◌%◌, ◌≤◌, ◌<◌}
use mathlib.Core.Path.{◌≡◌}
use mathlib.Core.Bool.{Bool}
use native.Mathlib.Omega.{arith}
use hex.Base.Tests.{ltb, leb, if◌then◌else◌}

-- `negsuc n` is -(n + 1).
pub data ℤ : Type 0 where
  pos : ℕ → ℤ
  negsuc : ℕ → ℤ

abbrev pub pos_part : ℤ → ℕ
pos_part (pos n) = n
pos_part (negsuc n) = 0

abbrev pub neg_part : ℤ → ℕ
neg_part (pos n) = 0
neg_part (negsuc n) = suc n

-- a - b, as an integer.
abbrev pub sub_ℕ : ℕ → ℕ → ℤ
sub_ℕ a b = if leb b a then pos (a - b) else negsuc (b - a - 1)

infixl 65 ◌+ℤ◌ ◌-ℤ◌
abbrev pub ◌+ℤ◌ : ℤ → ℤ → ℤ
a +ℤ b = sub_ℕ (pos_part a + pos_part b) (neg_part a + neg_part b)

abbrev pub ◌-ℤ◌ : ℤ → ℤ → ℤ
a -ℤ b = sub_ℕ (pos_part a + neg_part b) (neg_part a + pos_part b)

abbrev pub ltb_ℤ : ℤ → ℤ → Bool
ltb_ℤ a b = ltb (pos_part a + neg_part b) (pos_part b + neg_part a)

abbrev pub leb_ℤ : ℤ → ℤ → Bool
leb_ℤ a b = leb (pos_part a + neg_part b) (pos_part b + neg_part a)

-- C's abs
abbrev pub abs : ℤ → ℕ
abs a = pos_part a + neg_part a

-- the bit pattern of an integer converted to 16 bits
abbrev pub u16 : ℤ → ℕ
u16 (pos n) = n % 65536
u16 (negsuc n) = 65535 - n % 65536

-- the `signed short` that a bit pattern stands for
abbrev pub signed16 : ℕ → ℤ
signed16 w = if ltb w 32768 then pos w else negsuc (65535 - w)

-- conversion to `signed short`
abbrev pub int16 : ℤ → ℤ
int16 z = signed16 (u16 z)

-- conversion to `unsigned int` and to `int`
abbrev pub u32 : ℤ → ℕ
u32 (pos n) = n % 4294967296
u32 (negsuc n) = 4294967295 - n % 4294967296

abbrev pub signed32 : ℕ → ℤ
signed32 w = if ltb w 2147483648 then pos w else negsuc (4294967295 - w)

abbrev pub int32 : ℤ → ℤ
int32 z = signed32 (u32 z)

abbrev pub IsInt16 : ℤ → Type 0
IsInt16 z = (pos_part z < 32768) × (neg_part z ≤ 32768)

pub int16_of_IsInt16 : (z : ℤ) → IsInt16 z → int16 z ≡ z
int16_of_IsInt16 (pos n) h = ground arith
int16_of_IsInt16 (negsuc n) h = ground arith

pub int32_pos : (n : ℕ) → n < 2147483648 → int32 (pos n) ≡ pos n
int32_pos n h = ground arith

pub u32_bound : (z : ℤ) → u32 z < 4294967296
u32_bound (pos n) = omega arith
u32_bound (negsuc n) = omega arith
