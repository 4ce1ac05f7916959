-- ===== src/Prelude/Int.antt =====
-- Signed integers over the native numbers, and the C++ conversions to `short`, `unsigned short`,
-- `int` and `unsigned char`, which keep the low bits.
use Prim.Native.Nat.{ℕ, suc, ◌+◌, ◌-◌, ◌≤◌, ◌<◌, ◌%◌}
use mathlib.Core.Path.{◌≡◌}
use mathlib.Core.Bool.{Bool}
use native.Mathlib.Omega.{arith}
use door_switch_svr.Prelude.Tests.{ltb, leb, if◌then◌else◌}

-- `negsuc n` is -(n + 1).
pub data ℤ : Type 0 where
  pos : ℕ → ℤ
  negsuc : ℕ → ℤ

abbrev pub pos_part : ℤ → ℕ
pos_part (pos n) = n
pos_part (negsuc n) = 0

abbrev pub neg_part : ℤ → ℕ
neg_part (pos n) = 0
neg_part (negsuc n) = suc n

-- a - b, as an integer.
abbrev pub sub_ℕ : ℕ → ℕ → ℤ
sub_ℕ a b = if leb b a then pos (a - b) else negsuc (b - a - 1)

infixl 65 ◌-ℤ◌
infix 50 ◌≤ℤ◌
unfoldable pub ◌-ℤ◌ : ℤ → ℤ → ℤ
a -ℤ b = sub_ℕ (pos_part a + neg_part b) (neg_part a + pos_part b)

abbrev pub ◌≤ℤ◌ : ℤ → ℤ → Type 0
a ≤ℤ b = pos_part a + neg_part b ≤ pos_part b + neg_part a

abbrev pub leb_ℤ : ℤ → ℤ → Bool
leb_ℤ a b = leb (pos_part a + neg_part b) (pos_part b + neg_part a)

abbrev pub ltb_ℤ : ℤ → ℤ → Bool
ltb_ℤ a b = ltb (pos_part a + neg_part b) (pos_part b + neg_part a)

-- The low 16 bits of an integer: the conversion to `unsigned short`.
abbrev pub u16 : ℤ → ℕ
u16 (pos n) = n % 65536
u16 (negsuc n) = 65535 - n % 65536

-- The `short` that 16 bits stand for.
abbrev pub short_of : ℕ → ℤ
short_of w = if ltb w 32768 then pos w else negsuc (65535 - w)

-- The conversion of an integer to `short`.
abbrev pub i16 : ℤ → ℤ
i16 a = short_of (u16 a)

-- The conversion of a natural number to `int`.
abbrev pub i32 : ℕ → ℤ
i32 n = let w = n % 4294967296 in if ltb w 2147483648 then pos w else negsuc (4294967295 - w)

-- The low 8 bits of a natural number: the conversion to `unsigned char`.
abbrev pub u8 : ℕ → ℕ
u8 n = n % 256

-- A value that fits a `short` is kept.
pub u16-i16 : (a : ℤ) → u16 (i16 a) ≡ u16 a
u16-i16 (pos n) = ground arith
u16-i16 (negsuc n) = ground arith

pub i16_small : (n : ℕ) → n < 32768 → i16 (pos n) ≡ pos n
i16_small n h = ground arith

-- A value that an `unsigned short` holds comes back from it.
pub u16-pos : (n : ℕ) → n < 65536 → u16 (pos n) ≡ n
u16-pos n h = omega arith

-- The upper half of 16 bits stands for negative numbers.
pub i16_large : (n : ℕ) → 32768 ≤ n → n < 65536 → i16 (pos n) ≡ negsuc (65535 - n)
i16_large n l h = ground arith
