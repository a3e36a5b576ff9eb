-- ===== src/Common/Int.antt =====
-- Go's `int` as an integer, and its conversions to the 16 and 32 bits of the database's columns.
-- Go's own 64 bits do not show: the sums of the source are converted to 32 bits before they are
-- kept, and 2 ^ 32 divides 2 ^ 64.
use Prim.Native.Nat.{ℕ, suc, ◌+◌, ◌-◌, ◌%◌, ◌≤◌, ◌<◌}
use mathlib.Core.Path.{◌≡◌}
use mathlib.Core.Bool.{Bool, true, false}
use native.Mathlib.Omega.{arith}
use backend_quiz.Common.Tests.{ltb, leb, ◌==◌, if◌then◌else◌}

-- `negsuc n` is -(n + 1).
pub data ℤ : Type 0 where
  pos : ℕ → ℤ
  negsuc : ℕ → ℤ

abbrev pub pos_part : ℤ → ℕ
pos_part (pos n) = n
pos_part (negsuc n) = 0

abbrev pub neg_part : ℤ → ℕ
neg_part (pos n) = 0
neg_part (negsuc n) = suc n

-- a - b, as an integer
abbrev pub sub_ℕ : ℕ → ℕ → ℤ
sub_ℕ a b = if leb b a then pos (a - b) else negsuc (b - a - 1)

infixl 65 ◌+ℤ◌
infix 50 ◌≤ℤ◌
unfoldable pub ◌+ℤ◌ : ℤ → ℤ → ℤ
a +ℤ b = sub_ℕ (pos_part a + pos_part b) (neg_part a + neg_part b)

abbrev pub ◌≤ℤ◌ : ℤ → ℤ → Type 0
a ≤ℤ b = pos_part a + neg_part b ≤ pos_part b + neg_part a

abbrev pub ltb_ℤ : ℤ → ℤ → Bool
ltb_ℤ a b = ltb (pos_part a + neg_part b) (pos_part b + neg_part a)

abbrev pub leb_ℤ : ℤ → ℤ → Bool
leb_ℤ a b = leb (pos_part a + neg_part b) (pos_part b + neg_part a)

-- int32(x): two's complement, so -x is 2 ^ 32 - x before the last shift
unfoldable pub int32 : ℤ → ℤ
int32 x =
    sub_ℕ ((pos_part x + 2147483648 + (4294967296 - neg_part x % 4294967296)) % 4294967296)
      2147483648

-- int16(x)
unfoldable pub int16 : ℤ → ℤ
int16 x = sub_ℕ ((pos_part x + 32768 + (65536 - neg_part x % 65536)) % 65536) 32768

-- int8(x)
unfoldable pub int8 : ℤ → ℤ
int8 x = sub_ℕ ((pos_part x + 128 + (256 - neg_part x % 256)) % 256) 128

abbrev pub eq_ℤ : ℤ → ℤ → Bool
eq_ℤ (pos m) (pos n) = m == n
eq_ℤ (pos m) (negsuc n) = false
eq_ℤ (negsuc m) (pos n) = false
eq_ℤ (negsuc m) (negsuc n) = m == n

abbrev pub FitsInt32 : ℤ → Type 0
FitsInt32 x = (neg_part x ≤ 2147483648) × (pos_part x < 2147483648)

abbrev pub FitsInt16 : ℤ → Type 0
FitsInt16 x = (neg_part x ≤ 32768) × (pos_part x < 32768)

pub +ℤ_parts :
    (a b : ℤ)
    → pos_part (a +ℤ b) + neg_part a + neg_part b ≡ neg_part (a +ℤ b) + pos_part a + pos_part b
unfolding ◌+ℤ◌
+ℤ_parts a b = ground arith

pub eq_of_parts : (a b : ℤ) → pos_part a + neg_part b ≡ pos_part b + neg_part a → a ≡ b
eq_of_parts a b h = ground arith

pub ruleset int_laws = (arith, +ℤ_parts, eq_of_parts)

-- A value in the range of the column is kept as it is.
pub int32_id : (x : ℤ) → FitsInt32 x → int32 x ≡ x
unfolding int32
int32_id (pos n) h = ground arith
int32_id (negsuc n) h = ground arith

pub int16_id : (x : ℤ) → FitsInt16 x → int16 x ≡ x
unfolding int16
int16_id (pos n) h = ground arith
int16_id (negsuc n) h = ground arith

pub eq_of_eq_ℤ : (a b : ℤ) → eq_ℤ a b ≡ true → a ≡ b
eq_of_eq_ℤ a b h = ground arith

-- Every converted value is in the range of the column.
pub int32_fits : (x : ℤ) → FitsInt32 (int32 x)
unfolding int32
int32_fits x = ground arith

-- From 2 ^ 31 to 2 ^ 32 - 1 the conversion changes the sign.
pub int32_wraps : (n : ℕ) → 2147483648 ≤ n → n < 4294967296 → int32 (pos n) ≡ sub_ℕ n 4294967296
unfolding int32
int32_wraps n lo hi = ground arith
