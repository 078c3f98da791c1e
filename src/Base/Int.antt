-- ===== src/Base/Int.antt =====
-- Signed integers over the native numbers, and the casts `as iN` and `as uN` of 16 and 32 bits.
use Prim.Native.Nat.{ℕ, suc, ◌+◌, ◌-◌, ◌%◌, ◌^◌, ◌≤◌, ◌<◌}
use mathlib.Core.Path.{◌≡◌}
use mathlib.Core.Bool.{Bool}
use native.Mathlib.Omega.{arith}
use sand_os.Base.Tests.{ltb, leb, if◌then◌else◌}

-- `negsuc n` is -(n + 1).
pub data ℤ : Type 0 where
  pos : ℕ → ℤ
  negsuc : ℕ → ℤ

abbrev pub pos_part : ℤ → ℕ
pos_part (pos n) = n
pos_part (negsuc n) = 0

abbrev pub neg_part : ℤ → ℕ
neg_part (pos n) = 0
neg_part (negsuc n) = suc n

-- a - b, as an integer.
abbrev pub sub_ℕ : ℕ → ℕ → ℤ
sub_ℕ a b = if leb b a then pos (a - b) else negsuc (b - a - 1)

infixl 65 ◌+ℤ◌
infix 50 ◌≤ℤ◌
unfoldable pub ◌+ℤ◌ : ℤ → ℤ → ℤ
a +ℤ b = sub_ℕ (pos_part a + pos_part b) (neg_part a + neg_part b)

abbrev pub ◌≤ℤ◌ : ℤ → ℤ → Type 0
a ≤ℤ b = pos_part a + neg_part b ≤ pos_part b + neg_part a

abbrev pub ltb_ℤ : ℤ → ℤ → Bool
ltb_ℤ a b = ltb (pos_part a + neg_part b) (pos_part b + neg_part a)

-- `v.clamp(lo, hi)`, for `lo` not above `hi`.
unfoldable pub clamp_ℤ : ℤ → ℤ → ℤ → ℤ
clamp_ℤ v lo hi = if ltb_ℤ v lo then lo else if ltb_ℤ hi v then hi else v

-- The values of an i16 and of an i32.
abbrev pub InI16 : ℤ → Type 0
InI16 z = (pos_part z < 2 ^ 15) × (neg_part z ≤ 2 ^ 15)

abbrev pub InI32 : ℤ → Type 0
InI32 z = (pos_part z < 2 ^ 31) × (neg_part z ≤ 2 ^ 31)

-- `z as u16`, `z as u32`: the two's complement pattern, wrapped.
unfoldable pub as_u16 : ℤ → ℕ
as_u16 (pos n) = n % 2 ^ 16
as_u16 (negsuc n) = 2 ^ 16 - 1 - n % 2 ^ 16

unfoldable pub as_u32 : ℤ → ℕ
as_u32 (pos n) = n % 2 ^ 32
as_u32 (negsuc n) = 2 ^ 32 - 1 - n % 2 ^ 32

-- `w as i16` of a u16, `w as i32` of a u32: the number that the pattern stands for.
unfoldable pub as_i16 : ℕ → ℤ
as_i16 w = if ltb w (2 ^ 15) then pos w else negsuc (2 ^ 16 - w - 1)

unfoldable pub as_i32 : ℕ → ℤ
as_i32 w = if ltb w (2 ^ 31) then pos w else negsuc (2 ^ 32 - w - 1)

pub as_u16-lt : (z : ℤ) → as_u16 z < 2 ^ 16
unfolding as_u16
as_u16-lt (pos n) = omega arith
as_u16-lt (negsuc n) = omega arith

pub as_u32-lt : (z : ℤ) → as_u32 z < 2 ^ 32
unfolding as_u32
as_u32-lt (pos n) = omega arith
as_u32-lt (negsuc n) = omega arith

pub as_i16-as_u16 : (z : ℤ) → InI16 z → as_i16 (as_u16 z) ≡ z
unfolding as_i16 as_u16
as_i16-as_u16 (pos n) h = ground arith
as_i16-as_u16 (negsuc n) h = ground arith

pub as_i32-as_u32 : (z : ℤ) → InI32 z → as_i32 (as_u32 z) ≡ z
unfolding as_i32 as_u32
as_i32-as_u32 (pos n) h = ground arith
as_i32-as_u32 (negsuc n) h = ground arith

pub as_i16-InI16 : (w : ℕ) → w < 2 ^ 16 → InI16 (as_i16 w)
unfolding as_i16
as_i16-InI16 w h = ground arith

pub as_i32-InI32 : (w : ℕ) → w < 2 ^ 32 → InI32 (as_i32 w)
unfolding as_i32
as_i32-InI32 w h = ground arith
