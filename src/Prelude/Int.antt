-- ===== src/Prelude/Int.antt =====
-- Signed integers over the native numbers: `negsuc n` is -(n + 1).
use Prim.Native.Nat.{ℕ, suc, ◌+◌, ◌-◌, ◌^◌, ◌<◌}
use mathlib.Core.Path.{◌≡◌}
use mathlib.Core.Logic.{◌↔◌}
use mathlib.Core.Bool.{Bool}
use native.Mathlib.Omega.{arith}
use zenix.Prelude.Word.{u32}
use zenix.Prelude.Tests.{ltb, leb, if◌then◌else◌}

pub data ℤ : Type 0 where
  pos : ℕ → ℤ
  negsuc : ℕ → ℤ

abbrev pub pos_part : ℤ → ℕ
pos_part (pos n) = n
pos_part (negsuc n) = 0

abbrev pub neg_part : ℤ → ℕ
neg_part (pos n) = 0
neg_part (negsuc n) = suc n

-- a - b, as an integer.
abbrev pub sub_ℕ : ℕ → ℕ → ℤ
sub_ℕ a b = if leb b a then pos (a - b) else negsuc (b - a - 1)

-- A difference is 0 exactly for equal numbers.
pub sub_ℕ-zero : (a b : ℕ) → (sub_ℕ a b ≡ pos 0) ↔ (a ≡ b)
sub_ℕ-zero a b = ground arith

infix 60 ◌+ℤ◌
abbrev pub ◌+ℤ◌ : ℤ → ℤ → ℤ
a +ℤ b = sub_ℕ (pos_part a + pos_part b) (neg_part a + neg_part b)

infix 60 ◌-ℤ◌
abbrev pub ◌-ℤ◌ : ℤ → ℤ → ℤ
a -ℤ b = sub_ℕ (pos_part a + neg_part b) (neg_part a + pos_part b)

-- a < b
abbrev pub ltb_ℤ : ℤ → ℤ → Bool
ltb_ℤ a b = ltb (pos_part a + neg_part b) (pos_part b + neg_part a)

-- The conversions between int and uint32_t
unfoldable pub to_uint : ℤ → ℕ
to_uint (pos n) = u32 n
to_uint (negsuc n) = 2 ^ 32 - 1 - u32 n

unfoldable pub to_int : ℕ → ℤ
to_int n = if ltb n (2 ^ 31) then pos n else negsuc (2 ^ 32 - 1 - n)

pub to_int-small : (n : ℕ) → n < 2 ^ 31 → to_int n ≡ pos n
unfolding to_int
to_int-small n h = ground arith
