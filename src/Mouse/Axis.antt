-- ===== src/Mouse/Axis.antt =====
-- One axis of the pointer: the counts that a packet stands for, their doubling, and the edges of the screen.
use zenix.Prelude.{
  ℕ, ◌+◌, ◌-◌, ◌≤◌, sym, subst, ◌^◌, ◌<◌, bit_and, ◌≡◌, inl, inr, true, false, ◌&&◌, arith, ltb,
  ◌==◌, if◌then◌else◌, Bool-cases,
}
use zenix.Prelude.Int.{ℤ, pos, negsuc, sub_ℕ, ◌+ℤ◌}
use zenix.Prelude.Bits.{bit_at, mask_test}
use zenix.Mouse.{signed_byte, extend, accelerate, clamp, distance}

-- A place on one axis of the screen
abbrev pub OnAxis : ℤ → ℕ → Type 0
OnAxis v size = (n : ℕ) × (v ≡ pos n) × (n < size)

pub clamp-OnAxis : (v : ℤ) (size : ℕ) → 0 < size → OnAxis (clamp v size) size
unfolding clamp
clamp-OnAxis (pos n) size h = elim (Bool-cases (ltb n size)) [
  | inl e ↦ (n, ground (arith, e), ground (arith, e))
  | inr e ↦ (size - 1, ground (arith, e), omega (arith, h))
]
clamp-OnAxis (negsuc n) size h = (0, ground (arith, h), h)

-- The counts that a byte of the packet and its sign bit stand for: from -256 to 127.
pub counts : ℕ → ℕ → ℤ
counts byte sign = if sign == 0 && ltb byte 128 then pos byte else sub_ℕ byte 256

distance-counts : (byte sign : ℕ) → byte < 256 → distance byte sign ≡ counts byte sign
unfolding distance counts signed_byte extend
distance-counts byte sign h = ground arith

-- The size of a number without its sign
abbrev pub size_of : ℤ → ℕ
size_of (pos n) = n
size_of (negsuc n) = n + 1

-- Counts beyond 5 count double.
pub data Sped (d : ℤ) : ℤ → Type 0 where
  slow : size_of d ≤ 5 → Sped d d
  fast : 5 < size_of d → Sped d (d +ℤ d)

-- The place `v` held on an axis of `size` places
pub data Held (size : ℕ) : ℤ → ℤ → Type 0 where
  inside : (n : ℕ) → n < size → Held size (pos n) (pos n)
  before : (n : ℕ) → Held size (negsuc n) (pos 0)
  behind : (n : ℕ) → size ≤ n → Held size (pos n) (pos (size - 1))

pub accelerate-Sped : (d : ℤ) → Sped d (accelerate d)
accelerate-Sped d = elim (Bool-cases (ltb 5 (size_of d))) [
  | inl e ↦ subst (Sped d) (sym (doubled d e)) (fast (ground (arith, e)))
  | inr e ↦ subst (Sped d) (sym (plain d e)) (slow (ground (arith, e)))
]
  where
    doubled : (d : ℤ) → ltb 5 (size_of d) ≡ true → accelerate d ≡ d +ℤ d
    doubled (pos n) e = unfold accelerate in ground (arith, e)
    doubled (negsuc n) e = unfold accelerate in ground (arith, e)

    plain : (d : ℤ) → ltb 5 (size_of d) ≡ false → accelerate d ≡ d
    plain (pos n) e = unfold accelerate in ground (arith, e)
    plain (negsuc n) e = unfold accelerate in ground (arith, e)

pub clamp-Held : (v : ℤ) (size : ℕ) → 0 < size → Held size v (clamp v size)
unfolding clamp
clamp-Held (pos n) size h = elim (Bool-cases (ltb n size)) [
  | inl e ↦
      let same : clamp (pos n) size ≡ pos n = ground (arith, e) in
      subst (Held size (pos n)) (sym same) (inside n (ground (arith, e)))
  | inr e ↦
      let last : clamp (pos n) size ≡ pos (size - 1) = ground (arith, e) in
      subst (Held size (pos n)) (sym last) (behind n (ground (arith, e)))
]
clamp-Held (negsuc n) size h =
    let first : clamp (negsuc n) size ≡ pos 0 = ground (arith, h) in
    subst (Held size (negsuc n)) (sym first) (before n)

pub masked_distance :
    (first k byte : ℕ)
    → byte < 256
    → distance byte (bit_and first (2 ^ k)) ≡ counts byte (bit_at first k)
unfolding counts distance signed_byte extend
masked_distance first k byte h = ground (arith, mask_test first k, h)
