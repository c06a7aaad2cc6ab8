-- ===== src/Prelude/Masks.antt =====
-- Masks of low bits and the joining of bit fields, as arithmetic. A mask of `k` ones, a number shifted
-- up by `k` bits and the like are taken one bit at a time, so that at a literal `k` they compute to terms
-- that linear arithmetic reads.
use Prim.Native.Nat.{ℕ, zero, suc, ◌+◌, ◌*◌, ◌/◌, ◌%◌, ◌≤◌, min, max, bit_and, bit_or}
use mathlib.Core.Path.{◌≡◌, refl, sym, ap, ◌∙◌}
use native.Mathlib.Omega.{arith}
use zenix.Prelude.Bits.{bit_at, bit_at-and, bit_at-or, bit_at-zero}

-- Numbers with the same bits are the same.
bits_ext : (fuel a b : ℕ) → a ≤ fuel → b ≤ fuel → ((j : ℕ) → bit_at a j ≡ bit_at b j) → a ≡ b
bits_ext zero a b h k same = omega arith
bits_ext (suc fuel) a b h k same =
    omega
      (arith, same 0, bits_ext fuel (a / 2) (b / 2) (omega arith) (omega arith) (λ j. same (suc j)))

same_bits : (a b : ℕ) → ((j : ℕ) → bit_at a j ≡ bit_at b j) → a ≡ b
same_bits a b same = bits_ext (a + b) a b (omega arith) (omega arith) same

and_bits :
    (x y : ℕ)
    → (j : ℕ)
    → bit_at (bit_and x y) j ≡ bit_at (2 * bit_and (x / 2) (y / 2) + min (x % 2) (y % 2)) j
and_bits x y zero = omega (arith, bit_at-and x y 0)
and_bits x y (suc j) =
    let c = bit_and (x / 2) (y / 2) in
    let e : (2 * c + min (x % 2) (y % 2)) / 2 ≡ c = omega arith in
    bit_at-and x y (suc j) ∙ sym (bit_at-and (x / 2) (y / 2) j) ∙ ap (λ n. bit_at n j) (sym e)

and_step : (x y : ℕ) → bit_and x y ≡ 2 * bit_and (x / 2) (y / 2) + min (x % 2) (y % 2)
and_step x y = same_bits _ _ (and_bits x y)

or_bits :
    (x y : ℕ)
    → (j : ℕ) → bit_at (bit_or x y) j ≡ bit_at (2 * bit_or (x / 2) (y / 2) + max (x % 2) (y % 2)) j
or_bits x y zero = omega (arith, bit_at-or x y 0)
or_bits x y (suc j) =
    let c = bit_or (x / 2) (y / 2) in
    let e : (2 * c + max (x % 2) (y % 2)) / 2 ≡ c = omega arith in
    bit_at-or x y (suc j) ∙ sym (bit_at-or (x / 2) (y / 2) j) ∙ ap (λ n. bit_at n j) (sym e)

or_step : (x y : ℕ) → bit_or x y ≡ 2 * bit_or (x / 2) (y / 2) + max (x % 2) (y % 2)
or_step x y = same_bits _ _ (or_bits x y)

-- `k` ones
abbrev pub ones : ℕ → ℕ
ones zero = 0
ones (suc k) = 2 * ones k + 1

-- The low `k` bits of `x`
abbrev pub low_bits : ℕ → ℕ → ℕ
low_bits zero x = 0
low_bits (suc k) x = 2 * low_bits k (x / 2) + x % 2

-- `x` without its low `k` bits, moved down
abbrev pub high_bits : ℕ → ℕ → ℕ
high_bits zero x = x
high_bits (suc k) x = high_bits k (x / 2)

-- `a` above `k` zeros
abbrev pub raised : ℕ → ℕ → ℕ
raised zero a = a
raised (suc k) a = 2 * raised k a

-- `a` above the low `k` bits of `b`
abbrev pub joined : ℕ → ℕ → ℕ → ℕ
joined zero a b = a
joined (suc k) a b = 2 * joined k a (b / 2) + b % 2

-- `x & mask` for a mask of `k` ones
pub and-ones : (k x : ℕ) → bit_and x (ones k) ≡ low_bits k x
and-ones zero x = same_bits _ _ (λ j. omega (arith, bit_at-and x 0 j, bit_at-zero j))
and-ones (suc k) x =
    let e : (2 * ones k + 1) / 2 ≡ ones k = omega arith in
    let s = and_step x (2 * ones k + 1) in
    omega (arith, s, ap (bit_and (x / 2)) e, and-ones k (x / 2))

-- `(a << k) | b` for a `b` of at most `k` bits
pub or-raised : (k a b : ℕ) → high_bits k b ≡ 0 → bit_or (raised k a) b ≡ joined k a b
or-raised zero a b h = rw h (same_bits _ _ (λ j. omega (arith, bit_at-or a 0 j, bit_at-zero j)))
or-raised (suc k) a b h =
    let e : 2 * raised k a / 2 ≡ raised k a = omega arith in
    let s = or_step (2 * raised k a) b in
    omega (arith, s, ap (λ n. bit_or n (b / 2)) e, or-raised k a (b / 2) h)

-- `x & (mask << k)`
pub and-raised : (k x m : ℕ) → bit_and x (raised k m) ≡ raised k (bit_and (high_bits k x) m)
and-raised zero x m = refl
and-raised (suc k) x m =
    let e : 2 * raised k m / 2 ≡ raised k m = omega arith in
    let s = and_step x (2 * raised k m) in
    omega (arith, s, ap (bit_and (x / 2)) e, and-raised k (x / 2) m)

-- `b | (a << k)` for a `b` of at most `k` bits
pub or-raised_right : (k a b : ℕ) → high_bits k b ≡ 0 → bit_or b (raised k a) ≡ joined k a b
or-raised_right k a b h =
    same_bits _ _ (λ j. omega (arith, bit_at-or b (raised k a) j, bit_at-or (raised k a) b j))
    ∙ or-raised k a b h
