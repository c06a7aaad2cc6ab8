-- ===== src/Prelude/Bits.antt =====
-- The bit operations of C on words, by their bits: what `|`, `&` and `~` do at every position.
use Prim.Native.Nat.{ℕ, zero, suc, ◌+◌, ◌-◌, ◌*◌, ◌/◌, ◌%◌, ◌^◌, ◌≤◌, ◌<◌, min, max}
use Prim.Native.Nat.{bit_and, bit_or, digits, bit_and-bitwise, bit_or-bitwise}
use mathlib.Core.Path.{◌≡◌, refl, ap, subst, ◌∙◌}
use native.Mathlib.Omega.{arith}
use native.Mathlib.Nat.{pow-suc, two-pow-succ, one-le-pow, pow-le-pow_right}
use mathlib.Core.Bool.{true, false}
use mathlib.Core.Logic.{◌⊎◌, inl, inr}
use zenix.Prelude.Tests.{◌==◌, if◌then◌else◌, ==_iff, Bool-cases}

-- The bit of `x` at position `j`, as 0 or 1.
abbrev pub bit_at : ℕ → ℕ → ℕ
bit_at x zero = x % 2
bit_at x (suc j) = bit_at (x / 2) j

pub bit_at-le : (x j : ℕ) → bit_at x j ≤ 1
bit_at-le x zero = omega arith
bit_at-le x (suc j) = bit_at-le (x / 2) j

pub bit_at-zero : (j : ℕ) → bit_at 0 j ≡ 0
bit_at-zero zero = refl
bit_at-zero (suc j) = bit_at-zero j

-- A digit put below a number.
low_digit : (x d j : ℕ) → d ≤ 1 → bit_at (x * 2 + d) j ≡ elim j [ zero ↦ d | suc i ↦ bit_at x i ]
low_digit x d zero h = omega arith
low_digit x d (suc j) h = let e : (x * 2 + d) / 2 ≡ x = omega arith in rw e

-- An operation on numbers that is done digit by digit, by `f`, and gives `rest b` where the first
-- number has run out, acts on every bit by `f`.
module _ (rest : ℕ → ℕ) (f : ℕ → ℕ → ℕ) (small : (x y : ℕ) → x ≤ 1 → y ≤ 1 → f x y ≤ 1)
    (out : (b j : ℕ) → bit_at (rest b) j ≡ f 0 (bit_at b j)) where
  exhausted : (b j : ℕ) → bit_at (rest b) j ≡ f (bit_at 0 j) (bit_at b j)
  exhausted b j = rw (bit_at-zero j) (out b j)

  bit_at-digits :
      (n a b j : ℕ) → a ≤ n → bit_at (digits rest f n a b) j ≡ f (bit_at a j) (bit_at b j)
  bit_at-digits zero zero b j h = exhausted b j
  bit_at-digits zero (suc a) b j h = elim h [ ]
  bit_at-digits (suc n) zero b j h = exhausted b j
  bit_at-digits (suc n) (suc a) b zero h =
      low_digit (digits rest f n (suc a / 2) (b / 2)) (f (suc a % 2) (b % 2)) zero
        (small (suc a % 2) (b % 2) (omega arith) (omega arith))
  bit_at-digits (suc n) (suc a) b (suc j) h =
      low_digit (digits rest f n (suc a / 2) (b / 2)) (f (suc a % 2) (b % 2)) (suc j)
        (small (suc a % 2) (b % 2) (omega arith) (omega arith))
      ∙ bit_at-digits n (suc a / 2) (b / 2) j (omega arith)

pub bit_at-and : (a b j : ℕ) → bit_at (bit_and a b) j ≡ min (bit_at a j) (bit_at b j)
bit_at-and a b j =
    ap (λ x. bit_at x j) (bit_and-bitwise a b)
    ∙ bit_at-digits (λ b. zero) min (λ x y h k. omega arith) (λ b j. omega (arith, bit_at-zero j)) a
        a b j (omega arith)

pub bit_at-or : (a b j : ℕ) → bit_at (bit_or a b) j ≡ max (bit_at a j) (bit_at b j)
bit_at-or a b j =
    ap (λ x. bit_at x j) (bit_or-bitwise a b)
    ∙ bit_at-digits (λ b. b) max (λ x y h k. omega arith) (λ b j. omega arith) a a b j (omega arith)

pow-half : (k : ℕ) → 2 ^ suc k / 2 ≡ 2 ^ k
pow-half k = omega (arith, pow-suc 2 k)

-- `1 << k` has the one bit `k`.
pub bit_at-pow : (k j : ℕ) → bit_at (2 ^ k) j ≡ (if k == j then 1 else 0)
bit_at-pow zero zero = refl
bit_at-pow zero (suc j) = bit_at-zero j ∙ ground arith
bit_at-pow (suc k) zero = ground (arith, pow-suc 2 k)
bit_at-pow (suc k) (suc j) = rw (pow-half k) (bit_at-pow k j ∙ ground arith)

-- `~x` at `n` bits has the other bits.
pub bit_at-not : (n x j : ℕ) → x < 2 ^ n → j < n → bit_at (2 ^ n - 1 - x) j ≡ 1 - bit_at x j
bit_at-not zero x j h lt = elim lt [ ]
bit_at-not (suc n) x zero h lt = omega (arith, pow-suc 2 n)
bit_at-not (suc n) x (suc j) h lt =
    let e : (2 ^ suc n - 1 - x) / 2 ≡ 2 ^ n - 1 - x / 2 = omega (arith, pow-suc 2 n) in
    rw e (bit_at-not n (x / 2) j (omega (arith, pow-suc 2 n)) (omega arith))

-- A number without bits is 0.
zero_of_bits : (fuel n : ℕ) → n ≤ fuel → ((j : ℕ) → bit_at n j ≡ 0) → n ≡ 0
zero_of_bits fuel zero h bits = refl
zero_of_bits zero (suc n) h bits = absurd (omega arith)
zero_of_bits (suc fuel) (suc n) h bits =
    omega (arith, bits 0, zero_of_bits fuel (suc n / 2) (omega arith) (λ j. bits (suc j)))

-- `x & (1 << k)` is 0 exactly when that bit is.
pub mask_test : (x k : ℕ) → (bit_and x (2 ^ k) == 0) ≡ (bit_at x k == 0)
mask_test x k = elim (Bool-cases (bit_at x k == 0)) [
  | inl off ↦
      let e =
        zero_of_bits (bit_and x (2 ^ k)) (bit_and x (2 ^ k)) (omega arith)
          (λ j. masked off j (Bool-cases (k == j))) in
      rw (off, e)
  | inr on ↦
      let e : bit_at (bit_and x (2 ^ k)) k ≡ 1 =
        ground (arith, bit_at-and x (2 ^ k) k, bit_at-pow k k, bit_at-le x k) in
      elim (Bool-cases (bit_and x (2 ^ k) == 0)) [
        | inl z ↦
            let z' : bit_and x (2 ^ k) ≡ 0 = (==_iff _ _).0 z in
            absurd (omega (arith, e, ap (λ w. bit_at w k) z', bit_at-zero k))
        | inr nz ↦ rw (nz, on)
      ]
]
  where
    masked :
        (bit_at x k == 0) ≡ true
        → (j : ℕ) → ((k == j) ≡ true) ⊎ ((k == j) ≡ false)
        → bit_at (bit_and x (2 ^ k)) j ≡ 0
    masked off j (inl same) =
        let e : k ≡ j = (==_iff _ _).0 same in
        subst (λ i. bit_at (bit_and x (2 ^ k)) i ≡ 0) e
          (ground (arith, bit_at-and x (2 ^ k) k, off))
    masked off j (inr other) = ground (arith, bit_at-and x (2 ^ k) j, bit_at-pow k j)

pub two_pow_pos : (k : ℕ) → 0 < 2 ^ k
two_pow_pos k = one-le-pow k 2 (omega arith)

pub two_pow_lt : (n k : ℕ) → k < n → 2 ^ k < 2 ^ n
two_pow_lt n k h =
    omega (arith, two-pow-succ k, two_pow_pos k, pow-le-pow_right {n = 2} (omega arith) h)
