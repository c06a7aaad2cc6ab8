-- ===== src/Pmm/Bits.antt =====
-- How the three bit operations of pmm.c on the bitmap act on every block.
use zenix.Prelude.{
  ℕ, ◌/◌, ◌%◌, ◌^◌, ◌≤◌, ◌<◌, ◌≡◌, inl, inr, List, arith, ◌==◌, if◌then◌else◌, get_or, set, length,
  Bool-cases, get_or-set_self, get_or-set_ne, length-set, subst, ==_iff, bit_and, bit_or,
}
use zenix.Prelude.Bits.{
  bit_at, bit_at-le, bit_at-and, bit_at-or, bit_at-pow, bit_at-not, mask_test, two_pow_lt,
}
use zenix.Pmm.{bitmap_set, bitmap_clear, bitmap_test, not_mask}

-- The bit of block `b`.
abbrev pub block_bit : List ℕ → ℕ → ℕ
block_bit ws b = bit_at (get_or ws (b / 32) 0) (b % 32)

pub block_bit-le : (ws : List ℕ) (b : ℕ) → block_bit ws b ≤ 1
block_bit-le ws b = bit_at-le (get_or ws (b / 32) 0) (b % 32)

pub test-block_bit : (ws : List ℕ) (b : ℕ) → bitmap_test ws b ≡ (block_bit ws b == 1)
unfolding bitmap_test
test-block_bit ws b =
    rw (mask_test (get_or ws (b / 32) 0) (b % 32)) (ground (arith, block_bit-le ws b))

-- Two blocks are one exactly when they stand at one bit of one word.
same_block : (b c : ℕ) → b / 32 ≡ c / 32 → (b % 32 == c % 32) ≡ (b == c)
same_block b c e = ground arith

or_bit : (x k j : ℕ) → bit_at (bit_or x (2 ^ k)) j ≡ (if k == j then 1 else bit_at x j)
or_bit x k j = ground (arith, bit_at-or x (2 ^ k) j, bit_at-pow k j, bit_at-le x j)

and_not_bit :
    (x k j : ℕ)
    → k < 32
    → j < 32
    → bit_at (bit_and x (not_mask k)) j ≡ (if k == j then 0 else bit_at x j)
and_not_bit x k j hk hj = ground (
  arith,
  bit_at-and x (not_mask k) j,
  bit_at-not 32 (2 ^ k) j (two_pow_lt 32 k hk) hj,
  bit_at-pow k j,
  bit_at-le x j,
)

module _ (ws : List ℕ) (b c : ℕ) (h : b / 32 < length ws) where
  -- A word that is rewritten holds the new bits; the other words stay.
  word-set :
      (w : ℕ)
      → get_or (set ws (b / 32) w) (c / 32) 0
        ≡ (if b / 32 == c / 32 then w else get_or ws (c / 32) 0)
  word-set w = elim (Bool-cases (b / 32 == c / 32)) [
    | inl same ↦ rw same (
        subst (λ i. get_or (set ws (b / 32) w) i 0 ≡ w) ((==_iff _ _).0 same)
          (get_or-set_self ws (b / 32) w 0 h))
    | inr other ↦
        rw other
          (get_or-set_ne ws (b / 32) (c / 32) w 0 (λ e. cc (other, (==_iff (b / 32) (c / 32)).1 e)))
  ]

  pub block_bit-set : block_bit (bitmap_set ws b) c ≡ (if b == c then 1 else block_bit ws c)
  unfolding bitmap_set
  block_bit-set = ground (
    arith,
    word-set (bit_or (get_or ws (b / 32) 0) (2 ^ (b % 32))),
    or_bit (get_or ws (b / 32) 0) (b % 32) (c % 32),
  )

  pub block_bit-clear : block_bit (bitmap_clear ws b) c ≡ (if b == c then 0 else block_bit ws c)
  unfolding bitmap_clear
  block_bit-clear = ground (
    arith,
    word-set (bit_and (get_or ws (b / 32) 0) (not_mask (b % 32))),
    and_not_bit (get_or ws (b / 32) 0) (b % 32) (c % 32) (omega arith) (omega arith),
  )

pub length-bitmap_set : (ws : List ℕ) (b : ℕ) → length (bitmap_set ws b) ≡ length ws
unfolding bitmap_set
length-bitmap_set ws b = length-set ws (b / 32) (bit_or (get_or ws (b / 32) 0) (2 ^ (b % 32)))

pub length-bitmap_clear : (ws : List ℕ) (b : ℕ) → length (bitmap_clear ws b) ≡ length ws
unfolding bitmap_clear
length-bitmap_clear ws b =
    length-set ws (b / 32) (bit_and (get_or ws (b / 32) 0) (not_mask (b % 32)))
