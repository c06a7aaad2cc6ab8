-- ===== src/Pmm/Count.antt =====
-- The number of frames taken, which `used_blocks` of pmm.c keeps, and the manager's invariant.
use zenix.Prelude.{
  ℕ, zero, suc, ◌+◌, ◌*◌, ◌/◌, ◌^◌, ◌≤◌, ◌<◌, ◌≡◌, List, arith, ltb, if◌then◌else◌, length,
}
use zenix.Pmm.{Pmm, bitmap_set, bitmap_clear}
use zenix.Pmm.Bits.{block_bit, block_bit-le, block_bit-set, block_bit-clear}

-- The blocks below `n` whose bit is set.
unfoldable pub taken : List ℕ → ℕ → ℕ
taken ws zero = 0
taken ws (suc n) = block_bit ws n + taken ws n

pub taken-le : (ws : List ℕ) (n : ℕ) → taken ws n ≤ n
unfolding taken
taken-le ws zero = omega arith
taken-le ws (suc n) = omega (arith, block_bit-le ws n, taken-le ws n)

module _ (ws : List ℕ) (b : ℕ) (h : b / 32 < length ws) where
  pub taken-set :
      (n : ℕ)
      → taken (bitmap_set ws b) n + (if ltb b n then block_bit ws b else 0)
        ≡ taken ws n + (if ltb b n then 1 else 0)
  unfolding taken
  taken-set zero = ground arith
  taken-set (suc n) = ground (arith, block_bit-set ws b n h, taken-set n)

  pub taken-clear :
      (n : ℕ) → taken (bitmap_clear ws b) n + (if ltb b n then block_bit ws b else 0) ≡ taken ws n
  unfolding taken
  taken-clear zero = ground arith
  taken-clear (suc n) = ground (arith, block_bit-clear ws b n h, taken-clear n)

-- The bitmap covers every block, the memory fits in 32 bits, and the counter is right.
pub record IsValid (s : Pmm) : Type 0 where
  pub covered : s.total_blocks ≤ 32 * length s.words
  pub blocks : s.total_blocks ≡ s.total_memory / 4096
  pub fits : s.total_memory < 2 ^ 32
  pub counted : s.used_blocks ≡ taken s.words s.total_blocks
