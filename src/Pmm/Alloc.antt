-- ===== src/Pmm/Alloc.antt =====
-- `pmm_alloc_page`: first fit, and what it keeps.
use zenix.Prelude.{
  ℕ, zero, suc, ◌+◌, ◌*◌, ◌≤◌, ◌<◌, ◌≡◌, refl, inl, inr, true, false, ◌||◌, none, some, List, arith,
  ◌==◌, Bool-cases, Option-cases,
}
use zenix.Pmm.{Pmm, bitmap_set, bitmap_test, find_from, bitmap_find_free, pmm_alloc_page}
use zenix.Pmm.Bits.{block_bit-le, block_bit-set, test-block_bit, length-bitmap_set}
use zenix.Pmm.Count.{taken-le, taken-set, IsValid}

module _ (ws : List ℕ) where
  find_from-none :
      (n i : ℕ) → find_from ws n i ≡ none → (j : ℕ) → i ≤ j → j < i + n → bitmap_test ws j ≡ true
  unfolding find_from
  find_from-none zero i e j h k = absurd (omega arith)
  find_from-none (suc n) i e j h k = elim (Bool-cases (bitmap_test ws i)) [
    | inl t ↦ elim (Bool-cases (i == j)) [
      | inl same ↦ ground arith
      | inr other ↦ find_from-none n (i + 1) (ground arith) j (ground arith) (omega arith)
    ]
    | inr f ↦ ground arith
  ]

  find_from-some :
      (n i p : ℕ)
      → find_from ws n i ≡ some p
      → (i ≤ p)
        × (p < i + n)
        × (bitmap_test ws p ≡ false)
        × ((j : ℕ) → i ≤ j → j < p → bitmap_test ws j ≡ true)
  unfolding find_from
  find_from-some zero i p e = ground arith
  find_from-some (suc n) i p e = elim (Bool-cases (bitmap_test ws i)) [
    | inl t ↦
        let rest = find_from-some n (i + 1) p (ground arith) in
        (
          omega arith,
          omega arith,
          rest.2,
          λ j h k. elim (Bool-cases (i == j)) [
            | inl same ↦ ground arith
            | inr other ↦ rest.3 j (ground arith) k
          ],
        )
    | inr f ↦ (ground arith, ground arith, ground arith, λ j h k. absurd (ground arith))
  ]

-- The outcome of `pmm_alloc_page`: refused with everything taken, or the lowest free frame.
pub data Allocated (s : Pmm) : ℕ × Pmm → Type 0 where
  full : ((j : ℕ) → j < s.total_blocks → bitmap_test s.words j ≡ true) → Allocated s (0, s)
  frame :
      (page : ℕ) (s' : Pmm)
      → page < s.total_blocks
      → bitmap_test s.words page ≡ false
      → ((j : ℕ) → j < page → bitmap_test s.words j ≡ true)
      → ((j : ℕ) → bitmap_test s'.words j ≡ (page == j || bitmap_test s.words j))
      → s'.used_blocks ≡ s.used_blocks + 1
      → (s'.total_blocks ≡ s.total_blocks) × (s'.total_memory ≡ s.total_memory)
      → Allocated s (page * 4096, s')

module _ {s : Pmm} (v : IsValid s) where
  pub bitmap_test-set :
      (b j : ℕ)
      → b < s.total_blocks
      → bitmap_test (bitmap_set s.words b) j ≡ (b == j || bitmap_test s.words j)
  bitmap_test-set b j h = ground (
    arith,
    test-block_bit s.words j,
    test-block_bit (bitmap_set s.words b) j,
    block_bit-set s.words b j (omega (arith, v.covered)),
  )

  -- A free block means that the counter is below the number of blocks, so that it does not wrap.
  used_below :
      (p : ℕ) → p < s.total_blocks → bitmap_test s.words p ≡ false → s.used_blocks < s.total_blocks
  used_below p h free = ground (
    arith,
    test-block_bit s.words p,
    block_bit-le s.words p,
    taken-set s.words p (omega (arith, v.covered)) s.total_blocks,
    taken-le (bitmap_set s.words p) s.total_blocks,
  )

  -- `pmm_alloc_page` returns the lowest free frame, sets its bit alone and counts it; with every frame
  -- taken it returns the null pointer and changes nothing.
  pub alloc_first_fit : Allocated s (pmm_alloc_page s)
  unfolding pmm_alloc_page bitmap_find_free
  alloc_first_fit = elim (Option-cases (find_from s.words s.total_blocks 0)) [
    | inl e ↦
        rw (e, pmm_alloc_page)
          (full (λ j h. find_from-none s.words s.total_blocks 0 e j (omega arith) (omega arith)))
    | inr (p, e) ↦
        let found = find_from-some s.words s.total_blocks 0 p e in
        let below = used_below p (omega arith) found.2 in
        rw (e, pmm_alloc_page)
          (frame p _ (omega arith) found.2 (λ j h. found.3 j (omega arith) h)
            (λ j. bitmap_test-set p j (omega arith)) (omega (arith, v.blocks, v.fits)) (refl, refl))
  ]

  -- `pmm_alloc_page` keeps the invariant.
  pub alloc-IsValid : IsValid (pmm_alloc_page s).1
  unfolding pmm_alloc_page bitmap_find_free
  alloc-IsValid = elim (Option-cases (find_from s.words s.total_blocks 0)) [
    | inl e ↦ rw (e, pmm_alloc_page) v
    | inr (p, e) ↦
        let found = find_from-some s.words s.total_blocks 0 p e in
        let below = used_below p (omega arith) found.2 in
        rw (e, pmm_alloc_page)
          (record {
            covered = omega (arith, v.covered, length-bitmap_set s.words p);
            blocks = v.blocks;
            fits = v.fits;
            counted = ground (
              arith,
              test-block_bit s.words p,
              block_bit-le s.words p,
              taken-set s.words p (omega (arith, v.covered)) s.total_blocks,
              v.counted,
            );
          })
  ]
