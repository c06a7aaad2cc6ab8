-- ===== src/Pmm/Free.antt =====
-- `pmm_free_page`: all its branches, what it keeps, and how it undoes `pmm_alloc_page`.
use zenix.Prelude.{
  ℕ, zero, suc, ◌+◌, ◌-◌, ◌*◌, ◌/◌, ◌<◌, ◌≡◌, refl, ◌≢◌, inl, inr, true, false, not, ◌&&◌, List,
  arith, ltb, ◌==◌, if◌then◌else◌, ltb→lt, Bool-cases, length,
}
use zenix.Pmm.{
  Pmm, bitmap_clear, bitmap_test, pmm_alloc_page, pmm_free_page, pmm_get_used_memory,
  pmm_get_free_memory,
}
use zenix.Pmm.Bits.{block_bit-clear, test-block_bit, length-bitmap_clear}
use zenix.Pmm.Count.{taken-le, taken-clear, IsValid}
use zenix.Pmm.Alloc.{Allocated, full, frame, alloc_first_fit, alloc-IsValid}

bitmap_test-clear :
    (ws : List ℕ) (b j : ℕ)
    → b / 32 < length ws
    → bitmap_test (bitmap_clear ws b) j ≡ (not (b == j) && bitmap_test ws j)
bitmap_test-clear ws b j h =
    ground
      (arith, test-block_bit ws j, test-block_bit (bitmap_clear ws b) j, block_bit-clear ws b j h)

module _ {s : Pmm} (v : IsValid s) (page : ℕ) where
  used_pos :
      page / 4096 < s.total_blocks → bitmap_test s.words (page / 4096) ≡ true → 0 < s.used_blocks
  used_pos h t = ground (
    arith,
    test-block_bit s.words (page / 4096),
    taken-clear s.words (page / 4096) (omega (arith, v.covered)) s.total_blocks,
    v.counted,
  )

  -- `pmm_free_page` clears the bit of the frame that the address lies in, if the frame exists, and no
  -- other bit; the counter falls by one exactly when that bit was set.
  pub free_lem :
      ((j : ℕ)
        → bitmap_test (pmm_free_page s page).words j
          ≡ (not ((page / 4096 == j) && ltb j s.total_blocks) && bitmap_test s.words j))
      × ((pmm_free_page s page).used_blocks ≡ (
          if ltb (page / 4096) s.total_blocks && bitmap_test s.words (page / 4096)
          then s.used_blocks - 1
          else s.used_blocks))
  unfolding pmm_free_page
  free_lem = (
    (λ j. elim (Bool-cases (ltb (page / 4096) s.total_blocks)) [
      | inl h ↦ ground (
        arith,
        bitmap_test-clear s.words (page / 4096) j (omega (arith, v.covered, ltb→lt _ _ h)),
      )
      | inr h ↦ ground arith
    ]),
    ground (arith, used_pos, taken-le s.words s.total_blocks, v.counted, v.blocks, v.fits),
  )

  pub blocks-free : (pmm_free_page s page).total_blocks ≡ s.total_blocks
  unfolding pmm_free_page
  blocks-free = ground arith

  -- `pmm_free_page` keeps the invariant, at every address.
  pub free-IsValid : IsValid (pmm_free_page s page)
  unfolding pmm_free_page
  free-IsValid =
      elim (Bool-cases (ltb (page / 4096) s.total_blocks && bitmap_test s.words (page / 4096))) [
        | inl h ↦ ground (
          arith,
          used_pos,
          v.covered,
          v.blocks,
          v.fits,
          v.counted,
          length-bitmap_clear s.words (page / 4096),
          test-block_bit s.words (page / 4096),
          taken-le s.words s.total_blocks,
          taken-clear s.words (page / 4096) (ground (arith, v.covered)) s.total_blocks,
        )
        | inr h ↦ ground (arith, v)
      ]

-- Freeing what was just allocated: `r` is the outcome of the allocation.
free-Allocated :
    {s : Pmm} {r : ℕ × Pmm}
    → Allocated s r
    → IsValid r.1
    → r.0 ≢ 0
    → ((j : ℕ) → bitmap_test (pmm_free_page r.1 r.0).words j ≡ bitmap_test s.words j)
      × ((pmm_free_page r.1 r.0).used_blocks ≡ s.used_blocks)
free-Allocated (full all) v h = absurd (h refl)
free-Allocated {s} (frame page s' lt free below bits count same) v h =
    let e : page * 4096 / 4096 ≡ page = omega arith in
    let freed = free_lem v (page * 4096) in
    (
      (λ j. elim (Bool-cases (page == j)) [
        | inl eq ↦ ground (arith, freed.0 j, bits j, e)
        | inr ne ↦ ground (arith, freed.0 j, bits j, e)
      ]),
      ground (arith, freed.1, bits page, e),
    )

-- `pmm_free_page` after a successful `pmm_alloc_page` gives every frame its state back, and the
-- counter its value.
pub free-alloc :
    {s : Pmm}
    → IsValid s
    → (pmm_alloc_page s).0 ≢ 0
    → let (page, s') = pmm_alloc_page s in
      ((j : ℕ) → bitmap_test (pmm_free_page s' page).words j ≡ bitmap_test s.words j)
      × ((pmm_free_page s' page).used_blocks ≡ s.used_blocks)
free-alloc v h = free-Allocated (alloc_first_fit v) (alloc-IsValid v) h

-- `pmm_get_used_memory` and `pmm_get_free_memory` do not wrap and make up the frames of the memory.
pub used_memory-add-free_memory :
    {s : Pmm}
    → IsValid s
    → pmm_get_used_memory s + pmm_get_free_memory s ≡ s.total_memory / 4096 * 4096
unfolding pmm_get_used_memory pmm_get_free_memory
used_memory-add-free_memory {s} v =
    omega (arith, v.counted, v.blocks, v.fits, taken-le s.words s.total_blocks)

alloc_at_zero :
    {s : Pmm} {r : ℕ × Pmm}
    → Allocated s r
    → 0 < s.total_blocks
    → bitmap_test s.words 0 ≡ false
    → (r.0 ≡ 0) × (bitmap_test r.1.words 0 ≡ true) × (r.1.used_blocks ≡ s.used_blocks + 1)
alloc_at_zero (full all) h free = ground (arith, all 0)
alloc_at_zero (frame zero s' lt free below bits count same) h f =
    (refl, ground (arith, bits 0), count)
alloc_at_zero (frame (suc page) s' lt free below bits count same) h f = ground (arith, below 0)

-- Freeing the null pointer gives frame 0 out: if that frame was taken, the next `pmm_alloc_page` takes
-- it back and returns its address, the null pointer, by which it reports that memory is out. So it
-- seems to fail, whatever frames are free.
pub alloc-free_null :
    {s : Pmm}
    → IsValid s
    → 0 < s.total_blocks
    → bitmap_test s.words 0 ≡ true
    → let r = pmm_alloc_page (pmm_free_page s 0) in
      (r.0 ≡ 0) × (bitmap_test r.1.words 0 ≡ true) × (r.1.used_blocks ≡ s.used_blocks)
alloc-free_null {s} v h t =
    let freed = free_lem v 0 in
    let pos = used_pos v 0 h t in
    let after =
      alloc_at_zero (alloc_first_fit (free-IsValid v 0)) (ground (arith, h, blocks-free v 0))
        (ground (arith, freed.0 0)) in
    (after.0, after.1, ground (arith, after.2, freed.1, pos))
