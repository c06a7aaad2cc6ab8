-- ===== src/Heap/Malloc.antt =====
-- The invariant of the heap, and `heap_init` and `kmalloc` against it.
use zenix.Prelude.{
  ℕ, ◌+◌, ◌-◌, ◌%◌, ◌^◌, ◌≤◌, ◌<◌, ◌≡◌, refl, sym, subst, ◌∙◌, inl, inr, true, false, ◌||◌, Option,
  none, some, List, [], ◌∷◌, arith, ◌==◌, Bool-cases, length, u32,
}
use zenix.Heap.{
  HeapBlock, Heap, region_start, region_size, chain_limit, align4, heap_init, find_fit, kmalloc,
  heap_get_used, heap_get_free,
}
use zenix.Heap.Cells.{
  Cell, extent, used_total, link, Tiles, extent-Tiles, used_total-le, length-le-extent,
}
use zenix.Heap.Fit.{Fit, cell, fits, fit, Finds, refuses, claims, find_fit-Finds}
use zenix.Heap.Rows.{inside, owned, Coalesced, Aligned, fit-Grants, fit-Coalesced, fit-Aligned}

abbrev pub region_end : ℕ
region_end = 0x800000

-- The list of blocks stands for the row `cells`, which tiles the region; the counter is the sum of
-- the used payloads.
pub record IsValid (s : Heap) (cells : List Cell) : Type 0 where
  pub start : s.heap_start ≡ region_start
  pub tiles : Tiles s.block region_start cells region_end 0
  pub counted : s.heap_used ≡ used_total cells
  pub coalesced : Coalesced cells
  pub aligned : Aligned cells

-- `heap_init` makes one free block of the region, whatever the memory held.
pub heap_init-IsValid :
    (memory : ℕ → HeapBlock) → IsValid (heap_init memory) (cell (region_size - 12) 0 ∷ [])
unfolding heap_init used_total
heap_init-IsValid memory = record {
  start = refl;
  tiles = (refl, refl, refl, refl);
  counted = refl;
  coalesced = tt;
  aligned = (refl, tt);
}

-- Every cell is used or too small.
abbrev pub NoFit : ℕ → List Cell → Type 0
NoFit size [] = Unit {0}
NoFit size (c ∷ cs) = (fits size c ≡ false) × NoFit size cs

pub fit-none : (size : ℕ) (cs : List Cell) → fit size cs ≡ none → NoFit size cs
unfolding fit
fit-none size [] e = tt
fit-none size (c ∷ cs) e = ground (arith, fit-none size cs)

-- What `kmalloc` answers to a request of `size` bytes in a heap that stands for `cells`.
pub data Malloc (s : Heap) (cells : List Cell) (size : ℕ) : Option (ℕ × Heap) → Type 0 where
  nothing : size ≡ 0 → Malloc s cells size (some (0, s))
  exhausted : NoFit (align4 size) cells → Malloc s cells size (some (0, s))
  granted :
      (p got : ℕ) (s' : Heap) (cells' : List Cell)
      → IsValid s' cells'
      → region_start + 12 ≤ p
      → p + got ≤ region_end
      → p % 4 ≡ 0
      → size ≤ got
      → ((x : ℕ) → inside p got x ≡ true → owned region_start cells x ≡ false)
      → ((x : ℕ) → owned region_start cells' x ≡ (inside p got x || owned region_start cells x))
      → s'.heap_used ≡ s.heap_used + got
      → Malloc s cells size (some (p, s'))

used_total_below : (cs : List Cell) → 0 < extent cs → used_total cs + 12 ≤ extent cs
unfolding used_total extent
used_total_below [] h = absurd (omega arith)
used_total_below (c ∷ cs) h = ground (arith, used_total-le cs)

module _ {s : Heap} {cells : List Cell} (v : IsValid s cells) where
  pub extent-cells : extent cells ≡ region_size
  extent-cells = omega (arith, extent-Tiles s.block region_end 0 region_start cells v.tiles)

  -- The list has fewer blocks than the loops have rounds.
  pub cells_below_limit : length cells < chain_limit
  cells_below_limit = omega (arith, extent-cells, length-le-extent cells)

  pub link-cells :
      (cs : List Cell) → extent cs ≡ region_size → link region_start cs 0 ≡ region_start
  unfolding extent
  link-cells [] e = absurd (omega arith)
  link-cells (c ∷ cs) e = refl

  -- The state that an allocation by first fit leaves is valid, and its counter does not wrap.
  pub fit-IsValid :
      {f : Fit} (size : ℕ) {s' : Heap}
      → size % 4 ≡ 0
      → fit size cells ≡ some f
      → Tiles s'.block region_start f.cells region_end 0
      → s'.heap_used ≡ u32 (s.heap_used + f.got)
      → s'.heap_start ≡ s.heap_start
      → IsValid s' f.cells × (s'.heap_used ≡ s.heap_used + f.got)
  fit-IsValid {f} size {s'} m e t eu es =
      let g = fit-Grants size region_start cells f e in
      let small = used_total-le f.cells in
      let whole = extent-cells in
      let count : s'.heap_used ≡ s.heap_used + f.got =
        omega (arith, eu, v.counted, g.used_more, g.extent_same, small, whole) in
      (
        record {
          start = es ∙ v.start;
          tiles = t;
          counted = omega (arith, count, g.used_more, v.counted);
          coalesced = fit-Coalesced size cells f e v.coalesced;
          aligned = (fit-Aligned size cells f m e v.aligned).0;
        },
        count,
      )

  Finds-Malloc :
      {size : ℕ} {o : Option Fit} {r : Option (ℕ × Heap)}
      → size ≤ align4 size
      → fit (align4 size) cells ≡ o
      → Finds s region_start region_end o r
      → Malloc s cells size r
  Finds-Malloc {size} fine e refuses = exhausted (fit-none (align4 size) cells e)
  Finds-Malloc {size} fine e (claims f p s' ep t eu es same) =
      let g = fit-Grants (align4 size) region_start cells f e in
      let al = fit-Aligned (align4 size) cells f (omega arith) e v.aligned in
      let after = fit-IsValid (align4 size) (omega arith) e t eu es in
      granted p f.got s' f.cells after.0 (omega arith) (omega (arith, g.within, extent-cells))
        (omega (arith, al.1)) (omega (arith, g.enough, fine)) (rw ep g.was_free) (rw ep g.now_owned)
        after.1

  pub find_fit_cells :
      (size : ℕ)
      → Finds s region_start region_end (fit size cells) (find_fit chain_limit size s.heap_start s)
  find_fit_cells size =
      subst
        (λ (first : ℕ).
          Finds s region_start region_end (fit size cells) (find_fit chain_limit size first s))
        (link-cells cells extent-cells ∙ sym v.start)
        (find_fit-Finds chain_limit size region_start region_end s cells (omega arith) (omega arith)
          cells_below_limit v.tiles)

  -- A request of at most 2^32 - 4 bytes ends. `kmalloc` returns the null pointer and changes nothing
  -- if no bytes are asked for or no free block is large enough; otherwise it returns an aligned
  -- address in the region with at least that many bytes behind it, none of which was handed out
  -- before, hands out exactly these, and keeps the invariant.
  pub kmalloc_lem : (size : ℕ) → size ≤ 2 ^ 32 - 4 → Malloc s cells size (kmalloc s size)
  unfolding kmalloc
  kmalloc_lem size h = elim (Bool-cases (size == 0)) [
    | inl z ↦ rw z (nothing (ground arith))
    | inr nz ↦ rw nz (Finds-Malloc (omega arith) refl (find_fit_cells (align4 size)))
  ]

  Finds-kmalloc :
      {o : Option Fit} {r : Option (ℕ × Heap)}
      → fit 0 cells ≡ o
      → ¬ NoFit 0 cells
      → Finds s region_start region_end o r
      → (p : ℕ) × (s' : Heap) × (r ≡ some (p, s')) × (region_start + 12 ≤ p) × (p ≤ region_end)
  Finds-kmalloc e some_free refuses = absurd (some_free (fit-none 0 cells e))
  Finds-kmalloc e some_free (claims f p s' ep t eu es same) =
      let g = fit-Grants 0 region_start cells f e in
      (p, s', refl, omega arith, omega (arith, g.within, extent-cells))

  -- Rounding the size up to a multiple of 4 wraps: while any block is free, each request of more than
  -- 2^32 - 4 bytes is answered by an address in the 4 MB region, as if it had been served.
  pub kmalloc_wraps :
      (size : ℕ)
      → 2 ^ 32 - 4 < size
      → size < 2 ^ 32
      → ¬ NoFit 0 cells
      → (p : ℕ) × (s' : Heap) × (kmalloc s size ≡ some (p, s'))
        × (region_start + 12 ≤ p)
        × (p ≤ region_end)
  unfolding kmalloc
  kmalloc_wraps size lo hi some_free =
      let z : align4 size ≡ 0 = omega arith in
      let nz : (size == 0) ≡ false = ground arith in
      rw (nz, z) (Finds-kmalloc refl some_free (find_fit_cells 0))

  -- `heap_get_free` and `heap_get_used` do not wrap and make up the region less one header.
  pub heap_used-add-heap_free : heap_get_used s + heap_get_free s + 12 ≡ region_size
  unfolding heap_get_used heap_get_free
  heap_used-add-heap_free =
      omega (arith, v.counted, extent-cells, used_total_below cells (omega (arith, extent-cells)))
