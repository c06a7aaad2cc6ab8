-- ===== src/Heap/Tests.antt =====
-- Runs of the heap, and its theorems at concrete states.
use zenix.Prelude.{ℕ, ◌+◌, ◌≡◌, refl, some, List, [], ◌∷◌, arith, ◌==◌, if◌then◌else◌}
use mathlib.Core.Option
use zenix.Heap.{
  HeapBlock, Heap, region_start, claim, find_fit, kmalloc, find_prev, mark_free, release, absorb,
  kfree,
}
use zenix.Heap.Cells.{Cell, used_total, extent}
use zenix.Heap.Fit.{cell}
use zenix.Heap.Malloc.{IsValid, Malloc, kmalloc_lem}
use zenix.Heap.Free.{Freed, kfree_lem}
use zenix.Heap.RoundTrip.{FreeRestores, kfree-kmalloc}

abbrev unwritten : ℕ → HeapBlock
unwritten p = record { size = 0; used = 0; next = 0 }

-- A used block of 100 bytes at the start of the region, and the rest free.
abbrev busy : Heap
busy = record {
  heap_start = 0x400000;
  heap_used = 100;
  block = λ p.
      if p == 0x400000
      then record { size = 100; used = 1; next = 0x400070 }
      else if p == 0x400070
      then record { size = 4194180; used = 0; next = 0 }
      else record { size = 0; used = 0; next = 0 };
}

abbrev busy_cells : List Cell
busy_cells = cell 100 1 ∷ cell 4194180 0 ∷ []

busy-IsValid : IsValid busy busy_cells
unfolding used_total
busy-IsValid = record {
  start = refl;
  tiles = (refl, refl, refl, (refl, refl, refl, refl));
  counted = refl;
  coalesced = (refl, tt);
  aligned = (refl, (refl, tt));
}

-- 10 bytes are rounded up to 12.
kmalloc-busy :
    Option.map {B = ℕ × ℕ} (λ r. (r.0, r.1.heap_used)) (kmalloc busy 10) ≡ some (0x40007c, 112)
unfolding kmalloc find_fit claim
kmalloc-busy = refl

kfree-busy :
    Option.map {B = ℕ × ℕ} (λ s. (s.heap_used, (s.block 0x400000).size)) (kfree busy 0x40000c)
    ≡ some (0, 4194292)
unfolding kfree find_prev release mark_free absorb
kfree-busy = refl

kmalloc_lem_example : Malloc busy busy_cells 10 (kmalloc busy 10)
kmalloc_lem_example = kmalloc_lem busy-IsValid 10 (omega arith)

kfree_lem_example :
    (s' : Heap) × (kfree busy (region_start + extent [] + 12) ≡ some s')
    × Freed busy [] (cell 100 1) (cell 4194180 0 ∷ []) s'
kfree_lem_example = kfree_lem [] (cell 100 1) (cell 4194180 0 ∷ []) busy-IsValid refl

kfree-kmalloc_example : FreeRestores busy busy_cells 10 (kmalloc busy 10)
kfree-kmalloc_example = kfree-kmalloc busy-IsValid 10
