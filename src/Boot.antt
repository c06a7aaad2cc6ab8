-- ===== src/Boot.antt =====
-- How kernel_main of kernel/core/kernel.c sets up the memory: pmm_init, heap_init and paging_init in this
-- order, each with its own idea of what the memory holds.
mod Tests
use zenix.Prelude.{
  ℕ, ◌+◌, ◌/◌, ◌≤◌, ◌<◌, ◌≡◌, ◌∙◌, sym, subst, refl, inl, inr, Bool, false, arith, ltb, ◌==◌,
  Bool-cases,
}
use zenix.Pmm.{
  Pmm, Multiboot, page_size, bitmap_size, align_up, bitmap_test, free_start, detect_memory,
  pmm_init, pmm_alloc_page,
}
use zenix.Pmm.Init.{init-IsValid, bits-init, blocks-init}
use zenix.Pmm.Alloc.{Allocated, full, frame, alloc_first_fit}
use zenix.Heap.{HeapBlock, Heap, region_start, region_size, heap_init}
use zenix.Paging.{Entry, Paging, paging_init}

-- The heap, whether paging is on, the frames, and the pages. The region of the heap held the headers `memory`,
-- the frame of the page directory the entries `old`.
unfoldable pub set_up_memory :
    Multiboot → ℕ → (ℕ → HeapBlock) → (ℕ → Entry) → Paging → Heap × (Bool × (Pmm × Paging))
set_up_memory mbi kernel_end memory old s =
    let m = pmm_init mbi kernel_end in let h = heap_init memory in (h, paging_init m old s)

heap_behind_bitmap :
    (kernel_end : ℕ) → kernel_end ≤ 0x370000 → free_start kernel_end < region_start / 4096
unfolding free_start
heap_behind_bitmap kernel_end h = omega arith

paging_init-frames :
    (m : Pmm) (old : ℕ → Entry) (s : Paging) → (paging_init m old s).1.0 ≡ (pmm_alloc_page m).1
unfolding paging_init
paging_init-frames m old s = elim (Bool-cases ((pmm_alloc_page m).0 == 0)) [
  | inl z ↦ rw z refl
  | inr nz ↦ rw nz refl
]

-- One allocation leaves every frame free that is not the lowest free one.
Allocated-above :
    (m : Pmm) (r : ℕ × Pmm) (low j : ℕ)
    → Allocated m r
    → bitmap_test m.words low ≡ false
    → bitmap_test m.words j ≡ false
    → low < j
    → bitmap_test r.1.words j ≡ false
Allocated-above m _ low j (full all) l e h = e
Allocated-above m _ low j (frame page m' lt free below now u t) l e h =
    now j ∙ ground (arith, below low, l, e, h)

-- On a machine with 8 MB or more, and a kernel that ends below 3.4 MB, every frame of the kernel heap's region
-- is free in the bitmap when the memory is set up: nothing keeps `pmm_alloc_page` from handing out
-- memory that `kmalloc` hands out as well.
pub heap_frames_free :
    (mbi : Multiboot) (kernel_end : ℕ) (memory : ℕ → HeapBlock) (old : ℕ → Entry) (s : Paging)
    (a : ℕ)
    → kernel_end ≤ 0x370000
    → region_start + region_size ≤ detect_memory mbi
    → region_start ≤ a
    → a < region_start + region_size
    → bitmap_test (set_up_memory mbi kernel_end memory old s).1.1.0.words (a / 4096) ≡ false
unfolding set_up_memory
heap_frames_free mbi kernel_end memory old s a small enough lo hi =
    let v = init-IsValid mbi kernel_end in
    let bits = bits-init mbi kernel_end in
    let m = pmm_init mbi kernel_end in
    let low = free_start kernel_end in
    let behind = heap_behind_bitmap kernel_end small in
    subst (λ (m : Pmm). bitmap_test m.words (a / 4096) ≡ false) (sym (paging_init-frames m old s))
      (Allocated-above m _ low (a / 4096) (alloc_first_fit v)
        (bits low (omega (arith, enough, behind)) ∙ ground arith)
        (bits (a / 4096) (omega (arith, enough, hi)) ∙ ground (arith, behind, lo))
        (omega (arith, behind, lo)))
