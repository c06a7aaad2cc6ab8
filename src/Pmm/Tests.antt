-- ===== src/Pmm/Tests.antt =====
-- Runs of the memory manager, and its theorems at concrete states.
use zenix.Prelude.{ℕ, ◌+◌, ◌*◌, ◌/◌, ◌<◌, ◌≡◌, refl, [], ◌∷◌, arith, ltb}
use zenix.Pmm.{
  Pmm, Multiboot, bitmap_set, bitmap_clear, bitmap_test, bitmap_find_free, find_from, pmm_init,
  pmm_alloc_page, pmm_free_page, detect_memory, free_start,
}
use zenix.Pmm.Count.{taken, IsValid}
use zenix.Pmm.Alloc.{Allocated, alloc_first_fit}
use zenix.Pmm.Free.{free_lem}
use zenix.Pmm.Init.{PageFrom, init_lem}

-- 40 frames, of which frames 0, 1 and 2 are taken
abbrev small : Pmm
small = record {
  total_memory = 163840;
  used_blocks = 3;
  total_blocks = 40;
  memory_bitmap = 0x200000;
  words = 7 ∷ 0 ∷ [];
}

small-IsValid : IsValid small
unfolding taken
small-IsValid = record { covered = omega arith; blocks = refl; fits = omega arith; counted = refl }

-- 32 MB, of which the boot loader reports 640 KB and 31 MB
abbrev machine : Multiboot
machine = record { flags = 1; mem_lower = 640; mem_upper = 31744 }

alloc-small : pmm_alloc_page small ≡ (12288, record small { used_blocks = 4; words = 15 ∷ 0 ∷ [] })
unfolding pmm_alloc_page bitmap_find_free find_from bitmap_test bitmap_set
alloc-small = refl

free-small : pmm_free_page small 4100 ≡ record small { used_blocks = 2; words = 5 ∷ 0 ∷ [] }
unfolding pmm_free_page bitmap_test bitmap_clear
free-small = refl

free_twice : pmm_free_page small 0x5000 ≡ small
unfolding pmm_free_page bitmap_test bitmap_clear
free_twice = refl

free_start-machine : free_start 0x150000 ≡ 368
unfolding free_start
free_start-machine = refl

detect_memory-machine : detect_memory machine ≡ 33161216
unfolding detect_memory
detect_memory-machine = refl

alloc_first_fit_example : Allocated small (pmm_alloc_page small)
alloc_first_fit_example = alloc_first_fit small-IsValid

free_lem_example : (pmm_free_page small 4100).used_blocks ≡ 2
unfolding bitmap_test
free_lem_example = (free_lem small-IsValid 4100).1

init_lem_example :
    IsValid (pmm_init machine 0x150000)
    × PageFrom 0x150000 (pmm_init machine 0x150000).memory_bitmap
    × ((j : ℕ)
        → j < detect_memory machine / 4096
        → bitmap_test (pmm_init machine 0x150000).words j
          ≡ ltb (j * 4096) ((pmm_init machine 0x150000).memory_bitmap + 131072))
init_lem_example = init_lem machine 0x150000 (ground arith)
