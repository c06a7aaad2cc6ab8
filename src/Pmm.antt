-- ===== src/Pmm.antt =====
-- The physical memory manager, kernel/mm/pmm.c: one bit for each 4096-byte frame, set where the
-- frame is taken, in the 32-bit words of `memory_bitmap`.
pub mod Bits
pub mod Count
pub mod Alloc
pub mod Free
pub mod Init
mod Tests
use zenix.Prelude.{
  ℕ, zero, suc, ◌+◌, ◌-◌, ◌*◌, ◌/◌, ◌%◌, ◌^◌, Bool, true, false, not, Option, none, some, List, ltb,
  ◌==◌, if◌then◌else◌, bit_and, bit_or, get_or, set, replicate, u32,
}

-- The globals of pmm.c. `words` is what `memory_bitmap` points to.
pub record Pmm : Type 0 where
  pub total_memory : ℕ
  pub used_blocks : ℕ
  pub total_blocks : ℕ
  pub memory_bitmap : ℕ
  pub words : List ℕ

-- The fields of `multiboot_info_t` that the memory manager reads.
pub record Multiboot : Type 0 where
  pub flags : ℕ
  pub mem_lower : ℕ
  pub mem_upper : ℕ

-- `~(1 << k)` at 32 bits
abbrev pub not_mask : ℕ → ℕ
not_mask k = 2 ^ 32 - 1 - 2 ^ k

abbrev pub page_size : ℕ
page_size = 4096

abbrev pub bitmap_size : ℕ
bitmap_size = 131072

abbrev pub all_ones : ℕ
all_ones = 0xffff_ffff

-- `(addr + PAGE_SIZE - 1) & ~(PAGE_SIZE - 1)`
abbrev pub align_up : ℕ → ℕ
align_up addr = u32 (addr + 4095) / 4096 * 4096

unfoldable pub bitmap_set : List ℕ → ℕ → List ℕ
bitmap_set ws bit = set ws (bit / 32) (bit_or (get_or ws (bit / 32) 0) (2 ^ (bit % 32)))

unfoldable pub bitmap_clear : List ℕ → ℕ → List ℕ
bitmap_clear ws bit = set ws (bit / 32) (bit_and (get_or ws (bit / 32) 0) (not_mask (bit % 32)))

-- `if (bitmap_test(bit))`: the masked word is not 0.
unfoldable pub bitmap_test : List ℕ → ℕ → Bool
bitmap_test ws bit = not (bit_and (get_or ws (bit / 32) 0) (2 ^ (bit % 32)) == 0)

-- The loop from block `i` on, with `n` blocks left.
unfoldable pub find_from : List ℕ → ℕ → ℕ → Option ℕ
find_from ws zero i = none
find_from ws (suc n) i =
    let rest = find_from ws n (i + 1) in if bitmap_test ws i then rest else some i

-- `none` is -1.
unfoldable pub bitmap_find_free : Pmm → Option ℕ
bitmap_find_free s = find_from s.words s.total_blocks 0

-- `bitmap_clear(i); used_blocks--;` for the `n` blocks from `i` on.
unfoldable pub release_from : ℕ → ℕ → Pmm → Pmm
release_from zero i s = s
release_from (suc n) i s =
    release_from n (i + 1)
      (record s { words = bitmap_clear s.words i; used_blocks = u32 (s.used_blocks + 2 ^ 32 - 1) })

unfoldable pub detect_memory : Multiboot → ℕ
detect_memory mbi =
    if mbi.flags % 2 == 1
    then u32 (u32 (mbi.mem_lower + mbi.mem_upper) * 1024)
    else 32 * 1024 * 1024

-- The first frame behind the bitmap, which lies behind the kernel.
unfoldable pub free_start : ℕ → ℕ
free_start kernel_end = align_up (u32 (align_up kernel_end + bitmap_size)) / page_size

-- The state before the loop that frees frames: all bits are set.
unfoldable pub blank : Multiboot → ℕ → Pmm
blank mbi kernel_end = record {
  total_memory = detect_memory mbi;
  used_blocks = detect_memory mbi / page_size;
  total_blocks = detect_memory mbi / page_size;
  memory_bitmap = align_up kernel_end;
  words = replicate (bitmap_size / 4) all_ones;
}

unfoldable pub pmm_init : Multiboot → ℕ → Pmm
pmm_init mbi kernel_end =
    release_from (detect_memory mbi / page_size - free_start kernel_end) (free_start kernel_end)
      (blank mbi kernel_end)

-- The address of the frame; 0 is the null pointer.
unfoldable pub pmm_alloc_page : Pmm → ℕ × Pmm
pmm_alloc_page s = elim (bitmap_find_free s) [
  | none ↦ (0, s)
  | some page ↦ (
    page * page_size,
    record s { words = bitmap_set s.words page; used_blocks = u32 (s.used_blocks + 1) },
  )
]

unfoldable pub pmm_free_page : Pmm → ℕ → Pmm
pmm_free_page s page =
    let page_num = page / page_size in
    if ltb page_num s.total_blocks
    then (if bitmap_test s.words page_num
        then record s {
          words = bitmap_clear s.words page_num;
          used_blocks = u32 (s.used_blocks + 2 ^ 32 - 1);
        }
        else s)
    else s

unfoldable pub pmm_get_total_memory : Pmm → ℕ
pmm_get_total_memory s = s.total_memory

unfoldable pub pmm_get_used_memory : Pmm → ℕ
pmm_get_used_memory s = u32 (s.used_blocks * page_size)

unfoldable pub pmm_get_free_memory : Pmm → ℕ
pmm_get_free_memory s = u32 (u32 (s.total_blocks + 2 ^ 32 - s.used_blocks) * page_size)
