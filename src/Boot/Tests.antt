-- ===== src/Boot/Tests.antt =====
-- The memory of a concrete machine after kernel_main has set it up.
use zenix.Prelude.{◌/◌, ◌≡◌, ◌≤◌, false, arith}
use zenix.Pmm.{Multiboot, bitmap_test, detect_memory}
use zenix.Heap.{HeapBlock}
use zenix.Paging.{Entry, Paging}
use zenix.Boot.{set_up_memory, heap_frames_free}

-- 32 MB as a boot loader reports them
abbrev machine : Multiboot
machine = record { flags = 1; mem_lower = 640; mem_upper = 31744 }

memory_size : 0x800000 ≤ detect_memory machine
unfolding detect_memory
memory_size = omega arith

abbrev no_header : HeapBlock
no_header = record { size = 0; used = 0; next = 0 }

abbrev no_entry : Entry
no_entry = record { present = 0; rw_bit = 0; user = 0; other = 0; frame = 0 }

abbrev no_pages : Paging
no_pages = record {
  kernel_directory = 0;
  current_directory = 0;
  directory = λ i. no_entry;
  page_tables = 0x200000;
  next_table_index = 0;
  tables = λ t j. no_entry;
}

heap_frames_free_example :
    bitmap_test
      (set_up_memory machine 0x140000 (λ p. no_header) (λ i. no_entry) no_pages).1.1.0.words
      (0x400010 / 4096)
    ≡ false
heap_frames_free_example =
    heap_frames_free machine 0x140000 (λ p. no_header) (λ i. no_entry) no_pages 0x400010
      (omega arith) memory_size (omega arith) (omega arith)
