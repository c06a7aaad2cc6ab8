-- ===== src/Descriptors/Tests.antt =====
-- A segment of the kernel, and the gate of the system calls.
use zenix.Prelude.{◌≡◌, refl}
use zenix.Descriptors.{gdt_gate}

-- The kernel code segment: all of memory in pages, as the processor reads it.
code_segment : gdt_gate 0 0xFFFF_FFFF 0x9A 0xCF ≡ record {
  limit_low = 0xFFFF;
  base_low = 0;
  base_middle = 0;
  access = 0x9A;
  granularity = 0xCF;
  base_high = 0;
}
unfolding gdt_gate
code_segment = refl
