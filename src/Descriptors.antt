-- ===== src/Descriptors.antt =====
-- The descriptor tables: kernel/hal/gdt.c and idt_set_gate and idt_init of kernel/hal/idt.c. The loading of the
-- tables into the processor is left out.
pub mod Gates
mod Tests
use zenix.Prelude.{
  ℕ, zero, suc, ◌+◌, ◌-◌, ◌*◌, ◌/◌, ◌%◌, ◌^◌, ◌≤◌, ◌<◌, min, max, bit_and, bit_or, ◌≡◌, refl, sym,
  ap, subst, ◌∙◌, fun_ext, ◌≢◌, ◌↔◌, ◌⊎◌, inl, inr, Bool, true, false, not, ◌&&◌, ◌||◌, Option,
  none, some, List, [], ◌∷◌, ◌++◌, map, arith, ltb, leb, ◌==◌, if◌then◌else◌, ltb→lt, ltb→ge,
  lt→ltb, ==_iff, ==_refl, Bool-cases, Option-cases, length, get_elem?, get_or, set, take, drop,
  replicate, length-append, length-set, length-replicate, get_or-replicate, get_or-set_self,
  get_or-set_ne, length-take, take-append-drop, u8, u16, u32, sub32,
}

-- `struct gdt_entry`
pub record GdtEntry : Type 0 where
  pub limit_low : ℕ
  pub base_low : ℕ
  pub base_middle : ℕ
  pub access : ℕ
  pub granularity : ℕ
  pub base_high : ℕ

-- The fields of `struct tss_entry` that the code sets; all others are 0.
pub record TssEntry : Type 0 where
  pub esp0 : ℕ
  pub ss0 : ℕ
  pub cs : ℕ
  pub ss : ℕ
  pub ds : ℕ
  pub es : ℕ
  pub fs : ℕ
  pub gs : ℕ

pub record Gdt : Type 0 where
  pub gdt_entries : List GdtEntry
  pub tss : TssEntry

-- The entry that `gdt_set_gate` writes.
unfoldable pub gdt_gate : ℕ → ℕ → ℕ → ℕ → GdtEntry
gdt_gate base limit access gran = record {
  limit_low = bit_and limit 0xFFFF;
  base_low = bit_and base 0xFFFF;
  base_middle = bit_and (base / 2 ^ 16) 0xFF;
  access = u8 access;
  granularity = bit_or (bit_and (limit / 2 ^ 16) 0x0F) (bit_and gran 0xF0);
  base_high = bit_and (base / 2 ^ 24) 0xFF;
}

unfoldable pub gdt_set_gate : Gdt → ℕ → ℕ → ℕ → ℕ → ℕ → Gdt
gdt_set_gate g num base limit access gran = record g {
  gdt_entries = set g.gdt_entries num (gdt_gate base limit access gran);
}

-- `sizeof(tss)`
abbrev pub tss_size : ℕ
tss_size = 104

-- `tss_address` is where the TSS lies.
unfoldable pub write_tss : ℕ → Gdt → ℕ → ℕ → ℕ → Gdt
write_tss tss_address g num ss0 esp0 =
    let t : TssEntry = record {
      esp0 = esp0;
      ss0 = ss0;
      cs = 0x0b;
      ss = 0x13;
      ds = 0x13;
      es = 0x13;
      fs = 0x13;
      gs = 0x13;
    } in
    gdt_set_gate (record g { tss = t }) num tss_address tss_size 0xE9 0x00

unfoldable pub gdt_init : ℕ → Gdt → Gdt
gdt_init tss_address g =
    let g0 = gdt_set_gate g 0 0 0 0 0 in
    let g1 = gdt_set_gate g0 1 0 0xFFFF_FFFF 0x9A 0xCF in
    let g2 = gdt_set_gate g1 2 0 0xFFFF_FFFF 0x92 0xCF in
    let g3 = gdt_set_gate g2 3 0 0xFFFF_FFFF 0xFA 0xCF in
    let g4 = gdt_set_gate g3 4 0 0xFFFF_FFFF 0xF2 0xCF in write_tss tss_address g4 5 0x10 0x0

unfoldable pub set_kernel_stack : Gdt → ℕ → Gdt
set_kernel_stack g stack = record g { tss = record g.tss { esp0 = stack } }

-- `struct idt_entry`
pub record IdtEntry : Type 0 where
  pub base_low : ℕ
  pub selector : ℕ
  pub always0 : ℕ
  pub flags : ℕ
  pub base_high : ℕ

unfoldable pub idt_set_gate : List IdtEntry → ℕ → ℕ → ℕ → ℕ → List IdtEntry
idt_set_gate entries num base selector flags = set entries num (record {
  base_low = bit_and base 0xFFFF;
  selector = selector;
  always0 = 0;
  flags = flags;
  base_high = bit_and (base / 2 ^ 16) 0xFFFF;
})

-- The loop of `idt_init` with `n` rounds left
unfoldable pub clear_gates : ℕ → ℕ → List IdtEntry → List IdtEntry
clear_gates zero i entries = entries
clear_gates (suc n) i entries = clear_gates n (i + 1) (idt_set_gate entries i 0 0 0)

unfoldable pub idt_init : List IdtEntry → List IdtEntry
idt_init entries = clear_gates 256 0 entries
