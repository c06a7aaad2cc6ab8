-- ===== src/Descriptors/Gates.antt =====
-- What the processor reads out of the descriptors that the kernel writes.
use zenix.Prelude.{ℕ, ◌+◌, ◌*◌, ◌/◌, ◌%◌, ◌^◌, ◌<◌, bit_and, bit_or, ◌≡◌, ap, ◌∙◌, arith}
use zenix.Prelude.Masks.{high_bits, raised, and-ones, and-raised, or-raised_right}
use zenix.Descriptors.{GdtEntry, gdt_gate}

-- How the processor puts the fields of a segment descriptor together.
pub segment_base : GdtEntry → ℕ
segment_base e = e.base_low + e.base_middle * 2 ^ 16 + e.base_high * 2 ^ 24

pub segment_limit : GdtEntry → ℕ
segment_limit e = e.limit_low + e.granularity % 16 * 2 ^ 16

pub segment_flags : GdtEntry → ℕ
segment_flags e = e.granularity / 16

granularity_lem :
    (limit gran : ℕ)
    → bit_or (bit_and (limit / 2 ^ 16) 0x0F) (bit_and gran 0xF0)
      ≡ gran / 16 % 16 * 16 + limit / 65536 % 16
granularity_lem limit gran =
    let lo : bit_and (limit / 2 ^ 16) 0x0F ≡ limit / 65536 % 16 =
      and-ones 4 (limit / 65536) ∙ omega arith in
    let hi : bit_and gran 0xF0 ≡ raised 4 (gran / 16 % 16) =
      and-raised 4 gran 0x0F ∙ ap (raised 4) (and-ones 4 (gran / 2 / 2 / 2 / 2) ∙ omega arith) in
    let small : high_bits 4 (limit / 65536 % 16) ≡ 0 = omega arith in
    rw lo (rw hi (or-raised_right 4 (gran / 16 % 16) (limit / 65536 % 16) small ∙ omega arith))

-- The processor reads back from a segment descriptor the base, the low 20 bits of the limit, the access
-- byte and the high half of `gran`.
pub gdt_gate_lem :
    (base limit access gran : ℕ)
    → base < 2 ^ 32
    → access < 256
    → gran < 256
    → (segment_base (gdt_gate base limit access gran) ≡ base)
      × (segment_limit (gdt_gate base limit access gran) ≡ limit % 2 ^ 20)
      × ((gdt_gate base limit access gran).access ≡ access)
      × (segment_flags (gdt_gate base limit access gran) ≡ gran / 16)
unfolding gdt_gate segment_base segment_limit segment_flags
gdt_gate_lem base limit access gran hb ha hg =
    let b0 : bit_and base 0xFFFF ≡ base % 65536 = and-ones 16 base ∙ omega arith in
    let b1 : bit_and (base / 2 ^ 16) 0xFF ≡ base / 65536 % 256 =
      and-ones 8 (base / 65536) ∙ omega arith in
    let b2 : bit_and (base / 2 ^ 24) 0xFF ≡ base / 16777216 % 256 =
      and-ones 8 (base / 16777216) ∙ omega arith in
    let l0 : bit_and limit 0xFFFF ≡ limit % 65536 = and-ones 16 limit ∙ omega arith in
    let g = granularity_lem limit gran in
    (omega (arith, b0, b1, b2), omega (arith, l0, g), omega arith, omega (arith, g))
