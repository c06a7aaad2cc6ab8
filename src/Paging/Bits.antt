-- ===== src/Paging/Bits.antt =====
-- The bit fields of addresses that paging.c takes apart and joins, as arithmetic.
use zenix.Prelude.{ℕ, ◌+◌, ◌*◌, ◌/◌, ◌%◌, ◌^◌, ◌<◌, bit_and, bit_or, ◌≡◌, ◌∙◌, arith}
use zenix.Prelude.Masks.{high_bits, raised, joined, and-ones, or-raised}
use zenix.Paging.{table_index, frame_address}

pub table_index_lem : (addr : ℕ) → table_index addr ≡ addr / 4096 % 1024
table_index_lem addr = and-ones 10 (addr / 4096) ∙ omega arith

pub offset_lem : (addr : ℕ) → bit_and addr 0xFFF ≡ addr % 4096
offset_lem addr = and-ones 12 addr ∙ omega arith

pub join_lem :
    (frame addr : ℕ)
    → frame < 2 ^ 20
    → bit_or (frame_address frame) (bit_and addr 0xFFF) ≡ frame * 4096 + addr % 4096
join_lem frame addr h =
    let e : frame_address frame ≡ raised 12 frame = omega arith in
    let small : high_bits 12 (addr % 4096) ≡ 0 = omega arith in
    let out : joined 12 frame (addr % 4096) ≡ frame * 4096 + addr % 4096 = omega arith in
    rw (offset_lem addr) (rw e (or-raised 12 frame (addr % 4096) small ∙ out))
