-- ===== src/Paging/Tests.antt =====
-- Runs of paging, and its theorems at a concrete state.
use zenix.Prelude.{
  ℕ, ◌+◌, ◌*◌, ◌/◌, ◌%◌, ◌^◌, ◌<◌, ◌≡◌, refl, ◌≢◌, inr, [], ◌∷◌, arith, ◌==◌, if◌then◌else◌,
}
use zenix.Pmm.{Pmm}
use zenix.Paging.{
  Entry, Paging, page_present, flag, find_table, alloc_page_table, paging_map_page,
  paging_unmap_page, paging_get_physical, paging_init,
}
use zenix.Paging.Walk.{IsValid}
use zenix.Paging.Maps.{map_lem, unmap_lem}
use zenix.Paging.Identity.{Inits, Fresh, paging_init_lem}

abbrev void : Entry
void = record { present = 0; rw_bit = 0; user = 0; other = 0; frame = 0 }

abbrev unused : Paging
unused = record {
  kernel_directory = 0x300000;
  current_directory = 0;
  directory = λ i. void;
  page_tables = 0x200000;
  next_table_index = 0;
  tables = λ t j. void;
}

unused-IsValid : IsValid unused
unused-IsValid = record {
  aligned = refl;
  real = omega arith;
  in_memory = omega arith;
  handed_out = omega arith;
  used = λ i lt p. absurd (cc p);
  apart = λ i j li lj p q e. absurd (cc p);
  frames = λ t j. omega arith;
}

get-map : paging_get_physical (paging_map_page unused 0x500000 0x800000 3) 0x500123 ≡ 0x800123
unfolding paging_get_physical paging_map_page find_table alloc_page_table
get-map = refl

map_lem_example :
    IsValid (paging_map_page unused 0x500000 0x800000 3)
    × ((v : ℕ)
        → v / 4096 ≡ 0x500000 / 4096
        → paging_get_physical (paging_map_page unused 0x500000 0x800000 3) v
          ≡ (if flag 3 page_present == 0 then 0 else 0x800000 / 4096 * 4096 + v % 4096))
    × ((v : ℕ)
        → v < 2 ^ 32
        → v / 4096 ≢ 0x500000 / 4096
        → paging_get_physical (paging_map_page unused 0x500000 0x800000 3) v
          ≡ paging_get_physical unused v)
map_lem_example =
    map_lem unused 0x500000 0x800000 3 unused-IsValid (omega arith) (omega arith)
      (inr (omega arith))

unmap_lem_example :
    IsValid (paging_unmap_page unused 0x500000)
    × ((v : ℕ)
        → v / 4096 ≡ 0x500000 / 4096
        → paging_get_physical (paging_unmap_page unused 0x500000) v ≡ 0)
    × ((v : ℕ)
        → v < 2 ^ 32
        → v / 4096 ≢ 0x500000 / 4096
        → paging_get_physical (paging_unmap_page unused 0x500000) v ≡ paging_get_physical unused v)
unmap_lem_example = unmap_lem unused 0x500000 unused-IsValid (omega arith)

-- Memory of 64 frames, of which the first 32 are taken.
abbrev memory : Pmm
memory = record {
  words = 0xffff_ffff ∷ 0 ∷ [];
  total_memory = 0x40000;
  used_blocks = 32;
  total_blocks = 64;
  memory_bitmap = 0x200000;
}

unused-Fresh : Fresh unused
unused-Fresh = record {
  unused = refl;
  aligned = refl;
  real = omega arith;
  in_memory = omega arith;
  frames = λ t j. omega arith;
}

paging_init_lem_example : Inits memory unused (paging_init memory (λ i. void) unused)
paging_init_lem_example = paging_init_lem memory (λ i. void) unused unused-Fresh
