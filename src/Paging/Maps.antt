-- ===== src/Paging/Maps.antt =====
-- Mapping and unmapping a page, and what the translation of every address is afterwards.
use zenix.Prelude.{
  ℕ, ◌+◌, ◌*◌, ◌/◌, ◌%◌, ◌^◌, ◌≤◌, ◌<◌, ◌≡◌, refl, ◌∙◌, ◌≢◌, ◌⊎◌, inl, inr, true, false, arith, leb,
  ◌==◌, if◌then◌else◌, Bool-cases,
}
use zenix.Paging.{
  Entry, Paging, page_present, page_write, page_user, pool_size, dir_index, table_index,
  frame_address, flag, alloc_page_table, find_table, paging_map_page, paging_unmap_page,
  paging_get_physical,
}
use zenix.Paging.Walk.{IsValid, target, target-absent, target-present, unmapped, put_entry-Writes}
use zenix.Paging.Pool.{Opens, new_at, new_present, new_same, with_table-IsValid}

-- There is a page table for the address, or the pool can give one.
abbrev pub Room : Paging → ℕ → Type 0
Room s virt =
    (((s.directory (dir_index virt)).present == 0) ≡ false) ⊎ (s.next_table_index < pool_size)

find_table-Opens :
    (s : Paging) (virt flags : ℕ)
    → IsValid s
    → virt < 2 ^ 32
    → Room s virt
    → Opens s virt (find_table s virt flags).0 (find_table s virt flags).1
unfolding find_table alloc_page_table
find_table-Opens s virt flags v small room =
    elim (Bool-cases ((s.directory (dir_index virt)).present == 0)) [
      | inr there ↦
          let (k, l, e) = v.used (dir_index virt) (omega arith) there in
          rw there (record {
            valid = v;
            present = there;
            at = refl;
            real = ground (arith, e, v.real);
            same = λ w lt. refl;
          })
      | inl missing ↦
          let less : s.next_table_index < 256 = ground (arith, room, missing) in
          let d = dir_index virt in
          let user = flag flags page_user in
          let full : leb 256 s.next_table_index ≡ false = ground arith in
          let real : (s.page_tables + s.next_table_index * 2 ^ 12 == 0) ≡ false =
            ground (arith, v.real) in
          rw missing (
            rw full (
              rw real (record {
                valid = with_table-IsValid s d user v (omega arith) less missing;
                present = new_present s d user v (omega arith) less missing;
                at = new_at s d user v (omega arith) less missing;
                real = real;
                same = new_same s d user v (omega arith) less missing;
              })))
    ]

target_flag :
    (e : Entry) (virt : ℕ)
    → target e virt ≡ (if e.present == 0 then 0 else e.frame * 4096 + virt % 4096)
target_flag e virt = elim (Bool-cases (e.present == 0)) [
  | inl z ↦ rw z (target-absent e virt z)
  | inr nz ↦ rw nz (target-present e virt nz)
]

-- `paging_map_page` with a page table at hand, or one left in the pool, writes the entry of the page: its
-- addresses then translate to the frame of `phys` if the flags have PRESENT, and to 0 otherwise, and no
-- address of another page translates differently.
pub map_lem :
    (s : Paging) (virt phys flags : ℕ)
    → IsValid s
    → virt < 2 ^ 32
    → phys < 2 ^ 32
    → Room s virt
    → IsValid (paging_map_page s virt phys flags)
      × ((v : ℕ)
          → v / 4096 ≡ virt / 4096
          → paging_get_physical (paging_map_page s virt phys flags) v
            ≡ (if flag flags page_present == 0 then 0 else phys / 4096 * 4096 + v % 4096))
      × ((v : ℕ)
          → v < 2 ^ 32
          → v / 4096 ≢ virt / 4096
          → paging_get_physical (paging_map_page s virt phys flags) v ≡ paging_get_physical s v)
unfolding paging_map_page
map_lem s virt phys flags v sv sp room =
    let o = find_table-Opens s virt flags v sv room in
    let r = find_table s virt flags in
    let e = record (r.1.tables r.0 (table_index virt)) {
      present = flag flags page_present;
      rw_bit = flag flags page_write;
      user = flag flags page_user;
      frame = phys / 2 ^ 12;
    } in
    let w = put_entry-Writes r.1 virt r.0 e o.valid sv o.present o.at (omega arith) in
    rw o.real (
      w.valid,
      λ x same. w.here x same ∙ target_flag e x,
      λ x lx ne. w.elsewhere x lx ne ∙ o.same x lx,
    )

-- Once the pool is used up, an address without a page table cannot be mapped: nothing changes.
pub map_exhausted :
    (s : Paging) (virt phys flags : ℕ)
    → pool_size ≤ s.next_table_index
    → ((s.directory (dir_index virt)).present == 0) ≡ true
    → paging_map_page s virt phys flags ≡ s
unfolding paging_map_page find_table alloc_page_table
map_exhausted s virt phys flags full missing =
    let f : leb 256 s.next_table_index ≡ true = ground arith in rw missing (rw f refl)

-- `paging_unmap_page` of an address: the addresses of its page translate to 0 then, and no address of
-- another page translates differently.
pub unmap_lem :
    (s : Paging) (virt : ℕ)
    → IsValid s
    → virt < 2 ^ 32
    → IsValid (paging_unmap_page s virt)
      × ((v : ℕ) → v / 4096 ≡ virt / 4096 → paging_get_physical (paging_unmap_page s virt) v ≡ 0)
      × ((v : ℕ)
          → v < 2 ^ 32
          → v / 4096 ≢ virt / 4096
          → paging_get_physical (paging_unmap_page s virt) v ≡ paging_get_physical s v)
unfolding paging_unmap_page
unmap_lem s virt v small = elim (Bool-cases ((s.directory (dir_index virt)).present == 0)) [
  | inl missing ↦ rw missing (
    v,
    (λ x same.
        let d : dir_index x ≡ dir_index virt = omega (arith, same) in unmapped s x (rw d missing)),
    λ w lt ne. refl,
  )
  | inr there ↦
      let table = frame_address (s.directory (dir_index virt)).frame in
      let e = record (s.tables table (table_index virt)) { present = 0 } in
      let w = put_entry-Writes s virt table e v small there refl (v.frames _ _) in
      rw there (w.valid, λ x same. w.here x same ∙ target-absent e x refl, w.elsewhere)
]

find_table_next :
    (s : Paging) (virt flags : ℕ)
    → (find_table s virt flags).1.next_table_index ≤ s.next_table_index + 1
unfolding find_table alloc_page_table
find_table_next s virt flags = ground arith

find_table_same :
    (s : Paging) (virt flags : ℕ)
    → ((s.directory (dir_index virt)).present == 0) ≡ false
    → (find_table s virt flags).1.next_table_index ≡ s.next_table_index
unfolding find_table
find_table_same s virt flags there = rw there refl

-- Mapping opens the directory entry, and takes a table of the pool at most if it was not open.
pub map_tables :
    (s : Paging) (virt phys flags : ℕ)
    → IsValid s
    → virt < 2 ^ 32
    → Room s virt
    → ((((paging_map_page s virt phys flags).directory (dir_index virt)).present == 0) ≡ false)
      × ((paging_map_page s virt phys flags).next_table_index ≤ s.next_table_index + 1)
      × (((s.directory (dir_index virt)).present == 0) ≡ false
          → (paging_map_page s virt phys flags).next_table_index ≡ s.next_table_index)
unfolding paging_map_page
map_tables s virt phys flags v sv room =
    let o = find_table-Opens s virt flags v sv room in
    rw o.real (o.present, find_table_next s virt flags, find_table_same s virt flags)
