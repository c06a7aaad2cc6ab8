-- ===== src/Paging.antt =====
-- Two-level paging, kernel/mm/paging.c: one page directory, and page tables that are taken from a pool of
-- 256. The tables lie at addresses of memory, the pool from `page_tables` on; the messages, the loading of
-- CR3 and the TLB are left out.
pub mod Bits
pub mod Walk
pub mod Pool
pub mod Maps
pub mod Identity
mod Tests
use zenix.Prelude.{
  ℕ, zero, suc, ◌+◌, ◌-◌, ◌*◌, ◌/◌, ◌%◌, ◌^◌, ◌≤◌, ◌<◌, min, max, bit_and, bit_or, ◌≡◌, refl, sym,
  ap, subst, ◌∙◌, fun_ext, ◌≢◌, ◌↔◌, ◌⊎◌, inl, inr, Bool, true, false, not, ◌&&◌, ◌||◌, Option,
  none, some, List, [], ◌∷◌, ◌++◌, map, arith, ltb, leb, ◌==◌, if◌then◌else◌, ltb→lt, ltb→ge,
  lt→ltb, ==_iff, ==_refl, Bool-cases, Option-cases, length, get_elem?, get_or, set, take, drop,
  replicate, length-append, length-set, length-replicate, get_or-replicate, get_or-set_self,
  get_or-set_ne, length-take, take-append-drop, u8, u16, u32, sub32,
}
use zenix.Pmm.{Pmm, pmm_alloc_page}

-- `page_dir_entry_t` and `page_table_entry_t`: the three flags and the frame that the code sets, and
-- `other`, the nine bits that it never touches.
pub record Entry : Type 0 where
  pub present : ℕ
  pub rw_bit : ℕ
  pub user : ℕ
  pub other : ℕ
  pub frame : ℕ

-- The globals of paging.c, the entries of the directory, and those of the table at each address.
pub record Paging : Type 0 where
  pub kernel_directory : ℕ
  pub current_directory : ℕ
  pub directory : ℕ → Entry
  pub page_tables : ℕ
  pub next_table_index : ℕ
  pub tables : ℕ → ℕ → Entry

abbrev pub page_present : ℕ
page_present = 1

abbrev pub page_write : ℕ
page_write = 2

abbrev pub page_user : ℕ
page_user = 4

abbrev pub pool_size : ℕ
pool_size = 256

-- `addr >> 22`
abbrev pub dir_index : ℕ → ℕ
dir_index addr = addr / 2 ^ 22

-- `(addr >> 12) & 0x3FF`
abbrev pub table_index : ℕ → ℕ
table_index addr = bit_and (addr / 2 ^ 12) 0x3FF

-- `frame << 12`
abbrev pub frame_address : ℕ → ℕ
frame_address frame = u32 (frame * 2 ^ 12)

-- `(flags & mask) ? 1 : 0`
abbrev pub flag : ℕ → ℕ → ℕ
flag flags mask = if bit_and flags mask == 0 then 0 else 1

-- What the loops that clear a directory or a table leave of an entry.
abbrev pub clear_entry : Entry → Entry
clear_entry e = record e { present = 0; rw_bit = 1; user = 0; frame = 0 }

abbrev pub put_entry : Paging → ℕ → ℕ → Entry → Paging
put_entry s table i e = record s {
  tables = λ t j. if (t == table) && (j == i) then e else s.tables t j;
}

-- The result 0 is the null pointer.
unfoldable pub alloc_page_table : Paging → ℕ × Paging
alloc_page_table s =
    if leb pool_size s.next_table_index
    then (0, s)
    else let table = s.page_tables + s.next_table_index * 2 ^ 12 in
      (
        table,
        record s {
          next_table_index = s.next_table_index + 1;
          tables = λ t j.
              if (t == table) && ltb j 1024 then clear_entry (s.tables t j) else s.tables t j;
        },
      )

-- The table that `paging_map_page` writes into: 0 if a new one is needed and there is none.
unfoldable pub find_table : Paging → ℕ → ℕ → ℕ × Paging
find_table s virt flags =
    let i = dir_index virt in
    let e = s.directory i in
    if e.present == 0
    then (let (table, s') = alloc_page_table s in
        if table == 0 then (0, s') else (
          table,
          record s' {
            directory = λ j.
                if j == i
                then record e {
                  present = 1;
                  rw_bit = 1;
                  user = flag flags page_user;
                  frame = table / 2 ^ 12;
                }
                else s'.directory j;
          },
        ))
    else (frame_address e.frame, s)

unfoldable pub paging_map_page : Paging → ℕ → ℕ → ℕ → Paging
paging_map_page s virt phys flags =
    let (table, s') = find_table s virt flags in
    let i = table_index virt in
    if (table == 0) && ((s.directory (dir_index virt)).present == 0)
    then s'
    else put_entry s' table i (record (s'.tables table i) {
      present = flag flags page_present;
      rw_bit = flag flags page_write;
      user = flag flags page_user;
      frame = phys / 2 ^ 12;
    })

unfoldable pub paging_unmap_page : Paging → ℕ → Paging
paging_unmap_page s virt =
    let e = s.directory (dir_index virt) in
    if e.present == 0
    then s
    else let table = frame_address e.frame in
      put_entry s table (table_index virt)
        (record (s.tables table (table_index virt)) { present = 0 })

unfoldable pub paging_get_physical : Paging → ℕ → ℕ
paging_get_physical s virt =
    let e = s.directory (dir_index virt) in
    if e.present == 0
    then 0
    else let p = s.tables (frame_address e.frame) (table_index virt) in
      if p.present == 0 then 0 else bit_or (frame_address p.frame) (bit_and virt 0xFFF)

-- `for (i = from; …; i += PAGE_SIZE) paging_map_page(i, i, …)` with `n` rounds left
unfoldable pub identity_map : ℕ → ℕ → Paging → Paging
identity_map zero from s = s
identity_map (suc n) from s =
    identity_map n (from + 4096) (paging_map_page s from from (page_present + page_write))

-- A directory in a new frame, cleared, and the first 16 MB mapped; the flag tells that it succeeded. The
-- frame held the entries `old`.
unfoldable pub paging_init : Pmm → (ℕ → Entry) → Paging → Bool × (Pmm × Paging)
paging_init m old s =
    let (page, m') = pmm_alloc_page m in
    if page == 0
    then (false, (m', record s { kernel_directory = 0 }))
    else (let s1 = record s {
      kernel_directory = page;
      directory = λ i. if ltb i 1024 then clear_entry (old i) else old i;
    } in
        let s2 = identity_map 4096 0 s1 in (true, (m', record s2 { current_directory = page })))

unfoldable pub paging_switch_directory : Paging → ℕ → Paging
paging_switch_directory s dir = record s { current_directory = dir }

unfoldable pub paging_get_directory : Paging → ℕ
paging_get_directory s = s.current_directory
