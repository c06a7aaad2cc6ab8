-- ===== src/Heap.antt =====
-- The kernel heap, kernel/mm/heap.c: a first-fit allocator over a singly linked list of blocks, whose
-- headers (12 bytes each) lie in the memory that they describe. The memory is a function from the
-- address of a header to its three fields. Loops over the list run on fuel: `chain_limit` rounds.

pub mod Cells
pub mod Fit
pub mod Rows
pub mod Malloc
pub mod Release
pub mod Joined
pub mod Absorb
pub mod Free
pub mod RoundTrip
mod Tests
use zenix.Prelude.{
  ℕ, zero, suc, ◌+◌, ◌-◌, ◌*◌, ◌/◌, ◌%◌, ◌^◌, ◌≤◌, ◌<◌, min, max, bit_and, bit_or, ◌≡◌, refl, sym,
  ap, subst, ◌∙◌, fun_ext, ◌≢◌, ◌↔◌, ◌⊎◌, inl, inr, Bool, true, false, not, ◌&&◌, ◌||◌, Option,
  none, some, List, [], ◌∷◌, ◌++◌, map, arith, ltb, leb, ◌==◌, if◌then◌else◌, ltb→lt, ltb→ge,
  lt→ltb, ==_iff, ==_refl, Bool-cases, Option-cases, length, get_elem?, get_or, set, take, drop,
  replicate, length-append, length-set, length-replicate, get_or-replicate, get_or-set_self,
  get_or-set_ne, length-take, take-append-drop, u8, u16, u32, sub32,
}

-- `heap_block_t`
pub record HeapBlock : Type 0 where
  pub size : ℕ
  pub used : ℕ
  pub next : ℕ

-- The globals of heap.c and the headers in memory.
pub record Heap : Type 0 where
  pub heap_start : ℕ
  pub heap_used : ℕ
  pub block : ℕ → HeapBlock

abbrev pub region_start : ℕ
region_start = 0x400000

abbrev pub region_size : ℕ
region_size = 0x400000

-- `sizeof(heap_block_t)`
abbrev pub header_size : ℕ
header_size = 12

abbrev pub chain_limit : ℕ
chain_limit = 0x400000

-- The heap with the header at `p` written.
abbrev pub put : Heap → ℕ → HeapBlock → Heap
put s p b = record s { block = λ q. if p == q then b else s.block q }

unfoldable pub heap_init : (ℕ → HeapBlock) → Heap
heap_init memory =
    put (record { heap_start = region_start; heap_used = 0; block = memory }) region_start
      (record { size = region_size - header_size; used = 0; next = 0 })

-- What `kmalloc` does with a block that fits: split it if it is too large, and mark it.
unfoldable pub split : Heap → ℕ → ℕ → Heap
split s current size =
    let b = s.block current in
    let new_block = u32 (current + header_size + size) in
    if ltb (u32 (size + header_size + 4)) b.size
    then put
        (put s new_block
          (record { size = sub32 b.size (u32 (size + header_size)); used = 0; next = b.next }))
        current (record b { size = size; next = new_block })
    else s

unfoldable pub claim : Heap → ℕ → ℕ → Heap
unfolding split
claim s current size =
    let t = split s current size in
    record (put t current (record (t.block current) { used = 1 })) {
      heap_used = u32 (t.heap_used + (t.block current).size);
    }

-- The loop of `kmalloc`; `none` means that the fuel ran out, 0 is the null pointer.
unfoldable pub find_fit : ℕ → ℕ → ℕ → Heap → Option (ℕ × Heap)
find_fit zero size current s = none
find_fit (suc fuel) size current s =
    let rest = find_fit fuel size (s.block current).next s in
    if current == 0
    then some (0, s)
    else (if (s.block current).used == 0 && leb size (s.block current).size
        then some (u32 (current + header_size), claim s current size)
        else rest)

-- `(size + 3) & ~3`
abbrev pub align4 : ℕ → ℕ
align4 size = u32 (size + 3) / 4 * 4

unfoldable pub kmalloc : Heap → ℕ → Option (ℕ × Heap)
kmalloc s size =
    if size == 0 then some (0, s) else find_fit chain_limit (align4 size) s.heap_start s

-- The block behind `p` joined to `p`.
abbrev pub merge_next : Heap → ℕ → ℕ → Heap
merge_next s p q = put s p (record (s.block p) {
  size = u32 ((s.block p).size + header_size + (s.block q).size);
  next = (s.block q).next;
})

-- The walk to the block before `target`: 0 if there is none, `none` if the fuel ran out.
unfoldable pub find_prev : ℕ → ℕ → ℕ → Heap → Option ℕ
find_prev zero target current s = none
find_prev (suc fuel) target current s =
    let rest = find_prev fuel target (s.block current).next s in
    if current == 0 then some 0 else if (s.block current).next == target then some current else rest

-- `block->used = 0; heap_used -= block->size;`
unfoldable pub mark_free : Heap → ℕ → Heap
mark_free s p = record (put s p (record (s.block p) { used = 0 })) {
  heap_used = sub32 s.heap_used (s.block p).size;
}

-- `mark_free`, and the merge with the next block.
unfoldable pub release : Heap → ℕ → Heap
release s p =
    let t = mark_free s p in
    let q = (t.block p).next in
    if not (q == 0) && (t.block q).used == 0 then merge_next t p q else t

-- The merge with the previous block.
unfoldable pub absorb : Heap → ℕ → ℕ → Heap
absorb s prev p = if not (prev == 0) && (s.block prev).used == 0 then merge_next s prev p else s

unfoldable pub kfree : Heap → ℕ → Option Heap
kfree s ptr =
    if ptr == 0
    then some s
    else let p = sub32 ptr header_size in
      if (s.block p).used == 0
      then some s
      else let t = release s p in
        elim (find_prev chain_limit p t.heap_start t) [
          | none ↦ none
          | some prev ↦ some (absorb t prev p)
        ]

unfoldable pub heap_get_used : Heap → ℕ
heap_get_used s = s.heap_used

unfoldable pub heap_get_free : Heap → ℕ
heap_get_free s = sub32 (sub32 region_size s.heap_used) header_size
