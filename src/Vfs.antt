-- ===== src/Vfs.antt =====
-- The virtual file system, kernel/fs/vfs_complete.c: paths, and the table of open files. A node is the
-- address of an fs_node structure. The memory that holds the structures, and that the functions they
-- point to may change, is the parameter `Disk`; a null function pointer is `none`. A text is the list
-- of its bytes before the terminating 0. The lines that the functions print are left out.
pub mod Path
pub mod Files
pub mod Resolve
pub mod Table
pub mod Calls
pub mod Stream
pub mod Seek
mod Tests
use zenix.Prelude.{
  ℕ, zero, suc, ◌+◌, ◌-◌, ◌*◌, ◌/◌, ◌%◌, ◌^◌, ◌≤◌, ◌<◌, min, max, bit_and, bit_or, ◌≡◌, refl, sym,
  ap, subst, ◌∙◌, fun_ext, ◌≢◌, ◌↔◌, ◌⊎◌, inl, inr, Bool, true, false, not, ◌&&◌, ◌||◌, Option,
  none, some, List, [], ◌∷◌, ◌++◌, map, arith, ltb, leb, ◌==◌, if◌then◌else◌, ltb→lt, ltb→ge,
  lt→ltb, ==_iff, ==_refl, Bool-cases, Option-cases, length, get_elem?, get_or, set, take, drop,
  replicate, length-append, length-set, length-replicate, get_or-replicate, get_or-set_self,
  get_or-set_ne, length-take, take-append-drop, u8, u16, u32, sub32,
}
use zenix.Prelude.Int.{ℤ, pos, negsuc}

pub record Dirent : Type 0 where
  pub name : List ℕ
  pub inode : ℕ
  pub type : ℕ

-- The functions take the memory and the node. `read` returns the count and the bytes that it put into
-- the buffer. What `impl` points to is for those functions, and is part of the memory.
pub record FsNode (Disk : Type 0) : Type 0 where
  pub name : List ℕ
  pub inode : ℕ
  pub length : ℕ
  pub flags : ℕ
  pub uid : ℕ
  pub gid : ℕ
  pub mask : ℕ
  pub read : Option (Disk → ℕ → ℕ → ℕ → (ℕ × List ℕ) × Disk)
  pub write : Option (Disk → ℕ → ℕ → ℕ → List ℕ → ℕ × Disk)
  pub open_func : Option (Disk → ℕ → Disk)
  pub close_func : Option (Disk → ℕ → Disk)
  pub readdir : Option (Disk → ℕ → ℕ → Option Dirent × Disk)
  pub finddir : Option (Disk → ℕ → List ℕ → Option ℕ × Disk)
  pub create : Option (Disk → ℕ → List ℕ → ℕ → ℤ × Disk)
  pub mkdir : Option (Disk → ℕ → List ℕ → ℕ → ℤ × Disk)
  pub unlink : Option (Disk → ℕ → List ℕ → ℤ × Disk)

pub record FileDescriptor : Type 0 where
  pub node : Option ℕ
  pub offset : ℕ
  pub flags : ℕ
  pub in_use : ℕ

-- The globals of vfs_complete.c, and the memory.
pub record Vfs (Disk : Type 0) : Type 0 where
  pub vfs_root : Option ℕ
  pub fd_table : List FileDescriptor
  pub disk : Disk

abbrev pub unused : FileDescriptor
unused = record { node = none; offset = 0; flags = 0; in_use = 0 }

-- The byte of '/'
abbrev pub slash : ℕ
slash = 47

abbrev pub minus_one : ℤ
minus_one = negsuc 0

-- The inner loop of `vfs_resolve_path`: up to `room` bytes before a slash, and the path after them.
unfoldable pub take_component : ℕ → List ℕ → List ℕ × List ℕ
take_component zero path = ([], path)
take_component (suc room) [] = ([], [])
take_component (suc room) (c ∷ cs) =
    let rest = take_component room cs in if c == slash then ([], c ∷ cs) else (c ∷ rest.0, rest.1)

unfoldable pub skip_slash : List ℕ → List ℕ
skip_slash [] = []
skip_slash (c ∷ cs) = if c == slash then cs else c ∷ cs

-- The first descriptor that is not in use
unfoldable pub free_fd : List FileDescriptor → Option ℕ
free_fd [] = none
free_fd (f ∷ fs) =
    if f.in_use == 0 then some 0 else elim (free_fd fs) [ none ↦ none | some i ↦ some (suc i) ]

-- The index of the last slash: the loops at the start of `vfs_create`, `vfs_mkdir` and `vfs_unlink`.
unfoldable pub last_slash_loop : List ℕ → ℕ → Option ℕ → Option ℕ
last_slash_loop [] p last = last
last_slash_loop (c ∷ cs) p last = last_slash_loop cs (p + 1) (if c == slash then some p else last)

-- The copy of the first `dir_len` bytes, at most 255 of them.
unfoldable pub dir_path : List ℕ → ℕ → List ℕ
dir_path path dir_len = take (if leb 256 dir_len then 255 else dir_len) path

abbrev pub fd_at : List FileDescriptor → ℕ → FileDescriptor
fd_at table fd = get_or table fd unused

-- The guard at the start of every operation on a descriptor, whose index it returns.
unfoldable pub open_fd : List FileDescriptor → ℤ → Option ℕ
open_fd table (negsuc n) = none
open_fd table (pos fd) = if leb 256 fd || ((fd_at table fd).in_use == 0) then none else some fd

unfoldable pub vfs_init : {Disk : Type 0} → Vfs Disk → Vfs Disk
vfs_init v = record v { fd_table = replicate 256 unused }

unfoldable pub vfs_set_root : {Disk : Type 0} → Vfs Disk → Option ℕ → Vfs Disk
vfs_set_root v root = record v { vfs_root = root }

unfoldable pub vfs_get_root : {Disk : Type 0} → Vfs Disk → Option ℕ
vfs_get_root v = v.vfs_root

unfoldable pub alloc_fd : {Disk : Type 0} → Vfs Disk → Option ℕ × Vfs Disk
alloc_fd v = elim (free_fd v.fd_table) [
  | none ↦ (none, v)
  | some i ↦ (
    some i,
    record v { fd_table = set v.fd_table i (record (fd_at v.fd_table i) { in_use = 1 }) },
  )
]
