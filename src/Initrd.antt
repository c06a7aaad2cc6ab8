-- ===== src/Initrd.antt =====
-- The initial RAM disk, kernel/fs/initrd.c: an image in memory, its nodes, and the three functions that the
-- nodes point to. The memory is a flat one of bytes. The nodes lie where the heap put them and nothing
-- else writes there; a node of a file is told by its place in the array. The lines that `initrd_init` prints are
-- left out.
pub mod Files
pub mod Listing
pub mod Load
mod Tests
use zenix.Prelude.{
  ℕ, zero, suc, ◌+◌, ◌-◌, ◌*◌, ◌/◌, ◌%◌, ◌^◌, ◌≤◌, ◌<◌, min, max, bit_and, bit_or, ◌≡◌, refl, sym,
  ap, subst, ◌∙◌, fun_ext, ◌≢◌, ◌↔◌, ◌⊎◌, inl, inr, Bool, true, false, not, ◌&&◌, ◌||◌, Option,
  none, some, List, [], ◌∷◌, ◌++◌, map, arith, ltb, leb, ◌==◌, if◌then◌else◌, ltb→lt, ltb→ge,
  lt→ltb, ==_iff, ==_refl, Bool-cases, Option-cases, length, get_elem?, get_or, set, take, drop,
  replicate, length-append, length-set, length-replicate, get_or-replicate, get_or-set_self,
  get_or-set_ne, length-take, take-append-drop, u8, u16, u32, sub32,
}
use zenix.Prelude.Codes.{codes, same_text}
use zenix.Heap.{Heap, kmalloc, kfree}
use zenix.Strings.{Memory}
use zenix.Nodes.{DirectoryEntry, Node, fs_directory}

-- A node of the array root_nodes
pub record FileNode : Type 0 where
  pub name : List ℕ
  pub flags : ℕ
  pub inode : ℕ
  pub length : ℕ
  pub impl : ℕ

-- The globals of initrd.c: the three pointers to nodes, and the nroot_nodes nodes of the array.
pub record Initrd : Type 0 where
  pub initrd_root : ℕ
  pub initrd_dev : ℕ
  pub root_nodes : ℕ
  pub nroot_nodes : ℕ
  pub nodes : List FileNode
  pub file_headers : ℕ
  pub dirent : DirectoryEntry

-- What the functions of the nodes work on
pub record Ram : Type 0 where
  pub memory : Memory
  pub initrd : Initrd

-- sizeof(fs_node_t)
abbrev pub node_size : ℕ
node_size = 172

-- sizeof(initrd_file_header_t), which is packed
abbrev pub header_size : ℕ
header_size = 73

-- The number in four bytes, the lowest first
unfoldable pub word_at : Memory → ℕ → ℕ
word_at m p = m p + m (p + 1) * 2 ^ 8 + m (p + 2) * 2 ^ 16 + m (p + 3) * 2 ^ 24

-- `memcpy` from `p`: the bytes that the buffer gets
unfoldable pub bytes_at : Memory → ℕ → ℕ → List ℕ
bytes_at m p zero = []
bytes_at m p (suc n) = m p ∷ bytes_at m (p + 1) n

abbrev pub no_node : FileNode
no_node = record { name = []; flags = 0; inode = 0; length = 0; impl = 0 }

-- The node of the array at an address
unfoldable pub file_at : Initrd → ℕ → FileNode
file_at s node = get_or s.nodes ((node - s.root_nodes) / node_size) no_node

-- The offset and the length that the header of a file gives
unfoldable pub header_offset : Memory → Initrd → ℕ → ℕ
header_offset m s i = word_at m (s.file_headers + header_size * i + 65)

unfoldable pub header_length : Memory → Initrd → ℕ → ℕ
header_length m s i = word_at m (s.file_headers + header_size * i + 69)

-- The tests for a null node and a null buffer are left out: no caller passes one.
unfoldable pub initrd_read : Ram → ℕ → ℕ → ℕ → (ℕ × List ℕ) × Ram
initrd_read d node offset size =
    let s = d.initrd in
    let i = (file_at s node).inode in
    let available = header_length d.memory s i in
    let count = if ltb available (u32 (offset + size)) then available - offset else size in
    if leb s.nroot_nodes i || ltb available offset
    then ((0, []), d)
    else ((count, bytes_at d.memory (u32 (header_offset d.memory s i + offset)) count), d)

-- The entry goes through the global `dirent`.
abbrev pub answer : Ram → List ℕ → ℕ → Option DirectoryEntry × Ram
answer d name inode =
    let e : DirectoryEntry = record { name = name; inode = inode } in
    (some e, record d { initrd = record (d.initrd) { dirent = e } })

unfoldable pub initrd_readdir : Ram → ℕ → ℕ → Option DirectoryEntry × Ram
initrd_readdir d node index =
    let s = d.initrd in
    let place = (if index == 0 then 1 else index) - 1 in
    if node == s.initrd_root && index == 0
    then answer d (codes "dev") 0
    else (if leb s.nroot_nodes place
        then (none, d)
        else answer d ((get_or s.nodes place no_node).name) ((get_or s.nodes place no_node).inode))

-- The loop of `initrd_finddir` from node `i` on
unfoldable pub find_name : List FileNode → ℕ → List ℕ → Option ℕ
find_name [] i name = none
find_name (f ∷ fs) i name =
    let rest = find_name fs (i + 1) name in if same_text name f.name then some i else rest

unfoldable pub initrd_finddir : Ram → ℕ → List ℕ → Option ℕ × Ram
initrd_finddir d node name =
    let s = d.initrd in
    if node == s.initrd_root && same_text name (codes "dev") then (some s.initrd_dev, d) else (
      elim (find_name s.nodes 0 name) [
        | none ↦ none
        | some i ↦ some (s.root_nodes + node_size * i)
      ],
      d,
    )

-- What lies at the address of a node
unfoldable pub node_at : Ram → ℕ → Node Ram
node_at d node =
    if node == (d.initrd).initrd_root
    then record {
      name = codes "initrd";
      flags = fs_directory;
      inode = 0;
      length = 0;
      read = none;
      write = none;
      open_type = none;
      close_type = none;
      readdir = some initrd_readdir;
      finddir = some initrd_finddir;
    }
    else (if node == (d.initrd).initrd_dev
        then record {
          name = codes "dev";
          flags = fs_directory;
          inode = 0;
          length = 0;
          read = none;
          write = none;
          open_type = none;
          close_type = none;
          readdir = none;
          finddir = none;
        }
        else record {
          name = (file_at d.initrd node).name;
          flags = (file_at d.initrd node).flags;
          inode = (file_at d.initrd node).inode;
          length = (file_at d.initrd node).length;
          read = some initrd_read;
          write = none;
          open_type = none;
          close_type = none;
          readdir = none;
          finddir = none;
        })

-- `strncpy(name, fname, 63); name[63] = 0`: the bytes before a 0, at most `room`
unfoldable pub name_at : Memory → ℕ → ℕ → List ℕ
name_at m p zero = []
name_at m p (suc room) = let rest = name_at m (p + 1) room in if m p == 0 then [] else m p ∷ rest

-- The loop that fills root_nodes, with the number of nodes left
unfoldable pub load_nodes : Memory → ℕ → ℕ → ℕ → List FileNode
load_nodes m location i zero = []
load_nodes m location i (suc left) =
    let fh = location + 4 + i * header_size in
    let f : FileNode = record {
      name = name_at m (fh + 1) 63;
      flags = 1;
      inode = i;
      length = word_at m (fh + 69);
      impl = u32 (location + word_at m (fh + 65));
    } in
    f ∷ load_nodes m location (i + 1) left

-- What `initrd_init` returns and leaves: the root, the globals and the heap.
pub record Loaded : Type 0 where
  pub root : ℕ
  pub initrd : Initrd
  pub heap : Heap

-- The three allocations, each given back if a later one fails: whether all three succeeded, the pointers as
-- they are then, and the heap. `none` means that a walk over the heap did not end.
unfoldable pub allocate_nodes : ℕ → Initrd → Heap → Option (Bool × Initrd × Heap)
allocate_nodes n s h = elim (kmalloc h (node_size * n)) [
  | none ↦ none
  | some array ↦
      let s' = record s { root_nodes = array.0 } in
      if array.0 == 0
      then elim (kfree (array.1) s.initrd_dev) [
        | none ↦ none
        | some h' ↦ elim (kfree h' s.initrd_root) [ none ↦ none | some h'' ↦ some (false, s', h'') ]
      ]
      else some (true, s', array.1)
]

unfoldable pub allocate_dev : ℕ → Initrd → Heap → Option (Bool × Initrd × Heap)
allocate_dev n s h = elim (kmalloc h node_size) [
  | none ↦ none
  | some dev ↦
      let s' = record s { initrd_dev = dev.0 } in
      if dev.0 == 0
      then elim (kfree (dev.1) s.initrd_root) [ none ↦ none | some h' ↦ some (false, s', h') ]
      else allocate_nodes n s' (dev.1)
]

unfoldable pub allocate_root : ℕ → Initrd → Heap → Option (Bool × Initrd × Heap)
allocate_root n s h = elim (kmalloc h node_size) [
  | none ↦ none
  | some root ↦
      let s' = record s { initrd_root = root.0 } in
      if root.0 == 0 then some (false, s', root.1) else allocate_dev n s' (root.1)
]

-- After the allocations
unfoldable pub load : Memory → ℕ → Bool × Initrd × Heap → Loaded
load m location (false, s, h) = record { root = 0; initrd = s; heap = h }
load m location (true, s, h) = record {
  root = s.initrd_root;
  initrd = record s { nodes = load_nodes m location 0 s.nroot_nodes; file_headers = location + 4 };
  heap = h;
}

unfoldable pub initrd_init : Memory → ℕ → Initrd → Heap → Option Loaded
initrd_init m location s h =
    let n = word_at m location in
    let s' = record s { nroot_nodes = n } in
    if ltb location 0x100000
    then some (record { root = 0; initrd = s; heap = h })
    else (if n == 0 || ltb 10 n
        then some (record { root = 0; initrd = s'; heap = h })
        else (elim (allocate_root n s' h) [ none ↦ none | some r ↦ some (load m location r) ]))
