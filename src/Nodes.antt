-- ===== src/Nodes.antt =====
-- The node layer that the shell and the RAM disk use, kernel/fs/vfs.c. A node is the address of an
-- fs_node structure of vfs.h; the memory that holds the structures is the parameter `Disk`, and a null
-- function pointer is `none`. A text is the list of its bytes before the terminating 0.
use zenix.Prelude.{ℕ, bit_and, Option, none, some, List, [], ◌==◌, if◌then◌else◌}

-- An entry of a directory
pub record DirectoryEntry : Type 0 where
  pub name : List ℕ
  pub inode : ℕ

-- The functions take the memory and the node; `read` returns the count and the bytes of the buffer. What
-- `impl` and `ptr` stand for is for those functions, and is part of the memory.
pub record Node (Disk : Type 0) : Type 0 where
  pub name : List ℕ
  pub flags : ℕ
  pub inode : ℕ
  pub length : ℕ
  pub read : Option (Disk → ℕ → ℕ → ℕ → (ℕ × List ℕ) × Disk)
  pub write : Option (Disk → ℕ → ℕ → ℕ → List ℕ → ℕ × Disk)
  pub open_type : Option (Disk → ℕ → Disk)
  pub close_type : Option (Disk → ℕ → Disk)
  pub readdir : Option (Disk → ℕ → ℕ → Option DirectoryEntry × Disk)
  pub finddir : Option (Disk → ℕ → List ℕ → Option ℕ × Disk)

abbrev pub fs_directory : ℕ
fs_directory = 0x02

module _ {Disk : Type 0} (node_at : Disk → ℕ → Node Disk) where
  unfoldable pub fs_read : ℕ → ℕ → ℕ → Disk → (ℕ × List ℕ) × Disk
  fs_read node offset size d = elim ((node_at d node).read) [
    | none ↦ ((0, []), d)
    | some read ↦ read d node offset size
  ]

  unfoldable pub fs_write : ℕ → ℕ → ℕ → List ℕ → Disk → ℕ × Disk
  fs_write node offset size buffer d = elim ((node_at d node).write) [
    | none ↦ (0, d)
    | some write ↦ write d node offset size buffer
  ]

  -- The flags are ignored.
  unfoldable pub fs_open : ℕ → ℕ → Disk → Disk
  fs_open node flags d = elim ((node_at d node).open_type) [
    | none ↦ d
    | some open_it ↦ open_it d node
  ]

  unfoldable pub fs_close : ℕ → Disk → Disk
  fs_close node d = elim ((node_at d node).close_type) [
    | none ↦ d
    | some close_it ↦ close_it d node
  ]

  unfoldable pub fs_readdir : ℕ → ℕ → Disk → Option DirectoryEntry × Disk
  fs_readdir node index d =
      if bit_and ((node_at d node).flags) fs_directory == 0
      then (none, d)
      else (elim ((node_at d node).readdir) [
        | none ↦ (none, d)
        | some readdir ↦ readdir d node index
      ])

  unfoldable pub fs_finddir : ℕ → List ℕ → Disk → Option ℕ × Disk
  fs_finddir node name d =
      if bit_and ((node_at d node).flags) fs_directory == 0
      then (none, d)
      else (elim ((node_at d node).finddir) [
        | none ↦ (none, d)
        | some finddir ↦ finddir d node name
      ])
