-- ===== src/Vfs/Files.antt =====
-- The calls of vfs_complete.c on descriptors: each guard, the node's own function, and the table.
use zenix.Prelude.{
  ℕ, ◌+◌, Bool, false, Option, none, some, List, [], ltb, ◌==◌, if◌then◌else◌, length, set, u32,
}
use zenix.Prelude.Int.{ℤ, pos, negsuc, to_uint, to_int}
use zenix.Vfs.{Dirent, FsNode, FileDescriptor, Vfs, minus_one, fd_at, open_fd, alloc_fd}
use zenix.Vfs.Path.{vfs_resolve_path}

-- The memory after a call through a function pointer that may be null.
unfoldable pub run_hook : {Disk : Type 0} → Option (Disk → ℕ → Disk) → ℕ → Disk → Disk
run_hook none node d = d
run_hook (some hook) node d = hook d node

-- `fd_table[fd].offset += count`, and the memory that the node's function left
unfoldable pub add_offset : {Disk : Type 0} → Vfs Disk → ℕ → ℕ → Disk → Vfs Disk
add_offset v fd count d =
    let f = fd_at v.fd_table fd in
    record v {
      fd_table = set v.fd_table fd (record f { offset = u32 (f.offset + count) });
      disk = d;
    }

unfoldable pub whence_is : ℤ → ℕ → Bool
whence_is (pos n) mode = n == mode
whence_is (negsuc n) mode = false

-- Where the `switch` of `vfs_seek` points to, before the bounds check
unfoldable pub seek_target : ℤ → ℤ → ℕ → ℕ → Option ℕ
seek_target offset whence here length =
    if whence_is whence 0
    then some (to_uint offset)
    else (if whence_is whence 1
        then some (u32 (here + to_uint offset))
        else (if whence_is whence 2 then some (u32 (length + to_uint offset)) else none))

module _ {Disk : Type 0} (node_at : Disk → ℕ → FsNode Disk) where
  -- The part of `vfs_open` after `alloc_fd`
  unfoldable pub open_at : Option ℕ × Vfs Disk → ℕ → ℕ → ℤ × Vfs Disk
  open_at (none, v) node flags = (minus_one, v)
  open_at (some fd, v) node flags =
      let f : FileDescriptor = record (fd_at v.fd_table fd) {
        node = some node;
        offset = 0;
        flags = flags;
      } in
      (
        pos fd,
        record v {
          fd_table = set v.fd_table fd f;
          disk = run_hook ((node_at v.disk node).open_func) node v.disk;
        },
      )

  unfoldable pub open_found : Option ℕ × Disk → ℕ → Vfs Disk → ℤ × Vfs Disk
  open_found (none, d) flags v = (minus_one, record v { disk = d })
  open_found (some node, d) flags v = open_at (alloc_fd (record v { disk = d })) node flags

  unfoldable pub vfs_open : List ℕ → ℕ → Vfs Disk → ℤ × Vfs Disk
  vfs_open path flags v = open_found (vfs_resolve_path node_at path v.vfs_root v.disk) flags v

  unfoldable pub close_node : Option ℕ → Disk → Disk
  close_node none d = d
  close_node (some node) d = run_hook ((node_at d node).close_func) node d

  unfoldable pub vfs_close : ℤ → Vfs Disk → Vfs Disk
  vfs_close n v = elim (open_fd v.fd_table n) [
    | none ↦ v
    | some fd ↦ record v {
      fd_table = set v.fd_table fd (record (fd_at v.fd_table fd) { in_use = 0; node = none });
      disk = close_node ((fd_at v.fd_table fd).node) v.disk;
    }
  ]

  -- The bytes are those that the call put into the buffer.
  unfoldable pub vfs_read : ℤ → ℕ → Vfs Disk → (ℤ × List ℕ) × Vfs Disk
  vfs_read n size v = elim (open_fd v.fd_table n) [
    | none ↦ ((minus_one, []), v)
    | some fd ↦ elim ((fd_at v.fd_table fd).node) [
      | none ↦ ((minus_one, []), v)
      | some node ↦ elim ((node_at v.disk node).read) [
        | none ↦ ((minus_one, []), v)
        | some read ↦
            let r = read v.disk node ((fd_at v.fd_table fd).offset) size in
            ((to_int ((r.0).0), (r.0).1), add_offset v fd ((r.0).0) (r.1))
      ]
    ]
  ]

  unfoldable pub vfs_write : ℤ → List ℕ → ℕ → Vfs Disk → ℤ × Vfs Disk
  vfs_write n buffer size v = elim (open_fd v.fd_table n) [
    | none ↦ (minus_one, v)
    | some fd ↦ elim ((fd_at v.fd_table fd).node) [
      | none ↦ (minus_one, v)
      | some node ↦ elim ((node_at v.disk node).write) [
        | none ↦ (minus_one, v)
        | some write ↦
            let r = write v.disk node ((fd_at v.fd_table fd).offset) size buffer in
            (to_int (r.0), add_offset v fd (r.0) (r.1))
      ]
    ]
  ]

  unfoldable pub vfs_seek : ℤ → ℤ → ℤ → Vfs Disk → ℤ × Vfs Disk
  vfs_seek n offset whence v = elim (open_fd v.fd_table n) [
    | none ↦ (minus_one, v)
    | some fd ↦
        let f = fd_at v.fd_table fd in
        elim (f.node) [
          | none ↦ (minus_one, v)
          | some node ↦
              let size = (node_at v.disk node).length in
              elim (seek_target offset whence f.offset size) [
                | none ↦ (minus_one, v)
                | some target ↦
                    let new_offset = if ltb size target then size else target in
                    (
                      to_int new_offset,
                      record v { fd_table = set v.fd_table fd (record f { offset = new_offset }) },
                    )
              ]
        ]
  ]

  -- The directory entry that the caller's `entry` holds afterwards
  unfoldable pub vfs_readdir : ℤ → Dirent → ℕ → Vfs Disk → (ℤ × Dirent) × Vfs Disk
  vfs_readdir n entry index v = elim (open_fd v.fd_table n) [
    | none ↦ ((minus_one, entry), v)
    | some fd ↦ elim ((fd_at v.fd_table fd).node) [
      | none ↦ ((minus_one, entry), v)
      | some node ↦ elim ((node_at v.disk node).readdir) [
        | none ↦ ((minus_one, entry), v)
        | some readdir ↦
            let r = readdir v.disk node index in
            elim (r.0) [
              | none ↦ ((minus_one, entry), record v { disk = r.1 })
              | some found ↦ ((pos 0, found), record v { disk = r.1 })
            ]
      ]
    ]
  ]
