-- ===== src/Vfs/Path.antt =====
-- `vfs_resolve_path`, and the calls of vfs_complete.c that take a path and touch no descriptor.
use zenix.Prelude.{
  ℕ, zero, suc, ◌+◌, Option, none, some, List, [], ◌∷◌, if◌then◌else◌, length, drop,
}
use zenix.Prelude.Int.{ℤ, pos}
use zenix.Prelude.Codes.{same_text}
use zenix.Vfs.{FsNode, slash, minus_one, take_component, skip_slash, last_slash_loop, dir_path}

-- What follows a lookup: nothing, if no node was found.
abbrev pub onward :
    {Disk : Type 0} → Option ℕ × Disk → (ℕ → Disk → Option ℕ × Disk) → Option ℕ × Disk
onward (none, d) next = (none, d)
onward (some node, d) next = next node d

module _ {Disk : Type 0} (node_at : Disk → ℕ → FsNode Disk) where
  -- `vfs_finddir` on a node that is not null, and the same call within `vfs_resolve_path`
  unfoldable pub find_in : ℕ → List ℕ → Disk → Option ℕ × Disk
  find_in node name d = elim ((node_at d node).finddir) [
    | none ↦ (none, d)
    | some finddir ↦ finddir d node name
  ]

  unfoldable pub vfs_finddir : Option ℕ → List ℕ → Disk → Option ℕ × Disk
  vfs_finddir none name d = (none, d)
  vfs_finddir (some node) name d = find_in node name d

  -- The outer loop of `vfs_resolve_path`, whose rounds the fuel counts.
  unfoldable pub resolve_loop : ℕ → List ℕ → ℕ → Disk → Option ℕ × Disk
  resolve_loop zero path current d = (none, d)
  resolve_loop (suc fuel) [] current d = (some current, d)
  resolve_loop (suc fuel) (c ∷ cs) current d =
      let split = take_component 127 (c ∷ cs) in
      onward (find_in current (split.0) d)
        (λ next d'. resolve_loop fuel (skip_slash (split.1)) next d')

  unfoldable pub vfs_resolve_path : List ℕ → Option ℕ → Disk → Option ℕ × Disk
  vfs_resolve_path path none d = (none, d)
  vfs_resolve_path path (some root) d =
      if same_text path (slash ∷ [])
      then (some root, d)
      else (let rest = skip_slash path in resolve_loop (suc (length rest)) rest root d)

  -- The file `name` made in a directory that may be null
  unfoldable pub create_in : Option ℕ → List ℕ → ℕ → Disk → ℤ × Disk
  create_in none name flags d = (minus_one, d)
  create_in (some dir) name flags d = elim ((node_at d dir).create) [
    | none ↦ (minus_one, d)
    | some create ↦ create d dir name flags
  ]

  unfoldable pub mkdir_in : Option ℕ → List ℕ → ℕ → Disk → ℤ × Disk
  mkdir_in none name mode d = (minus_one, d)
  mkdir_in (some dir) name mode d = elim ((node_at d dir).mkdir) [
    | none ↦ (minus_one, d)
    | some mkdir ↦ mkdir d dir name mode
  ]

  unfoldable pub unlink_in : Option ℕ → List ℕ → Disk → ℤ × Disk
  unlink_in none name d = (minus_one, d)
  unlink_in (some dir) name d = elim ((node_at d dir).unlink) [
    | none ↦ (minus_one, d)
    | some unlink ↦ unlink d dir name
  ]

  unfoldable pub vfs_create : List ℕ → ℕ → Option ℕ → Disk → ℤ × Disk
  vfs_create path flags root d = elim (last_slash_loop path 0 none) [
    | none ↦ create_in root path flags d
    | some last_slash ↦
        let dir = vfs_resolve_path (dir_path path last_slash) root d in
        create_in (dir.0) (drop (last_slash + 1) path) flags (dir.1)
  ]

  unfoldable pub vfs_mkdir : List ℕ → ℕ → Option ℕ → Disk → ℤ × Disk
  vfs_mkdir path mode root d = elim (last_slash_loop path 0 none) [
    | none ↦ mkdir_in root path mode d
    | some last_slash ↦
        let dir = vfs_resolve_path (dir_path path last_slash) root d in
        mkdir_in (dir.0) (drop (last_slash + 1) path) mode (dir.1)
  ]

  unfoldable pub vfs_unlink : List ℕ → Option ℕ → Disk → ℤ × Disk
  vfs_unlink path root d = elim (last_slash_loop path 0 none) [
    | none ↦ unlink_in root path d
    | some last_slash ↦
        let dir = vfs_resolve_path (dir_path path last_slash) root d in
        unlink_in (dir.0) (drop (last_slash + 1) path) (dir.1)
  ]

  -- The buffer is the node `stat_buf`.
  unfoldable pub vfs_stat : List ℕ → FsNode Disk → Option ℕ → Disk → (ℤ × FsNode Disk) × Disk
  vfs_stat path stat_buf root d =
      let found = vfs_resolve_path path root d in
      elim (found.0) [
        | none ↦ ((minus_one, stat_buf), found.1)
        | some node ↦
            let n = node_at (found.1) node in
            (
              (
                pos 0,
                record stat_buf {
                  name = n.name;
                  inode = n.inode;
                  length = n.length;
                  flags = n.flags;
                  uid = n.uid;
                  gid = n.gid;
                  mask = n.mask;
                },
              ),
              found.1,
            )
      ]
