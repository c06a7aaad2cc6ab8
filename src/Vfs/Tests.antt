-- ===== src/Vfs/Tests.antt =====
-- Runs of the virtual file system, and its theorems on a disk with one directory and one file.
use zenix.Prelude.{
  ℕ, ◌+◌, ◌-◌, min, ◌≡◌, refl, ◌&&◌, Option, none, some, List, [], ◌∷◌, arith, ◌==◌, if◌then◌else◌,
  length, take, drop, replicate,
}
use zenix.Prelude.Int.{pos, negsuc, to_int}
use zenix.Prelude.Codes.{same_text}
use zenix.Vfs.{
  Dirent, FsNode, Vfs, unused, take_component, skip_slash, free_fd, open_fd, alloc_fd, vfs_init,
  vfs_set_root,
}
use zenix.Vfs.Path.{find_in, resolve_loop, vfs_resolve_path}
use zenix.Vfs.Files.{
  run_hook, open_at, open_found, vfs_open, vfs_close, add_offset, vfs_read, vfs_seek,
}
use zenix.Vfs.Resolve.{walk, absolute, vfs_resolve_path-walk}
use zenix.Vfs.Table.{Open, usage, given, vfs_open_lem, vfs_open-vfs_close}
use zenix.Vfs.Calls.{opens, reads, closes, run, IsTable, vfs_init-IsTable}
use zenix.Vfs.Stream.{IsFile, OpenAt, read_pieces, total, read_pieces_lem}
use zenix.Vfs.Seek.{landing, from_end, vfs_seek_lem}

-- The memory counts the files opened.
abbrev content : List ℕ
content = 11 ∷ 12 ∷ 13 ∷ 14 ∷ 15 ∷ []

abbrev read_content : ℕ → ℕ → ℕ → ℕ → (ℕ × List ℕ) × ℕ
read_content d node offset size =
    ((min size (length content - offset), take size (drop offset content)), d)

-- "a" in node 0 is node 1, and "b" in node 1 is node 2.
abbrev lookup : ℕ → ℕ → List ℕ → Option ℕ × ℕ
lookup d node name =
    if same_text name (97 ∷ []) && node == 0
    then (some 1, d)
    else (if same_text name (98 ∷ []) && node == 1 then (some 2, d) else (none, d))

abbrev directory : FsNode ℕ
directory = record {
  name = [];
  inode = 0;
  length = 0;
  flags = 2;
  uid = 0;
  gid = 0;
  mask = 0;
  read = none;
  write = none;
  open_func = none;
  close_func = none;
  readdir = none;
  finddir = some lookup;
  create = some (λ d node name flags. (pos (length name), d + flags));
  mkdir = none;
  unlink = none;
}

abbrev file : FsNode ℕ
file = record directory {
  length = 5;
  flags = 1;
  read = some read_content;
  open_func = some (λ d node. d + 1);
  finddir = none;
  create = none;
}

abbrev node_at : ℕ → ℕ → FsNode ℕ
node_at d node = if node == 2 then file else directory

abbrev mounted : Vfs ℕ
mounted = vfs_set_root (vfs_init (record { vfs_root = none; fd_table = []; disk = 0 })) (some 0)

-- "/a/b"
abbrev names : List (List ℕ)
names = (97 ∷ []) ∷ (98 ∷ []) ∷ []

opened-twice :
    ((vfs_open node_at (absolute names) 0 mounted).0 ≡ pos 0)
    × ((vfs_open node_at (absolute names) 0 ((vfs_open node_at (absolute names) 0 mounted).1)).0
        ≡ pos 1)
unfolding vfs_open vfs_resolve_path resolve_loop take_component skip_slash find_in open_found
    open_at alloc_fd free_fd run_hook vfs_init vfs_set_root replicate
opened-twice = (refl, refl)

-- The content of the file, and the second byte of it after a seek from its end
read_back :
    (read_pieces node_at (2 ∷ 10 ∷ []) 0 ((vfs_open node_at (absolute names) 0 mounted).1)).0
    ≡ content
unfolding vfs_open vfs_resolve_path resolve_loop take_component skip_slash find_in open_found
    open_at alloc_fd free_fd run_hook vfs_init vfs_set_root replicate vfs_read open_fd add_offset
    to_int read_pieces
read_back = refl

vfs_resolve_path-walk_example :
    vfs_resolve_path node_at (absolute names) (some 0) 0 ≡ walk node_at names 0 0
vfs_resolve_path-walk_example =
    vfs_resolve_path-walk node_at names 0 0
      ((omega arith, omega arith, (refl, tt)), ((omega arith, omega arith, (refl, tt)), tt))

vfs_open_lem_example :
    Open node_at mounted 7
      (vfs_resolve_path node_at (absolute names) mounted.vfs_root mounted.disk)
      (vfs_open node_at (absolute names) 7 mounted)
vfs_open_lem_example = vfs_open_lem node_at (absolute names) 7 mounted

-- The state in which the first descriptor was opened and closed
abbrev closed_again : Vfs ℕ
closed_again = vfs_close node_at (pos 0) ((vfs_open node_at (absolute names) 0 mounted).1)

vfs_open-vfs_close_example :
    ((i : ℕ) → usage closed_again.fd_table i ≡ usage mounted.fd_table i)
    × ((vfs_open node_at (absolute names) 3 closed_again).0
        ≡ given
            ((vfs_resolve_path node_at (absolute names) closed_again.vfs_root closed_again.disk).0)
            0)
unfolding vfs_open vfs_resolve_path resolve_loop take_component skip_slash find_in open_found
    open_at alloc_fd free_fd run_hook vfs_init vfs_set_root replicate
vfs_open-vfs_close_example =
    vfs_open-vfs_close node_at (absolute names) (absolute names) 0 3 0 mounted closed_again refl
      refl refl

abbrev entry : Dirent
entry = record { name = []; inode = 0; type = 0 }

abbrev in_use_table : Vfs ℕ
in_use_table = record mounted {
  fd_table = record { node = some 2; offset = 1; flags = 0; in_use = 1 } ∷ unused ∷ [];
}

vfs_init-IsTable_example : IsTable (
    (run node_at
      (opens (absolute names) 0 ∷ reads (pos 0) 3 ∷ closes (pos 0) ∷ [])
      (vfs_init in_use_table)).fd_table)
vfs_init-IsTable_example =
    vfs_init-IsTable node_at (opens (absolute names) 0 ∷ reads (pos 0) 3 ∷ closes (pos 0) ∷ [])
      in_use_table

content-IsFile : IsFile node_at 0 2 content
content-IsFile = record { read = read_content; is_read = refl; reads = λ offset size h. refl }

content-OpenAt : OpenAt node_at in_use_table 0 2 1
unfolding open_fd
content-OpenAt = record { opened = refl; inside = omega arith; node_is = refl; offset_is = refl }

read_pieces_lem_example :
    ((read_pieces node_at (2 ∷ 1 ∷ 9 ∷ []) 0 in_use_table).0
      ≡ take (total (2 ∷ 1 ∷ 9 ∷ [])) (drop 1 content))
    × OpenAt node_at
        ((read_pieces node_at (2 ∷ 1 ∷ 9 ∷ []) 0 in_use_table).1)
        0
        2
        (min (1 + total (2 ∷ 1 ∷ 9 ∷ [])) (length content))
unfolding vfs_init vfs_set_root
read_pieces_lem_example =
    read_pieces_lem node_at (2 ∷ 1 ∷ 9 ∷ []) in_use_table 0 2 1 content content-OpenAt
      content-IsFile (omega arith) (omega arith)

vfs_seek_lem_example :
    ((vfs_seek node_at (pos 0) (negsuc 1) (pos 2) in_use_table).0 ≡ pos (landing 5 (negsuc 1) 5))
    × OpenAt node_at
        ((vfs_seek node_at (pos 0) (negsuc 1) (pos 2) in_use_table).1)
        0
        2
        (landing 5 (negsuc 1) 5)
unfolding vfs_init vfs_set_root
vfs_seek_lem_example =
    vfs_seek_lem node_at in_use_table 0 2 1 5 (negsuc 1) (pos 2) content-OpenAt (omega arith)
      (omega arith) (omega arith) from_end
