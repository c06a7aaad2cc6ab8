-- ===== src/Initrd/Listing.antt =====
-- What `ls` shows of the RAM disk.
use zenix.Prelude.{
  ℕ, zero, suc, ◌+◌, ◌-◌, ◌*◌, ◌<◌, ◌≡◌, refl, sym, ap, subst, ◌∙◌, inl, inr, true, false, none,
  some, List, [], ◌∷◌, ◌++◌, arith, leb, ◌==◌, ==_refl, Bool-cases, length, get_or, length-append,
}
use zenix.Prelude.Codes.{codes, same_text, same_text_refl}
use zenix.Nodes.{DirectoryEntry, fs_readdir, fs_finddir}
use zenix.Shell.Commands.{Print, text, ls_line, ls_next, ls_loop, shell_ls}
use mathlib.Core.List.{append_assoc, append-nil}
use zenix.Initrd.Files.{file_at-array, address_of, root-finddir}
use zenix.Initrd.{
  FileNode, Ram, node_size, no_node, initrd_readdir, find_name, initrd_finddir, node_at,
}

-- A line of the listing for each file
abbrev pub lines_of : List FileNode → List Print
lines_of [] = []
lines_of (f ∷ fs) = text (codes "  ") ∷ text f.name ∷ text (codes "\n") ∷ lines_of fs

-- The nodes are files, and none of them is named as the directory.
abbrev pub AllFiles : List FileNode → Type 0
AllFiles [] = Unit {0}
AllFiles (f ∷ fs) = (f.flags ≡ 1) × (same_text f.name (codes "dev") ≡ false) × AllFiles fs

-- The array lies apart from the two other nodes.
pub record IsDisk (d : Ram) : Type 0 where
  pub size : length ((d.initrd).nodes) ≡ (d.initrd).nroot_nodes
  pub files : AllFiles ((d.initrd).nodes)
  pub root_dev : ((d.initrd).initrd_dev == (d.initrd).initrd_root) ≡ false
  pub apart_root :
      (i : ℕ) → ((d.initrd).root_nodes + node_size * i == (d.initrd).initrd_root) ≡ false
  pub apart_dev : (i : ℕ) → ((d.initrd).root_nodes + node_size * i == (d.initrd).initrd_dev) ≡ false

-- A name that a node has is found, at a node of the array.
find_name-found :
    (pre : List FileNode) (f : FileNode) (post : List FileNode) (i : ℕ)
    → (j : ℕ) × (find_name (pre ++ f ∷ post) i f.name ≡ some (i + j))
      × (j < length (pre ++ f ∷ post))
unfolding find_name
find_name-found [] f post i = (0, rw (same_text_refl f.name) (ap some (omega arith)), omega arith)
find_name-found (p ∷ ps) f post i = elim (Bool-cases (same_text f.name p.name)) [
  | inl e ↦ (0, rw e (ap some (omega arith)), omega arith)
  | inr e ↦
      let r = find_name-found ps f post (i + 1) in
      (suc (r.0), rw e (r.1 ∙ ap some (omega arith)), omega (arith, r.2))
]

get_or-middle :
    (pre : List FileNode) (f : FileNode) (post : List FileNode)
    → get_or (pre ++ f ∷ post) (length pre) no_node ≡ f
get_or-middle [] f post = refl
get_or-middle (p ∷ ps) f post = get_or-middle ps f post

AllFiles-flags :
    (fs : List FileNode) (j : ℕ) → AllFiles fs → j < length fs → (get_or fs j no_node).flags ≡ 1
AllFiles-flags [] j a h = elim h [ ]
AllFiles-flags (f ∷ fs) zero a h = a.0
AllFiles-flags (f ∷ fs) (suc j) a h = AllFiles-flags fs j (a.2) (omega arith)

AllFiles-middle :
    (pre : List FileNode) (f : FileNode) (post : List FileNode)
    → AllFiles (pre ++ f ∷ post)
    → same_text f.name (codes "dev") ≡ false
AllFiles-middle [] f post a = a.1
AllFiles-middle (p ∷ ps) f post a = AllFiles-middle ps f post (a.2)

-- The disk with another entry in the global `dirent`
abbrev with_entry : Ram → DirectoryEntry → Ram
with_entry d e = record d { initrd = record (d.initrd) { dirent = e } }

file_flags :
    (d : Ram) (j : ℕ)
    → IsDisk d
    → j < length ((d.initrd).nodes)
    → (node_at d (address_of d j)).flags ≡ 1
unfolding node_at
file_flags d j w h =
    rw (w.apart_root j, node_at)
      (rw (w.apart_dev j)
        (rw (file_at-array d.initrd j) (AllFiles-flags ((d.initrd).nodes) j w.files h)))

file_line :
    (d : Ram) (pre : List FileNode) (f : FileNode) (post : List FileNode)
    → IsDisk d
    → (d.initrd).nodes ≡ pre ++ f ∷ post
    → (ls_line node_at
          (record { name = f.name; inode = f.inode })
          ((fs_finddir node_at ((d.initrd).initrd_root) f.name d).0)
          ((fs_finddir node_at ((d.initrd).initrd_root) f.name d).1)
        ≡ text (codes "  ") ∷ text f.name ∷ text (codes "\n") ∷ [])
      × ((fs_finddir node_at ((d.initrd).initrd_root) f.name d).1 ≡ d)
unfolding ls_line
file_line d pre f post w e =
    let r = find_name-found pre f post 0 in
    let other : same_text f.name (codes "dev") ≡ false =
      AllFiles-middle pre f post (subst AllFiles e w.files) in
    let found : fs_finddir node_at ((d.initrd).initrd_root) f.name d
        ≡ (some (address_of d (r.0)), d) =
      root-finddir d f.name (r.0) other (rw e (r.1 ∙ ap some (omega arith))) in
    let flags = file_flags d (r.0) w (rw e (r.2)) in
    (rw found (rw (flags, ls_line) refl), rw found refl)

readdir_file :
    (d : Ram) (pre : List FileNode) (f : FileNode) (post : List FileNode)
    → IsDisk d
    → (d.initrd).nodes ≡ pre ++ f ∷ post
    → fs_readdir node_at ((d.initrd).initrd_root) (length pre + 1) d ≡ (
      some (record { name = f.name; inode = f.inode }),
      with_entry d (record { name = f.name; inode = f.inode }),
    )
unfolding fs_readdir node_at initrd_readdir
readdir_file d pre f post w e =
    let s = d.initrd in
    let here : (s.initrd_root == s.initrd_root) ≡ true = ==_refl _ in
    let later : (length pre + 1 == 0) ≡ false = ground arith in
    let place : length pre + 1 - 1 ≡ length pre = omega arith in
    let inside : leb s.nroot_nodes (length pre) ≡ false =
      ground (arith, w.size, ap length e, length-append pre (f ∷ post)) in
    rw (here, fs_readdir)
      (rw here (rw later (rw place (rw inside (rw e (rw (get_or-middle pre f post) refl))))))

readdir_end :
    (d : Ram) (pre : List FileNode)
    → IsDisk d
    → (d.initrd).nodes ≡ pre
    → fs_readdir node_at ((d.initrd).initrd_root) (length pre + 1) d ≡ (none, d)
unfolding fs_readdir node_at initrd_readdir
readdir_end d pre w e =
    let s = d.initrd in
    let here : (s.initrd_root == s.initrd_root) ≡ true = ==_refl _ in
    let later : (length pre + 1 == 0) ≡ false = ground arith in
    let place : length pre + 1 - 1 ≡ length pre = omega arith in
    let past : leb s.nroot_nodes (length pre) ≡ true = ground (arith, w.size, ap length e) in
    rw (here, fs_readdir) (rw here (rw later (rw place (rw past refl))))

with_entry-IsDisk : (d : Ram) (e : DirectoryEntry) → IsDisk d → IsDisk (with_entry d e)
with_entry-IsDisk d e w = record {
  size = w.size;
  files = w.files;
  root_dev = w.root_dev;
  apart_root = w.apart_root;
  apart_dev = w.apart_dev;
}

-- The rest of the listing, from entry `length pre + 1` on
ls_loop-lines :
    (rounds : ℕ) (d : Ram) (pre post : List FileNode)
    → IsDisk d
    → (d.initrd).nodes ≡ pre ++ post
    → length post < rounds
    → (ls_loop node_at rounds (length pre + 1) ((d.initrd).initrd_root) d).0 ≡ lines_of post
unfolding ls_loop ls_next
ls_loop-lines zero d pre post w e h = elim h [ ]
ls_loop-lines (suc rounds) d pre [] w e h =
    rw (readdir_end d pre w (e ∙ append-nil pre), ls_loop) refl
ls_loop-lines (suc rounds) d pre (f ∷ fs) w e h =
    let entry : DirectoryEntry = record { name = f.name; inode = f.inode } in
    let d' = with_entry d entry in
    let w' = with_entry-IsDisk d entry w in
    let line = file_line d' pre f fs w' e in
    let rest : (ls_loop node_at rounds (length pre + 1 + 1) ((d.initrd).initrd_root) d').0
        ≡ lines_of fs =
      subst (λ n. (ls_loop node_at rounds n ((d.initrd).initrd_root) d').0 ≡ lines_of fs)
        (omega (arith, length-append pre (f ∷ [])))
        (ls_loop-lines rounds d' (pre ++ f ∷ []) fs w' (e ∙ sym (append_assoc pre (f ∷ []) fs))
          (omega arith)) in
    rw (readdir_file d pre f fs w e, ls_loop) (rw (line.0) (rw (line.1) (rw rest refl)))

abbrev dev_entry : DirectoryEntry
dev_entry = record { name = codes "dev"; inode = 0 }

readdir_dev :
    (d : Ram)
    → fs_readdir node_at ((d.initrd).initrd_root) 0 d ≡ (some dev_entry, with_entry d dev_entry)
unfolding fs_readdir node_at initrd_readdir
readdir_dev d =
    let here : ((d.initrd).initrd_root == (d.initrd).initrd_root) ≡ true = ==_refl _ in
    rw (here, fs_readdir) (rw here refl)

finddir_dev :
    (d : Ram)
    → fs_finddir node_at ((d.initrd).initrd_root) (codes "dev") d
      ≡ (some ((d.initrd).initrd_dev), d)
unfolding fs_finddir node_at initrd_finddir
finddir_dev d =
    let here : ((d.initrd).initrd_root == (d.initrd).initrd_root) ≡ true = ==_refl _ in
    rw (here, fs_finddir) (rw here refl)

dev_flags : (d : Ram) → IsDisk d → (node_at d ((d.initrd).initrd_dev)).flags ≡ 2
unfolding node_at
dev_flags d w =
    let here : ((d.initrd).initrd_dev == (d.initrd).initrd_dev) ≡ true = ==_refl _ in
    rw (w.root_dev, node_at) (rw here refl)

first_lines :
    (rounds : ℕ) (d : Ram)
    → IsDisk d
    → length ((d.initrd).nodes) < rounds
    → (ls_loop node_at (suc rounds) 0 ((d.initrd).initrd_root) d).0
      ≡ text (codes "  ")
        ∷ text (codes "dev")
        ∷ text (codes "/")
        ∷ text (codes "\n")
        ∷ lines_of ((d.initrd).nodes)
unfolding ls_loop ls_next ls_line
first_lines rounds d w few =
    let d' = with_entry d dev_entry in
    let rest : (ls_loop node_at rounds 1 ((d.initrd).initrd_root) d').0
        ≡ lines_of ((d.initrd).nodes) =
      ls_loop-lines rounds d' [] ((d.initrd).nodes) (with_entry-IsDisk d dev_entry w) refl few in
    rw (readdir_dev d, ls_loop)
      (rw (finddir_dev d') (rw (dev_flags d' (with_entry-IsDisk d dev_entry w)) (rw rest refl)))

-- `ls` on the RAM disk prints the directory "dev/" and then the name of every file, in the order of the image and
-- each on a line of its own. The disk has at most 99 files, each flagged as a file and none named
-- "dev", and its array of nodes lies apart from the two directories.
pub shell_ls-initrd :
    (d : Ram)
    → IsDisk d
    → length ((d.initrd).nodes) < 100
    → (shell_ls node_at (some ((d.initrd).initrd_root)) d).0
      ≡ text (codes "Directory listing:\n")
        ∷ text (codes "  ")
        ∷ text (codes "dev")
        ∷ text (codes "/")
        ∷ text (codes "\n")
        ∷ lines_of ((d.initrd).nodes)
unfolding shell_ls
shell_ls-initrd d w few =
    ap (λ lines. text (codes "Directory listing:\n") ∷ lines) (first_lines 100 d w few)
