-- ===== src/Vfs/Calls.antt =====
-- The invariant of the table of open files over the calls of vfs_complete.c, and what the calls on a
-- descriptor leave alone.
use zenix.Prelude.{
  ℕ, zero, suc, ◌≡◌, refl, sym, subst, ◌∙◌, ◌≢◌, inl, inr, Option, none, some, List, [], ◌∷◌, arith,
  ◌==◌, ==_iff, Bool-cases, Option-cases, length, set, length-set, length-replicate,
  get_or-replicate_same,
}
use zenix.Prelude.Int.{ℤ}
use zenix.Vfs.{Dirent, FsNode, FileDescriptor, Vfs, unused, fd_at, open_fd, vfs_init}
use zenix.Vfs.Files.{
  vfs_open, vfs_close, add_offset, vfs_read, vfs_write, seek_target, vfs_seek, vfs_readdir,
}
use zenix.Vfs.Table.{Open, not_found, no_descriptor, opened, vfs_open_lem}

-- A descriptor that is in use has a node.
abbrev pub Held : FileDescriptor → Type 0
Held f = f.in_use ≢ 0 → f.node ≢ none

pub record IsTable (table : List FileDescriptor) : Type 0 where
  pub size : length table ≡ 256
  pub held : (fd : ℕ) → Held (fd_at table fd)

set-Held :
    (table : List FileDescriptor) (fd i : ℕ) (f : FileDescriptor)
    → ((j : ℕ) → Held (fd_at table j))
    → Held f
    → Held (fd_at (set table fd f) i)
set-Held [] fd i f held new = held i
set-Held (g ∷ gs) zero zero f held new = new
set-Held (g ∷ gs) zero (suc i) f held new = held (suc i)
set-Held (g ∷ gs) (suc fd) zero f held new = held zero
set-Held (g ∷ gs) (suc fd) (suc i) f held new = set-Held gs fd i f (λ j. held (suc j)) new

set-IsTable :
    (table : List FileDescriptor) (fd : ℕ) (f : FileDescriptor)
    → IsTable table
    → Held f
    → IsTable (set table fd f)
set-IsTable table fd f t new = record {
  size = length-set table fd f ∙ t.size;
  held = λ i. set-Held table fd i f t.held new;
}

-- What a call on the descriptor `n` may do to the table: move the offset of that descriptor, which is in
-- use.
pub data Moves (n : ℤ) (table : List FileDescriptor) : List FileDescriptor → Type 0 where
  untouched : Moves n table table
  moved :
      (fd offset : ℕ)
      → open_fd table n ≡ some fd
      → Moves n table (set table fd (record (fd_at table fd) { offset = offset }))

Moves-IsTable :
    (n : ℤ) (table after : List FileDescriptor)
    → Moves n table after
    → IsTable table
    → IsTable after
Moves-IsTable n table _ untouched t = t
Moves-IsTable n table _ (moved fd offset e) t = set-IsTable table fd _ t (t.held fd)

module _ {Disk : Type 0} (node_at : Disk → ℕ → FsNode Disk) where
  vfs_seek-Moves :
      (n offset whence : ℤ) (v : Vfs Disk)
      → Moves n v.fd_table (((vfs_seek node_at n offset whence v).1).fd_table)
  unfolding vfs_seek
  vfs_seek-Moves n offset whence v = elim (Option-cases (open_fd v.fd_table n)) [
    | inl e ↦ rw (e, vfs_seek) untouched
    | inr (fd, e) ↦ elim (Option-cases ((fd_at v.fd_table fd).node)) [
      | inl a ↦ rw (e, vfs_seek) (rw (a) untouched)
      | inr (node, a) ↦
          elim (Option-cases (
            seek_target offset whence ((fd_at v.fd_table fd).offset)
              ((node_at v.disk node).length))) [
                | inl b ↦ rw (e, vfs_seek) (rw a (rw b untouched))
                | inr (target, b) ↦ rw (e, vfs_seek) (rw a (rw b (moved fd _ e)))
              ]
    ]
  ]

  vfs_read-Moves :
      (n : ℤ) (size : ℕ) (v : Vfs Disk)
      → Moves n v.fd_table (((vfs_read node_at n size v).1).fd_table)
  unfolding vfs_read add_offset
  vfs_read-Moves n size v = elim (Option-cases (open_fd v.fd_table n)) [
    | inl e ↦ rw (e, vfs_read) untouched
    | inr (fd, e) ↦ elim (Option-cases ((fd_at v.fd_table fd).node)) [
      | inl a ↦ rw (e, vfs_read) (rw a untouched)
      | inr (node, a) ↦ elim (Option-cases ((node_at v.disk node).read)) [
        | inl b ↦ rw (e, vfs_read) (rw a (rw b untouched))
        | inr (read, b) ↦ rw (e, vfs_read) (rw a (rw b (moved fd _ e)))
      ]
    ]
  ]

  vfs_write-Moves :
      (n : ℤ) (buffer : List ℕ) (size : ℕ) (v : Vfs Disk)
      → Moves n v.fd_table (((vfs_write node_at n buffer size v).1).fd_table)
  unfolding vfs_write add_offset
  vfs_write-Moves n buffer size v = elim (Option-cases (open_fd v.fd_table n)) [
    | inl e ↦ rw (e, vfs_write) untouched
    | inr (fd, e) ↦ elim (Option-cases ((fd_at v.fd_table fd).node)) [
      | inl a ↦ rw (e, vfs_write) (rw a untouched)
      | inr (node, a) ↦ elim (Option-cases ((node_at v.disk node).write)) [
        | inl b ↦ rw (e, vfs_write) (rw a (rw b untouched))
        | inr (write, b) ↦ rw (e, vfs_write) (rw a (rw b (moved fd _ e)))
      ]
    ]
  ]

  vfs_readdir-Moves :
      (n : ℤ) (entry : Dirent) (index : ℕ) (v : Vfs Disk)
      → Moves n v.fd_table (((vfs_readdir node_at n entry index v).1).fd_table)
  unfolding vfs_readdir
  vfs_readdir-Moves n entry index v = elim (Option-cases (open_fd v.fd_table n)) [
    | inl e ↦ rw (e, vfs_readdir) untouched
    | inr (fd, e) ↦ elim (Option-cases ((fd_at v.fd_table fd).node)) [
      | inl a ↦ rw (e, vfs_readdir) (rw a untouched)
      | inr (node, a) ↦ elim (Option-cases ((node_at v.disk node).readdir)) [
        | inl b ↦ rw (e, vfs_readdir) (rw a (rw b untouched))
        | inr (readdir, b) ↦ elim (Option-cases ((readdir v.disk node index).0)) [
          | inl c ↦ rw (e, vfs_readdir) (rw a (rw b (rw c untouched)))
          | inr (found, c) ↦ rw (e, vfs_readdir) (rw a (rw b (rw c untouched)))
        ]
      ]
    ]
  ]

  -- Reading, writing, seeking and listing on `n` change nothing in the table of open files but the offset
  -- of `n` itself, and that only if `n` is in use.
  pub calls-Moves :
      (n : ℤ) (v : Vfs Disk) (size : ℕ) (buffer : List ℕ) (offset whence : ℤ) (entry : Dirent)
      (index : ℕ)
      → Moves n v.fd_table (((vfs_read node_at n size v).1).fd_table)
        × Moves n v.fd_table (((vfs_write node_at n buffer size v).1).fd_table)
        × Moves n v.fd_table (((vfs_seek node_at n offset whence v).1).fd_table)
        × Moves n v.fd_table (((vfs_readdir node_at n entry index v).1).fd_table)
  calls-Moves n v size buffer offset whence entry index = (
    vfs_read-Moves n size v,
    vfs_write-Moves n buffer size v,
    vfs_seek-Moves n offset whence v,
    vfs_readdir-Moves n entry index v,
  )

  vfs_close-IsTable :
      (n : ℤ) (v : Vfs Disk) → IsTable v.fd_table → IsTable ((vfs_close node_at n v).fd_table)
  unfolding vfs_close
  vfs_close-IsTable n v t = elim (Option-cases (open_fd v.fd_table n)) [
    | inl e ↦ rw (e, vfs_close) t
    | inr (fd, e) ↦ rw (e, vfs_close) (set-IsTable v.fd_table fd _ t (λ used. absurd (used refl)))
  ]

  Open-IsTable :
      (v : Vfs Disk) (flags : ℕ) (found : Option ℕ × Disk) (r : ℤ × Vfs Disk)
      → Open node_at v flags found r
      → IsTable v.fd_table
      → IsTable ((r.1).fd_table)
  Open-IsTable v flags found r (not_found d) t = t
  Open-IsTable v flags found r (no_descriptor node d busy) t = t
  Open-IsTable v flags found r (opened node n d table lt zeroed below len new others) t = record {
    size = len ∙ t.size;
    held = λ i. elim (Bool-cases (i == n)) [
      | inl y ↦
          subst (λ k. Held (fd_at table k)) (sym ((==_iff i n).0 y))
            (subst Held (sym new) (λ used e. absurd (ground (arith, e))))
      | inr z ↦ subst Held (sym (others i (λ q. ground (arith, z, q)))) (t.held i)
    ];
  }

-- A call of vfs_complete.c on descriptors
pub data Call : Type 0 where
  opens : List ℕ → ℕ → Call
  closes : ℤ → Call
  reads : ℤ → ℕ → Call
  writes : ℤ → List ℕ → ℕ → Call
  seeks : ℤ → ℤ → ℤ → Call
  lists : ℤ → Dirent → ℕ → Call

module _ {Disk : Type 0} (node_at : Disk → ℕ → FsNode Disk) where
  pub call : Call → Vfs Disk → Vfs Disk
  call (opens path flags) v = (vfs_open node_at path flags v).1
  call (closes n) v = vfs_close node_at n v
  call (reads n size) v = (vfs_read node_at n size v).1
  call (writes n buffer size) v = (vfs_write node_at n buffer size v).1
  call (seeks n offset whence) v = (vfs_seek node_at n offset whence v).1
  call (lists n entry index) v = (vfs_readdir node_at n entry index v).1

  pub run : List Call → Vfs Disk → Vfs Disk
  run [] v = v
  run (c ∷ cs) v = run cs (call c v)

  call-IsTable : (c : Call) (v : Vfs Disk) → IsTable v.fd_table → IsTable ((call c v).fd_table)
  unfolding call
  call-IsTable (opens path flags) v t =
      Open-IsTable node_at v flags _ _ (vfs_open_lem node_at path flags v) t
  call-IsTable (closes n) v t = vfs_close-IsTable node_at n v t
  call-IsTable (reads n size) v t = Moves-IsTable n _ _ (vfs_read-Moves node_at n size v) t
  call-IsTable (writes n buffer size) v t =
      Moves-IsTable n _ _ (vfs_write-Moves node_at n buffer size v) t
  call-IsTable (seeks n offset whence) v t =
      Moves-IsTable n _ _ (vfs_seek-Moves node_at n offset whence v) t
  call-IsTable (lists n entry index) v t =
      Moves-IsTable n _ _ (vfs_readdir-Moves node_at n entry index v) t

  run-IsTable : (cs : List Call) (v : Vfs Disk) → IsTable v.fd_table → IsTable ((run cs v).fd_table)
  unfolding run
  run-IsTable [] v t = t
  run-IsTable (c ∷ cs) v t = run-IsTable cs (call c v) (call-IsTable c v t)

  -- After `vfs_init` and any sequence of calls that open, close, read, write, seek and list, with whatever
  -- arguments, the table of open files has its 256 descriptors, and each one in use has a node.
  pub vfs_init-IsTable : (cs : List Call) (v : Vfs Disk) → IsTable ((run cs (vfs_init v)).fd_table)
  unfolding vfs_init
  vfs_init-IsTable cs v = run-IsTable cs (vfs_init v) (record {
    size = length-replicate 256 unused;
    held = λ i. subst Held (sym (get_or-replicate_same 256 i unused)) (λ used. absurd (used refl));
  })
