-- ===== src/Vfs/Table.antt =====
-- The table of open files: which descriptor `vfs_open` takes, what a call leaves alone, and the
-- invariant of the table.
use zenix.Prelude.{
  ℕ, zero, suc, ◌<◌, ◌≡◌, refl, sym, ap, subst, ◌∙◌, ◌≢◌, inl, inr, false, Option, none, some, List,
  [], ◌∷◌, arith, leb, ◌==◌, ==_iff, Bool-cases, length, set, length-set, get_or-set_self,
  get_or-set_ne,
}
use zenix.Prelude.Int.{ℤ, pos, pos_part}
use zenix.Vfs.{FsNode, FileDescriptor, Vfs, minus_one, unused, fd_at, free_fd, open_fd, alloc_fd}
use zenix.Vfs.Path.{vfs_resolve_path}
use zenix.Vfs.Files.{run_hook, open_at, open_found, vfs_open, vfs_close}

abbrev pub usage : List FileDescriptor → ℕ → ℕ
usage table fd = (fd_at table fd).in_use

-- What `free_fd` finds in a table.
pub data Free (table : List FileDescriptor) : Option ℕ → Type 0 where
  full : ((i : ℕ) → i < length table → usage table i ≢ 0) → Free table none
  first :
      (fd : ℕ)
      → fd < length table
      → usage table fd ≡ 0
      → ((i : ℕ) → i < fd → usage table i ≢ 0)
      → Free table (some fd)

in_use_below :
    (f : FileDescriptor) (fs : List FileDescriptor) (n : ℕ)
    → f.in_use ≢ 0
    → ((i : ℕ) → i < n → usage fs i ≢ 0)
    → (i : ℕ) → i < suc n
    → usage (f ∷ fs) i ≢ 0
in_use_below f fs n h below zero lt = h
in_use_below f fs n h below (suc i) lt = below i (omega arith)

Free-later :
    (f : FileDescriptor) (fs : List FileDescriptor) (r : Option ℕ)
    → f.in_use ≢ 0
    → Free fs r
    → Free (f ∷ fs) (elim r [ none ↦ none | some i ↦ some (suc i) ])
Free-later f fs _ h (full busy) = full (in_use_below f fs (length fs) h busy)
Free-later f fs _ h (first i lt zeroed below) =
    first (suc i) (omega arith) zeroed (in_use_below f fs i h below)

pub free_fd-Free : (table : List FileDescriptor) → Free table (free_fd table)
unfolding free_fd
free_fd-Free [] = full (λ i lt. elim lt [ ])
free_fd-Free (f ∷ fs) = elim (Bool-cases (f.in_use == 0)) [
  | inl e ↦ rw e (first 0 (omega arith) ((==_iff _ _).0 e) (λ i lt. elim lt [ ]))
  | inr e ↦ rw e (Free-later f fs (free_fd fs) (λ z. ground (arith, e, z)) (free_fd-Free fs))
]

-- What `vfs_open` returns for a path that leads to `found`, and the table and memory that it leaves.
pub data Open {Disk : Type 0} (node_at : Disk → ℕ → FsNode Disk) (v : Vfs Disk) (flags : ℕ)
    : Option ℕ × Disk → ℤ × Vfs Disk → Type 0 where
  not_found : (d : Disk) → Open node_at v flags (none, d) (minus_one, record v { disk = d })
  no_descriptor :
      (node : ℕ) (d : Disk)
      → ((i : ℕ) → i < length v.fd_table → usage v.fd_table i ≢ 0)
      → Open node_at v flags (some node, d) (minus_one, record v { disk = d })
  opened :
      (node fd : ℕ) (d : Disk) (table : List FileDescriptor)
      → fd < length v.fd_table
      → usage v.fd_table fd ≡ 0
      → ((i : ℕ) → i < fd → usage v.fd_table i ≢ 0)
      → length table ≡ length v.fd_table
      → fd_at table fd ≡ record { node = some node; offset = 0; flags = flags; in_use = 1 }
      → ((i : ℕ) → i ≢ fd → fd_at table i ≡ fd_at v.fd_table i)
      → Open node_at v flags
          (some node, d)
          (
            pos fd,
            record v { fd_table = table; disk = run_hook ((node_at d node).open_func) node d },
          )

-- What a call returns that finds `found` and takes the descriptor `fd` if that is a node.
abbrev pub given : Option ℕ → ℕ → ℤ
given none fd = minus_one
given (some node) fd = pos fd

set-usage :
    (table old : List FileDescriptor) (fd i : ℕ) (f : FileDescriptor)
    → fd < length table
    → f.in_use ≡ usage old fd
    → ((j : ℕ) → j ≢ fd → fd_at table j ≡ fd_at old j)
    → usage (set table fd f) i ≡ usage old i
set-usage table old fd i f lt e others = elim (Bool-cases (i == fd)) [
  | inl y ↦
      subst (λ k. usage (set table fd f) k ≡ usage old k) (sym ((==_iff i fd).0 y))
        (ap (λ (g : FileDescriptor). g.in_use) (get_or-set_self table fd f unused lt) ∙ e)
  | inr n ↦
      let ne : i ≢ fd = λ q. ground (arith, n, q) in
      ap (λ (g : FileDescriptor). g.in_use)
        (get_or-set_ne table fd i f unused (λ q. ne (sym q)) ∙ others i ne)
]

module _ {Disk : Type 0} (node_at : Disk → ℕ → FsNode Disk) where
  fd_at-twice :
      (table : List FileDescriptor) (fd : ℕ) (f g : FileDescriptor)
      → fd < length table
      → fd_at (set (set table fd f) fd g) fd ≡ g
  fd_at-twice table fd f g h =
      get_or-set_self (set table fd f) fd g unused (omega (arith, length-set table fd f, h))

  allocated-Open :
      (v : Vfs Disk) (node flags : ℕ) (d : Disk) (r : Option ℕ)
      → Free v.fd_table r
      → free_fd v.fd_table ≡ r
      → Open node_at v flags
          (some node, d)
          (open_at node_at (alloc_fd (record v { disk = d })) node flags)
  unfolding open_at alloc_fd
  allocated-Open v node flags d _ (full busy) e = rw (e, alloc_fd) (no_descriptor node d busy)
  allocated-Open v node flags d _ (first fd lt zeroed below) e =
      let t = v.fd_table in
      let f : FileDescriptor = record (fd_at t fd) { in_use = 1 } in
      let g : FileDescriptor = record (fd_at (set t fd f) fd) {
        node = some node;
        offset = 0;
        flags = flags;
      } in
      rw (e, alloc_fd)
        (opened node fd d (set (set t fd f) fd g) lt zeroed below
          (length-set (set t fd f) fd g ∙ length-set t fd f)
          (fd_at-twice t fd f g lt
            ∙ ap (λ (h : FileDescriptor). record h { node = some node; offset = 0; flags = flags })
                (get_or-set_self t fd f unused lt))
          (λ i ne.
            get_or-set_ne (set t fd f) fd i g unused (λ q. ne (sym q))
            ∙ get_or-set_ne t fd i f unused (λ q. ne (sym q))))

  found-Open :
      (found : Option ℕ × Disk) (flags : ℕ) (v : Vfs Disk)
      → Open node_at v flags found (open_found node_at found flags v)
  unfolding open_found
  found-Open (none, d) flags v = not_found d
  found-Open (some node, d) flags v = allocated-Open v node flags d _ (free_fd-Free v.fd_table) refl

  -- `vfs_open` returns -1 if the path leads to no node or every descriptor is in use. Otherwise it returns
  -- the first descriptor that was not, which then stands for the node at offset 0 with the flags
  -- given; the other descriptors stay, and the node's open function runs.
  pub vfs_open_lem :
      (path : List ℕ) (flags : ℕ) (v : Vfs Disk)
      → Open node_at v flags
          (vfs_resolve_path node_at path v.vfs_root v.disk)
          (vfs_open node_at path flags v)
  unfolding vfs_open
  vfs_open_lem path flags v = found-Open (vfs_resolve_path node_at path v.vfs_root v.disk) flags v

  open_fd-used :
      (table : List FileDescriptor) (fd : ℕ)
      → length table ≡ 256
      → fd < length table
      → usage table fd ≢ 0
      → open_fd table (pos fd) ≡ some fd
  unfolding open_fd
  open_fd-used table fd size lt used =
      let inside : leb 256 fd ≡ false = ground (arith, size, lt) in
      let busy : (usage table fd == 0) ≡ false = ground (arith, used) in rw inside (rw busy refl)

  -- The table after `vfs_close` of a descriptor that is in use
  vfs_close-table :
      (v : Vfs Disk) (fd : ℕ)
      → length v.fd_table ≡ 256
      → fd < length v.fd_table
      → usage v.fd_table fd ≢ 0
      → (vfs_close node_at (pos fd) v).fd_table
        ≡ set v.fd_table fd (record (fd_at v.fd_table fd) { in_use = 0; node = none })
  unfolding vfs_close
  vfs_close-table v fd size lt used = rw (open_fd-used v.fd_table fd size lt used, vfs_close) refl

  Open-closed :
      (v : Vfs Disk) (flags : ℕ) (found : Option ℕ × Disk) (r : ℤ × Vfs Disk) (fd i : ℕ)
      → Open node_at v flags found r
      → length v.fd_table ≡ 256
      → r.0 ≡ pos fd
      → usage ((vfs_close node_at (pos fd) (r.1)).fd_table) i ≡ usage v.fd_table i
  Open-closed v flags found r fd i (not_found d) size e = absurd (ground (arith, e))
  Open-closed v flags found r fd i (no_descriptor node d busy) size e = absurd (ground (arith, e))
  Open-closed v flags found r fd i (opened node n d table lt zeroed below len new others) size e =
      let same : n ≡ fd = ap pos_part e in
      let used : usage table fd ≡ 1 =
        subst (λ k. usage table k ≡ 1) same (ap (λ (f : FileDescriptor). f.in_use) new) in
      let inside : fd < length table = omega (arith, lt, same, len) in
      let w : Vfs Disk = record v {
        fd_table = table;
        disk = run_hook ((node_at d node).open_func) node d;
      } in
      let after : (vfs_close node_at (pos fd) w).fd_table
          ≡ set table fd (record (fd_at table fd) { in_use = 0; node = none }) =
        vfs_close-table w fd (len ∙ size) inside (λ z. absurd (omega (arith, z, used))) in
      rw after (
        set-usage table v.fd_table fd i _ inside (sym zeroed ∙ ap (usage v.fd_table) same)
          (λ j ne. others j (λ q. ne (q ∙ same))))

  Open-closed_length :
      (v : Vfs Disk) (flags : ℕ) (found : Option ℕ × Disk) (r : ℤ × Vfs Disk) (fd : ℕ)
      → Open node_at v flags found r
      → length v.fd_table ≡ 256
      → r.0 ≡ pos fd
      → length ((vfs_close node_at (pos fd) (r.1)).fd_table) ≡ length v.fd_table
  Open-closed_length v flags found r fd (not_found d) size e = absurd (ground (arith, e))
  Open-closed_length v flags found r fd (no_descriptor node d busy) size e =
      absurd (ground (arith, e))
  Open-closed_length v flags found r fd (opened node n d table lt zeroed below len new others) size
        e =
      let same : n ≡ fd = ap pos_part e in
      let used : usage table fd ≡ 1 =
        subst (λ k. usage table k ≡ 1) same (ap (λ (f : FileDescriptor). f.in_use) new) in
      let w : Vfs Disk = record v {
        fd_table = table;
        disk = run_hook ((node_at d node).open_func) node d;
      } in
      let after =
        vfs_close-table w fd (len ∙ size) (omega (arith, lt, same, len))
          (λ z. absurd (omega (arith, z, used))) in
      rw after (length-set table fd (record (fd_at table fd) { in_use = 0; node = none }) ∙ len)

  -- The descriptor that was returned is the first one that was not in use.
  Open-first :
      (v : Vfs Disk) (flags : ℕ) (found : Option ℕ × Disk) (r : ℤ × Vfs Disk) (fd : ℕ)
      → Open node_at v flags found r
      → r.0 ≡ pos fd
      → (fd < length v.fd_table)
        × (usage v.fd_table fd ≡ 0)
        × ((i : ℕ) → i < fd → usage v.fd_table i ≢ 0)
  Open-first v flags found r fd (not_found d) e = absurd (ground (arith, e))
  Open-first v flags found r fd (no_descriptor node d busy) e = absurd (ground (arith, e))
  Open-first v flags found r fd (opened node n d table lt zeroed below len new others) e =
      subst
        (λ k.
          (k < length v.fd_table)
          × (usage v.fd_table k ≡ 0)
          × ((i : ℕ) → i < k → usage v.fd_table i ≢ 0))
        (ap pos_part e) (lt, zeroed, below)

  -- Another call on a table with that descriptor free, and none before it
  Open-again :
      (w : Vfs Disk) (flags : ℕ) (found : Option ℕ × Disk) (r : ℤ × Vfs Disk) (fd : ℕ)
      → Open node_at w flags found r
      → fd < length w.fd_table
      → usage w.fd_table fd ≡ 0
      → ((i : ℕ) → i < fd → usage w.fd_table i ≢ 0)
      → r.0 ≡ given (found.0) fd
  Open-again w flags found r fd (not_found d) lt zeroed below = refl
  Open-again w flags found r fd (no_descriptor node d busy) lt zeroed below =
      absurd (busy fd lt zeroed)
  Open-again w flags found r fd (opened node n d table lt' zeroed' below' len new others) lt zeroed
        below =
      elim (Bool-cases (n == fd)) [
        | inl e ↦ ap pos ((==_iff n fd).0 e)
        | inr e ↦ elim (Bool-cases (leb n fd)) [
          | inl h ↦ absurd (below n (ground (arith, e, h)) zeroed')
          | inr h ↦ absurd (below' fd (ground (arith, e, h)) zeroed)
        ]
      ]

  -- In a table of 256 descriptors, one that `vfs_open` returned, closed again, is as free as before, and every other descriptor
  -- is in use or free as before; so the next `vfs_open`, of any path that leads to a node from the root there is
  -- then, takes the same one, and of any other path returns -1.
  pub vfs_open-vfs_close :
      (path next_path : List ℕ) (flags next_flags fd : ℕ) (v w : Vfs Disk)
      → length v.fd_table ≡ 256
      → (vfs_open node_at path flags v).0 ≡ pos fd
      → w ≡ vfs_close node_at (pos fd) ((vfs_open node_at path flags v).1)
      → ((i : ℕ) → usage w.fd_table i ≡ usage v.fd_table i)
        × ((vfs_open node_at next_path next_flags w).0
            ≡ given ((vfs_resolve_path node_at next_path w.vfs_root w.disk).0) fd)
  vfs_open-vfs_close path next_path flags next_flags fd v w size e closed =
      let before = vfs_open_lem path flags v in
      let (lt, zeroed, below) = Open-first v flags _ _ fd before e in
      let same : (i : ℕ) → usage w.fd_table i ≡ usage v.fd_table i = λ i.
        ap (λ (u : Vfs Disk). usage u.fd_table i) closed
        ∙ Open-closed v flags _ _ fd i before size e in
      let long : length w.fd_table ≡ length v.fd_table =
        ap (λ (u : Vfs Disk). length u.fd_table) closed
        ∙ Open-closed_length v flags _ _ fd before size e in
      (
        same,
        Open-again w next_flags _ _ fd (vfs_open_lem next_path next_flags w)
            (omega (arith, lt, long)) (same fd ∙ zeroed) (λ i h z. below i h (sym (same i) ∙ z)),
      )
