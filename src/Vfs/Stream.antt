-- ===== src/Vfs/Stream.antt =====
-- Reading a file from its descriptor in pieces, and the places that `vfs_seek` goes to.
use zenix.Prelude.{
  ℕ, ◌+◌, ◌-◌, ◌^◌, ◌≤◌, ◌<◌, min, ◌≡◌, refl, sym, ap, subst, ◌∙◌, some, List, [], ◌∷◌, ◌++◌, arith,
  length, set, take, drop, length-set, get_or-set_self, u32,
}
use zenix.Prelude.{length-drop, drop-drop, take-append-take, drop-min}
use zenix.Prelude.Int.{pos, to_int}
use zenix.Vfs.{FsNode, FileDescriptor, Vfs, unused, fd_at, open_fd}
use zenix.Vfs.Files.{add_offset, vfs_read}

-- The sum of the sizes
abbrev pub total : List ℕ → ℕ
total [] = 0
total (n ∷ ns) = n + total ns

drop_count :
    (offset size : ℕ) (content : List ℕ)
    → drop (offset + min size (length content - offset)) content ≡ drop size (drop offset content)
drop_count offset size content =
    sym (drop-drop offset (min size (length content - offset)) content)
    ∙ ap (λ n. drop (min size n) (drop offset content)) (sym (length-drop offset content))
    ∙ drop-min size (drop offset content)

module _ {Disk : Type 0} (node_at : Disk → ℕ → FsNode Disk) where
  -- The node has the bytes `content`: its read function returns those from the offset on, as many as are
  -- asked for and there are, and changes nothing.
  pub record IsFile (d : Disk) (node : ℕ) (content : List ℕ) : Type 0 where
    pub read : Disk → ℕ → ℕ → ℕ → (ℕ × List ℕ) × Disk
    pub is_read : (node_at d node).read ≡ some read
    pub reads :
        (offset size : ℕ)
        → offset ≤ length content
        → read d node offset size
          ≡ ((min size (length content - offset), take size (drop offset content)), d)

  -- The descriptor `fd` stands for `node` at `offset`.
  pub record OpenAt (v : Vfs Disk) (fd node offset : ℕ) : Type 0 where
    pub opened : open_fd v.fd_table (pos fd) ≡ some fd
    pub inside : fd < length v.fd_table
    pub node_is : (fd_at v.fd_table fd).node ≡ some node
    pub offset_is : (fd_at v.fd_table fd).offset ≡ offset

  -- Successive calls of `vfs_read`: all the bytes, in order.
  unfoldable pub read_pieces : List ℕ → ℕ → Vfs Disk → List ℕ × Vfs Disk
  read_pieces [] fd v = ([], v)
  read_pieces (size ∷ sizes) fd v =
      let r = vfs_read node_at (pos fd) size v in
      let rest = read_pieces sizes fd (r.1) in ((r.0).1 ++ rest.0, rest.1)

  open_fd-set :
      (table : List FileDescriptor) (fd : ℕ) (f : FileDescriptor)
      → fd < length table
      → f.in_use ≡ (fd_at table fd).in_use
      → open_fd (set table fd f) (pos fd) ≡ open_fd table (pos fd)
  unfolding open_fd
  open_fd-set table fd f lt e = rw (get_or-set_self table fd f unused lt) (rw e refl)

  -- The table with another offset in the descriptor
  pub move_offset-OpenAt :
      (v : Vfs Disk) (fd node offset place : ℕ) (d : Disk)
      → OpenAt v fd node offset
      → OpenAt
          (record v {
            fd_table = set v.fd_table fd (record (fd_at v.fd_table fd) { offset = place });
            disk = d;
          })
          fd
          node
          place
  move_offset-OpenAt v fd node offset place d o =
      let f : FileDescriptor = record (fd_at v.fd_table fd) { offset = place } in
      let here : fd_at (set v.fd_table fd f) fd ≡ f =
        get_or-set_self v.fd_table fd f unused o.inside in
      record {
        opened = open_fd-set v.fd_table fd f o.inside refl ∙ o.opened;
        inside = omega (arith, o.inside, length-set v.fd_table fd f);
        node_is = ap (λ (g : FileDescriptor). g.node) here ∙ o.node_is;
        offset_is = ap (λ (g : FileDescriptor). g.offset) here;
      }

  add_offset-OpenAt :
      (v : Vfs Disk) (fd node offset count : ℕ) (d : Disk)
      → OpenAt v fd node offset
      → offset + count < 2 ^ 31
      → OpenAt (add_offset v fd count d) fd node (offset + count)
  unfolding add_offset
  add_offset-OpenAt v fd node offset count d o small =
      subst (OpenAt (add_offset v fd count d) fd node)
        (let e : u32 ((fd_at v.fd_table fd).offset + count) ≡ offset + count =
            omega (arith, o.offset_is) in
          e)
        (move_offset-OpenAt v fd node offset (u32 ((fd_at v.fd_table fd).offset + count)) d o)

  read_once :
      (v : Vfs Disk) (fd node offset size : ℕ) (content : List ℕ)
      → OpenAt v fd node offset
      → IsFile v.disk node content
      → offset ≤ length content
      → vfs_read node_at (pos fd) size v ≡ (
        (to_int (min size (length content - offset)), take size (drop offset content)),
        add_offset v fd (min size (length content - offset)) v.disk,
      )
  unfolding vfs_read
  read_once v fd node offset size content o f h =
      rw (o.opened, vfs_read)
        (rw o.node_is (rw f.is_read (rw o.offset_is (rw (f.reads offset size h) refl))))

  -- A file read in pieces of any sizes: what the calls of `vfs_read` put into the buffer, one after the
  -- other, are the bytes of the file from the offset on, as many as the sizes make together and the file
  -- has; and the descriptor then stands where they end. The file is shorter than 2 ^ 31 bytes.
  pub read_pieces_lem :
      (sizes : List ℕ) (v : Vfs Disk) (fd node offset : ℕ) (content : List ℕ)
      → OpenAt v fd node offset
      → IsFile v.disk node content
      → offset ≤ length content
      → length content < 2 ^ 31
      → ((read_pieces sizes fd v).0 ≡ take (total sizes) (drop offset content))
        × OpenAt ((read_pieces sizes fd v).1) fd node (min (offset + total sizes) (length content))
  unfolding read_pieces add_offset
  read_pieces_lem [] v fd node offset content o f h small = (
    refl,
    subst (λ k. OpenAt v fd node k)
        (let e : offset ≡ min (offset + 0) (length content) = omega arith in e) o,
  )
  read_pieces_lem (size ∷ sizes) v fd node offset content o f h small =
      let count = min size (length content - offset) in
      let next = add_offset-OpenAt v fd node offset count v.disk o (omega (arith, h, small)) in
      let rest =
        read_pieces_lem sizes (add_offset v fd count v.disk) fd node (offset + count) content next f
          (omega (arith, h)) small in
      rw (read_once v fd node offset size content o f h) (
        ap (λ q. take size (drop offset content) ++ q)
              (rest.0 ∙ ap (take (total sizes)) (drop_count offset size content))
            ∙ take-append-take size (total sizes) (drop offset content),
        subst (λ k. OpenAt ((read_pieces sizes fd (add_offset v fd count v.disk)).1) fd node k)
            (let e : min (offset + count + total sizes) (length content)
                  ≡ min (offset + (size + total sizes)) (length content) =
                omega (arith, h) in
              e)
            (rest.1),
      )
