-- ===== src/Vfs/Seek.antt =====
-- Where `vfs_seek` goes to, on every mode and on both sides of the file.
use zenix.Prelude.{ℕ, ◌+◌, ◌-◌, ◌^◌, ◌≤◌, ◌<◌, ◌≡◌, refl, some, arith, ltb, leb, if◌then◌else◌, u32}
use zenix.Prelude.Int.{ℤ, pos, negsuc, to_uint, to_int-small}
use zenix.Vfs.{FsNode, Vfs}
use zenix.Vfs.Files.{whence_is, seek_target, vfs_seek}
use zenix.Vfs.Stream.{OpenAt, move_offset-OpenAt}

-- The place `offset` away from `base` in a file of `size` bytes, and the end of the file if that is
-- outside, on either side.
pub landing : ℕ → ℤ → ℕ → ℕ
landing base (pos k) size = if leb (base + k) size then base + k else size
landing base (negsuc k) size = if ltb k base then base - k - 1 else size

-- A 32-bit int
abbrev pub IsInt : ℤ → Type 0
IsInt (pos k) = k < 2 ^ 31
IsInt (negsuc k) = k < 2 ^ 31

landing-u32 :
    (base : ℕ) (offset : ℤ) (size : ℕ)
    → IsInt offset
    → base ≤ size
    → size < 2 ^ 31
    → (if ltb size (u32 (base + to_uint offset)) then size else u32 (base + to_uint offset))
      ≡ landing base offset size
unfolding landing to_uint
landing-u32 base (pos k) size small le h = ground arith
landing-u32 base (negsuc k) size small le h = ground arith

landing-zero :
    (offset : ℤ) (size : ℕ)
    → IsInt offset
    → size < 2 ^ 31
    → (if ltb size (to_uint offset) then size else to_uint offset) ≡ landing 0 offset size
unfolding landing to_uint
landing-zero (pos k) size small h = ground arith
landing-zero (negsuc k) size small h = ground arith

landing-inside : (base : ℕ) (offset : ℤ) (size : ℕ) → base ≤ size → landing base offset size ≤ size
unfolding landing
landing-inside base (pos k) size h = ground arith
landing-inside base (negsuc k) size h = ground arith

-- What each mode counts from: SEEK_SET, SEEK_CUR and SEEK_END.
pub data Base (here size : ℕ) : ℤ → ℕ → Type 0 where
  from_start : Base here size (pos 0) 0
  from_here : Base here size (pos 1) here
  from_end : Base here size (pos 2) size

Base-le : (here size base : ℕ) (whence : ℤ) → here ≤ size → Base here size whence base → base ≤ size
Base-le here size base whence le from_start = omega arith
Base-le here size base whence le from_here = le
Base-le here size base whence le from_end = omega arith

-- The target of a seek, bounded
abbrev Bounded : ℤ → ℤ → ℕ → ℕ → ℕ → Type 0
Bounded offset whence here size place =
    (target : ℕ) × (seek_target offset whence here size ≡ some target)
    × ((if ltb size target then size else target) ≡ place)

seek_target-Bounded :
    (here size base : ℕ) (offset whence : ℤ)
    → IsInt offset
    → here ≤ size
    → size < 2 ^ 31
    → Base here size whence base
    → Bounded offset whence here size (landing base offset size)
unfolding seek_target whence_is
seek_target-Bounded here size base offset whence int le small from_start =
    (to_uint offset, refl, landing-zero offset size int small)
seek_target-Bounded here size base offset whence int le small from_here =
    (u32 (here + to_uint offset), refl, landing-u32 here offset size int le small)
seek_target-Bounded here size base offset whence int le small from_end =
    (u32 (size + to_uint offset), refl, landing-u32 size offset size int (omega arith) small)

module _ {Disk : Type 0} (node_at : Disk → ℕ → FsNode Disk) where
  -- `vfs_seek` on a file shorter than 2 ^ 31 bytes, in each of the three modes: it goes to the place
  -- `offset` away from the start, the present offset or the end, and returns it, if that is inside
  -- the file; and to the end of the file if not, also where the place is before the start.
  pub vfs_seek_lem :
      (v : Vfs Disk) (fd node here base : ℕ) (offset whence : ℤ)
      → OpenAt node_at v fd node here
      → here ≤ (node_at v.disk node).length
      → (node_at v.disk node).length < 2 ^ 31
      → IsInt offset
      → Base here ((node_at v.disk node).length) whence base
      → ((vfs_seek node_at (pos fd) offset whence v).0
          ≡ pos (landing base offset ((node_at v.disk node).length)))
        × OpenAt node_at
            ((vfs_seek node_at (pos fd) offset whence v).1)
            fd
            node
            (landing base offset ((node_at v.disk node).length))
  unfolding vfs_seek
  vfs_seek_lem v fd node here base offset whence o le small int b =
      let t = seek_target-Bounded here _ base offset whence int le small b in
      let size = (node_at v.disk node).length in
      let place = landing base offset size in
      let inside : place ≤ size =
        landing-inside base offset size (Base-le here size base whence le b) in
      rw (o.opened, vfs_seek)
        (rw o.node_is (
          rw o.offset_is (
            rw (t.1) (
              rw (t.2) (
                to_int-small place (omega (arith, inside, small)),
                move_offset-OpenAt node_at v fd node here place v.disk o,
              )))))
