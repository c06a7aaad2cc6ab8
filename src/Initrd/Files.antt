-- ===== src/Initrd/Files.antt =====
-- What reading a file of the RAM disk gives, and what `cat` prints of it.
use zenix.Prelude.{
  sym, subst, ◌≢◌, inl, inr, [], Bool-cases, ℕ, zero, suc, ◌+◌, ◌-◌, ◌*◌, ◌/◌, ◌^◌, ◌≤◌, ◌<◌, min,
  ◌≡◌, refl, ap, ◌∙◌, true, false, ◌||◌, some, List, ◌∷◌, ◌++◌, arith, ltb, leb, ◌==◌,
  if◌then◌else◌, ==_refl, length, get_or, take, drop, u32,
}
use zenix.Prelude.Codes.{codes, same_text, same_text_refl, same_text-eq}
use zenix.Strings.{Memory}
use zenix.Nodes.{fs_read, fs_finddir}
use zenix.Shell.Commands.{Print, shell_cat}
use zenix.Shell.Cat.{Gives, NoZero, bytes_of, cat_file-whole}
use zenix.Initrd.{
  FileNode, Initrd, Ram, node_size, bytes_at, no_node, file_at, header_offset, header_length,
  initrd_read, find_name, initrd_finddir, node_at,
}

length-bytes_at : (n p : ℕ) (m : Memory) → length (bytes_at m p n) ≡ n
unfolding bytes_at
length-bytes_at zero p m = refl
length-bytes_at (suc n) p m = ap suc (length-bytes_at n (p + 1) m)

drop-bytes_at : (k n p : ℕ) (m : Memory) → drop k (bytes_at m p n) ≡ bytes_at m (p + k) (n - k)
unfolding bytes_at
drop-bytes_at zero n p m =
    let e : p + 0 ≡ p = omega arith in let f : n - 0 ≡ n = omega arith in rw e (rw f refl)
drop-bytes_at (suc k) zero p m = let e : 0 - suc k ≡ 0 = omega arith in rw e refl
drop-bytes_at (suc k) (suc n) p m =
    let e : p + suc k ≡ p + 1 + k = omega arith in
    let f : suc n - suc k ≡ n - k = omega arith in rw e (rw f (drop-bytes_at k n (p + 1) m))

take-bytes_at : (k n p : ℕ) (m : Memory) → take k (bytes_at m p n) ≡ bytes_at m p (min k n)
unfolding bytes_at
take-bytes_at zero n p m = let e : min 0 n ≡ 0 = omega arith in rw e refl
take-bytes_at (suc k) zero p m = let e : min (suc k) 0 ≡ 0 = omega arith in rw e refl
take-bytes_at (suc k) (suc n) p m =
    let e : min (suc k) (suc n) ≡ suc (min k n) = omega arith in
    rw e (ap (◌∷◌ (m p)) (take-bytes_at k n (p + 1) m))

-- The bytes that the header of file `i` points to
abbrev pub content_of : Ram → ℕ → List ℕ
content_of d i =
    bytes_at d.memory (header_offset d.memory d.initrd i) (header_length d.memory d.initrd i)

-- The disk after a successful start, with file `i` in memory below 4 GB
pub record IsFileOf (d : Ram) (i : ℕ) : Type 0 where
  pub index : i < (d.initrd).nroot_nodes
  pub inode : (get_or ((d.initrd).nodes) i no_node).inode ≡ i
  pub apart_root : ((d.initrd).root_nodes + node_size * i == (d.initrd).initrd_root) ≡ false
  pub apart_dev : ((d.initrd).root_nodes + node_size * i == (d.initrd).initrd_dev) ≡ false
  pub short : header_length d.memory d.initrd i < 2 ^ 31
  pub inside : header_offset d.memory d.initrd i + header_length d.memory d.initrd i < 2 ^ 32

abbrev pub address_of : Ram → ℕ → ℕ
address_of d i = (d.initrd).root_nodes + node_size * i

pub file_at-array :
    (s : Initrd) (i : ℕ) → file_at s (s.root_nodes + node_size * i) ≡ get_or s.nodes i no_node
unfolding file_at
file_at-array s i =
    let place : (s.root_nodes + 172 * i - s.root_nodes) / 172 ≡ i = omega arith in rw place refl

file_at-inode : (d : Ram) (i : ℕ) → IsFileOf d i → (file_at d.initrd (address_of d i)).inode ≡ i
file_at-inode d i f = rw (file_at-array d.initrd i) f.inode

initrd_read-at :
    (d : Ram) (i offset : ℕ)
    → IsFileOf d i
    → offset ≤ header_length d.memory d.initrd i
    → initrd_read d (address_of d i) offset 256 ≡ (
      (
        min 256 (header_length d.memory d.initrd i - offset),
        bytes_at d.memory
            (header_offset d.memory d.initrd i + offset)
            (min 256 (header_length d.memory d.initrd i - offset)),
      ),
      d,
    )
unfolding initrd_read
initrd_read-at d i offset f h =
    let s = d.initrd in
    let len = header_length d.memory s i in
    let start = header_offset d.memory s i in
    let known : (leb s.nroot_nodes i || ltb len offset) ≡ false = ground (arith, f.index, h) in
    let count : (if ltb len (u32 (offset + 256)) then len - offset else 256)
        ≡ min 256 (len - offset) =
      ground (arith, f.short, h) in
    let place : u32 (start + offset) ≡ start + offset = omega (arith, f.inside, h) in
    rw (file_at-inode d i f, initrd_read) (rw known (rw count (rw place refl)))

node_at-read :
    (d : Ram) (i offset size : ℕ)
    → IsFileOf d i
    → fs_read node_at (address_of d i) offset size d ≡ initrd_read d (address_of d i) offset size
unfolding node_at fs_read
node_at-read d i offset size f = rw (f.apart_root, fs_read) (rw f.apart_dev refl)

-- Reading file `i` gives the bytes its header points to.
pub file-Gives :
    (d : Ram) (i : ℕ) → IsFileOf d i → Gives node_at d (address_of d i) (content_of d i)
file-Gives d i f offset h =
    let s = d.initrd in
    let len = header_length d.memory s i in
    let start = header_offset d.memory s i in
    let inside : offset ≤ len = omega (arith, h, length-bytes_at len start d.memory) in
    node_at-read d i offset 256 f
    ∙ initrd_read-at d i offset f inside
    ∙ rw (length-bytes_at len start d.memory) (
        rw (drop-bytes_at offset len start d.memory)
          (rw (take-bytes_at 256 (len - offset) (start + offset) d.memory) refl))

pub root-finddir :
    (d : Ram) (name : List ℕ) (i : ℕ)
    → same_text name (codes "dev") ≡ false
    → find_name ((d.initrd).nodes) 0 name ≡ some i
    → fs_finddir node_at ((d.initrd).initrd_root) name d ≡ (some (address_of d i), d)
unfolding fs_finddir node_at initrd_finddir
root-finddir d name i other e =
    let here : ((d.initrd).initrd_root == (d.initrd).initrd_root) ≡ true = ==_refl _ in
    rw (here, fs_finddir) (rw here (rw other (rw e refl)))

-- File `i` has the name, and no file before it has.
pub record FirstNamed (files : List FileNode) (name : List ℕ) (i : ℕ) : Type 0 where
  pub inside : i < length files
  pub named : (get_or files i no_node).name ≡ name
  pub none_before : (j : ℕ) → j < i → (get_or files j no_node).name ≢ name

FirstNamed-later :
    (f : FileNode) (fs : List FileNode) (name : List ℕ) (i : ℕ)
    → FirstNamed (f ∷ fs) name (suc i)
    → FirstNamed fs name i
FirstNamed-later f fs name i r = record {
  inside = omega (arith, r.inside);
  named = r.named;
  none_before = λ j h. r.none_before (suc j) (omega (arith, h));
}

find_name-first :
    (files : List FileNode) (from i : ℕ) (name : List ℕ)
    → FirstNamed files name i
    → find_name files from name ≡ some (from + i)
unfolding find_name
find_name-first [] from i name r = absurd (omega (arith, r.inside))
find_name-first (f ∷ fs) from zero name r =
    let here : same_text name f.name ≡ true =
      subst (λ n. same_text name n ≡ true) (sym r.named) (same_text_refl name) in
    rw (here, find_name) (ap some (omega arith))
find_name-first (f ∷ fs) from (suc i) name r =
    let later = find_name-first fs (from + 1) i name (FirstNamed-later f fs name i r) in
    elim (Bool-cases (same_text name f.name)) [
      | inl e ↦ absurd (r.none_before 0 (omega arith) (sym (same_text-eq name f.name e)))
      | inr e ↦ rw (e, find_name) (later ∙ ap some (omega arith))
    ]

-- `cat` on the RAM disk ends and changes nothing: with a name that is not "dev", and the first file `i` that has
-- it, so that no file before it has the same name, it prints the bytes that the header of that file points to, as many as the header says, and a new
-- line, if none of them is 0. They are the bytes at the address in the header itself, and not that far
-- from the start of the image.
pub shell_cat-initrd :
    (fuel i c : ℕ) (name : List ℕ) (d : Ram)
    → IsFileOf d i
    → (c ∷ name) ≢ codes "dev"
    → FirstNamed ((d.initrd).nodes) (c ∷ name) i
    → NoZero (content_of d i)
    → header_length d.memory d.initrd i < fuel
    → (out : List Print) × (shell_cat node_at fuel (some ((d.initrd).initrd_root)) (c ∷ name) d
        ≡ some (out, d))
      × (bytes_of out ≡ content_of d i ++ codes "\n")
unfolding shell_cat
shell_cat-initrd fuel i c name d f other e z enough =
    let not_dev : same_text (c ∷ name) (codes "dev") ≡ false =
      elim (Bool-cases (same_text (c ∷ name) (codes "dev"))) [
        | inl q ↦ absurd (other (same_text-eq (c ∷ name) (codes "dev") q))
        | inr q ↦ q
      ] in
    let found = find_name-first ((d.initrd).nodes) 0 i (c ∷ name) e in
    let len =
      length-bytes_at (header_length d.memory d.initrd i) (header_offset d.memory d.initrd i)
        d.memory in
    let r =
      cat_file-whole node_at fuel (address_of d i) d (content_of d i) (file-Gives d i f) z
        (omega (arith, len, f.short)) (omega (arith, len, enough)) in
    (
      r.0,
      rw (root-finddir d (c ∷ name) i not_dev (found ∙ ap some (omega arith)), shell_cat) (r.1),
      r.2,
    )
