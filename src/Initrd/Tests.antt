-- ===== src/Initrd/Tests.antt =====
-- Runs of the RAM disk on an image of one file, and its theorems there.
use zenix.Prelude.{ℕ, ◌-◌, ◌≡◌, ◌≢◌, ap, refl, some, List, [], ◌∷◌, ◌++◌, arith, get_or, replicate}
use zenix.Prelude.Codes.{codes}
use zenix.Heap.{Heap}
use zenix.Strings.{Memory}
use zenix.Shell.Commands.{Print, text, shell_cat, shell_ls}
use zenix.Shell.Cat.{bytes_of}
use zenix.Initrd.{
  Initrd, Ram, word_at, bytes_at, header_offset, header_length, node_at, find_name, name_at,
  load_nodes,
}
use zenix.Initrd.Files.{IsFileOf, shell_cat-initrd}
use zenix.Initrd.Listing.{IsDisk, shell_ls-initrd}

-- One file "hi" of three bytes. Its header holds the address of the bytes, and not their place in the image.
abbrev image : List ℕ
image =
    1
    ∷ 0
    ∷ 0
    ∷ 0
    ∷ 0xBF
    ∷ 104
    ∷ 105
    ∷ (replicate 62 0 ++ 77 ∷ 0 ∷ 16 ∷ 0 ∷ 3 ∷ 0 ∷ 0 ∷ 0 ∷ 97 ∷ 98 ∷ 99 ∷ [])

abbrev memory : Memory
memory p = get_or image (p - 0x100000) 0

abbrev placed : Initrd
placed = record {
  initrd_root = 4000;
  initrd_dev = 4184;
  root_nodes = 4368;
  nroot_nodes = 1;
  nodes = [];
  file_headers = 0;
  dirent = record { name = []; inode = 0 };
}

abbrev disk : Ram
disk = record {
  memory = memory;
  initrd = record placed {
    nodes =
        record { name = 104 ∷ 105 ∷ []; flags = 1; inode = 0; length = 3; impl = 0x20004D } ∷ [];
    file_headers = 0x100004;
  };
}

loaded : load_nodes memory 0x100000 0 1 ≡ (disk.initrd).nodes
unfolding load_nodes name_at word_at replicate
loaded = refl

header :
    (header_offset memory (disk.initrd) 0 ≡ 0x10004D) × (header_length memory (disk.initrd) 0 ≡ 3)
unfolding header_offset header_length word_at replicate
header = (refl, refl)

disk-IsFileOf : IsFileOf disk 0
unfolding header_offset header_length word_at replicate
disk-IsFileOf = record {
  index = omega arith;
  inode = refl;
  apart_root = refl;
  apart_dev = refl;
  short = omega arith;
  inside = omega arith;
}

disk-IsDisk : IsDisk disk
disk-IsDisk = record {
  size = refl;
  files = (refl, refl, tt);
  root_dev = refl;
  apart_root = λ i. ground arith;
  apart_dev = λ i. ground arith;
}

shell_cat-initrd_example :
    (out : List Print) × (shell_cat node_at 4 (some 4000) (codes "hi") disk ≡ some (out, disk))
    × (bytes_of out ≡ codes "abc" ++ codes "\n")
unfolding find_name header_offset header_length word_at bytes_at replicate
shell_cat-initrd_example =
    shell_cat-initrd 4 0 104 (105 ∷ []) disk disk-IsFileOf not_dev
      (record {
        inside = omega arith;
        named = refl;
        none_before = λ j h. absurd (omega (arith, h));
      })
      (refl, (refl, (refl, tt))) (omega arith)
  where
    not_dev : codes "hi" ≢ codes "dev"
    not_dev e = absurd (omega (arith, ap (λ (l : List ℕ). get_or l 0 0) e))

shell_ls-initrd_example :
    (shell_ls node_at (some 4000) disk).0
    ≡ text (codes "Directory listing:\n")
      ∷ text (codes "  ")
      ∷ text (codes "dev")
      ∷ text (codes "/")
      ∷ text (codes "\n")
      ∷ text (codes "  ")
      ∷ text (codes "hi")
      ∷ text (codes "\n")
      ∷ []
shell_ls-initrd_example = shell_ls-initrd disk disk-IsDisk (omega arith)

abbrev empty_heap : Heap
empty_heap = record {
  block = λ p. record { size = 0; used = 0; next = 0 };
  heap_start = 0;
  heap_used = 0;
}
