-- ===== src/Initrd/Load.antt =====
-- What `initrd_init` reads out of the image.
use zenix.Prelude.{
  ℕ, zero, suc, ◌+◌, ◌*◌, ◌≤◌, ◌<◌, ◌≡◌, refl, ap, subst, ◌∙◌, inl, inr, true, List, ◌∷◌, arith,
  ◌==◌, ==_iff, Bool-cases, length, get_or, u32,
}
use zenix.Heap.{Heap}
use zenix.Strings.{Memory}
use zenix.Shell.Cat.{NoZero}
use zenix.Initrd.{FileNode, Initrd, header_size, word_at, no_node, name_at, load_nodes, load}

length-load_nodes :
    (left i : ℕ) (m : Memory) (location : ℕ) → length (load_nodes m location i left) ≡ left
unfolding load_nodes
length-load_nodes zero i m location = refl
length-load_nodes (suc left) i m location = ap suc (length-load_nodes left (i + 1) m location)

-- The node that the header `i` of the image describes
abbrev pub node_of : Memory → ℕ → ℕ → FileNode
node_of m location i = record {
  name = name_at m (location + 4 + i * header_size + 1) 63;
  flags = 1;
  inode = i;
  length = word_at m (location + 4 + i * header_size + 69);
  impl = u32 (location + word_at m (location + 4 + i * header_size + 65));
}

get_or-load_nodes :
    (left k i : ℕ) (m : Memory) (location : ℕ)
    → k < left
    → get_or (load_nodes m location i left) k no_node ≡ node_of m location (i + k)
unfolding load_nodes
get_or-load_nodes zero k i m location h = elim h [ ]
get_or-load_nodes (suc left) zero i m location h =
    ap (node_of m location) (let e : i ≡ i + 0 = omega arith in e)
get_or-load_nodes (suc left) (suc k) i m location h =
    get_or-load_nodes left k (i + 1) m location (omega arith)
    ∙ ap (node_of m location) (let e : i + 1 + k ≡ i + suc k = omega arith in e)

-- A name as `strncpy` and the 0 after it leave it
pub record IsFileName (m : Memory) (p : ℕ) (name : List ℕ) : Type 0 where
  pub short : length name < 64
  pub no_zero : NoZero name
  pub bytes : (i : ℕ) → i < length name → get_or name i 0 ≡ m (p + i)
  pub ends : length name < 63 → m (p + length name) ≡ 0

-- The same with any room
record Cut (m : Memory) (p room : ℕ) (name : List ℕ) : Type 0 where
  short : length name ≤ room
  no_zero : NoZero name
  bytes : (i : ℕ) → i < length name → get_or name i 0 ≡ m (p + i)
  ends : length name < room → m (p + length name) ≡ 0

bytes_later :
    (m : Memory) (p : ℕ) (xs : List ℕ)
    → ((i : ℕ) → i < length xs → get_or xs i 0 ≡ m (p + 1 + i))
    → (i : ℕ) → i < suc (length xs)
    → get_or (m p ∷ xs) i 0 ≡ m (p + i)
bytes_later m p xs h zero lt = ap m (omega arith)
bytes_later m p xs h (suc i) lt = h i (omega arith) ∙ ap m (omega arith)

name_at-Cut : (room p : ℕ) (m : Memory) → Cut m p room (name_at m p room)
unfolding name_at
name_at-Cut zero p m = record {
  short = omega arith;
  no_zero = tt;
  bytes = λ i lt. elim lt [ ];
  ends = λ lt. elim lt [ ];
}
name_at-Cut (suc room) p m = elim (Bool-cases (m p == 0)) [
  | inl e ↦
      rw (e, name_at)
        (record {
          short = omega arith;
          no_zero = tt;
          bytes = λ i lt. elim lt [ ];
          ends = λ lt. ap m (omega arith) ∙ (==_iff _ _).0 e;
        })
  | inr e ↦
      let rest = name_at-Cut room (p + 1) m in
      rw (e, name_at)
        (record {
          short = omega (arith, rest.short);
          no_zero = (e, rest.no_zero);
          bytes = bytes_later m p _ rest.bytes;
          ends = λ lt. ap m (omega arith) ∙ rest.ends (omega arith);
        })
]

-- For an image of `n` files, `initrd_init` fills the array with `n` nodes, and node `i` of it is the file that
-- header `i` describes, 73 bytes to a header: its inode is `i`, its flags say a file, its length is the
-- word that the header has for it, and its name is the bytes of the header's name before a 0, at most
-- 63 of them.
pub load_lem :
    (m : Memory) (location : ℕ) (s : Initrd) (h : Heap) (i : ℕ)
    → i < s.nroot_nodes
    → (length (((load m location (true, s, h)).initrd).nodes) ≡ s.nroot_nodes)
      × (get_or (((load m location (true, s, h)).initrd).nodes) i no_node ≡ node_of m location i)
      × IsFileName m (location + 5 + i * header_size) ((node_of m location i).name)
unfolding load
load_lem m location s h i lt =
    let cut = name_at-Cut 63 (location + 4 + i * header_size + 1) m in
    (
      length-load_nodes s.nroot_nodes 0 m location,
      get_or-load_nodes s.nroot_nodes i 0 m location lt ∙ ap (node_of m location) (omega arith),
      subst (λ p. IsFileName m p (name_at m (location + 4 + i * header_size + 1) 63)) (omega arith)
          (record {
            short = omega (arith, cut.short);
            no_zero = cut.no_zero;
            bytes = cut.bytes;
            ends = cut.ends;
          }),
    )
