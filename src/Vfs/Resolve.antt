-- ===== src/Vfs/Resolve.antt =====
-- `vfs_resolve_path` against a walk from the root, name by name.
use zenix.Prelude.{
  ℕ, zero, suc, ◌+◌, ◌≤◌, ◌<◌, ◌≡◌, refl, ap, subst, ◌∙◌, inl, inr, false, Option, none, some, List,
  [], ◌∷◌, ◌++◌, arith, leb, ◌==◌, Bool-cases, length, take, drop, length-append,
}
use zenix.Prelude.Codes.{same_text}
use zenix.Vfs.{FsNode, slash, take_component, skip_slash, last_slash_loop, dir_path}
use zenix.Vfs.Path.{
  find_in, onward, resolve_loop, vfs_resolve_path, create_in, mkdir_in, unlink_in, vfs_create,
  vfs_mkdir, vfs_unlink,
}

abbrev pub NoSlash : List ℕ → Type 0
NoSlash [] = Unit {0}
NoSlash (c ∷ cs) = ((c == slash) ≡ false) × NoSlash cs

-- A name that one component of a path can hold
abbrev pub IsName : List ℕ → Type 0
IsName name = (0 < length name) × (length name < 128) × NoSlash name

abbrev pub AllNames : List (List ℕ) → Type 0
AllNames [] = Unit {0}
AllNames (n ∷ ns) = IsName n × AllNames ns

-- "/usr/bin" for "usr" and "bin"
abbrev pub absolute : List (List ℕ) → List ℕ
absolute [] = []
absolute (n ∷ ns) = slash ∷ (n ++ absolute ns)

-- What follows a name in such a path
abbrev Rest : List ℕ → Type 0
Rest [] = Unit {0}
Rest (c ∷ cs) = c ≡ slash

absolute-Rest : (ns : List (List ℕ)) → Rest (absolute ns)
absolute-Rest [] = tt
absolute-Rest (n ∷ ns) = refl

take_component-name :
    (name : List ℕ) (room : ℕ) (rest : List ℕ)
    → NoSlash name
    → length name ≤ room
    → Rest rest
    → take_component room (name ++ rest) ≡ (name, rest)
unfolding take_component
take_component-name [] zero rest ok short r = refl
take_component-name (x ∷ xs) zero rest ok short r = absurd (omega (arith, short))
take_component-name [] (suc room) [] ok short r = refl
take_component-name [] (suc room) (c ∷ cs) ok short r = rw r refl
take_component-name (x ∷ xs) (suc room) rest ok short r =
    rw (ok.0) (rw (take_component-name xs room rest (ok.1) (omega arith) r) refl)

skip_slash-absolute :
    (n : List ℕ) (ns : List (List ℕ)) → skip_slash (absolute (n ∷ ns)) ≡ n ++ absolute ns
unfolding skip_slash
skip_slash-absolute n ns = refl

module _ {Disk : Type 0} (node_at : Disk → ℕ → FsNode Disk) where
  -- The names looked up one after the other, each in the directory that the last one led to.
  pub walk : List (List ℕ) → ℕ → Disk → Option ℕ × Disk
  walk [] current d = (some current, d)
  walk (n ∷ ns) current d = onward (find_in node_at current n d) (λ next d'. walk ns next d')

  onward_cong :
      (r : Option ℕ × Disk) (k l : ℕ → Disk → Option ℕ × Disk)
      → ((n : ℕ) (d : Disk) → k n d ≡ l n d)
      → onward r k ≡ onward r l
  onward_cong (none, d) k l e = refl
  onward_cong (some n, d) k l e = e n d

  -- One round of the loop, on a path that begins with a name.
  resolve_loop-name :
      (n : List ℕ) (rest : List ℕ) (fuel current : ℕ) (d : Disk)
      → IsName n
      → Rest rest
      → resolve_loop node_at (suc fuel) (n ++ rest) current d
        ≡ onward
            (find_in node_at current n d)
            (λ next d'. resolve_loop node_at fuel (skip_slash rest) next d')
  unfolding resolve_loop
  resolve_loop-name [] rest fuel current d ok r = absurd (omega (arith, ok.0))
  resolve_loop-name (x ∷ xs) rest fuel current d ok r =
      ap
        (λ s.
          onward (find_in node_at current (s.0) d)
            (λ next d'. resolve_loop node_at fuel (skip_slash (s.1)) next d'))
        (take_component-name (x ∷ xs) 127 rest (ok.2) (omega (arith, ok.1)) r)

  resolve_loop-end :
      (fuel current : ℕ) (d : Disk)
      → 0 < fuel
      → resolve_loop node_at fuel [] current d ≡ (some current, d)
  unfolding resolve_loop
  resolve_loop-end zero current d h = elim h [ ]
  resolve_loop-end (suc fuel) current d h = refl

  resolve_loop-names :
      (ns : List (List ℕ)) (n : List ℕ) (fuel current : ℕ) (d : Disk)
      → IsName n
      → AllNames ns
      → length (n ++ absolute ns) < fuel
      → resolve_loop node_at fuel (n ++ absolute ns) current d ≡ walk (n ∷ ns) current d
  unfolding walk skip_slash
  resolve_loop-names ns n zero current d ok all enough = elim enough [ ]
  resolve_loop-names [] n (suc fuel) current d ok all enough =
      let here : 0 < fuel = omega (arith, ok.0, enough, length-append n []) in
      resolve_loop-name n [] fuel current d ok tt
      ∙ onward_cong (find_in node_at current n d) _ _
          (λ next d'. resolve_loop-end fuel next d' here)
  resolve_loop-names (m ∷ ns) n (suc fuel) current d ok all enough =
      let here : length (m ++ absolute ns) < fuel =
        omega (arith, ok.0, enough, length-append n (absolute (m ∷ ns))) in
      resolve_loop-name n (absolute (m ∷ ns)) fuel current d ok refl
      ∙ onward_cong (find_in node_at current n d) _ _
          (λ next d'. resolve_loop-names ns m fuel next d' (all.0) (all.1) here)

  not_root :
      (n : List ℕ) (ns : List (List ℕ))
      → IsName n
      → same_text (absolute (n ∷ ns)) (slash ∷ []) ≡ false
  not_root [] ns ok = absurd (omega (arith, ok.0))
  not_root (x ∷ xs) ns ok = refl

  -- The path "/n1/n2/..." of names of 1 to 127 bytes leads to the node that looking up the names one after
  -- the other from the root leads to, and to no node if one of them is not found.
  pub vfs_resolve_path-walk :
      (ns : List (List ℕ)) (root : ℕ) (d : Disk)
      → AllNames ns
      → vfs_resolve_path node_at (absolute ns) (some root) d ≡ walk ns root d
  unfolding vfs_resolve_path skip_slash walk
  vfs_resolve_path-walk [] root d all = resolve_loop-end 1 root d (omega arith)
  vfs_resolve_path-walk (n ∷ ns) root d all =
      rw (not_root n ns (all.0)) (resolve_loop-names ns n _ root d (all.0) (all.1) (omega arith))

  take_component-shorter :
      (room : ℕ) (path : List ℕ) → length ((take_component room path).1) ≤ length path
  unfolding take_component
  take_component-shorter zero path = omega arith
  take_component-shorter (suc room) [] = omega arith
  take_component-shorter (suc room) (c ∷ cs) = ground (arith, take_component-shorter room cs)

  skip_slash-shorter : (path : List ℕ) → length (skip_slash path) ≤ length path
  unfolding skip_slash
  skip_slash-shorter [] = omega arith
  skip_slash-shorter (c ∷ cs) = ground arith

  -- One round shortens the path: it takes a byte or skips the slash.
  round_shorter :
      (room c : ℕ) (cs : List ℕ)
      → length (skip_slash ((take_component (suc room) (c ∷ cs)).1)) < suc (length cs)
  unfolding take_component skip_slash
  round_shorter room c cs = elim (Bool-cases (c == slash)) [
    | inl e ↦ rw e (rw e (omega arith))
    | inr e ↦ rw e (
        omega
          (arith, skip_slash-shorter ((take_component room cs).1), take_component-shorter room cs))
  ]

  -- The rounds that `vfs_resolve_path` is given are enough: more give the same.
  pub resolve_loop-fuel :
      (f g : ℕ) (path : List ℕ) (current : ℕ) (d : Disk)
      → length path < f
      → length path < g
      → resolve_loop node_at f path current d ≡ resolve_loop node_at g path current d
  unfolding resolve_loop
  resolve_loop-fuel zero g path current d hf hg = elim hf [ ]
  resolve_loop-fuel (suc f) zero path current d hf hg = elim hg [ ]
  resolve_loop-fuel (suc f) (suc g) [] current d hf hg = refl
  resolve_loop-fuel (suc f) (suc g) (c ∷ cs) current d hf hg =
      let short : length (skip_slash ((take_component 127 (c ∷ cs)).1)) < suc (length cs) =
        round_shorter 126 c cs in
      onward_cong (find_in node_at current ((take_component 127 (c ∷ cs)).0) d) _ _ (λ next d'.
        resolve_loop-fuel f g (skip_slash ((take_component 127 (c ∷ cs)).1)) next d'
          (omega (arith, short, hf)) (omega (arith, short, hg)))

take_all : (dir rest : List ℕ) → take (length dir) (dir ++ rest) ≡ dir
take_all [] rest = refl
take_all (x ∷ xs) rest = ap (λ q. x ∷ q) (take_all xs rest)

drop_all : (dir name : List ℕ) (c : ℕ) → drop (length dir + 1) (dir ++ c ∷ name) ≡ name
drop_all [] name c = refl
drop_all (x ∷ xs) name c =
    subst (λ k. drop k (x ∷ (xs ++ c ∷ name)) ≡ name)
      (let e : suc (length xs + 1) ≡ suc (length xs) + 1 = omega arith in e) (drop_all xs name c)

last_slash_loop-none :
    (name : List ℕ) (p : ℕ) (last : Option ℕ) → NoSlash name → last_slash_loop name p last ≡ last
unfolding last_slash_loop
last_slash_loop-none [] p last ok = refl
last_slash_loop-none (x ∷ xs) p last ok = rw (ok.0) (last_slash_loop-none xs (p + 1) last (ok.1))

last_slash_loop-found :
    (dir name : List ℕ) (p : ℕ) (last : Option ℕ)
    → NoSlash name
    → last_slash_loop (dir ++ slash ∷ name) p last ≡ some (p + length dir)
unfolding last_slash_loop
last_slash_loop-found [] name p last ok =
    last_slash_loop-none name (p + 1) (some p) ok ∙ ap some (omega arith)
last_slash_loop-found (x ∷ xs) name p last ok =
    last_slash_loop-found xs name (p + 1) _ ok ∙ ap some (omega arith)

dir_path-take : (dir rest : List ℕ) → length dir < 256 → dir_path (dir ++ rest) (length dir) ≡ dir
unfolding dir_path
dir_path-take dir rest h =
    let e : leb 256 (length dir) ≡ false = ground (arith, h) in rw e (take_all dir rest)

module _ {Disk : Type 0} (node_at : Disk → ℕ → FsNode Disk) where
  abbrev At : List (List ℕ) → ℕ → Disk → Option ℕ × Disk
  At ns root d = walk node_at ns root d

  -- `vfs_create`, `vfs_mkdir` and `vfs_unlink` on "/n1/.../name", with a directory part of at most 255
  -- bytes and no slash in the name, call the function of the directory that the walk over n1, ... leads
  -- to, on the name; they return -1 if there is no such directory or it has no such function.
  pub parent_lem :
      (ns : List (List ℕ)) (name : List ℕ) (flags root : ℕ) (d : Disk)
      → AllNames ns
      → NoSlash name
      → length (absolute ns) < 256
      → (vfs_create node_at (absolute ns ++ slash ∷ name) flags (some root) d
          ≡ create_in node_at ((walk node_at ns root d).0) name flags ((walk node_at ns root d).1))
        × (vfs_mkdir node_at (absolute ns ++ slash ∷ name) flags (some root) d
            ≡ mkdir_in node_at ((walk node_at ns root d).0) name flags ((walk node_at ns root d).1))
        × (vfs_unlink node_at (absolute ns ++ slash ∷ name) (some root) d
            ≡ unlink_in node_at ((walk node_at ns root d).0) name ((walk node_at ns root d).1))
  unfolding vfs_create vfs_mkdir vfs_unlink
  parent_lem ns name flags root d all ok short =
      let found : last_slash_loop (absolute ns ++ slash ∷ name) 0 none
          ≡ some (length (absolute ns)) =
        last_slash_loop-found (absolute ns) name 0 none ok ∙ ap some (omega arith) in
      let dir = dir_path-take (absolute ns) (slash ∷ name) short in
      let file = drop_all (absolute ns) name slash in
      let at = vfs_resolve_path-walk node_at ns root d all in
      (
        rw (found, vfs_create) (rw dir (rw file (rw at refl))),
        rw (found, vfs_mkdir) (rw dir (rw file (rw at refl))),
        rw (found, vfs_unlink) (rw dir (rw file (rw at refl))),
      )
