-- ===== src/Strings/Text.antt =====
-- The routines of string.c that run to a terminating 0, against the texts that the memory holds.
use zenix.Prelude.{
  ℕ, zero, suc, ◌+◌, ◌-◌, ◌≤◌, ◌<◌, ◌≡◌, refl, ap, subst, ◌∙◌, ◌≢◌, ◌↔◌, ◌⊎◌, inl, inr, false, some,
  List, [], ◌∷◌, arith, ltb, ◌==◌, if◌then◌else◌, ==_iff, Bool-cases, length, get_or,
}
use zenix.Prelude.Int.{ℤ, pos, sub_ℕ, sub_ℕ-zero}
use zenix.Strings.{
  Memory, poke, strlen_loop, strlen, strcmp, copy_string, strcpy, pad, strncpy_loop, strncpy,
}
use zenix.Strings.Moves.{within}

-- From `p` the memory holds the bytes `xs`, none of them 0, and then a 0.
abbrev pub CStr : Memory → ℕ → List ℕ → Type 0
CStr m p [] = m p ≡ 0
CStr m p (x ∷ xs) = (m p ≡ x) × (x ≢ 0) × CStr m (p + 1) xs

strlen_loop_lem :
    (fuel : ℕ) (m : Memory) (str len : ℕ) (xs : List ℕ)
    → CStr m (str + len) xs
    → length xs < fuel
    → strlen_loop fuel m str len ≡ some (len + length xs)
unfolding strlen_loop
strlen_loop_lem zero m str len xs c h = elim h [ ]
strlen_loop_lem (suc fuel) m str len [] c h = ground (arith, c)
strlen_loop_lem (suc fuel) m str len (x ∷ xs) c h =
    let e : str + len + 1 ≡ str + (len + 1) = omega arith in
    ground (
      arith,
      c.0,
      c.1,
      strlen_loop_lem fuel m str (len + 1) xs (subst (λ p. CStr m p xs) e c.2) (omega arith),
    )

-- `strlen` ends on a text and returns its length.
pub strlen_lem :
    (fuel : ℕ) (m : Memory) (str : ℕ) (xs : List ℕ)
    → CStr m str xs
    → length xs < fuel
    → strlen fuel m str ≡ some (length xs)
unfolding strlen
strlen_lem fuel m str xs c h =
    let e : str ≡ str + 0 = omega arith in
    strlen_loop_lem fuel m str 0 xs (subst (λ p. CStr m p xs) e c) h ∙ ap some (omega arith)

-- `strcmp` ends on two texts, and returns 0 exactly if they are the same.
pub strcmp_lem :
    (fuel : ℕ) (m : Memory) (s1 s2 : ℕ) (xs ys : List ℕ)
    → CStr m s1 xs
    → CStr m s2 ys
    → length xs < fuel
    → (r : ℤ) × (strcmp fuel m s1 s2 ≡ some r) × ((r ≡ pos 0) ↔ (xs ≡ ys))
unfolding strcmp
strcmp_lem zero m s1 s2 xs ys c d h = elim h [ ]
strcmp_lem (suc fuel) m s1 s2 [] [] c d h =
    (pos 0, ground (arith, c, d), ((λ e. refl), (λ e. refl)))
strcmp_lem (suc fuel) m s1 s2 [] (y ∷ ys) c d h = (
  sub_ℕ (m s1) (m s2),
  ground (arith, c, d.0),
  ((λ e. absurd (ground (arith, (sub_ℕ-zero (m s1) (m s2)).0 e, c, d.0, d.1))), (λ e. cc)),
)
strcmp_lem (suc fuel) m s1 s2 (x ∷ xs) [] c d h = (
  sub_ℕ (m s1) (m s2),
  ground (arith, c.0, c.1, d),
  ((λ e. absurd (ground (arith, (sub_ℕ-zero (m s1) (m s2)).0 e, c.0, c.1, d))), (λ e. cc)),
)
strcmp_lem (suc fuel) m s1 s2 (x ∷ xs) (y ∷ ys) c d h = elim (Bool-cases (x == y)) [
  | inl same ↦
      let (r, e, iff) = strcmp_lem fuel m (s1 + 1) (s2 + 1) xs ys c.2 d.2 (omega arith) in
      let eq : x ≡ y = (==_iff _ _).0 same in
      (
        r,
        ground (arith, c.0, c.1, d.0, e, eq),
        ((λ z. let t : xs ≡ ys = iff.0 z in cc), (λ z. iff.1 (cc))),
      )
  | inr differ ↦ (
    sub_ℕ (m s1) (m s2),
    ground (arith, c.0, c.1, d.0, differ),
    (
      (λ e. absurd (ground (arith, (sub_ℕ-zero (m s1) (m s2)).0 e, c.0, d.0, differ))),
      (λ z. let t : x ≡ y = cc in absurd (ground (arith, differ))),
    ),
  )
]

-- Memory that is the same over a text holds the same text.
pub CStr-frame :
    (m m' : Memory) (p : ℕ) (xs : List ℕ)
    → ((q : ℕ) → p ≤ q → q ≤ p + length xs → m' q ≡ m q)
    → CStr m p xs
    → CStr m' p xs
CStr-frame m m' p [] same c = same p (omega arith) (omega arith) ∙ c
CStr-frame m m' p (x ∷ xs) same c = (
  same p (omega arith) (omega arith) ∙ c.0,
  c.1,
  CStr-frame m m' (p + 1) xs (λ q lo hi. same q (omega arith) (omega arith)) c.2,
)

-- `strcpy` of a text to a place that ends before the text or begins behind it ends, and leaves the
-- text there and every byte outside unchanged.
pub strcpy_lem :
    (fuel : ℕ) (m : Memory) (dest src : ℕ) (xs : List ℕ)
    → CStr m src xs
    → length xs < fuel
    → (dest + length xs < src) ⊎ (src + length xs < dest)
    → (m' : Memory) × (strcpy fuel m dest src ≡ some m')
      × CStr m' dest xs
      × ((q : ℕ) → within dest (length xs + 1) q ≡ false → m' q ≡ m q)
unfolding strcpy copy_string
strcpy_lem zero m dest src xs c h apart = elim h [ ]
strcpy_lem (suc fuel) m dest src [] c h apart =
    (poke m dest (m src), ground (arith, c), ground (arith, c), λ q out. ground arith)
strcpy_lem (suc fuel) m dest src (x ∷ xs) c h apart =
    let m1 = poke m dest (m src) in
    let (m', e, t, same) =
      strcpy_lem fuel m1 (dest + 1) (src + 1) xs
        (CStr-frame m m1 (src + 1) xs (λ q lo hi. ground arith) c.2) (omega arith) (ground arith) in
    (
      m',
      ground (arith, c.0, c.1, e),
      (same dest (ground arith) ∙ ground (arith, c.0), c.1, t),
      λ q out. same q (ground arith) ∙ ground arith,
    )

pad_lem :
    (k : ℕ) (m : Memory) (dest i q : ℕ)
    → pad k m dest i q ≡ (if within (dest + i) k q then 0 else m q)
unfolding pad
pad_lem zero m dest i q = ground arith
pad_lem (suc k) m dest i q = ground (arith, pad_lem k (poke m (dest + i) 0) dest (i + 1) q)

strncpy_loop_lem :
    (k : ℕ) (m : Memory) (dest src i q : ℕ) (xs : List ℕ)
    → CStr m (src + i) xs
    → (dest + i + k ≤ src + i) ⊎ (src + i + length xs < dest + i)
    → strncpy_loop k m dest src i q
      ≡ (if within (dest + i) k q then get_or xs (q - (dest + i)) 0 else m q)
unfolding strncpy_loop
strncpy_loop_lem zero m dest src i q xs c apart = ground arith
strncpy_loop_lem (suc k) m dest src i q [] c apart = ground (arith, pad_lem (suc k) m dest i q, c)
strncpy_loop_lem (suc k) m dest src i q (x ∷ xs) c apart =
    let m1 = poke m (dest + i) (m (src + i)) in
    let e : src + i + 1 ≡ src + (i + 1) = omega arith in
    let rest =
      strncpy_loop_lem k m1 dest src (i + 1) q xs
        (CStr-frame m m1 (src + (i + 1)) xs (λ p lo hi. ground arith)
          (subst (λ p. CStr m p xs) e c.2))
        (ground arith) in
    elim (Bool-cases (dest + i == q)) [
      | inl here ↦
          let z : q - (dest + i) ≡ 0 = ground arith in
          let head : get_or (x ∷ xs) (q - (dest + i)) 0 ≡ x = rw z in
          ground (arith, rest, head, c.0, c.1)
      | inr other ↦ elim (Bool-cases (ltb (dest + i) q)) [
        | inl after ↦
            let z : q - (dest + i) ≡ suc (q - (dest + (i + 1))) = ground arith in
            let tail : get_or (x ∷ xs) (q - (dest + i)) 0 ≡ get_or xs (q - (dest + (i + 1))) 0 =
              rw z in
            ground (arith, rest, tail, c.0, c.1)
        | inr before ↦ ground (arith, rest, c.0, c.1)
      ]
    ]

-- `strncpy` of a text to a place apart from it leaves there the first `n` bytes of the text, padded with
-- 0 (and no terminating 0 if the text is not shorter than that), and changes no other byte.
pub strncpy_lem :
    (m : Memory) (dest src n q : ℕ) (xs : List ℕ)
    → CStr m src xs
    → (dest + n ≤ src) ⊎ (src + length xs < dest)
    → strncpy m dest src n q ≡ (if within dest n q then get_or xs (q - dest) 0 else m q)
unfolding strncpy
strncpy_lem m dest src n q xs c apart =
    let e : src ≡ src + 0 = omega arith in
    let e' : dest + 0 ≡ dest = omega arith in
    strncpy_loop_lem n m dest src 0 q xs (subst (λ p. CStr m p xs) e c) (ground arith) ∙ rw e'
