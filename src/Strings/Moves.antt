-- ===== src/Strings/Moves.antt =====
-- The routines of string.c that move bytes: what they leave at every address.
use zenix.Prelude.{
  ℕ, zero, suc, ◌+◌, ◌-◌, ◌%◌, ◌≤◌, ◌<◌, ◌≡◌, refl, sym, subst, ◌∙◌, ◌↔◌, ◌⊎◌, inl, inr, Bool, true,
  false, ◌&&◌, arith, ltb, leb, ◌==◌, if◌then◌else◌, ==_iff, Bool-cases, u8,
}
use zenix.Prelude.Int.{pos, sub_ℕ-zero}
use zenix.Strings.{
  Memory, poke, copy_up, copy_down, memcpy, memmove, memset_loop, memset, memcmp_loop, memcmp,
}

-- `q` lies in the `n` bytes from `p`.
abbrev pub within : ℕ → ℕ → ℕ → Bool
within p n q = leb p q && ltb q (p + n)

pub copy_up_lem :
    (k : ℕ) (m : Memory) (d s i q : ℕ)
    → (d ≤ s) ⊎ (s + i + k ≤ d + i)
    → copy_up k m d s i q ≡ (if within (d + i) k q then m (s + (q - d)) else m q)
unfolding copy_up
copy_up_lem zero m d s i q h = ground arith
copy_up_lem (suc k) m d s i q h = elim (Bool-cases (d + i == q)) [
  | inl here ↦
      let e : q ≡ d + i = sym ((==_iff _ _).0 here) in
      let e' : s + (q - d) ≡ s + i = omega arith in
      ground (arith, copy_up_lem k (poke m (d + i) (m (s + i))) d s (i + 1) q (ground arith), e')
  | inr other ↦
      let h' : (d ≤ s) ⊎ (s + (i + 1) + k ≤ d + (i + 1)) = ground arith in
      let src : within (d + (i + 1)) k q ≡ true → (d + i == s + (q - d)) ≡ false =
        λ w. ground arith in
      ground (arith, copy_up_lem k (poke m (d + i) (m (s + i))) d s (i + 1) q h', src)
]

copy_down_lem :
    (k : ℕ) (m : Memory) (d s q : ℕ)
    → s ≤ d
    → copy_down k m d s q ≡ (if within d k q then m (s + (q - d)) else m q)
unfolding copy_down
copy_down_lem zero m d s q h = ground arith
copy_down_lem (suc k) m d s q h = elim (Bool-cases (d + k == q)) [
  | inl here ↦
      let e : q ≡ d + k = sym ((==_iff _ _).0 here) in
      let e' : s + (q - d) ≡ s + k = omega arith in
      ground (arith, copy_down_lem k (poke m (d + k) (m (s + k))) d s q h, e')
  | inr other ↦
      let src : within d k q ≡ true → (d + k == s + (q - d)) ≡ false = λ w. ground arith in
      ground (arith, copy_down_lem k (poke m (d + k) (m (s + k))) d s q h, src)
]

-- `memmove` moves the bytes that stood at the source before the call to the destination, whether or
-- not the two overlap, and changes no other byte.
pub memmove_lem :
    (m : Memory) (dest src n q : ℕ)
    → memmove m dest src n q ≡ (if within dest n q then m (src + (q - dest)) else m q)
unfolding memmove
memmove_lem m dest src n q = elim (Bool-cases (ltb dest src)) [
  | inl up ↦
      let e : dest + 0 ≡ dest = omega arith in
      rw up (copy_up_lem n m dest src 0 q (inl (ground arith)) ∙ rw e)
  | inr down ↦ rw down (copy_down_lem n m dest src q (ground arith))
]

-- `memcpy` does the same as `memmove` where the destination does not begin inside the source.
pub memcpy-eq-memmove :
    (m : Memory) (dest src n : ℕ)
    → (dest ≤ src) ⊎ (src + n ≤ dest)
    → (q : ℕ) → memcpy m dest src n q ≡ memmove m dest src n q
unfolding memcpy
memcpy-eq-memmove m dest src n h q =
    let e : dest + 0 ≡ dest = omega arith in
    copy_up_lem n m dest src 0 q (ground arith) ∙ rw e (sym (memmove_lem m dest src n q))

pub memset_loop_lem :
    (k : ℕ) (m : Memory) (p v i q : ℕ)
    → memset_loop k m p v i q ≡ (if within (p + i) k q then v else m q)
unfolding memset_loop
memset_loop_lem zero m p v i q = ground arith
memset_loop_lem (suc k) m p v i q =
    ground (arith, memset_loop_lem k (poke m (p + i) v) p v (i + 1) q)

-- `memset` fills exactly its range with the low byte of the value.
pub memset_lem :
    (m : Memory) (ptr value num q : ℕ)
    → memset m ptr value num q ≡ (if within ptr num q then value % 256 else m q)
unfolding memset
memset_lem m ptr value num q =
    let e : ptr + 0 ≡ ptr = omega arith in memset_loop_lem num m ptr (u8 value) 0 q ∙ rw e

memcmp_loop_lem :
    (k : ℕ) (m : Memory) (p q i : ℕ)
    → (memcmp_loop k m p q i ≡ pos 0) ↔ ((j : ℕ) → i ≤ j → j < i + k → m (p + j) ≡ m (q + j))
unfolding memcmp_loop
memcmp_loop_lem zero m p q i = (λ e j h k. absurd (omega arith), λ h. refl)
memcmp_loop_lem (suc k) m p q i = elim (Bool-cases (m (p + i) == m (q + i))) [
  | inl same ↦
      let rest = memcmp_loop_lem k m p q (i + 1) in
      rw same (
        (λ e j h l. elim (Bool-cases (i == j)) [
          | inl here ↦
              let e : i ≡ j = (==_iff _ _).0 here in
              subst (λ j. m (p + j) ≡ m (q + j)) e ((==_iff _ _).0 same)
          | inr there ↦ rest.0 e j (ground arith) (omega arith)
        ]),
        (λ all. rest.1 (λ j h l. all j (omega arith) (omega arith))),
      )
  | inr differ ↦ rw differ (
    (λ e. absurd (ground (arith, (sub_ℕ-zero (m (p + i)) (m (q + i))).0 e))),
    (λ all. absurd (ground (arith, all i (omega arith) (omega arith)))),
  )
]

-- `memcmp` is 0 exactly for equal ranges.
pub memcmp_lem :
    (m : Memory) (ptr1 ptr2 num : ℕ)
    → (memcmp m ptr1 ptr2 num ≡ pos 0) ↔ ((j : ℕ) → j < num → m (ptr1 + j) ≡ m (ptr2 + j))
unfolding memcmp
memcmp_lem m ptr1 ptr2 num =
    let l = memcmp_loop_lem num m ptr1 ptr2 0 in
    (λ e j h. l.0 e j (omega arith) (omega arith), λ all. l.1 (λ j h k. all j (omega arith)))
