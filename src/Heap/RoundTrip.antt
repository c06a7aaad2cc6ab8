-- ===== src/Heap/RoundTrip.antt =====
-- `kfree` undoes `kmalloc`.
use zenix.Prelude.{
  ℕ, ◌+◌, ◌-◌, ◌≡◌, refl, sym, ap, subst, ◌∙◌, ◌⊎◌, inl, inr, true, false, Option, some, List, [],
  ◌∷◌, ◌++◌, arith, ltb, ◌==◌, ==_iff, Bool-cases, ◌≢◌,
}
use zenix.Heap.{Heap, region_start, align4, kmalloc, kfree}
use zenix.Heap.Cells.{Cell, extent}
use zenix.Heap.Fit.{Fit, cell, place, shift, fits, fit, fit-cons, Finds, refuses, claims}
use zenix.Heap.Rows.{Coalesced}
use zenix.Heap.Malloc.{IsValid, NoFit, fit-none, region_end, fit-IsValid, find_fit_cells}
use zenix.Heap.Release.{join_next, attach, join_prev, free_row}
use zenix.Heap.Free.{kfree_lem}

-- An allocation takes a free cell between `pre` and `post`, of which `rest` is left behind it.
record Taken (cs : List Cell) (f : Fit) (pre : List Cell) (c : Cell) (post rest : List Cell)
    : Type 0 where
  before : cs ≡ pre ++ (c ∷ post)
  free : c.used ≡ 0
  after : f.cells ≡ pre ++ (cell f.got 1 ∷ rest)
  at : f.offset ≡ extent pre
  joined : Coalesced (c ∷ post) → join_next f.got rest ≡ cell c.size 0 ∷ post

place-Taken :
    (size : ℕ) (c : Cell) (post : List Cell)
    → fits size c ≡ true
    → (rest : List Cell) × Taken (c ∷ post) (place size c post) [] c post rest
unfolding place
place-Taken size c post h = elim (Bool-cases (ltb (size + 16) c.size)) [
  | inl large ↦ rw large (
    cell (c.size - size - 12) 0 ∷ post,
    record {
      before = refl;
      free = ground arith;
      after = refl;
      at = unfold extent in refl;
      joined = λ v.
          let e : size + 12 + (c.size - size - 12) ≡ c.size = ground arith in
          unfold join_next in rw e;
    },
  )
  | inr tight ↦ rw tight (
    post,
    record {
      before = refl;
      free = ground arith;
      after = refl;
      at = unfold extent in refl;
      joined = join_tight c post h;
    },
  )
]
  where
    join_tight :
        (c : Cell) (post : List Cell)
        → fits size c ≡ true
        → Coalesced (c ∷ post)
        → join_next c.size post ≡ cell c.size 0 ∷ post
    join_tight c [] h v = unfold join_next in refl
    join_tight c (d ∷ post) h v =
        let used : (d.used == 0) ≡ false = ground (arith, v.0) in unfold join_next in rw used

cons-Taken :
    (c : Cell) {cs : List Cell} {f : Fit} {pre : List Cell} {d : Cell} {post rest : List Cell}
    → Taken cs f pre d post rest
    → Taken (c ∷ cs) (shift c f) (c ∷ pre) d post rest
unfolding extent
cons-Taken c t = record {
  before = ap (◌∷◌ c) t.before;
  free = t.free;
  after = ap (◌∷◌ c) t.after;
  at = omega (arith, t.at);
  joined = t.joined;
}

fit-Taken :
    (size : ℕ) (cs : List Cell) (f : Fit)
    → fit size cs ≡ some f
    → (pre : List Cell) × (c : Cell) × (post : List Cell) × (rest : List Cell) × Taken cs f pre c
        post rest
fit-Taken size [] f e = unfold fit in cc
fit-Taken size (c ∷ cs) f e = elim (fit-cons size c cs f e) [
  | inl (hit, e') ↦
      let (rest, t) = place-Taken size c cs hit in
      ([], c, cs, rest, subst (λ f. Taken (c ∷ cs) f [] c cs rest) e' t)
  | inr (g, miss, h, e') ↦
      let (pre, d, post, rest, t) = fit-Taken size cs g h in
      (
        c ∷ pre,
        d,
        post,
        rest,
        subst (λ f. Taken (c ∷ cs) f (c ∷ pre) d post rest) e' (cons-Taken c t),
      )
]

-- Behind a used cell there is nothing to join.
join_prev_free :
    (pre : List Cell) (c : Cell) (post : List Cell)
    → c.used ≡ 0
    → Coalesced (pre ++ (c ∷ post))
    → join_prev pre (cell c.size 0 ∷ post) ≡ pre ++ (cell c.size 0 ∷ post)
unfolding join_prev attach
join_prev_free [] c post z v = refl
join_prev_free (d ∷ []) c post z v =
    let used : (d.used == 0) ≡ false = ground (arith, v.0, z) in rw used
join_prev_free (d ∷ e ∷ pre) c post z v = ap (◌∷◌ d) (join_prev_free (e ∷ pre) c post z v.1)

Coalesced-end : (pre : List Cell) (cs : List Cell) → Coalesced (pre ++ cs) → Coalesced cs
Coalesced-end [] cs v = v
Coalesced-end (d ∷ []) [] v = tt
Coalesced-end (d ∷ []) (c ∷ cs) v = v.1
Coalesced-end (d ∷ e ∷ pre) cs v = Coalesced-end (e ∷ pre) cs v.1

restored :
    {cs : List Cell} {f : Fit} {pre : List Cell} {c : Cell} {post rest : List Cell}
    → Taken cs f pre c post rest
    → Coalesced cs
    → free_row pre f.got rest ≡ cs
restored {cs} {f} {pre} {c} {post} {rest} t v =
    let v' : Coalesced (pre ++ (c ∷ post)) = subst Coalesced t.before v in
    let same : cell c.size 0 ≡ c = ground (arith, t.free) in
    ap (join_prev pre) (t.joined (Coalesced-end pre (c ∷ post) v'))
    ∙ join_prev_free pre c post t.free v'
    ∙ ap (λ d. pre ++ (d ∷ post)) same
    ∙ sym t.before

-- What an allocation of `size` bytes answers, and what giving it back leaves.
pub data FreeRestores (s : Heap) (cells : List Cell) (size : ℕ) : Option (ℕ × Heap) → Type 0 where
  refused : (size ≡ 0) ⊎ NoFit (align4 size) cells → FreeRestores s cells size (some (0, s))
  given_back :
      (p : ℕ) (s' s'' : Heap)
      → p ≢ 0
      → kfree s' p ≡ some s''
      → IsValid s'' cells
      → s''.heap_used ≡ s.heap_used
      → FreeRestores s cells size (some (p, s'))

module _ {s : Heap} {cells : List Cell} (v : IsValid s cells) where
  Finds-FreeRestores :
      (size : ℕ) {o : Option Fit} {r : Option (ℕ × Heap)}
      → fit (align4 size) cells ≡ o
      → Finds s region_start region_end o r
      → FreeRestores s cells size r
  Finds-FreeRestores size e refuses = refused (inr (fit-none (align4 size) cells e))
  Finds-FreeRestores size e (claims f p s' ep t eu es same) =
      let (pre, c, post, rest, k) = fit-Taken (align4 size) cells f e in
      let after = fit-IsValid v (align4 size) (omega arith) e t eu es in
      let (s'', run, g) =
        kfree_lem pre (cell f.got 1) rest (subst (IsValid s') k.after after.0) refl in
      given_back p s' s'' (omega (arith, ep))
        (subst (λ q. kfree s' q ≡ some s'') (omega (arith, ep, k.at)) run)
        (subst (IsValid s'') (restored k v.coalesced) g.valid)
        (omega (arith, g.given_back, after.1))

  -- On a heap that keeps the invariant `kmalloc` ends. If it returns the null pointer, then no bytes were asked for or no free block is large enough for
  -- the size rounded up to a multiple of 4 (the rounding wraps at 2^32), and nothing has changed. Otherwise `kfree` of the address, right
  -- after it, ends and leaves the very row of blocks, used and free, that there was before, and the same
  -- count of used bytes.
  pub kfree-kmalloc : (size : ℕ) → FreeRestores s cells size (kmalloc s size)
  unfolding kmalloc
  kfree-kmalloc size = elim (Bool-cases (size == 0)) [
    | inl z ↦ rw z (refused (inl ((==_iff _ _).0 z)))
    | inr nz ↦ rw nz (Finds-FreeRestores size refl (find_fit_cells v (align4 size)))
  ]
