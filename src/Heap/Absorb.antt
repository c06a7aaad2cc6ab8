-- ===== src/Heap/Absorb.antt =====
-- The walk of `kfree` to the previous block, and the merge with it.
use zenix.Prelude.{
  ℕ, zero, suc, ◌+◌, ◌^◌, ◌≤◌, ◌<◌, ◌≡◌, refl, sym, subst, ◌∙◌, ◌≢◌, inl, inr, true, false, some,
  List, [], ◌∷◌, ◌++◌, arith, ◌==◌, ==_iff, ==_refl, Bool-cases, length, u32,
}
use zenix.Heap.{Heap, merge_next, find_prev, absorb}
use zenix.Heap.Cells.{Cell, extent, link, Tiles, extent-Tiles, Tiles-frame}
use zenix.Heap.Release.{attach, join_prev, prev_addr}

-- No block from `a` on points to `b`, which lies before them.
find_prev-none :
    (fuel a b stop : ℕ) (t : Heap) (cs : List Cell)
    → 0 < b
    → b ≤ a
    → length cs < fuel
    → Tiles t.block a cs stop 0
    → find_prev fuel b (link a cs 0) t ≡ some 0
unfolding find_prev
find_prev-none zero a b stop t cs pos le enough u = elim enough [ ]
find_prev-none (suc fuel) a b stop t [] pos le enough u = refl
find_prev-none (suc fuel) a b stop t (c ∷ []) pos le enough u =
    ground (arith, u.2, find_prev-none fuel (a + 12 + c.size) b stop t [] pos)
find_prev-none (suc fuel) a b stop t (c ∷ d ∷ cs) pos le enough u = ground (
  arith,
  u.2,
  find_prev-none fuel (a + 12 + c.size) b stop t (d ∷ cs) pos (omega arith) (omega arith) u.3,
)

module _ (fuel a b : ℕ) (t : Heap) (pos : 0 < a) where
  find_prev_found : (t.block a).next ≡ b → find_prev (suc fuel) b a t ≡ some a
  unfolding find_prev
  find_prev_found e = ground arith

  find_prev_on :
      (t.block a).next ≢ b → find_prev (suc fuel) b a t ≡ find_prev fuel b (t.block a).next t
  unfolding find_prev
  find_prev_on e = ground arith

-- The walk of `kfree` finds the block before `b`.
pub find_prev_lem :
    (fuel a b stop : ℕ) (t : Heap) (pre : List Cell) (e : Cell) (post : List Cell)
    → 0 < a
    → b ≡ a + extent pre
    → length (pre ++ (e ∷ post)) < fuel
    → Tiles t.block a (pre ++ (e ∷ post)) stop 0
    → find_prev fuel b a t ≡ some (prev_addr a pre)
unfolding extent prev_addr
find_prev_lem zero a b stop t pre e post pos eb enough u = elim enough [ ]
find_prev_lem (suc fuel) a b stop t [] e post pos eb enough u =
    find_prev-none (suc fuel) a b stop t (e ∷ post) (omega arith) (omega arith) enough u
find_prev_lem (suc fuel) a b stop t (p ∷ []) e post pos eb enough u =
    find_prev_found fuel a b t pos (omega (arith, u.2))
find_prev_lem (suc fuel) a b stop t (p ∷ p' ∷ pre) e post pos eb enough u =
    find_prev_on fuel a b t pos (omega (arith, u.2))
    ∙ subst (λ q. find_prev fuel b q t ≡ some (prev_addr (a + 12 + p.size) (p' ∷ pre))) (sym u.2)
        (find_prev_lem fuel (a + 12 + p.size) b stop t (p' ∷ pre) e post (omega arith) (omega arith)
          (omega arith) u.3)

absorb_before : (t : Heap) (p b q : ℕ) → q ≢ p → (absorb t p b).block q ≡ t.block q
unfolding absorb
absorb_before t p b q h = ground arith

pub absorb-used : (t : Heap) (p b : ℕ) → (absorb t p b).heap_used ≡ t.heap_used
unfolding absorb
absorb-used t p b = ground arith

pub absorb-start : (t : Heap) (p b : ℕ) → (absorb t p b).heap_start ≡ t.heap_start
unfolding absorb
absorb-start t p b = ground arith

module _ (t : Heap) (a q : ℕ) where
  absorb_on : 0 < a → (t.block a).used ≡ 0 → absorb t a q ≡ merge_next t a q
  unfolding absorb
  absorb_on pos h = let z : (a == 0) ≡ false = ground arith in rw (z, h, absorb)

  absorb_off : ((t.block a).used == 0) ≡ false → absorb t a q ≡ t
  unfolding absorb
  absorb_off h = elim (Bool-cases (a == 0)) [ inl z ↦ rw (z, absorb) | inr nz ↦ rw (nz, h, absorb) ]

  merged_block : (merge_next t a q).block a ≡ record {
    size = u32 ((t.block a).size + 12 + (t.block q).size);
    used = (t.block a).used;
    next = (t.block q).next;
  }
  merged_block = rw (==_refl a)

prev_addr-le : (a : ℕ) (p : Cell) (pre : List Cell) → a ≤ prev_addr a (p ∷ pre)
unfolding prev_addr
prev_addr-le a p [] = omega arith
prev_addr-le a p (p' ∷ pre) = omega (arith, prev_addr-le (a + 12 + p.size) p' pre)

link-join_prev :
    (x : ℕ) (pre : List Cell) (e : Cell) (post : List Cell)
    → link x (join_prev pre (e ∷ post)) 0 ≡ x
unfolding join_prev attach
link-join_prev x [] e post = refl
link-join_prev x (p ∷ []) e post = elim (Bool-cases (p.used == 0)) [
  | inl free ↦ rw free
  | inr used ↦ rw used
]
link-join_prev x (p ∷ p' ∷ pre) e post = refl

module _ (t : Heap) (stop : ℕ) (small : stop < 2 ^ 31) (e : Cell) (post : List Cell) where
  zeroed :
      (a : ℕ) (p : Cell)
      → Tiles t.block a (p ∷ e ∷ post) stop 0
      → (p.used == 0) ≡ true
      → (t.block a).used ≡ 0
  zeroed a p u free = u.1 ∙ (==_iff _ _).0 free

  absorb_head :
      (a : ℕ) (p : Cell)
      → 0 < a
      → Tiles t.block a (p ∷ e ∷ post) stop 0
      → Tiles (absorb t a (a + 12 + p.size)).block a (attach p (e ∷ post)) stop 0
  unfolding attach
  absorb_head a p pos u =
      let room = extent-Tiles t.block stop 0 (a + 12 + p.size + 12 + e.size) post u.3.3 in
      let kept = λ (q : ℕ) (h : q ≢ a). absorb_before t a (a + 12 + p.size) q h in
      elim (Bool-cases (p.used == 0)) [
        | inl free ↦
            let fine : u32 (p.size + 12 + e.size) ≡ p.size + 12 + e.size = omega arith in
            let head : (absorb t a (a + 12 + p.size)).block a ≡ record {
              size = p.size + 12 + e.size;
              used = 0;
              next = (t.block (a + 12 + p.size)).next;
            } =
              rw
                (
                  absorb_on t a (a + 12 + p.size) pos (zeroed a p u free),
                  merged_block t a (a + 12 + p.size),
                  u.0,
                  u.3.0,
                  zeroed a p u free,
                  fine,
                )
                refl in
            let same : a + 12 + (p.size + 12 + e.size) ≡ a + 12 + p.size + 12 + e.size =
              omega arith in
            rw (free, head, same)
              (
                refl,
                refl,
                u.3.2,
                Tiles-frame t.block stop 0 (absorb t a (a + 12 + p.size)).block _ post
                    (λ q lo hi. kept q (omega arith)) u.3.3,
              )
        | inr used ↦
            let head : absorb t a (a + 12 + p.size) ≡ t =
              absorb_off t a (a + 12 + p.size) (ground (arith, u.1)) in
            rw used (subst (λ (h : Heap). Tiles h.block a (p ∷ e ∷ post) stop 0) (sym head) u)
      ]

  -- The merge with the previous block.
  pub absorb-Tiles :
      (a b : ℕ) (pre : List Cell)
      → 0 < a
      → b ≡ a + extent pre
      → Tiles t.block a (pre ++ (e ∷ post)) stop 0
      → Tiles (absorb t (prev_addr a pre) b).block a (join_prev pre (e ∷ post)) stop 0
  unfolding extent join_prev prev_addr
  absorb-Tiles a b [] pos eb u = unfold absorb in u
  absorb-Tiles a b (p ∷ []) pos eb u =
      subst (λ b. Tiles (absorb t a b).block a (attach p (e ∷ post)) stop 0) (omega arith)
        (absorb_head a p pos u)
  absorb-Tiles a b (p ∷ p' ∷ pre) pos eb u =
      let k =
        absorb_before t (prev_addr (a + 12 + p.size) (p' ∷ pre)) b a
          (omega (arith, prev_addr-le (a + 12 + p.size) p' pre)) in
      (
        rw k u.0,
        rw k u.1,
        rw (k, link-join_prev (a + 12 + p.size) (p' ∷ pre) e post) u.2,
        absorb-Tiles (a + 12 + p.size) b (p' ∷ pre) (omega arith) (omega arith) u.3,
      )
