-- ===== src/Heap/Joined.antt =====
-- The row that `kfree` leaves: what it keeps of the row before, and that no free cells are neighbours.
use zenix.Prelude.{
  ℕ, ◌+◌, ◌≤◌, ◌≡◌, refl, sym, subst, ◌∙◌, inl, inr, false, ◌||◌, List, [], ◌∷◌, ◌++◌, arith, ◌==◌,
  Bool-cases,
}
use zenix.Heap.Cells.{Cell, extent, used_total}
use zenix.Heap.Fit.{cell}
use zenix.Heap.Rows.{owned, Coalesced, Aligned}
use zenix.Heap.Release.{join_next, attach, join_prev, free_row}

pub owned-append :
    (a : ℕ) (pre cs : List Cell) (x : ℕ)
    → owned a (pre ++ cs) x ≡ (owned a pre x || owned (a + extent pre) cs x)
unfolding owned extent
owned-append a [] cs x = let e : a + 0 ≡ a = omega arith in rw e
owned-append a (c ∷ pre) cs x =
    let e : a + (12 + c.size + extent pre) ≡ a + 12 + c.size + extent pre = omega arith in
    rw e (ground (arith, owned-append (a + 12 + c.size) pre cs x))

pub owned_after :
    (a : ℕ) (pre : List Cell) (x : ℕ) → a + extent pre + 12 ≤ x → owned a pre x ≡ false
unfolding owned extent
owned_after a [] x h = refl
owned_after a (c ∷ pre) x h = ground (arith, owned_after (a + 12 + c.size) pre x)

-- What two rows share that differ by joined free cells only.
pub record Same (cs ds : List Cell) : Type 0 where
  pub extents : extent cs ≡ extent ds
  pub totals : used_total cs ≡ used_total ds
  pub bytes : (a x : ℕ) → owned a cs x ≡ owned a ds x

Same-cons : (c : Cell) {cs ds : List Cell} → Same cs ds → Same (c ∷ cs) (c ∷ ds)
unfolding owned extent used_total
Same-cons c s = record {
  extents = omega (arith, s.extents);
  totals = omega (arith, s.totals);
  bytes = λ a x. ground (arith, s.bytes (a + 12 + c.size) x);
}

join_next-Same : (size : ℕ) (post : List Cell) → Same (join_next size post) (cell size 0 ∷ post)
unfolding join_next owned extent used_total
join_next-Same size [] = record { extents = refl; totals = refl; bytes = λ a x. refl }
join_next-Same size (d ∷ post) = record {
  extents = ground arith;
  totals = ground arith;
  bytes = λ a x. elim (Bool-cases (d.used == 0)) [
    | inl free ↦
        let e : a + 12 + (size + 12 + d.size) ≡ a + 12 + size + 12 + d.size = omega arith in
        rw (free, e) refl
    | inr used ↦ rw used (rw used)
  ];
}

attach-Same :
    (d : Cell) (n : ℕ) (post : List Cell) → Same (attach d (cell n 0 ∷ post)) (d ∷ cell n 0 ∷ post)
unfolding attach owned extent used_total
attach-Same d n post = record {
  extents = ground arith;
  totals = ground arith;
  bytes = λ a x. elim (Bool-cases (d.used == 0)) [
    | inl free ↦
        let e : a + 12 + (d.size + 12 + n) ≡ a + 12 + d.size + 12 + n = omega arith in
        rw (free, e) refl
    | inr used ↦ rw used (rw used)
  ];
}

join_prev-Same :
    (pre : List Cell) (n : ℕ) (post : List Cell)
    → Same (join_prev pre (cell n 0 ∷ post)) (pre ++ (cell n 0 ∷ post))
unfolding join_prev
join_prev-Same [] n post = record { extents = refl; totals = refl; bytes = λ a x. refl }
join_prev-Same (d ∷ []) n post = attach-Same d n post
join_prev-Same (d ∷ e ∷ pre) n post = Same-cons d (join_prev-Same (e ∷ pre) n post)

-- A freed cell, joined to what follows, is one free cell and the rest.
pub join_next_shape :
    (size : ℕ) (post : List Cell)
    → (n : ℕ) × (rest : List Cell) × (join_next size post ≡ cell n 0 ∷ rest)
unfolding join_next
join_next_shape size [] = (size, [], refl)
join_next_shape size (d ∷ post) = elim (Bool-cases (d.used == 0)) [
  | inl free ↦ (size + 12 + d.size, post, rw free)
  | inr used ↦ (size, d ∷ post, rw used)
]

Same-append : (pre : List Cell) {cs ds : List Cell} → Same cs ds → Same (pre ++ cs) (pre ++ ds)
Same-append [] s = s
Same-append (c ∷ pre) s = Same-cons c (Same-append pre s)

Same-trans : {cs ds es : List Cell} → Same cs ds → Same ds es → Same cs es
Same-trans s t = record {
  extents = s.extents ∙ t.extents;
  totals = s.totals ∙ t.totals;
  bytes = λ a x. s.bytes a x ∙ t.bytes a x;
}

-- The row after a cell is freed is, but for joined free cells, the row with that cell free.
pub free_row-Same :
    (pre : List Cell) (size : ℕ) (post : List Cell)
    → Same (free_row pre size post) (pre ++ (cell size 0 ∷ post))
free_row-Same pre size post =
    let (n, rest, e) = join_next_shape size post in
    Same-trans
      (subst (λ row. Same (join_prev pre row) (pre ++ row)) (sym e) (join_prev-Same pre n rest))
      (Same-append pre (join_next-Same size post))

join_next-Coalesced :
    (c : Cell) (post : List Cell) → Coalesced (c ∷ post) → Coalesced (join_next c.size post)
unfolding join_next
join_next-Coalesced c [] v = tt
join_next-Coalesced c (d ∷ []) v = ground arith
join_next-Coalesced c (d ∷ e ∷ post) v = elim (Bool-cases (d.used == 0)) [
  | inl free ↦ rw free (ground (arith, v.1.0), v.1.1)
  | inr used ↦ rw used (used, v.1)
]

swap_head :
    (c d : Cell) (post : List Cell) → c.used ≡ d.used → Coalesced (c ∷ post) → Coalesced (d ∷ post)
swap_head c d [] e v = tt
swap_head c d (f ∷ post) e v = (ground (arith, v.0), v.1)

join_prev-Coalesced :
    (pre : List Cell) (n : ℕ) (c : Cell) (post rest : List Cell)
    → Coalesced (pre ++ (c ∷ post))
    → (c.used == 0) ≡ false
    → Coalesced (cell n 0 ∷ rest)
    → Coalesced (join_prev pre (cell n 0 ∷ rest))
unfolding join_prev attach
join_prev-Coalesced [] n c post rest v u r = r
join_prev-Coalesced (d ∷ []) n c post rest v u r = elim (Bool-cases (d.used == 0)) [
  | inl free ↦ rw free (swap_head (cell n 0) (cell (d.size + 12 + n) 0) rest refl r)
  | inr used ↦ rw used (ground (arith, used), r)
]
join_prev-Coalesced (d ∷ e ∷ []) n c post rest v u r = elim (Bool-cases (e.used == 0)) [
  | inl free ↦
      rw free (ground (arith, v.0), swap_head (cell n 0) (cell (e.size + 12 + n) 0) rest refl r)
  | inr used ↦ rw used (v.0, (ground (arith, used), r))
]
join_prev-Coalesced (d ∷ e ∷ e' ∷ pre) n c post rest v u r =
    (v.0, join_prev-Coalesced (e ∷ e' ∷ pre) n c post rest v.1 u r)

Coalesced-behind :
    (pre : List Cell) (c : Cell) (post : List Cell)
    → Coalesced (pre ++ (c ∷ post))
    → Coalesced (c ∷ post)
Coalesced-behind [] c post v = v
Coalesced-behind (d ∷ []) c post v = v.1
Coalesced-behind (d ∷ e ∷ pre) c post v = Coalesced-behind (e ∷ pre) c post v.1

-- Freeing a used cell leaves no free neighbours.
pub free_row-Coalesced :
    (pre : List Cell) (c : Cell) (post : List Cell)
    → Coalesced (pre ++ (c ∷ post))
    → (c.used == 0) ≡ false
    → Coalesced (free_row pre c.size post)
free_row-Coalesced pre c post v u =
    let (n, rest, e) = join_next_shape c.size post in
    let r = join_next-Coalesced c post (Coalesced-behind pre c post v) in
    subst (λ row. Coalesced (join_prev pre row)) (sym e)
      (join_prev-Coalesced pre n c post rest v u (subst Coalesced e r))

join_next-Aligned :
    (c : Cell) (post : List Cell) → Aligned (c ∷ post) → Aligned (join_next c.size post)
unfolding join_next
join_next-Aligned c [] v = v
join_next-Aligned c (d ∷ post) v = ground (arith, v.0, v.1.0, v.1.1)

join_prev-Aligned :
    (pre : List Cell) (n : ℕ) (c : Cell) (post rest : List Cell)
    → Aligned (pre ++ (c ∷ post))
    → Aligned (cell n 0 ∷ rest)
    → Aligned (join_prev pre (cell n 0 ∷ rest))
unfolding join_prev attach
join_prev-Aligned [] n c post rest v r = r
join_prev-Aligned (d ∷ []) n c post rest v r = ground (arith, v.0, r.0, r.1)
join_prev-Aligned (d ∷ e ∷ pre) n c post rest v r =
    (v.0, join_prev-Aligned (e ∷ pre) n c post rest v.1 r)

Aligned-behind :
    (pre : List Cell) (c : Cell) (post : List Cell)
    → Aligned (pre ++ (c ∷ post))
    → Aligned (c ∷ post)
Aligned-behind [] c post v = v
Aligned-behind (d ∷ pre) c post v = Aligned-behind pre c post v.1

pub free_row-Aligned :
    (pre : List Cell) (c : Cell) (post : List Cell)
    → Aligned (pre ++ (c ∷ post))
    → Aligned (free_row pre c.size post)
free_row-Aligned pre c post v =
    let (n, rest, e) = join_next_shape c.size post in
    let r = join_next-Aligned c post (Aligned-behind pre c post v) in
    subst (λ row. Aligned (join_prev pre row)) (sym e)
      (join_prev-Aligned pre n c post rest v (subst Aligned e r))
