-- ===== src/Heap/Free.antt =====
-- `kfree`: its run, and what it means for the row of blocks.
use zenix.Prelude.{
  ℕ, ◌+◌, ◌^◌, ◌≤◌, ◌<◌, ◌≡◌, refl, sym, subst, ◌∙◌, true, false, not, ◌&&◌, some, List, ◌∷◌, ◌++◌,
  arith, ◌==◌, sub32,
}
use zenix.Heap.{Heap, region_start, region_size, chain_limit, find_prev, release, absorb, kfree}
use zenix.Heap.Cells.{
  Cell, extent, used_total, Tiles, extent-Tiles, used_total-append, used_total-le, length-le-extent,
}
use zenix.Heap.Fit.{cell}
use zenix.Heap.Rows.{inside, owned, owned_before}
use zenix.Heap.Joined.{
  free_row-Same, free_row-Coalesced, free_row-Aligned, join_next_shape, owned-append, owned_after,
}
use zenix.Heap.Malloc.{IsValid, region_end, extent-cells}
use zenix.Heap.Release.{
  join_next, join_prev, free_row, prev_addr, release_head, release_before, release-used,
  release-start, Tiles-replace, Tiles-drop,
}
use zenix.Heap.Absorb.{find_prev_lem, absorb-used, absorb-start, absorb-Tiles}

-- The two halves of `kfree`, once its tests are passed.
kfree_run :
    (s : Heap) (p prev : ℕ)
    → p < 2 ^ 31
    → ((s.block p).used == 0) ≡ false
    → find_prev chain_limit p (release s p).heap_start (release s p) ≡ some prev
    → kfree s (p + 12) ≡ some (absorb (release s p) prev p)
unfolding kfree
kfree_run s p prev h u walk =
    let z : (p + 12 == 0) ≡ false = ground arith in
    let e : sub32 (p + 12) 12 ≡ p = omega arith in rw (z, e, u, walk, kfree) (rw e)

-- What `kfree` does to the heap of a row: the cell of `c` becomes free and joins free neighbours.
pub record Freed (s : Heap) (pre : List Cell) (c : Cell) (post : List Cell) (s' : Heap)
    : Type 0 where
  pub valid : IsValid s' (free_row pre c.size post)
  pub given_back : s'.heap_used + c.size ≡ s.heap_used
  pub bytes :
      (x : ℕ)
      → owned region_start (free_row pre c.size post) x ≡ (
          owned region_start (pre ++ (c ∷ post)) x
          && not (inside (region_start + extent pre + 12) c.size x))

-- Freeing a used cell takes its own bytes back and no others.
free_row_bytes :
    (a : ℕ) (pre : List Cell) (c : Cell) (post : List Cell) (x : ℕ)
    → (c.used == 0) ≡ false
    → owned a (free_row pre c.size post) x
      ≡ (owned a (pre ++ (c ∷ post)) x && not (inside (a + extent pre + 12) c.size x))
free_row_bytes a pre c post x u =
    (free_row-Same pre c.size post).bytes a x
    ∙ owned-append a pre (cell c.size 0 ∷ post) x
    ∙ rw (owned-append a pre (c ∷ post) x) (
        unfold owned in
        ground (arith, u, owned_before (a + extent pre + 12 + c.size) post x, owned_after a pre x))

free_row_total :
    (pre : List Cell) (c : Cell) (post : List Cell)
    → (c.used == 0) ≡ false
    → used_total (free_row pre c.size post) + c.size ≡ used_total (pre ++ (c ∷ post))
free_row_total pre c post u =
    rw
      (
        (free_row-Same pre c.size post).totals,
        used_total-append pre (cell c.size 0 ∷ post),
        used_total-append pre (c ∷ post),
      )
      (unfold used_total in ground (arith, u))

module _ {s : Heap} (pre : List Cell) (c : Cell) (post : List Cell)
    (v : IsValid s (pre ++ (c ∷ post))) where
  abbrev place_of : ℕ
  place_of = region_start + extent pre

  at_cell : Tiles s.block place_of (c ∷ post) region_end 0
  at_cell = Tiles-drop s.block s.block region_end region_start place_of pre (c ∷ post) refl v.tiles

  low : place_of + 12 + c.size ≤ region_end
  low = omega (arith, extent-Tiles s.block region_end 0 (place_of + 12 + c.size) post at_cell.3)

  -- The whole row once `release` is done.
  after_release :
      (n : ℕ) (rest : List Cell)
      → join_next c.size post ≡ cell n 0 ∷ rest
      → Tiles (release s place_of).block region_start (pre ++ (cell n 0 ∷ rest)) region_end 0
  after_release n rest e =
      Tiles-replace s.block (release s place_of).block region_end region_start place_of pre c
        (cell n 0) post rest refl
        (λ q h.
          release_before s place_of region_end c post (omega arith) (omega arith) at_cell q
            (omega arith))
        v.tiles
        (subst (λ row. Tiles (release s place_of).block place_of row region_end 0) e
          (release_head s place_of region_end c post (omega arith) (omega arith) at_cell))

  -- `kfree` finds the block before the cell.
  kfree_walk :
      find_prev chain_limit place_of (release s place_of).heap_start (release s place_of)
      ≡ some (prev_addr region_start pre)
  kfree_walk =
      let (n, rest, e) = join_next_shape c.size post in
      let whole : extent (pre ++ (cell n 0 ∷ rest)) ≡ region_size = omega (
        arith,
        extent-Tiles (release s place_of).block region_end 0 region_start (pre ++ (cell n 0 ∷ rest))
            (after_release n rest e),
      ) in
      subst
        (λ first.
          find_prev chain_limit place_of first (release s place_of)
          ≡ some (prev_addr region_start pre))
        (sym (
          release-start s place_of region_end c post (omega arith) (omega arith) at_cell ∙ v.start))
        (find_prev_lem chain_limit region_start place_of region_end (release s place_of) pre
          (cell n 0) rest (omega arith) refl
          (omega (arith, whole, length-le-extent (pre ++ (cell n 0 ∷ rest))))
          (after_release n rest e))

  abbrev freed : Heap
  freed = absorb (release s place_of) (prev_addr region_start pre) place_of

  freed-Tiles : Tiles freed.block region_start (free_row pre c.size post) region_end 0
  freed-Tiles =
      let (n, rest, e) = join_next_shape c.size post in
      subst (λ row. Tiles freed.block region_start (join_prev pre row) region_end 0) (sym e)
        (absorb-Tiles (release s place_of) region_end (omega arith) (cell n 0) rest region_start
          place_of pre (omega arith) refl (after_release n rest e))

  -- `kfree` of the address of a used cell ends, frees that cell and joins it to its free neighbours,
  -- takes exactly its bytes back and keeps the invariant, so that no two free blocks are neighbours.
  pub kfree_lem :
      (c.used == 0) ≡ false
      → (s' : Heap) × (kfree s (region_start + extent pre + 12) ≡ some s') × Freed s pre c post s'
  kfree_lem u =
      let count = free_row_total pre c post u in
      let below = used_total-le (pre ++ (c ∷ post)) in
      let whole = extent-cells v in
      let left : freed.heap_used ≡ sub32 s.heap_used c.size =
        absorb-used (release s place_of) (prev_addr region_start pre) place_of
        ∙ release-used s place_of region_end c post (omega arith) (omega arith) at_cell in
      (
        freed,
        kfree_run s place_of (prev_addr region_start pre) (omega (arith, low))
            (ground (arith, at_cell.1, u)) kfree_walk,
        record {
          valid = record {
            start =
                absorb-start (release s place_of) (prev_addr region_start pre) place_of
                ∙ release-start s place_of region_end c post (omega arith) (omega arith) at_cell
                ∙ v.start;
            tiles = freed-Tiles;
            counted = omega (arith, left, v.counted, count, below, whole);
            coalesced = free_row-Coalesced pre c post v.coalesced u;
            aligned = free_row-Aligned pre c post v.aligned;
          };
          given_back = omega (arith, left, v.counted, count, below, whole);
          bytes = λ x. free_row_bytes region_start pre c post x u;
        },
      )

  -- `kfree` of the null pointer, and of the address of a cell that is free already, changes nothing.
  pub kfree_ignores :
      (kfree s 0 ≡ some s)
      × ((c.used == 0) ≡ true → kfree s (region_start + extent pre + 12) ≡ some s)
  unfolding kfree
  kfree_ignores = (
    refl,
    λ free.
        let z : (place_of + 12 == 0) ≡ false = ground arith in
        let e : sub32 (place_of + 12) 12 ≡ place_of = omega (arith, low) in
        let u : ((s.block place_of).used == 0) ≡ true = ground (arith, at_cell.1, free) in
        rw (z, e, u, kfree),
  )
