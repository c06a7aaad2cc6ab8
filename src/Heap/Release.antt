-- ===== src/Heap/Release.antt =====
-- `kfree` on a row of cells: the cell becomes free and joins its free neighbours.
use zenix.Prelude.{
  ℕ, ◌+◌, ◌^◌, ◌≤◌, ◌<◌, ◌≡◌, refl, subst, ◌≢◌, inl, inr, true, false, List, [], ◌∷◌, ◌++◌, arith,
  ◌==◌, if◌then◌else◌, Bool-cases, sub32,
}
use zenix.Heap.{HeapBlock, Heap, mark_free, release}
use zenix.Heap.Cells.{Cell, extent, Tiles, extent-Tiles, Tiles-frame}
use zenix.Heap.Fit.{cell}

-- A freed cell of `size` bytes in front of `post`.
unfoldable pub join_next : ℕ → List Cell → List Cell
join_next size [] = cell size 0 ∷ []
join_next size (d ∷ post) =
    if d.used == 0 then cell (size + 12 + d.size) 0 ∷ post else cell size 0 ∷ d ∷ post

-- The cell `d` in front of a row that starts with a freed cell.
unfoldable pub attach : Cell → List Cell → List Cell
attach d [] = d ∷ []
attach d (f ∷ post) = if d.used == 0 then cell (d.size + 12 + f.size) 0 ∷ post else d ∷ f ∷ post

unfoldable pub join_prev : List Cell → List Cell → List Cell
unfolding attach
join_prev [] row = row
join_prev (d ∷ []) row = attach d row
join_prev (d ∷ e ∷ pre) row = d ∷ join_prev (e ∷ pre) row

-- The row after the cell of `size` bytes between `pre` and `post` is freed.
abbrev pub free_row : List Cell → ℕ → List Cell → List Cell
free_row pre size post = join_prev pre (join_next size post)

-- The address of the last cell of a row at `a`, 0 if there is none.
unfoldable pub prev_addr : ℕ → List Cell → ℕ
prev_addr a [] = 0
prev_addr a (d ∷ []) = a
prev_addr a (d ∷ e ∷ pre) = prev_addr (a + 12 + d.size) (e ∷ pre)

module _ (s : Heap) (b stop : ℕ) (c : Cell) (post : List Cell) (small : stop < 2 ^ 31) (pos : 0 < b)
    (t : Tiles s.block b (c ∷ post) stop 0) where
  bound : b + 12 + c.size ≤ stop
  bound = omega (arith, extent-Tiles s.block stop 0 (b + 12 + c.size) post t.3)

  marked : (mark_free s b).block b ≡ record { size = c.size; used = 0; next = (s.block b).next }
  unfolding mark_free
  marked = ground (arith, t.0)

  marked_before : (q : ℕ) → q ≢ b → (mark_free s b).block q ≡ s.block q
  unfolding mark_free
  marked_before q h = ground arith

  pub release_before : (q : ℕ) → q ≢ b → (release s b).block q ≡ s.block q
  unfolding release
  release_before q h = ground (arith, marked_before q h)

  pub release-used : (release s b).heap_used ≡ sub32 s.heap_used c.size
  unfolding release mark_free
  release-used = ground (arith, t.0)

  pub release-start : (release s b).heap_start ≡ s.heap_start
  unfolding release mark_free
  release-start = ground arith

module _ (s : Heap) (b stop : ℕ) (c d : Cell) (post : List Cell) (small : stop < 2 ^ 31)
    (pos : 0 < b) (t : Tiles s.block b (c ∷ d ∷ post) stop 0) where
  room : b + 12 + c.size + 12 + d.size ≤ stop
  room = omega (arith, extent-Tiles s.block stop 0 (b + 12 + c.size + 12 + d.size) post t.3.3)

  -- The next block is free: its bytes join the freed one.
  released_joined :
      (d.used == 0) ≡ true
      → (release s b).block b
        ≡ record { size = c.size + 12 + d.size; used = 0; next = (s.block (b + 12 + c.size)).next }
  unfolding release
  released_joined free =
      rw
        (
          marked s b stop c (d ∷ post) small pos t,
          t.2,
          marked_before s b stop c (d ∷ post) small pos t (b + 12 + c.size) (omega arith),
          release,
        )
        (ground (arith, room, t.3.0, t.3.1))

  released_alone :
      (d.used == 0) ≡ false
      → (release s b).block b ≡ record { size = c.size; used = 0; next = b + 12 + c.size }
  unfolding release
  released_alone used =
      rw
        (
          marked s b stop c (d ∷ post) small pos t,
          t.2,
          marked_before s b stop c (d ∷ post) small pos t (b + 12 + c.size) (omega arith),
          release,
        )
        (ground (arith, room, t.2, t.3.1, marked s b stop c (d ∷ post) small pos t))

released_last :
    (s : Heap) (b stop : ℕ) (c : Cell)
    → stop < 2 ^ 31
    → 0 < b
    → Tiles s.block b (c ∷ []) stop 0
    → (release s b).block b ≡ record { size = c.size; used = 0; next = 0 }
unfolding release
released_last s b stop c small pos t =
    let m = marked s b stop c [] small pos t in ground (arith, m, t.2)

-- The first half of `kfree` on the cell at `b`, in front of `post`.
pub release_head :
    (s : Heap) (b stop : ℕ) (c : Cell) (post : List Cell)
    → stop < 2 ^ 31
    → 0 < b
    → Tiles s.block b (c ∷ post) stop 0
    → Tiles (release s b).block b (join_next c.size post) stop 0
unfolding join_next
release_head s b stop c [] small pos t =
    rw (released_last s b stop c small pos t) (refl, refl, refl, t.3)
release_head s b stop c (d ∷ post) small pos t =
    let kept = λ (q : ℕ) (h : q ≢ b). release_before s b stop c (d ∷ post) small pos t q h in
    elim (Bool-cases (d.used == 0)) [
      | inl free ↦
          let e : b + 12 + (c.size + 12 + d.size) ≡ b + 12 + c.size + 12 + d.size = omega arith in
          rw (free, released_joined s b stop c d post small pos t free, e)
            (
              refl,
              refl,
              t.3.2,
              Tiles-frame s.block stop 0 (release s b).block _ post
                  (λ q lo hi. kept q (omega arith)) t.3.3,
            )
      | inr used ↦
          rw (used, released_alone s b stop c d post small pos t used)
            (
              refl,
              refl,
              refl,
              Tiles-frame s.block stop 0 (release s b).block (b + 12 + c.size) (d ∷ post)
                  (λ q lo hi. kept q (omega arith)) t.3,
            )
    ]

-- A row whose tail is replaced by another one at the same address.
module _ (m m' : ℕ → HeapBlock) (stop : ℕ) where
  pub Tiles-replace :
      (a b : ℕ) (pre : List Cell) (c e : Cell) (post post' : List Cell)
      → b ≡ a + extent pre
      → ((q : ℕ) → q < b → m' q ≡ m q)
      → Tiles m a (pre ++ (c ∷ post)) stop 0
      → Tiles m' b (e ∷ post') stop 0
      → Tiles m' a (pre ++ (e ∷ post')) stop 0
  unfolding extent
  Tiles-replace a b [] c e post post' eb same t u =
      subst (λ x. Tiles m' x (e ∷ post') stop 0) (omega arith) u
  Tiles-replace a b (p ∷ []) c e post post' eb same t u =
      let k = same a (omega arith) in
      (
        rw k t.0,
        rw k t.1,
        rw k t.2,
        Tiles-replace (a + 12 + p.size) b [] c e post post' (omega arith) same t.3 u,
      )
  Tiles-replace a b (p ∷ p' ∷ pre) c e post post' eb same t u =
      let k = same a (omega arith) in
      (
        rw k t.0,
        rw k t.1,
        rw k t.2,
        Tiles-replace (a + 12 + p.size) b (p' ∷ pre) c e post post' (omega arith) same t.3 u,
      )

  pub Tiles-drop :
      (a b : ℕ) (pre cs : List Cell)
      → b ≡ a + extent pre
      → Tiles m a (pre ++ cs) stop 0
      → Tiles m b cs stop 0
  unfolding extent
  Tiles-drop a b [] cs eb t = subst (λ x. Tiles m x cs stop 0) (omega arith) t
  Tiles-drop a b (p ∷ pre) cs eb t = Tiles-drop (a + 12 + p.size) b pre cs (omega arith) t.3
