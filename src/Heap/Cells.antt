-- ===== src/Heap/Cells.antt =====
-- What the linked list of the heap stands for: a row of cells that tile an address range.
use zenix.Prelude.{
  ℕ, ◌+◌, ◌*◌, ◌≤◌, ◌<◌, ◌≡◌, sym, subst, List, [], ◌∷◌, ◌++◌, arith, ◌==◌, if◌then◌else◌, length,
}
use zenix.Heap.{HeapBlock}

-- A block as the list of blocks sees it: its payload size, and whether it is used (1) or free (0).
pub record Cell : Type 0 where
  pub size : ℕ
  pub used : ℕ

-- The bytes of a row of cells, headers included.
unfoldable pub extent : List Cell → ℕ
extent [] = 0
extent (c ∷ cs) = 12 + c.size + extent cs

-- The payload bytes of the used cells.
unfoldable pub used_total : List Cell → ℕ
used_total [] = 0
used_total (c ∷ cs) = (if c.used == 0 then 0 else c.size) + used_total cs

-- The pointer to a row of cells at `a`, where an empty row is `tail`.
abbrev pub link : ℕ → List Cell → ℕ → ℕ
link a [] tail = tail
link a (c ∷ cs) tail = a

-- From `a` the headers in memory describe the cells, one right behind another up to `stop`, and the
-- last one points to `tail`.
abbrev pub Tiles : (ℕ → HeapBlock) → ℕ → List Cell → ℕ → ℕ → Type 0
Tiles m a [] stop tail = a ≡ stop
Tiles m a (c ∷ cs) stop tail =
    ((m a).size ≡ c.size)
    × ((m a).used ≡ c.used)
    × ((m a).next ≡ link (a + 12 + c.size) cs tail)
    × Tiles m (a + 12 + c.size) cs stop tail

pub extent_pos : (c : Cell) (cs : List Cell) → 0 < extent (c ∷ cs)
unfolding extent
extent_pos c cs = omega arith

module _ (m : ℕ → HeapBlock) (stop tail : ℕ) where
  pub extent-Tiles : (a : ℕ) (cs : List Cell) → Tiles m a cs stop tail → a + extent cs ≡ stop
  unfolding extent
  extent-Tiles a [] t = omega (arith, t)
  extent-Tiles a (c ∷ cs) t = omega (arith, extent-Tiles (a + 12 + c.size) cs t.3)

  -- Memory that is the same from `a` on describes the same cells.
  pub Tiles-frame :
      (m' : ℕ → HeapBlock) (a : ℕ) (cs : List Cell)
      → ((q : ℕ) → a ≤ q → q < stop → m' q ≡ m q)
      → Tiles m a cs stop tail
      → Tiles m' a cs stop tail
  Tiles-frame m' a [] same t = t
  Tiles-frame m' a (c ∷ cs) same t =
      let e = same a (omega arith) (omega (arith, extent-Tiles a (c ∷ cs) t, extent_pos c cs)) in
      (
        rw e t.0,
        rw e t.1,
        rw e t.2,
        Tiles-frame m' (a + 12 + c.size) cs (λ q lo hi. same q (omega arith) hi) t.3,
      )

  pub Tiles-append :
      (mid a : ℕ) (pre cs : List Cell)
      → Tiles m a pre mid (link mid cs tail)
      → Tiles m mid cs stop tail
      → Tiles m a (pre ++ cs) stop tail
  Tiles-append mid a [] cs t u = subst (λ x. Tiles m x cs stop tail) (sym t) u
  Tiles-append mid a (c ∷ []) cs t u =
      (t.0, t.1, ground (arith, t), Tiles-append mid (a + 12 + c.size) [] cs t.3 u)
  Tiles-append mid a (c ∷ d ∷ pre) cs t u =
      (t.0, t.1, t.2, Tiles-append mid (a + 12 + c.size) (d ∷ pre) cs t.3 u)

pub extent-append : (pre cs : List Cell) → extent (pre ++ cs) ≡ extent pre + extent cs
unfolding extent
extent-append [] cs = omega arith
extent-append (c ∷ pre) cs = omega (arith, extent-append pre cs)

pub used_total-append :
    (pre cs : List Cell) → used_total (pre ++ cs) ≡ used_total pre + used_total cs
unfolding used_total
used_total-append [] cs = omega arith
used_total-append (c ∷ pre) cs = omega (arith, used_total-append pre cs)

pub used_total-le : (cs : List Cell) → used_total cs ≤ extent cs
unfolding used_total extent
used_total-le [] = omega arith
used_total-le (c ∷ cs) = ground (arith, used_total-le cs)

pub length-le-extent : (cs : List Cell) → 12 * length cs ≤ extent cs
unfolding extent
length-le-extent [] = omega arith
length-le-extent (c ∷ cs) = omega (arith, length-le-extent cs)
