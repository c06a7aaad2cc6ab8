-- ===== src/Heap/Fit.antt =====
-- First fit on a row of cells, and the proof that the loop of `kmalloc` computes it in memory.
use zenix.Prelude.{
  ℕ, zero, suc, ◌+◌, ◌-◌, ◌^◌, ◌≤◌, ◌<◌, ◌≡◌, refl, sym, subst, ◌∙◌, ◌≢◌, ◌⊎◌, inl, inr, Bool, true,
  false, ◌&&◌, Option, none, some, List, [], ◌∷◌, arith, ltb, leb, ◌==◌, if◌then◌else◌, ltb→lt,
  ltb→ge, Bool-cases, length, u32,
}
use mathlib.Core.Option
use zenix.Heap.{Heap, claim, find_fit}
use zenix.Heap.Cells.{Cell, link, Tiles, extent-Tiles, Tiles-frame}

-- What an allocation does to a row: where the cell taken starts, its size, and the row after it.
pub record Fit : Type 0 where
  pub offset : ℕ
  pub got : ℕ
  pub cells : List Cell

abbrev pub cell : ℕ → ℕ → Cell
cell size used = record { size = size; used = used }

-- The cell `c`, in front of `cs`, taken for `size` bytes: the rest is split off if it is large.
unfoldable pub place : ℕ → Cell → List Cell → Fit
place size c cs =
    if ltb (size + 16) c.size
    then record { offset = 0; got = size; cells = cell size 1 ∷ cell (c.size - size - 12) 0 ∷ cs }
    else record { offset = 0; got = c.size; cells = cell c.size 1 ∷ cs }

abbrev pub shift : Cell → Fit → Fit
shift c f = record { offset = 12 + c.size + f.offset; got = f.got; cells = c ∷ f.cells }

abbrev pub fits : ℕ → Cell → Bool
fits size c = c.used == 0 && leb size c.size

-- First fit.
unfoldable pub fit : ℕ → List Cell → Option Fit
fit size [] = none
fit size (c ∷ cs) =
    if fits size c then some (place size c cs) else Option.map (shift c) (fit size cs)

-- A row that serves a request does so by its first cell or behind it.
pub fit-cons :
    (size : ℕ) (c : Cell) (cs : List Cell) (f : Fit)
    → fit size (c ∷ cs) ≡ some f
    → ((fits size c ≡ true) × (place size c cs ≡ f))
      ⊎ ((g : Fit) × (fits size c ≡ false) × (fit size cs ≡ some g) × (shift c g ≡ f))
unfolding fit
fit-cons size c cs f e = elim (Bool-cases (fits size c)) [
  | inl hit ↦ let e' : some (place size c cs) ≡ some f = rw hit at e in inl (hit, cc)
  | inr miss ↦ behind miss (fit size cs) refl (rw miss at e)
]
  where
    behind :
        fits size c ≡ false
        → (o : Option Fit) → fit size cs ≡ o
        → Option.map (shift c) o ≡ some f
        → ((fits size c ≡ true) × (place size c cs ≡ f))
          ⊎ ((g : Fit) × (fits size c ≡ false) × (fit size cs ≡ some g) × (shift c g ≡ f))
    behind miss none h e = cc
    behind miss (some g) h e = inr (g, miss, h, cc)

-- What the loop of `kmalloc`, started at `a`, answers and leaves in memory.
pub data Finds (s : Heap) (a stop : ℕ) : Option Fit → Option (ℕ × Heap) → Type 0 where
  refuses : Finds s a stop none (some (0, s))
  claims :
      (f : Fit) (p : ℕ) (s' : Heap)
      → p ≡ a + f.offset + 12
      → Tiles s'.block a f.cells stop 0
      → s'.heap_used ≡ u32 (s.heap_used + f.got)
      → s'.heap_start ≡ s.heap_start
      → ((q : ℕ) → q < a → s'.block q ≡ s.block q)
      → Finds s a stop (some f) (some (p, s'))

module _ (s : Heap) (a stop size : ℕ) (c : Cell) (cs : List Cell) (small : stop < 2 ^ 31)
    (t : Tiles s.block a (c ∷ cs) stop 0) (room : size ≤ c.size) where
  bound : a + 12 + c.size ≤ stop
  bound = omega (arith, extent-Tiles s.block stop 0 (a + 12 + c.size) cs t.3)

  module _ (large : size + 16 < c.size) where
    split_head : (claim s a size).block a ≡ record { size = size; used = 1; next = a + 12 + size }
    unfolding claim
    split_head = ground (arith, bound, t.0)

    split_rest :
        (claim s a size).block (a + 12 + size)
        ≡ record { size = c.size - size - 12; used = 0; next = (s.block a).next }
    unfolding claim
    split_rest = ground (arith, bound, t.0)

    split_same : (q : ℕ) → a + 12 + c.size ≤ q → (claim s a size).block q ≡ s.block q
    unfolding claim
    split_same q h = ground (arith, bound, t.0)

    claim_large :
        Tiles (claim s a size).block a (cell size 1 ∷ cell (c.size - size - 12) 0 ∷ cs) stop 0
    claim_large =
        let e : a + 12 + size + 12 + (c.size - size - 12) ≡ a + 12 + c.size = omega arith in
        rw (split_head, split_rest, e)
          (
            refl,
            refl,
            refl,
            (
              refl,
              refl,
              t.2,
              Tiles-frame s.block stop 0 (claim s a size).block (a + 12 + c.size) cs
                  (λ q lo hi. split_same q lo) t.3,
            ),
          )

  module _ (tight : c.size ≤ size + 16) where
    whole_head :
        (claim s a size).block a ≡ record { size = c.size; used = 1; next = (s.block a).next }
    unfolding claim
    whole_head = ground (arith, bound, t.0)

    whole_same : (q : ℕ) → q ≢ a → (claim s a size).block q ≡ s.block q
    unfolding claim
    whole_same q h = ground (arith, bound, t.0)

    claim_tight : Tiles (claim s a size).block a (cell c.size 1 ∷ cs) stop 0
    claim_tight = rw whole_head (
      refl,
      refl,
      t.2,
      Tiles-frame s.block stop 0 (claim s a size).block (a + 12 + c.size) cs
          (λ q lo hi. whole_same q (omega arith)) t.3,
    )

  claim-Tiles : Tiles (claim s a size).block a (place size c cs).cells stop 0
  unfolding place
  claim-Tiles = elim (Bool-cases (ltb (size + 16) c.size)) [
    | inl large ↦ rw large (claim_large (ltb→lt _ _ large))
    | inr tight ↦ rw tight (claim_tight (ltb→ge _ _ tight))
  ]

  claim-used : (claim s a size).heap_used ≡ u32 (s.heap_used + (place size c cs).got)
  unfolding claim place
  claim-used = ground (arith, bound, t.0)

  claim-start : (claim s a size).heap_start ≡ s.heap_start
  unfolding claim
  claim-start = ground arith

  claim_before : (q : ℕ) → q < a → (claim s a size).block q ≡ s.block q
  unfolding claim
  claim_before q h = ground (arith, bound)

offset-place : (size : ℕ) (c : Cell) (cs : List Cell) → (place size c cs).offset ≡ 0
unfolding place
offset-place size c cs = ground arith

-- A cell in front of the row is passed by.
claims_behind :
    {s : Heap} {a stop : ℕ} (c : Cell) {o : Option Fit} {r : Option (ℕ × Heap)}
    → stop < 2 ^ 31
    → (s.block a).size ≡ c.size
    → (s.block a).used ≡ c.used
    → ((f : Fit) → o ≡ some f → (s.block a).next ≡ link (a + 12 + c.size) f.cells 0)
    → Finds s (a + 12 + c.size) stop o r
    → Finds s a stop (Option.map (shift c) o) r
claims_behind c small hs hu hn refuses = refuses
claims_behind {s} {a} {stop} c small hs hu hn (claims f p s' e t used start same) =
    let b = same a (omega arith) in
    claims (shift c f) p s' (omega arith) (rw b hs, rw b hu, rw b (hn f refl), t) used start
      (λ q h. same q (omega arith))

link-place : (size a : ℕ) (c : Cell) (cs : List Cell) → link a (place size c cs).cells 0 ≡ a
unfolding place
link-place size a c cs = elim (Bool-cases (ltb (size + 16) c.size)) [
  | inl large ↦ rw large refl
  | inr tight ↦ rw tight refl
]

-- The row that an allocation leaves starts where the old one did.
fit-link :
    (size a : ℕ) (cs : List Cell) (f : Fit) → fit size cs ≡ some f → link a cs 0 ≡ link a f.cells 0
unfolding fit
fit-link size a [] f e = cc
fit-link size a (c ∷ cs) f e = elim (fit-cons size c cs f e) [
  | inl (hit, e') ↦ subst (λ (h : Fit). a ≡ link a h.cells 0) e' (sym (link-place size a c cs))
  | inr (g, miss, h, e') ↦ subst (λ (h : Fit). a ≡ link a h.cells 0) e' refl
]

module _ (fuel size a : ℕ) (s : Heap) (c : Cell) (pos : 0 < a) (hs : (s.block a).size ≡ c.size)
    (hu : (s.block a).used ≡ c.used) where
  find_fit_hit :
      a + 12 < 2 ^ 32
      → fits size c ≡ true
      → find_fit (suc fuel) size a s ≡ some (a + 12, claim s a size)
  unfolding find_fit
  find_fit_hit h hit = ground arith

  find_fit_miss :
      fits size c ≡ false → find_fit (suc fuel) size a s ≡ find_fit fuel size (s.block a).next s
  unfolding find_fit
  find_fit_miss miss = ground arith

-- The loop of `kmalloc` over a row of cells computes first fit, if it has more rounds than the row
-- has cells.
pub find_fit-Finds :
    (fuel size a stop : ℕ) (s : Heap) (cs : List Cell)
    → stop < 2 ^ 31
    → 0 < a
    → length cs < fuel
    → Tiles s.block a cs stop 0
    → Finds s a stop (fit size cs) (find_fit fuel size (link a cs 0) s)
unfolding fit
find_fit-Finds zero size a stop s cs small pos enough t = elim enough [ ]
find_fit-Finds (suc fuel) size a stop s [] small pos enough t = unfold find_fit in refuses
find_fit-Finds (suc fuel) size a stop s (c ∷ cs) small pos enough t =
    elim (Bool-cases (fits size c)) [
      | inl hit ↦
          let room : size ≤ c.size = ground arith in
          let low = bound s a stop size c cs small t room in
          rw (hit, find_fit_hit fuel size a s c pos t.0 t.1 (omega (arith, low)) hit)
            (claims (place size c cs) (a + 12) (claim s a size)
              (omega (arith, offset-place size c cs)) (claim-Tiles s a stop size c cs small t room)
              (claim-used s a stop size c cs small t room)
              (claim-start s a stop size c cs small t room)
              (claim_before s a stop size c cs small t room))
      | inr miss ↦
          rw (miss, find_fit_miss fuel size a s c pos t.0 t.1 miss, t.2)
            (claims_behind c small t.0 t.1 (λ f e. t.2 ∙ fit-link size (a + 12 + c.size) cs f e)
              (find_fit-Finds fuel size (a + 12 + c.size) stop s cs small (omega arith)
                (omega arith) t.3))
    ]
