-- ===== src/Heap/Rows.antt =====
-- Facts about rows of cells: the bytes that are handed out, joined free cells, and what first fit
-- does to them.
use zenix.Prelude.{
  ℕ, ◌+◌, ◌%◌, ◌≤◌, ◌<◌, ◌≡◌, refl, sym, subst, inl, inr, Bool, true, false, not, ◌&&◌, ◌||◌, some,
  List, [], ◌∷◌, arith, ltb, leb, ◌==◌,
}
use zenix.Heap.Cells.{Cell, extent, used_total}
use zenix.Heap.Fit.{Fit, place, shift, fits, fit, fit-cons}

-- The byte `x` lies in the `n` bytes from `p`.
abbrev pub inside : ℕ → ℕ → ℕ → Bool
inside p n x = leb p x && ltb x (p + n)

-- The byte at address `x` belongs to the payload of a used cell of the row at `a`.
unfoldable pub owned : ℕ → List Cell → ℕ → Bool
owned a [] x = false
owned a (c ∷ cs) x = (not (c.used == 0) && inside (a + 12) c.size x) || owned (a + 12 + c.size) cs x

-- No two neighbours are free.
abbrev pub Coalesced : List Cell → Type 0
Coalesced [] = Unit {0}
Coalesced (c ∷ []) = Unit {0}
Coalesced (c ∷ d ∷ cs) = ((c.used == 0 && d.used == 0) ≡ false) × Coalesced (d ∷ cs)

-- Every payload is a whole number of 32-bit words.
abbrev pub Aligned : List Cell → Type 0
Aligned [] = Unit {0}
Aligned (c ∷ cs) = (c.size % 4 ≡ 0) × Aligned cs

pub owned_before : (a : ℕ) (cs : List Cell) (x : ℕ) → x < a + 12 → owned a cs x ≡ false
unfolding owned
owned_before a [] x h = refl
owned_before a (c ∷ cs) x h = ground (arith, owned_before (a + 12 + c.size) cs x)

-- What an allocation of `size` bytes from the row `cs` at `a` grants.
pub record Grants (size a : ℕ) (cs : List Cell) (f : Fit) : Type 0 where
  pub enough : size ≤ f.got
  pub extent_same : extent f.cells ≡ extent cs
  pub used_more : used_total f.cells ≡ used_total cs + f.got
  pub within : f.offset + 12 + f.got ≤ extent cs
  pub was_free : (x : ℕ) → inside (a + f.offset + 12) f.got x ≡ true → owned a cs x ≡ false
  pub now_owned : (x : ℕ) → owned a f.cells x ≡ (inside (a + f.offset + 12) f.got x || owned a cs x)

place-Grants :
    (size a : ℕ) (c : Cell) (cs : List Cell)
    → fits size c ≡ true
    → Grants size a (c ∷ cs) (place size c cs)
unfolding place owned extent used_total
place-Grants size a c cs h = record {
  enough = ground arith;
  extent_same = ground arith;
  used_more = ground arith;
  within = ground arith;
  was_free = λ x i. ground (arith, owned_before (a + 12 + c.size) cs x);
  now_owned = λ x. ground (arith, owned_before (a + 12 + c.size) cs x);
}

shift-Grants :
    (size a : ℕ) (c : Cell) (cs : List Cell) (f : Fit)
    → Grants size (a + 12 + c.size) cs f
    → Grants size a (c ∷ cs) (shift c f)
unfolding owned extent used_total
shift-Grants size a c cs f g =
    let e : a + 12 + c.size + f.offset ≡ a + (12 + c.size + f.offset) = omega arith in
    record {
      enough = g.enough;
      extent_same = omega (arith, g.extent_same);
      used_more = omega (arith, g.used_more);
      within = omega (arith, g.within);
      was_free = λ x i. ground (arith, g.was_free x, e);
      now_owned = λ x. ground (arith, g.now_owned x, e);
    }

pub fit-Grants : (size a : ℕ) (cs : List Cell) (f : Fit) → fit size cs ≡ some f → Grants size a cs f
unfolding fit
fit-Grants size a [] f e = cc
fit-Grants size a (c ∷ cs) f e = elim (fit-cons size c cs f e) [
  | inl (hit, e') ↦ subst (Grants size a (c ∷ cs)) e' (place-Grants size a c cs hit)
  | inr (g, miss, h, e') ↦
      subst (Grants size a (c ∷ cs)) e'
        (shift-Grants size a c cs g (fit-Grants size (a + 12 + c.size) cs g h))
]

Coalesced-tail : (c : Cell) (cs : List Cell) → Coalesced (c ∷ cs) → Coalesced cs
Coalesced-tail c [] h = tt
Coalesced-tail c (d ∷ cs) h = h.1

place-Coalesced :
    (size : ℕ) (c : Cell) (cs : List Cell)
    → fits size c ≡ true
    → Coalesced (c ∷ cs)
    → Coalesced (place size c cs).cells
unfolding place
place-Coalesced size c [] h v = ground (arith, v)
place-Coalesced size c (d ∷ cs) h v = ground (arith, v.0, v.1)

-- The cell taken is used, so that it may stand behind a free cell.
cons-place-Coalesced :
    (size : ℕ) (b c : Cell) (cs : List Cell)
    → Coalesced (place size c cs).cells
    → Coalesced (b ∷ (place size c cs).cells)
unfolding place
cons-place-Coalesced size b c cs v = ground (arith, v)

pub fit-Coalesced :
    (size : ℕ) (cs : List Cell) (f : Fit) → fit size cs ≡ some f → Coalesced cs → Coalesced f.cells
fit-Coalesced size [] f e v = unfold fit in cc
fit-Coalesced size (c ∷ []) f e v = elim (fit-cons size c [] f e) [
  | inl (hit, e') ↦ subst (λ (f : Fit). Coalesced f.cells) e' (place-Coalesced size c [] hit v)
  | inr (g, miss, h, e') ↦ unfold fit in cc
]
fit-Coalesced size (c ∷ d ∷ cs) f e v = elim (fit-cons size c (d ∷ cs) f e) [
  | inl (hit, e') ↦
      subst (λ (f : Fit). Coalesced f.cells) e' (place-Coalesced size c (d ∷ cs) hit v)
  | inr (g, miss, h, e') ↦
      subst (λ (f : Fit). Coalesced f.cells) e'
        (elim (fit-cons size d cs g h) [
          | inl (hit, e3) ↦
              subst (λ (g : Fit). Coalesced (c ∷ g.cells)) e3
                (cons-place-Coalesced size c d cs (place-Coalesced size d cs hit v.1))
          | inr (k, miss', h', e3) ↦
              subst (λ (g : Fit). Coalesced (c ∷ g.cells)) e3
                (
                  v.0,
                  subst (λ (g : Fit). Coalesced g.cells) (sym e3)
                      (fit-Coalesced size (d ∷ cs) g h v.1),
                )
        ])
]

place-Aligned :
    (size : ℕ) (c : Cell) (cs : List Cell)
    → size % 4 ≡ 0
    → fits size c ≡ true
    → Aligned (c ∷ cs)
    → Aligned (place size c cs).cells × ((place size c cs).offset % 4 ≡ 0)
unfolding place
place-Aligned size c cs e h v = ground (arith, v.0, v.1)

pub fit-Aligned :
    (size : ℕ) (cs : List Cell) (f : Fit)
    → size % 4 ≡ 0
    → fit size cs ≡ some f
    → Aligned cs
    → Aligned f.cells × (f.offset % 4 ≡ 0)
fit-Aligned size [] f m e v = unfold fit in cc
fit-Aligned size (c ∷ cs) f m e v = elim (fit-cons size c cs f e) [
  | inl (hit, e') ↦
      subst (λ (f : Fit). Aligned f.cells × (f.offset % 4 ≡ 0)) e' (place-Aligned size c cs m hit v)
  | inr (g, miss, h, e') ↦
      let rest = fit-Aligned size cs g m h v.1 in
      subst (λ (f : Fit). Aligned f.cells × (f.offset % 4 ≡ 0)) e'
        ((v.0, rest.0), omega (arith, rest.1, v.0))
]
