-- ===== src/Calculator/Drag.antt =====
-- Where the mouse can drag the calculator: `drag` of Calculator.Window.
use zenix.Prelude.{ℕ, ◌+◌, ◌-◌, ◌^◌, ◌≤◌, ◌<◌, ◌≡◌, ap, ◌∙◌, ◌⊎◌, inl, inr, arith, leb, Bool-cases}
use zenix.Prelude.Int.{ℤ, pos, negsuc, ◌-ℤ◌, to_uint, to_int, to_int-small}
use zenix.Calculator.{Calculator}
use zenix.Calculator.Window.{keep, drag}

keep-fits :
    (size limit : ℕ) (v : ℤ)
    → size ≤ limit
    → limit < 2 ^ 16
    → to_uint (keep size (pos limit) v) + size ≤ limit
unfolding keep to_uint to_int
keep-fits size limit (pos n) hs hl = ground arith
keep-fits size limit (negsuc n) hs hl = ground arith

-- A limit below the size
keep-short :
    (size limit : ℕ) (v : ℤ)
    → limit < size
    → size < 2 ^ 16
    → to_uint (keep size (pos limit) v) ≡ 2 ^ 32 - (size - limit)
unfolding keep to_uint to_int
keep-short size limit (pos n) hs hl = ground arith
keep-short size limit (negsuc n) hs hl = ground arith

module _ {Double : Type 0} where
  -- The window of the calculator, dragged on a screen that has the 24 rows of the taskbar, and is at least as wide as the
  -- window. If the screen has room for the window above the taskbar, the window ends on the screen to the right and
  -- above the taskbar. If it has not, the window always ends above the screen, its y being the number of rows
  -- that are missing below 2^32, wherever the mouse is.
  pub drag_lem :
      (width height : ℕ) (calc : Calculator Double) (mx my : ℤ)
      → width < 2 ^ 16
      → height < 2 ^ 16
      → 24 ≤ height
      → calc.width ≤ width
      → calc.height < 2 ^ 16
      → ((drag width height calc mx my).x + calc.width ≤ width)
        × (((calc.height + 24 ≤ height)
              × ((drag width height calc mx my).y + calc.height + 24 ≤ height))
            ⊎ ((height < calc.height + 24)
                × ((drag width height calc mx my).y ≡ 2 ^ 32 - (calc.height + 24 - height))))
  unfolding drag
  drag_lem width height calc mx my hw hh taskbar fits hc =
      let room : to_int height -ℤ pos 24 ≡ pos (height - 24) =
        ap (λ z. z -ℤ pos 24) (to_int-small height (omega (arith, hh))) ∙ ground (arith, taskbar) in
      let right : to_int width ≡ pos width = to_int-small width (omega (arith, hw)) in
      rw (room, right)
        (
          keep-fits calc.width width (mx -ℤ calc.drag_offset_x) fits hw,
          elim (Bool-cases (leb (calc.height + 24) height)) [
            | inl x ↦
                let k =
                  keep-fits calc.height (height - 24) (my -ℤ calc.drag_offset_y) (ground (arith, x))
                    (omega (arith, hh)) in
                inl (ground (arith, x), omega (arith, k, taskbar))
            | inr x ↦
                let h : height < calc.height + 24 = ground (arith, x) in
                inr (
                  h,
                  keep-short calc.height (height - 24) (my -ℤ calc.drag_offset_y)
                        (omega (arith, h, taskbar)) hc
                      ∙ omega (arith, taskbar, h),
                )
          ],
        )
