-- ===== src/Gui/Areas.antt =====
-- The close button and the title bar of a window, as areas of the screen.
use zenix.Prelude.{ap, ◌∙◌, arith, ℕ, ◌+◌, ◌-◌, ◌^◌, u32, ◌≤◌, ◌<◌, ◌≡◌, Bool, false, ◌&&◌, leb}
use zenix.Prelude.Int.{ℤ, pos, negsuc, to_int, to_int-small}
use zenix.Gui.{Window, between, on_close_button, on_title_bar}

-- The place on one axis lies from `lo` to `hi`.
abbrev pub lies : ℕ → ℤ → ℕ → Bool
lies lo (pos v) hi = leb lo v && leb v hi
lies lo (negsuc v) hi = false

-- The close button: 11 by 11 pixels, 20 from the right edge of the window and 7 below its top
abbrev pub on_close : Window → ℤ → ℤ → Bool
on_close win mx my =
    lies (win.x + win.width - 20) mx (win.x + win.width - 10) && lies (win.y + 7) my (win.y + 17)

-- The title bar: the width of the window, and 24 pixels down from its top
abbrev pub on_title : Window → ℤ → ℤ → Bool
on_title win mx my = lies win.x mx (win.x + win.width) && lies win.y my (win.y + 24)

-- The edges of a window that the tests look at are not negative and fit into int32_t.
abbrev pub IsPlaced : Window → Type 0
IsPlaced win = (20 ≤ win.x + win.width) × (win.x + win.width < 2 ^ 31) × (win.y + 24 < 2 ^ 31)

ap2_and : {a a' b b' : Bool} → a ≡ a' → b ≡ b' → (a && b) ≡ (a' && b')
ap2_and {a} {a'} {b} {b'} p q = ap (λ c. c && b) p ∙ ap (λ c. a' && c) q

between-lies : (lo hi : ℕ) (v : ℤ) → between (pos lo) v (pos hi) ≡ lies lo v hi
between-lies lo hi (pos v) = ground arith
between-lies lo hi (negsuc v) = ground arith

pub on_close_button-on_close :
    (win : Window) (mx my : ℤ) → IsPlaced win → on_close_button win mx my ≡ on_close win mx my
unfolding on_close_button
on_close_button-on_close win mx my p =
    let edge = win.x + win.width in
    let left : to_int (u32 (edge + (2 ^ 32 - 20))) ≡ pos (edge - 20) =
      ap to_int (omega (arith, p.0, p.1)) ∙ to_int-small (edge - 20) (omega (arith, p.1)) in
    let right : to_int (u32 (edge + (2 ^ 32 - 10))) ≡ pos (edge - 10) =
      ap to_int (omega (arith, p.0, p.1)) ∙ to_int-small (edge - 10) (omega (arith, p.1)) in
    let top : to_int (u32 (win.y + 7)) ≡ pos (win.y + 7) =
      ap to_int (omega (arith, p.2)) ∙ to_int-small (win.y + 7) (omega (arith, p.2)) in
    let bottom : to_int (u32 (win.y + 17)) ≡ pos (win.y + 17) =
      ap to_int (omega (arith, p.2)) ∙ to_int-small (win.y + 17) (omega (arith, p.2)) in
    rw (left, right, top, bottom)
      (ap2_and (between-lies (edge - 20) (edge - 10) mx) (between-lies (win.y + 7) (win.y + 17) my))

pub on_title_bar-on_title :
    (win : Window) (mx my : ℤ) → IsPlaced win → on_title_bar win mx my ≡ on_title win mx my
unfolding on_title_bar
on_title_bar-on_title win mx my p =
    let edge = win.x + win.width in
    let left : to_int win.x ≡ pos win.x = to_int-small win.x (omega (arith, p.1)) in
    let right : to_int (u32 edge) ≡ pos edge =
      ap to_int (omega (arith, p.1)) ∙ to_int-small edge (p.1) in
    let top : to_int win.y ≡ pos win.y = to_int-small win.y (omega (arith, p.2)) in
    let bottom : to_int (u32 (win.y + 24)) ≡ pos (win.y + 24) =
      ap to_int (omega (arith, p.2)) ∙ to_int-small (win.y + 24) (p.2) in
    rw (left, right, top, bottom)
      (ap2_and (between-lies win.x edge mx) (between-lies win.y (win.y + 24) my))
