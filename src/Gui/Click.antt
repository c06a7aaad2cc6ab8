-- ===== src/Gui/Click.antt =====
-- Which window a click of the mouse is for.
use zenix.Prelude.{
  ◌∙◌, length, arith, ℕ, zero, suc, ◌≤◌, ◌<◌, ◌≡◌, refl, sym, subst, inl, inr, Bool, true, false,
  not, ◌&&◌, ◌||◌, leb, ◌==◌, ==_iff, Bool-cases,
}
use zenix.Prelude.Int.{ℤ}
use zenix.Gui.{Gui, window_at, gui_close_window, click_windows}
use zenix.Gui.Areas.{on_close, on_title, IsPlaced, on_close_button-on_close, on_title_bar-on_title}
use zenix.Gui.Effects.{Hides, Grabs, hide-Hides, grab-Grabs}

-- The window is shown, and the place is on its close button or its title bar.
abbrev pub hits : Gui → ℤ → ℤ → ℕ → Bool
hits s mx my i =
    not ((window_at s i).visible == 0)
    && (on_close (window_at s i) mx my || on_title (window_at s i) mx my)

-- What a click does to the first `left` windows: the topmost window that it hits takes it, which is the one
-- made last.
pub data Click (s : Gui) (mx my : ℤ) (left : ℕ) : Gui → Type 0 where
  missed : ((j : ℕ) → j < left → hits s mx my j ≡ false) → Click s mx my left s
  closes :
      (i : ℕ)
      → i < left
      → hits s mx my i ≡ true
      → on_close (window_at s i) mx my ≡ true
      → ((j : ℕ) → i < j → j < left → hits s mx my j ≡ false)
      → (s' : Gui) → Hides s i s'
      → Click s mx my left s'
  grabs :
      (i : ℕ)
      → i < left
      → hits s mx my i ≡ true
      → on_close (window_at s i) mx my ≡ false
      → ((j : ℕ) → i < j → j < left → hits s mx my j ≡ false)
      → (s' : Gui) → Grabs s mx my i s'
      → Click s mx my left s'

below_or_last :
    (s : Gui) (mx my : ℤ) (i j : ℕ)
    → hits s mx my i ≡ false
    → (j < i → hits s mx my j ≡ false)
    → j < suc i
    → hits s mx my j ≡ false
below_or_last s mx my i j last below h = elim (Bool-cases (j == i)) [
  | inl e ↦ subst (λ k. hits s mx my k ≡ false) (sym ((==_iff j i).0 e)) last
  | inr e ↦ below (ground (arith, e, h))
]

Click-later :
    (s : Gui) (mx my : ℤ) (i : ℕ) (r : Gui)
    → hits s mx my i ≡ false
    → Click s mx my i r
    → Click s mx my (suc i) r
Click-later s mx my i _ last (missed m) = missed (λ j h. below_or_last s mx my i j last (m j) h)
Click-later s mx my i _ last (closes k lt hit on above s' hides) =
    closes k (omega arith) hit on (λ j kj h. below_or_last s mx my i j last (above j kj) h) s' hides
Click-later s mx my i _ last (grabs k lt hit off above s' held) =
    grabs k (omega arith) hit off (λ j kj h. below_or_last s mx my i j last (above j kj) h) s' held

-- A click in the part of the screen without the launcher, with no more windows than the table has slots, and edges of
-- the windows that are not negative and fit into int32_t: if none of the first `left` windows that is shown has the place on its close button or its title bar, nothing changes;
-- otherwise the one of them made last takes the click. If the place is on its close button, its `visible` becomes 0
-- and nothing else changes. Otherwise its `active` becomes 1 and that of all other windows 0, it becomes the
-- window that is dragged, the offset is the place of the mouse from its corner, and nothing else changes.
pub click_windows_lem :
    (left : ℕ) (s : Gui) (mx my : ℤ)
    → left ≤ s.window_count
    → s.window_count ≤ length s.windows
    → ((j : ℕ) → j < s.window_count → IsPlaced (window_at s j))
    → Click s mx my left (click_windows left s mx my)
unfolding click_windows gui_close_window
click_windows_lem zero s mx my h room placed = missed (λ j lt. elim lt [ ])
click_windows_lem (suc i) s mx my h room placed =
    let rest = click_windows_lem i s mx my (omega arith) room placed in
    let win = window_at s i in
    let close = on_close_button-on_close win mx my (placed i (omega (arith, h))) in
    let title = on_title_bar-on_title win mx my (placed i (omega (arith, h))) in
    let inside : leb s.window_count i ≡ false = ground (arith, h) in
    elim (Bool-cases (win.visible == 0)) [
      | inl a ↦ rw (a, click_windows) (Click-later s mx my i _ (rw a refl) rest)
      | inr a ↦ elim (Bool-cases (on_close win mx my)) [
        | inl b ↦
            rw (a, click_windows)
              (rw (close ∙ b) (
                rw inside (
                  closes i (omega arith) (rw a (rw b refl)) b (λ j ij jl. absurd (omega arith)) _
                    (hide-Hides s i (omega (arith, h, room))))))
        | inr b ↦ elim (Bool-cases (on_title win mx my)) [
          | inl c ↦
              rw (a, click_windows)
                (rw (close ∙ b) (
                  rw (title ∙ c) (
                    grabs i (omega arith) (rw a (rw b c)) b (λ j ij jl. absurd (omega arith)) _
                      (grab-Grabs s mx my i (omega (arith, h)) room))))
          | inr c ↦
              rw (a, click_windows)
                (rw (close ∙ b) (rw (title ∙ c) (Click-later s mx my i _ (rw a (rw b c)) rest)))
        ]
      ]
    ]
