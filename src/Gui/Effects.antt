-- ===== src/Gui/Effects.antt =====
-- What hiding and grabbing a window change.
use zenix.Prelude.{
  some, List, [], ◌∷◌, ap, ◌∙◌, ◌≢◌, length, get_or, length-set, get_or-set_self, get_or-set_ne,
  arith, ℕ, zero, suc, ◌≤◌, ◌<◌, ◌≡◌, refl, sym,
}
use zenix.Prelude.Int.{ℤ, pos, ◌-ℤ◌, to_int, to_uint}
use zenix.Gui.{Window, Gui, no_window, window_at, deactivate, hide, grab}

-- Window `i` is hidden, and nothing else has changed.
pub record Hides (s : Gui) (i : ℕ) (s' : Gui) : Type 0 where
  pub hidden : window_at s' i ≡ record (window_at s i) { visible = 0 }
  pub others : (j : ℕ) → j ≢ i → window_at s' j ≡ window_at s j
  pub all : length s'.windows ≡ length s.windows
  pub rest : s' ≡ record s { windows = s'.windows }

-- Window `i` is the active one and follows the mouse, which holds it at the place that the mouse has in it.
pub record Grabs (s : Gui) (mx my : ℤ) (i : ℕ) (s' : Gui) : Type 0 where
  pub active : window_at s' i ≡ record (window_at s i) { active = 1 }
  pub inactive :
      (j : ℕ) → j ≢ i → j < s.window_count → window_at s' j ≡ record (window_at s j) { active = 0 }
  pub unused : (j : ℕ) → s.window_count ≤ j → window_at s' j ≡ window_at s j
  pub all : length s'.windows ≡ length s.windows
  pub dragged : s'.dragging_window ≡ some i
  pub held_x : s'.drag_offset_x ≡ to_int (to_uint (mx -ℤ pos ((window_at s i).x)))
  pub held_y : s'.drag_offset_y ≡ to_int (to_uint (my -ℤ pos ((window_at s i).y)))
  pub rest : s' ≡ record s {
    windows = s'.windows;
    dragging_window = s'.dragging_window;
    drag_offset_x = s'.drag_offset_x;
    drag_offset_y = s'.drag_offset_y;
  }

pub hide-Hides : (s : Gui) (i : ℕ) → i < length s.windows → Hides s i (hide s i)
unfolding hide
hide-Hides s i h = record {
  hidden = get_or-set_self s.windows i (record (window_at s i) { visible = 0 }) no_window h;
  others = λ j ne.
      get_or-set_ne s.windows i j (record (window_at s i) { visible = 0 }) no_window
        (λ e. ne (sym e));
  all = length-set s.windows i (record (window_at s i) { visible = 0 });
  rest = refl;
}

length-deactivate : (ws : List Window) (left : ℕ) → length (deactivate ws left) ≡ length ws
unfolding deactivate
length-deactivate [] left = refl
length-deactivate (w ∷ ws) zero = refl
length-deactivate (w ∷ ws) (suc left) = ap suc (length-deactivate ws left)

deactivate-below :
    (ws : List Window) (left j : ℕ)
    → j < left
    → get_or (deactivate ws left) j no_window ≡ record (get_or ws j no_window) { active = 0 }
unfolding deactivate
deactivate-below [] left j h = refl
deactivate-below (w ∷ ws) zero j h = elim h [ ]
deactivate-below (w ∷ ws) (suc left) zero h = refl
deactivate-below (w ∷ ws) (suc left) (suc j) h = deactivate-below ws left j (omega (arith, h))

deactivate-behind :
    (ws : List Window) (left j : ℕ)
    → left ≤ j
    → get_or (deactivate ws left) j no_window ≡ get_or ws j no_window
unfolding deactivate
deactivate-behind [] left j h = refl
deactivate-behind (w ∷ ws) zero j h = refl
deactivate-behind (w ∷ ws) (suc left) zero h = absurd (omega (arith, h))
deactivate-behind (w ∷ ws) (suc left) (suc j) h = deactivate-behind ws left j (omega (arith, h))

pub grab-Grabs :
    (s : Gui) (mx my : ℤ) (i : ℕ)
    → i < s.window_count
    → s.window_count ≤ length s.windows
    → Grabs s mx my i (grab s i mx my)
unfolding grab
grab-Grabs s mx my i h room =
    let windows = deactivate s.windows s.window_count in
    let win = get_or windows i no_window in
    let off : win ≡ record (window_at s i) { active = 0 } =
      deactivate-below s.windows s.window_count i h in
    let kept : (j : ℕ) → j ≢ i → window_at (grab s i mx my) j ≡ get_or windows j no_window =
      λ j ne. get_or-set_ne windows i j (record win { active = 1 }) no_window (λ e. ne (sym e)) in
    record {
      active =
          get_or-set_self windows i (record win { active = 1 }) no_window
            (omega (arith, h, room, length-deactivate s.windows s.window_count))
          ∙ ap (λ (w : Window). record w { active = 1 }) off;
      inactive = λ j ne below. kept j ne ∙ deactivate-below s.windows s.window_count j below;
      unused = λ j behind.
          kept j (λ e. absurd (omega (arith, e, behind, h)))
          ∙ deactivate-behind s.windows s.window_count j behind;
      all =
          length-set windows i (record win { active = 1 })
          ∙ length-deactivate s.windows s.window_count;
      dragged = refl;
      held_x = ap (λ (w : Window). to_int (to_uint (mx -ℤ pos w.x))) off;
      held_y = ap (λ (w : Window). to_int (to_uint (my -ℤ pos w.y))) off;
      rest = refl;
    }
