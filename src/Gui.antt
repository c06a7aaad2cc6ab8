-- ===== src/Gui.antt =====
-- The windows, kernel/gui/gui.c: the list of windows and what the mouse does to it. The size of the screen is given by
-- the parameters `width` and `height`, which vga_get_width and vga_get_height return. The place of the mouse is not
-- negative, as the mouse driver keeps it (see Mouse.Packets). What is drawn is left out.
pub mod Areas
pub mod Effects
pub mod Click
pub mod Drag
mod Tests
use zenix.Prelude.{
  ℕ, zero, suc, ◌+◌, ◌-◌, ◌*◌, ◌/◌, ◌%◌, ◌^◌, ◌≤◌, ◌<◌, min, max, bit_and, bit_or, ◌≡◌, refl, sym,
  ap, subst, ◌∙◌, fun_ext, ◌≢◌, ◌↔◌, ◌⊎◌, inl, inr, Bool, true, false, not, ◌&&◌, ◌||◌, Option,
  none, some, List, [], ◌∷◌, ◌++◌, map, arith, ltb, leb, ◌==◌, if◌then◌else◌, ltb→lt, ltb→ge,
  lt→ltb, ==_iff, ==_refl, Bool-cases, Option-cases, length, get_elem?, get_or, set, take, drop,
  replicate, length-append, length-set, length-replicate, get_or-replicate, get_or-set_self,
  get_or-set_ne, length-take, take-append-drop, u8, u16, u32, sub32,
}
use zenix.Prelude.Int.{ℤ, pos, negsuc, ◌+ℤ◌, ◌-ℤ◌, ltb_ℤ, to_uint, to_int}
use zenix.Apps.{Apps, app_calculator, app_launch, app_manager_init, app_manager_update}

pub record Window : Type 0 where
  pub x : ℕ
  pub y : ℕ
  pub width : ℕ
  pub height : ℕ
  pub color : ℕ
  pub border_color : ℕ
  pub title : List ℕ
  pub visible : ℕ
  pub active : ℕ

-- The globals of gui.c, the static variable of `gui_update`, and the applications. A `dragging_window` of -1 is none.
pub record Gui : Type 0 where
  pub windows : List Window
  pub window_count : ℕ
  pub dragging_window : Option ℕ
  pub drag_offset_x : ℤ
  pub drag_offset_y : ℤ
  pub last_buttons : ℕ
  pub apps : Apps

abbrev pub no_window : Window
no_window = record {
  x = 0;
  y = 0;
  width = 0;
  height = 0;
  color = 0;
  border_color = 0;
  title = [];
  visible = 0;
  active = 0;
}

abbrev pub window_at : Gui → ℕ → Window
window_at s i = get_or s.windows i no_window

-- The loop of `gui_init`
unfoldable pub hide_windows : List Window → List Window
hide_windows [] = []
hide_windows (w ∷ ws) = record w { visible = 0; active = 0 } ∷ hide_windows ws

-- `gui_init` also starts the calculator, which is no part of this state.
unfoldable pub gui_init : Gui → Gui
gui_init s = record s { windows = hide_windows s.windows; apps = app_manager_init s.apps }

unfoldable pub gui_create_window : ℕ → ℕ → ℕ → ℕ → List ℕ → ℕ → Gui → ℤ × Gui
gui_create_window x y width height title color s =
    if leb 16 s.window_count then (negsuc 0, s) else (
      pos s.window_count,
      record s {
        windows = set s.windows s.window_count (record {
          x = x;
          y = y;
          width = width;
          height = height;
          color = color;
          border_color = 0x08;
          title = take 63 title;
          visible = 1;
          active = 0;
        });
        window_count = s.window_count + 1;
      },
    )

-- The slot of a window that `id` names
unfoldable pub hide : Gui → ℕ → Gui
hide s i = record s { windows = set s.windows i (record (window_at s i) { visible = 0 }) }

unfoldable pub gui_close_window : ℤ → Gui → Gui
gui_close_window (negsuc n) s = s
gui_close_window (pos i) s = if leb s.window_count i then s else hide s i

-- lo <= v and v <= hi
abbrev pub between : ℤ → ℤ → ℤ → Bool
between lo v hi = not (ltb_ℤ v lo) && not (ltb_ℤ hi v)

-- The sums are of uint32_t, and are then read as int32_t.
unfoldable pub on_close_button : Window → ℤ → ℤ → Bool
on_close_button win mx my =
    between (to_int (u32 (win.x + win.width + (2 ^ 32 - 20)))) mx
      (to_int (u32 (win.x + win.width + (2 ^ 32 - 10))))
    && between (to_int (u32 (win.y + 7))) my (to_int (u32 (win.y + 17)))

unfoldable pub on_title_bar : Window → ℤ → ℤ → Bool
on_title_bar win mx my =
    between (to_int win.x) mx (to_int (u32 (win.x + win.width)))
    && between (to_int win.y) my (to_int (u32 (win.y + 24)))

-- The loop that makes the first `left` windows inactive
unfoldable pub deactivate : List Window → ℕ → List Window
deactivate [] left = []
deactivate (w ∷ ws) zero = w ∷ ws
deactivate (w ∷ ws) (suc left) = record w { active = 0 } ∷ deactivate ws left

-- Window `i` becomes the active one and follows the mouse.
unfoldable pub grab : Gui → ℕ → ℤ → ℤ → Gui
grab s i mx my =
    let windows = deactivate s.windows s.window_count in
    let win = get_or windows i no_window in
    record s {
      windows = set windows i (record win { active = 1 });
      dragging_window = some i;
      drag_offset_x = to_int (to_uint (mx -ℤ pos win.x));
      drag_offset_y = to_int (to_uint (my -ℤ pos win.y));
    }

-- The loop over the windows from the last one down, with `left` windows left
unfoldable pub click_windows : ℕ → Gui → ℤ → ℤ → Gui
click_windows zero s mx my = s
click_windows (suc i) s mx my =
    let rest = click_windows i s mx my in
    let win = window_at s i in
    if win.visible == 0
    then rest
    else (if on_close_button win mx my
        then gui_close_window (pos i) s
        else (if on_title_bar win mx my then grab s i mx my else rest))

-- A place of the mouse on the screen
unfoldable pub scale : ℕ → ℕ → ℕ → ℕ
scale place size range = u32 (place * size) / range

module _ (width height entry : ℕ) where
  -- The y of the taskbar, as int32_t
  unfoldable pub taskbar_y : ℤ
  taskbar_y = to_int (u32 (height + (2 ^ 32 - 28)))

  -- `none` means that a walk over the heap did not end.
  unfoldable pub gui_handle_mouse_click : ℕ → ℕ → Gui → Option Gui
  gui_handle_mouse_click mouse_x mouse_y s =
      let mx = pos (scale mouse_x width 640) in
      let my = pos (scale mouse_y height 480) in
      if between (taskbar_y +ℤ pos 4) my (taskbar_y +ℤ pos 20) && between (pos 4) mx (pos 54)
      then (elim (app_launch entry s.apps app_calculator) [
        | none ↦ none
        | some r ↦ some (record s { apps = r.1 })
      ])
      else some (click_windows s.window_count s mx my)

  unfoldable pub gui_handle_mouse_release : Gui → Gui
  gui_handle_mouse_release s = record s { dragging_window = none }

  -- The place of a window that would go to `new_x` and `new_y`, which are taken as integers: the offsets that a click
  -- on a title bar leaves are too small for int32_t to overflow. The bound of y is taken from the width of the screen, as
  -- the code has it.
  unfoldable pub keep_x : Window → ℤ → ℤ
  keep_x win new_x =
      let v = if ltb_ℤ new_x (pos 0) then pos 0 else new_x in
      if ltb_ℤ (to_int width) (v +ℤ to_int win.width)
      then to_int (u32 (width + (2 ^ 32 - win.width)))
      else v

  unfoldable pub keep_y : Window → ℤ → ℤ
  keep_y win new_y =
      let v = if ltb_ℤ new_y (pos 0) then pos 0 else new_y in
      if ltb_ℤ (to_int width -ℤ pos 28) (v +ℤ to_int win.height)
      then to_int (u32 (height + (2 ^ 32 - 28) + (2 ^ 32 - win.height)))
      else v

  unfoldable pub move : Gui → ℕ → ℤ → ℤ → Gui
  move s i mx my =
      let win = window_at s i in
      record s {
        windows = set s.windows i (record win {
          x = to_uint (keep_x win (mx -ℤ s.drag_offset_x));
          y = to_uint (keep_y win (my -ℤ s.drag_offset_y));
        });
      }

  unfoldable pub gui_handle_mouse_drag : ℕ → ℕ → Gui → Gui
  gui_handle_mouse_drag mouse_x mouse_y s = elim (s.dragging_window) [
    | none ↦ s
    | some i ↦ move s i (pos (scale mouse_x width 640)) (pos (scale mouse_y height 480))
  ]

  -- The first part of `gui_update`: what the state of the mouse does.
  unfoldable pub handle_mouse : ℕ → ℕ → ℕ → Gui → Option Gui
  handle_mouse mouse_x mouse_y buttons s =
      if not (bit_and buttons 1 == 0)
      then (if bit_and s.last_buttons 1 == 0
          then gui_handle_mouse_click mouse_x mouse_y s
          else some (gui_handle_mouse_drag mouse_x mouse_y s))
      else (if bit_and s.last_buttons 1 == 0 then some s else some (gui_handle_mouse_release s))

  unfoldable pub gui_update : ℕ → ℕ → ℕ → Gui → Option Gui
  gui_update mouse_x mouse_y buttons s = elim (handle_mouse mouse_x mouse_y buttons s) [
    | none ↦ none
    | some t ↦ some (record t { last_buttons = buttons; apps = app_manager_update t.apps })
  ]
