-- ===== src/Calculator/Window.antt =====
-- What the mouse does to the calculator: calculator_check_button, calculator_update and the functions that
-- kernel/core/kernel.c calls. `mouse_x` and `mouse_y` are the place of the mouse, which is not negative.
use zenix.Prelude.{
  ℕ, suc, ◌+◌, bit_and, Bool, not, ◌&&◌, Option, none, some, List, [], ◌∷◌, ◌==◌, if◌then◌else◌,
  u32, sub32,
}
use zenix.Prelude.Int.{ℤ, pos, ◌+ℤ◌, ◌-ℤ◌, ltb_ℤ, to_uint, to_int}
use zenix.Gui.{scale}
use zenix.Calculator.{
  Doubles, Calculator, Button, buttons, calculator_handle_button, calculator_init,
}

-- The globals of the file, with `last_buttons` of calculator_update
pub record CalculatorApp (Double : Type 0) : Type 0 where
  pub g_calculator : Calculator Double
  pub g_calculator_active : ℕ
  pub last_buttons : ℕ

-- The state of the mouse at one call
pub record Pointer : Type 0 where
  pub mouse_x : ℕ
  pub mouse_y : ℕ
  pub buttons : ℕ

-- a ≤ m ≤ b
abbrev pub within : ℤ → ℤ → ℤ → Bool
within a m b = not (ltb_ℤ m a) && not (ltb_ℤ b m)

abbrev pub over_button : Button → ℤ → ℤ → Bool
over_button btn mx my =
    not (ltb_ℤ mx (pos btn.x))
    && ltb_ℤ mx (pos btn.x +ℤ pos btn.w)
    && not (ltb_ℤ my (pos btn.y))
    && ltb_ℤ my (pos btn.y +ℤ pos btn.h)

-- The loop of `calculator_check_button`
unfoldable pub check_buttons : List Button → ℤ → ℤ → Option ℕ
check_buttons [] mx my = none
check_buttons (btn ∷ btns) mx my =
    let later = check_buttons btns mx my in
    if over_button btn mx my then some 0 else (elim later [ none ↦ none | some i ↦ some (suc i) ])

-- Where a window that would go to `v` is kept
unfoldable pub keep : ℕ → ℤ → ℤ → ℤ
keep size limit v =
    let w = if ltb_ℤ v (pos 0) then pos 0 else v in
    if ltb_ℤ limit (w +ℤ to_int size) then to_int (sub32 (to_uint limit) size) else w

module _ {Double : Type 0} where
  -- `none` stands for -1.
  unfoldable pub calculator_check_button : Calculator Double → ℤ → ℤ → Option ℕ
  calculator_check_button calc mx my =
      check_buttons buttons (to_int (sub32 (to_uint mx) calc.x))
        (to_int (sub32 (to_uint my) calc.y))

  unfoldable pub over_close : Calculator Double → ℤ → ℤ → Bool
  over_close calc mx my =
      within (to_int (sub32 (u32 (calc.x + calc.width)) 10)) mx
        (to_int (sub32 (u32 (calc.x + calc.width)) 2))
      && within (to_int calc.y +ℤ pos 1) my (to_int calc.y +ℤ pos 7)

  unfoldable pub over_title : Calculator Double → ℤ → ℤ → Bool
  over_title calc mx my =
      within (to_int calc.x) mx (to_int (u32 (calc.x + calc.width)))
      && within (to_int calc.y) my (to_int (u32 (calc.y + 8)))

  unfoldable pub calculator_close : CalculatorApp Double → CalculatorApp Double
  calculator_close s = record s {
    g_calculator = record s.g_calculator { running = 0 };
    g_calculator_active = 0;
  }

  unfoldable pub drag : ℕ → ℕ → Calculator Double → ℤ → ℤ → Calculator Double
  drag width height calc mx my = record calc {
    x = to_uint (keep calc.width (to_int width) (mx -ℤ calc.drag_offset_x));
    y = to_uint (keep calc.height (to_int height -ℤ pos 24) (my -ℤ calc.drag_offset_y));
  }

  -- The end of `calculator_update`, after the clicks
  unfoldable pub drag_and_release :
      ℕ → ℕ → Pointer → ℤ → ℤ → CalculatorApp Double → CalculatorApp Double
  drag_and_release width height p mx my s =
      let left = not (bit_and p.buttons 1 == 0) in
      let calc = s.g_calculator in
      let moved = if not (calc.dragging == 0) && left then drag width height calc mx my else calc in
      let released = not left && not (bit_and s.last_buttons 1 == 0) in
      record s {
        g_calculator = if released then record moved { dragging = 0 } else moved;
        last_buttons = p.buttons;
      }

  abbrev pub with_calculator :
      CalculatorApp Double → Option (Calculator Double) → Option (CalculatorApp Double)
  with_calculator s none = none
  with_calculator s (some calc) = some (record s { g_calculator = calc })

  abbrev pub start_drag : Calculator Double → ℤ → ℤ → Calculator Double
  start_drag calc mx my = record calc {
    dragging = 1;
    drag_offset_x = to_int (sub32 (to_uint mx) calc.x);
    drag_offset_y = to_int (sub32 (to_uint my) calc.y);
  }

  abbrev pub finish :
      ℕ → ℕ → Pointer → ℤ → ℤ → Option (CalculatorApp Double) → Option (CalculatorApp Double)
  finish width height p mx my none = none
  finish width height p mx my (some s) = some (drag_and_release width height p mx my s)

module _ {Double : Type 0} (d : Doubles Double) where
  -- The button under the mouse, if there is one
  abbrev pub press_found : Calculator Double → Option ℕ → Option (Calculator Double)
  press_found calc none = some calc
  press_found calc (some id) = calculator_handle_button d calc id

  -- A click that is not on the close button
  unfoldable pub click : Calculator Double → ℤ → ℤ → Option (Calculator Double)
  click calc mx my =
      if over_title calc mx my
      then some (start_drag calc mx my)
      else press_found calc (calculator_check_button calc mx my)

  unfoldable pub calculator_update :
      ℕ → ℕ → Pointer → CalculatorApp Double → Option (CalculatorApp Double)
  calculator_update width height p s =
      let mx = pos (scale p.mouse_x width 640) in
      let my = pos (scale p.mouse_y height 480) in
      if s.g_calculator.running == 0
      then some s
      else if not (bit_and p.buttons 1 == 0) && (bit_and s.last_buttons 1 == 0)
      then (if over_close s.g_calculator mx my
          then some (record (calculator_close s) { last_buttons = p.buttons })
          else finish width height p mx my (with_calculator s (click s.g_calculator mx my)))
      else some (drag_and_release width height p mx my s)

  unfoldable pub start_calculator_app : CalculatorApp Double → CalculatorApp Double
  start_calculator_app s =
      if s.g_calculator_active == 0
      then record s {
        g_calculator = calculator_init d s.g_calculator 60 30;
        g_calculator_active = 1;
      }
      else s

  unfoldable pub update_calculator_app :
      ℕ → ℕ → Pointer → CalculatorApp Double → Option (CalculatorApp Double)
  update_calculator_app width height p s =
      if s.g_calculator_active == 0 then some s else calculator_update width height p s
