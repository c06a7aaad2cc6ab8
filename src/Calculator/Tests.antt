-- ===== src/Calculator/Tests.antt =====
-- Runs of the calculator, over integers in place of doubles, and its theorems at concrete calculators.
use zenix.Prelude.{
  ℕ, ◌+◌, ◌-◌, ◌*◌, ◌/◌, ◌^◌, ◌≤◌, ◌<◌, ◌≡◌, refl, ◌⊎◌, inl, inr, ◌&&◌, Option, none, some, List,
  [], ◌∷◌, arith, ltb, ◌==◌, Bool-cases, take, replicate, u32,
}
use zenix.Prelude.Int.{ℤ, pos, pos_part, neg_part, ◌+ℤ◌, ◌-ℤ◌, to_uint, to_int}
use zenix.Monitor.{dec_loop}
use zenix.Calculator.{
  Doubles, Calculator, atof_step, atof_loop, simple_atof, fraction_text, int_text, ftoa_tail,
  simple_ftoa, write_text, text_length, apply, calculator_execute, put_last, press_digit,
  calculator_handle_button, calculator_init,
}
use zenix.Calculator.Window.{CalculatorApp, drag}
use zenix.Calculator.Events.{Event, start, mouse, handle_all, KeptApp, handle_all_lem}
use zenix.Calculator.Drag.{drag_lem}
use zenix.Calculator.Buttons.{Converts, press_all}

-- Products and quotients of what is not negative
abbrev whole : Doubles ℤ
whole = record {
  of_int = λ n. n;
  neg = λ a. pos 0 -ℤ a;
  add = λ a b. a +ℤ b;
  sub = λ a b. a -ℤ b;
  mul = λ a b. pos (pos_part a * pos_part b);
  div = λ a b. pos (pos_part a / pos_part b);
  is_zero = λ a. (pos_part a == 0) && (neg_part a == 0);
  is_positive = λ a. ltb 0 (pos_part a);
  truncate = λ a. to_int (u32 (to_uint a));
}

abbrev blank : Calculator ℤ
blank = record {
  x = 0;
  y = 0;
  width = 0;
  height = 0;
  display = replicate 32 0;
  display_len = 0;
  running = 0;
  dragging = 0;
  drag_offset_x = pos 0;
  drag_offset_y = pos 0;
  value = pos 0;
  stored_value = pos 0;
  operation = 0;
  new_number = 0;
}

abbrev shown : Option (Calculator ℤ) → List ℕ
shown none = []
shown (some calc) = take calc.display_len calc.display

-- 12 + 9 =
sum_run :
    shown (press_all whole (calculator_init whole blank 60 30) (8 ∷ 9 ∷ 14 ∷ 2 ∷ 16 ∷ []))
    ≡ 50 ∷ 49 ∷ []
unfolding press_all calculator_init calculator_handle_button press_digit replicate put_last
    calculator_execute simple_ftoa to_int to_uint apply simple_atof atof_loop atof_step int_text
    dec_loop text_length write_text ftoa_tail fraction_text
sum_run = refl

whole-Converts : Converts whole
unfolding to_int
whole-Converts x = elim (Bool-cases (ltb (u32 (to_uint x)) (2 ^ 31))) [
  | inl e ↦ rw e ((ground (arith, e)), omega arith)
  | inr e ↦ rw e (omega arith, ground (arith, e))
]

abbrev closed : CalculatorApp ℤ
closed = record { g_calculator = blank; g_calculator_active = 0; last_buttons = 0 }

-- The application is started, and the button 5 is clicked on a screen of 320 columns and 200 rows.
abbrev events : List Event
events = start ∷ mouse (record { mouse_x = 260; mouse_y = 320; buttons = 1 }) ∷ []

handle_all_lem_example : KeptApp whole 320 200 (handle_all whole 320 200 events closed)
handle_all_lem_example = handle_all_lem whole 320 200 whole-Converts events closed refl refl

abbrev caught : Calculator ℤ
caught = record blank {
  x = 60;
  y = 30;
  width = 195;
  height = 240;
  dragging = 1;
  drag_offset_x = pos 10;
}

drag_lem_example :
    ((drag 320 200 caught (pos 90) (pos 34)).x + 195 ≤ 320)
    × (((264 ≤ 200) × ((drag 320 200 caught (pos 90) (pos 34)).y + 240 + 24 ≤ 200))
        ⊎ ((200 < 264) × ((drag 320 200 caught (pos 90) (pos 34)).y ≡ 2 ^ 32 - 64)))
drag_lem_example =
    drag_lem 320 200 caught (pos 90) (pos 34) (ground arith) (ground arith) (ground arith)
      (ground arith) (ground arith)
