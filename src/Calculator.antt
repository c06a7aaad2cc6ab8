-- ===== src/Calculator.antt =====
-- The calculator, kernel/apps/calculator/calculator_app.c: its buttons and its display. The arithmetic on double is a
-- parameter. Drawing is left out. A signed number that overflows wraps around.
pub mod Display
pub mod Buttons
pub mod Window
pub mod Events
pub mod Drag
mod Tests
use zenix.Prelude.{
  ℕ, zero, suc, ◌+◌, ◌-◌, ◌*◌, ◌/◌, ◌%◌, ◌^◌, ◌≤◌, ◌<◌, min, max, bit_and, bit_or, ◌≡◌, refl, sym,
  ap, subst, ◌∙◌, fun_ext, ◌≢◌, ◌↔◌, ◌⊎◌, inl, inr, Bool, true, false, not, ◌&&◌, ◌||◌, Option,
  none, some, List, [], ◌∷◌, ◌++◌, map, arith, ltb, leb, ◌==◌, if◌then◌else◌, ltb→lt, ltb→ge,
  lt→ltb, ==_iff, ==_refl, Bool-cases, Option-cases, length, get_elem?, get_or, set, take, drop,
  replicate, length-append, length-set, length-replicate, get_or-replicate, get_or-set_self,
  get_or-set_ne, length-take, take-append-drop, u8, u16, u32, sub32,
}
use zenix.Prelude.Codes.{codes}
use zenix.Prelude.Int.{ℤ, pos, negsuc, ◌+ℤ◌, ◌-ℤ◌, ltb_ℤ, to_uint, to_int}
use zenix.Monitor.{dec_loop}

-- The operations on double that the code uses; `truncate` is the conversion to int.
pub record Doubles (Double : Type 0) : Type 0 where
  pub of_int : ℤ → Double
  pub neg : Double → Double
  pub add : Double → Double → Double
  pub sub : Double → Double → Double
  pub mul : Double → Double → Double
  pub div : Double → Double → Double
  pub is_zero : Double → Bool
  pub is_positive : Double → Bool
  pub truncate : Double → ℤ

-- `calculator_t`
pub record Calculator (Double : Type 0) : Type 0 where
  pub x : ℕ
  pub y : ℕ
  pub width : ℕ
  pub height : ℕ
  pub display : List ℕ
  pub display_len : ℕ
  pub running : ℕ
  pub dragging : ℕ
  pub drag_offset_x : ℤ
  pub drag_offset_y : ℤ
  pub value : Double
  pub stored_value : Double
  pub operation : ℕ
  pub new_number : ℕ

-- `button_t` without its colour; the label is one character.
pub record Button : Type 0 where
  pub x : ℕ
  pub y : ℕ
  pub w : ℕ
  pub h : ℕ
  pub label : ℕ

abbrev pub button : ℕ → ℕ → ℕ → ℕ → Button
button x y w label = record { x = x; y = y; w = w; h = 30; label = label }

abbrev pub buttons : List Button
buttons =
    button 10 60 40 55
    ∷ button 55 60 40 56
    ∷ button 100 60 40 57
    ∷ button 145 60 40 47
    ∷ button 10 95 40 52
    ∷ button 55 95 40 53
    ∷ button 100 95 40 54
    ∷ button 145 95 40 42
    ∷ button 10 130 40 49
    ∷ button 55 130 40 50
    ∷ button 100 130 40 51
    ∷ button 145 130 40 45
    ∷ button 10 165 85 48
    ∷ button 100 165 40 46
    ∷ button 145 165 40 43
    ∷ button 10 200 85 67
    ∷ button 100 200 85 61
    ∷ []

-- The digits of `int_part`, which a loop writes backwards: 10 rounds are what an int has digits.
unfoldable pub int_text : ℤ → Option (List ℕ)
int_text (pos n) = if n == 0 then some (48 ∷ []) else dec_loop 10 n []
int_text (negsuc n) = some []

-- The bytes that `simple_ftoa` writes for an int_part that is not negative any more
abbrev pub ftoa_from : List ℕ → Option (List ℕ) → List ℕ → Option (List ℕ)
ftoa_from sign none tail = none
ftoa_from sign (some digits) tail = some (sign ++ (digits ++ tail))

-- The bytes written over the start of a buffer
unfoldable pub write_text : List ℕ → List ℕ → List ℕ
write_text [] buffer = buffer
write_text (c ∷ cs) [] = []
write_text (c ∷ cs) (b ∷ bs) = c ∷ write_text cs bs

-- `while (calc->display[calc->display_len]) calc->display_len++`
unfoldable pub text_length : List ℕ → ℕ
text_length [] = 0
text_length (c ∷ cs) = let rest = text_length cs in if c == 0 then 0 else suc rest

-- The loop that looks for a point in the text
unfoldable pub has_decimal : List ℕ → ℕ → Bool
has_decimal [] n = false
has_decimal (c ∷ cs) zero = false
has_decimal (c ∷ cs) (suc n) = let rest = has_decimal cs n in if c == 46 then true else rest

module _ {Double : Type 0} where
  -- The result put into the display
  abbrev pub show : Calculator Double → Option (List ℕ) → Option (Calculator Double)
  show calc none = none
  show calc (some text) =
      let display = write_text text calc.display in
      some (record calc { display = display; display_len = text_length display })

  -- The character put behind the text
  unfoldable pub put_last : Calculator Double → ℕ → Calculator Double
  put_last calc c =
      let n = calc.display_len in
      record calc { display = set (set calc.display n c) (n + 1) 0; display_len = n + 1 }

  unfoldable pub press_digit : Calculator Double → ℕ → Calculator Double
  press_digit calc c =
      if not (calc.new_number == 0)
      then record calc { display = set (set calc.display 0 c) 1 0; display_len = 1; new_number = 0 }
      else if ltb calc.display_len 15
      then (if (get_or calc.display 0 0 == 48) && (calc.display_len == 1)
          then record calc { display = set calc.display 0 c }
          else put_last calc c)
      else calc

  unfoldable pub press_point : Calculator Double → Calculator Double
  press_point calc =
      if not (calc.new_number == 0)
      then record calc {
        display = set (set (set calc.display 0 48) 1 46) 2 0;
        display_len = 2;
        new_number = 0;
      }
      else if not (has_decimal calc.display calc.display_len) && ltb calc.display_len 15
      then put_last calc 46
      else calc

  -- The operation that is pending from here on
  abbrev pub pending : ℕ → Option (Calculator Double) → Option (Calculator Double)
  pending operation none = none
  pending operation (some calc) = some (record calc { operation = operation; new_number = 1 })

module _ {Double : Type 0} (d : Doubles Double) where
  -- What the loop of `simple_atof` carries
  pub record Parse : Type 0 where
    pub result : Double
    pub fraction : Double
    pub divisor : ℤ
    pub in_fraction : Bool

  -- `n * 10 + (c - '0')`
  abbrev pub shift_in : Double → ℕ → Double
  shift_in n c = d.add (d.mul n (d.of_int (pos 10))) (d.of_int (pos c -ℤ pos 48))

  abbrev pub times_ten : ℤ → ℤ
  times_ten n = to_int (u32 (to_uint n * 10))

  unfoldable pub atof_step : Parse → ℕ → Parse
  atof_step p c =
      if leb 48 c && leb c 57
      then (if p.in_fraction
          then record p { divisor = times_ten p.divisor; fraction = shift_in p.fraction c }
          else record p { result = shift_in p.result c })
      else if c == 46
      then record p { in_fraction = true }
      else p

  -- The loop, over the bytes that are left of the buffer
  unfoldable pub atof_loop : List ℕ → Parse → Parse
  atof_loop [] p = p
  atof_loop (c ∷ cs) p = if c == 0 then p else atof_loop cs (atof_step p c)

  unfoldable pub simple_atof : List ℕ → Double
  simple_atof str =
      let zero_double = d.of_int (pos 0) in
      let negative = get_or str 0 0 == 45 in
      let p = atof_loop (if negative then drop 1 str else str) (record {
        result = zero_double;
        fraction = zero_double;
        divisor = pos 1;
        in_fraction = false;
      }) in
      let result = d.add p.result (d.div p.fraction (d.of_int p.divisor)) in
      if negative then d.neg result else result

  -- The digits after the point, with `n` rounds left
  unfoldable pub fraction_text : ℕ → Double → List ℕ
  fraction_text zero frac_part = []
  fraction_text (suc n) frac_part =
      let scaled = d.mul frac_part (d.of_int (pos 10)) in
      let digit = d.truncate scaled in
      u8 (to_uint (pos 48 +ℤ digit)) ∷ fraction_text n (d.sub scaled (d.of_int digit))

  -- The end of `simple_ftoa`: the point, the digits after it and the terminating 0
  unfoldable pub ftoa_tail : Double → ℕ → List ℕ
  ftoa_tail frac_part precision =
      if ltb 0 precision && d.is_positive frac_part
      then 46 ∷ (fraction_text precision frac_part ++ (0 ∷ []))
      else 0 ∷ []

  unfoldable pub simple_ftoa : Double → ℕ → Option (List ℕ)
  simple_ftoa value precision =
      let int_part = d.truncate value in
      let frac_part = d.sub value (d.of_int int_part) in
      if ltb_ℤ int_part (pos 0)
      then ftoa_from (45 ∷ []) (int_text (to_int (u32 (2 ^ 32 - to_uint int_part))))
          (ftoa_tail (d.neg frac_part) precision)
      else ftoa_from [] (int_text int_part) (ftoa_tail frac_part precision)

  unfoldable pub apply : Calculator Double → Double
  apply calc =
      if calc.operation == 43
      then d.add calc.stored_value calc.value
      else if calc.operation == 45
      then d.sub calc.stored_value calc.value
      else if calc.operation == 42
      then d.mul calc.stored_value calc.value
      else if (calc.operation == 47) && not (d.is_zero calc.value)
      then d.div calc.stored_value calc.value
      else calc.stored_value

  unfoldable pub calculator_execute : Calculator Double → Option (Calculator Double)
  calculator_execute calc =
      let calc1 = record calc { value = simple_atof calc.display } in
      if calc1.operation == 0
      then some (record calc1 { stored_value = calc1.value })
      else let calc2 = record calc1 { stored_value = apply calc1 } in
        show calc2 (simple_ftoa calc2.stored_value 2)

  unfoldable pub press_clear : Calculator Double → Calculator Double
  press_clear calc = record calc {
    display = set (set calc.display 0 48) 1 0;
    display_len = 1;
    value = d.of_int (pos 0);
    stored_value = d.of_int (pos 0);
    operation = 0;
    new_number = 1;
  }

  unfoldable pub calculator_handle_button : Calculator Double → ℕ → Option (Calculator Double)
  calculator_handle_button calc button_id =
      let ch = (get_or buttons button_id (button 0 0 0 0)).label in
      if ch == 67
      then some (press_clear calc)
      else if leb 48 ch && leb ch 57
      then some (press_digit calc ch)
      else if ch == 46
      then some (press_point calc)
      else if ch == 61
      then pending 0 (calculator_execute calc)
      else pending ch (if calc.new_number == 0 then calculator_execute calc else some calc)

  unfoldable pub calculator_init : Calculator Double → ℕ → ℕ → Calculator Double
  calculator_init calc x y = record {
    x = x;
    y = y;
    width = 195;
    height = 240;
    display = set (set calc.display 0 48) 1 0;
    display_len = 1;
    running = 1;
    dragging = 0;
    drag_offset_x = pos 0;
    drag_offset_y = pos 0;
    value = d.of_int (pos 0);
    stored_value = d.of_int (pos 0);
    operation = 0;
    new_number = 1;
  }
