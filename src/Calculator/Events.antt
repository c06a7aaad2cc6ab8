-- ===== src/Calculator/Events.antt =====
-- The calculator over any sequence of starts and of states of the mouse.
use zenix.Prelude.{
  ℕ, bit_and, ◌≡◌, refl, sym, ap, subst, inl, inr, not, ◌&&◌, Option, none, some, List, [], ◌∷◌,
  arith, ◌==◌, Bool-cases, replicate,
}
use zenix.Prelude.Int.{ℤ, pos}
use zenix.Gui.{scale}
use zenix.Calculator.{Doubles, Calculator, calculator_init, text_length}
use zenix.Calculator.Display.{IsDisplay, IsCalculator, cleared-IsDisplay}
use zenix.Calculator.Buttons.{Converts, Kept, calculator_handle_button-Kept}
use zenix.Calculator.Window.{
  CalculatorApp, Pointer, calculator_check_button, over_close, over_title, calculator_close, drag,
  drag_and_release, with_calculator, start_drag, finish, press_found, click, calculator_update,
  start_calculator_app, update_calculator_app,
}

-- The application is started, or the loop of the kernel calls it with a state of the mouse.
pub data Event : Type 0 where
  start : Event
  mouse : Pointer → Event

zeroed-IsDisplay : IsDisplay (replicate 32 0) 0
unfolding replicate text_length
zeroed-IsDisplay = record { room = refl; text = refl; short = omega arith }

module _ {Double : Type 0} (d : Doubles Double) (width height : ℕ) where
  abbrev pub IsApp : CalculatorApp Double → Type 0
  IsApp s = IsCalculator s.g_calculator

  unfoldable pub handle : Event → CalculatorApp Double → Option (CalculatorApp Double)
  handle start s = some (start_calculator_app d s)
  handle (mouse p) s = update_calculator_app d width height p s

  -- The events one after the other; `none` if one does not end.
  unfoldable pub handle_all : List Event → CalculatorApp Double → Option (CalculatorApp Double)
  handle_all [] s = some s
  handle_all (e ∷ es) s = elim (handle e s) [ none ↦ none | some after ↦ handle_all es after ]

  abbrev pub KeptApp : Option (CalculatorApp Double) → Type 0
  KeptApp r = (s : CalculatorApp Double) × (r ≡ some s) × IsApp s

  drag_and_release-IsApp :
      (p : Pointer) (mx my : ℤ) (s : CalculatorApp Double)
      → IsApp s
      → IsApp (drag_and_release width height p mx my s)
  unfolding drag_and_release drag
  drag_and_release-IsApp p mx my s v =
      let left = not (bit_and p.buttons 1 == 0) in
      elim (Bool-cases (not (s.g_calculator.dragging == 0) && left)) [
        | inl x ↦ elim (Bool-cases (not left && not (bit_and s.last_buttons 1 == 0))) [
          | inl y ↦ rw (x, y) v
          | inr y ↦ rw (x, y) v
        ]
        | inr x ↦ elim (Bool-cases (not left && not (bit_and s.last_buttons 1 == 0))) [
          | inl y ↦ rw (x, y) v
          | inr y ↦ rw (x, y) v
        ]
      ]

  press_found-Kept :
      (converts : Converts d) (calc : Calculator Double) (found : Option ℕ)
      → IsCalculator calc
      → Kept d (press_found d calc found)
  press_found-Kept converts calc none v = (calc, refl, v)
  press_found-Kept converts calc (some id) v = calculator_handle_button-Kept d converts calc id v

  click-Kept :
      (converts : Converts d) (calc : Calculator Double) (mx my : ℤ)
      → IsCalculator calc
      → Kept d (click d calc mx my)
  unfolding click
  click-Kept converts calc mx my v = elim (Bool-cases (over_title calc mx my)) [
    | inl x ↦ rw x (start_drag calc mx my, refl, v)
    | inr x ↦ rw x (press_found-Kept converts calc (calculator_check_button calc mx my) v)
  ]

  clicked-KeptApp :
      (p : Pointer) (mx my : ℤ) (s : CalculatorApp Double) (r : Option (Calculator Double))
      → Kept d r
      → KeptApp (finish width height p mx my (with_calculator s r))
  clicked-KeptApp p mx my s r (calc, e, v) =
      let t = record s { g_calculator = calc } in
      (
        drag_and_release width height p mx my t,
        ap (λ q. finish width height p mx my (with_calculator s q)) e,
        drag_and_release-IsApp p mx my t v,
      )

  calculator_update-KeptApp :
      (converts : Converts d) (p : Pointer) (s : CalculatorApp Double)
      → IsApp s
      → KeptApp (calculator_update d width height p s)
  unfolding calculator_update calculator_close
  calculator_update-KeptApp converts p s v =
      let mx = pos (scale p.mouse_x width 640) in
      let my = pos (scale p.mouse_y height 480) in
      elim (Bool-cases (s.g_calculator.running == 0)) [
        | inl x ↦ rw x (s, refl, v)
        | inr x ↦
            elim (Bool-cases (not (bit_and p.buttons 1 == 0) && (bit_and s.last_buttons 1 == 0))) [
              | inr y ↦
                  rw (x, y)
                    (
                      drag_and_release width height p mx my s,
                      refl,
                      drag_and_release-IsApp p mx my s v,
                    )
              | inl y ↦ elim (Bool-cases (over_close s.g_calculator mx my)) [
                | inl z ↦
                    rw (x, y, z) (record (calculator_close s) { last_buttons = p.buttons }, refl, v)
                | inr z ↦
                    rw (x, y, z)
                      (clicked-KeptApp p mx my s (click d s.g_calculator mx my)
                        (click-Kept converts s.g_calculator mx my v))
              ]
            ]
      ]

  handle-KeptApp :
      (converts : Converts d) (e : Event) (s : CalculatorApp Double)
      → IsApp s
      → KeptApp (handle e s)
  unfolding handle start_calculator_app update_calculator_app calculator_init
  handle-KeptApp converts start s v = elim (Bool-cases (s.g_calculator_active == 0)) [
    | inl x ↦ (
      start_calculator_app d s,
      refl,
      rw x (cleared-IsDisplay s.g_calculator.display 48 v.room refl),
    )
    | inr x ↦ (start_calculator_app d s, refl, rw x v)
  ]
  handle-KeptApp converts (mouse p) s v = elim (Bool-cases (s.g_calculator_active == 0)) [
    | inl x ↦ rw x (s, refl, v)
    | inr x ↦ rw x (calculator_update-KeptApp converts p s v)
  ]

  handle_all-KeptApp :
      (converts : Converts d) (es : List Event) (s : CalculatorApp Double)
      → IsApp s
      → KeptApp (handle_all es s)
  unfolding handle_all
  handle_all-KeptApp converts [] s v = (s, refl, v)
  handle_all-KeptApp converts (e ∷ es) s v =
      let (after, q, w) = handle-KeptApp converts e s v in
      rw (q, handle_all) (handle_all-KeptApp converts es after w)

  -- If the conversion of a double to int gives an int, then from the zeroed globals any sequence of starts and of states
  -- of the mouse ends, clicks on buttons, on the title, on the close button and drags included. The buffer still
  -- has 32 bytes, and display_len is the length of the text in it, at most 15 characters.
  pub handle_all_lem :
      (converts : Converts d) (es : List Event) (s : CalculatorApp Double)
      → s.g_calculator.display ≡ replicate 32 0
      → s.g_calculator.display_len ≡ 0
      → KeptApp (handle_all es s)
  handle_all_lem converts es s zeroed empty = handle_all-KeptApp converts es s (
      subst (λ n. IsDisplay s.g_calculator.display n) (sym empty)
        (subst (λ l. IsDisplay l 0) (sym zeroed) zeroed-IsDisplay))
