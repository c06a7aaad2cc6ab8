-- ===== src/Calculator/Buttons.antt =====
-- The buttons of the calculator and the texts of its results: what the display holds after any buttons.
use zenix.Prelude.{
  ℕ, ◌-◌, ◌^◌, ◌≤◌, ◌<◌, ◌≡◌, refl, sym, ap, ◌∙◌, inl, inr, ◌&&◌, Option, none, some, List, [], ◌∷◌,
  ◌++◌, arith, ltb, leb, ◌==◌, if◌then◌else◌, Bool-cases, length, get_or, length-append, u32,
}
use mathlib.Core.List.{append_assoc}
use zenix.Prelude.Int.{ℤ, pos, negsuc, pos_part, neg_part, ltb_ℤ, to_uint, to_int}
use zenix.Monitor.{dec_text}
use zenix.Monitor.Numbers.{dec_text_lem}
use zenix.Calculator.Display.{
  IsCalculator, cleared-IsDisplay, press_digit-IsCalculator, press_point-IsCalculator,
  length-write_text, text_length-write_text,
}
use zenix.Calculator.{
  Doubles, Calculator, fraction_text, int_text, ftoa_tail, simple_ftoa, write_text, text_length,
  apply, show, simple_atof, calculator_execute, press_digit, press_point, press_clear, pending,
  button, buttons, calculator_handle_button,
}

int_text-Ends :
    (n : ℤ) → pos_part n < 2 ^ 32 → (ds : List ℕ) × (int_text n ≡ some ds) × (length ds ≤ 10)
unfolding int_text dec_text
int_text-Ends (pos n) h = let (ds, e, short, digits, value) = dec_text_lem n h in (ds, e, short)
int_text-Ends (negsuc n) h = ([], refl, omega arith)

to_int-pos_part : (n : ℕ) → pos_part (to_int (u32 n)) < 2 ^ 32
unfolding to_int
to_int-pos_part n = elim (Bool-cases (ltb (u32 n) (2 ^ 31))) [
  | inl x ↦ rw x (omega arith)
  | inr x ↦ rw x (omega arith)
]

module _ {Double : Type 0} (d : Doubles Double) where
  -- A conversion to int gives an int.
  abbrev pub Converts : Type 0
  Converts = (x : Double) → (pos_part (d.truncate x) < 2 ^ 31) × (neg_part (d.truncate x) ≤ 2 ^ 31)

  ftoa_tail-Ends :
      (frac_part : Double)
      → (t : List ℕ) × (ftoa_tail d frac_part 2 ≡ t ++ (0 ∷ [])) × (length t ≤ 3)
  unfolding ftoa_tail fraction_text
  ftoa_tail-Ends frac_part = elim (Bool-cases (d.is_positive frac_part)) [
    | inl x ↦ (46 ∷ fraction_text d 2 frac_part, rw x refl, omega arith)
    | inr x ↦ ([], rw x refl, omega arith)
  ]

  -- The text of a number is at most 14 characters long.
  simple_ftoa-Ends :
      (converts : Converts) (value : Double)
      → (cs : List ℕ) × (simple_ftoa d value 2 ≡ some (cs ++ (0 ∷ []))) × (length cs ≤ 14)
  unfolding simple_ftoa
  simple_ftoa-Ends converts value =
      let int_part = d.truncate value in
      let frac_part = d.sub value (d.of_int int_part) in
      let minus = to_int (u32 (2 ^ 32 - to_uint int_part)) in
      elim (Bool-cases (ltb_ℤ int_part (pos 0))) [
        | inl x ↦
            let (ds, e, h) = int_text-Ends minus (to_int-pos_part (2 ^ 32 - to_uint int_part)) in
            let (t, e', h') = ftoa_tail-Ends (d.neg frac_part) in
            (
              45 ∷ (ds ++ t),
              rw (x, e, e') (ap (λ (l : List ℕ). some (45 ∷ l)) (sym (append_assoc ds t (0 ∷ [])))),
              omega (arith, h, h', length-append ds t),
            )
        | inr x ↦
            let (ds, e, h) = int_text-Ends int_part (omega (arith, (converts value).0)) in
            let (t, e', h') = ftoa_tail-Ends frac_part in
            (
              ds ++ t,
              rw (x, e, e') (ap (λ (l : List ℕ). some l) (sym (append_assoc ds t (0 ∷ [])))),
              omega (arith, h, h', length-append ds t),
            )
      ]

  -- What `calculator_execute` leaves
  abbrev pub Kept : Option (Calculator Double) → Type 0
  Kept r = (calc : Calculator Double) × (r ≡ some calc) × IsCalculator calc

  show-Kept :
      (converts : Converts) (calc : Calculator Double) (value : Double)
      → IsCalculator calc
      → Kept (show calc (simple_ftoa d value 2))
  show-Kept converts calc value v =
      let (cs, e, h) = simple_ftoa-Ends converts value in
      let display = write_text (cs ++ (0 ∷ [])) calc.display in
      (
        record calc { display = display; display_len = text_length display },
        ap (show calc) e,
        record {
          room = length-write_text (cs ++ (0 ∷ [])) calc.display ∙ v.room;
          text = refl;
          short =
              let k = text_length-write_text cs calc.display (omega (arith, h, v.room)) in
              omega (arith, h, k);
        },
      )

  calculator_execute-Kept :
      (converts : Converts) (calc : Calculator Double)
      → IsCalculator calc
      → Kept (calculator_execute d calc)
  unfolding calculator_execute
  calculator_execute-Kept converts calc v = elim (Bool-cases (calc.operation == 0)) [
    | inl x ↦ (
      record calc { value = simple_atof d calc.display; stored_value = simple_atof d calc.display },
      rw x refl,
      v,
    )
    | inr x ↦
        let calc1 = record calc { value = simple_atof d calc.display } in
        let calc2 = record calc1 { stored_value = apply d calc1 } in
        let (after, e, kept) = show-Kept converts calc2 calc2.stored_value v in
        (after, rw x e, kept)
  ]

  pending-Kept :
      (operation : ℕ) (r : Option (Calculator Double)) → Kept r → Kept (pending operation r)
  pending-Kept operation r (calc, e, v) =
      (record calc { operation = operation; new_number = 1 }, ap (pending operation) e, v)

  operand-Kept :
      (converts : Converts) (calc : Calculator Double)
      → IsCalculator calc
      → Kept (if calc.new_number == 0 then calculator_execute d calc else some calc)
  operand-Kept converts calc v = elim (Bool-cases (calc.new_number == 0)) [
    | inl x ↦ rw x (calculator_execute-Kept converts calc v)
    | inr x ↦ rw x (calc, refl, v)
  ]

  -- Every button, at any place of the table, ends and keeps the display well.
  pub calculator_handle_button-Kept :
      (converts : Converts) (calc : Calculator Double) (id : ℕ)
      → IsCalculator calc
      → Kept (calculator_handle_button d calc id)
  unfolding calculator_handle_button press_clear
  calculator_handle_button-Kept converts calc id v =
      let ch = (get_or buttons id (button 0 0 0 0)).label in
      elim (Bool-cases (ch == 67)) [
        | inl x ↦ (press_clear d calc, rw x refl, cleared-IsDisplay calc.display 48 v.room refl)
        | inr x ↦ elim (Bool-cases (leb 48 ch && leb ch 57)) [
          | inl y ↦ (
            press_digit calc ch,
            rw (x, y) refl,
            press_digit-IsCalculator calc ch v (ground (arith, y)),
          )
          | inr y ↦ elim (Bool-cases (ch == 46)) [
            | inl z ↦ (press_point calc, rw (x, y, z) refl, press_point-IsCalculator calc v)
            | inr z ↦ elim (Bool-cases (ch == 61)) [
              | inl w ↦
                  rw (x, y, z, w)
                    (pending-Kept 0 (calculator_execute d calc)
                      (calculator_execute-Kept converts calc v))
              | inr w ↦ rw (x, y, z, w) (pending-Kept ch _ (operand-Kept converts calc v))
            ]
          ]
        ]
      ]

  -- The buttons pressed one after the other; `none` if one does not end.
  unfoldable pub press_all : Calculator Double → List ℕ → Option (Calculator Double)
  press_all calc [] = some calc
  press_all calc (id ∷ ids) = elim (calculator_handle_button d calc id) [
    | none ↦ none
    | some after ↦ press_all after ids
  ]
