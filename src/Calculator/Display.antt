-- ===== src/Calculator/Display.antt =====
-- The display of the calculator over any sequence of its buttons: the length that is kept is that of the text, and
-- nothing is written outside the buffer.
use zenix.Prelude.{
  ℕ, zero, suc, ◌+◌, ◌≤◌, ◌<◌, ◌≡◌, refl, sym, ap, subst, ◌∙◌, inl, inr, false, not, ◌&&◌, List, [],
  ◌∷◌, ◌++◌, arith, ltb, ◌==◌, Bool-cases, length, get_or, set, length-set,
}
use zenix.Calculator.{
  Calculator, write_text, text_length, put_last, press_digit, has_decimal, press_point,
}

-- A buffer of 32 bytes whose text is as long as `n` says, at most 15 characters
pub record IsDisplay (display : List ℕ) (n : ℕ) : Type 0 where
  pub room : length display ≡ 32
  pub text : text_length display ≡ n
  pub short : n ≤ 15

-- Text is at most as long as the place of any 0 in it.
text_length-le : (xs : List ℕ) (i : ℕ) → i < length xs → get_or xs i 0 ≡ 0 → text_length xs ≤ i
unfolding text_length
text_length-le [] i h z = elim h [ ]
text_length-le (x ∷ xs) zero h z = rw (ap (λ n. n == 0) z) (omega arith)
text_length-le (x ∷ xs) (suc i) h z =
    let rest = text_length-le xs i (omega (arith, h)) z in ground (arith, rest)

-- A character put behind the text
text_length-put :
    (xs : List ℕ) (n c : ℕ)
    → text_length xs ≡ n
    → n + 1 < length xs
    → (c == 0) ≡ false
    → text_length (set (set xs n c) (suc n) 0) ≡ suc n
unfolding text_length
text_length-put [] n c e h ne = elim h [ ]
text_length-put (x ∷ []) n c e h ne = absurd (omega (arith, h))
text_length-put (x ∷ y ∷ xs) zero c e h ne = rw ne refl
text_length-put (x ∷ y ∷ xs) (suc n) c e h ne = elim (Bool-cases (x == 0)) [
  | inl z ↦ absurd (ground (arith, e, z))
  | inr z ↦
      let rest : text_length (y ∷ xs) ≡ n = ground (arith, e, z) in
      rw z (ap suc (text_length-put (y ∷ xs) n c rest (omega (arith, h)) ne))
]

-- A text of one character, and of two
text_length-one :
    (xs : List ℕ) (c : ℕ)
    → 1 < length xs
    → (c == 0) ≡ false
    → text_length (set (set xs 0 c) 1 0) ≡ 1
unfolding text_length
text_length-one [] c h ne = elim h [ ]
text_length-one (x ∷ []) c h ne = absurd (omega (arith, h))
text_length-one (x ∷ y ∷ xs) c h ne = rw ne refl

text_length-two :
    (xs : List ℕ) (c b : ℕ)
    → 2 < length xs
    → (c == 0) ≡ false
    → (b == 0) ≡ false
    → text_length (set (set (set xs 0 c) 1 b) 2 0) ≡ 2
unfolding text_length
text_length-two [] c b h nc nb = elim h [ ]
text_length-two (x ∷ []) c b h nc nb = absurd (omega (arith, h))
text_length-two (x ∷ y ∷ []) c b h nc nb = absurd (omega (arith, h))
text_length-two (x ∷ y ∷ z ∷ xs) c b h nc nb = rw (nc, nb) refl

-- The first character replaced by another that is not 0
text_length-first :
    (xs : List ℕ) (n c : ℕ)
    → text_length xs ≡ suc n
    → (c == 0) ≡ false
    → text_length (set xs 0 c) ≡ suc n
unfolding text_length
text_length-first [] n c e ne = e
text_length-first (x ∷ xs) n c e ne = elim (Bool-cases (x == 0)) [
  | inl z ↦ absurd (ground (arith, e, z))
  | inr z ↦ rw ne (ground (arith, e, z))
]

pub length-write_text : (cs xs : List ℕ) → length (write_text cs xs) ≡ length xs
unfolding write_text
length-write_text [] xs = refl
length-write_text (c ∷ cs) [] = refl
length-write_text (c ∷ cs) (x ∷ xs) = ap suc (length-write_text cs xs)

-- A text that ends in its 0, written over the start of a buffer
pub text_length-write_text :
    (cs xs : List ℕ)
    → length cs < length xs
    → text_length (write_text (cs ++ (0 ∷ [])) xs) ≤ length cs
unfolding text_length write_text
text_length-write_text cs [] h = elim h [ ]
text_length-write_text [] (x ∷ xs) h = omega arith
text_length-write_text (c ∷ cs) (x ∷ xs) h =
    let rest = text_length-write_text cs xs (omega (arith, h)) in ground (arith, rest)

put_text :
    (xs : List ℕ) (n c : ℕ)
    → text_length xs ≡ n
    → n + 1 < length xs
    → (c == 0) ≡ false
    → text_length (set (set xs n c) (n + 1) 0) ≡ n + 1
put_text xs n c e h ne =
    let next : suc n ≡ n + 1 = omega arith in
    subst (λ k. text_length (set (set xs n c) k 0) ≡ k) next (text_length-put xs n c e h ne)

pub cleared-IsDisplay :
    (xs : List ℕ) (c : ℕ) → length xs ≡ 32 → (c == 0) ≡ false → IsDisplay (set (set xs 0 c) 1 0) 1
cleared-IsDisplay xs c room ne = record {
  room = length-set (set xs 0 c) 1 0 ∙ (length-set xs 0 c ∙ room);
  text = text_length-one xs c (omega (arith, room)) ne;
  short = omega arith;
}

module _ {Double : Type 0} where
  -- The display of a calculator is kept well.
  abbrev pub IsCalculator : Calculator Double → Type 0
  IsCalculator calc = IsDisplay calc.display calc.display_len

  put_last-IsCalculator :
      (calc : Calculator Double) (c : ℕ)
      → IsCalculator calc
      → calc.display_len < 15
      → (c == 0) ≡ false
      → IsCalculator (put_last calc c)
  unfolding put_last
  put_last-IsCalculator calc c v h ne =
      let n = calc.display_len in
      record {
        room = length-set (set calc.display n c) (n + 1) 0 ∙ (length-set calc.display n c ∙ v.room);
        text = put_text calc.display n c v.text (omega (arith, v.room, h)) ne;
        short = omega (arith, h);
      }

  pub press_digit-IsCalculator :
      (calc : Calculator Double) (c : ℕ)
      → IsCalculator calc
      → (c == 0) ≡ false
      → IsCalculator (press_digit calc c)
  unfolding press_digit
  press_digit-IsCalculator calc c v ne = elim (Bool-cases (calc.new_number == 0)) [
    | inr x ↦ rw x (cleared-IsDisplay calc.display c v.room ne)
    | inl x ↦ elim (Bool-cases (ltb calc.display_len 15)) [
      | inr y ↦ rw (x, y) v
      | inl y ↦ elim (Bool-cases ((get_or calc.display 0 0 == 48) && (calc.display_len == 1))) [
        | inl z ↦
            let one : calc.display_len ≡ 1 = ground (arith, z) in
            rw (x, y, z)
              record {
                room = length-set calc.display 0 c ∙ v.room;
                text = text_length-first calc.display 0 c (v.text ∙ one) ne ∙ sym one;
                short = v.short;
              }
        | inr z ↦ rw (x, y, z) (put_last-IsCalculator calc c v (ground (arith, y)) ne)
      ]
    ]
  ]

  pub press_point-IsCalculator :
      (calc : Calculator Double) → IsCalculator calc → IsCalculator (press_point calc)
  unfolding press_point
  press_point-IsCalculator calc v = elim (Bool-cases (calc.new_number == 0)) [
    | inr x ↦ rw x record {
      room =
          length-set (set (set calc.display 0 48) 1 46) 2 0
          ∙ (length-set (set calc.display 0 48) 1 46 ∙ (length-set calc.display 0 48 ∙ v.room));
      text = text_length-two calc.display 48 46 (omega (arith, v.room)) refl refl;
      short = omega arith;
    }
    | inl x ↦
        elim (Bool-cases
          (not (has_decimal calc.display calc.display_len) && ltb calc.display_len 15)) [
            | inr y ↦ rw (x, y) v
            | inl y ↦ rw (x, y) (put_last-IsCalculator calc 46 v (ground (arith, y)) refl)
          ]
  ]
