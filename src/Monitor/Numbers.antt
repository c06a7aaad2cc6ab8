-- ===== src/Monitor/Numbers.antt =====
-- The decimal and hexadecimal texts of numbers: they read back to the number.
use zenix.Prelude.{
  ℕ, zero, suc, ◌+◌, ◌-◌, ◌*◌, ◌/◌, ◌%◌, ◌^◌, ◌≤◌, ◌<◌, bit_and, ◌≡◌, refl, sym, ap, ◌∙◌, inl, inr,
  true, some, List, [], ◌∷◌, ◌++◌, arith, ltb, ◌==◌, if◌then◌else◌, ==_iff, Bool-cases, length,
  get_or, length-append,
}
use native.Mathlib.Nat.{pow-suc}
use zenix.Prelude.Masks.{and-ones}
use zenix.Monitor.{dec_loop, dec_text, hex_digits, hex_text}

-- The number that decimal digits stand for, behind the number `n`.
pub read_dec : ℕ → List ℕ → ℕ
read_dec n [] = n
read_dec n (c ∷ cs) = read_dec (n * 10 + (c - 48)) cs

-- Only the characters '0' to '9'
pub Digits : List ℕ → Type 0
Digits [] = Unit {0}
Digits (c ∷ cs) = (48 ≤ c) × (c ≤ 57) × Digits cs

read_dec-snoc :
    (n d : ℕ) (cs : List ℕ) → read_dec n (cs ++ (d ∷ [])) ≡ read_dec n cs * 10 + (d - 48)
unfolding read_dec
read_dec-snoc n d [] = refl
read_dec-snoc n d (c ∷ cs) = read_dec-snoc (n * 10 + (c - 48)) d cs

Digits-snoc : (d : ℕ) (cs : List ℕ) → 48 ≤ d → d ≤ 57 → Digits cs → Digits (cs ++ (d ∷ []))
unfolding Digits
Digits-snoc d [] lo hi ds = (lo, hi, tt)
Digits-snoc d (c ∷ cs) lo hi (a, b, ds) = (a, b, Digits-snoc d cs lo hi ds)

append-snoc : (xs : List ℕ) (d : ℕ) (ys : List ℕ) → (xs ++ (d ∷ [])) ++ ys ≡ xs ++ (d ∷ ys)
append-snoc [] d ys = refl
append-snoc (x ∷ xs) d ys = ap (◌∷◌ x) (append-snoc xs d ys)

append-nil : (xs : List ℕ) → xs ++ [] ≡ xs
append-nil [] = refl
append-nil (x ∷ xs) = ap (◌∷◌ x) (append-nil xs)

-- What the loop puts before the buffer
record Prints (n : ℕ) (ds : List ℕ) : Type 0 where
  value : read_dec 0 ds ≡ n
  digits : Digits ds

dec_loop_lem :
    (fuel n : ℕ) (buffer : List ℕ)
    → n < 10 ^ fuel
    → (ds : List ℕ) × (dec_loop fuel n buffer ≡ some (ds ++ buffer))
      × (length ds ≤ fuel)
      × Prints n ds
unfolding dec_loop read_dec Digits
dec_loop_lem zero n buffer h = (
  [],
  let z : (n == 0) ≡ true = ground arith in rw z refl,
  omega arith,
  record { value = omega arith; digits = tt },
)
dec_loop_lem (suc fuel) n buffer h = elim (Bool-cases (n == 0)) [
  | inl z ↦ ([], rw z refl, omega arith, record { value = sym ((==_iff _ _).0 z); digits = tt })
  | inr nz ↦
      let (ds, e, l, p) =
        dec_loop_lem fuel (n / 10) ((48 + n % 10) ∷ buffer) (omega (arith, pow-suc 10 fuel)) in
      (
        ds ++ ((48 + n % 10) ∷ []),
        rw nz (e ∙ ap some (sym (append-snoc ds (48 + n % 10) buffer))),
        omega (arith, l, length-append ds ((48 + n % 10) ∷ [])),
        record {
          value = read_dec-snoc 0 (48 + n % 10) ds ∙ omega (arith, p.value);
          digits = Digits-snoc (48 + n % 10) ds (omega arith) (omega arith) p.digits;
        },
      )
]

-- `print_dec` ends: for every 32-bit number its loop, whose buffer has 32 bytes, writes at most 10, all of
-- them decimal digits, and what is printed reads back to the number.
pub dec_text_lem :
    (n : ℕ)
    → n < 2 ^ 32
    → (cs : List ℕ) × (dec_text n ≡ some cs) × (length cs ≤ 10) × Digits cs × (read_dec 0 cs ≡ n)
unfolding dec_text Digits read_dec
dec_text_lem n h = elim (Bool-cases (n == 0)) [
  | inl z ↦
      (48 ∷ [], rw z refl, omega arith, (omega arith, omega arith, tt), sym ((==_iff _ _).0 z))
  | inr nz ↦
      let (ds, e, l, p) = dec_loop_lem 10 n [] (omega arith) in
      (ds, rw nz (e ∙ ap some (append-nil ds)), l, p.digits, p.value)
]

-- The value of a hexadecimal digit
pub hex_value : ℕ → ℕ
hex_value c = if ltb c 58 then c - 48 else c - 55

pub read_hex : ℕ → List ℕ → ℕ
read_hex n [] = n
read_hex n (c ∷ cs) = read_hex (n * 16 + hex_value c) cs

hex_digits-hex_value : (d : ℕ) → d < 16 → hex_value (get_or hex_digits d 0) ≡ d
unfolding hex_value
hex_digits-hex_value zero h = refl
hex_digits-hex_value (suc zero) h = refl
hex_digits-hex_value (suc (suc zero)) h = refl
hex_digits-hex_value (suc (suc (suc zero))) h = refl
hex_digits-hex_value (suc (suc (suc (suc zero)))) h = refl
hex_digits-hex_value (suc (suc (suc (suc (suc zero))))) h = refl
hex_digits-hex_value (suc (suc (suc (suc (suc (suc zero)))))) h = refl
hex_digits-hex_value (suc (suc (suc (suc (suc (suc (suc zero))))))) h = refl
hex_digits-hex_value (suc (suc (suc (suc (suc (suc (suc (suc zero)))))))) h = refl
hex_digits-hex_value (suc (suc (suc (suc (suc (suc (suc (suc (suc zero))))))))) h = refl
hex_digits-hex_value (suc (suc (suc (suc (suc (suc (suc (suc (suc (suc zero)))))))))) h = refl
hex_digits-hex_value (suc (suc (suc (suc (suc (suc (suc (suc (suc (suc (suc zero))))))))))) h = refl
hex_digits-hex_value (suc (suc (suc (suc (suc (suc (suc (suc (suc (suc (suc (suc zero))))))))))))
      h =
    refl
hex_digits-hex_value
      (suc (suc (suc (suc (suc (suc (suc (suc (suc (suc (suc (suc (suc zero))))))))))))) h =
    refl
hex_digits-hex_value
      (suc (suc (suc (suc (suc (suc (suc (suc (suc (suc (suc (suc (suc (suc zero)))))))))))))) h =
    refl
hex_digits-hex_value
      (suc (suc (suc (suc (suc (suc (suc (suc (suc (suc (suc (suc (suc (suc (suc zero)))))))))))))))
      h =
    refl
hex_digits-hex_value
      (suc
        (suc (suc (suc (suc (suc (suc (suc (suc (suc (suc (suc (suc (suc (suc (suc d))))))))))))))))
      h =
    absurd (omega arith)

nibble : (n : ℕ) → hex_value (get_or hex_digits (bit_and n 0xF) 0) ≡ n % 16
nibble n =
    let e : bit_and n 0xF ≡ n % 16 = and-ones 4 n ∙ omega arith in
    rw e (hex_digits-hex_value (n % 16) (omega arith))

-- `print_hex` prints eight digits, and they read back to the number.
pub hex_text_lem :
    (n : ℕ) → n < 2 ^ 32 → (length (hex_text 8 n) ≡ 8) × (read_hex 0 (hex_text 8 n) ≡ n)
unfolding hex_text read_hex
hex_text_lem n h = (
  refl,
  omega (
    arith,
    nibble (n / 2 ^ (4 * 0)),
    nibble (n / 2 ^ (4 * 1)),
    nibble (n / 2 ^ (4 * 2)),
    nibble (n / 2 ^ (4 * 3)),
    nibble (n / 2 ^ (4 * 4)),
    nibble (n / 2 ^ (4 * 5)),
    nibble (n / 2 ^ (4 * 6)),
    nibble (n / 2 ^ (4 * 7)),
  ),
)
