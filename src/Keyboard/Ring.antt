-- ===== src/Keyboard/Ring.antt =====
-- The keyboard buffer against a bounded first-in-first-out queue.
use zenix.Prelude.{
  ℕ, ◌+◌, ◌%◌, ◌<◌, ◌≡◌, refl, sym, subst, ◌∙◌, ◌≢◌, inl, inr, true, false, List, [], ◌∷◌, ◌++◌,
  arith, ltb, ◌==◌, if◌then◌else◌, ltb→lt, Bool-cases, length, get_or, set, length-append,
  length-set, get_or-set_self, get_or-set_ne,
}
use zenix.Keyboard.{Keyboard, store_char, keyboard_getchar}

-- From slot `t` on, around the end of the buffer, stand the bytes `xs`.
abbrev pub Held : List ℕ → ℕ → List ℕ → Type 0
Held buf t [] = Unit {0}
Held buf t (x ∷ xs) = (get_or buf t 0 ≡ x) × Held buf ((t + 1) % 256) xs

pub record Buffered (s : Keyboard) (xs : List ℕ) : Type 0 where
  pub size : length s.input_buffer ≡ 256
  pub tail : s.buffer_tail < 256
  pub room : length xs < 256
  pub head : s.buffer_head ≡ (s.buffer_tail + length xs) % 256
  pub held : Held s.input_buffer s.buffer_tail xs

Held-snoc :
    (buf : List ℕ) (t c : ℕ) (xs : List ℕ)
    → length buf ≡ 256
    → t < 256
    → length xs < 256
    → Held buf t xs
    → Held (set buf ((t + length xs) % 256) c) t (xs ++ (c ∷ []))
Held-snoc buf t c [] size tl room h = (
  let e : (t + 0) % 256 ≡ t = omega arith in rw e (get_or-set_self buf t c 0 (omega (arith, size))),
  tt,
)
Held-snoc buf t c (x ∷ xs) size tl room h =
    let e : (t + length (x ∷ xs)) % 256 ≡ ((t + 1) % 256 + length xs) % 256 = omega arith in
    let ne : (t + length (x ∷ xs)) % 256 ≢ t = λ z. absurd (omega (arith, z)) in
    (
      get_or-set_ne buf _ t c 0 ne ∙ h.0,
      subst (λ q. Held (set buf q c) ((t + 1) % 256) (xs ++ (c ∷ []))) (sym e)
          (Held-snoc buf ((t + 1) % 256) c xs size (omega arith) (omega arith) h.1),
    )

-- What the buffer promises: 255 bytes, and a byte that finds it full, or is 0, is dropped.
pub push : List ℕ → ℕ → List ℕ
push xs c = if c == 0 then xs else (if ltb (length xs) 255 then xs ++ (c ∷ []) else xs)

pub store_char-Buffered :
    (s : Keyboard) (xs : List ℕ) (c : ℕ) → Buffered s xs → Buffered (store_char s c) (push xs c)
unfolding store_char push
store_char-Buffered s xs c b = elim (Bool-cases (c == 0)) [
  | inl z ↦ rw z b
  | inr nz ↦ elim (Bool-cases (ltb (length xs) 255)) [
    | inl fits ↦
        let next : ((s.buffer_head + 1) % 256 == s.buffer_tail) ≡ false =
          ground (arith, b.tail, b.room, b.head, fits) in
        rw nz (
          rw fits (
            rw next (record {
              size = length-set s.input_buffer s.buffer_head c ∙ b.size;
              tail = b.tail;
              room = omega (arith, length-append xs (c ∷ []), ltb→lt _ _ fits);
              head = omega (arith, length-append xs (c ∷ []), b.head);
              held =
                  subst (λ h. Held (set s.input_buffer h c) s.buffer_tail (xs ++ (c ∷ [])))
                    (sym b.head)
                    (Held-snoc s.input_buffer s.buffer_tail c xs b.size b.tail b.room b.held);
            })))
    | inr full ↦
        let next : ((s.buffer_head + 1) % 256 == s.buffer_tail) ≡ true =
          ground (arith, b.tail, b.room, b.head, full) in
        rw nz (rw full (rw next b))
  ]
]

pub push-zero : (xs : List ℕ) → push xs 0 ≡ xs
unfolding push
push-zero xs = refl

-- What `keyboard_getchar` answers for a queue, and what it leaves.
pub data Taken : List ℕ → ℕ × Keyboard → Type 0 where
  nothing : (s : Keyboard) → Buffered s [] → Taken [] (0, s)
  oldest : (x : ℕ) (xs : List ℕ) (s : Keyboard) → Buffered s xs → Taken (x ∷ xs) (x, s)

pub keyboard_getchar-Taken :
    (s : Keyboard) (xs : List ℕ) → Buffered s xs → Taken xs (keyboard_getchar s)
unfolding keyboard_getchar
keyboard_getchar-Taken s [] b =
    let z : (s.buffer_head == s.buffer_tail) ≡ true = ground (arith, b.head, b.tail) in
    rw z (nothing s b)
keyboard_getchar-Taken s (x ∷ xs) b =
    let z : (s.buffer_head == s.buffer_tail) ≡ false = ground (arith, b.head, b.tail, b.room) in
    rw z (
      rw (b.held.0) (
        oldest x xs _ (record {
          size = b.size;
          tail = omega arith;
          room = omega (arith, b.room);
          head = omega (arith, b.head);
          held = b.held.1;
        })))
