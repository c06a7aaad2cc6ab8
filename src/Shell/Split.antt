-- ===== src/Shell/Split.antt =====
-- How `shell_execute` takes a line apart, and the time that `uptime` shows.
use zenix.Prelude.{
  ℕ, zero, suc, ◌+◌, ◌*◌, ◌/◌, ◌%◌, ◌≤◌, ◌<◌, ◌≡◌, refl, ap, false, some, List, [], ◌∷◌, ◌++◌,
  arith, ◌==◌, length, take,
}
use zenix.Prelude.Codes.{codes}
use zenix.Shell.{space, take_word, args_of, split_line, choose, shell_execute}
use zenix.Shell.Commands.{text, number, shell_uptime}

abbrev pub NoSpace : List ℕ → Type 0
NoSpace [] = Unit {0}
NoSpace (c ∷ cs) = ((c == space) ≡ false) × NoSpace cs

take_word-space :
    (word : List ℕ) (room : ℕ) (rest : List ℕ)
    → NoSpace word
    → length word ≤ room
    → take_word room (word ++ space ∷ rest) ≡ (word, space ∷ rest)
unfolding take_word
take_word-space [] zero rest ok h = refl
take_word-space [] (suc room) rest ok h = refl
take_word-space (x ∷ xs) zero rest ok h = absurd (omega (arith, h))
take_word-space (x ∷ xs) (suc room) rest ok h =
    rw (ok.0) (rw (take_word-space xs room rest (ok.1) (omega arith)) refl)

take_word-end :
    (word : List ℕ) (room : ℕ)
    → NoSpace word
    → length word ≤ room
    → take_word room word ≡ (word, [])
unfolding take_word
take_word-end [] zero ok h = refl
take_word-end [] (suc room) ok h = refl
take_word-end (x ∷ xs) zero ok h = absurd (omega (arith, h))
take_word-end (x ∷ xs) (suc room) ok h =
    rw (ok.0) (rw (take_word-end xs room (ok.1) (omega arith)) refl)

take_short : (xs : List ℕ) (n : ℕ) → length xs ≤ n → take n xs ≡ xs
take_short [] zero h = refl
take_short [] (suc n) h = refl
take_short (x ∷ xs) zero h = absurd (omega (arith, h))
take_short (x ∷ xs) (suc n) h = ap (◌∷◌ x) (take_short xs n (omega arith))

split_line-space :
    (word args : List ℕ)
    → NoSpace word
    → length word < 64
    → length args < 192
    → split_line (word ++ space ∷ args) ≡ (word, args)
unfolding split_line args_of
split_line-space word args ok short h =
    rw (take_word-space word 63 args ok (omega (arith, short)))
      (ap (λ q. (word, q)) (take_short args 191 (omega (arith, h))))

split_line-end : (word : List ℕ) → NoSpace word → length word < 64 → split_line word ≡ (word, [])
unfolding split_line args_of
split_line-end word ok short = rw (take_word-end word 63 ok (omega (arith, short))) refl

-- A line that is a word of 1 to 63 bytes, a space, and at most 191 bytes more, whatever these are, is run as
-- the command of that word with exactly those bytes as its arguments; and the word alone as the
-- command with no arguments.
pub shell_execute_lem :
    (c : ℕ) (word args : List ℕ)
    → NoSpace (c ∷ word)
    → length (c ∷ word) < 64
    → length args < 192
    → (shell_execute ((c ∷ word) ++ space ∷ args) ≡ some (choose (c ∷ word) args))
      × (shell_execute (c ∷ word) ≡ some (choose (c ∷ word) []))
unfolding shell_execute
shell_execute_lem c word args ok short h = (
  rw (split_line-space (c ∷ word) args ok short h, shell_execute) refl,
  rw (split_line-end (c ∷ word) ok short, shell_execute) refl,
)

-- `uptime` shows hours, minutes and seconds, the last two below 60, that make the whole seconds of the ticks
-- at 100 a second.
pub shell_uptime_lem :
    (ticks : ℕ)
    → (h : ℕ) × (m : ℕ) × (s : ℕ) × (shell_uptime ticks
        ≡ text (codes "Uptime: ")
          ∷ number h
          ∷ text (codes "h ")
          ∷ number m
          ∷ text (codes "m ")
          ∷ number s
          ∷ text (codes "s\n")
          ∷ [])
      × (m < 60)
      × (s < 60)
      × (h * 3600 + m * 60 + s ≡ ticks / 100)
unfolding shell_uptime
shell_uptime_lem ticks = (
  ticks / 100 / 60 / 60,
  ticks / 100 / 60 % 60,
  ticks / 100 % 60,
  refl,
  omega arith,
  omega arith,
  omega arith,
)
