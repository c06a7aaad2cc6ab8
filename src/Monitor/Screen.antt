-- ===== src/Monitor/Screen.antt =====
-- The cursor stays on the screen, and nothing is written outside it.
use zenix.Prelude.{
  ℕ, ◌+◌, ◌≤◌, ◌<◌, ◌≡◌, refl, ap, ◌∙◌, inl, inr, false, List, [], ◌∷◌, arith, ltb, leb, Bool-cases,
}
use zenix.Strings.{copy_up}
use zenix.Strings.Moves.{within, copy_up_lem, memset_loop_lem}
use zenix.Monitor.{
  Monitor, scrollback_lines, blank_cell, save_line_to_scrollback, scroll, advance, wrap_line,
  print_char, print_string,
}

-- The cursor on the screen, and no more lines kept than there is room for.
pub record IsValid (s : Monitor) : Type 0 where
  pub column : s.cursor_x < 80
  pub line : s.cursor_y < 25
  pub kept : s.scrollback_count ≤ scrollback_lines

-- A state between the steps of `print_char`: the cursor at most one column or one line too far.
record Between (s : Monitor) : Type 0 where
  column : s.cursor_x ≤ 80
  line : s.cursor_y ≤ 25
  corner : (s.cursor_x ≡ 80) → s.cursor_y < 25
  kept : s.scrollback_count ≤ scrollback_lines

-- Only cells of the screen are written.
pub OnScreen : Monitor → Monitor → Type 0
OnScreen s s' = (i : ℕ) → 2000 ≤ i → s'.video_memory i ≡ s.video_memory i

advance-Between : (s : Monitor) (c : ℕ) → IsValid s → Between (advance s c)
unfolding advance
advance-Between s c v = record {
  column = ground (arith, v.column);
  line = ground (arith, v.line);
  corner = λ e. ground (arith, v.line, e);
  kept = ground (arith, v.kept);
}

advance-OnScreen : (s : Monitor) (c : ℕ) → IsValid s → OnScreen s (advance s c)
unfolding advance OnScreen
advance-OnScreen s c v i h = ground (arith, v.column, v.line)

-- The state before `scroll`
record Wrapped (s : Monitor) : Type 0 where
  column : s.cursor_x < 80
  line : s.cursor_y ≤ 25
  kept : s.scrollback_count ≤ scrollback_lines

wrap_line-Wrapped : (s : Monitor) → Between s → Wrapped (wrap_line s)
unfolding wrap_line
wrap_line-Wrapped s b = elim (Bool-cases (leb 80 s.cursor_x)) [
  | inl over ↦
      let e : s.cursor_x ≡ 80 = ground (arith, over, b.column) in
      rw over (record { column = omega arith; line = omega (arith, b.corner e); kept = b.kept })
  | inr fits ↦ rw fits (record { column = ground (arith, fits); line = b.line; kept = b.kept })
]

wrap_line-OnScreen : (s : Monitor) → OnScreen s (wrap_line s)
unfolding wrap_line OnScreen
wrap_line-OnScreen s i h = ground arith

save_line-video : (s : Monitor) → (save_line_to_scrollback s).video_memory ≡ s.video_memory
unfolding save_line_to_scrollback
save_line-video s = elim (Bool-cases (ltb s.scrollback_count scrollback_lines)) [
  | inl room ↦ rw room refl
  | inr full ↦ rw full refl
]

save_line-kept :
    (s : Monitor)
    → s.scrollback_count ≤ scrollback_lines
    → (save_line_to_scrollback s).scrollback_count ≤ scrollback_lines
unfolding save_line_to_scrollback
save_line-kept s h = ground (arith, h)

save_line-column : (s : Monitor) → (save_line_to_scrollback s).cursor_x ≡ s.cursor_x
unfolding save_line_to_scrollback
save_line-column s = ground arith

scroll-IsValid : (s : Monitor) → Wrapped s → IsValid (scroll s)
unfolding scroll
scroll-IsValid s w = elim (Bool-cases (leb 25 s.cursor_y)) [
  | inl over ↦ rw over (record {
    column = omega (arith, save_line-column s, w.column);
    line = omega arith;
    kept = save_line-kept s w.kept;
  })
  | inr fits ↦ rw fits (record { column = w.column; line = ground (arith, fits); kept = w.kept })
]

scroll-OnScreen : (s : Monitor) → OnScreen s (scroll s)
unfolding scroll OnScreen
scroll-OnScreen s i h = elim (Bool-cases (leb 25 s.cursor_y)) [
  | inl over ↦
      let t = save_line_to_scrollback s in
      let out : within (0 + 1920) 80 i ≡ false = ground (arith, h) in
      let out' : within 0 1920 i ≡ false = ground (arith, h) in
      rw over (
        memset_loop_lem 80 (copy_up 1920 t.video_memory 0 80 0) 0 (blank_cell t.attribute) 1920 i
        ∙ rw out (
            copy_up_lem 1920 t.video_memory 0 80 0 i (inl (omega arith))
            ∙ rw out' (ap (λ m. m i) (save_line-video s))))
  | inr fits ↦ rw fits refl
]

-- Printing a character keeps the cursor on the screen and the kept lines in their buffer, and writes no cell
-- outside the 2000 of the screen, for every character.
pub print_char-IsValid :
    (s : Monitor) (c : ℕ) → IsValid s → IsValid (print_char s c) × OnScreen s (print_char s c)
unfolding print_char OnScreen
print_char-IsValid s c v = (
  scroll-IsValid _ (wrap_line-Wrapped _ (advance-Between s c v)),
  λ i h.
      scroll-OnScreen (wrap_line (advance s c)) i h
      ∙ wrap_line-OnScreen (advance s c) i h
      ∙ advance-OnScreen s c v i h,
)

-- The same of a text of any length.
pub print_string-IsValid :
    (cs : List ℕ) (s : Monitor)
    → IsValid s
    → IsValid (print_string s cs) × OnScreen s (print_string s cs)
unfolding print_string OnScreen
print_string-IsValid [] s v = (v, λ i h. refl)
print_string-IsValid (c ∷ cs) s v =
    let one = print_char-IsValid s c v in
    let rest = print_string-IsValid cs (print_char s c) one.0 in
    (rest.0, λ i h. rest.1 i h ∙ one.1 i h)
