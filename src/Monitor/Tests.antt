-- ===== src/Monitor/Tests.antt =====
-- Runs of the text screen, and its theorems at concrete states.
use zenix.Prelude.{ℕ, ◌≤◌, ◌≡◌, refl, some, List, [], ◌∷◌, arith, length}
use zenix.Monitor.{
  save_line_to_scrollback, Monitor, print_char, dec_loop, dec_text, advance, wrap_line, scroll,
}
use zenix.Monitor.Screen.{IsValid}
use zenix.Monitor.Numbers.{Digits, read_dec, dec_text_lem}

abbrev corner : Monitor
corner = record {
  video_memory = λ i. 0;
  cursor_x = 79;
  cursor_y = 24;
  attribute = 0x0F;
  scrollback_buffer = λ l i. 0;
  scrollback_count = 0;
  scrollback_offset = 0;
}

-- A character in the last cell scrolls the screen.
print-corner : ((print_char corner 65).cursor_x ≡ 0) × ((print_char corner 65).cursor_y ≡ 24)
unfolding print_char advance wrap_line scroll save_line_to_scrollback
print-corner = (refl, refl)

dec-1024 : dec_text 1024 ≡ some (49 ∷ 48 ∷ 50 ∷ 52 ∷ [])
unfolding dec_text dec_loop
dec-1024 = refl

corner-IsValid : IsValid corner
corner-IsValid = record { column = omega arith; line = omega arith; kept = omega arith }

dec_text_lem_example :
    (cs : List ℕ) × (dec_text 1024 ≡ some cs)
    × (length cs ≤ 10)
    × Digits cs
    × (read_dec 0 cs ≡ 1024)
dec_text_lem_example = dec_text_lem 1024 (omega arith)
