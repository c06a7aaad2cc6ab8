-- ===== src/Monitor.antt =====
-- The text screen, kernel/core/monitor.c: 25 lines of 80 cells, a cursor, and the printing of characters
-- and numbers. A cell is its 16 bits; the screen is a function from the index of a cell.
pub mod Screen
pub mod Numbers
mod Tests
use zenix.Prelude.{
  ℕ, zero, suc, ◌+◌, ◌-◌, ◌*◌, ◌/◌, ◌%◌, ◌^◌, ◌≤◌, ◌<◌, min, max, bit_and, bit_or, ◌≡◌, refl, sym,
  ap, subst, ◌∙◌, fun_ext, ◌≢◌, ◌↔◌, ◌⊎◌, inl, inr, Bool, true, false, not, ◌&&◌, ◌||◌, Option,
  none, some, List, [], ◌∷◌, ◌++◌, map, arith, ltb, leb, ◌==◌, if◌then◌else◌, ltb→lt, ltb→ge,
  lt→ltb, ==_iff, ==_refl, Bool-cases, Option-cases, length, get_elem?, get_or, set, take, drop,
  replicate, length-append, length-set, length-replicate, get_or-replicate, get_or-set_self,
  get_or-set_ne, length-take, take-append-drop, u8, u16, u32, sub32,
}
use zenix.Strings.{copy_up, memset_loop}

-- The globals of monitor.c.
pub record Monitor : Type 0 where
  pub video_memory : ℕ → ℕ
  pub cursor_x : ℕ
  pub cursor_y : ℕ
  pub attribute : ℕ
  pub scrollback_buffer : ℕ → ℕ → ℕ
  pub scrollback_count : ℕ
  pub scrollback_offset : ℕ

abbrev pub scrollback_lines : ℕ
scrollback_lines = 100

-- What `(attribute << 8) | c` leaves in a cell, for a `char` that is negative from 128 on.
abbrev pub cell_of : ℕ → ℕ → ℕ
cell_of attribute c = if ltb c 128 then u16 (attribute * 256 + c) else 0xFF00 + c

abbrev pub blank_cell : ℕ → ℕ
blank_cell attribute = cell_of attribute 32

unfoldable pub clear_screen : Monitor → Monitor
clear_screen s = record s {
  video_memory = memset_loop (80 * 25) s.video_memory 0 (blank_cell s.attribute) 0;
  cursor_x = 0;
  cursor_y = 0;
  scrollback_count = 0;
  scrollback_offset = 0;
}

unfoldable pub save_line_to_scrollback : Monitor → Monitor
save_line_to_scrollback s =
    if ltb s.scrollback_count scrollback_lines
    then record s {
      scrollback_buffer = λ line i.
          if (line == s.scrollback_count) && ltb i 80
          then s.video_memory i % 256
          else s.scrollback_buffer line i;
      scrollback_count = s.scrollback_count + 1;
    }
    else s

unfoldable pub scroll : Monitor → Monitor
scroll s =
    if leb 25 s.cursor_y
    then (let t = save_line_to_scrollback s in
        record t {
          video_memory =
              memset_loop 80 (copy_up (24 * 80) t.video_memory 0 80 0) 0 (blank_cell t.attribute)
                (24 * 80);
          cursor_y = 24;
        })
    else s

abbrev pub put_cell : Monitor → ℕ → Monitor
put_cell s v = record s {
  video_memory = λ i. if i == s.cursor_y * 80 + s.cursor_x then v else s.video_memory i;
}

-- The branches of `print_char`: newline, backspace, tab and the rest
unfoldable pub advance : Monitor → ℕ → Monitor
advance s c =
    if c == 10
    then record s { cursor_x = 0; cursor_y = u8 (s.cursor_y + 1) }
    else (if c == 8
        then (if s.cursor_x == 0
            then s
            else put_cell (record s { cursor_x = s.cursor_x - 1 }) (blank_cell s.attribute))
        else (if c == 9
            then record s { cursor_x = u8 ((s.cursor_x + 4) / 4 * 4) }
            else record (put_cell s (cell_of s.attribute c)) { cursor_x = u8 (s.cursor_x + 1) }))

unfoldable pub wrap_line : Monitor → Monitor
wrap_line s =
    if leb 80 s.cursor_x then record s { cursor_x = 0; cursor_y = u8 (s.cursor_y + 1) } else s

unfoldable pub print_char : Monitor → ℕ → Monitor
print_char s c = scroll (wrap_line (advance s c))

-- The text is given as the bytes before its terminating 0.
unfoldable pub print_string : Monitor → List ℕ → Monitor
print_string s [] = s
print_string s (c ∷ cs) = print_string (print_char s c) cs

-- `while (n > 0)`: the digits, the last one written first; `none` means that the fuel ran out.
unfoldable pub dec_loop : ℕ → ℕ → List ℕ → Option (List ℕ)
dec_loop zero n buffer = if n == 0 then some buffer else none
dec_loop (suc fuel) n buffer =
    let rest = dec_loop fuel (n / 10) ((48 + n % 10) ∷ buffer) in
    if n == 0 then some buffer else rest

-- The characters that `print_dec` prints
unfoldable pub dec_text : ℕ → Option (List ℕ)
dec_text n = if n == 0 then some (48 ∷ []) else dec_loop 10 n []

unfoldable pub print_dec : Monitor → ℕ → Option Monitor
print_dec s n = elim (dec_text n) [ none ↦ none | some cs ↦ some (print_string s cs) ]

abbrev pub hex_digits : List ℕ
hex_digits = 48 ∷ 49 ∷ 50 ∷ 51 ∷ 52 ∷ 53 ∷ 54 ∷ 55 ∷ 56 ∷ 57 ∷ 65 ∷ 66 ∷ 67 ∷ 68 ∷ 69 ∷ 70 ∷ []

-- `for (int i = 28; i >= 0; i -= 4)` with the digits from place `k` down
unfoldable pub hex_text : ℕ → ℕ → List ℕ
hex_text zero n = []
hex_text (suc k) n = get_or hex_digits (bit_and (n / 2 ^ (4 * k)) 0xF) 0 ∷ hex_text k n

unfoldable pub print_hex : Monitor → ℕ → Monitor
print_hex s n = print_string s (hex_text 8 n)

unfoldable pub set_text_color : Monitor → ℕ → ℕ → Monitor
set_text_color s foreground background = record s {
  attribute = u8 (bit_or (background * 16) (bit_and foreground 0x0F));
}
