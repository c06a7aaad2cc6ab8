-- ===== src/Keyboard.antt =====
-- The keyboard driver, kernel/drivers/keyboard/keyboard.c: an interrupt handler that fills a ring of 256
-- bytes, and the reader that empties it. The scancode that the handler reads from the port is its
-- argument; the registers, which it ignores, are left out.
pub mod Ring
pub mod Decode
pub mod Trace
mod Tests
use zenix.Prelude.{
  ℕ, zero, suc, ◌+◌, ◌-◌, ◌*◌, ◌/◌, ◌%◌, ◌^◌, ◌≤◌, ◌<◌, min, max, bit_and, bit_or, ◌≡◌, refl, sym,
  ap, subst, ◌∙◌, fun_ext, ◌≢◌, ◌↔◌, ◌⊎◌, inl, inr, Bool, true, false, not, ◌&&◌, ◌||◌, Option,
  none, some, List, [], ◌∷◌, ◌++◌, map, arith, ltb, leb, ◌==◌, if◌then◌else◌, ltb→lt, ltb→ge,
  lt→ltb, ==_iff, ==_refl, Bool-cases, Option-cases, length, get_elem?, get_or, set, take, drop,
  replicate, length-append, length-set, length-replicate, get_or-replicate, get_or-set_self,
  get_or-set_ne, length-take, take-append-drop, u8, u16, u32, sub32,
}

-- The globals of keyboard.c.
pub record Keyboard : Type 0 where
  pub input_buffer : List ℕ
  pub buffer_head : ℕ
  pub buffer_tail : ℕ
  pub shift_pressed : ℕ
  pub caps_lock : ℕ

-- The entries that the initialiser leaves out are 0.
abbrev pub scancode_to_ascii : List ℕ
scancode_to_ascii =
    0 ∷ 27 ∷ 49 ∷ 50 ∷ 51 ∷ 52 ∷ 53 ∷ 54 ∷ 55 ∷ 56 ∷ 57 ∷ 48 ∷ 45 ∷ 61 ∷ 8 ∷ 9 ∷ 113 ∷ 119 ∷ 101
    ∷ 114 ∷ 116 ∷ 121 ∷ 117 ∷ 105 ∷ 111 ∷ 112 ∷ 91 ∷ 93 ∷ 10 ∷ 0 ∷ 97 ∷ 115 ∷ 100 ∷ 102 ∷ 103 ∷ 104
    ∷ 106 ∷ 107 ∷ 108 ∷ 59 ∷ 39 ∷ 96 ∷ 0 ∷ 92 ∷ 122 ∷ 120 ∷ 99 ∷ 118 ∷ 98 ∷ 110 ∷ 109 ∷ 44 ∷ 46 ∷ 47
    ∷ 0 ∷ 42 ∷ 0 ∷ 32 ∷ 0 ∷ 0 ∷ 0 ∷ 0 ∷ 0 ∷ 0 ∷ 0 ∷ 0 ∷ 0 ∷ 0 ∷ 0 ∷ 0 ∷ 0 ∷ 0 ∷ 0 ∷ 0 ∷ 45 ∷ 0 ∷ 0
    ∷ 0 ∷ 43 ∷ 0 ∷ 0 ∷ 0 ∷ 0 ∷ 0 ∷ 0 ∷ 0 ∷ 0 ∷ 0 ∷ 0 ∷ 0 ∷ 0 ∷ []

abbrev pub scancode_to_ascii_shift : List ℕ
scancode_to_ascii_shift =
    0 ∷ 27 ∷ 33 ∷ 64 ∷ 35 ∷ 36 ∷ 37 ∷ 94 ∷ 38 ∷ 42 ∷ 40 ∷ 41 ∷ 95 ∷ 43 ∷ 8 ∷ 9 ∷ 81 ∷ 87 ∷ 69 ∷ 82
    ∷ 84 ∷ 89 ∷ 85 ∷ 73 ∷ 79 ∷ 80 ∷ 123 ∷ 125 ∷ 10 ∷ 0 ∷ 65 ∷ 83 ∷ 68 ∷ 70 ∷ 71 ∷ 72 ∷ 74 ∷ 75 ∷ 76
    ∷ 58 ∷ 34 ∷ 126 ∷ 0 ∷ 124 ∷ 90 ∷ 88 ∷ 67 ∷ 86 ∷ 66 ∷ 78 ∷ 77 ∷ 60 ∷ 62 ∷ 63 ∷ 0 ∷ 42 ∷ 0 ∷ 32
    ∷ 0 ∷ 0 ∷ 0 ∷ 0 ∷ 0 ∷ 0 ∷ 0 ∷ 0 ∷ 0 ∷ 0 ∷ 0 ∷ 0 ∷ 0 ∷ 0 ∷ 0 ∷ 0 ∷ 45 ∷ 0 ∷ 0 ∷ 0 ∷ 43 ∷ 0 ∷ 0
    ∷ 0 ∷ 0 ∷ 0 ∷ 0 ∷ 0 ∷ 0 ∷ 0 ∷ 0 ∷ 0 ∷ 0 ∷ []

-- `ascii` put into the buffer, if there is room
unfoldable pub store_char : Keyboard → ℕ → Keyboard
store_char s ascii =
    if ascii == 0
    then s
    else let next_head = (s.buffer_head + 1) % 256 in
      if next_head == s.buffer_tail then s else record s {
        input_buffer = set s.input_buffer s.buffer_head ascii;
        buffer_head = next_head;
      }

unfoldable pub keyboard_handler : Keyboard → ℕ → Keyboard
keyboard_handler s scancode =
    if scancode == 0x2A || scancode == 0x36
    then record s { shift_pressed = 1 }
    else (if scancode == 0xAA || scancode == 0xB6
        then record s { shift_pressed = 0 }
        else (if scancode == 0x3A
            then record s { caps_lock = if s.caps_lock == 0 then 1 else 0 }
            else (if not (bit_and scancode 0x80 == 0)
                then s
                else store_char s (
                    if not (s.shift_pressed == 0) || not (s.caps_lock == 0)
                    then get_or scancode_to_ascii_shift scancode 0
                    else get_or scancode_to_ascii scancode 0))))

unfoldable pub keyboard_init : Keyboard → Keyboard
keyboard_init s = record s { buffer_head = 0; buffer_tail = 0; shift_pressed = 0; caps_lock = 0 }

unfoldable pub keyboard_getchar : Keyboard → ℕ × Keyboard
keyboard_getchar s = if s.buffer_head == s.buffer_tail then (0, s) else (
  get_or s.input_buffer s.buffer_tail 0,
  record s { buffer_tail = (s.buffer_tail + 1) % 256 },
)
