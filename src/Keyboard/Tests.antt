-- ===== src/Keyboard/Tests.antt =====
-- Runs of the keyboard driver, and its theorems at a concrete keyboard.
use zenix.Prelude.{◌≡◌, refl, false, List, [], ◌∷◌, arith, replicate, length-replicate}
use zenix.Keyboard.{Keyboard, store_char, keyboard_handler, keyboard_init, keyboard_getchar}
use zenix.Keyboard.Decode.{Typing}
use zenix.Keyboard.Trace.{Event, interrupt, getchar, answers, typed, answers_lem}

abbrev blank : Keyboard
blank = record {
  input_buffer = replicate 256 0;
  buffer_head = 0;
  buffer_tail = 0;
  shift_pressed = 0;
  caps_lock = 0;
}

-- "a" with shift held, then "b" alone, then three reads
abbrev session : List Event
session =
    interrupt 0x2A ∷ interrupt 30 ∷ interrupt 0xAA ∷ interrupt 48 ∷ getchar ∷ getchar ∷ getchar ∷ []

answers-session :
    answers (keyboard_init (record blank { input_buffer = 0 ∷ 0 ∷ [] })) session ≡ 65 ∷ 98 ∷ 0 ∷ []
unfolding answers keyboard_init keyboard_handler keyboard_getchar store_char
answers-session = refl

abbrev idle : Typing
idle = record { queue = []; shift = false; caps = false }

answers_lem_example : answers (keyboard_init blank) session ≡ typed idle session
answers_lem_example =
    answers_lem blank session (length-replicate 256 0)
      (omega arith, (omega arith, (omega arith, (omega arith, tt))))
