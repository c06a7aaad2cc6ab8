-- ===== src/Keyboard/Trace.antt =====
-- The keyboard driver as its users see it: scancodes come in, and characters are taken out in order.
use zenix.Prelude.{ℕ, ◌<◌, ◌≡◌, refl, ap, false, List, [], ◌∷◌, arith, length}
use zenix.Keyboard.{Keyboard, keyboard_handler, keyboard_init, keyboard_getchar}
use zenix.Keyboard.Ring.{Buffered, Taken, nothing, oldest, keyboard_getchar-Taken}
use zenix.Keyboard.Decode.{Typing, type_key, Refines, keyboard_handler_lem}

-- What happens to the keyboard: an interrupt with the byte of the port, or a read.
pub data Event : Type 0 where
  interrupt : (code : ℕ) → Event
  getchar : Event

abbrev pub Bytes : List Event → Type 0
Bytes [] = Unit {0}
Bytes (interrupt code ∷ es) = (code < 256) × Bytes es
Bytes (getchar ∷ es) = Bytes es

-- The answers of `keyboard_getchar` in a sequence of events
unfoldable pub answers : Keyboard → List Event → List ℕ
answers s [] = []
answers s (interrupt code ∷ es) = answers (keyboard_handler s code) es
answers s (getchar ∷ es) = let (c, s') = keyboard_getchar s in c ∷ answers s' es

pub first_of : List ℕ → ℕ
first_of [] = 0
first_of (x ∷ xs) = x

pub rest : List ℕ → List ℕ
rest [] = []
rest (x ∷ xs) = xs

-- The answers that the abstract keyboard gives: the oldest character, or 0
pub typed : Typing → List Event → List ℕ
typed t [] = []
typed t (interrupt code ∷ es) = typed (type_key t code) es
typed t (getchar ∷ es) = first_of t.queue ∷ typed (record t { queue = rest t.queue }) es

init-Refines :
    (s : Keyboard)
    → length s.input_buffer ≡ 256
    → Refines (keyboard_init s) (record { queue = []; shift = false; caps = false })
unfolding keyboard_init
init-Refines s size = record {
  buffered = record { size = size; tail = omega arith; room = omega arith; head = refl; held = tt };
  shift = refl;
  caps = refl;
}

keyboard_getchar-modifiers :
    (s : Keyboard)
    → ((keyboard_getchar s).1.shift_pressed ≡ s.shift_pressed)
      × ((keyboard_getchar s).1.caps_lock ≡ s.caps_lock)
unfolding keyboard_getchar
keyboard_getchar-modifiers s = (ground arith, ground arith)

Taken-Buffered :
    (xs : List ℕ) (r : ℕ × Keyboard) → Taken xs r → (r.0 ≡ first_of xs) × Buffered r.1 (rest xs)
unfolding first_of rest
Taken-Buffered _ _ (nothing s b) = (refl, b)
Taken-Buffered _ _ (oldest x xs s b) = (refl, b)

Refines-answers :
    (es : List Event) (s : Keyboard) (t : Typing)
    → Refines s t
    → Bytes es
    → answers s es ≡ typed t es
unfolding answers typed
Refines-answers [] s t r b = refl
Refines-answers (interrupt code ∷ es) s t r b =
    Refines-answers es (keyboard_handler s code) (type_key t code)
      (keyboard_handler_lem s t code r b.0) b.1
Refines-answers (getchar ∷ es) s t r b =
    let m = keyboard_getchar-modifiers s in
    let g =
      Taken-Buffered t.queue (keyboard_getchar s) (keyboard_getchar-Taken s t.queue r.buffered) in
    let r' : Refines ((keyboard_getchar s).1) (record t { queue = rest t.queue }) = record {
      buffered = g.1;
      shift = rw (m.0) r.shift;
      caps = rw (m.1) r.caps;
    } in
    rw (g.0) (ap (◌∷◌ (first_of t.queue)) (Refines-answers es _ _ r' b))

-- From `keyboard_init` on, in every sequence of interrupts and reads, the reads answer what was typed
-- and still unread, in order, with shift and caps lock applied; a character that comes when 255 are
-- unread is lost, and a read with nothing to answer is 0.
pub answers_lem :
    (s : Keyboard) (es : List Event)
    → length s.input_buffer ≡ 256
    → Bytes es
    → answers (keyboard_init s) es ≡ typed (record { queue = []; shift = false; caps = false }) es
answers_lem s es size b = Refines-answers es _ _ (init-Refines s size) b
