-- ===== src/Keyboard/Decode.antt =====
-- What one scancode does: the keyboard interrupt against an abstract keyboard.
use zenix.Prelude.{
  ℕ, ◌≤◌, ◌<◌, bit_and, ◌≡◌, refl, sym, subst, ◌∙◌, ◌⊎◌, inl, inr, Bool, true, false, not, ◌||◌,
  List, arith, ltb, ◌==◌, if◌then◌else◌, ltb→ge, ==_iff, Bool-cases, get_or,
}
use zenix.Prelude.Bits.{mask_test}
use zenix.Keyboard.{
  Keyboard, scancode_to_ascii, scancode_to_ascii_shift, store_char, keyboard_handler,
}
use zenix.Keyboard.Ring.{Buffered, push, push-zero, store_char-Buffered}

-- The abstract keyboard: the characters typed and not yet read, and the two modifiers.
pub record Typing : Type 0 where
  pub queue : List ℕ
  pub shift : Bool
  pub caps : Bool

-- The character of a key that goes down; a key that goes up has none.
pub char_of : Bool → ℕ → ℕ
char_of upper code =
    if ltb code 128
    then get_or (if upper then scancode_to_ascii_shift else scancode_to_ascii) code 0
    else 0

-- One of the shift keys goes down or up
pub shift_after : Bool → ℕ → Bool
shift_after shift code =
    if code == 0x2A || code == 0x36
    then true
    else (if code == 0xAA || code == 0xB6 then false else shift)

pub type_key : Typing → ℕ → Typing
type_key t code = record {
  queue = push t.queue (char_of (t.shift || t.caps) code);
  shift = shift_after t.shift code;
  caps = if code == 0x3A then not t.caps else t.caps;
}

pub record Refines (s : Keyboard) (t : Typing) : Type 0 where
  pub buffered : Buffered s t.queue
  pub shift : (s.shift_pressed == 0) ≡ not t.shift
  pub caps : (s.caps_lock == 0) ≡ not t.caps

char_of_up : (upper : Bool) (code : ℕ) → 128 ≤ code → char_of upper code ≡ 0
unfolding char_of
char_of_up upper code h = ground arith

high_bit : (code : ℕ) → code < 256 → (bit_and code 0x80 == 0) ≡ ltb code 128
high_bit code h = mask_test code 7 ∙ ground arith

abbrev Modifier : ℕ → Type 0
Modifier code = (code ≡ 0x2A) ⊎ ((code ≡ 0x36) ⊎ ((code ≡ 0xAA) ⊎ ((code ≡ 0xB6) ⊎ (code ≡ 0x3A))))

char_of-Modifier : (upper : Bool) (code : ℕ) → Modifier code → char_of upper code ≡ 0
unfolding char_of
char_of-Modifier true code (inl e) = rw e refl
char_of-Modifier true code (inr (inl e)) = rw e refl
char_of-Modifier true code (inr (inr (inl e))) = rw e refl
char_of-Modifier true code (inr (inr (inr (inl e)))) = rw e refl
char_of-Modifier true code (inr (inr (inr (inr e)))) = rw e refl
char_of-Modifier false code (inl e) = rw e refl
char_of-Modifier false code (inr (inl e)) = rw e refl
char_of-Modifier false code (inr (inr (inl e))) = rw e refl
char_of-Modifier false code (inr (inr (inr (inl e)))) = rw e refl
char_of-Modifier false code (inr (inr (inr (inr e)))) = rw e refl

-- A state that differs in the modifiers only, after a code without a character.
silent :
    (s s' : Keyboard) (t : Typing) (code : ℕ)
    → Refines s t
    → char_of (t.shift || t.caps) code ≡ 0
    → s'.input_buffer ≡ s.input_buffer
    → s'.buffer_head ≡ s.buffer_head
    → s'.buffer_tail ≡ s.buffer_tail
    → Buffered s' (push t.queue (char_of (t.shift || t.caps) code))
silent s s' t code r quiet buf head tail = rw quiet (
    rw (push-zero t.queue) (record {
      size = rw buf r.buffered.size;
      tail = rw tail r.buffered.tail;
      room = r.buffered.room;
      head = rw head (rw tail r.buffered.head);
      held = rw buf (rw tail r.buffered.held);
    }))

caps_flip : (c : ℕ) (b : Bool) → (c == 0) ≡ not b → ((if c == 0 then 1 else 0) == 0) ≡ not (not b)
caps_flip c true h = rw h refl
caps_flip c false h = rw h refl

abbrev AtCode : Keyboard → Typing → ℕ → Type 0
AtCode s t code = Refines (keyboard_handler s code) (type_key t code)

Modifier-Refines :
    (s : Keyboard) (t : Typing) (code : ℕ)
    → Refines s t
    → Modifier code
    → Refines (keyboard_handler s code) (type_key t code)
unfolding keyboard_handler type_key shift_after
Modifier-Refines s t code r (inl e) = subst (AtCode s t) (sym e) (record {
  buffered =
      silent s (record s { shift_pressed = 1 }) t 0x2A r
        (char_of-Modifier (t.shift || t.caps) 0x2A (inl refl)) refl refl refl;
  shift = refl;
  caps = r.caps;
})
Modifier-Refines s t code r (inr (inl e)) = subst (AtCode s t) (sym e) (record {
  buffered =
      silent s (record s { shift_pressed = 1 }) t 0x36 r
        (char_of-Modifier (t.shift || t.caps) 0x36 (inr (inl refl))) refl refl refl;
  shift = refl;
  caps = r.caps;
})
Modifier-Refines s t code r (inr (inr (inl e))) = subst (AtCode s t) (sym e) (record {
  buffered =
      silent s (record s { shift_pressed = 0 }) t 0xAA r
        (char_of-Modifier (t.shift || t.caps) 0xAA (inr (inr (inl refl)))) refl refl refl;
  shift = refl;
  caps = r.caps;
})
Modifier-Refines s t code r (inr (inr (inr (inl e)))) = subst (AtCode s t) (sym e) (record {
  buffered =
      silent s (record s { shift_pressed = 0 }) t 0xB6 r
        (char_of-Modifier (t.shift || t.caps) 0xB6 (inr (inr (inr (inl refl))))) refl refl refl;
  shift = refl;
  caps = r.caps;
})
Modifier-Refines s t code r (inr (inr (inr (inr e)))) = subst (AtCode s t) (sym e) (record {
  buffered =
      silent s (record s { caps_lock = if s.caps_lock == 0 then 1 else 0 }) t 0x3A r
        (char_of-Modifier (t.shift || t.caps) 0x3A (inr (inr (inr (inr refl))))) refl refl refl;
  shift = r.shift;
  caps = caps_flip s.caps_lock t.caps r.caps;
})

store_char-modifiers :
    (s : Keyboard) (c : ℕ)
    → ((store_char s c).shift_pressed ≡ s.shift_pressed)
      × ((store_char s c).caps_lock ≡ s.caps_lock)
unfolding store_char
store_char-modifiers s c = (ground arith, ground arith)

upper_lem : (a b x y : Bool) → a ≡ not x → b ≡ not y → (not a || not b) ≡ (x || y)
upper_lem a b x y p q = ground (arith, p, q)

char_of_down :
    (upper : Bool) (code : ℕ)
    → ltb code 128 ≡ true
    → char_of upper code
      ≡ (if upper then get_or scancode_to_ascii_shift code 0 else get_or scancode_to_ascii code 0)
unfolding char_of
char_of_down true code h = rw h refl
char_of_down false code h = rw h refl

-- A key that goes down and is no modifier
down-Refines :
    (s : Keyboard) (t : Typing) (code : ℕ)
    → Refines s t
    → ltb code 128 ≡ true
    → Refines
        (store_char s (
          if not (s.shift_pressed == 0) || not (s.caps_lock == 0)
          then get_or scancode_to_ascii_shift code 0
          else get_or scancode_to_ascii code 0))
        (record t { queue = push t.queue (char_of (t.shift || t.caps) code) })
down-Refines s t code r h =
    let m = store_char-modifiers s (char_of (t.shift || t.caps) code) in
    rw (upper_lem _ _ _ _ r.shift r.caps) (
      rw⁻¹ (char_of_down (t.shift || t.caps) code h) (record {
        buffered = store_char-Buffered s t.queue _ r.buffered;
        shift = rw (m.0) r.shift;
        caps = rw (m.1) r.caps;
      }))

plain-Refines :
    (s : Keyboard) (t : Typing) (code : ℕ)
    → Refines s t
    → code < 256
    → (code == 0x2A) ≡ false
    → (code == 0x36) ≡ false
    → (code == 0xAA) ≡ false
    → (code == 0xB6) ≡ false
    → (code == 0x3A) ≡ false
    → Refines (keyboard_handler s code) (type_key t code)
unfolding keyboard_handler type_key shift_after
plain-Refines s t code r byte a b c d e = rw a (
    rw b (
      rw c (
        rw d (
          rw e (
            rw (high_bit code byte) (elim (Bool-cases (ltb code 128)) [
              | inl down ↦ rw down (down-Refines s t code r down)
              | inr up ↦ rw up (record {
                buffered = silent s s t code r (char_of_up _ code (ltb→ge _ _ up)) refl refl refl;
                shift = r.shift;
                caps = r.caps;
              })
            ]))))))

-- One interrupt of the keyboard does to the buffer and the modifiers what a key does to the abstract
-- keyboard, for every byte that the port may give.
pub keyboard_handler_lem :
    (s : Keyboard) (t : Typing) (code : ℕ)
    → Refines s t
    → code < 256
    → Refines (keyboard_handler s code) (type_key t code)
keyboard_handler_lem s t code r byte = elim (Bool-cases (code == 0x2A)) [
  | inl y ↦ Modifier-Refines s t code r (inl ((==_iff _ _).0 y))
  | inr a ↦ elim (Bool-cases (code == 0x36)) [
    | inl y ↦ Modifier-Refines s t code r (inr (inl ((==_iff _ _).0 y)))
    | inr b ↦ elim (Bool-cases (code == 0xAA)) [
      | inl y ↦ Modifier-Refines s t code r (inr (inr (inl ((==_iff _ _).0 y))))
      | inr c ↦ elim (Bool-cases (code == 0xB6)) [
        | inl y ↦ Modifier-Refines s t code r (inr (inr (inr (inl ((==_iff _ _).0 y)))))
        | inr d ↦ elim (Bool-cases (code == 0x3A)) [
          | inl y ↦ Modifier-Refines s t code r (inr (inr (inr (inr ((==_iff _ _).0 y)))))
          | inr e ↦ plain-Refines s t code r byte a b c d e
        ]
      ]
    ]
  ]
]
