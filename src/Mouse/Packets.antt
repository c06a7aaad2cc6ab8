-- ===== src/Mouse/Packets.antt =====
-- The packets of the mouse: the pointer stays on the screen, and what three bytes do to it.
use zenix.Prelude.{
  ℕ, ◌+◌, ◌<◌, bit_and, ◌≡◌, refl, ◌∙◌, inl, inr, Bool, true, false, not, ◌&&◌, ◌||◌, List, [], ◌∷◌,
  ◌++◌, arith, ◌==◌, if◌then◌else◌, Bool-cases, length, get_or, set, length-set, u32,
}
use zenix.Prelude.Int.{ℤ, ◌+ℤ◌, ◌-ℤ◌}
use zenix.Prelude.Bits.{bit_at, mask_test}
use zenix.Mouse.{Mouse, parse_packet, mouse_handler_wrapper}
use zenix.Mouse.Axis.{
  OnAxis, clamp-OnAxis, counts, Sped, Held, accelerate-Sped, clamp-Held, masked_distance,
}

pub record IsMouse (s : Mouse) : Type 0 where
  pub on_x : OnAxis s.x 640
  pub on_y : OnAxis s.y 480
  pub cycle : s.mouse_cycle < 3
  pub bytes : length s.mouse_byte ≡ 3

-- The interrupts come as the status and the byte that the ports give.
unfoldable pub run : List (ℕ × ℕ) → Mouse → Mouse
run [] s = s
run ((status, byte) ∷ rest) s = run rest (mouse_handler_wrapper s status byte)

parse_packet-IsMouse :
    (s : Mouse)
    → OnAxis s.x 640
    → OnAxis s.y 480
    → length s.mouse_byte ≡ 3
    → IsMouse (parse_packet s)
unfolding parse_packet
parse_packet-IsMouse s x y size = elim (Bool-cases (bit_and (get_or s.mouse_byte 0 0) 0x40 == 0)) [
  | inl a ↦ elim (Bool-cases (bit_and (get_or s.mouse_byte 0 0) 0x80 == 0)) [
    | inl b ↦
        rw (a, parse_packet)
          (rw b (record {
            on_x = clamp-OnAxis _ 640 (omega arith);
            on_y = clamp-OnAxis _ 480 (omega arith);
            cycle = omega arith;
            bytes = size;
          }))
    | inr b ↦
        rw (a, parse_packet)
          (rw b (record { on_x = x; on_y = y; cycle = omega arith; bytes = size }))
  ]
  | inr a ↦ rw (a, parse_packet) (record { on_x = x; on_y = y; cycle = omega arith; bytes = size })
]

handler-IsMouse :
    (s : Mouse) (status byte : ℕ) → IsMouse s → IsMouse (mouse_handler_wrapper s status byte)
unfolding mouse_handler_wrapper
handler-IsMouse s status byte m = elim (Bool-cases (bit_and status 0x01 == 0)) [
  | inl a ↦ rw (a, mouse_handler_wrapper) m
  | inr a ↦ elim (Bool-cases (bit_and status 0x20 == 0)) [
    | inl b ↦ rw (a, mouse_handler_wrapper) (rw b m)
    | inr b ↦ elim (Bool-cases (s.mouse_cycle == 0 && (bit_and byte 0x08 == 0))) [
      | inl c ↦
          rw (a, mouse_handler_wrapper)
            (rw b
              (rw c (record { on_x = m.on_x; on_y = m.on_y; cycle = m.cycle; bytes = m.bytes })))
      | inr c ↦
          let size = length-set s.mouse_byte s.mouse_cycle byte ∙ m.bytes in
          elim (Bool-cases (s.mouse_cycle + 1 == 3)) [
            | inl d ↦
                rw (a, mouse_handler_wrapper)
                  (rw b (
                    rw c (
                      rw d (
                        parse_packet-IsMouse
                          (record s {
                            mouse_byte = set s.mouse_byte s.mouse_cycle byte;
                            mouse_cycle = s.mouse_cycle + 1;
                          })
                          m.on_x m.on_y size))))
            | inr d ↦
                rw (a, mouse_handler_wrapper)
                  (rw b (
                    rw c (
                      rw d (record {
                        on_x = m.on_x;
                        on_y = m.on_y;
                        cycle = ground (arith, d, m.cycle);
                        bytes = size;
                      }))))
          ]
    ]
  ]
]

-- Whatever interrupts come, in whatever order and with whatever bytes, the pointer stays on the screen of
-- 640 by 480 pixels that it starts on, and at most two bytes of a packet wait in the buffer of three.
pub run-IsMouse : (events : List (ℕ × ℕ)) (s : Mouse) → IsMouse s → IsMouse (run events s)
unfolding run
run-IsMouse [] s m = m
run-IsMouse ((status, byte) ∷ rest) s m =
    run-IsMouse rest (mouse_handler_wrapper s status byte) (handler-IsMouse s status byte m)

-- Bytes that come from the mouse, with a status that says so.
unfoldable pub from_mouse : List ℕ → List (ℕ × ℕ)
from_mouse [] = []
from_mouse (b ∷ bs) = (0x21, b) ∷ from_mouse bs

-- No byte that can begin a packet
abbrev pub AllJunk : List ℕ → Type 0
AllJunk [] = Unit {0}
AllJunk (b ∷ bs) = (bit_at b 3 ≡ 0) × AllJunk bs

-- The counts of one axis do not fit into its byte and sign.
pub overflow : ℕ → Bool
overflow first = not (bit_at first 6 == 0) || not (bit_at first 7 == 0)

-- What a packet does to the place of the pointer
pub data Moves (s : Mouse) (first dx dy : ℕ) (s' : Mouse) : Type 0 where
  too_far : overflow first ≡ true → s'.x ≡ s.x → s'.y ≡ s.y → Moves s first dx dy s'
  moves :
      (right down : ℤ)
      → overflow first ≡ false
      → Sped (counts dx (bit_at first 4)) right
      → Sped (counts dy (bit_at first 5)) down
      → Held 640 (s.x +ℤ right) s'.x
      → Held 480 (s.y -ℤ down) s'.y
      → Moves s first dx dy s'

pub record Moved (s : Mouse) (first dx dy : ℕ) (s' : Mouse) : Type 0 where
  pub buttons : s'.buttons ≡ bit_and first 7
  pub next : s'.mouse_cycle ≡ 0
  pub place : Moves s first dx dy s'

parse_packet-Moved :
    (s : Mouse) (first dx dy : ℕ)
    → s.mouse_byte ≡ first ∷ dx ∷ dy ∷ []
    → dx < 256
    → dy < 256
    → Moved s first dx dy (parse_packet s)
unfolding parse_packet overflow
parse_packet-Moved s first dx dy e hx hy = elim (Bool-cases (bit_at first 6 == 0)) [
  | inl a ↦ elim (Bool-cases (bit_at first 7 == 0)) [
    | inl b ↦
        rw (e, parse_packet)
          (rw (mask_test first 6 ∙ a) (
            rw (mask_test first 7 ∙ b) (
              rw (masked_distance first 4 dx hx) (
                rw (masked_distance first 5 dy hy) (record {
                  buttons = refl;
                  next = refl;
                  place =
                      moves _ _ (rw (a, overflow) (rw b refl)) (accelerate-Sped _)
                        (accelerate-Sped _) (clamp-Held _ 640 (omega arith))
                        (clamp-Held _ 480 (omega arith));
                })))))
    | inr b ↦
        rw (e, parse_packet)
          (rw (mask_test first 6 ∙ a) (
            rw (mask_test first 7 ∙ b) (record {
              buttons = refl;
              next = refl;
              place = too_far (rw (a, overflow) (rw b refl)) refl refl;
            })))
  ]
  | inr a ↦
      rw (e, parse_packet)
        (rw (mask_test first 6 ∙ a) (record {
          buttons = refl;
          next = refl;
          place = too_far (rw (a, overflow) refl) refl refl;
        }))
]

stored :
    (s : Mouse) (byte : ℕ)
    → (s.mouse_cycle == 0 && (bit_and byte 0x08 == 0)) ≡ false
    → mouse_handler_wrapper s 0x21 byte ≡ (
        if s.mouse_cycle + 1 == 3
        then parse_packet (record s {
          mouse_byte = set s.mouse_byte s.mouse_cycle byte;
          mouse_cycle = s.mouse_cycle + 1;
        })
        else record s {
          mouse_byte = set s.mouse_byte s.mouse_cycle byte;
          mouse_cycle = s.mouse_cycle + 1;
        })
unfolding mouse_handler_wrapper
stored s byte e = rw (e, mouse_handler_wrapper) refl

-- The states in between
abbrev holding : Mouse → List ℕ → ℕ → Mouse
holding s bytes cycle = record s { mouse_byte = bytes; mouse_cycle = cycle }

-- The move does not depend on the bytes held.
holding_Moves :
    {s : Mouse} {bytes : List ℕ} {cycle first dx dy : ℕ} {s' : Mouse}
    → Moves (holding s bytes cycle) first dx dy s'
    → Moves s first dx dy s'
holding_Moves (too_far o x y) = too_far o x y
holding_Moves (moves right down o a b x y) = moves right down o a b x y

-- Nor on the count of errors
counted_Moves :
    {s : Mouse} {n first dx dy : ℕ} {s' : Mouse}
    → Moves (record s { mouse_error_count = n }) first dx dy s'
    → Moves s first dx dy s'
counted_Moves (too_far o x y) = too_far o x y
counted_Moves (moves right down o a b x y) = moves right down o a b x y

three : (xs : List ℕ) (a b c : ℕ) → length xs ≡ 3 → set (set (set xs 0 a) 1 b) 2 c ≡ a ∷ b ∷ c ∷ []
three (x ∷ y ∷ z ∷ []) a b c h = refl
three [] a b c h = absurd (omega (arith, h))
three (x ∷ []) a b c h = absurd (omega (arith, h))
three (x ∷ y ∷ []) a b c h = absurd (omega (arith, h))
three (x ∷ y ∷ z ∷ w ∷ ws) a b c h = absurd (omega (arith, h))

packet-Moved :
    (s : Mouse) (first dx dy : ℕ)
    → s.mouse_cycle ≡ 0
    → length s.mouse_byte ≡ 3
    → bit_at first 3 ≡ 1
    → dx < 256
    → dy < 256
    → Moved s first dx dy (run (from_mouse (first ∷ dx ∷ dy ∷ [])) s)
unfolding run from_mouse
packet-Moved s first dx dy at size begins hx hy =
    let one : mouse_handler_wrapper s 0x21 first ≡ holding s (set s.mouse_byte 0 first) 1 =
      stored s first (rw (mask_test first 3) (ground (arith, begins, at))) ∙ rw at refl in
    let two : mouse_handler_wrapper (holding s (set s.mouse_byte 0 first) 1) 0x21 dx
        ≡ holding s (set (set s.mouse_byte 0 first) 1 dx) 2 =
      stored (holding s (set s.mouse_byte 0 first) 1) dx refl in
    let done : mouse_handler_wrapper (holding s (set (set s.mouse_byte 0 first) 1 dx) 2) 0x21 dy
        ≡ parse_packet (holding s (set (set (set s.mouse_byte 0 first) 1 dx) 2 dy) 3) =
      stored (holding s (set (set s.mouse_byte 0 first) 1 dx) 2) dy refl in
    let m =
      parse_packet-Moved (holding s (set (set (set s.mouse_byte 0 first) 1 dx) 2 dy) 3) first dx dy
        (three s.mouse_byte first dx dy size) hx hy in
    rw (one, run)
      (rw (two, run)
        (rw (done, run)
          (record { buttons = m.buttons; next = m.next; place = holding_Moves m.place })))

junk_skipped :
    (s : Mouse) (b : ℕ)
    → s.mouse_cycle ≡ 0
    → bit_at b 3 ≡ 0
    → mouse_handler_wrapper s 0x21 b
      ≡ record s { mouse_error_count = u32 (s.mouse_error_count + 1) }
unfolding mouse_handler_wrapper
junk_skipped s b at clear =
    let refused : (s.mouse_cycle == 0 && (bit_and b 0x08 == 0)) ≡ true =
      rw (mask_test b 3) (ground (arith, at, clear)) in
    rw (refused, mouse_handler_wrapper) refl

-- Between two packets, bytes of the mouse without bit 3, which cannot begin a packet, are skipped, and the three bytes
-- after them, the first with bit 3, are taken as a packet: the buttons are those of the first byte; if the first byte says that an axis overflows, the pointer stays,
-- and else it moves by the counts of each axis, doubled if they are more than 5 to either side, downwards on the
-- screen for counts below 0, and stops at the first and the last place of an axis; and the next byte begins a
-- packet again. A byte of 128 or more counts as below 0
-- whatever its sign bit says.
pub packet_lem :
    (junk : List ℕ) (s : Mouse) (first dx dy : ℕ)
    → AllJunk junk
    → s.mouse_cycle ≡ 0
    → length s.mouse_byte ≡ 3
    → bit_at first 3 ≡ 1
    → dx < 256
    → dy < 256
    → Moved s first dx dy (run (from_mouse (junk ++ first ∷ dx ∷ dy ∷ [])) s)
unfolding run from_mouse
packet_lem [] s first dx dy all at size begins hx hy =
    packet-Moved s first dx dy at size begins hx hy
packet_lem (b ∷ bs) s first dx dy all at size begins hx hy =
    let rest =
      packet_lem bs (record s { mouse_error_count = u32 (s.mouse_error_count + 1) }) first dx dy
        (all.1) at size begins hx hy in
    rw (junk_skipped s b at (all.0), run)
      (record { buttons = rest.buttons; next = rest.next; place = counted_Moves rest.place })
