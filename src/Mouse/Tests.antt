-- ===== src/Mouse/Tests.antt =====
-- Runs of the mouse driver, and its theorems at the state of boot.
use zenix.Prelude.{◌+◌, ◌≡◌, refl, [], ◌∷◌, ◌++◌, arith}
use zenix.Prelude.Int.{pos}
use zenix.Mouse.{
  at_boot, signed_byte, extend, accelerate, clamp, distance, parse_packet, mouse_handler_wrapper,
  mouse_get_state, Ports,
}
use zenix.Mouse.Packets.{IsMouse, run, from_mouse, Moved, run-IsMouse, packet_lem}

-- Left button, 3 to the right and 10 up, which is doubled; and then 200 to the right, without a sign bit:
-- the pointer goes 112 to the left.
two_packets :
    mouse_get_state (run (from_mouse (0x09 ∷ 3 ∷ 10 ∷ 0x08 ∷ 200 ∷ 0 ∷ [])) at_boot)
    ≡ ((pos 51, pos 80), 0)
unfolding run from_mouse mouse_get_state mouse_handler_wrapper parse_packet distance signed_byte
    extend accelerate clamp
two_packets = refl

at_boot-IsMouse : IsMouse at_boot
at_boot-IsMouse = record {
  on_x = (160, refl, omega arith);
  on_y = (100, refl, omega arith);
  cycle = omega arith;
  bytes = refl;
}

run-IsMouse_example :
    IsMouse (run ((0x21, 0x18) ∷ (0, 7) ∷ (0x21, 0x80) ∷ (0x21, 0x80) ∷ []) at_boot)
run-IsMouse_example =
    run-IsMouse ((0x21, 0x18) ∷ (0, 7) ∷ (0x21, 0x80) ∷ (0x21, 0x80) ∷ []) at_boot at_boot-IsMouse

packet_lem_example :
    Moved at_boot 0x18 250 4 (run (from_mouse ((0 ∷ 7 ∷ []) ++ 0x18 ∷ 250 ∷ 4 ∷ [])) at_boot)
packet_lem_example =
    packet_lem (0 ∷ 7 ∷ []) at_boot 0x18 250 4 (refl, (refl, tt)) refl refl refl (omega arith)
      (omega arith)

abbrev silent_device : Ports
silent_device = record { input = λ time port. port + time; reads = 0; writes = [] }
