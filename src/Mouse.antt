-- ===== src/Mouse.antt =====
-- The mouse driver, kernel/drivers/mouse/mouse.c: the handler that gathers packets of three bytes and moves
-- the pointer, and the set-up of the device. What the ports answer is a function of the port and of how
-- many reads came before. The registers that the handler ignores are left out; an int that leaves its
-- 32 bits, which C leaves undefined, does not occur (see Mouse.Packets).
pub mod Axis
pub mod Packets
pub mod Setup
mod Tests
use zenix.Prelude.{
  ℕ, zero, suc, ◌+◌, ◌-◌, ◌*◌, ◌/◌, ◌%◌, ◌^◌, ◌≤◌, ◌<◌, min, max, bit_and, bit_or, ◌≡◌, refl, sym,
  ap, subst, ◌∙◌, fun_ext, ◌≢◌, ◌↔◌, ◌⊎◌, inl, inr, Bool, true, false, not, ◌&&◌, ◌||◌, Option,
  none, some, List, [], ◌∷◌, ◌++◌, map, arith, ltb, leb, ◌==◌, if◌then◌else◌, ltb→lt, ltb→ge,
  lt→ltb, ==_iff, ==_refl, Bool-cases, Option-cases, length, get_elem?, get_or, set, take, drop,
  replicate, length-append, length-set, length-replicate, get_or-replicate, get_or-set_self,
  get_or-set_ne, length-take, take-append-drop, u8, u16, u32, sub32,
}
use zenix.Prelude.Int.{ℤ, pos, negsuc, ◌+ℤ◌, ◌-ℤ◌, ltb_ℤ}
use zenix.Interrupts.{PortWrite, outb}

-- The state of the pointer and of the packet, and the two counters. `mouse_byte` holds bytes: where the
-- code reads one as int8_t, `signed_byte` does.
pub record Mouse : Type 0 where
  pub x : ℤ
  pub y : ℤ
  pub buttons : ℕ
  pub mouse_cycle : ℕ
  pub mouse_byte : List ℕ
  pub mouse_packet_count : ℕ
  pub mouse_error_count : ℕ

-- The initial values
abbrev pub at_boot : Mouse
at_boot = record {
  x = pos 160;
  y = pos 100;
  buttons = 0;
  mouse_cycle = 0;
  mouse_byte = 0 ∷ 0 ∷ 0 ∷ [];
  mouse_packet_count = 0;
  mouse_error_count = 0;
}

unfoldable pub signed_byte : ℕ → ℤ
signed_byte b = if ltb b 128 then pos b else negsuc (255 - b)

-- `d |= 0xFFFFFF00`: the low byte stays, and all bits above it are set.
unfoldable pub extend : ℤ → ℤ
extend (pos n) = negsuc (255 - n % 256)
extend (negsuc n) = negsuc (n % 256)

unfoldable pub accelerate : ℤ → ℤ
accelerate d = if ltb_ℤ (pos 5) d || ltb_ℤ d (negsuc 4) then d +ℤ d else d

unfoldable pub clamp : ℤ → ℕ → ℤ
clamp v size =
    let w = if ltb_ℤ v (pos 0) then pos 0 else v in if ltb_ℤ w (pos size) then w else pos (size - 1)

-- The distance that a byte of the packet and its sign bit stand for.
unfoldable pub distance : ℕ → ℕ → ℤ
distance byte sign = if sign == 0 then signed_byte byte else extend (signed_byte byte)

-- The packet is complete.
unfoldable pub parse_packet : Mouse → Mouse
parse_packet s =
    let first = get_or s.mouse_byte 0 0 in
    let t = record s {
      mouse_cycle = 0;
      mouse_packet_count = u32 (s.mouse_packet_count + 1);
      buttons = bit_and first 0x07;
    } in
    let dx = accelerate (distance (get_or s.mouse_byte 1 0) (bit_and first 0x10)) in
    let dy = accelerate (distance (get_or s.mouse_byte 2 0) (bit_and first 0x20)) in
    if not (bit_and first 0x40 == 0)
    then t
    else (if not (bit_and first 0x80 == 0)
        then t
        else record t { x = clamp (s.x +ℤ dx) 640; y = clamp (s.y -ℤ dy) 480 })

-- `data` is what the data port gives after `status` was read.
unfoldable pub mouse_handler_wrapper : Mouse → ℕ → ℕ → Mouse
mouse_handler_wrapper s status byte =
    if bit_and status 0x01 == 0
    then s
    else (if bit_and status 0x20 == 0
        then s
        else (if s.mouse_cycle == 0 && (bit_and byte 0x08 == 0)
            then record s { mouse_error_count = u32 (s.mouse_error_count + 1) }
            else let t = record s {
              mouse_byte = set s.mouse_byte s.mouse_cycle byte;
              mouse_cycle = s.mouse_cycle + 1;
            } in
              if t.mouse_cycle == 3 then parse_packet t else t))

unfoldable pub mouse_get_state : Mouse → (ℤ × ℤ) × ℕ
mouse_get_state s = ((s.x, s.y), s.buttons)

-- The ports: what a read of a port gives after so many reads, how many there were, and the writes in
-- order.
pub record Ports : Type 0 where
  pub input : ℕ → ℕ → ℕ
  pub reads : ℕ
  pub writes : List PortWrite

unfoldable pub inb : ℕ → Ports → ℕ × Ports
inb port io = (u8 (io.input io.reads port), record io { reads = io.reads + 1 })

unfoldable pub write_port : ℕ → ℕ → Ports → Ports
write_port port val io = record io { writes = io.writes ++ (outb port val ∷ []) }

-- The two loops of `mouse_wait`, with `timeout` reads left.
unfoldable pub wait_loop : ℕ → ℕ → Ports → Ports
wait_loop zero type io = io
wait_loop (suc timeout) type io =
    let status = inb 0x64 io in
    let rest = wait_loop timeout type (status.1) in
    if (if type == 0 then bit_and (status.0) 0x01 == 1 else bit_and (status.0) 0x02 == 0)
    then status.1
    else rest

unfoldable pub mouse_wait : ℕ → Ports → Ports
mouse_wait type io = wait_loop 100000 type io

unfoldable pub mouse_write : ℕ → Ports → Ports
mouse_write byte io = write_port 0x60 byte (mouse_wait 1 (write_port 0x64 0xD4 (mouse_wait 1 io)))

unfoldable pub mouse_read : Ports → ℕ × Ports
mouse_read io = inb 0x60 (mouse_wait 0 io)

-- `mouse_write` and the reading of the answer
unfoldable pub command : ℕ → Ports → Ports
command byte io = (mouse_read (mouse_write byte io)).1

unfoldable pub enable : Ports → Ports
enable io =
    let a = write_port 0x64 0x20 (mouse_wait 1 (write_port 0x64 0xA8 (mouse_wait 1 io))) in
    let status = inb 0x60 (mouse_wait 0 a) in
    write_port 0x60 (bit_or (status.0) 2)
      (mouse_wait 1 (write_port 0x64 0x60 (mouse_wait 1 (status.1))))

-- The counters are set to 0, and the handler is registered for IRQ 12.
unfoldable pub mouse_init : Mouse → Ports → Mouse × Ports
mouse_init s io = (
  record s { mouse_packet_count = 0; mouse_error_count = 0 },
  command 100 (command 0xF3 (command 0xF4 (command 0xF6 (enable io)))),
)
