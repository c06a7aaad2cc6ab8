-- ===== src/Mouse/Setup.antt =====
-- What `mouse_init` writes to the ports, whatever the device answers and however long it takes.
use zenix.Prelude.{
  ℕ, zero, suc, ◌+◌, ◌≤◌, bit_and, bit_or, ◌≡◌, refl, ap, ◌∙◌, inl, inr, List, [], ◌∷◌, ◌++◌, arith,
  ◌==◌, if◌then◌else◌, Bool-cases, u8,
}
use mathlib.Core.List.{append_assoc}
use zenix.Interrupts.{PortWrite, outb}
use zenix.Mouse.{
  Mouse, Ports, inb, write_port, wait_loop, mouse_wait, mouse_write, mouse_read, command, enable,
  mouse_init,
}

-- Reading leaves the writes alone.
wait_loop-writes : (timeout type : ℕ) (io : Ports) → (wait_loop timeout type io).writes ≡ io.writes
unfolding wait_loop inb
wait_loop-writes zero type io = refl
wait_loop-writes (suc timeout) type io =
    elim (Bool-cases (
      if type == 0
      then bit_and ((inb 0x64 io).0) 0x01 == 1
      else bit_and ((inb 0x64 io).0) 0x02 == 0)) [
        | inl e ↦ rw (e, wait_loop) refl
        | inr e ↦ rw (e, wait_loop) (wait_loop-writes timeout type ((inb 0x64 io).1))
      ]

wait_loop-input : (timeout type : ℕ) (io : Ports) → (wait_loop timeout type io).input ≡ io.input
unfolding wait_loop inb
wait_loop-input zero type io = refl
wait_loop-input (suc timeout) type io =
    elim (Bool-cases (
      if type == 0
      then bit_and ((inb 0x64 io).0) 0x01 == 1
      else bit_and ((inb 0x64 io).0) 0x02 == 0)) [
        | inl e ↦ rw (e, wait_loop) refl
        | inr e ↦ rw (e, wait_loop) (wait_loop-input timeout type ((inb 0x64 io).1))
      ]

-- `mouse_wait` reads the status again and again, and never more than 100000 times.
wait_loop-reads :
    (timeout type : ℕ) (io : Ports) → (wait_loop timeout type io).reads ≤ io.reads + timeout
unfolding wait_loop inb
wait_loop-reads zero type io = omega arith
wait_loop-reads (suc timeout) type io =
    ground (arith, wait_loop-reads timeout type ((inb 0x64 io).1))

written_after_wait :
    (port val type : ℕ) (io : Ports)
    → (write_port port val (mouse_wait type io)).writes ≡ io.writes ++ (outb port val ∷ [])
unfolding write_port mouse_wait
written_after_wait port val type io = rw (wait_loop-writes 100000 type io) refl

-- The writes of one command
abbrev pub to_mouse : ℕ → List PortWrite
to_mouse byte = outb 0x64 0xD4 ∷ outb 0x60 byte ∷ []

command-writes : (byte : ℕ) (io : Ports) → (command byte io).writes ≡ io.writes ++ to_mouse byte
unfolding command mouse_read mouse_write inb mouse_wait
command-writes byte io =
    wait_loop-writes 100000 0 (mouse_write byte io)
    ∙ written_after_wait 0x60 byte 1 (write_port 0x64 0xD4 (mouse_wait 1 io))
    ∙ ap (λ w. w ++ (outb 0x60 byte ∷ [])) (written_after_wait 0x64 0xD4 1 io)
    ∙ append_assoc io.writes (outb 0x64 0xD4 ∷ []) (outb 0x60 byte ∷ [])

-- The state in which `mouse_init` reads the status byte
abbrev asked : Ports → Ports
asked io =
    mouse_wait 0 (write_port 0x64 0x20 (mouse_wait 1 (write_port 0x64 0xA8 (mouse_wait 1 io))))

abbrev status_of : Ports → ℕ
status_of io = u8 ((asked io).input ((asked io).reads) 0x60)

status_of-input : (io : Ports) → status_of io ≡ u8 (io.input ((asked io).reads) 0x60)
unfolding mouse_wait write_port
status_of-input io =
    ap (λ (f : ℕ → ℕ → ℕ). u8 (f ((asked io).reads) 0x60))
      (wait_loop-input 100000 0
          (write_port 0x64 0x20 (mouse_wait 1 (write_port 0x64 0xA8 (mouse_wait 1 io))))
        ∙ wait_loop-input 100000 1 (write_port 0x64 0xA8 (mouse_wait 1 io))
        ∙ wait_loop-input 100000 1 io)

asked-writes :
    (io : Ports) → (asked io).writes ≡ io.writes ++ (outb 0x64 0xA8 ∷ outb 0x64 0x20 ∷ [])
unfolding mouse_wait
asked-writes io =
    wait_loop-writes 100000 0
      (write_port 0x64 0x20 (mouse_wait 1 (write_port 0x64 0xA8 (mouse_wait 1 io))))
    ∙ written_after_wait 0x64 0x20 1 (write_port 0x64 0xA8 (mouse_wait 1 io))
    ∙ ap (λ w. w ++ (outb 0x64 0x20 ∷ [])) (written_after_wait 0x64 0xA8 1 io)
    ∙ append_assoc io.writes (outb 0x64 0xA8 ∷ []) (outb 0x64 0x20 ∷ [])

abbrev enabling : ℕ → List PortWrite
enabling status =
    outb 0x64 0xA8 ∷ outb 0x64 0x20 ∷ outb 0x64 0x60 ∷ outb 0x60 (bit_or status 2) ∷ []

enable-writes : (io : Ports) → (enable io).writes ≡ io.writes ++ enabling (status_of io)
unfolding enable inb
enable-writes io =
    let s = (inb 0x60 (asked io)).1 in
    written_after_wait 0x60 (bit_or (status_of io) 2) 1 (write_port 0x64 0x60 (mouse_wait 1 s))
    ∙ ap (λ w. w ++ (outb 0x60 (bit_or (status_of io) 2) ∷ []))
        (written_after_wait 0x64 0x60 1 s
          ∙ ap (λ w. w ++ (outb 0x64 0x60 ∷ [])) (asked-writes io)
          ∙ append_assoc io.writes (outb 0x64 0xA8 ∷ outb 0x64 0x20 ∷ []) (outb 0x64 0x60 ∷ []))
    ∙ append_assoc io.writes (outb 0x64 0xA8 ∷ outb 0x64 0x20 ∷ outb 0x64 0x60 ∷ [])
        (outb 0x60 (bit_or (status_of io) 2) ∷ [])

-- The reset, the reporting of data, and 100 samples a second
abbrev pub settings : List PortWrite
settings = to_mouse 0xF6 ++ (to_mouse 0xF4 ++ (to_mouse 0xF3 ++ to_mouse 100))

-- Whatever the ports answer, and also if the device is never ready, `mouse_init` writes this sequence: it
-- enables the second device, writes the status byte that it read back with bit 1 set, and sends the
-- device its four commands, each behind the prefix 0xD4.
pub mouse_init-writes :
    (s : Mouse) (io : Ports)
    → (time : ℕ) × (((mouse_init s io).1).writes
        ≡ io.writes
          ++ (outb 0x64 0xA8
              ∷ outb 0x64 0x20
              ∷ outb 0x64 0x60
              ∷ outb 0x60 (bit_or (u8 (io.input time 0x60)) 2)
              ∷ settings))
unfolding mouse_init
mouse_init-writes s io =
    let e = enable io in
    (
      (asked io).reads,
      command-writes 100 (command 0xF3 (command 0xF4 (command 0xF6 e)))
          ∙ ap (λ w. w ++ to_mouse 100) (command-writes 0xF3 (command 0xF4 (command 0xF6 e)))
          ∙ append_assoc ((command 0xF4 (command 0xF6 e)).writes) (to_mouse 0xF3) (to_mouse 100)
          ∙ ap (λ w. w ++ (to_mouse 0xF3 ++ to_mouse 100)) (command-writes 0xF4 (command 0xF6 e))
          ∙ append_assoc ((command 0xF6 e).writes) (to_mouse 0xF4) (to_mouse 0xF3 ++ to_mouse 100)
          ∙ ap (λ w. w ++ (to_mouse 0xF4 ++ (to_mouse 0xF3 ++ to_mouse 100)))
              (command-writes 0xF6 e)
          ∙ append_assoc (e.writes) (to_mouse 0xF6)
              (to_mouse 0xF4 ++ (to_mouse 0xF3 ++ to_mouse 100))
          ∙ ap (λ w. w ++ settings) (enable-writes io)
          ∙ append_assoc io.writes (enabling (status_of io)) settings
          ∙ ap (λ b. io.writes ++ (enabling b ++ settings)) (status_of-input io),
    )
