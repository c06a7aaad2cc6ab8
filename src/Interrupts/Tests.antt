-- ===== src/Interrupts/Tests.antt =====
-- Interrupt requests of a concrete machine.
use zenix.Prelude.{ℕ, ◌≡◌, refl, some, List, [], ◌∷◌, arith}
use zenix.Interrupts.{outb, pic_send_eoi, serve, irq_handler}
use zenix.Interrupts.Dispatch.{Serves, is_spurious, irq_handler_lem}

-- A handler at 0x1000 for the timer, at 0x2000 for the disk on line 14.
abbrev handlers : List ℕ
handlers = 0x1000 ∷ 0 ∷ 0 ∷ 0 ∷ 0 ∷ 0 ∷ 0 ∷ 0 ∷ 0 ∷ 0 ∷ 0 ∷ 0 ∷ 0 ∷ 0 ∷ 0x2000 ∷ 0 ∷ []

abbrev disk_line : ℕ
disk_line = 14

disk :
    irq_handler handlers 46 0
    ≡ record { called = some 0x2000; writes = outb 0xA0 0x20 ∷ outb 0x20 0x20 ∷ [] }
unfolding irq_handler serve pic_send_eoi
disk = refl

irq_handler_lem_example : Serves handlers 15 (is_spurious 15 0) (irq_handler handlers 47 0)
irq_handler_lem_example = irq_handler_lem handlers 15 0 (omega arith)
