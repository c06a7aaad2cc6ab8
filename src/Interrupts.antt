-- ===== src/Interrupts.antt =====
-- Hardware interrupts: kernel/hal/irq.c and kernel/hal/pic.c, and the programming of the timer in
-- kernel/drivers/timer/pit.c. What goes to a port is a list of writes, in order; what a port answers is an
-- argument. A handler is its address, 0 for none.
pub mod Dispatch
mod Tests
use zenix.Prelude.{
  ℕ, zero, suc, ◌+◌, ◌-◌, ◌*◌, ◌/◌, ◌%◌, ◌^◌, ◌≤◌, ◌<◌, min, max, bit_and, bit_or, ◌≡◌, refl, sym,
  ap, subst, ◌∙◌, fun_ext, ◌≢◌, ◌↔◌, ◌⊎◌, inl, inr, Bool, true, false, not, ◌&&◌, ◌||◌, Option,
  none, some, List, [], ◌∷◌, ◌++◌, map, arith, ltb, leb, ◌==◌, if◌then◌else◌, ltb→lt, ltb→ge,
  lt→ltb, ==_iff, ==_refl, Bool-cases, Option-cases, length, get_elem?, get_or, set, take, drop,
  replicate, length-append, length-set, length-replicate, get_or-replicate, get_or-set_self,
  get_or-set_ne, length-take, take-append-drop, u8, u16, u32, sub32,
}

-- `outb(port, val)`
pub record PortWrite : Type 0 where
  pub port : ℕ
  pub val : ℕ

abbrev pub outb : ℕ → ℕ → PortWrite
outb port val = record { port = port; val = u8 val }

abbrev pub io_wait : PortWrite
io_wait = outb 0x80 0

abbrev pub pic1_command : ℕ
pic1_command = 0x20

abbrev pub pic2_command : ℕ
pic2_command = 0xA0

abbrev pub pic_eoi : ℕ
pic_eoi = 0x20

-- The masks are what the two data ports answered.
unfoldable pub pic_remap : ℕ → ℕ → ℕ → ℕ → List PortWrite
pic_remap offset1 offset2 mask1 mask2 =
    outb 0x20 0x11
    ∷ io_wait
    ∷ outb 0xA0 0x11
    ∷ io_wait
    ∷ outb 0x21 offset1
    ∷ io_wait
    ∷ outb 0xA1 offset2
    ∷ io_wait
    ∷ outb 0x21 0x04
    ∷ io_wait
    ∷ outb 0xA1 0x02
    ∷ io_wait
    ∷ outb 0x21 0x01
    ∷ io_wait
    ∷ outb 0xA1 0x01
    ∷ io_wait
    ∷ outb 0x21 mask1
    ∷ outb 0xA1 mask2
    ∷ []

unfoldable pub pic_send_eoi : ℕ → List PortWrite
pic_send_eoi irq =
    let master = outb pic1_command pic_eoi ∷ [] in
    if leb 8 irq then outb pic2_command pic_eoi ∷ master else master

unfoldable pub pic_set_mask : ℕ → ℕ → List PortWrite
pic_set_mask mask1 mask2 = outb 0x21 mask1 ∷ outb 0xA1 mask2 ∷ []

unfoldable pub pic_disable : List PortWrite
pic_disable = outb 0x21 0xFF ∷ outb 0xA1 0xFF ∷ []

-- Whether the interrupt is being served, from the answer of the command port.
unfoldable pub pic_get_isr : ℕ → ℕ → Bool × List PortWrite
pic_get_isr irq answer =
    if ltb irq 8
    then (not (bit_and answer (2 ^ irq) == 0), outb pic1_command 0x0B ∷ [])
    else (not (bit_and answer (2 ^ (irq - 8)) == 0), outb pic2_command 0x0B ∷ [])

unfoldable pub irq_register_handler : List ℕ → ℕ → ℕ → List ℕ
irq_register_handler irq_handlers irq handler =
    if ltb irq 16 then set irq_handlers irq handler else irq_handlers

-- What `irq_handler` does: the handler that it calls, if any, and what it writes to the ports.
pub record Service : Type 0 where
  pub called : Option ℕ
  pub writes : List PortWrite

-- The end of `irq_handler`, after the tests for spurious interrupts
unfoldable pub serve : List ℕ → ℕ → List PortWrite → Service
serve irq_handlers int_no before =
    let irq_num = u8 (sub32 int_no 32) in
    let handler = get_or irq_handlers irq_num 0 in
    record {
      called = if ltb irq_num 16 && not (handler == 0) then some handler else none;
      writes = before ++ pic_send_eoi irq_num;
    }

-- `answer` is what the command port says when the handler asks it.
unfoldable pub irq_handler : List ℕ → ℕ → ℕ → Service
irq_handler irq_handlers int_no answer =
    if int_no == 39
    then (let (serving, asked) = pic_get_isr 7 answer in
        if not serving
        then record { called = none; writes = asked }
        else serve irq_handlers int_no asked)
    else (if int_no == 47
        then (let (serving, asked) = pic_get_isr 15 answer in
            if not serving
            then record { called = none; writes = asked ++ pic_send_eoi 2 }
            else serve irq_handlers int_no asked)
        else serve irq_handlers int_no [])

-- pit.c: what `timer_init` writes; the frequency must not be 0.
unfoldable pub timer_init : ℕ → List PortWrite
timer_init frequency =
    let divisor = 1193180 / frequency in
    outb 0x43 0x36
    ∷ outb 0x40 (bit_and divisor 0xFF)
    ∷ outb 0x40 (bit_and (divisor / 2 ^ 8) 0xFF)
    ∷ []
