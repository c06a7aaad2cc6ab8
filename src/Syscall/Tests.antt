-- ===== src/Syscall/Tests.antt =====
-- Runs of the system calls, and their theorems at concrete calls.
use zenix.Prelude.{
  ℕ, ◌+◌, ◌%◌, ◌≡◌, refl, Option, none, some, [], arith, replicate, length-replicate, u32, sub32,
}
use zenix.Prelude.Int.{pos, to_uint, to_int}
use zenix.Heap.{HeapBlock, heap_init}
use zenix.Monitor.{Monitor, print_char, scroll, wrap_line, advance}
use zenix.Proc.{Kernel, Registers, zero_registers}
use zenix.Proc.Table.{zero_process, process_terminate}
use zenix.Syscall.{System, syscall_handler, sys_write, write_loop, sys_sleep, call_entry}
use zenix.Syscall.Sleep.{Wakes, sys_sleep_lem, sys_sleep-masked}
use zenix.Syscall.Table.{installed}
use zenix.Syscall.Handlers.{Returns}
use zenix.Syscall.Serve.{syscall_handler_lem}

abbrev unwritten : ℕ → HeapBlock
unwritten p = record { size = 0; used = 0; next = 0 }

-- The ticks are about to wrap around.
abbrev kernel : Kernel
kernel = record {
  heap = heap_init unwritten;
  proc = λ p. record zero_process { pid = 7 };
  process_table = replicate 64 0;
  next_pid = 8;
  current_process = 0;
  ready_queue_head = 0;
  ready_queue_tail = 0;
  ticks = 0;
  system_ticks = 4294967294;
}

abbrev screen : Monitor
screen = record {
  video_memory = λ i. 0;
  cursor_x = 0;
  cursor_y = 0;
  attribute = 0x0F;
  scrollback_buffer = λ i j. 0;
  scrollback_count = 0;
  scrollback_offset = 0;
}

abbrev system : System
system = record { kernel = kernel; monitor = screen; memory = λ a. 65 + a % 26 }

abbrev tick : Kernel → Option Kernel
tick k = some (record k { system_ticks = u32 (k.system_ticks + 1) })

tick-Wakes : Wakes tick
tick-Wakes k = (record k { system_ticks = u32 (k.system_ticks + 1) }, refl, refl)

abbrev two_letters : Registers
two_letters = record zero_registers { eax = 1; ebx = 1; ecx = 26; edx = 2 }

abbrev after : Option (Registers × System) → Option (ℕ × ℕ)
after none = none
after (some r) = some ((r.0).eax, (r.1).monitor.video_memory 1)

write_run : after (call_entry (some sys_write) system two_letters) ≡ some (2, 0x0F42)
unfolding call_entry sys_write to_uint write_loop to_int print_char scroll wrap_line advance
write_run = refl

sys_sleep_lem_example :
    (k : Kernel) × (sys_sleep tick 6 system 50 0 0 0 0 ≡ some (pos 0, record system { kernel = k }))
    × (sub32 k.system_ticks 4294967294 ≡ 5)
sys_sleep_lem_example =
    sys_sleep_lem tick tick-Wakes 6 system 50 0 0 0 0 (ground arith) (ground arith) (ground arith)

sys_sleep-masked_example : sys_sleep (λ k. none) 100 system 1000 0 0 0 0 ≡ none
sys_sleep-masked_example = sys_sleep-masked 99 system 1000 0 0 0 0 (ground arith)

syscall_handler_lem_example :
    Returns system two_letters kernel
      (syscall_handler (installed tick 1 0x1000 (replicate 256 none) []) system two_letters)
unfolding process_terminate
syscall_handler_lem_example =
    syscall_handler_lem tick tick-Wakes 1 0x1000 (replicate 256 none) [] system two_letters kernel
      (length-replicate 256 none)
      (record { ebx = ground arith; edx = ground arith; pid = ground arith; ticks = ground arith })
      (ground arith) refl
