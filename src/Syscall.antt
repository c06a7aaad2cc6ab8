-- ===== src/Syscall.antt =====
-- The system calls: kernel/syscall/syscall.c and kernel/syscall/handlers.c, over the processes of Proc and the
-- screen of Monitor. What process_terminate prints is left out, as in Proc.
pub mod Table
pub mod Handlers
pub mod Serve
pub mod Sleep
mod Tests
use zenix.Prelude.{
  ℕ, zero, suc, ◌+◌, ◌-◌, ◌*◌, ◌/◌, ◌%◌, ◌^◌, ◌≤◌, ◌<◌, min, max, bit_and, bit_or, ◌≡◌, refl, sym,
  ap, subst, ◌∙◌, fun_ext, ◌≢◌, ◌↔◌, ◌⊎◌, inl, inr, Bool, true, false, not, ◌&&◌, ◌||◌, Option,
  none, some, List, [], ◌∷◌, ◌++◌, map, arith, ltb, leb, ◌==◌, if◌then◌else◌, ltb→lt, ltb→ge,
  lt→ltb, ==_iff, ==_refl, Bool-cases, Option-cases, length, get_elem?, get_or, set, take, drop,
  replicate, length-append, length-set, length-replicate, get_or-replicate, get_or-set_self,
  get_or-set_ne, length-take, take-append-drop, u8, u16, u32, sub32,
}
use zenix.Prelude.Codes.{codes}
use zenix.Prelude.Int.{ℤ, pos, negsuc, to_uint, to_int}
use zenix.Descriptors.{IdtEntry, idt_set_gate}
use zenix.Monitor.{Monitor, print_char, print_string, print_dec}
use zenix.Proc.{Kernel, Process, Registers}
use zenix.Proc.Table.{process_get_current, process_terminate}

-- What the handlers work on; `memory` is the memory of the caller.
pub record System : Type 0 where
  pub kernel : Kernel
  pub monitor : Monitor
  pub memory : ℕ → ℕ

-- `syscall_handler_t`; `none` if a handler does not return.
abbrev pub Handler : Type 0
Handler = System → ℕ → ℕ → ℕ → ℕ → ℕ → Option (ℤ × System)

abbrev pub max_syscalls : ℕ
max_syscalls = 256

-- The value of the handler, put into eax
abbrev pub give_back : Registers → Option (ℤ × System) → Option (Registers × System)
give_back regs none = none
give_back regs (some (ret, s)) = some (record regs { eax = to_uint ret }, s)

-- The entry of the table is called, if there is one.
unfoldable pub call_entry : Option Handler → System → Registers → Option (Registers × System)
call_entry none s regs = some (record regs { eax = to_uint (negsuc 0) }, s)
call_entry (some handler) s regs =
    give_back regs (handler s regs.ebx regs.ecx regs.edx regs.esi regs.edi)

unfoldable pub syscall_handler :
    List (Option Handler) → System → Registers → Option (Registers × System)
syscall_handler table s regs =
    let syscall_num = regs.eax in
    if leb max_syscalls syscall_num
    then some (record regs { eax = to_uint (negsuc 0) }, s)
    else call_entry (get_or table syscall_num none) s regs

unfoldable pub syscall_register : List (Option Handler) → ℕ → Handler → List (Option Handler)
syscall_register table num handler =
    if ltb num max_syscalls then set table num (some handler) else table

-- The loop of `syscall_init` with `left` rounds left
unfoldable pub clear_table : ℕ → ℕ → List (Option Handler) → List (Option Handler)
clear_table zero i table = table
clear_table (suc left) i table = clear_table left (i + 1) (set table i none)

-- `entry` is the address of syscall_entry.
unfoldable pub syscall_init :
    ℕ → List (Option Handler) → List IdtEntry → List (Option Handler) × List IdtEntry
syscall_init entry table idt = (clear_table 256 0 table, idt_set_gate idt 0x80 entry 0x08 0xEE)

-- The end of `sys_exit`, once the process is terminated
abbrev pub exited_with : System → Option Kernel → Option (ℤ × System)
exited_with s none = none
exited_with s (some k) = some (pos 0, record s { kernel = k })

-- `sys_exit`, once the number is printed
abbrev pub exit_process : System → Option Monitor → Option (ℤ × System)
exit_process s none = none
exit_process s (some m) =
    let t = record s { monitor = print_string m (codes ")\n") } in
    let current = process_get_current t.kernel in
    if current == 0 then some (pos 0, t) else exited_with t (process_terminate t.kernel current)

unfoldable pub sys_exit : Handler
sys_exit s status a2 a3 a4 a5 =
    exit_process s (print_dec (print_string s.monitor (codes "[SYSCALL] exit(")) status)

-- The loop of `sys_write` with `left` rounds left, at byte `i`
unfoldable pub write_loop : ℕ → ℕ → ℕ → (ℕ → ℕ) → Monitor → Monitor
write_loop zero i str memory m = m
write_loop (suc left) i str memory m =
    write_loop left (i + 1) str memory (print_char m (memory (u32 (str + i))))

unfoldable pub sys_write : Handler
sys_write s fd buf count a4 a5 =
    if (fd == 1) || (fd == 2)
    then some (to_int count, record s { monitor = write_loop count 0 buf s.memory s.monitor })
    else some (negsuc 0, s)

unfoldable pub sys_read : Handler
sys_read s fd buf count a4 a5 = some (negsuc 0, s)

unfoldable pub sys_getpid : Handler
sys_getpid s a1 a2 a3 a4 a5 =
    let current = process_get_current s.kernel in
    some ((if current == 0 then negsuc 0 else to_int ((s.kernel.proc current).pid)), s)

-- The loop of `sys_sleep`: `hlt` is the state after the processor was woken, `none` if nothing wakes it. `none` also
-- means that the fuel ran out.
unfoldable pub sleep_loop : (Kernel → Option Kernel) → ℕ → ℕ → ℕ → Kernel → Option Kernel
sleep_loop hlt zero start ticks_to_wait k = none
sleep_loop hlt (suc fuel) start ticks_to_wait k =
    if ltb (sub32 k.system_ticks start) ticks_to_wait
    then elim (hlt k) [ none ↦ none | some k' ↦ sleep_loop hlt fuel start ticks_to_wait k' ]
    else some k

-- The end of `sys_sleep`
abbrev pub wake_up : System → Option Kernel → Option (ℤ × System)
wake_up s none = none
wake_up s (some k) = some (pos 0, record s { kernel = k })

unfoldable pub sys_sleep : (Kernel → Option Kernel) → ℕ → Handler
sys_sleep hlt fuel s ms a2 a3 a4 a5 =
    wake_up s (sleep_loop hlt fuel s.kernel.system_ticks (ms / 10) s.kernel)

unfoldable pub syscall_handlers_init :
    (Kernel → Option Kernel) → ℕ → List (Option Handler) → List (Option Handler)
syscall_handlers_init hlt fuel table =
    syscall_register
      (syscall_register
        (syscall_register (syscall_register (syscall_register table 0 sys_exit) 1 sys_write) 2
          sys_read)
        3 sys_getpid)
      4 (sys_sleep hlt fuel)
