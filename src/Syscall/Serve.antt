-- ===== src/Syscall/Serve.antt =====
-- `syscall_handler` with the handlers of `syscall_handlers_init`, on every number.
use zenix.Prelude.{
  ℕ, zero, suc, ◌+◌, ◌/◌, ◌^◌, ◌<◌, ◌≡◌, refl, sym, ap, subst, ◌∙◌, inl, inr, false, Option, none,
  some, List, arith, leb, Bool-cases, length, get_or,
}
use zenix.Prelude.Int.{to_uint}
use zenix.Descriptors.{IdtEntry}
use zenix.Proc.{Kernel, Registers}
use zenix.Proc.Table.{process_terminate}
use zenix.Syscall.{System, Handler, max_syscalls, call_entry, syscall_handler}
use zenix.Syscall.Sleep.{Wakes}
use zenix.Syscall.Table.{installed, Installed, installed-Installed}
use zenix.Syscall.Handlers.{
  minus_one, Returns, exit-Returns, write-Returns, getpid-Returns, sleep-Returns, read_minus_one,
  unknown, not_read,
}

-- A number with an entry in the table
called :
    (table : List (Option Handler)) (s : System) (regs : Registers) (num : ℕ) (h : Option Handler)
    → num < max_syscalls
    → get_or table num none ≡ h
    → regs.eax ≡ num
    → syscall_handler table s regs ≡ call_entry h s regs
unfolding syscall_handler
called table s regs num h less e at =
    let below : leb max_syscalls regs.eax ≡ false = ground (arith, less, at) in
    let entry : get_or table regs.eax none ≡ h = ap (λ n. get_or table n none) at ∙ e in
    rw (below, entry) refl

-- The registers and counts that the handlers read are 32 bits wide.
pub record Wide (s : System) (regs : Registers) : Type 0 where
  pub ebx : regs.ebx < 2 ^ 32
  pub edx : regs.edx < 2 ^ 32
  pub pid : (s.kernel.proc s.kernel.current_process).pid < 2 ^ 32
  pub ticks : s.kernel.system_ticks < 2 ^ 32

not_there :
    (table : List (Option Handler)) (s : System) (regs : Registers) (num : ℕ)
    → ((j : ℕ) → 4 < j → j < max_syscalls → get_or table j none ≡ none)
    → 4 < num
    → regs.eax ≡ num
    → syscall_handler table s regs ≡ some (record regs { eax = minus_one }, s)
unfolding syscall_handler call_entry to_uint
not_there table s regs num others more at = elim (Bool-cases (leb max_syscalls regs.eax)) [
  | inl x ↦ rw x refl
  | inr x ↦ rw (x, others regs.eax (omega (arith, more, at)) (ground (arith, x))) refl
]

by_number :
    (hlt : Kernel → Option Kernel) (wakes : Wakes hlt) (fuel : ℕ) (table : List (Option Handler))
    (s : System) (regs : Registers) (k : Kernel) (num : ℕ)
    → Installed hlt fuel table
    → Wide s regs
    → regs.ebx / 10 < fuel
    → process_terminate s.kernel s.kernel.current_process ≡ some k
    → regs.eax ≡ num
    → Returns s regs k (syscall_handler table s regs)
by_number hlt wakes fuel table s regs k zero t w f gone at =
    subst (Returns s regs k) (sym (called table s regs 0 _ (omega arith) t.at_exit at))
      (exit-Returns s regs k at w.ebx gone)
by_number hlt wakes fuel table s regs k (suc zero) t w f gone at =
    subst (Returns s regs k) (sym (called table s regs 1 _ (omega arith) t.at_write at))
      (write-Returns s regs k at w.edx)
by_number hlt wakes fuel table s regs k (suc (suc zero)) t w f gone at =
    subst (Returns s regs k) (sym (called table s regs 2 _ (omega arith) t.at_read at))
      ((record regs { eax = minus_one }, s), read_minus_one s regs, not_read at)
by_number hlt wakes fuel table s regs k (suc (suc (suc zero))) t w f gone at =
    subst (Returns s regs k) (sym (called table s regs 3 _ (omega arith) t.at_getpid at))
      (getpid-Returns s regs k at w.pid)
by_number hlt wakes fuel table s regs k (suc (suc (suc (suc zero)))) t w f gone at =
    subst (Returns s regs k) (sym (called table s regs 4 _ (omega arith) t.at_sleep at))
      (sleep-Returns hlt wakes fuel s regs k at w.ticks w.ebx f)
by_number hlt wakes fuel table s regs k (suc (suc (suc (suc (suc n))))) t w f gone at = (
  (record regs { eax = minus_one }, s),
  not_there table s regs (n + 5) t.others (omega arith) (at ∙ omega arith),
  unknown (omega (arith, at)),
)

-- After syscall_init and syscall_handlers_init, over a table of 256 entries, every system call returns and does what
-- `Served` says for its number: 0 prints the status and terminates the current process, 1 prints the bytes at
-- ecx to the descriptors 1 and 2 and gives their count back, 3 gives the pid, 4 sleeps for ebx / 10 ticks, and all
-- else, reading and the numbers from 5 on included, gives -1 and changes nothing. The conditions: a halt
-- ends with one tick, the loop of sys_sleep has more than ebx / 10 rounds, ebx, edx, the pid and the ticks
-- are 32 bits wide, and terminating the current process ends, in the state `k`.
pub syscall_handler_lem :
    (hlt : Kernel → Option Kernel) (wakes : Wakes hlt) (fuel entry : ℕ)
    (table : List (Option Handler)) (idt : List IdtEntry) (s : System) (regs : Registers)
    (k : Kernel)
    → length table ≡ 256
    → Wide s regs
    → regs.ebx / 10 < fuel
    → process_terminate s.kernel s.kernel.current_process ≡ some k
    → Returns s regs k (syscall_handler (installed hlt fuel entry table idt) s regs)
syscall_handler_lem hlt wakes fuel entry table idt s regs k full w f gone =
    by_number hlt wakes fuel (installed hlt fuel entry table idt) s regs k regs.eax
      (installed-Installed hlt fuel entry table idt full) w f gone refl
