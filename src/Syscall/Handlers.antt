-- ===== src/Syscall/Handlers.antt =====
-- What each handler gives back to the program.
use zenix.Prelude.{
  ℕ, zero, suc, ◌+◌, ◌-◌, ◌/◌, ◌^◌, ◌<◌, ◌≡◌, refl, sym, ap, ◌∙◌, ◌≢◌, ◌⊎◌, inl, inr, true, ◌||◌,
  Option, some, List, [], ◌∷◌, ◌++◌, arith, ltb, ◌==◌, Bool-cases, u32, sub32,
}
use zenix.Prelude.Codes.{codes}
use zenix.Prelude.Int.{pos, to_uint, to_int}
use zenix.Monitor.{Monitor, print_char, print_string, dec_text, print_dec}
use zenix.Monitor.Numbers.{dec_text_lem}
use zenix.Proc.{Kernel, Registers}
use zenix.Proc.Table.{process_get_current, process_terminate}
use zenix.Syscall.{
  System, give_back, call_entry, exited_with, exit_process, sys_exit, write_loop, sys_write,
  sys_read, sys_getpid, sys_sleep,
}
use zenix.Syscall.Sleep.{Wakes, sys_sleep_lem}

-- The number given back to the program as -1
abbrev pub minus_one : ℕ
minus_one = 2 ^ 32 - 1

-- The `count` bytes of the memory from `str` on
pub bytes_at : (ℕ → ℕ) → ℕ → ℕ → ℕ → List ℕ
bytes_at memory str zero i = []
bytes_at memory str (suc count) i = memory (u32 (str + i)) ∷ bytes_at memory str count (i + 1)

-- What a call does, by its number. `k` is the kernel without the current process.
pub data Served (s : System) (regs : Registers) (k : Kernel) : Registers × System → Type 0 where
  exited :
      regs.eax ≡ 0
      → (digits : List ℕ) → dec_text regs.ebx ≡ some digits
      → Served s regs k (
        record regs { eax = 0 },
        record s {
          kernel = k;
          monitor = print_string s.monitor (codes "[SYSCALL] exit(" ++ (digits ++ codes ")\n"));
        },
      )
  wrote :
      regs.eax ≡ 1
      → (regs.ebx ≡ 1) ⊎ (regs.ebx ≡ 2)
      → Served s regs k (
        record regs { eax = regs.edx },
        record s { monitor = print_string s.monitor (bytes_at s.memory regs.ecx regs.edx 0) },
      )
  no_output :
      regs.eax ≡ 1
      → regs.ebx ≢ 1
      → regs.ebx ≢ 2
      → Served s regs k (record regs { eax = minus_one }, s)
  not_read : regs.eax ≡ 2 → Served s regs k (record regs { eax = minus_one }, s)
  pid_given :
      regs.eax ≡ 3
      → s.kernel.current_process ≢ 0
      → Served s regs k (record regs { eax = (s.kernel.proc s.kernel.current_process).pid }, s)
  no_process :
      regs.eax ≡ 3
      → s.kernel.current_process ≡ 0
      → Served s regs k (record regs { eax = minus_one }, s)
  slept :
      regs.eax ≡ 4
      → (later : Kernel) → sub32 later.system_ticks s.kernel.system_ticks ≡ regs.ebx / 10
      → Served s regs k (record regs { eax = 0 }, record s { kernel = later })
  unknown : 4 < regs.eax → Served s regs k (record regs { eax = minus_one }, s)

to_uint-to_int : (n : ℕ) → n < 2 ^ 32 → to_uint (to_int n) ≡ n
unfolding to_uint to_int
to_uint-to_int n h = elim (Bool-cases (ltb n (2 ^ 31))) [
  | inl x ↦ rw x (omega (arith, h))
  | inr x ↦ rw x (omega (arith, h))
]

write_loop-bytes_at :
    (memory : ℕ → ℕ) (str count i : ℕ) (m : Monitor)
    → write_loop count i str memory m ≡ print_string m (bytes_at memory str count i)
unfolding write_loop bytes_at print_string
write_loop-bytes_at memory str zero i m = refl
write_loop-bytes_at memory str (suc count) i m =
    write_loop-bytes_at memory str count (i + 1) (print_char m (memory (u32 (str + i))))

print_string-append :
    (m : Monitor) (xs ys : List ℕ) → print_string (print_string m xs) ys ≡ print_string m (xs ++ ys)
unfolding print_string
print_string-append m [] ys = refl
print_string-append m (x ∷ xs) ys = print_string-append (print_char m x) xs ys

-- The result that the theorem on `syscall_handler` is about
abbrev pub Returns : System → Registers → Kernel → Option (Registers × System) → Type 0
Returns s regs k r = (x : Registers × System) × (r ≡ some x) × Served s regs k x

print_dec-text :
    (m : Monitor) (n : ℕ) (digits : List ℕ)
    → dec_text n ≡ some digits
    → print_dec m n ≡ some (print_string m digits)
unfolding print_dec
print_dec-text m n digits e = rw (e, print_dec) refl

-- Terminating the process at the null pointer changes nothing, so that the test of `sys_exit` does not matter.
terminate_null : (k : Kernel) (p : ℕ) → (p == 0) ≡ true → process_terminate k p ≡ some k
unfolding process_terminate
terminate_null k p z = rw (z, process_terminate) refl

exit_process-some :
    (s : System) (m : Monitor) (k : Kernel)
    → process_terminate s.kernel s.kernel.current_process ≡ some k
    → exit_process s (some m)
      ≡ some (pos 0, record s { kernel = k; monitor = print_string m (codes ")\n") })
unfolding process_get_current
exit_process-some s m k gone =
    let t = record s { monitor = print_string m (codes ")\n") } in
    elim (Bool-cases (s.kernel.current_process == 0)) [
      | inl z ↦
          rw z
            (ap (exited_with t) (sym (terminate_null s.kernel s.kernel.current_process z) ∙ gone))
      | inr z ↦ rw z (ap (exited_with t) gone)
    ]

pub exit-Returns :
    (s : System) (regs : Registers) (k : Kernel)
    → regs.eax ≡ 0
    → regs.ebx < 2 ^ 32
    → process_terminate s.kernel s.kernel.current_process ≡ some k
    → Returns s regs k (call_entry (some sys_exit) s regs)
unfolding call_entry sys_exit to_uint
exit-Returns s regs k at small gone =
    let (digits, text, short, made, value) = dec_text_lem regs.ebx small in
    let m0 = print_string s.monitor (codes "[SYSCALL] exit(") in
    let m = print_string s.monitor (codes "[SYSCALL] exit(" ++ (digits ++ codes ")\n")) in
    let told : print_string (print_string m0 digits) (codes ")\n") ≡ m =
      print_string-append m0 digits (codes ")\n")
      ∙ print_string-append s.monitor (codes "[SYSCALL] exit(") (digits ++ codes ")\n") in
    let run =
      ap (λ r. give_back regs (exit_process s r)) (print_dec-text m0 regs.ebx digits text)
      ∙ ap (give_back regs) (exit_process-some s (print_string m0 digits) k gone)
      ∙ ap (λ x. some (record regs { eax = 0 }, record s { kernel = k; monitor = x })) told in
    ((record regs { eax = 0 }, record s { kernel = k; monitor = m }), run, exited at digits text)

pub write-Returns :
    (s : System) (regs : Registers) (k : Kernel)
    → regs.eax ≡ 1
    → regs.edx < 2 ^ 32
    → Returns s regs k (call_entry (some sys_write) s regs)
unfolding call_entry sys_write to_uint
write-Returns s regs k at small = elim (Bool-cases ((regs.ebx == 1) || (regs.ebx == 2))) [
  | inl x ↦
      let text = write_loop-bytes_at s.memory regs.ecx regs.edx 0 s.monitor in
      let m = print_string s.monitor (bytes_at s.memory regs.ecx regs.edx 0) in
      (
        (record regs { eax = regs.edx }, record s { monitor = m }),
        rw (x, to_uint-to_int regs.edx small, text) refl,
        wrote at (elim (Bool-cases (regs.ebx == 1)) [
          | inl y ↦ inl (ground (arith, y))
          | inr y ↦ inr (ground (arith, x, y))
        ]),
      )
  | inr x ↦ (
    (record regs { eax = minus_one }, s),
    rw x refl,
    no_output at (λ y. ground (arith, x, y)) (λ y. ground (arith, x, y)),
  )
]

pub getpid-Returns :
    (s : System) (regs : Registers) (k : Kernel)
    → regs.eax ≡ 3
    → (s.kernel.proc s.kernel.current_process).pid < 2 ^ 32
    → Returns s regs k (call_entry (some sys_getpid) s regs)
unfolding call_entry sys_getpid to_uint process_get_current
getpid-Returns s regs k at small = elim (Bool-cases (s.kernel.current_process == 0)) [
  | inl z ↦ ((record regs { eax = minus_one }, s), rw z refl, no_process at (ground (arith, z)))
  | inr z ↦ (
    (record regs { eax = (s.kernel.proc s.kernel.current_process).pid }, s),
    rw (z, to_uint-to_int (s.kernel.proc s.kernel.current_process).pid small) refl,
    pid_given at (λ y. ground (arith, z, y)),
  )
]

pub sleep-Returns :
    (hlt : Kernel → Option Kernel) (wakes : Wakes hlt) (fuel : ℕ) (s : System) (regs : Registers)
    (k : Kernel)
    → regs.eax ≡ 4
    → s.kernel.system_ticks < 2 ^ 32
    → regs.ebx < 2 ^ 32
    → regs.ebx / 10 < fuel
    → Returns s regs k (call_entry (some (sys_sleep hlt fuel)) s regs)
unfolding call_entry to_uint
sleep-Returns hlt wakes fuel s regs k at ticks small enough =
    let (later, run, gone) =
      sys_sleep_lem hlt wakes fuel s regs.ebx regs.ecx regs.edx regs.esi regs.edi ticks small
        enough in
    (
      (record regs { eax = 0 }, record s { kernel = later }),
      ap (give_back regs) run,
      slept at later gone,
    )

pub read_minus_one :
    (s : System) (regs : Registers)
    → call_entry (some sys_read) s regs ≡ some (record regs { eax = minus_one }, s)
unfolding call_entry sys_read to_uint
read_minus_one s regs = refl
