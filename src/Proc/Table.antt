-- ===== src/Proc/Table.antt =====
-- process.c: the table of processes, their creation and their end.
use zenix.Prelude.{
  ℕ, ◌+◌, Option, none, some, List, [], ◌∷◌, ◌++◌, leb, ◌==◌, if◌then◌else◌, set, take, replicate,
  u32, sub32,
}
use zenix.Heap.{Heap, kmalloc, kfree}
use zenix.Proc.{
  ProcessState, Process, Kernel, max_processes, kernel_stack_size, process_size, store,
  zero_registers,
}

-- What `memset(proc, 0, sizeof(process_t))` leaves: the state 0 is PROCESS_READY.
abbrev pub zero_process : Process
zero_process = record {
  pid = 0;
  name = replicate 32 0;
  state = ProcessState.ready;
  regs = zero_registers;
  kernel_stack = 0;
  created_at = 0;
  cpu_time = 0;
  next = 0;
}

-- `strncpy(proc->name, name, 31); proc->name[31] = '\0';` for the text `name`
unfoldable pub copy_name : List ℕ → List ℕ
copy_name name = take 31 (name ++ replicate 31 0) ++ (0 ∷ [])

-- The first empty slot of the table is taken.
unfoldable pub fill_slot : List ℕ → ℕ → List ℕ
fill_slot [] p = []
fill_slot (q ∷ qs) p = if q == 0 then p ∷ qs else q ∷ fill_slot qs p

-- The first slot of the table that holds `p` is emptied.
unfoldable pub clear_slot : List ℕ → ℕ → List ℕ
clear_slot [] p = []
clear_slot (q ∷ qs) p = if q == p then 0 ∷ qs else q ∷ clear_slot qs p

abbrev pub idle_name : List ℕ
idle_name = 105 ∷ 100 ∷ 108 ∷ 101 ∷ []

-- What `process_init` makes of the process at `p` and of the globals.
abbrev pub start_idle : Kernel → ℕ → Heap → Kernel
start_idle k p h =
    let idle = record zero_process {
      pid = k.next_pid;
      name = idle_name ++ replicate 28 0;
      state = ProcessState.running;
      created_at = k.system_ticks;
    } in
    record (store k p idle) {
      heap = h;
      next_pid = u32 (k.next_pid + 1);
      current_process = p;
      process_table = set (replicate max_processes 0) 0 p;
    }

-- A failing `kmalloc` is not noticed: the process is then written at 0.
unfoldable pub process_init : Kernel → Option Kernel
process_init k = elim (kmalloc k.heap process_size) [
  | none ↦ none
  | some (p, h) ↦ some (start_idle k p h)
]

-- What `process_create` writes into the process that it has allocated.
unfoldable pub new_process : Kernel → List ℕ → ℕ → ℕ → Process
new_process k name entry_point stack =
    let top = u32 (stack + kernel_stack_size) in
    record {
      pid = k.next_pid;
      name = copy_name name;
      state = ProcessState.ready;
      regs = record zero_registers {
        eip = entry_point;
        cs = 0x08;
        ds = 0x10;
        eflags = 0x202;
        useresp = top;
        ss = 0x10;
      };
      kernel_stack = top;
      created_at = k.system_ticks;
      cpu_time = 0;
      next = 0;
    }

-- `process_create` from the allocation of the stack on, with the process at `p`
unfoldable pub create_at : Kernel → List ℕ → ℕ → ℕ → Option (ℕ × Kernel)
create_at k name entry_point p = elim (kmalloc k.heap kernel_stack_size) [
  | none ↦ none
  | some (stack, h) ↦
      if stack == 0
      then elim (kfree h p) [ none ↦ none | some h' ↦ some (0, record k { heap = h' }) ]
      else some (
        p,
        record (store k p (new_process k name entry_point stack)) {
          heap = h;
          next_pid = u32 (k.next_pid + 1);
          process_table = fill_slot k.process_table p;
        },
      )
]

-- The name is given as the bytes before its terminating 0; the result 0 is the null pointer.
unfoldable pub process_create : Kernel → List ℕ → ℕ → Option (ℕ × Kernel)
process_create k name entry_point =
    if leb max_processes k.next_pid then some (0, k) else elim (kmalloc k.heap process_size) [
      | none ↦ none
      | some (p, h) ↦
          if p == 0
          then some (0, record k { heap = h })
          else create_at (record (store k p zero_process) { heap = h }) name entry_point p
    ]

-- Giving back the stack, if there is one
unfoldable pub free_stack : Heap → ℕ → Option Heap
free_stack h kernel_stack =
    if kernel_stack == 0 then some h else kfree h (sub32 kernel_stack kernel_stack_size)

unfoldable pub process_terminate : Kernel → ℕ → Option Kernel
process_terminate k p =
    if p == 0
    then some k
    else let x = record (k.proc p) { state = ProcessState.terminated } in
      let k1 = record (store k p x) { process_table = clear_slot k.process_table p } in
      elim (free_stack k1.heap x.kernel_stack) [
        | none ↦ none
        | some h ↦ elim (kfree h p) [ none ↦ none | some h' ↦ some (record k1 { heap = h' }) ]
      ]

unfoldable pub process_get_current : Kernel → ℕ
process_get_current k = k.current_process
