-- ===== src/Proc.antt =====
-- Processes and their scheduler: kernel/proc/process.c and kernel/proc/scheduler.c, with the timer of
-- kernel/drivers/timer/pit.c that calls the scheduler. A process lies at the address that the heap
-- gave for it; 0 is the null pointer.
pub mod Table
pub mod Queue
pub mod Rounds
pub mod Idle
pub mod Create
mod Tests
use zenix.Prelude.{
  ℕ, zero, suc, ◌+◌, ◌-◌, ◌*◌, ◌/◌, ◌%◌, ◌^◌, ◌≤◌, ◌<◌, min, max, bit_and, bit_or, ◌≡◌, refl, sym,
  ap, subst, ◌∙◌, fun_ext, ◌≢◌, ◌↔◌, ◌⊎◌, inl, inr, Bool, true, false, not, ◌&&◌, ◌||◌, Option,
  none, some, List, [], ◌∷◌, ◌++◌, map, arith, ltb, leb, ◌==◌, if◌then◌else◌, ltb→lt, ltb→ge,
  lt→ltb, ==_iff, ==_refl, Bool-cases, Option-cases, length, get_elem?, get_or, set, take, drop,
  replicate, length-append, length-set, length-replicate, get_or-replicate, get_or-set_self,
  get_or-set_ne, length-take, take-append-drop, u8, u16, u32, sub32,
}
use zenix.Heap.{Heap, kmalloc, kfree}

-- `registers_t`
pub record Registers : Type 0 where
  pub ds : ℕ
  pub edi : ℕ
  pub esi : ℕ
  pub ebp : ℕ
  pub esp : ℕ
  pub ebx : ℕ
  pub edx : ℕ
  pub ecx : ℕ
  pub eax : ℕ
  pub int_no : ℕ
  pub err_code : ℕ
  pub eip : ℕ
  pub cs : ℕ
  pub eflags : ℕ
  pub useresp : ℕ
  pub ss : ℕ

pub data ProcessState : Type 0 where
  ready : ProcessState
  running : ProcessState
  blocked : ProcessState
  terminated : ProcessState

abbrev pub is_running : ProcessState → Bool
is_running running = true
is_running ready = false
is_running blocked = false
is_running terminated = false

-- `process_t`; the name is its 32 bytes.
pub record Process : Type 0 where
  pub pid : ℕ
  pub name : List ℕ
  pub state : ProcessState
  pub regs : Registers
  pub kernel_stack : ℕ
  pub created_at : ℕ
  pub cpu_time : ℕ
  pub next : ℕ

-- The globals of process.c, scheduler.c and pit.c, the heap, and the processes in memory.
pub record Kernel : Type 0 where
  pub heap : Heap
  pub proc : ℕ → Process
  pub process_table : List ℕ
  pub next_pid : ℕ
  pub current_process : ℕ
  pub ready_queue_head : ℕ
  pub ready_queue_tail : ℕ
  pub ticks : ℕ
  pub system_ticks : ℕ

abbrev pub max_processes : ℕ
max_processes = 64

abbrev pub kernel_stack_size : ℕ
kernel_stack_size = 4096

-- `sizeof(process_t)`
abbrev pub process_size : ℕ
process_size = 120

abbrev pub time_slice : ℕ
time_slice = 10

-- The process at `p` written.
abbrev pub store : Kernel → ℕ → Process → Kernel
store k p x = record k { proc = λ q. if p == q then x else k.proc q }

abbrev pub zero_registers : Registers
zero_registers = record {
  ds = 0;
  edi = 0;
  esi = 0;
  ebp = 0;
  esp = 0;
  ebx = 0;
  edx = 0;
  ecx = 0;
  eax = 0;
  int_no = 0;
  err_code = 0;
  eip = 0;
  cs = 0;
  eflags = 0;
  useresp = 0;
  ss = 0;
}

abbrev pub set_state : ProcessState → Process → Process
set_state s x = record x { state = s }

abbrev pub set_next : ℕ → Process → Process
set_next p x = record x { next = p }

unfoldable pub enqueue_process : Kernel → ℕ → Kernel
enqueue_process k p =
    if p == 0
    then k
    else let k1 = store k p (set_next 0 (k.proc p)) in
      if k1.ready_queue_head == 0
      then record k1 { ready_queue_head = p; ready_queue_tail = p }
      else let tail = k1.ready_queue_tail in
        record (store k1 tail (set_next p (k1.proc tail))) { ready_queue_tail = p }

unfoldable pub dequeue_process : Kernel → ℕ × Kernel
dequeue_process k =
    if k.ready_queue_head == 0
    then (0, k)
    else let p = k.ready_queue_head in
      let k1 = record k { ready_queue_head = (k.proc p).next } in
      let k2 = if k1.ready_queue_head == 0 then record k1 { ready_queue_tail = 0 } else k1 in
      (p, store k2 p (set_next 0 (k2.proc p)))

-- The first process of the table with pid 0, from a part of the table.
unfoldable pub find_idle : Kernel → List ℕ → ℕ
find_idle k [] = 0
find_idle k (p ∷ ps) = if not (p == 0) && (k.proc p).pid == 0 then p else find_idle k ps

-- The state with the current process put back, if it was running.
unfoldable pub requeue : Kernel → Kernel
requeue k =
    let c = k.current_process in
    if is_running ((k.proc c).state)
    then enqueue_process (store k c (set_state ready (k.proc c))) c
    else k

-- The end of `schedule`, with the process to run next.
unfoldable pub switch_to : Kernel → ℕ → Kernel × Option (ℕ × ℕ)
switch_to k next =
    if next == 0
    then (k, none)
    else let prev = k.current_process in
      let k1 = record (store k next (set_state running (k.proc next))) { current_process = next } in
      (k1, if prev == next then none else some (prev, next))

-- The second part of the result is the call of `switch_context`, if there is one.
unfoldable pub schedule : Kernel → Kernel × Option (ℕ × ℕ)
schedule k =
    if k.current_process == 0
    then (k, none)
    else let k1 = requeue k in
      let idle = find_idle k1 k1.process_table in
      let (first, k2) = dequeue_process k1 in switch_to k2 (if first == 0 then idle else first)

unfoldable pub scheduler_tick : Kernel → Registers → Kernel × Option (ℕ × ℕ)
scheduler_tick k frame =
    let c = k.current_process in
    if c == 0
    then (k, none)
    else let x = k.proc c in
      let k1 = store k c (record x { cpu_time = u32 (x.cpu_time + 1) }) in
      let k2 = record k1 { ticks = u32 (k1.ticks + 1) } in
      if leb time_slice k2.ticks
      then (let k3 = record k2 { ticks = 0 } in
          schedule (store k3 c (record (k3.proc c) { regs = frame })))
      else (k2, none)

unfoldable pub scheduler_init : Kernel → Kernel
scheduler_init k = record k { ready_queue_head = 0; ready_queue_tail = 0 }

-- pit.c
unfoldable pub timer_callback : Kernel → Kernel × Option (ℕ × ℕ)
timer_callback k =
    let k1 = record k { system_ticks = u32 (k.system_ticks + 1) } in
    if k1.system_ticks % 10 == 0 then schedule k1 else (k1, none)
