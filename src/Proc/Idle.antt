-- ===== src/Proc/Idle.antt =====
-- What becomes of the processes that process_create makes: nothing puts them into the ready queue.
use zenix.Prelude.{
  ℕ, ◌+◌, ◌-◌, ◌%◌, ◌≡◌, refl, sym, ap, subst, ◌∙◌, ◌≢◌, inl, inr, true, false, Option, none, some,
  List, [], ◌∷◌, arith, leb, ◌==◌, ==_refl, Bool-cases, u32,
}
use zenix.Heap.{HeapBlock, Heap, region_start, region_size, heap_init, kmalloc}
use zenix.Heap.Fit.{cell}
use zenix.Heap.Cells.{Cell}
use zenix.Heap.Rows.{owned}
use zenix.Heap.Malloc.{IsValid, Malloc, nothing, exhausted, granted, kmalloc_lem, heap_init-IsValid}
use zenix.Proc.{
  Registers, Kernel, process_size, time_slice, is_running, enqueue_process, dequeue_process,
  requeue, switch_to, schedule, scheduler_tick, timer_callback,
}
use zenix.Proc.Table.{start_idle, process_init, process_create}
use zenix.Proc.Queue.{member}
use zenix.Proc.Rounds.{Turn, schedule_lem}
use zenix.Proc.Create.{Create, table_full, no_memory, created, process_create_lem}

-- What the kernel does, apart from ending a process.
pub data Step (k : Kernel) : Kernel → Type 0 where
  create :
      (name : List ℕ) (entry_point p : ℕ) (k' : Kernel)
      → process_create k name entry_point ≡ some (p, k')
      → Step k k'
  reschedule : Step k ((schedule k).0)
  tick : (frame : Registers) → Step k ((scheduler_tick k frame).0)
  timer : Step k ((timer_callback k).0)

pub data Steps : Kernel → Kernel → Type 0 where
  done : (k : Kernel) → Steps k k
  more : (k k' k'' : Kernel) → Step k k' → Steps k' k'' → Steps k k''

enqueue_process-heap : (k : Kernel) (p : ℕ) → (enqueue_process k p).heap ≡ k.heap
unfolding enqueue_process
enqueue_process-heap k p = ground arith

dequeue_process-heap : (k : Kernel) → (dequeue_process k).1.heap ≡ k.heap
unfolding dequeue_process
dequeue_process-heap k = ground arith

requeue-heap : (k : Kernel) → (requeue k).heap ≡ k.heap
unfolding requeue
requeue-heap k = elim (Bool-cases (is_running ((k.proc k.current_process).state))) [
  | inl run ↦ rw run (enqueue_process-heap _ k.current_process)
  | inr stop ↦ rw stop refl
]

switch_to-heap : (k : Kernel) (next : ℕ) → (switch_to k next).0.heap ≡ k.heap
unfolding switch_to
switch_to-heap k next = elim (Bool-cases (next == 0)) [ inl z ↦ rw z refl | inr nz ↦ rw nz refl ]

schedule-heap : (k : Kernel) → (schedule k).0.heap ≡ k.heap
unfolding schedule
schedule-heap k = elim (Bool-cases (k.current_process == 0)) [
  | inl z ↦ rw z refl
  | inr nz ↦ rw nz (
      switch_to-heap (dequeue_process (requeue k)).1 _
      ∙ dequeue_process-heap (requeue k)
      ∙ requeue-heap k)
]

-- The process `idle` runs, nobody waits, and the heap counts `idle` as taken.
pub record RunsAlone (idle : ℕ) (k : Kernel) : Type 0 where
  pub turn : Turn k []
  pub current : k.current_process ≡ idle
  pub cells : List Cell
  pub heap : IsValid k.heap cells
  pub taken : owned region_start cells idle ≡ true

schedule-RunsAlone : (idle : ℕ) (k : Kernel) → RunsAlone idle k → RunsAlone idle ((schedule k).0)
schedule-RunsAlone idle k a =
    let s = schedule_lem k [] a.turn in
    record {
      turn = s.turn;
      current = s.current ∙ a.current;
      cells = a.cells;
      heap = subst (λ h. IsValid h a.cells) (sym (schedule-heap k)) a.heap;
      taken = a.taken;
    }

empty : (c : ℕ) → member c [] ≡ false
unfolding member
empty c = refl

-- A change of the kernel that leaves the current process, the queue and the heap alone.
same-RunsAlone :
    (idle : ℕ) (k k' : Kernel)
    → k'.current_process ≡ k.current_process
    → k'.ready_queue_head ≡ k.ready_queue_head
    → k'.ready_queue_tail ≡ k.ready_queue_tail
    → is_running ((k'.proc k.current_process).state) ≡ true
    → (cells : List Cell) → IsValid k'.heap cells
    → owned region_start cells idle ≡ true
    → RunsAlone idle k
    → RunsAlone idle k'
same-RunsAlone idle k k' cur head tail run cells v taken a = record {
  turn = record {
    real = subst (λ c. c ≢ 0) (sym cur) a.turn.real;
    runs = subst (λ c. is_running ((k'.proc c).state) ≡ true) (sym cur) run;
    queue = record {
      links = head ∙ a.turn.queue.links;
      tail = tail ∙ a.turn.queue.tail;
      distinct = tt;
    };
    apart = empty _;
  };
  current = cur ∙ a.current;
  cells = cells;
  heap = v;
  taken = taken;
}

abbrev Keeps : ℕ → Option (ℕ × Kernel) → Type 0
Keeps idle none = Unit {0}
Keeps idle (some (p, k)) = RunsAlone idle k

Create-RunsAlone :
    (idle : ℕ) (k : Kernel) (name : List ℕ) (entry_point : ℕ) (r : Option (ℕ × Kernel))
    → (a : RunsAlone idle k) → Create k a.cells name entry_point r
    → Keeps idle r
Create-RunsAlone idle k name ep _ a (table_full h) = a
Create-RunsAlone idle k name ep _ a (no_memory k1 below none_free v t n c hd tl same) =
    let own : owned region_start a.cells k.current_process ≡ true =
      subst (λ i. owned region_start a.cells i ≡ true) (sym a.current) a.taken in
    same-RunsAlone idle k k1 c hd tl (ap (λ x. is_running (x.state)) (same _ own) ∙ a.turn.runs)
      a.cells v a.taken a
Create-RunsAlone idle k name ep _ a
      (created q stack k1 cells' lt v pz sz fresh mine apart keep new same t n c hd tl) =
    let own : owned region_start a.cells k.current_process ≡ true =
      subst (λ i. owned region_start a.cells i ≡ true) (sym a.current) a.taken in
    let other : k.current_process ≢ q = λ e.
      absurd
        (cc (subst (λ i. owned region_start a.cells i ≡ true) e own, fresh q (ground arith))) in
    same-RunsAlone idle k k1 c hd tl (ap (λ x. is_running (x.state)) (same _ other) ∙ a.turn.runs)
      cells' v (keep idle a.taken) a

tick-RunsAlone :
    (idle : ℕ) (k : Kernel) (frame : Registers)
    → RunsAlone idle k
    → RunsAlone idle ((scheduler_tick k frame).0)
unfolding scheduler_tick
tick-RunsAlone idle k frame a =
    let c = k.current_process in
    let z : (c == 0) ≡ false = ground (arith, a.turn.real) in
    elim (Bool-cases (leb time_slice (u32 (k.ticks + 1)))) [
      | inl over ↦ rw z (
          rw over (
            schedule-RunsAlone idle _ (
              same-RunsAlone idle k _ refl refl refl (rw (==_refl c) a.turn.runs) a.cells a.heap
                a.taken a)))
      | inr going ↦ rw z (
          rw going (
            same-RunsAlone idle k _ refl refl refl (rw (==_refl c) a.turn.runs) a.cells a.heap
              a.taken a))
    ]

timer-RunsAlone : (idle : ℕ) (k : Kernel) → RunsAlone idle k → RunsAlone idle ((timer_callback k).0)
unfolding timer_callback
timer-RunsAlone idle k a =
    let b =
      same-RunsAlone idle k (record k { system_ticks = u32 (k.system_ticks + 1) }) refl refl refl
        a.turn.runs a.cells a.heap a.taken a in
    elim (Bool-cases (u32 (k.system_ticks + 1) % 10 == 0)) [
      | inl slice ↦ rw slice (schedule-RunsAlone idle _ b)
      | inr between ↦ rw between b
    ]

Step-RunsAlone : (idle : ℕ) (k k' : Kernel) → RunsAlone idle k → Step k k' → RunsAlone idle k'
Step-RunsAlone idle k _ a (create name ep p k' e) =
    subst (Keeps idle) e
      (Create-RunsAlone idle k name ep _ a (process_create_lem k a.cells name ep a.heap))
Step-RunsAlone idle k _ a reschedule = schedule-RunsAlone idle k a
Step-RunsAlone idle k _ a (tick frame) = tick-RunsAlone idle k frame a
Step-RunsAlone idle k _ a timer = timer-RunsAlone idle k a

-- From a state in which one process runs and none waits, as `process_init` leaves it, that process runs
-- for ever, however many processes are created, timer ticks come and calls of `schedule` are made.
pub runs_alone : (idle : ℕ) (k k' : Kernel) → RunsAlone idle k → Steps k k' → RunsAlone idle k'
runs_alone idle k _ a (done _) = a
runs_alone idle k _ a (more _ k1 k2 s t) = runs_alone idle k1 k2 (Step-RunsAlone idle k k1 a s) t

init-RunsAlone :
    (memory : ℕ → HeapBlock) (k : Kernel) (r : Option (ℕ × Heap))
    → k.heap ≡ heap_init memory
    → k.ready_queue_head ≡ 0
    → k.ready_queue_tail ≡ 0
    → Malloc (heap_init memory) (cell (region_size - 12) 0 ∷ []) process_size r
    → kmalloc (heap_init memory) process_size ≡ r
    → (k1 : Kernel) × (process_init k ≡ some k1) × RunsAlone k1.current_process k1
unfolding process_init
init-RunsAlone memory k _ fresh head tail (nothing z) e = absurd (omega (arith, z))
init-RunsAlone memory k _ fresh head tail (exhausted full) e = absurd (cc (full.0))
init-RunsAlone memory k _ fresh head tail (granted p got h cells v lo hi al enough free now u) e =
    let run : kmalloc k.heap process_size ≡ some (p, h) =
      subst (λ x. kmalloc x process_size ≡ some (p, h)) (sym fresh) e in
    (
      start_idle k p h,
      rw (run, process_init) refl,
      record {
        turn = record {
          real = omega arith;
          runs = rw (==_refl p) refl;
          queue = record { links = head; tail = tail; distinct = tt };
          apart = empty p;
        };
        current = refl;
        cells = cells;
        heap = v;
        taken = now p ∙ ground arith;
      },
    )

-- On a new heap and an empty ready queue `process_init` ends, and the idle process that it makes stays the
-- current one as long as none is ended, whatever processes are created and however often the timer
-- and `schedule` run: no process made by `process_create` gets a turn.
pub created_never_run :
    (memory : ℕ → HeapBlock) (k : Kernel)
    → k.heap ≡ heap_init memory
    → k.ready_queue_head ≡ 0
    → k.ready_queue_tail ≡ 0
    → (k1 : Kernel) × (process_init k ≡ some k1)
      × ((k2 : Kernel) → Steps k1 k2 → k2.current_process ≡ k1.current_process)
created_never_run memory k fresh head tail =
    let (k1, e, a) =
      init-RunsAlone memory k _ fresh head tail
        (kmalloc_lem (heap_init-IsValid memory) process_size (omega arith)) refl in
    (k1, e, λ k2 s. (runs_alone _ k1 k2 a s).current)
