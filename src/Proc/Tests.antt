-- ===== src/Proc/Tests.antt =====
-- Runs of the scheduler, and its theorems at concrete kernels.
use zenix.Prelude.{ℕ, ◌≡◌, refl, false, some, List, [], ◌∷◌, arith, ◌==◌, if◌then◌else◌, replicate}
use zenix.Heap.{HeapBlock, heap_init}
use zenix.Proc.{
  ProcessState, Kernel, set_next, set_state, enqueue_process, dequeue_process, requeue, switch_to,
  schedule,
}
use zenix.Proc.Table.{zero_process, process_init, clear_slot, fill_slot}
use zenix.Proc.Queue.{member, Queue}
use zenix.Proc.Rounds.{Turn, rounds, round_robin}
use zenix.Proc.Create.{Create}
use zenix.Proc.Idle.{Steps, created_never_run}

abbrev unwritten : ℕ → HeapBlock
unwritten p = record { size = 0; used = 0; next = 0 }

abbrev boot : Kernel
boot = record {
  heap = heap_init unwritten;
  proc = λ p. zero_process;
  process_table = replicate 64 0;
  next_pid = 0;
  current_process = 0;
  ready_queue_head = 0;
  ready_queue_tail = 0;
  ticks = 0;
  system_ticks = 0;
}

-- The process at 16 runs, those at 32 and 48 wait.
abbrev three : Kernel
three = record boot {
  proc = λ p.
      if p == 16
      then set_state ProcessState.running zero_process
      else if p == 32
      then set_next 48 zero_process
      else zero_process;
  current_process = 16;
  ready_queue_head = 32;
  ready_queue_tail = 48;
}

abbrev waiting : List ℕ
waiting = 32 ∷ 48 ∷ []

three-Queue : Queue three waiting
unfolding member
three-Queue = record {
  links = (refl, (ground arith), (refl, (ground arith), refl));
  tail = refl;
  distinct = (refl, (refl, tt));
}

three-Turn : Turn three waiting
unfolding member
three-Turn = record { real = ground arith; runs = refl; queue = three-Queue; apart = refl }

schedule-three : ((schedule three).0.current_process ≡ 32) × ((schedule three).1 ≡ some (16, 32))
unfolding schedule requeue enqueue_process dequeue_process switch_to
schedule-three = (refl, refl)

slots : (clear_slot (fill_slot (7 ∷ 0 ∷ 0 ∷ []) 9) 7 ≡ 0 ∷ 9 ∷ 0 ∷ [])
unfolding clear_slot fill_slot
slots = refl

outside : member 64 waiting ≡ false
unfolding member
outside = refl

round_robin_example : (rounds 3 three).current_process ≡ 16
round_robin_example = round_robin 2 three waiting 16 three-Turn refl

created_never_run_example :
    (k1 : Kernel) × (process_init boot ≡ some k1)
    × ((k2 : Kernel) → Steps k1 k2 → k2.current_process ≡ k1.current_process)
created_never_run_example = created_never_run unwritten boot refl refl refl
