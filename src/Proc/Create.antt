-- ===== src/Proc/Create.antt =====
-- `process_create` of process.c on every branch: what it allocates, writes and refuses.
use zenix.Prelude.{
  ℕ, ◌+◌, ◌≤◌, ◌<◌, ◌≡◌, refl, subst, ◌∙◌, ◌≢◌, inl, inr, true, false, ◌||◌, Option, some, List,
  arith, leb, ◌==◌, ==_iff, ==_refl, Bool-cases,
}
use zenix.Heap.{Heap, region_start, align4, kmalloc}
use zenix.Heap.Cells.{Cell}
use zenix.Heap.Rows.{inside, owned}
use zenix.Heap.Malloc.{IsValid, NoFit, Malloc, nothing, exhausted, granted, kmalloc_lem}
use zenix.Heap.RoundTrip.{FreeRestores, refused, given_back, kfree-kmalloc}
use zenix.Proc.{Kernel, max_processes, kernel_stack_size, process_size, store}
use zenix.Proc.Table.{zero_process, fill_slot, new_process, create_at, process_create}

-- The heap has no room for a process, or none for a stack once the process has its place.
pub data NoRoom (s : Heap) (cells : List Cell) : Type 0 where
  for_process : NoFit (align4 process_size) cells → NoRoom s cells
  for_stack :
      (p : ℕ) (h : Heap) (cells' : List Cell)
      → kmalloc s process_size ≡ some (p, h)
      → p ≢ 0
      → IsValid h cells'
      → NoFit (align4 kernel_stack_size) cells'
      → NoRoom s cells

-- The outcomes of `process_create` on a kernel whose heap is the row `cells`.
pub data Create (k : Kernel) (cells : List Cell) (name : List ℕ) (entry_point : ℕ)
    : Option (ℕ × Kernel) → Type 0 where
  table_full : max_processes ≤ k.next_pid → Create k cells name entry_point (some (0, k))
  no_memory :
      (k' : Kernel)
      → k.next_pid < max_processes
      → NoRoom k.heap cells
      → IsValid k'.heap cells
      → k'.process_table ≡ k.process_table
      → k'.next_pid ≡ k.next_pid
      → k'.current_process ≡ k.current_process
      → k'.ready_queue_head ≡ k.ready_queue_head
      → k'.ready_queue_tail ≡ k.ready_queue_tail
      → ((q : ℕ) → owned region_start cells q ≡ true → k'.proc q ≡ k.proc q)
      → Create k cells name entry_point (some (0, k'))
  created :
      (p stack : ℕ) (k' : Kernel) (cells' : List Cell)
      → k.next_pid < max_processes
      → IsValid k'.heap cells'
      → p ≢ 0
      → stack ≢ 0
      → ((x : ℕ) → inside p process_size x ≡ true → owned region_start cells x ≡ false)
      → ((x : ℕ) → inside p process_size x ≡ true → owned region_start cells' x ≡ true)
      → ((x : ℕ) → inside stack kernel_stack_size x ≡ true → inside p process_size x ≡ false)
      → ((x : ℕ) → owned region_start cells x ≡ true → owned region_start cells' x ≡ true)
      → k'.proc p ≡ new_process k name entry_point stack
      → ((q : ℕ) → q ≢ p → k'.proc q ≡ k.proc q)
      → k'.process_table ≡ fill_slot k.process_table p
      → k'.next_pid ≡ k.next_pid + 1
      → k'.current_process ≡ k.current_process
      → k'.ready_queue_head ≡ k.ready_queue_head
      → k'.ready_queue_tail ≡ k.ready_queue_tail
      → Create k cells name entry_point (some (p, k'))

unowned-apart :
    (cells : List Cell) (p q : ℕ)
    → owned region_start cells p ≡ false
    → owned region_start cells q ≡ true
    → (p == q) ≡ false
unowned-apart cells p q free taken = elim (Bool-cases (p == q)) [
  | inl same ↦
      let e : p ≡ q = (==_iff _ _).0 same in
      absurd (cc (subst (λ x. owned region_start cells x ≡ false) e free, taken))
  | inr differ ↦ differ
]

module _ (k : Kernel) (cells : List Cell) (name : List ℕ) (entry_point : ℕ) where
  -- The allocation of the stack, with the process at `p`
  stack_Create :
      (below : k.next_pid < max_processes) (p got : ℕ) (h : Heap) (cells1 : List Cell)
      → IsValid h cells1
      → region_start + 12 ≤ p
      → process_size ≤ got
      → ((x : ℕ) → inside p got x ≡ true → owned region_start cells x ≡ false)
      → ((x : ℕ) → owned region_start cells1 x ≡ (inside p got x || owned region_start cells x))
      → FreeRestores k.heap cells process_size (some (p, h))
      → kmalloc k.heap process_size ≡ some (p, h)
      → (r : Option (ℕ × Heap)) → Malloc h cells1 kernel_stack_size r
      → kmalloc h kernel_stack_size ≡ r
      → Create k cells name entry_point
          (create_at (record (store k p zero_process) { heap = h }) name entry_point p)
  unfolding create_at new_process
  stack_Create below _ got h cells1 v1 lo enough fresh now (refused z) at r m e =
      absurd (omega (arith, lo))
  stack_Create below p got h cells1 v1 lo enough fresh now (given_back _ _ h2 pn run v2 used) at r
        (nothing z) e =
      absurd (omega (arith, z))
  stack_Create below p got h cells1 v1 lo enough fresh now (given_back _ _ h2 pn run v2 used) at r
        (exhausted nf) e =
      let self : owned region_start cells p ≡ false = fresh p (ground arith) in
      rw (e, create_at)
        (rw run (
          no_memory _ below (for_stack p h cells1 at pn v1 nf) v2 refl refl refl refl refl
            (λ q o. rw (unowned-apart cells p q self o) refl)))
  stack_Create below p got h cells1 v1 lo enough fresh now (given_back _ _ h2 pn run v2 used) at r
        (granted stack sgot h' cells' v' slo shi al senough sfresh snow u) e =
      let z : (stack == 0) ≡ false = ground arith in
      rw (e, create_at)
        (rw z (
          created p stack _ cells' below v' (omega arith) (omega arith)
            (λ x i. fresh x (ground arith)) (λ x i. snow x ∙ ground (arith, now x))
            (λ x i. ground (arith, sfresh x (ground arith), now x))
            (λ x o. snow x ∙ ground (arith, now x)) (rw (==_refl p) refl)
            (λ q ne. let a : (p == q) ≡ false = ground (arith, ne) in rw a refl) refl (omega arith)
            refl refl refl))

  process_Create :
      (below : k.next_pid < max_processes) (r : Option (ℕ × Heap))
      → Malloc k.heap cells process_size r
      → FreeRestores k.heap cells process_size r
      → kmalloc k.heap process_size ≡ r
      → IsValid k.heap cells
      → Create k cells name entry_point (process_create k name entry_point)
  unfolding process_create
  process_Create below _ (nothing z) f e v = absurd (omega (arith, z))
  process_Create below _ (exhausted nf) f e v =
      let room : leb max_processes k.next_pid ≡ false = ground arith in
      rw room (rw e (no_memory _ below (for_process nf) v refl refl refl refl refl (λ q o. refl)))
  process_Create below _ (granted p got h cells1 v1 lo hi al enough fresh now u) f e v =
      let room : leb max_processes k.next_pid ≡ false = ground arith in
      let z : (p == 0) ≡ false = ground arith in
      rw room (
        rw e (
          rw z (
            stack_Create below p got h cells1 v1 lo enough fresh now f e _
              (kmalloc_lem v1 kernel_stack_size (omega arith)) refl)))

  pub process_create_lem :
      IsValid k.heap cells → Create k cells name entry_point (process_create k name entry_point)
  unfolding process_create
  process_create_lem v = elim (Bool-cases (leb max_processes k.next_pid)) [
    | inl full ↦ rw full (table_full (ground (arith, full)))
    | inr room ↦
        process_Create (ground (arith, room)) _ (kmalloc_lem v process_size (omega arith))
          (kfree-kmalloc v process_size) refl v
  ]
