-- ===== src/Apps/Launch.antt =====
-- `app_launch` on every branch, and a second launch of the same type.
use zenix.Prelude.{
  ℕ, zero, suc, ◌+◌, ◌≤◌, ◌<◌, ◌≡◌, refl, sym, ap, subst, ◌≢◌, ◌⊎◌, inl, inr, true, false, not,
  ◌&&◌, Option, none, some, List, [], ◌∷◌, arith, leb, ◌==◌, ==_iff, Bool-cases, set,
}
use zenix.Prelude.Codes.{codes}
use zenix.Prelude.Int.{ℤ, pos, negsuc}
use zenix.Heap.Cells.{Cell}
use zenix.Heap.Malloc.{IsValid}
use zenix.Proc.{Kernel, Process, max_processes}
use zenix.Proc.Table.{fill_slot, new_process, process_create}
use zenix.Proc.Create.{Create, NoRoom, table_full, no_memory, created, process_create_lem}
use zenix.Apps.{
  App, Apps, max_apps, app_calculator, app_at, find_running, launch_calculator, app_launch,
}

-- An active application of the type in one slot
abbrev pub Runs : List App → ℕ → ℕ → Type 0
Runs apps i type = ((app_at apps i).active ≢ 0) × ((app_at apps i).type ≡ type)

-- What `find_running` finds among the first `left` slots.
pub data Running (apps : List App) (left type : ℕ) : Option ℕ → Type 0 where
  nowhere : ((i : ℕ) → i < left → ¬ (Runs apps i type)) → Running apps left type none
  at_slot : (i : ℕ) → i < left → Runs apps i type → Running apps left type (some i)

runs_test :
    (a : App) (type : ℕ)
    → (not (a.active == 0) && a.type == type) ≡ true
    → (a.active ≢ 0) × (a.type ≡ type)
runs_test a type e = ((λ z. ground (arith, e, z)), ground (arith, e))

not_runs :
    (a : App) (type : ℕ)
    → (not (a.active == 0) && a.type == type) ≡ false
    → a.active ≢ 0
    → a.type ≡ type
    → ⊥
not_runs a type e used same = ground (arith, e, used, same)

nowhere_later :
    (a : App) (rest : List App) (left type : ℕ)
    → (not (a.active == 0) && a.type == type) ≡ false
    → ((i : ℕ) → i < left → ¬ (Runs rest i type))
    → (i : ℕ) → i < suc left
    → ¬ (Runs (a ∷ rest) i type)
nowhere_later a rest left type e none_later zero h r = not_runs a type e (r.0) (r.1)
nowhere_later a rest left type e none_later (suc i) h r = none_later i (omega arith) r

Running-later :
    (a : App) (rest : List App) (left type : ℕ) (r : Option ℕ)
    → (not (a.active == 0) && a.type == type) ≡ false
    → Running rest left type r
    → Running (a ∷ rest) (suc left) type (elim r [ none ↦ none | some i ↦ some (suc i) ])
Running-later a rest left type _ e (nowhere n) = nowhere (nowhere_later a rest left type e n)
Running-later a rest left type _ e (at_slot i h r) = at_slot (suc i) (omega arith) r

pub find_running-Running :
    (apps : List App) (left type : ℕ) → Running apps left type (find_running apps left type)
unfolding find_running
find_running-Running [] left type = nowhere (λ i h r. (r.0) refl)
find_running-Running (a ∷ rest) zero type = nowhere (λ i h r. elim h [ ])
find_running-Running (a ∷ rest) (suc left) type =
    elim (Bool-cases (not (a.active == 0) && a.type == type)) [
      | inl e ↦ rw e (at_slot 0 (omega arith) (runs_test a type e))
      | inr e ↦ rw e (Running-later a rest left type _ e (find_running-Running rest left type))
    ]

-- No application of the type is active in a slot that was taken.
abbrev pub NoneRuns : Apps → ℕ → Type 0
NoneRuns s type = (i : ℕ) → i < s.app_count → ¬ (Runs s.apps i type)

-- The slots with the next one inactive again, but for the type that was written into it
abbrev pub slot_left : Apps → ℕ → List App
slot_left s type =
    set s.apps s.app_count (record (app_at s.apps s.app_count) { type = type; active = 0 })

-- The outcomes of `app_launch` on a heap that is the row `cells`
pub data Launch (s : Apps) (cells : List Cell) (type : ℕ) : Option (ℤ × Apps) → Type 0 where
  too_many : max_apps ≤ s.app_count → Launch s cells type (some (negsuc 0, s))
  running :
      (i : ℕ)
      → s.app_count < max_apps
      → i < s.app_count
      → Runs s.apps i type
      → Launch s cells type (some (pos i, s))
  unknown :
      type ≢ app_calculator
      → s.app_count < max_apps
      → NoneRuns s type
      → Launch s cells type (some (negsuc 0, record s { apps = slot_left s type }))
  no_process :
      (k : Kernel)
      → type ≡ app_calculator
      → s.app_count < max_apps
      → NoneRuns s type
      → (max_processes ≤ s.kernel.next_pid) ⊎ NoRoom s.kernel.heap cells
      → IsValid k.heap cells
      → k.process_table ≡ s.kernel.process_table
      → k.next_pid ≡ s.kernel.next_pid
      → Launch s cells type (some (negsuc 0, record s { apps = slot_left s type; kernel = k }))
  launched :
      (p : ℕ) (k : Kernel) (s' : Apps)
      → type ≡ app_calculator
      → s.app_count < max_apps
      → p ≢ 0
      → k.process_table ≡ fill_slot s.kernel.process_table p
      → s'.kernel ≡ k
      → s'.app_count ≡ s.app_count + 1
      → s'.apps
        ≡ set s.apps s.app_count (record { type = type; pid = s.kernel.next_pid; active = 1 })
      → NoneRuns s type
      → Launch s cells type (some (pos s.app_count, s'))

module _ (s : Apps) (entry : ℕ) (cells : List Cell) where
  calculator-Launch :
      (r : Option (ℕ × Kernel))
      → s.app_count < max_apps
      → NoneRuns s app_calculator
      → IsValid s.kernel.heap cells
      → Create s.kernel cells (codes "calculator") entry r
      → Launch s cells app_calculator
          (elim r [ none ↦ none | some q ↦ some (launch_calculator s q) ])
  unfolding launch_calculator new_process
  calculator-Launch _ lt none_runs v (table_full h) =
      no_process s.kernel refl lt none_runs (inl h) v refl refl
  calculator-Launch _ lt none_runs v (no_memory k below none_free v1 tab pid cur rh rt same) =
      no_process k refl lt none_runs (inr none_free) v1 tab pid
  calculator-Launch _ lt none_runs v
        (created p stack k cells' below v1 pn sn a b c d new other tab pid cur rh rt) =
      let z : (p == 0) ≡ false = ground (arith, pn) in
      rw z (
        launched p k _ refl lt pn tab refl refl
          (ap
            (λ (q : Process).
              set s.apps s.app_count (record { type = app_calculator; pid = q.pid; active = 1 }))
            new)
          none_runs)

  chosen-Launch :
      (type : ℕ) (r : Option ℕ)
      → IsValid s.kernel.heap cells
      → s.app_count < max_apps
      → Running s.apps s.app_count type r
      → find_running s.apps s.app_count type ≡ r
      → Launch s cells type (app_launch entry s type)
  unfolding app_launch
  chosen-Launch type _ v lt (at_slot i h r) e =
      let room : leb max_apps s.app_count ≡ false = ground (arith, lt) in
      rw (room, app_launch) (rw e (running i lt h r))
  chosen-Launch type _ v lt (nowhere n) e =
      let room : leb max_apps s.app_count ≡ false = ground (arith, lt) in
      elim (Bool-cases (type == app_calculator)) [
        | inl c ↦
            let same : type ≡ app_calculator = (==_iff _ _).0 c in
            rw (room, app_launch)
              (rw e (
                rw c (
                  subst
                    (λ t.
                      Launch s cells t (elim (process_create s.kernel (codes "calculator") entry) [
                        | none ↦ none
                        | some q ↦ some (launch_calculator s q)
                      ]))
                    (sym same)
                    (calculator-Launch _ lt
                      (subst (λ t. (i : ℕ) → i < s.app_count → ¬ (Runs s.apps i t)) same n) v
                      (process_create_lem s.kernel cells (codes "calculator") entry v)))))
        | inr c ↦ rw (room, app_launch) (rw e (rw c (unknown (λ q. ground (arith, c, q)) lt n)))
      ]

  -- `app_launch` ends on a valid heap. It refuses, and changes nothing, when 16 slots have been taken. With a slot left it
  -- returns the slot of an application of the type that is active, and changes nothing. With none active, it
  -- returns -1 for a type that is not the calculator, and takes no slot, but writes the type into the next
  -- one. For the calculator it returns -1 and takes no slot either if no process can be made, 64 having been
  -- made before or the heap having no room for the process or its stack; and otherwise it takes the next slot for the
  -- calculator, with the pid of a new process in the table.
  pub app_launch_lem :
      (type : ℕ) → IsValid s.kernel.heap cells → Launch s cells type (app_launch entry s type)
  unfolding app_launch
  app_launch_lem type v = elim (Bool-cases (leb max_apps s.app_count)) [
    | inl full ↦ rw (full, app_launch) (too_many (ground (arith, full)))
    | inr room ↦
        chosen-Launch type _ v (ground (arith, room)) (find_running-Running s.apps s.app_count type)
          refl
  ]
