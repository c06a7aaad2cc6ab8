-- ===== src/Apps.antt =====
-- The application manager, kernel/apps/app_manager.c, over the processes of Proc. The three function pointers of
-- an application are left out: the first two are set and never called here, and cleanup_func is null in
-- every application, so that the call in `app_close` is never made. Messages are left out too.
pub mod Launch
pub mod Slots
mod Tests
use zenix.Prelude.{
  ℕ, zero, suc, ◌+◌, ◌-◌, ◌*◌, ◌/◌, ◌%◌, ◌^◌, ◌≤◌, ◌<◌, min, max, bit_and, bit_or, ◌≡◌, refl, sym,
  ap, subst, ◌∙◌, fun_ext, ◌≢◌, ◌↔◌, ◌⊎◌, inl, inr, Bool, true, false, not, ◌&&◌, ◌||◌, Option,
  none, some, List, [], ◌∷◌, ◌++◌, map, arith, ltb, leb, ◌==◌, if◌then◌else◌, ltb→lt, ltb→ge,
  lt→ltb, ==_iff, ==_refl, Bool-cases, Option-cases, length, get_elem?, get_or, set, take, drop,
  replicate, length-append, length-set, length-replicate, get_or-replicate, get_or-set_self,
  get_or-set_ne, length-take, take-append-drop, u8, u16, u32, sub32,
}
use zenix.Prelude.Codes.{codes}
use zenix.Prelude.Int.{ℤ, pos, negsuc}
use zenix.Proc.{Kernel, Process, ProcessState}
use zenix.Proc.Table.{process_create, process_terminate}

-- `app_t` without its name, which is copied and never read, and its function pointers; `type` is the number of the
-- enumeration app_type_t.
pub record App : Type 0 where
  pub type : ℕ
  pub pid : ℕ
  pub active : ℕ

-- The globals of app_manager.c, and the processes.
pub record Apps : Type 0 where
  pub apps : List App
  pub app_count : ℕ
  pub kernel : Kernel

abbrev pub max_apps : ℕ
max_apps = 16

abbrev pub app_calculator : ℕ
app_calculator = 0

abbrev pub no_app : App
no_app = record { type = 0; pid = 0; active = 0 }

abbrev pub app_at : List App → ℕ → App
app_at apps i = get_or apps i no_app

-- The loop that clears the slots
unfoldable pub clear_apps : List App → List App
clear_apps [] = []
clear_apps (a ∷ rest) = record a { active = 0; pid = 0 } ∷ clear_apps rest

unfoldable pub app_manager_init : Apps → Apps
app_manager_init s = record s { apps = clear_apps s.apps; app_count = 0 }

-- The loop over the first `left` slots: the place of an active application of the type
unfoldable pub find_running : List App → ℕ → ℕ → Option ℕ
find_running [] left type = none
find_running (a ∷ rest) zero type = none
find_running (a ∷ rest) (suc left) type =
    let later = find_running rest left type in
    if not (a.active == 0) && a.type == type
    then some 0
    else (elim later [ none ↦ none | some i ↦ some (suc i) ])

-- A slot given up again, with the type that was written into it
abbrev pub give_up : Apps → ℕ → Kernel → Apps
give_up s type k = record s {
  apps = set s.apps s.app_count (record (app_at s.apps s.app_count) { type = type; active = 0 });
  kernel = k;
}

-- The case of the calculator, with the process that was made, or 0.
unfoldable pub launch_calculator : Apps → ℕ × Kernel → ℤ × Apps
launch_calculator s (p, k) = if p == 0 then (negsuc 0, give_up s app_calculator k) else (
  pos s.app_count,
  record {
    apps =
        set s.apps s.app_count (record { type = app_calculator; pid = (k.proc p).pid; active = 1 });
    app_count = s.app_count + 1;
    kernel = k;
  },
)

-- The process runs at `entry`, the address of calculator_process_entry. `none` means that a walk over the heap
-- did not end.
unfoldable pub app_launch : ℕ → Apps → ℕ → Option (ℤ × Apps)
app_launch entry s type =
    if leb max_apps s.app_count
    then some (negsuc 0, s)
    else (elim (find_running s.apps s.app_count type) [
      | some i ↦ some (pos i, s)
      | none ↦
          if type == app_calculator
          then elim (process_create s.kernel (codes "calculator") entry) [
            | none ↦ none
            | some r ↦ some (launch_calculator s r)
          ]
          else some (negsuc 0, give_up s type s.kernel)
    ])

-- The loops over process_table: the first process of the pid, and whether a process of the pid has not ended.
unfoldable pub find_process : List ℕ → (ℕ → Process) → ℕ → Option ℕ
find_process [] proc pid = none
find_process (p ∷ ps) proc pid =
    let later = find_process ps proc pid in
    if not (p == 0) && (proc p).pid == pid then some p else later

unfoldable pub has_ended : ProcessState → Bool
has_ended ProcessState.terminated = true
has_ended state = false

unfoldable pub process_exists : List ℕ → (ℕ → Process) → ℕ → Bool
process_exists [] proc pid = false
process_exists (p ∷ ps) proc pid =
    (not (p == 0) && ((proc p).pid == pid && not (has_ended (proc p).state)))
    || process_exists ps proc pid

-- The guard of the operations on an application, whose slot it returns
unfoldable pub slot_of : Apps → ℤ → Option ℕ
slot_of s (negsuc n) = none
slot_of s (pos i) = if leb s.app_count i then none else some i

unfoldable pub end_process : Kernel → ℕ → Option Kernel
end_process k pid = elim (find_process k.process_table k.proc pid) [
  | none ↦ some k
  | some p ↦ process_terminate k p
]

unfoldable pub close_slot : Apps → ℕ → Option Apps
close_slot s i =
    if (app_at s.apps i).active == 0
    then some s
    else (elim (end_process s.kernel ((app_at s.apps i).pid)) [
      | none ↦ none
      | some k ↦
          some
            (record s { apps = set s.apps i (record (app_at s.apps i) { active = 0 }); kernel = k })
    ])

unfoldable pub app_close : Apps → ℤ → Option Apps
app_close s id = elim (slot_of s id) [ none ↦ some s | some i ↦ close_slot s i ]

-- The loop of `app_manager_update` over the first `left` slots
unfoldable pub update_apps : Kernel → List App → ℕ → List App
update_apps k [] left = []
update_apps k (a ∷ rest) zero = a ∷ rest
update_apps k (a ∷ rest) (suc left) =
    (if not (a.active == 0) && not (process_exists k.process_table k.proc a.pid)
      then record a { active = 0 }
      else a)
    ∷ update_apps k rest left

unfoldable pub app_manager_update : Apps → Apps
app_manager_update s = record s { apps = update_apps s.kernel s.apps s.app_count }

unfoldable pub app_get_info : Apps → ℤ → Option App
app_get_info s id = elim (slot_of s id) [ none ↦ none | some i ↦ some (app_at s.apps i) ]
