-- ===== src/Apps/Tests.antt =====
-- Runs of the application manager, and its theorems on concrete slots.
use zenix.Prelude.{
  ℕ, ◌-◌, ◌≡◌, refl, ap, some, List, [], ◌∷◌, arith, replicate, get_or-replicate_same,
}
use zenix.Prelude.Int.{pos, negsuc}
use zenix.Heap.{HeapBlock, region_size, heap_init}
use zenix.Heap.Fit.{cell}
use zenix.Heap.Malloc.{heap_init-IsValid}
use zenix.Proc.{Kernel}
use zenix.Proc.Table.{zero_process}
use zenix.Apps.{
  App, Apps, max_apps, no_app, app_at, find_running, app_launch, slot_of, close_slot, app_close,
  process_exists, update_apps, app_manager_update,
}
use zenix.Apps.Launch.{Launch, app_launch_lem}
use zenix.Apps.Slots.{Op, launch, close, update, step, run, IsApps, run-IsApps, app_launch-never}

abbrev unwritten : ℕ → HeapBlock
unwritten p = record { size = 0; used = 0; next = 0 }

abbrev kernel : Kernel
kernel = record {
  heap = heap_init unwritten;
  proc = λ p. zero_process;
  process_table = replicate 64 0;
  next_pid = 1;
  current_process = 0;
  ready_queue_head = 0;
  ready_queue_tail = 0;
  ticks = 0;
  system_ticks = 0;
}

abbrev fresh : Apps
fresh = record { apps = replicate 16 no_app; app_count = 0; kernel = kernel }

app_launch_lem_example : Launch fresh (cell (region_size - 12) 0 ∷ []) 0 (app_launch 0x1000 fresh 0)
app_launch_lem_example =
    app_launch_lem fresh 0x1000 (cell (region_size - 12) 0 ∷ []) 0 (heap_init-IsValid unwritten)

-- One calculator, without a process in the table any more
abbrev one : Apps
one = record {
  apps = record { type = 0; pid = 5; active = 1 } ∷ no_app ∷ [];
  app_count = 1;
  kernel = kernel;
}

one-IsApps : IsApps 1 one
one-IsApps = record {
  count = omega arith;
  bound = omega arith;
  one_each = λ i j type hi hj ri rj. omega arith;
}

-- The text editor is refused, and the calculator closed.
abbrev closing : List Op
closing = launch 1 ∷ update ∷ close (pos 0) ∷ []

run-IsApps_example : IsApps 1 (record one {
  apps = record { type = 0; pid = 5; active = 0 } ∷ record { type = 1; pid = 0; active = 0 } ∷ [];
})
unfolding run step app_launch find_running app_manager_update update_apps process_exists app_close
    slot_of close_slot replicate
run-IsApps_example =
    run-IsApps 0x1000 closing one
      (record one {
        apps =
            record { type = 0; pid = 5; active = 0 }
            ∷ record { type = 1; pid = 0; active = 0 }
            ∷ [];
      })
      one-IsApps refl

abbrev used_up : Apps
used_up = record { apps = replicate 16 no_app; app_count = 16; kernel = kernel }

nothing_runs : (n i : ℕ) → (app_at (replicate n no_app) i).active ≡ 0
nothing_runs n i = ap (λ (a : App). a.active) (get_or-replicate_same n i no_app)

used_up-IsApps : IsApps max_apps used_up
used_up-IsApps = record {
  count = omega arith;
  bound = omega arith;
  one_each = λ i j type hi hj ri rj. absurd ((ri.0) (nothing_runs 16 i));
}

app_launch-never_example : app_launch 0x1000 used_up 0 ≡ some (negsuc 0, used_up)
unfolding run step app_close slot_of close_slot replicate
app_launch-never_example =
    app_launch-never 0x1000 (close (pos 3) ∷ []) used_up used_up 0 used_up-IsApps refl
