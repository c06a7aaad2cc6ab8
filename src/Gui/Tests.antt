-- ===== src/Gui/Tests.antt =====
-- Runs of the windows, and their theorems on two windows that overlap.
use zenix.Prelude.{ℕ, zero, suc, ◌<◌, ◌≡◌, refl, none, some, [], ◌∷◌, arith, replicate}
use zenix.Prelude.Int.{pos, to_uint, to_int}
use zenix.Heap.{HeapBlock, heap_init}
use zenix.Proc.{Kernel}
use zenix.Proc.Table.{zero_process}
use zenix.Apps.{no_app}
use zenix.Gui.{
  Gui, no_window, window_at, gui_create_window, gui_close_window, on_close_button, on_title_bar,
  deactivate, grab, click_windows, scale, keep_x, keep_y, move, gui_handle_mouse_drag,
}
use zenix.Gui.Areas.{IsPlaced}
use zenix.Gui.Click.{Click, click_windows_lem}

abbrev unwritten : ℕ → HeapBlock
unwritten p = record { size = 0; used = 0; next = 0 }

abbrev kernel : Kernel
kernel = record {
  heap = heap_init unwritten;
  proc = λ p. zero_process;
  process_table = replicate 64 0;
  next_pid = 1;
  current_process = 0;
  ready_queue_head = 0;
  ready_queue_tail = 0;
  ticks = 0;
  system_ticks = 0;
}

abbrev empty_desk : Gui
empty_desk = record {
  windows = replicate 16 no_window;
  window_count = 0;
  dragging_window = none;
  drag_offset_x = pos 0;
  drag_offset_y = pos 0;
  last_buttons = 0;
  apps = record { apps = replicate 16 no_app; app_count = 0; kernel = kernel };
}

-- The second window lies on the first.
abbrev desk : Gui
desk =
    (gui_create_window 60 40 100 80 [] 0x3F
      ((gui_create_window 50 30 100 80 [] 0x3F empty_desk).1)).1

-- The title bar of the second window, which covers that of the first
takes_second : (click_windows 2 desk (pos 70) (pos 45)).dragging_window ≡ some 1
unfolding gui_create_window click_windows on_close_button on_title_bar gui_close_window grab
    deactivate to_int replicate
takes_second = refl

click_windows_lem_example : Click desk (pos 70) (pos 45) 2 (click_windows 2 desk (pos 70) (pos 45))
unfolding gui_create_window replicate
click_windows_lem_example =
    click_windows_lem 2 desk (pos 70) (pos 45) (omega arith) (omega arith) desk-IsPlaced
  where
    desk-IsPlaced : (j : ℕ) → j < 2 → IsPlaced (window_at desk j)
    desk-IsPlaced zero h = (omega arith, omega arith, omega arith)
    desk-IsPlaced (suc zero) h = (omega arith, omega arith, omega arith)
    desk-IsPlaced (suc (suc j)) h = absurd (omega (arith, h))

-- The second window is held, and the mouse is at the lower edge of a screen of 320 by 200.
abbrev held : Gui
held = record empty_desk {
  windows = record no_window { x = 60; y = 40; width = 100; height = 80; visible = 1 } ∷ [];
  window_count = 1;
  dragging_window = some 0;
  drag_offset_x = pos 10;
  drag_offset_y = pos 5;
}

-- It ends at 274, and the screen at 200.
below_screen : (window_at (gui_handle_mouse_drag 320 200 0 600 479 held) 0).y ≡ 194
unfolding gui_handle_mouse_drag move keep_x keep_y scale to_uint to_int replicate
below_screen = refl
