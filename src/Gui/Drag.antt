-- ===== src/Gui/Drag.antt =====
-- Where a window that is dragged can go.
use zenix.Prelude.{ℕ, ◌+◌, ◌-◌, leb, if◌then◌else◌}
use zenix.Prelude.Int.{ℤ, pos, negsuc}
use zenix.Gui.{Gui}

-- The place on one axis of the screen that a window of the size `own` keeps
abbrev pub kept : ℕ → ℕ → ℕ → ℤ → ℤ
kept bound limit own (pos n) = if leb (n + own) bound then pos n else pos (limit - own)
kept bound limit own (negsuc n) = if leb own bound then pos 0 else pos (limit - own)
