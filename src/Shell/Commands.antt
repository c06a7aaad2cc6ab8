-- ===== src/Shell/Commands.antt =====
-- What the commands of the shell print, and what they change.
use zenix.Prelude.{
  ℕ, zero, suc, ◌+◌, ◌/◌, ◌%◌, bit_and, Option, none, some, List, [], ◌∷◌, ◌++◌, ◌==◌,
  if◌then◌else◌, take, u32,
}
use zenix.Prelude.Codes.{codes}
use zenix.Heap.{Heap, heap_get_used, heap_get_free}
use zenix.Pmm.{Pmm, pmm_get_total_memory, pmm_get_used_memory, pmm_get_free_memory}
use zenix.Proc.{Kernel}
use zenix.Proc.Table.{process_create}
use zenix.Nodes.{DirectoryEntry, Node, fs_directory, fs_read, fs_readdir, fs_finddir}
use zenix.Shell.{
  Effect, nothing, prints, executes, shell_execute, Command, help, clear, uptime, meminfo, ps,
  spawn, ls, cat, echo, syscall, usermode, about, unknown,
}

-- What a command has done outside the shell, in order: `print_string`, `print_dec`, and the calls of
-- functions of other parts that print.
pub data Print : Type 0 where
  text : List ℕ → Print
  number : ℕ → Print
  clear_screen : Print
  process_list : Print
  syscall_test : Print
  usermode_test : Print

unfoldable pub shell_prompt : List Print
shell_prompt = text (codes "zenix> ") ∷ []

unfoldable pub shell_clear : List Print
shell_clear =
    clear_screen
    ∷ text (codes "Zenix OS Shell - Phase 10\n")
    ∷ text (codes "Type 'help' for available commands\n\n")
    ∷ []

unfoldable pub shell_help : List Print
shell_help =
    text (codes "Available commands:\n")
    ∷ text (codes "  help     - Show this help\n")
    ∷ text (codes "  clear    - Clear screen\n")
    ∷ text (codes "  uptime   - Show system uptime\n")
    ∷ text (codes "  meminfo  - Show memory information\n")
    ∷ text (codes "  ps       - List processes\n")
    ∷ text (codes "  spawn    - Spawn test processes\n")
    ∷ text (codes "  ls       - List files\n")
    ∷ text (codes "  cat      - Display file contents\n")
    ∷ text (codes "  syscall  - Test system calls\n")
    ∷ text (codes "  usermode - Test user mode\n")
    ∷ text (codes "  echo     - Echo text\n")
    ∷ text (codes "  about    - About Zenix OS\n")
    ∷ []

unfoldable pub shell_uptime : ℕ → List Print
shell_uptime ticks =
    let seconds = ticks / 100 in
    let minutes = seconds / 60 in
    let hours = minutes / 60 in
    text (codes "Uptime: ")
    ∷ number hours
    ∷ text (codes "h ")
    ∷ number (minutes % 60)
    ∷ text (codes "m ")
    ∷ number (seconds % 60)
    ∷ text (codes "s\n")
    ∷ []

unfoldable pub shell_meminfo : Pmm → Heap → List Print
shell_meminfo p h =
    text (codes "Physical Memory:\n")
    ∷ text (codes "  Total: ")
    ∷ number (pmm_get_total_memory p / 1024 / 1024)
    ∷ text (codes " MB\n")
    ∷ text (codes "  Used:  ")
    ∷ number (pmm_get_used_memory p / 1024 / 1024)
    ∷ text (codes " MB\n")
    ∷ text (codes "  Free:  ")
    ∷ number (pmm_get_free_memory p / 1024 / 1024)
    ∷ text (codes " MB\n\n")
    ∷ text (codes "Kernel Heap:\n")
    ∷ text (codes "  Used:  ")
    ∷ number (heap_get_used h / 1024)
    ∷ text (codes " KB\n")
    ∷ text (codes "  Free:  ")
    ∷ number (heap_get_free h / 1024)
    ∷ text (codes " KB\n")
    ∷ []

unfoldable pub shell_ps : List Print
shell_ps =
    text (codes "PID  Name              State    CPU Time\n")
    ∷ text (codes "---  ----------------  -------  --------\n")
    ∷ process_list
    ∷ []

-- The two processes are made at the addresses of test_process_a and test_process_b; `none` means that a
-- walk over the heap did not end.
unfoldable pub shell_spawn : ℕ → ℕ → Kernel → Option Kernel
shell_spawn test_process_a test_process_b k =
    elim (process_create k (codes "test_a") test_process_a) [
      | none ↦ none
      | some a ↦ elim (process_create (a.1) (codes "test_b") test_process_b) [
        | none ↦ none
        | some b ↦ some (b.1)
      ]
    ]

unfoldable pub shell_echo : List ℕ → List Print
shell_echo [] = text (codes "\n") ∷ []
shell_echo (c ∷ cs) = text (c ∷ cs) ∷ text (codes "\n") ∷ []

unfoldable pub shell_about : List Print
shell_about =
    text (codes "\nZenix OS - Phase 10\n")
    ∷ text (codes "====================\n")
    ∷ text (codes "A real operating system\n")
    ∷ text (codes "Features:\n")
    ∷ text (codes "  - Protected mode (x86)\n")
    ∷ text (codes "  - Memory management\n")
    ∷ text (codes "  - Multitasking\n")
    ∷ text (codes "  - System calls\n")
    ∷ text (codes "  - User mode (Ring 3)\n\n")
    ∷ []

unfoldable pub no_file_system : List Print
no_file_system = text (codes "Error: No filesystem mounted\n") ∷ []

-- The bytes of a buffer before its first 0, which `print_string` prints.
unfoldable pub printed : List ℕ → List ℕ
printed [] = []
printed (c ∷ cs) = if c == 0 then [] else c ∷ printed cs

abbrev pub put_before :
    {Disk : Type 0} → Print → Option (List Print × Disk) → Option (List Print × Disk)
put_before p none = none
put_before p (some (out, d)) = some (p ∷ out, d)

-- One round of the loop of `shell_cat`, with what was read and what the later rounds do.
abbrev pub cat_next :
    {Disk : Type 0} → (ℕ × List ℕ) × Disk → Option (List Print × Disk) → Option (List Print × Disk)
cat_next ((count, bytes), d) rest =
    if count == 0 then some ([], d) else put_before (text (printed (take count bytes))) rest

module _ {Disk : Type 0} (node_at : Disk → ℕ → Node Disk) where
  -- The line of an entry, whose node is looked up by its name
  unfoldable pub ls_line : DirectoryEntry → Option ℕ → Disk → List Print
  ls_line e none d = text (codes "  ") ∷ text e.name ∷ text (codes "\n") ∷ []
  ls_line e (some fsnode) d =
      if bit_and ((node_at d fsnode).flags) fs_directory == 0
      then text (codes "  ") ∷ text e.name ∷ text (codes "\n") ∷ []
      else text (codes "  ") ∷ text e.name ∷ text (codes "/") ∷ text (codes "\n") ∷ []

  -- One round of the loop of `shell_ls`, with the entry read and what the later rounds do.
  unfoldable pub ls_next :
      ℕ → Option DirectoryEntry × Disk → (Disk → List Print × Disk) → List Print × Disk
  ls_next root (none, d) rest = ([], d)
  ls_next root (some e, d) rest =
      let f = fs_finddir node_at root (e.name) d in
      let r = rest (f.1) in (ls_line e (f.0) (f.1) ++ r.0, r.1)

  -- The loop of `shell_ls` with the rounds left
  unfoldable pub ls_loop : ℕ → ℕ → ℕ → Disk → List Print × Disk
  ls_loop zero i root d = ([], d)
  ls_loop (suc rounds) i root d =
      ls_next root (fs_readdir node_at root i d) (λ d'. ls_loop rounds (i + 1) root d')

  unfoldable pub shell_ls : Option ℕ → Disk → List Print × Disk
  shell_ls none d = (no_file_system, d)
  shell_ls (some root) d =
      let listing = ls_loop 101 0 root d in
      (text (codes "Directory listing:\n") ∷ listing.0, listing.1)

  -- The loop of `shell_cat`; `none` means that the fuel ran out.
  unfoldable pub cat_loop : ℕ → ℕ → ℕ → Disk → Option (List Print × Disk)
  cat_loop zero fsnode offset d = none
  cat_loop (suc fuel) fsnode offset d =
      let r = fs_read node_at fsnode offset 256 d in
      cat_next r (cat_loop fuel fsnode (u32 (offset + (r.0).0)) (r.1))

  -- The file from its start, and a new line
  unfoldable pub cat_file : ℕ → Option ℕ → Disk → Option (List Print × Disk)
  cat_file fuel none d = some (text (codes "Error: File not found\n") ∷ [], d)
  cat_file fuel (some fsnode) d = elim (cat_loop fuel fsnode 0 d) [
    | none ↦ none
    | some r ↦ some (r.0 ++ (text (codes "\n") ∷ []), r.1)
  ]

  unfoldable pub shell_cat : ℕ → Option ℕ → List ℕ → Disk → Option (List Print × Disk)
  shell_cat fuel none filename d = some (no_file_system, d)
  shell_cat fuel (some root) [] d = some (text (codes "Usage: cat <filename>\n") ∷ [], d)
  shell_cat fuel (some root) (c ∷ cs) d =
      let found = fs_finddir node_at root (c ∷ cs) d in cat_file fuel (found.0) (found.1)

-- What the commands read and change: the processes with their heap, the frames, the ticks of the timer,
-- and the file system.
pub record World (Disk : Type 0) : Type 0 where
  pub kernel : Kernel
  pub pmm : Pmm
  pub ticks : ℕ
  pub fs_root : Option ℕ
  pub disk : Disk

-- Only prints
abbrev pub shows : {Disk : Type 0} → List Print → World Disk → Option (List Print × World Disk)
shows out w = some (out, w)

-- Prints that come with the file system they leave
abbrev pub on_disk :
    {Disk : Type 0} → Option (List Print × Disk) → World Disk → Option (List Print × World Disk)
on_disk none w = none
on_disk (some (out, d)) w = some (out, record w { disk = d })

abbrev pub spawned : {Disk : Type 0} → Option Kernel → World Disk → Option (List Print × World Disk)
spawned none w = none
spawned (some k) w =
    some (text (codes "Spawning test processes...\n") ∷ [], record w { kernel = k })

module _ {Disk : Type 0} (node_at : Disk → ℕ → Node Disk) (test_process_a test_process_b : ℕ) where
  -- The calls at the ends of the chain of `shell_execute`; the fuel is that of the loop of `shell_cat`.
  unfoldable pub run_command : ℕ → Command → World Disk → Option (List Print × World Disk)
  run_command fuel help w = shows shell_help w
  run_command fuel clear w = shows shell_clear w
  run_command fuel uptime w = shows (shell_uptime w.ticks) w
  run_command fuel meminfo w = shows (shell_meminfo w.pmm (w.kernel).heap) w
  run_command fuel ps w = shows shell_ps w
  run_command fuel spawn w = spawned (shell_spawn test_process_a test_process_b w.kernel) w
  run_command fuel ls w = on_disk (some (shell_ls node_at w.fs_root w.disk)) w
  run_command fuel (cat args) w = on_disk (shell_cat node_at fuel w.fs_root args w.disk) w
  run_command fuel (echo args) w = shows (shell_echo args) w
  run_command fuel syscall w = shows (syscall_test ∷ []) w
  run_command fuel usermode w = shows (usermode_test ∷ []) w
  run_command fuel about w = shows shell_about w
  run_command fuel (unknown cmd) w =
      shows (text (codes "Unknown command: ") ∷ text cmd ∷ text (codes "\n") ∷ []) w

  -- What an effect of a key does outside the shell; after a line comes the prompt.
  unfoldable pub perform : ℕ → Effect → World Disk → Option (List Print × World Disk)
  perform fuel nothing w = some ([], w)
  perform fuel (prints c) w = some (text (c ∷ []) ∷ [], w)
  perform fuel (executes line) w = elim (shell_execute line) [
    | none ↦ some (text (codes "\n") ∷ shell_prompt, w)
    | some command ↦ elim (run_command fuel command w) [
      | none ↦ none
      | some r ↦ some (text (codes "\n") ∷ (r.0 ++ shell_prompt), r.1)
    ]
  ]
