-- ===== src/Shell.antt =====
-- The shell, kernel/shell/shell.c: its line editor, the reading of a command, and the choice between the
-- commands. A text is the list of its bytes before the terminating 0. What the commands print is in
-- Shell.Commands.
pub mod Commands
pub mod Line
pub mod Split
pub mod Cat
mod Tests
use zenix.Prelude.{
  ℕ, zero, suc, ◌+◌, ◌-◌, ◌*◌, ◌/◌, ◌%◌, ◌^◌, ◌≤◌, ◌<◌, min, max, bit_and, bit_or, ◌≡◌, refl, sym,
  ap, subst, ◌∙◌, fun_ext, ◌≢◌, ◌↔◌, ◌⊎◌, inl, inr, Bool, true, false, not, ◌&&◌, ◌||◌, Option,
  none, some, List, [], ◌∷◌, ◌++◌, map, arith, ltb, leb, ◌==◌, if◌then◌else◌, ltb→lt, ltb→ge,
  lt→ltb, ==_iff, ==_refl, Bool-cases, Option-cases, length, get_elem?, get_or, set, take, drop,
  replicate, length-append, length-set, length-replicate, get_or-replicate, get_or-set_self,
  get_or-set_ne, length-take, take-append-drop, u8, u16, u32, sub32,
}
use zenix.Prelude.Codes.{codes, same_text}

-- The globals of shell.c
pub record Shell : Type 0 where
  pub input_buffer : List ℕ
  pub input_index : ℕ

abbrev pub newline : ℕ
newline = 10

abbrev pub backspace : ℕ
backspace = 8

abbrev pub space : ℕ
space = 32

unfoldable pub cleared : Shell
cleared = record { input_buffer = replicate 256 0; input_index = 0 }

-- The screen that `shell_init` clears is not part of this state.
unfoldable pub shell_init : Shell → Shell
shell_init s = cleared

-- What a key makes the shell do, besides the change of its line
pub data Effect : Type 0 where
  nothing : Effect
  prints : ℕ → Effect
  executes : List ℕ → Effect

-- The C string in a buffer: the bytes before the first 0.
unfoldable pub text_of : List ℕ → List ℕ
text_of [] = []
text_of (c ∷ cs) = if c == 0 then [] else c ∷ text_of cs

-- One round of the loop of `shell_run`, with the character that `keyboard_getchar` gave. On a new line it
-- also prints the new line before, and the prompt after, what it executes.
unfoldable pub shell_key : Shell → ℕ → Effect × Shell
shell_key s c =
    if c == 0
    then (nothing, s)
    else (if c == newline
        then (executes (text_of (set s.input_buffer s.input_index 0)), cleared)
        else (if c == backspace
            then (if ltb 0 s.input_index
                then (
                  prints backspace,
                  record {
                    input_buffer = set s.input_buffer (s.input_index - 1) 0;
                    input_index = s.input_index - 1;
                  },
                )
                else (nothing, s))
            else (if ltb s.input_index 255
                then (
                  prints c,
                  record {
                    input_buffer = set s.input_buffer s.input_index c;
                    input_index = s.input_index + 1;
                  },
                )
                else (nothing, s))))

-- The loop that fills `cmd`, up to `room` bytes before a space, and the rest of the line.
unfoldable pub take_word : ℕ → List ℕ → List ℕ × List ℕ
take_word zero line = ([], line)
take_word (suc room) [] = ([], [])
take_word (suc room) (c ∷ cs) =
    let rest = take_word room cs in if c == space then ([], c ∷ cs) else (c ∷ rest.0, rest.1)

-- `args`, from the place after `cmd`
unfoldable pub args_of : List ℕ → List ℕ
args_of [] = []
args_of (c ∷ cs) = if c == space then take 191 cs else []

unfoldable pub split_line : List ℕ → List ℕ × List ℕ
split_line line = let word = take_word 63 line in (word.0, args_of (word.1))

pub data Command : Type 0 where
  help : Command
  clear : Command
  uptime : Command
  meminfo : Command
  ps : Command
  spawn : Command
  ls : Command
  cat : List ℕ → Command
  echo : List ℕ → Command
  syscall : Command
  usermode : Command
  about : Command
  unknown : List ℕ → Command

-- The chain of comparisons of `shell_execute`
unfoldable pub choose : List ℕ → List ℕ → Command
choose cmd args =
    if same_text cmd (codes "help")
    then help
    else (if same_text cmd (codes "clear")
        then clear
        else (if same_text cmd (codes "uptime")
            then uptime
            else (if same_text cmd (codes "meminfo")
                then meminfo
                else (if same_text cmd (codes "ps")
                    then ps
                    else (if same_text cmd (codes "spawn")
                        then spawn
                        else (if same_text cmd (codes "ls")
                            then ls
                            else (if same_text cmd (codes "cat")
                                then cat args
                                else (if same_text cmd (codes "echo")
                                    then echo args
                                    else (if same_text cmd (codes "syscall")
                                        then syscall
                                        else (if same_text cmd (codes "usermode")
                                            then usermode
                                            else (if same_text cmd (codes "about")
                                                then about
                                                else unknown cmd)))))))))))

-- The command that `shell_execute` runs for a line; none for the empty line.
unfoldable pub shell_execute : List ℕ → Option Command
shell_execute [] = none
shell_execute (c ∷ cs) = let parts = split_line (c ∷ cs) in some (choose (parts.0) (parts.1))
