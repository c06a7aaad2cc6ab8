-- ===== src/Shell/Tests.antt =====
-- Runs of the shell, and its theorems on concrete lines and a file.
use zenix.Prelude.{
  ℕ, ◌-◌, min, ◌≡◌, refl, none, some, List, [], ◌∷◌, ◌++◌, arith, length, take, drop,
}
use zenix.Prelude.Codes.{codes}
use zenix.Nodes.{Node, fs_read}
use zenix.Shell.{
  Shell, backspace, space, shell_init, take_word, args_of, split_line, choose, shell_execute, echo,
  ls,
}
use zenix.Shell.Commands.{Print, cat_file}
use zenix.Shell.Line.{effects, edits, shell_init-edits}
use zenix.Shell.Split.{shell_execute_lem}
use zenix.Shell.Cat.{bytes_of, Gives, cat_file-whole}

echo_hi : shell_execute (codes "echo hi there") ≡ some (echo (codes "hi there"))
unfolding shell_execute split_line take_word args_of choose
echo_hi = refl

-- A space at the end of a command is no argument, and a space before it makes the empty command.
ls_space : (shell_execute (codes "ls ") ≡ some ls) × (split_line (codes " ls") ≡ ([], codes "ls"))
unfolding shell_execute split_line take_word args_of choose
ls_space = (refl, refl)

abbrev scratch : Shell
scratch = record { input_buffer = []; input_index = 7 }

-- "lx", a backspace, "s", and a new line
shell_init-edits_example :
    effects (shell_init scratch) (codes "lx" ++ backspace ∷ codes "s\n")
    ≡ edits [] (codes "lx" ++ backspace ∷ codes "s\n")
shell_init-edits_example = shell_init-edits scratch (codes "lx" ++ backspace ∷ codes "s\n")

shell_execute_lem_example :
    (shell_execute (codes "cat" ++ space ∷ codes "a.txt")
      ≡ some (choose (codes "cat") (codes "a.txt")))
    × (shell_execute (codes "cat") ≡ some (choose (codes "cat") []))
shell_execute_lem_example =
    shell_execute_lem b'c' (codes "at") (codes "a.txt") (refl, (refl, (refl, tt))) (omega arith)
      (omega arith)

-- One file
abbrev readme : List ℕ
readme = codes "Zenix"

abbrev node_at : ℕ → ℕ → Node ℕ
node_at d node = record {
  name = codes "readme";
  flags = 1;
  inode = 0;
  length = 5;
  read = some (λ d' n offset size.
      ((min size (length readme - offset), take size (drop offset readme)), d'));
  write = none;
  open_type = none;
  close_type = none;
  readdir = none;
  finddir = none;
}

readme-Gives : Gives node_at 0 1 readme
unfolding fs_read
readme-Gives offset h = refl

cat_file-whole_example :
    (out : List Print) × (cat_file node_at 6 (some 1) 0 ≡ some (out, 0))
    × (bytes_of out ≡ readme ++ codes "\n")
cat_file-whole_example =
    cat_file-whole node_at 6 1 0 readme readme-Gives (refl, (refl, (refl, (refl, (refl, tt)))))
      (omega arith) (omega arith)
