-- ===== src/Syscall/Table.antt =====
-- The table of the system calls after syscall_init and syscall_handlers_init.
use zenix.Prelude.{
  ℕ, zero, suc, ◌+◌, ◌≤◌, ◌<◌, ◌≡◌, refl, subst, ◌∙◌, ◌≢◌, inl, inr, true, Option, none, some, List,
  [], ◌∷◌, arith, ltb, ◌==◌, lt→ltb, ==_iff, Bool-cases, length, get_or, set, length-set,
  get_or-set_self, get_or-set_ne,
}
use zenix.Descriptors.{IdtEntry}
use zenix.Proc.{Kernel}
use zenix.Syscall.{
  Handler, max_syscalls, syscall_register, clear_table, syscall_init, sys_exit, sys_write, sys_read,
  sys_getpid, sys_sleep, syscall_handlers_init,
}

-- The table after one registration
registered :
    (table : List (Option Handler)) (num : ℕ) (h : Handler)
    → num < max_syscalls
    → length table ≡ 256
    → (length (syscall_register table num h) ≡ 256)
      × (get_or (syscall_register table num h) num none ≡ some h)
      × ((j : ℕ) → num ≢ j → get_or (syscall_register table num h) j none ≡ get_or table j none)
unfolding syscall_register
registered table num h less full =
    let e : ltb num max_syscalls ≡ true = lt→ltb num max_syscalls less in
    rw e (
      length-set table num (some h) ∙ full,
      get_or-set_self table num (some h) none (omega (arith, less, full)),
      λ j ne. get_or-set_ne table num j (some h) none ne,
    )

length-clear_table :
    (left i : ℕ) (table : List (Option Handler)) → length (clear_table left i table) ≡ length table
unfolding clear_table
length-clear_table zero i table = refl
length-clear_table (suc left) i table =
    length-clear_table left (i + 1) (set table i none) ∙ length-set table i none

none_kept :
    (table : List (Option Handler)) (i j : ℕ)
    → get_or table j none ≡ none
    → get_or (set table i none) j none ≡ none
none_kept [] i j e = e
none_kept (h ∷ t) zero zero e = refl
none_kept (h ∷ t) zero (suc j) e = e
none_kept (h ∷ t) (suc i) zero e = e
none_kept (h ∷ t) (suc i) (suc j) e = none_kept t i j e

clear_table-keeps :
    (left i j : ℕ) (table : List (Option Handler))
    → get_or table j none ≡ none
    → get_or (clear_table left i table) j none ≡ none
unfolding clear_table
clear_table-keeps zero i j table e = e
clear_table-keeps (suc left) i j table e =
    clear_table-keeps left (i + 1) j (set table i none) (none_kept table i j e)

none_put_here : (table : List (Option Handler)) (i : ℕ) → get_or (set table i none) i none ≡ none
none_put_here [] i = refl
none_put_here (h ∷ t) zero = refl
none_put_here (h ∷ t) (suc i) = none_put_here t i

clear_table-clears :
    (left i j : ℕ) (table : List (Option Handler))
    → i ≤ j
    → j < i + left
    → get_or (clear_table left i table) j none ≡ none
unfolding clear_table
clear_table-clears zero i j table ge lt = absurd (omega (arith, ge, lt))
clear_table-clears (suc left) i j table ge lt = elim (Bool-cases (i == j)) [
  | inl x ↦
      let here : get_or (set table i none) j none ≡ none =
        subst (λ n. get_or (set table i none) n none ≡ none) ((==_iff i j).0 x)
          (none_put_here table i) in
      clear_table-keeps left (i + 1) j (set table i none) here
  | inr x ↦
      clear_table-clears left (i + 1) j (set table i none) (ground (arith, x, ge))
        (omega (arith, lt))
]

-- The table once `syscall_init` and `syscall_handlers_init` have run
abbrev pub installed :
    (Kernel → Option Kernel) → ℕ → ℕ → List (Option Handler) → List IdtEntry → List (Option Handler)
installed hlt fuel entry table idt =
    syscall_handlers_init hlt fuel ((syscall_init entry table idt).0)

pub record Installed (hlt : Kernel → Option Kernel) (fuel : ℕ) (table : List (Option Handler))
    : Type 0 where
  pub at_exit : get_or table 0 none ≡ some sys_exit
  pub at_write : get_or table 1 none ≡ some sys_write
  pub at_read : get_or table 2 none ≡ some sys_read
  pub at_getpid : get_or table 3 none ≡ some sys_getpid
  pub at_sleep : get_or table 4 none ≡ some (sys_sleep hlt fuel)
  pub others : (j : ℕ) → 4 < j → j < max_syscalls → get_or table j none ≡ none

pub installed-Installed :
    (hlt : Kernel → Option Kernel) (fuel entry : ℕ) (table : List (Option Handler))
    (idt : List IdtEntry)
    → length table ≡ 256
    → Installed hlt fuel (installed hlt fuel entry table idt)
unfolding syscall_handlers_init syscall_init
installed-Installed hlt fuel entry table idt full =
    let t0 = clear_table 256 0 table in
    let t1 = syscall_register t0 0 sys_exit in
    let t2 = syscall_register t1 1 sys_write in
    let t3 = syscall_register t2 2 sys_read in
    let t4 = syscall_register t3 3 sys_getpid in
    let (n1, e1, k1) =
      registered t0 0 sys_exit (omega arith) (length-clear_table 256 0 table ∙ full) in
    let (n2, e2, k2) = registered t1 1 sys_write (omega arith) n1 in
    let (n3, e3, k3) = registered t2 2 sys_read (omega arith) n2 in
    let (n4, e4, k4) = registered t3 3 sys_getpid (omega arith) n3 in
    let (n5, e5, k5) = registered t4 4 (sys_sleep hlt fuel) (omega arith) n4 in
    record {
      at_exit =
          k5 0 (omega arith) ∙ k4 0 (omega arith) ∙ k3 0 (omega arith) ∙ k2 0 (omega arith) ∙ e1;
      at_write = k5 1 (omega arith) ∙ k4 1 (omega arith) ∙ k3 1 (omega arith) ∙ e2;
      at_read = k5 2 (omega arith) ∙ k4 2 (omega arith) ∙ e3;
      at_getpid = k5 3 (omega arith) ∙ e4;
      at_sleep = e5;
      others = λ j more less.
          k5 j (omega (arith, more))
          ∙ k4 j (omega (arith, more))
          ∙ k3 j (omega (arith, more))
          ∙ k2 j (omega (arith, more))
          ∙ k1 j (omega (arith, more))
          ∙ clear_table-clears 256 0 j table (omega arith) (omega (arith, less));
    }
