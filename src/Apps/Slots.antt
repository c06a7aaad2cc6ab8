-- ===== src/Apps/Slots.antt =====
-- The slots of the application manager over any sequence of its operations: no type runs twice, and a slot that
-- was taken once is never free again.
use zenix.Prelude.{
  ℕ, zero, suc, ◌+◌, ◌≤◌, ◌<◌, ◌≡◌, refl, sym, subst, ◌≢◌, inl, inr, true, false, Option, none,
  some, List, [], ◌∷◌, arith, leb, ◌==◌, ==_iff, Bool-cases, Option-cases, set, get_or-set_ne,
}
use zenix.Prelude.Codes.{codes}
use zenix.Apps.Launch.{Runs, Running, nowhere, at_slot, find_running-Running}
use zenix.Prelude.Int.{ℤ, negsuc}
use zenix.Proc.{Kernel}
use zenix.Proc.Table.{process_create}
use zenix.Apps.{
  App, Apps, max_apps, app_calculator, no_app, app_at, find_running, launch_calculator, app_launch,
  slot_of, end_process, close_slot, app_close, update_apps, app_manager_update,
}

-- An operation of the manager, or another part that changes the processes
pub data Op : Type 0 where
  launch : ℕ → Op
  close : ℤ → Op
  update : Op
  others : Kernel → Op

unfoldable pub step : ℕ → Op → Apps → Option Apps
step entry (launch type) s = elim (app_launch entry s type) [ none ↦ none | some r ↦ some (r.1) ]
step entry (close id) s = app_close s id
step entry update s = some (app_manager_update s)
step entry (others k) s = some (record s { kernel = k })

-- Each operation in turn; `none` if a walk over the heap does not end.
unfoldable pub run : ℕ → List Op → Apps → Option Apps
run entry [] s = some s
run entry (op ∷ ops) s = elim (step entry op s) [ none ↦ none | some s' ↦ run entry ops s' ]

-- No two of the first `n` slots run the same type.
abbrev pub OneEach : List App → ℕ → Type 0
OneEach apps n = (i j type : ℕ) → i < n → j < n → Runs apps i type → Runs apps j type → i ≡ j

set-Runs :
    (apps : List App) (n i type : ℕ) (a : App)
    → i ≢ n
    → Runs (set apps n a) i type
    → Runs apps i type
set-Runs apps n i type a ne r =
    let e : app_at (set apps n a) i ≡ app_at apps i =
      get_or-set_ne apps n i a no_app (λ q. ne (sym q)) in
    subst (λ (x : App). (x.active ≢ 0) × (x.type ≡ type)) e r

-- A change of a slot behind the first `n`
set_behind-OneEach : (apps : List App) (n : ℕ) (a : App) → OneEach apps n → OneEach (set apps n a) n
set_behind-OneEach apps n a one i j type hi hj ri rj =
    one i j type hi hj (set-Runs apps n i type a (λ q. absurd (omega (arith, q, hi))) ri)
      (set-Runs apps n j type a (λ q. absurd (omega (arith, q, hj))) rj)

-- The type of the slot that runs, in the slot that was set
set-type : (apps : List App) (n type : ℕ) (a : App) → Runs (set apps n a) n type → a.type ≡ type
set-type [] n type a r = absurd ((r.0) refl)
set-type (x ∷ xs) zero type a r = r.1
set-type (x ∷ xs) (suc n) type a r = set-type xs n type a r

-- One slot more, with a type that none of the first `n` runs
set_new-OneEach :
    (apps : List App) (n : ℕ) (a : App)
    → OneEach apps n
    → ((i : ℕ) → i < n → ¬ (Runs apps i a.type))
    → OneEach (set apps n a) (n + 1)
set_new-OneEach apps n a one fresh i j type hi hj ri rj = elim (Bool-cases (i == n)) [
  | inl x ↦ elim (Bool-cases (j == n)) [
    | inl y ↦ ground (arith, x, y)
    | inr y ↦
        let same : a.type ≡ type =
          set-type apps n type a (subst (λ k. Runs (set apps n a) k type) ((==_iff i n).0 x) ri) in
        absurd (
          fresh j (ground (arith, hj, y)) (
            subst (Runs apps j) (sym same)
              (set-Runs apps n j type a (λ q. ground (arith, y, q)) rj)))
  ]
  | inr x ↦ elim (Bool-cases (j == n)) [
    | inl y ↦
        let same : a.type ≡ type =
          set-type apps n type a (subst (λ k. Runs (set apps n a) k type) ((==_iff j n).0 y) rj) in
        absurd (
          fresh i (ground (arith, hi, x)) (
            subst (Runs apps i) (sym same)
              (set-Runs apps n i type a (λ q. ground (arith, x, q)) ri)))
    | inr y ↦
        one i j type (ground (arith, hi, x)) (ground (arith, hj, y))
          (set-Runs apps n i type a (λ q. ground (arith, x, q)) ri)
          (set-Runs apps n j type a (λ q. ground (arith, y, q)) rj)
  ]
]

-- A slot that is no longer active
set-inactive :
    (apps : List App) (n i type : ℕ) (a : App)
    → a.active ≡ 0
    → Runs (set apps n a) i type
    → Runs apps i type
set-inactive [] n i type a z r = r
set-inactive (x ∷ xs) zero zero type a z r = absurd ((r.0) z)
set-inactive (x ∷ xs) zero (suc i) type a z r = r
set-inactive (x ∷ xs) (suc n) zero type a z r = r
set-inactive (x ∷ xs) (suc n) (suc i) type a z r = set-inactive xs n i type a z r

update_apps-Runs :
    (apps : List App) (left i type : ℕ) (k : Kernel)
    → Runs (update_apps k apps left) i type
    → Runs apps i type
unfolding update_apps
update_apps-Runs [] left i type k r = r
update_apps-Runs (a ∷ rest) zero i type k r = r
update_apps-Runs (a ∷ rest) (suc left) zero type k r = (ground (arith, r.0), ground (arith, r.1))
update_apps-Runs (a ∷ rest) (suc left) (suc i) type k r = update_apps-Runs rest left i type k r

-- The slots are used as far as the count says, which never goes back from `n`.
pub record IsApps (n : ℕ) (s : Apps) : Type 0 where
  pub count : n ≤ s.app_count
  pub bound : s.app_count ≤ max_apps
  pub one_each : OneEach s.apps s.app_count

abbrev If : ℕ → Option Apps → Type 0
If n none = Unit {0}
If n (some s) = IsApps n s

launch_calculator-IsApps :
    (n : ℕ) (s : Apps) (r : ℕ × Kernel)
    → IsApps n s
    → s.app_count < max_apps
    → ((i : ℕ) → i < s.app_count → ¬ (Runs s.apps i app_calculator))
    → IsApps n ((launch_calculator s r).1)
unfolding launch_calculator
launch_calculator-IsApps n s (p, k) w lt fresh = elim (Bool-cases (p == 0)) [
  | inl e ↦ rw e (record {
    count = w.count;
    bound = w.bound;
    one_each = set_behind-OneEach s.apps s.app_count _ w.one_each;
  })
  | inr e ↦ rw e (record {
    count = omega (arith, w.count);
    bound = omega (arith, lt);
    one_each = set_new-OneEach s.apps s.app_count _ w.one_each fresh;
  })
]

chosen-IsApps :
    (n entry : ℕ) (s : Apps) (type : ℕ) (r : Option ℕ)
    → IsApps n s
    → s.app_count < max_apps
    → Running s.apps s.app_count type r
    → find_running s.apps s.app_count type ≡ r
    → If n (elim (app_launch entry s type) [ none ↦ none | some q ↦ some (q.1) ])
unfolding app_launch
chosen-IsApps n entry s type _ w lt (at_slot i h r) e =
    let room : leb max_apps s.app_count ≡ false = ground (arith, lt) in
    rw (room, app_launch) (rw e w)
chosen-IsApps n entry s type _ w lt (nowhere fresh) e =
    let room : leb max_apps s.app_count ≡ false = ground (arith, lt) in
    elim (Bool-cases (type == app_calculator)) [
      | inr c ↦
          rw (room, app_launch)
            (rw e (
              rw c (record {
                count = w.count;
                bound = w.bound;
                one_each = set_behind-OneEach s.apps s.app_count _ w.one_each;
              })))
      | inl c ↦ elim (Option-cases (process_create s.kernel (codes "calculator") entry)) [
        | inl d ↦ rw (room, app_launch) (rw e (rw c (rw d tt)))
        | inr (r, d) ↦
            rw (room, app_launch)
              (rw e (
                rw c (
                  rw d (
                    launch_calculator-IsApps n s r w lt (
                      subst (λ t. (i : ℕ) → i < s.app_count → ¬ (Runs s.apps i t))
                        ((==_iff _ _).0 c) fresh)))))
      ]
    ]

app_launch-IsApps :
    (n entry : ℕ) (s : Apps) (type : ℕ)
    → IsApps n s
    → If n (elim (app_launch entry s type) [ none ↦ none | some q ↦ some (q.1) ])
unfolding app_launch
app_launch-IsApps n entry s type w = elim (Bool-cases (leb max_apps s.app_count)) [
  | inl full ↦ rw (full, app_launch) w
  | inr room ↦
      chosen-IsApps n entry s type _ w (ground (arith, room))
        (find_running-Running s.apps s.app_count type) refl
]

close_slot-IsApps : (n i : ℕ) (s : Apps) → IsApps n s → If n (close_slot s i)
unfolding close_slot
close_slot-IsApps n i s w = elim (Bool-cases ((app_at s.apps i).active == 0)) [
  | inl a ↦ rw (a, close_slot) w
  | inr a ↦ elim (Option-cases (end_process s.kernel ((app_at s.apps i).pid))) [
    | inl b ↦ rw (a, close_slot) (rw b tt)
    | inr (k, b) ↦
        rw (a, close_slot)
          (rw b (record {
            count = w.count;
            bound = w.bound;
            one_each = λ x y type hx hy rx ry.
                w.one_each x y type hx hy (set-inactive s.apps i x type _ refl rx)
                  (set-inactive s.apps i y type _ refl ry);
          }))
  ]
]

app_close-IsApps : (n : ℕ) (s : Apps) (id : ℤ) → IsApps n s → If n (app_close s id)
unfolding app_close
app_close-IsApps n s id w = elim (Option-cases (slot_of s id)) [
  | inl a ↦ rw (a, app_close) w
  | inr (i, a) ↦ rw (a, app_close) (close_slot-IsApps n i s w)
]

step-IsApps : (n entry : ℕ) (op : Op) (s : Apps) → IsApps n s → If n (step entry op s)
unfolding step app_manager_update
step-IsApps n entry (launch type) s w = app_launch-IsApps n entry s type w
step-IsApps n entry (close id) s w = app_close-IsApps n s id w
step-IsApps n entry update s w = record {
  count = w.count;
  bound = w.bound;
  one_each = λ x y type hx hy rx ry.
      w.one_each x y type hx hy (update_apps-Runs s.apps s.app_count x type s.kernel rx)
        (update_apps-Runs s.apps s.app_count y type s.kernel ry);
}
step-IsApps n entry (others k) s w = record {
  count = w.count;
  bound = w.bound;
  one_each = w.one_each;
}

-- The rest of a run, after a step
run-If : (n entry : ℕ) (ops : List Op) (s : Apps) → IsApps n s → If n (run entry ops s)
unfolding run
run-If n entry [] s w = w
run-If n entry (op ∷ ops) s w =
    let one = step-IsApps n entry op s w in
    elim (Option-cases (step entry op s)) [
      | inl e ↦ rw (e, run) tt
      | inr (s', e) ↦ rw (e, run) (run-If n entry ops s' (subst (If n) e one))
    ]

If-some : (n : ℕ) (r : Option Apps) (s : Apps) → If n r → r ≡ some s → IsApps n s
If-some n r s w e = subst (If n) e w

-- Whatever is launched, closed and updated, and whatever the other parts do to the processes meanwhile: at most
-- one slot runs an application of each type, at most 16 slots are used, and the count of used slots never
-- goes back, also not when applications are closed.
pub run-IsApps :
    (entry : ℕ) (ops : List Op) (s s' : Apps)
    → IsApps s.app_count s
    → run entry ops s ≡ some s'
    → IsApps s.app_count s'
run-IsApps entry ops s s' w e =
    If-some s.app_count (run entry ops s) s' (run-If s.app_count entry ops s w) e

-- Once 16 slots have been taken, no sequence of operations, closing every application included, makes
-- `app_launch` do anything but return -1 again.
pub app_launch-never :
    (entry : ℕ) (ops : List Op) (s s' : Apps) (type : ℕ)
    → IsApps max_apps s
    → run entry ops s ≡ some s'
    → app_launch entry s' type ≡ some (negsuc 0, s')
unfolding app_launch
app_launch-never entry ops s s' type w e =
    let w' = If-some max_apps (run entry ops s) s' (run-If max_apps entry ops s w) e in
    let full : leb max_apps s'.app_count ≡ true = ground (arith, w'.count) in
    rw (full, app_launch) refl
