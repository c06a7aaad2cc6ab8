-- ===== src/Proc/Rounds.antt =====
-- `schedule` of scheduler.c: the processes of the ready queue take turns.
use zenix.Prelude.{
  ℕ, zero, suc, ◌≡◌, refl, sym, subst, ◌∙◌, ◌≢◌, true, false, Option, none, some, List, [], ◌∷◌,
  ◌++◌, arith, ◌==◌, if◌then◌else◌, ==_refl, get_elem?,
}
use zenix.Proc.{
  ProcessState, Kernel, store, set_state, is_running, dequeue_process, find_idle, requeue,
  switch_to, schedule,
}
use zenix.Proc.Queue.{
  first, member, Queue, Queue-same, Leaves, store-field, enqueue_process-Queue,
  dequeue_process-Queue,
}

-- The current process runs, and the processes `xs` wait for their turns in this order.
pub record Turn (k : Kernel) (xs : List ℕ) : Type 0 where
  pub real : k.current_process ≢ 0
  pub runs : is_running ((k.proc k.current_process).state) ≡ true
  pub queue : Queue k xs
  pub apart : member k.current_process xs ≡ false

requeue-Joins :
    (k : Kernel) (xs : List ℕ)
    → Turn k xs
    → (Queue (requeue k) (xs ++ (k.current_process ∷ [])))
      × ((requeue k).current_process ≡ k.current_process)
unfolding requeue
requeue-Joins k xs t =
    let c = k.current_process in
    let x = set_state ProcessState.ready (k.proc c) in
    let k1 = store k c x in
    let q1 = Queue-same k k1 xs refl refl (λ r. store-field (λ y. y.next) k c x r refl) t.queue in
    let j = enqueue_process-Queue k1 xs c q1 t.real t.apart in rw t.runs (j.queue, j.current)

-- The result of `schedule` when the process `x` is chosen and `xs` are left waiting.
pub record Chosen (c x : ℕ) (xs : List ℕ) (r : Kernel × Option (ℕ × ℕ)) : Type 0 where
  pub turn : Turn r.0 xs
  pub current : r.0.current_process ≡ x
  pub switched : r.1 ≡ (if c == x then none else some (c, x))

switch_to-Chosen :
    (k : Kernel) (x : ℕ) (xs : List ℕ)
    → x ≢ 0
    → Queue k xs
    → member x xs ≡ false
    → Chosen k.current_process x xs (switch_to k x)
unfolding switch_to
switch_to-Chosen k x xs nz q out =
    let z : (x == 0) ≡ false = ground (arith, nz) in
    let y = set_state ProcessState.running (k.proc x) in
    rw z (record {
      turn = record {
        real = nz;
        runs = rw (==_refl x) refl;
        queue = Queue-same k _ xs refl refl (λ r. store-field (λ w. w.next) k x y r refl) q;
        apart = out;
      };
      current = refl;
      switched = refl;
    })

-- The end of `schedule`, from what `dequeue_process` answers
pick : ℕ → ℕ × Kernel → Kernel × Option (ℕ × ℕ)
pick idle r = switch_to r.1 (if r.0 == 0 then idle else r.0)

pick-Chosen :
    (idle : ℕ) (k : Kernel) (y : ℕ) (ys : List ℕ) (r : ℕ × Kernel)
    → Leaves k (y ∷ ys) r
    → member y ys ≡ false
    → Chosen k.current_process y ys (pick idle r)
unfolding pick
pick-Chosen idle k y ys _ (first _ _ k' q nz same states) out =
    let z : (y == 0) ≡ false = ground (arith, nz) in
    rw z (subst (λ c. Chosen c y ys (switch_to k' y)) same (switch_to-Chosen k' y ys nz q out))

-- The process that is chosen, and those that wait then.
abbrev pub chosen : ℕ → List ℕ → ℕ
chosen c [] = c
chosen c (x ∷ xs) = x

abbrev pub left_waiting : ℕ → List ℕ → List ℕ
left_waiting c [] = []
left_waiting c (x ∷ xs) = xs ++ (c ∷ [])

-- If the current process is running and is not itself in the queue, `schedule` gives the turn to the process
-- that has waited longest and puts the current one at the end of the queue; if nobody waits, the current
-- one goes on and no context is switched.
pub schedule_lem :
    (k : Kernel) (xs : List ℕ)
    → Turn k xs
    → Chosen k.current_process
        (chosen k.current_process xs)
        (left_waiting k.current_process xs)
        (schedule k)
unfolding schedule pick
schedule_lem k [] t =
    let c = k.current_process in
    let z : (c == 0) ≡ false = ground (arith, t.real) in
    let (q, same) = requeue-Joins k [] t in
    let k1 = requeue k in
    rw z (
      subst (λ c'. Chosen c' c [] (pick (find_idle k1 k1.process_table) (dequeue_process k1))) same
        (pick-Chosen (find_idle k1 k1.process_table) k1 c [] _ (dequeue_process-Queue k1 _ q)
          q.distinct.0))
schedule_lem k (x ∷ xs) t =
    let c = k.current_process in
    let z : (c == 0) ≡ false = ground (arith, t.real) in
    let (q, same) = requeue-Joins k (x ∷ xs) t in
    let k1 = requeue k in
    rw z (
      subst
        (λ c'.
          Chosen c' x (xs ++ (c ∷ [])) (pick (find_idle k1 k1.process_table) (dequeue_process k1)))
        same
        (pick-Chosen (find_idle k1 k1.process_table) k1 x (xs ++ (c ∷ [])) _
          (dequeue_process-Queue k1 _ q) q.distinct.0))

-- `n` calls of `schedule`
unfoldable pub rounds : ℕ → Kernel → Kernel
rounds zero k = k
rounds (suc n) k = rounds n ((schedule k).0)

get_elem?-append :
    (xs ys : List ℕ) (i p : ℕ) → get_elem? xs i ≡ some p → get_elem? (xs ++ ys) i ≡ some p
get_elem?-append [] ys i p e = absurd (cc e)
get_elem?-append (x ∷ xs) ys zero p e = e
get_elem?-append (x ∷ xs) ys (suc i) p e = get_elem?-append xs ys i p e

chosen-first :
    (c : ℕ) (xs : List ℕ) (p : ℕ) → get_elem? (xs ++ (c ∷ [])) 0 ≡ some p → chosen c xs ≡ p
chosen-first c [] p e = cc e
chosen-first c (x ∷ xs) p e = cc e

get_elem?-rotate :
    (c : ℕ) (xs : List ℕ) (i p : ℕ)
    → get_elem? (xs ++ (c ∷ [])) (suc i) ≡ some p
    → get_elem? (left_waiting c xs ++ (chosen c xs ∷ [])) i ≡ some p
get_elem?-rotate c [] i p e = absurd (cc e)
get_elem?-rotate c (x ∷ xs) i p e = get_elem?-append _ _ i p e

-- If the current process is running and is not itself in the queue, the processes take turns: the one at
-- place `i` of the queue, behind which the current one stands, is current after `i + 1` calls of `schedule`.
pub round_robin :
    (i : ℕ) (k : Kernel) (xs : List ℕ) (p : ℕ)
    → Turn k xs
    → get_elem? (xs ++ (k.current_process ∷ [])) i ≡ some p
    → (rounds (suc i) k).current_process ≡ p
unfolding rounds
round_robin zero k xs p t e = (schedule_lem k xs t).current ∙ chosen-first k.current_process xs p e
round_robin (suc i) k xs p t e =
    let s = schedule_lem k xs t in
    round_robin i ((schedule k).0) (left_waiting k.current_process xs) p s.turn (
      subst (λ c. get_elem? (left_waiting k.current_process xs ++ (c ∷ [])) i ≡ some p)
        (sym s.current) (get_elem?-rotate k.current_process xs i p e))
