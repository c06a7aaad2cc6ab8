-- ===== src/Proc/Queue.antt =====
-- The ready queue of scheduler.c, against the list of the processes that wait in it.
use zenix.Prelude.{
  ℕ, ◌≡◌, refl, sym, ap, subst, ◌∙◌, ◌≢◌, inl, inr, Bool, true, false, ◌||◌, List, [], ◌∷◌, ◌++◌,
  arith, ◌==◌, if◌then◌else◌, ==_iff, ==_refl, Bool-cases,
}
use zenix.Proc.{Process, Kernel, store, set_next, enqueue_process, dequeue_process}

unfoldable pub member : ℕ → List ℕ → Bool
member p [] = false
member p (x ∷ xs) = x == p || member p xs

abbrev pub Distinct : List ℕ → Type 0
Distinct [] = Unit {0}
Distinct (x ∷ xs) = (member x xs ≡ false) × Distinct xs

abbrev pub last_or : ℕ → List ℕ → ℕ
last_or d [] = d
last_or d (x ∷ xs) = last_or x xs

-- From `h`, the links run through the processes `xs` and end at the null pointer.
abbrev pub Links : (ℕ → ℕ) → ℕ → List ℕ → Type 0
Links nx h [] = h ≡ 0
Links nx h (x ∷ xs) = (h ≡ x) × (x ≢ 0) × Links nx (nx x) xs

-- The queue holds the processes `xs`, in this order.
pub record Queue (k : Kernel) (xs : List ℕ) : Type 0 where
  pub links : Links (λ p. (k.proc p).next) k.ready_queue_head xs
  pub tail : k.ready_queue_tail ≡ last_or 0 xs
  pub distinct : Distinct xs

Links-same :
    (nx nx' : ℕ → ℕ) (h : ℕ) (xs : List ℕ)
    → ((q : ℕ) → member q xs ≡ true → nx' q ≡ nx q)
    → Links nx h xs
    → Links nx' h xs
unfolding member
Links-same nx nx' h [] same l = l
Links-same nx nx' h (x ∷ xs) same (e, nz, l) = (
  e,
  nz,
  Links-same nx nx' (nx' x) xs (λ q m. same q (ground (arith, m)))
      (subst (λ h. Links nx h xs) (sym (same x (ground arith))) l),
)

member-last : (x : ℕ) (xs : List ℕ) → member (last_or x xs) (x ∷ xs) ≡ true
unfolding member
member-last x [] = ground arith
member-last x (y ∷ ys) = ground (arith, member-last y ys)

Links-snoc :
    (nx nx' : ℕ → ℕ) (h p x : ℕ) (xs : List ℕ)
    → Links nx h (x ∷ xs)
    → Distinct (x ∷ xs)
    → p ≢ 0
    → ((q : ℕ) → member q (x ∷ xs) ≡ true → nx' q ≡ (if last_or x xs == q then p else nx q))
    → nx' p ≡ 0
    → Links nx' h (x ∷ xs ++ (p ∷ []))
unfolding member
Links-snoc nx nx' h p x [] (e, nz, l) d pz step end =
    (e, nz, (step x (ground arith) ∙ ground arith, pz, end))
Links-snoc nx nx' h p x (y ∷ ys) (e, nz, l) (new, d) pz step end =
    let other : (last_or y ys == x) ≡ false = ground (arith, member-last y ys, new) in
    let here : nx' x ≡ nx x = step x (ground arith) ∙ rw other refl in
    (
      e,
      nz,
      subst (λ h. Links nx' h (y ∷ ys ++ (p ∷ []))) (sym here)
          (Links-snoc nx nx' (nx x) p y ys l d pz (λ q m. step q (ground (arith, m))) end),
    )

member-snoc :
    (q p : ℕ) (xs : List ℕ)
    → member q xs ≡ false
    → (p == q) ≡ false
    → member q (xs ++ (p ∷ [])) ≡ false
unfolding member
member-snoc q p [] m e = ground (arith, e)
member-snoc q p (x ∷ xs) m e = ground (arith, m, e, member-snoc q p xs)

Distinct-snoc :
    (p : ℕ) (xs : List ℕ) → member p xs ≡ false → Distinct xs → Distinct (xs ++ (p ∷ []))
unfolding member
Distinct-snoc p [] m d = (refl, tt)
Distinct-snoc p (x ∷ xs) m (new, d) =
    (member-snoc x p xs new (ground (arith, m)), Distinct-snoc p xs (ground (arith, m)) d)

last-snoc : (d p : ℕ) (xs : List ℕ) → last_or d (xs ++ (p ∷ [])) ≡ p
last-snoc d p [] = refl
last-snoc d p (x ∷ xs) = last-snoc x p xs

-- A change of the kernel that touches no link and neither end keeps the queue.
pub Queue-same :
    (k k' : Kernel) (xs : List ℕ)
    → k'.ready_queue_head ≡ k.ready_queue_head
    → k'.ready_queue_tail ≡ k.ready_queue_tail
    → ((q : ℕ) → (k'.proc q).next ≡ (k.proc q).next)
    → Queue k xs
    → Queue k' xs
Queue-same k k' xs head tail same q = record {
  links =
      subst (λ h. Links (λ p. (k'.proc p).next) h xs) (sym head)
        (Links-same _ _ _ xs (λ p m. same p) q.links);
  tail = tail ∙ q.tail;
  distinct = q.distinct;
}

pub store-field {ℓ} :
    {A : Type ℓ} (field : Process → A) (k : Kernel) (p : ℕ) (x : Process) (q : ℕ)
    → field x ≡ field (k.proc p)
    → field ((store k p x).proc q) ≡ field (k.proc q)
store-field field k p x q e = elim (Bool-cases (p == q)) [
  | inl h ↦ rw h (e ∙ ap (λ p. field (k.proc p)) ((==_iff _ _).0 h))
  | inr h ↦ rw h refl
]

store-next :
    (k : Kernel) (p v q : ℕ)
    → ((store k p (set_next v (k.proc p))).proc q).next ≡ (if p == q then v else (k.proc q).next)
store-next k p v q = elim (Bool-cases (p == q)) [ inl h ↦ rw h refl | inr h ↦ rw h refl ]

pub member-apart :
    (p r : ℕ) (xs : List ℕ) → member p xs ≡ false → member r xs ≡ true → (p == r) ≡ false
unfolding member
member-apart p r [] out m = ground (arith, m)
member-apart p r (x ∷ xs) out m = elim (Bool-cases (x == r)) [
  | inl here ↦ ground (arith, out, here)
  | inr there ↦ member-apart p r xs (ground (arith, out)) (ground (arith, m, there))
]

-- What joining the queue makes of a kernel.
pub record Joins (k : Kernel) (xs : List ℕ) (p : ℕ) (k' : Kernel) : Type 0 where
  pub queue : Queue k' (xs ++ (p ∷ []))
  pub current : k'.current_process ≡ k.current_process
  pub states : (q : ℕ) → (k'.proc q).state ≡ (k.proc q).state

-- A process, not null, that does not wait in the queue joins it at the end; nobody's state changes, and the
-- current process stays.
pub enqueue_process-Queue :
    (k : Kernel) (xs : List ℕ) (p : ℕ)
    → Queue k xs
    → p ≢ 0
    → member p xs ≡ false
    → Joins k xs p (enqueue_process k p)
unfolding enqueue_process member
enqueue_process-Queue k [] p q pz new =
    let here : (p == 0) ≡ false = ground (arith, pz) in
    let empty : (k.ready_queue_head == 0) ≡ true = ground (arith, q.links) in
    let end = store-next k p 0 p ∙ ground arith in
    rw here (
      rw empty (record {
        queue = record { links = (refl, pz, end); tail = refl; distinct = (refl, tt) };
        current = refl;
        states = λ r. store-field (λ x. x.state) k p (set_next 0 (k.proc p)) r refl;
      }))
enqueue_process-Queue k (x ∷ xs) p q pz new =
    let here : (p == 0) ≡ false = ground (arith, pz) in
    let busy : (k.ready_queue_head == 0) ≡ false = ground (arith, q.links.0, q.links.1) in
    let k1 = store k p (set_next 0 (k.proc p)) in
    let t = k.ready_queue_tail in
    let k2 = store k1 t (set_next p (k1.proc t)) in
    let apart : (r : ℕ) → member r (x ∷ xs) ≡ true → (p == r) ≡ false =
      λ r m. member-apart p r (x ∷ xs) new m in
    let step : (r : ℕ)
        → member r (x ∷ xs) ≡ true
        → (k2.proc r).next ≡ (if last_or x xs == r then p else (k.proc r).next) =
      λ r m. store-next k1 t p r ∙ rw q.tail (rw (store-next k p 0 r) (rw (apart r m) refl)) in
    let end : (k2.proc p).next ≡ 0 =
      let te : (t == p) ≡ false =
        ground (
          arith,
          apart t (subst (λ v. member v (x ∷ xs) ≡ true) (sym q.tail) (member-last x xs)),
        ) in
      store-next k1 t p p ∙ rw te (store-next k p 0 p ∙ rw (==_refl p) refl) in
    rw here (
      rw busy (record {
        queue = record {
          links = Links-snoc _ _ _ p x xs q.links q.distinct pz step end;
          tail = sym (last-snoc 0 p (x ∷ xs));
          distinct = Distinct-snoc p (x ∷ xs) new q.distinct;
        };
        current = refl;
        states = λ r.
            store-field (λ x. x.state) k1 t (set_next p (k1.proc t)) r refl
            ∙ store-field (λ x. x.state) k p (set_next 0 (k.proc p)) r refl;
      }))

-- What leaving the queue makes of a kernel.
pub data Leaves (k : Kernel) : List ℕ → ℕ × Kernel → Type 0 where
  idle : Leaves k [] (0, k)
  first :
      (x : ℕ) (xs : List ℕ) (k' : Kernel)
      → Queue k' xs
      → x ≢ 0
      → k'.current_process ≡ k.current_process
      → ((q : ℕ) → (k'.proc q).state ≡ (k.proc q).state)
      → Leaves k (x ∷ xs) (x, k')

-- The first process leaves the queue; from the empty queue the null pointer is taken.
pub dequeue_process-Queue :
    (k : Kernel) (xs : List ℕ) → Queue k xs → Leaves k xs (dequeue_process k)
unfolding dequeue_process member
dequeue_process-Queue k [] q =
    let empty : (k.ready_queue_head == 0) ≡ true = ground (arith, q.links) in rw empty idle
dequeue_process-Queue k (x ∷ []) q =
    let head : k.ready_queue_head ≡ x = q.links.0 in
    let busy : (x == 0) ≡ false = ground (arith, q.links.1) in
    let last : ((k.proc x).next == 0) ≡ true = ground (arith, q.links.2) in
    rw head (
      rw busy (
        rw last (
          first x [] _ (record { links = q.links.2; tail = refl; distinct = tt }) q.links.1 refl
            (λ r. store-field (λ x. x.state) k x (set_next 0 (k.proc x)) r refl))))
dequeue_process-Queue k (x ∷ y ∷ ys) q =
    let head : k.ready_queue_head ≡ x = q.links.0 in
    let busy : (x == 0) ≡ false = ground (arith, q.links.1) in
    let more : ((k.proc x).next == 0) ≡ false = ground (arith, q.links.2) in
    let same : (r : ℕ)
        → member r (y ∷ ys) ≡ true
        → ((store k x (set_next 0 (k.proc x))).proc r).next ≡ (k.proc r).next =
      λ r m. store-next k x 0 r ∙ rw (member-apart x r (y ∷ ys) q.distinct.0 m) refl in
    rw head (
      rw busy (
        rw more (
          first x (y ∷ ys) _
            (record {
              links = Links-same _ _ _ (y ∷ ys) same q.links.2;
              tail = q.tail;
              distinct = q.distinct.1;
            })
            q.links.1 refl (λ r. store-field (λ x. x.state) k x (set_next 0 (k.proc x)) r refl))))
