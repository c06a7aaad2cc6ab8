-- ===== src/Shell/Line.antt =====
-- The line editor of the shell against a line of text.
use zenix.Prelude.{
  ℕ, suc, ◌-◌, ◌<◌, ◌≡◌, refl, sym, ap, subst, ◌∙◌, inl, inr, true, false, List, [], ◌∷◌, ◌++◌,
  arith, ltb, ◌==◌, if◌then◌else◌, ltb→lt, ==_iff, Bool-cases, length, set, length-append,
  length-set, length-replicate,
}
use zenix.Shell.{
  Shell, newline, backspace, cleared, shell_init, Effect, nothing, prints, executes, text_of,
  shell_key,
}

-- A line without its last character
pub drop_last : List ℕ → List ℕ
drop_last [] = []
drop_last (x ∷ []) = []
drop_last (x ∷ y ∷ ys) = x ∷ drop_last (y ∷ ys)

-- What the editor promises: 255 characters, and a backspace takes the last one away. The key does this to
-- the line `xs`.
pub edit_key : List ℕ → ℕ → Effect × List ℕ
edit_key xs c =
    if c == 0
    then (nothing, xs)
    else (if c == newline
        then (executes xs, [])
        else (if c == backspace
            then (if ltb 0 (length xs) then (prints backspace, drop_last xs) else (nothing, xs))
            else (if ltb (length xs) 255 then (prints c, xs ++ (c ∷ [])) else (nothing, xs))))

-- The buffer begins with the characters `xs`, none of which is 0.
abbrev Starts : List ℕ → List ℕ → Type 0
Starts buf [] = Unit {0}
Starts [] (x ∷ xs) = ⊥
Starts (b ∷ bs) (x ∷ xs) = (b ≡ x) × ((x == 0) ≡ false) × Starts bs xs

record Holds (s : Shell) (xs : List ℕ) : Type 0 where
  size : length s.input_buffer ≡ 256
  index : s.input_index ≡ length xs
  room : length xs < 256
  starts : Starts s.input_buffer xs

text_of-set :
    (xs buf : List ℕ)
    → Starts buf xs
    → length xs < length buf
    → text_of (set buf (length xs) 0) ≡ xs
unfolding text_of
text_of-set [] [] h lt = refl
text_of-set [] (b ∷ bs) h lt = refl
text_of-set (x ∷ xs) [] h lt = elim h [ ]
text_of-set (x ∷ xs) (b ∷ bs) h lt =
    rw (h.0) (rw (h.1) (ap (◌∷◌ x) (text_of-set xs bs (h.2) (omega arith))))

Starts-snoc :
    (xs buf : List ℕ) (c : ℕ)
    → Starts buf xs
    → length xs < length buf
    → (c == 0) ≡ false
    → Starts (set buf (length xs) c) (xs ++ (c ∷ []))
Starts-snoc [] [] c h lt e = absurd (omega (arith, lt))
Starts-snoc [] (b ∷ bs) c h lt e = (refl, e, tt)
Starts-snoc (x ∷ xs) [] c h lt e = elim h [ ]
Starts-snoc (x ∷ xs) (b ∷ bs) c h lt e = (h.0, h.1, Starts-snoc xs bs c (h.2) (omega arith) e)

Starts-drop_last :
    (x : ℕ) (xs buf : List ℕ) (c : ℕ)
    → Starts buf (x ∷ xs)
    → Starts (set buf (length xs) c) (drop_last (x ∷ xs))
unfolding drop_last
Starts-drop_last x [] buf c h = tt
Starts-drop_last x (y ∷ ys) [] c h = elim h [ ]
Starts-drop_last x (y ∷ ys) (b ∷ bs) c h = (h.0, h.1, Starts-drop_last y ys bs c (h.2))

length-drop_last : (x : ℕ) (xs : List ℕ) → length (drop_last (x ∷ xs)) ≡ length xs
unfolding drop_last
length-drop_last x [] = refl
length-drop_last x (y ∷ ys) = ap suc (length-drop_last y ys)

cleared-Holds : Holds cleared []
unfolding cleared
cleared-Holds = record {
  size = length-replicate 256 0;
  index = refl;
  room = omega arith;
  starts = tt;
}

-- One key
record Agrees (a : Effect × Shell) (b : Effect × List ℕ) : Type 0 where
  same : a.0 ≡ b.0
  held : Holds (a.1) (b.1)

backspace-Agrees :
    (s : Shell) (xs : List ℕ) → Holds s xs → Agrees (shell_key s backspace) (edit_key xs backspace)
unfolding shell_key edit_key
backspace-Agrees s [] h =
    rw (h.index, shell_key)
      (record {
        same = refl;
        held = record { size = h.size; index = refl; room = omega arith; starts = tt };
      })
backspace-Agrees s (x ∷ xs) h =
    let some_left : ltb 0 s.input_index ≡ true = ground (arith, h.index) in
    let some_text : ltb 0 (suc (length xs)) ≡ true = ground arith in
    let before : s.input_index - 1 ≡ length xs = omega (arith, h.index) in
    rw (some_left, shell_key)
      (rw some_text (
        rw before (record {
          same = refl;
          held = record {
            size = length-set s.input_buffer (length xs) 0 ∙ h.size;
            index = sym (length-drop_last x xs);
            room = omega (arith, length-drop_last x xs, h.room);
            starts = Starts-drop_last x xs s.input_buffer 0 h.starts;
          };
        })))

shell_key-Agrees :
    (s : Shell) (xs : List ℕ) (c : ℕ) → Holds s xs → Agrees (shell_key s c) (edit_key xs c)
unfolding shell_key edit_key
shell_key-Agrees s xs c h = elim (Bool-cases (c == 0)) [
  | inl a ↦ rw (a, shell_key, edit_key) (record { same = refl; held = h })
  | inr a ↦ elim (Bool-cases (c == newline)) [
    | inl b ↦
        rw (a, shell_key, edit_key)
          (rw b (record {
            same = rw h.index (
                ap executes
                  (text_of-set xs s.input_buffer h.starts (omega (arith, h.size, h.room))));
            held = cleared-Holds;
          }))
    | inr b ↦ elim (Bool-cases (c == backspace)) [
      | inl d ↦
          subst (λ k. Agrees (shell_key s k) (edit_key xs k)) (sym ((==_iff _ _).0 d))
            (backspace-Agrees s xs h)
      | inr d ↦ elim (Bool-cases (ltb (length xs) 255)) [
        | inl e ↦
            let fits : ltb s.input_index 255 ≡ true = rw h.index e in
            rw (a, shell_key, edit_key)
              (rw b (
                rw d (
                  rw e (
                    rw fits (record {
                      same = refl;
                      held = record {
                        size = length-set s.input_buffer s.input_index c ∙ h.size;
                        index = omega (arith, h.index, length-append xs (c ∷ []));
                        room = omega (arith, ltb→lt _ _ e, length-append xs (c ∷ []));
                        starts = rw h.index (
                            Starts-snoc xs s.input_buffer c h.starts (omega (arith, h.size, h.room))
                              a);
                      };
                    })))))
        | inr e ↦
            let full : ltb s.input_index 255 ≡ false = rw h.index e in
            rw (a, shell_key, edit_key)
              (rw b (rw d (rw e (rw full (record { same = refl; held = h })))))
      ]
    ]
  ]
]

-- What the keys make the shell do, one after the other
pub effects : Shell → List ℕ → List Effect
effects s [] = []
effects s (c ∷ cs) = let r = shell_key s c in r.0 ∷ effects (r.1) cs

pub edits : List ℕ → List ℕ → List Effect
edits xs [] = []
edits xs (c ∷ cs) = let r = edit_key xs c in r.0 ∷ edits (r.1) cs

effects-edits : (cs : List ℕ) (s : Shell) (xs : List ℕ) → Holds s xs → effects s cs ≡ edits xs cs
unfolding effects edits
effects-edits [] s xs h = refl
effects-edits (c ∷ cs) s xs h =
    let one = shell_key-Agrees s xs c h in
    rw one.same (ap (λ q. (edit_key xs c).0 ∷ q) (effects-edits cs _ _ one.held))

-- After `shell_init`, whatever is typed: the shell prints and executes what an editor does that keeps a line
-- of at most 255 characters, drops a character that finds it full, takes the last one away for a
-- backspace, and executes the whole line, and begins an empty one, at a new line.
pub shell_init-edits : (s : Shell) (keys : List ℕ) → effects (shell_init s) keys ≡ edits [] keys
unfolding shell_init
shell_init-edits s keys = effects-edits keys cleared [] cleared-Holds
