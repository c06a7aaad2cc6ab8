-- ===== src/Shell/Cat.antt =====
-- `shell_cat` prints a whole file.
use zenix.Prelude.{
  ℕ, zero, suc, ◌+◌, ◌-◌, ◌^◌, ◌≤◌, ◌<◌, min, ◌≡◌, refl, sym, ap, ◌∙◌, inl, inr, true, false, some,
  List, [], ◌∷◌, ◌++◌, arith, ◌==◌, Bool-cases, length, take, drop, take-append-drop, u32,
}
use zenix.Prelude.{length-drop, drop-drop, drop-min}
use mathlib.Core.List.{append_assoc}
use zenix.Prelude.Codes.{codes}
use zenix.Nodes.{Node, fs_read}
use zenix.Shell.Commands.{
  Print, text, number, clear_screen, process_list, syscall_test, usermode_test, printed, put_before,
  cat_loop, cat_file,
}

-- The bytes of the texts printed
pub bytes_of : List Print → List ℕ
bytes_of [] = []
bytes_of (text bytes ∷ rest) = bytes ++ bytes_of rest
bytes_of (p ∷ rest) = bytes_of rest

bytes_of-append : (xs ys : List Print) → bytes_of (xs ++ ys) ≡ bytes_of xs ++ bytes_of ys
unfolding bytes_of
bytes_of-append [] ys = refl
bytes_of-append (text bytes ∷ xs) ys =
    ap (λ q. bytes ++ q) (bytes_of-append xs ys)
    ∙ sym (append_assoc bytes (bytes_of xs) (bytes_of ys))
bytes_of-append (number n ∷ xs) ys = bytes_of-append xs ys
bytes_of-append (clear_screen ∷ xs) ys = bytes_of-append xs ys
bytes_of-append (process_list ∷ xs) ys = bytes_of-append xs ys
bytes_of-append (syscall_test ∷ xs) ys = bytes_of-append xs ys
bytes_of-append (usermode_test ∷ xs) ys = bytes_of-append xs ys

abbrev pub NoZero : List ℕ → Type 0
NoZero [] = Unit {0}
NoZero (c ∷ cs) = ((c == 0) ≡ false) × NoZero cs

printed-whole : (xs : List ℕ) → NoZero xs → printed xs ≡ xs
unfolding printed
printed-whole [] h = refl
printed-whole (x ∷ xs) h = rw (h.0) (ap (◌∷◌ x) (printed-whole xs (h.1)))

NoZero-take : (n : ℕ) (xs : List ℕ) → NoZero xs → NoZero (take n xs)
NoZero-take zero xs h = tt
NoZero-take (suc n) [] h = tt
NoZero-take (suc n) (x ∷ xs) h = (h.0, NoZero-take n xs (h.1))

NoZero-drop : (n : ℕ) (xs : List ℕ) → NoZero xs → NoZero (drop n xs)
NoZero-drop zero xs h = h
NoZero-drop (suc n) [] h = tt
NoZero-drop (suc n) (x ∷ xs) h = NoZero-drop n xs (h.1)

take_cut : (n : ℕ) (xs : List ℕ) → take (min n (length xs)) (take n xs) ≡ take n xs
take_cut zero xs = let e : min 0 (length xs) ≡ 0 = omega arith in rw e refl
take_cut (suc n) [] = let e : min (suc n) 0 ≡ 0 = omega arith in rw e refl
take_cut (suc n) (x ∷ xs) =
    let e : min (suc n) (suc (length xs)) ≡ suc (min n (length xs)) = omega arith in
    rw e (ap (◌∷◌ x) (take_cut n xs))

drop_end : (n : ℕ) (xs : List ℕ) → length xs ≤ n → drop n xs ≡ []
drop_end zero [] h = refl
drop_end zero (x ∷ xs) h = absurd (omega (arith, h))
drop_end (suc n) [] h = refl
drop_end (suc n) (x ∷ xs) h = drop_end n xs (omega arith)

module _ {Disk : Type 0} (node_at : Disk → ℕ → Node Disk) where
  -- Reading 256 bytes of the node gives those of `content` from the offset on, and changes nothing.
  abbrev pub Gives : Disk → ℕ → List ℕ → Type 0
  Gives d node content =
      (offset : ℕ)
      → offset ≤ length content
      → fs_read node_at node offset 256 d
        ≡ ((min 256 (length content - offset), take 256 (drop offset content)), d)

  -- The loop from an offset on
  Rest : ℕ → ℕ → ℕ → Disk → List ℕ → Type 0
  Rest fuel node offset d content =
      (out : List Print) × (cat_loop node_at fuel node offset d ≡ some (out, d))
      × (bytes_of out ≡ drop offset content)

  cat_loop-round :
      (fuel node offset : ℕ) (d : Disk) (content : List ℕ)
      → Gives d node content
      → NoZero content
      → offset ≤ length content
      → length content < 2 ^ 31
      → (length content - offset == 0) ≡ false
      → cat_loop node_at (suc fuel) node offset d
        ≡ put_before
            (text (take 256 (drop offset content)))
            (cat_loop node_at fuel node (offset + min 256 (length content - offset)) d)
  unfolding cat_loop
  cat_loop-round fuel node offset d content g z h small e =
      let left : (min 256 (length content - offset) == 0) ≡ false = ground (arith, e) in
      let count = min 256 (length content - offset) in
      let place : u32 (offset + count) ≡ offset + count = omega (arith, small, h) in
      let shown : printed (take count (take 256 (drop offset content)))
          ≡ take 256 (drop offset content) =
        ap (λ n. printed (take n (take 256 (drop offset content))))
          (ap (min 256) (sym (length-drop offset content)))
        ∙ ap printed (take_cut 256 (drop offset content))
        ∙ printed-whole (take 256 (drop offset content))
            (NoZero-take 256 (drop offset content) (NoZero-drop offset content z)) in
      rw (g offset h, cat_loop) (rw left (rw shown (rw place refl)))

  cat_loop-Rest :
      (fuel node offset : ℕ) (d : Disk) (content : List ℕ)
      → Gives d node content
      → NoZero content
      → offset ≤ length content
      → length content < 2 ^ 31
      → length content - offset < fuel
      → Rest fuel node offset d content
  unfolding Rest cat_loop bytes_of
  cat_loop-Rest zero node offset d content g z h small enough = elim enough [ ]
  cat_loop-Rest (suc fuel) node offset d content g z h small enough =
      elim (Bool-cases (length content - offset == 0)) [
        | inl e ↦
            let none_left : (min 256 (length content - offset) == 0) ≡ true = ground (arith, e) in
            (
              [],
              rw (g offset h, cat_loop) (rw none_left refl),
              sym (drop_end offset content (ground (arith, e))),
            )
        | inr e ↦
            let count = min 256 (length content - offset) in
            let rest =
              cat_loop-Rest fuel node (offset + count) d content g z (omega (arith, h)) small
                (ground (arith, e, enough)) in
            (
              text (take 256 (drop offset content)) ∷ rest.0,
              cat_loop-round fuel node offset d content g z h small e
                  ∙ ap (put_before (text (take 256 (drop offset content)))) (rest.1),
              ap (λ q. take 256 (drop offset content) ++ q)
                    (rest.2
                      ∙ sym (drop-drop offset count content)
                      ∙ ap (λ n. drop (min 256 n) (drop offset content))
                          (sym (length-drop offset content))
                      ∙ drop-min 256 (drop offset content))
                  ∙ take-append-drop 256 (drop offset content),
            )
      ]

  -- `cat` of a file of fewer than 2 ^ 31 bytes, none of them 0, ends: with as many rounds and one more as the
  -- file has bytes it prints the bytes of the file, in order, and a new line, and the memory is as the
  -- reads leave it.
  pub cat_file-whole :
      (fuel node : ℕ) (d : Disk) (content : List ℕ)
      → Gives d node content
      → NoZero content
      → length content < 2 ^ 31
      → length content < fuel
      → (out : List Print) × (cat_file node_at fuel (some node) d ≡ some (out, d))
        × (bytes_of out ≡ content ++ codes "\n")
  unfolding cat_file Rest bytes_of
  cat_file-whole fuel node d content g z small enough =
      let r = cat_loop-Rest fuel node 0 d content g z (omega arith) small (omega (arith, enough)) in
      (
        r.0 ++ (text (codes "\n") ∷ []),
        rw (r.1, cat_file) refl,
        bytes_of-append (r.0) (text (codes "\n") ∷ []) ∙ rw (r.2) refl,
      )
