-- ===== src/Strings/Tests.antt =====
-- Runs of the string routines, and their theorems at a concrete memory.
use zenix.Prelude.{ℕ, ◌+◌, ◌-◌, ◌≡◌, refl, some, List, [], ◌∷◌, arith, ◌==◌, if◌then◌else◌}
use zenix.Strings.{Memory, strlen_loop, strlen, memset, memset_loop, memmove}
use zenix.Strings.Moves.{within, memmove_lem}
use zenix.Strings.Text.{CStr}

-- "hi" at 100 and "ho" at 200.
abbrev texts : Memory
texts = λ p.
    if p == 100
    then 104
    else if p == 101
    then 105
    else if p == 200
    then 104
    else if p == 201
    then 111
    else 0

strlen-texts : strlen 10 texts 100 ≡ some 2
unfolding strlen strlen_loop
strlen-texts = refl

memset-texts : memset texts 100 0x141 2 101 ≡ 0x41
unfolding memset memset_loop
memset-texts = refl

abbrev hi : List ℕ
hi = 104 ∷ 105 ∷ []

abbrev ho : List ℕ
ho = 104 ∷ 111 ∷ []

hi-CStr : CStr texts 100 hi
hi-CStr = (refl, (ground arith), (refl, (ground arith), refl))

ho-CStr : CStr texts 200 ho
ho-CStr = (refl, (ground arith), (refl, (ground arith), refl))

memmove_lem_example :
    memmove texts 101 100 2 102
    ≡ (if within 101 2 102 then texts (100 + (102 - 101)) else texts 102)
memmove_lem_example = memmove_lem texts 101 100 2 102
