-- ===== src/Strings.antt =====
-- The string and memory routines of lib/libc/string.c, over a flat memory of bytes. A loop that runs to
-- a terminating 0 takes fuel, and `none` means that it ran out; a counted loop runs on the rounds left.
pub mod Moves
pub mod Text
mod Tests
use zenix.Prelude.{
  ℕ, zero, suc, ◌+◌, ◌-◌, ◌*◌, ◌/◌, ◌%◌, ◌^◌, ◌≤◌, ◌<◌, min, max, bit_and, bit_or, ◌≡◌, refl, sym,
  ap, subst, ◌∙◌, fun_ext, ◌≢◌, ◌↔◌, ◌⊎◌, inl, inr, Bool, true, false, not, ◌&&◌, ◌||◌, Option,
  none, some, List, [], ◌∷◌, ◌++◌, map, arith, ltb, leb, ◌==◌, if◌then◌else◌, ltb→lt, ltb→ge,
  lt→ltb, ==_iff, ==_refl, Bool-cases, Option-cases, length, get_elem?, get_or, set, take, drop,
  replicate, length-append, length-set, length-replicate, get_or-replicate, get_or-set_self,
  get_or-set_ne, length-take, take-append-drop, u8, u16, u32, sub32,
}
use zenix.Prelude.Int.{ℤ, pos, sub_ℕ}

-- The byte at each address.
abbrev pub Memory : Type 0
Memory = ℕ → ℕ

abbrev pub poke : Memory → ℕ → ℕ → Memory
poke m p v q = if p == q then v else m q

unfoldable pub strlen_loop : ℕ → Memory → ℕ → ℕ → Option ℕ
strlen_loop zero m str len = none
strlen_loop (suc fuel) m str len =
    let rest = strlen_loop fuel m str (len + 1) in if m (str + len) == 0 then some len else rest

unfoldable pub strlen : ℕ → Memory → ℕ → Option ℕ
strlen fuel m str = strlen_loop fuel m str 0

unfoldable pub strcmp : ℕ → Memory → ℕ → ℕ → Option ℤ
strcmp zero m s1 s2 = none
strcmp (suc fuel) m s1 s2 =
    let rest = strcmp fuel m (s1 + 1) (s2 + 1) in
    if not (m s1 == 0) && m s1 == m s2 then rest else some (sub_ℕ (m s1) (m s2))

-- `while ((*dest++ = *src++));`
unfoldable pub copy_string : ℕ → Memory → ℕ → ℕ → Option Memory
copy_string zero m dest src = none
copy_string (suc fuel) m dest src =
    let rest = copy_string fuel (poke m dest (m src)) (dest + 1) (src + 1) in
    if m src == 0 then some (poke m dest (m src)) else rest

-- The return value of `strcpy` and `strcat` is `dest`, and is left out.
unfoldable pub strcpy : ℕ → Memory → ℕ → ℕ → Option Memory
strcpy fuel m dest src = copy_string fuel m dest src

unfoldable pub find_end : ℕ → Memory → ℕ → Option ℕ
find_end zero m p = none
find_end (suc fuel) m p = let rest = find_end fuel m (p + 1) in if m p == 0 then some p else rest

unfoldable pub strcat : ℕ → Memory → ℕ → ℕ → Option Memory
strcat fuel m dest src = elim (find_end fuel m dest) [
  | none ↦ none
  | some end ↦ copy_string fuel m end src
]

-- `none` outside is that the fuel ran out; `none` inside is the null pointer.
unfoldable pub strchr : ℕ → Memory → ℕ → ℕ → Option (Option ℕ)
strchr zero m str c = none
strchr (suc fuel) m str c =
    let rest = strchr fuel m (str + 1) c in
    if m str == 0 then some none else if m str == u8 c then some (some str) else rest

-- `for (; i < n; i++) dest[i] = '\0';` with `k` rounds left
unfoldable pub pad : ℕ → Memory → ℕ → ℕ → Memory
pad zero m dest i = m
pad (suc k) m dest i = pad k (poke m (dest + i) 0) dest (i + 1)

unfoldable pub strncpy_loop : ℕ → Memory → ℕ → ℕ → ℕ → Memory
strncpy_loop zero m dest src i = m
strncpy_loop (suc k) m dest src i =
    let rest = strncpy_loop k (poke m (dest + i) (m (src + i))) dest src (i + 1) in
    if m (src + i) == 0 then pad (suc k) m dest i else rest

unfoldable pub strncpy : Memory → ℕ → ℕ → ℕ → Memory
strncpy m dest src n = strncpy_loop n m dest src 0

-- `for (i = …; i < n; i++) d[i] = s[i];` with `k` rounds left
unfoldable pub copy_up : ℕ → Memory → ℕ → ℕ → ℕ → Memory
copy_up zero m d s i = m
copy_up (suc k) m d s i = copy_up k (poke m (d + i) (m (s + i))) d s (i + 1)

-- `for (i = n; i > 0; i--) d[i - 1] = s[i - 1];`
unfoldable pub copy_down : ℕ → Memory → ℕ → ℕ → Memory
copy_down zero m d s = m
copy_down (suc k) m d s = copy_down k (poke m (d + k) (m (s + k))) d s

unfoldable pub memcpy : Memory → ℕ → ℕ → ℕ → Memory
memcpy m dest src n = copy_up n m dest src 0

unfoldable pub memset_loop : ℕ → Memory → ℕ → ℕ → ℕ → Memory
memset_loop zero m p value i = m
memset_loop (suc k) m p value i = memset_loop k (poke m (p + i) value) p value (i + 1)

unfoldable pub memset : Memory → ℕ → ℕ → ℕ → Memory
memset m ptr value num = memset_loop num m ptr (u8 value) 0

unfoldable pub memcmp_loop : ℕ → Memory → ℕ → ℕ → ℕ → ℤ
memcmp_loop zero m p q i = pos 0
memcmp_loop (suc k) m p q i =
    let rest = memcmp_loop k m p q (i + 1) in
    if m (p + i) == m (q + i) then rest else sub_ℕ (m (p + i)) (m (q + i))

unfoldable pub memcmp : Memory → ℕ → ℕ → ℕ → ℤ
memcmp m ptr1 ptr2 num = memcmp_loop num m ptr1 ptr2 0

unfoldable pub memmove : Memory → ℕ → ℕ → ℕ → Memory
memmove m dest src n = if ltb dest src then copy_up n m dest src 0 else copy_down n m dest src
