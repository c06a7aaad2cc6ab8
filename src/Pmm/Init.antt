-- ===== src/Pmm/Init.antt =====
-- `pmm_init`: which frames it frees, and that it sets the invariant up.
use zenix.Prelude.{
  u32, ℕ, zero, suc, ◌+◌, ◌-◌, ◌*◌, ◌/◌, ◌%◌, ◌^◌, ◌≤◌, ◌<◌, ◌≡◌, refl, sym, subst, ◌∙◌, inl, inr,
  true, not, ◌&&◌, arith, ltb, leb, lt→ltb, Bool-cases, replicate, length-replicate,
  get_or-replicate,
}
use zenix.Prelude.Bits.{bit_at, bit_at-not, bit_at-zero}
use zenix.Pmm.{
  Pmm, Multiboot, align_up, bitmap_size, all_ones, bitmap_clear, bitmap_test, release_from,
  detect_memory, free_start, blank, pmm_init, pmm_free_page,
}
use zenix.Pmm.Bits.{block_bit, test-block_bit}
use zenix.Pmm.Count.{taken, IsValid}
use zenix.Pmm.Free.{free_lem, free-IsValid, blocks-free}

-- A round of the loop frees a frame that is taken.
release_step :
    (s : Pmm) (i : ℕ)
    → i < s.total_blocks
    → bitmap_test s.words i ≡ true
    → record s { words = bitmap_clear s.words i; used_blocks = u32 (s.used_blocks + 2 ^ 32 - 1) }
      ≡ pmm_free_page s (i * 4096)
unfolding pmm_free_page
release_step s i h t = let e : i * 4096 / 4096 ≡ i = omega arith in rw (e, lt→ltb _ _ h, t) refl

pub record Released (s : Pmm) (i n : ℕ) (r : Pmm) : Type 0 where
  pub valid : IsValid r
  pub bits :
      (j : ℕ) → bitmap_test r.words j ≡ (not (leb i j && ltb j (i + n)) && bitmap_test s.words j)
  pub blocks : r.total_blocks ≡ s.total_blocks
  pub place : r.memory_bitmap ≡ s.memory_bitmap

place-free : (s : Pmm) (page : ℕ) → (pmm_free_page s page).memory_bitmap ≡ s.memory_bitmap
unfolding pmm_free_page
place-free s page = ground arith

-- The first frame to be freed starts where the bitmap ends.
free_start-bitmap :
    (kernel_end : ℕ)
    → kernel_end < 2 ^ 32 - 2 ^ 18
    → free_start kernel_end * 4096 ≡ align_up kernel_end + 131072
unfolding free_start
free_start-bitmap kernel_end h = omega (arith, h)

release_from-Released :
    (n i : ℕ) {s : Pmm}
    → IsValid s
    → i + n ≤ s.total_blocks
    → ((j : ℕ) → i ≤ j → j < i + n → bitmap_test s.words j ≡ true)
    → Released s i n (release_from n i s)
unfolding release_from
release_from-Released zero i v h all = record {
  valid = v;
  bits = λ j. ground arith;
  blocks = refl;
  place = refl;
}
release_from-Released (suc n) i {s} v h all =
    let t = all i (omega arith) (omega arith) in
    let freed = free_lem v (i * 4096) in
    let e : i * 4096 / 4096 ≡ i = omega arith in
    let same = blocks-free v (i * 4096) in
    let rest =
      release_from-Released n (i + 1) (free-IsValid v (i * 4096)) (omega (arith, same))
        (λ j lo hi. ground (arith, freed.0 j, all j (omega arith) (omega arith), e)) in
    rw (release_step s i (omega arith) t) (record {
      valid = rest.valid;
      bits = λ j. ground (arith, rest.bits j, freed.0 j, e);
      blocks = rest.blocks ∙ same;
      place = rest.place ∙ place-free s (i * 4096);
    })

ones_bit : (j : ℕ) → j < 32 → bit_at all_ones j ≡ 1
ones_bit j h = omega (arith, bit_at-not 32 0 j (omega arith) h, bit_at-zero j)

blank_bit : (j : ℕ) → j < 2 ^ 20 → block_bit (replicate (bitmap_size / 4) all_ones) j ≡ 1
blank_bit j h =
    rw (get_or-replicate (bitmap_size / 4) (j / 32) all_ones 0 (omega arith))
      (ones_bit (j % 32) (omega arith))

blank_taken : (n : ℕ) → n ≤ 2 ^ 20 → taken (replicate (bitmap_size / 4) all_ones) n ≡ n
unfolding taken
blank_taken zero h = refl
blank_taken (suc n) h = omega (arith, blank_bit n h, blank_taken n (omega arith))

detect_memory-lt : (mbi : Multiboot) → detect_memory mbi < 2 ^ 32
unfolding detect_memory
detect_memory-lt mbi = ground arith

blank-IsValid : (mbi : Multiboot) (kernel_end : ℕ) → IsValid (blank mbi kernel_end)
unfolding blank
blank-IsValid mbi kernel_end = record {
  covered = omega (arith, detect_memory-lt mbi, length-replicate (bitmap_size / 4) all_ones);
  blocks = refl;
  fits = detect_memory-lt mbi;
  counted = sym (blank_taken (detect_memory mbi / 4096) (omega (arith, detect_memory-lt mbi)));
}

blank_test :
    (mbi : Multiboot) (kernel_end j : ℕ)
    → j < detect_memory mbi / 4096
    → bitmap_test (blank mbi kernel_end).words j ≡ true
unfolding blank
blank_test mbi kernel_end j h = rw (
  test-block_bit (replicate (bitmap_size / 4) all_ones) j,
  blank_bit j (omega (arith, detect_memory-lt mbi)),
)

Released-zero : (n i : ℕ) {s : Pmm} → IsValid s → n ≡ 0 → Released s i n (release_from n i s)
unfolding release_from
Released-zero zero i v e = record {
  valid = v;
  bits = λ j. ground arith;
  blocks = refl;
  place = refl;
}
Released-zero (suc n) i v e = absurd (omega arith)

init_Released :
    (mbi : Multiboot) (kernel_end : ℕ)
    → Released
        (blank mbi kernel_end)
        (free_start kernel_end)
        (detect_memory mbi / 4096 - free_start kernel_end)
        (pmm_init mbi kernel_end)
unfolding pmm_init
init_Released mbi kernel_end =
    elim (Bool-cases (leb (free_start kernel_end) (detect_memory mbi / 4096))) [
      | inl h ↦
          release_from-Released _ (free_start kernel_end) (blank-IsValid mbi kernel_end)
            (unfold blank in ground arith) (λ j lo hi. blank_test mbi kernel_end j (ground arith))
      | inr h ↦
          Released-zero _ (free_start kernel_end) (blank-IsValid mbi kernel_end) (ground arith)
    ]

pub blocks-init :
    (mbi : Multiboot) (kernel_end : ℕ)
    → (pmm_init mbi kernel_end).total_blocks ≡ detect_memory mbi / 4096
unfolding blank
blocks-init mbi kernel_end = (init_Released mbi kernel_end).blocks

pub init-IsValid : (mbi : Multiboot) (kernel_end : ℕ) → IsValid (pmm_init mbi kernel_end)
init-IsValid mbi kernel_end = (init_Released mbi kernel_end).valid

-- The frames that stay taken, by the first one that is freed
pub bits-init :
    (mbi : Multiboot) (kernel_end j : ℕ)
    → j < detect_memory mbi / 4096
    → bitmap_test (pmm_init mbi kernel_end).words j ≡ ltb j (free_start kernel_end)
bits-init mbi kernel_end j h =
    ground (arith, (init_Released mbi kernel_end).bits j, blank_test mbi kernel_end j h)

-- The first byte of the first page that starts at `addr` or behind it
pub data PageFrom (addr : ℕ) : ℕ → Type 0 where
  page_from : (n : ℕ) → addr ≤ n * 4096 → n * 4096 < addr + 4096 → PageFrom addr (n * 4096)

align_up-PageFrom : (addr : ℕ) → addr + 4095 < 2 ^ 32 → PageFrom addr (align_up addr)
align_up-PageFrom addr h =
    let e : u32 (addr + 4095) ≡ addr + 4095 = omega (arith, h) in
    rw e (page_from ((addr + 4095) / 4096) (omega arith) (omega arith))

-- If the kernel ends below 4 GB less 256 KB, then `pmm_init` sets the invariant up, puts the bitmap at the first page
-- that starts where the kernel ends or behind it, and of the frames that the memory has leaves taken exactly those that start
-- below the end of the bitmap, which has 131072 bytes, so that no frame in the kernel or the bitmap is free and every
-- frame behind them is.
pub init_lem :
    (mbi : Multiboot) (kernel_end : ℕ)
    → kernel_end < 2 ^ 32 - 2 ^ 18
    → IsValid (pmm_init mbi kernel_end)
      × PageFrom kernel_end (pmm_init mbi kernel_end).memory_bitmap
      × ((j : ℕ)
          → j < detect_memory mbi / 4096
          → bitmap_test (pmm_init mbi kernel_end).words j
            ≡ ltb (j * 4096) ((pmm_init mbi kernel_end).memory_bitmap + 131072))
unfolding blank
init_lem mbi kernel_end small =
    let r = init_Released mbi kernel_end in
    (
      r.valid,
      subst (PageFrom kernel_end) (sym r.place)
          (align_up-PageFrom kernel_end (omega (arith, small))),
      λ j h.
          let first = free_start-bitmap kernel_end small in
          ground (arith, bits-init mbi kernel_end j h, r.place, first),
    )
