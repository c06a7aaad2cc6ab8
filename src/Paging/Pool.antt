-- ===== src/Paging/Pool.antt =====
-- A new table behind a directory entry: what it keeps of the invariant and of the translations.
use zenix.Prelude.{
  ℕ, ◌+◌, ◌*◌, ◌/◌, ◌^◌, ◌<◌, ◌≡◌, refl, sym, ap, subst, ◌∙◌, inl, inr, true, false, ◌&&◌, arith,
  ltb, ◌==◌, if◌then◌else◌, ==_iff, ==_refl, Bool-cases,
}
use zenix.Paging.{
  Entry, Paging, dir_index, table_index, frame_address, clear_entry, paging_get_physical,
}
use zenix.Paging.Bits.{table_index_lem}
use zenix.Paging.Walk.{IsValid, target-absent, walk, unmapped}

-- What finding a table for an address makes of the state: no translation changes.
pub record Opens (s : Paging) (virt : ℕ) (table : ℕ) (s' : Paging) : Type 0 where
  pub valid : IsValid s'
  pub present : ((s'.directory (dir_index virt)).present == 0) ≡ false
  pub at : frame_address (s'.directory (dir_index virt)).frame ≡ table
  pub real : (table == 0) ≡ false
  pub same : (v : ℕ) → v < 2 ^ 32 → paging_get_physical s' v ≡ paging_get_physical s v

-- The state with a cleared table of the pool behind the directory entry `d`.
abbrev pub with_table : Paging → ℕ → ℕ → Paging
with_table s d user =
    let table = s.page_tables + s.next_table_index * 2 ^ 12 in
    record s {
      next_table_index = s.next_table_index + 1;
      tables =
          λ t j. if (t == table) && ltb j 1024 then clear_entry (s.tables t j) else s.tables t j;
      directory = λ j.
          if j == d
          then record (s.directory d) {
            present = 1;
            rw_bit = 1;
            user = user;
            frame = table / 2 ^ 12;
          }
          else s.directory j;
    }

module _ (s : Paging) (d user : ℕ) (v : IsValid s) (small : d < 1024)
    (room : s.next_table_index < 256) (missing : ((s.directory d).present == 0) ≡ true) where
  new_address :
      frame_address ((s.page_tables + s.next_table_index * 2 ^ 12) / 2 ^ 12)
      ≡ s.page_tables + s.next_table_index * 4096
  new_address = omega (arith, v.aligned, v.in_memory)

  new_dir : (j : ℕ) → (j == d) ≡ false → (with_table s d user).directory j ≡ s.directory j
  new_dir j ne = rw ne refl

  pub new_at :
      frame_address ((with_table s d user).directory d).frame
      ≡ s.page_tables + s.next_table_index * 4096
  new_at = rw (==_refl d) new_address

  pub new_present : (((with_table s d user).directory d).present == 0) ≡ false
  new_present = rw (==_refl d) refl

  -- A directory entry of before stays, and points below the new table.
  old_used :
      (i : ℕ)
      → i < 1024
      → (i == d) ≡ false
      → (((with_table s d user).directory i).present == 0) ≡ false
      → (k : ℕ) × (k < s.next_table_index)
        × (frame_address ((with_table s d user).directory i).frame ≡ s.page_tables + k * 4096)
  old_used i lt ne p =
      rw ne (v.used i lt (subst (λ (e : Entry). (e.present == 0) ≡ false) (new_dir i ne) p))

  new_used :
      (i : ℕ)
      → i < 1024
      → (((with_table s d user).directory i).present == 0) ≡ false
      → (k : ℕ) × (k < s.next_table_index + 1)
        × (frame_address ((with_table s d user).directory i).frame ≡ s.page_tables + k * 4096)
  new_used i lt p = elim (Bool-cases (i == d)) [
    | inl here ↦
        let e : d ≡ i = sym ((==_iff _ _).0 here) in
        (
          s.next_table_index,
          omega arith,
          subst
              (λ i.
                frame_address ((with_table s d user).directory i).frame
                ≡ s.page_tables + s.next_table_index * 4096)
              e new_at,
        )
    | inr there ↦ let (k, l, e) = old_used i lt there p in (k, omega arith, e)
  ]

  new_apart :
      (i j : ℕ)
      → i < 1024
      → j < 1024
      → (((with_table s d user).directory i).present == 0) ≡ false
      → (((with_table s d user).directory j).present == 0) ≡ false
      → frame_address ((with_table s d user).directory i).frame
        ≡ frame_address ((with_table s d user).directory j).frame
      → i ≡ j
  new_apart i j li lj pi pj e = elim (Bool-cases (i == d)) [
    | inl hi ↦ elim (Bool-cases (j == d)) [
      | inl hj ↦ ground (arith, hi, hj)
      | inr tj ↦
          let (k, l, f) = old_used j lj tj pj in
          let g =
            subst
              (λ i.
                frame_address ((with_table s d user).directory i).frame
                ≡ s.page_tables + s.next_table_index * 4096)
              (sym ((==_iff _ _).0 hi)) new_at in
          absurd (omega (arith, f, g, e))
    ]
    | inr ti ↦ elim (Bool-cases (j == d)) [
      | inl hj ↦
          let (k, l, f) = old_used i li ti pi in
          let g =
            subst
              (λ i.
                frame_address ((with_table s d user).directory i).frame
                ≡ s.page_tables + s.next_table_index * 4096)
              (sym ((==_iff _ _).0 hj)) new_at in
          absurd (omega (arith, f, g, e))
      | inr tj ↦
          v.apart i j li lj (subst (λ (e : Entry). (e.present == 0) ≡ false) (new_dir i ti) pi)
            (subst (λ (e : Entry). (e.present == 0) ≡ false) (new_dir j tj) pj)
            (ap (λ (e : Entry). frame_address e.frame) (sym (new_dir i ti))
              ∙ e
              ∙ ap (λ (e : Entry). frame_address e.frame) (new_dir j tj))
    ]
  ]

  new_frames : (t j : ℕ) → ((with_table s d user).tables t j).frame < 2 ^ 20
  new_frames t j =
      elim (Bool-cases ((t == s.page_tables + s.next_table_index * 2 ^ 12) && ltb j 1024)) [
        | inl hit ↦ rw hit (omega arith)
        | inr miss ↦ rw miss (v.frames t j)
      ]

  pub with_table-IsValid : IsValid (with_table s d user)
  with_table-IsValid = record {
    aligned = v.aligned;
    real = v.real;
    in_memory = v.in_memory;
    handed_out = omega arith;
    used = new_used;
    apart = new_apart;
    frames = new_frames;
  }

  -- An address behind another directory entry reaches the same table entry as before.
  new_entry :
      (w : ℕ)
      → w < 2 ^ 32
      → (dir_index w == d) ≡ false
      → ((s.directory (dir_index w)).present == 0) ≡ false
      → (with_table s d user).tables
          (frame_address (s.directory (dir_index w)).frame)
          (table_index w)
        ≡ s.tables (frame_address (s.directory (dir_index w)).frame) (table_index w)
  new_entry w lt ne p =
      let (k, l, e) = v.used (dir_index w) (omega arith) p in
      let miss : (frame_address (s.directory (dir_index w)).frame
            == s.page_tables + s.next_table_index * 2 ^ 12)
          ≡ false =
        ground (arith, e) in
      rw miss refl

  -- An address behind the new table is not mapped, as before.
  new_unmapped :
      (w : ℕ)
      → w < 2 ^ 32
      → (dir_index w == d) ≡ true
      → paging_get_physical (with_table s d user) w ≡ 0
  new_unmapped w lt here =
      let e : dir_index w ≡ d = (==_iff _ _).0 here in
      let s' = with_table s d user in
      let p : ((s'.directory (dir_index w)).present == 0) ≡ false =
        subst (λ i. ((s'.directory i).present == 0) ≡ false) (sym e) new_present in
      let at : frame_address (s'.directory (dir_index w)).frame
          ≡ s.page_tables + s.next_table_index * 4096 =
        subst
          (λ i. frame_address (s'.directory i).frame ≡ s.page_tables + s.next_table_index * 4096)
          (sym e) new_at in
      let hit : (frame_address (s'.directory (dir_index w)).frame
            == s.page_tables + s.next_table_index * 2 ^ 12)
          ≡ true =
        ground (arith, at) in
      let low : ltb (table_index w) 1024 ≡ true = ground (arith, table_index_lem w) in
      walk s' w p (new_frames _ _) ∙ target-absent _ w (rw hit (rw low refl))

  pub new_same :
      (w : ℕ) → w < 2 ^ 32 → paging_get_physical (with_table s d user) w ≡ paging_get_physical s w
  new_same w lt = elim (Bool-cases (dir_index w == d)) [
    | inl here ↦
        new_unmapped w lt here
        ∙ sym (
            unmapped s w (
              subst (λ i. ((s.directory i).present == 0) ≡ true) (sym ((==_iff _ _).0 here))
                missing))
    | inr there ↦ elim (Bool-cases ((s.directory (dir_index w)).present == 0)) [
      | inl away ↦ unmapped (with_table s d user) w (rw there away) ∙ sym (unmapped s w away)
      | inr p ↦
          walk (with_table s d user) w (rw there p) (new_frames _ _)
          ∙ rw there (rw (new_entry w lt there p) (sym (walk s w p (v.frames _ _))))
    ]
  ]
