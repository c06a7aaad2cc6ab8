-- ===== src/Paging/Walk.antt =====
-- The walk through directory and table: which entries a virtual address reaches, and what a write to one changes.
use zenix.Prelude.{
  ℕ, ◌+◌, ◌*◌, ◌/◌, ◌%◌, ◌^◌, ◌≤◌, ◌<◌, ◌≡◌, refl, sym, ◌∙◌, ◌≢◌, inl, inr, true, false, ◌&&◌,
  arith, ◌==◌, if◌then◌else◌, ==_iff, ==_refl, Bool-cases,
}
use zenix.Paging.{
  Entry, Paging, pool_size, dir_index, table_index, frame_address, put_entry, paging_get_physical,
}
use zenix.Paging.Bits.{table_index_lem, join_lem}

-- A present directory entry points at a table of the pool that has been handed out, and at no other
-- entry's table.
pub record IsValid (s : Paging) : Type 0 where
  pub aligned : s.page_tables % 4096 ≡ 0
  pub real : 0 < s.page_tables
  pub in_memory : s.page_tables + 256 * 4096 ≤ 2 ^ 32
  pub handed_out : s.next_table_index ≤ pool_size
  pub used :
      (i : ℕ)
      → i < 1024
      → ((s.directory i).present == 0) ≡ false
      → (k : ℕ) × (k < s.next_table_index)
        × (frame_address (s.directory i).frame ≡ s.page_tables + k * 4096)
  pub apart :
      (i j : ℕ)
      → i < 1024
      → j < 1024
      → ((s.directory i).present == 0) ≡ false
      → ((s.directory j).present == 0) ≡ false
      → frame_address (s.directory i).frame ≡ frame_address (s.directory j).frame
      → i ≡ j
  pub frames : (t j : ℕ) → (s.tables t j).frame < 2 ^ 20

-- The physical address that a table entry gives an address of its page.
pub target : Entry → ℕ → ℕ
target e virt = if e.present == 0 then 0 else e.frame * 4096 + virt % 4096

pub target-absent : (e : Entry) (virt : ℕ) → (e.present == 0) ≡ true → target e virt ≡ 0
unfolding target
target-absent e virt h = rw h refl

pub target-present :
    (e : Entry) (virt : ℕ) → (e.present == 0) ≡ false → target e virt ≡ e.frame * 4096 + virt % 4096
unfolding target
target-present e virt h = rw h refl

pub walk :
    (s : Paging) (virt : ℕ)
    → ((s.directory (dir_index virt)).present == 0) ≡ false
    → (s.tables (frame_address (s.directory (dir_index virt)).frame) (table_index virt)).frame
      < 2 ^ 20
    → paging_get_physical s virt
      ≡ target
          (s.tables (frame_address (s.directory (dir_index virt)).frame) (table_index virt))
          virt
unfolding paging_get_physical target
walk s virt p h =
    let e = s.tables (frame_address (s.directory (dir_index virt)).frame) (table_index virt) in
    rw p (rw (join_lem e.frame virt h) refl)

pub unmapped :
    (s : Paging) (virt : ℕ)
    → ((s.directory (dir_index virt)).present == 0) ≡ true
    → paging_get_physical s virt ≡ 0
unfolding paging_get_physical
unmapped s virt p = rw p refl

-- The address of another page reaches another table entry.
miss_lem :
    (s : Paging) (virt table : ℕ)
    → IsValid s
    → virt < 2 ^ 32
    → ((s.directory (dir_index virt)).present == 0) ≡ false
    → frame_address (s.directory (dir_index virt)).frame ≡ table
    → (w : ℕ) → w < 2 ^ 32
    → ((s.directory (dir_index w)).present == 0) ≡ false
    → w / 4096 ≢ virt / 4096
    → ((frame_address (s.directory (dir_index w)).frame == table)
        && (table_index w == table_index virt))
      ≡ false
miss_lem s virt table v small p at w lt there other =
    elim (Bool-cases (frame_address (s.directory (dir_index w)).frame == table)) [
      | inl same ↦
          let d : dir_index w ≡ dir_index virt =
            v.apart (dir_index w) (dir_index virt) (omega arith) (omega arith) there p
              ((==_iff _ _).0 same ∙ sym at) in
          let ne : table_index w ≢ table_index virt =
            λ e. other (omega (arith, d, e, table_index_lem w, table_index_lem virt)) in
          let t : (table_index w == table_index virt) ≡ false = ground (arith, ne) in
          rw same (rw t refl)
      | inr differ ↦ rw differ refl
    ]

-- A write of one table entry changes the translation of one page.
pub record Writes (s : Paging) (virt : ℕ) (e : Entry) (s' : Paging) : Type 0 where
  pub valid : IsValid s'
  pub here : (v : ℕ) → v / 4096 ≡ virt / 4096 → paging_get_physical s' v ≡ target e v
  pub elsewhere :
      (v : ℕ)
      → v < 2 ^ 32
      → v / 4096 ≢ virt / 4096
      → paging_get_physical s' v ≡ paging_get_physical s v

pub put_entry-Writes :
    (s : Paging) (virt table : ℕ) (e : Entry)
    → IsValid s
    → virt < 2 ^ 32
    → ((s.directory (dir_index virt)).present == 0) ≡ false
    → frame_address (s.directory (dir_index virt)).frame ≡ table
    → e.frame < 2 ^ 20
    → Writes s virt e (put_entry s table (table_index virt) e)
put_entry-Writes s virt table e v small p at h =
    let s' = put_entry s table (table_index virt) e in
    let hit : ((frame_address (s.directory (dir_index virt)).frame == table)
          && (table_index virt == table_index virt))
        ≡ true =
      rw at (rw (==_refl table) (==_refl (table_index virt))) in
    let frames : (t j : ℕ) → (s'.tables t j).frame < 2 ^ 20 = λ t j.
      elim (Bool-cases ((t == table) && (j == table_index virt))) [
        | inl hit ↦ rw hit h
        | inr miss ↦ rw miss (v.frames t j)
      ] in
    record {
      valid = record {
        aligned = v.aligned;
        real = v.real;
        in_memory = v.in_memory;
        handed_out = v.handed_out;
        used = v.used;
        apart = v.apart;
        frames = frames;
      };
      here = λ w same.
          let d : dir_index w ≡ dir_index virt = omega (arith, same) in
          let t : table_index w ≡ table_index virt =
            omega (arith, same, table_index_lem w, table_index_lem virt) in
          walk s' w (rw d p) (frames _ _) ∙ rw d (rw t (rw hit refl));
      elsewhere = λ w lt other. elim (Bool-cases ((s.directory (dir_index w)).present == 0)) [
        | inl none_there ↦ unmapped s' w none_there ∙ sym (unmapped s w none_there)
        | inr there ↦
            let miss : ((frame_address (s.directory (dir_index w)).frame == table)
                  && (table_index w == table_index virt))
                ≡ false =
              miss_lem s virt table v small p at w lt there other in
            walk s' w there (frames _ _) ∙ rw miss (sym (walk s w there (v.frames _ _)))
      ];
    }
