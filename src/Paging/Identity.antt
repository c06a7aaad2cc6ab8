-- ===== src/Paging/Identity.antt =====
-- `paging_init`: the first 16 MB are mapped to themselves.
use zenix.Prelude.{
  ℕ, zero, suc, ◌+◌, ◌*◌, ◌/◌, ◌%◌, ◌^◌, ◌≤◌, ◌<◌, ◌≡◌, refl, subst, ◌∙◌, ◌≢◌, inl, inr, Bool, true,
  false, arith, ltb, ◌==◌, if◌then◌else◌, ltb→lt, ltb→ge, lt→ltb, ==_iff, Bool-cases,
}
use zenix.Pmm.{Pmm, pmm_alloc_page}
use zenix.Paging.{
  find_table, alloc_page_table, Entry, Paging, page_present, page_write, dir_index, clear_entry,
  paging_map_page, paging_get_physical, identity_map, paging_init,
}
use zenix.Paging.Walk.{IsValid}
use zenix.Paging.Maps.{Room, map_lem, map_tables}

-- The addresses below `from` are mapped to themselves, with one page table for each 4 MB begun.
record Mapped (from : ℕ) (s : Paging) : Type 0 where
  valid : IsValid s
  taken : s.next_table_index ≤ (from + 4194303) / 4194304
  open_dir : from % 4194304 ≢ 0 → ((s.directory (dir_index from)).present == 0) ≡ false
  identity : (a : ℕ) → a < from → paging_get_physical s a ≡ a

Mapped-Room : (from : ℕ) (s : Paging) → from < 2 ^ 24 → Mapped from s → Room s from
Mapped-Room from s h m = inr (omega (arith, m.taken))

Mapped-step :
    (from : ℕ) (s : Paging)
    → from < 2 ^ 24
    → from % 4096 ≡ 0
    → Mapped from s
    → Mapped (from + 4096) (paging_map_page s from from (page_present + page_write))
Mapped-step from s h al m =
    let room = Mapped-Room from s h m in
    let (valid, here, elsewhere) =
      map_lem s from from (page_present + page_write) m.valid (omega arith) (omega arith) room in
    let (opened, more, same) =
      map_tables s from from (page_present + page_write) m.valid (omega arith) room in
    record {
      valid = valid;
      taken = elim (Bool-cases (from % 4194304 == 0)) [
        | inl start ↦ omega (arith, more, m.taken, (==_iff _ _).0 start)
        | inr inside ↦ omega (arith, same (m.open_dir (ground (arith, inside))), m.taken)
      ];
      open_dir =
          λ ne. let d : dir_index (from + 4096) ≡ dir_index from = omega (arith, ne) in rw d opened;
      identity = λ a lt. elim (Bool-cases (ltb a from)) [
        | inl below ↦
            elsewhere a (omega arith) (λ e. absurd (ground (arith, below, e, al)))
            ∙ m.identity a (ltb→lt _ _ below)
        | inr page ↦
            here a (omega (arith, ltb→ge _ _ page, al)) ∙ omega (arith, ltb→ge _ _ page, al)
      ];
    }

identity_map-Mapped :
    (n from : ℕ) (s : Paging)
    → from + n * 4096 ≤ 2 ^ 24
    → from % 4096 ≡ 0
    → Mapped from s
    → Mapped (from + n * 4096) (identity_map n from s)
unfolding identity_map
identity_map-Mapped zero from s h al m = subst (λ f. Mapped f s) (omega arith) m
identity_map-Mapped (suc n) from s h al m =
    subst (λ f. Mapped f (identity_map (suc n) from s)) (omega arith)
      (identity_map-Mapped n (from + 4096) _ (omega arith) (omega arith)
        (Mapped-step from s (omega arith) al m))

-- What `paging_init` makes of a machine: nothing but the frame asked for, or the identity on 16 MB.
pub data Inits (m : Pmm) (s : Paging) : Bool × (Pmm × Paging) → Type 0 where
  no_frame :
      (pmm_alloc_page m).0 ≡ 0
      → Inits m s (false, ((pmm_alloc_page m).1, record s { kernel_directory = 0 }))
  enabled :
      (s' : Paging)
      → (pmm_alloc_page m).0 ≢ 0
      → IsValid s'
      → s'.next_table_index ≤ 4
      → s'.kernel_directory ≡ (pmm_alloc_page m).0
      → s'.current_directory ≡ (pmm_alloc_page m).0
      → ((a : ℕ) → a < 2 ^ 24 → paging_get_physical s' a ≡ a)
      → Inits m s (true, ((pmm_alloc_page m).1, s'))

map_directory :
    (s : Paging) (virt phys flags : ℕ)
    → (paging_map_page s virt phys flags).kernel_directory ≡ s.kernel_directory
unfolding paging_map_page find_table alloc_page_table
map_directory s virt phys flags = ground arith

identity_map-directory :
    (n from : ℕ) (s : Paging) → (identity_map n from s).kernel_directory ≡ s.kernel_directory
unfolding identity_map
identity_map-directory zero from s = refl
identity_map-directory (suc n) from s =
    identity_map-directory n (from + 4096) _ ∙ map_directory s from from _

-- The pool before the first use; the frame fields have 20 bits.
pub record Fresh (s : Paging) : Type 0 where
  pub unused : s.next_table_index ≡ 0
  pub aligned : s.page_tables % 4096 ≡ 0
  pub real : 0 < s.page_tables
  pub in_memory : s.page_tables + 256 * 4096 ≤ 2 ^ 32
  pub frames : (t j : ℕ) → (s.tables t j).frame < 2 ^ 20

cleared-Mapped :
    (s : Paging) (page : ℕ) (old : ℕ → Entry)
    → Fresh s
    → Mapped 0 (record s {
      kernel_directory = page;
      directory = λ i. if ltb i 1024 then clear_entry (old i) else old i;
    })
cleared-Mapped s page old f =
    let s1 = record s {
      kernel_directory = page;
      directory = λ i. if ltb i 1024 then clear_entry (old i) else old i;
    } in
    let off : (i : ℕ) → i < 1024 → ((s1.directory i).present == 0) ≡ true =
      λ i lt. rw (lt→ltb _ _ lt) refl in
    record {
      valid = record {
        aligned = f.aligned;
        real = f.real;
        in_memory = f.in_memory;
        handed_out = omega (arith, f.unused);
        used = λ i lt p. absurd (cc (off i lt, p));
        apart = λ i j li lj p q e. absurd (cc (off i li, p));
        frames = f.frames;
      };
      taken = omega (arith, f.unused);
      open_dir = λ ne. absurd (omega (arith, ne));
      identity = λ a lt. absurd (omega arith);
    }

same_walk :
    (s : Paging) (page a : ℕ)
    → paging_get_physical (record s { current_directory = page }) a ≡ paging_get_physical s a
unfolding paging_get_physical
same_walk s page a = refl

-- `paging_init` with an unused pool: without a frame for the directory, the null pointer, it gives up, and only the
-- pointer to the directory of the kernel is changed, to null; else the directory is in that frame, every address below 16 MB translates to itself, and at most 4 tables of the pool are taken,
-- whatever the frame held before.
pub paging_init_lem :
    (m : Pmm) (old : ℕ → Entry) (s : Paging) → Fresh s → Inits m s (paging_init m old s)
unfolding paging_init
paging_init_lem m old s f = elim (Bool-cases ((pmm_alloc_page m).0 == 0)) [
  | inl z ↦ rw z (no_frame ((==_iff _ _).0 z))
  | inr nz ↦
      let page = (pmm_alloc_page m).0 in
      let s1 = record s {
        kernel_directory = page;
        directory = λ i. if ltb i 1024 then clear_entry (old i) else old i;
      } in
      let r =
        identity_map-Mapped 4096 0 s1 (omega arith) (omega arith) (cleared-Mapped s page old f) in
      let v = r.valid in
      rw nz (
        enabled _ (λ q. ground (arith, nz, q))
          (record {
            aligned = v.aligned;
            real = v.real;
            in_memory = v.in_memory;
            handed_out = v.handed_out;
            used = v.used;
            apart = v.apart;
            frames = v.frames;
          })
          (omega (arith, r.taken)) (identity_map-directory 4096 0 s1) refl
          (λ a lt. same_walk (identity_map 4096 0 s1) page a ∙ r.identity a (omega arith)))
]
