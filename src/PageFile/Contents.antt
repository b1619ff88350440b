-- ===== src/PageFile/Contents.antt =====
-- kern/disk/pagefile_manager.c: what the pages in the page file hold, over a disk that works.
use fos_operational_system_f.Common.{
  ℕ, ◌+◌, ◌*◌, ◌%◌, ◌^◌, ◌<◌, ◌≤◌, ◌≡◌, ◌≢◌, ◌⊎◌, refl, sym, ap, ◌∙◌, subst, inl, inr, true, Option,
  none, some, [], arith, ◌==◌, if◌then◌else◌, eq→==, ne→==,
}
use native.Mathlib.Decide.{ℕ_discrete}
use fos_operational_system_f.Common.Ends.{Returns, Returns-bind}
use fos_operational_system_f.Mmu.{page_size, set_bit, perm_used}
use fos_operational_system_f.Frames.State.{slot}
use fos_operational_system_f.Frames.Map.{KernelHeap}
use fos_operational_system_f.PageFile.State.{
  Ide, PageFile, user_top, is_mapped, frame_at, pages_per_file, write_disk_page,
  e_no_page_file_space, mark_read,
}
use fos_operational_system_f.PageFile.Pages.{get_dfn, pf_add_env_page}
use fos_operational_system_f.PageFile.Valid.{FileValid}
use fos_operational_system_f.PageFile.Calls.{set_disk-FileValid}
use fos_operational_system_f.PageFile.Placed.{GivesPages, Placed, Full, get_dfn_lem}

abbrev pub sector : ℕ → ℕ
sector dfn = (40960 + dfn * 8) % 2 ^ 32

-- A disk that never fails: `contents` is what the eight sectors from one on hold.
pub record IsReliable (D : Ide) : Type 0 where
  pub contents : D.State → ℕ → ℕ
  pub reads : (s : ℕ) (d : D.State) (old : ℕ) → D.ide_read s d old ≡ (0, contents d s)
  pub succeeds : (s b : ℕ) (d : D.State) → (D.ide_write s b d).0 ≡ 0
  pub writes : (s b : ℕ) (d : D.State) → contents (D.ide_write s b d).1 s ≡ b
  pub keeps :
      (s t b : ℕ) (d : D.State)
      → (s + 8 ≤ t) ⊎ (t + 8 ≤ s)
      → contents (D.ide_write s b d).1 t ≡ contents d t

-- What the page file holds for each page of each process.
unfoldable pub view : {D : Ide} → IsReliable D → PageFile D.State → ℕ → Option ℕ
view r p s = if p.page_dfns s == 0 then none else some (r.contents p.disk (sector (p.page_dfns s)))

-- Two places that hold frames are eight sectors apart, or are one place.
sector_apart :
    (a b : ℕ)
    → a < pages_per_file
    → b < pages_per_file
    → a ≢ b
    → (sector a + 8 ≤ sector b) ⊎ (sector b + 8 ≤ sector a)
sector_apart a b la lb n = ground (arith, la, lb, n)

abbrev pub entry_at : {S : Type 0} → ℕ → PageFile S → ℕ
entry_at x p = p.memory.entries (slot p.cr3 x)

-- An entry as it was, or with its used bit set.
abbrev pub IsRead : ℕ → ℕ → Type 0
IsRead old new = (new ≡ old) ⊎ (new ≡ set_bit perm_used old)

-- Reading a page leaves the pages where they are.
mark_read-entry :
    {S : Type 0} (src x : ℕ) (p : PageFile S) → IsRead (entry_at x p) (entry_at x (mark_read src p))
mark_read-entry src x p = elim (ℕ_discrete (slot p.cr3 src) (slot p.cr3 x)) [
  | yes h ↦ inr (ground (arith, ap p.memory.entries h))
  | no n ↦ inl (ground (arith, n))
]

mark_read-mapped :
    {S : Type 0} (src x : ℕ) (p : PageFile S)
    → is_mapped x p ≡ true
    → is_mapped x (mark_read src p) ≡ true
unfolding is_mapped
mark_read-mapped src x p h = elim (ℕ_discrete (slot p.cr3 src) (slot p.cr3 x)) [
  | yes k ↦ ground (arith, h, ap p.memory.entries k)
  | no n ↦ ground (arith, h, n)
]

module _ (D : Ide) (r : IsReliable D) (K : KernelHeap) (G : GivesPages K page_size)
    (e va src : ℕ) where
  -- What pf_add_env_page yields: the page holds what the page at `src` holds, or there is no frame.
  pub record Added (p : PageFile D.State) (a : ℕ × PageFile D.State) : Type 0 where
    pub code : a.0 ≡ 0
    pub valid : FileValid a.1
    pub views :
        (s : ℕ)
        → view r a.1 s ≡ (if slot e va == s then some (p.bytes (frame_at src p)) else view r p s)
    pub directory : (f : ℕ) → (a.1.envs f).env_page_directory ≡ (p.envs f).env_page_directory
    pub cr3 : a.1.cr3 ≡ p.cr3
    pub mapped : (x : ℕ) → is_mapped x p ≡ true → is_mapped x a.1 ≡ true
    pub entries : (x : ℕ) → is_mapped x p ≡ true → IsRead (entry_at x p) (entry_at x a.1)

  write_lem :
      (p : PageFile D.State) (b : ℕ × ℕ × PageFile D.State)
      → FileValid p
      → is_mapped src p ≡ true
      → Placed e va p b
      → Returns (Added p) (write_disk_page D b.1 src b.2)
  unfolding write_disk_page view is_mapped
  write_lem p b v h w =
      let own : b.2.page_dfns (slot e va) ≡ b.1 = ground (arith, w.pages (slot e va)) in
      let byte : b.2.bytes (frame_at src b.2) ≡ p.bytes (frame_at src p) =
        rw (w.bytes, w.entry src h) refl in
      rw (w.mapped src h, r.succeeds)
        (
          _,
          refl,
          record {
            code = refl;
            valid = set_disk-FileValid b.2 _ _ _ w.valid;
            directory = w.directory;
            cr3 = w.cr3;
            mapped = λ x k. mark_read-mapped src x b.2 (w.mapped x k);
            entries = λ x k.
                subst (λ e. IsRead e (entry_at x (mark_read src b.2))) (w.entry x k)
                  (mark_read-entry src x b.2);
            views = λ s. elim (ℕ_discrete (slot e va) s) [
              | yes q ↦
                  let here : b.2.page_dfns s ≡ b.1 = ground (arith, w.pages s, q) in
                  rw (eq→== _ s q, here, ne→== b.1 0 w.some_frame)
                    (ap some (r.writes (sector b.1) _ b.2.disk ∙ byte))
              | no n ↦
                  let same : b.2.page_dfns s ≡ p.page_dfns s = ground (arith, w.pages s, n) in
                  rw (ne→== _ s n, same)
                    (elim (ℕ_discrete (p.page_dfns s) 0) [
                      | yes z ↦ rw z refl
                      | no m ↦
                          let apart =
                            sector_apart b.1 (p.page_dfns s)
                              (rw own at (w.valid.partition.page_real (slot e va)))
                              (v.partition.page_real s)
                              (λ k. n (
                                w.valid.partition.page_single (slot e va) s (rw own w.some_frame)
                                  (own ∙ k ∙ sym same))) in
                          rw
                            (
                              ne→== _ 0 m,
                              r.keeps (sector b.1) (sector (p.page_dfns s)) _ b.2.disk apart,
                              w.disk,
                            )
                            refl
                    ])
            ];
          },
        )

  -- Adding a page to a valid page file, from memory that is mapped, while the heap has room for two
  -- pages and the disk works: either the page is there afterwards with the content of the memory, and
  -- every other page is as it was, or no disk frame is left, which is what the code says, and
  -- nothing in the page file has changed.
  pub pf_add_env_page_lem :
      (p : PageFile D.State)
      → FileValid p
      → is_mapped src p ≡ true
      → va < user_top
      → G.Room 2 p.memory
      → Returns
          (λ a.
            Added p a
            ⊎ ((a.0 ≡ e_no_page_file_space)
                × (p.disk_free_frame_list ≡ [])
                × ((s : ℕ) → view r a.1 s ≡ view r p s)))
          (pf_add_env_page D K e va src p)
  unfolding pf_add_env_page view
  pf_add_env_page_lem p v h lt room =
      Returns-bind (λ b. Placed e va p b ⊎ Full e va p b) _ (get_dfn K e va p) _
        (get_dfn_lem K G e va p v lt room)
        λ b c. elim c [
          | inl w ↦ let (a, k, d) = write_lem p b v h w in rw w.code (a, k, inl d)
          | inr f ↦
              rw f.code (_, refl, inr (refl, f.full, λ s. rw (f.same.pages s, f.same.disk) refl))
        ]
