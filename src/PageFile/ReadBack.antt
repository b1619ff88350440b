-- ===== src/PageFile/ReadBack.antt =====
-- kern/disk/pagefile_manager.c: a page that is read back has the content that was put in the page
-- file.
use fos_operational_system_f.Common.{
  ℕ, ◌-◌, ◌/◌, ◌%◌, ◌^◌, ◌<◌, ◌≡◌, ◌≢◌, refl, sym, ap, ◌∙◌, inl, inr, true, false, some, [], arith,
  leb, ne→==,
}
use fos_operational_system_f.Common.Outcome.{◌>>=◌}
use fos_operational_system_f.Common.Ends.{Returns, Returns-bind}
use fos_operational_system_f.Mmu.{
  page_size, has_bit, set_bit, perm_present, perm_used, perm_writeable, perm_modified, rounddown,
}
use fos_operational_system_f.Frames.State.{slot, pdx}
use fos_operational_system_f.Frames.Table.{
  pt_set_page_permissions, entry_frame, bits_or, bits_clear,
}
use fos_operational_system_f.Frames.Bits.{
  bits_or_none, bit_at-bits_clear, bit_at_zero, frame_bits_clear,
}
use fos_operational_system_f.Frames.Map.{KernelHeap}
use fos_operational_system_f.PageFile.State.{
  Ide, PageFile, table_slot, user_top, is_mapped, frame_at, read_disk_page,
}
use fos_operational_system_f.PageFile.Pages.{
  get_disk_page_table, read_dfn, read_page, pf_read_env_page, pf_add_env_page,
}
use fos_operational_system_f.PageFile.Valid.{FileValid}
use fos_operational_system_f.PageFile.Contents.{
  IsReliable, sector, view, Added, pf_add_env_page_lem,
}
use fos_operational_system_f.PageFile.Placed.{GivesPages}

-- The kernel runs in the process's address space, and the process has a writeable page at `a`.
pub record CanRead {S : Type 0} (e a : ℕ) (p : PageFile S) : Type 0 where
  pub current : (p.envs e).env_page_directory ≡ p.cr3
  pub mapped : is_mapped a p ≡ true
  pub writeable : has_bit perm_writeable (p.memory.entries (slot p.cr3 a)) ≡ true
  pub start : a % page_size ≡ 0
  pub word : p.memory.entries (slot p.cr3 a) < 2 ^ 32
  pub user : a < user_top

-- The page at `a` stays mapped to its frame.
pub record Stays {S : Type 0} (a : ℕ) (p q : PageFile S) : Type 0 where
  pub still_mapped : is_mapped a q ≡ true
  pub same_frame : frame_at a q ≡ frame_at a p
  pub same_memory : q.memory ≡ record p.memory { entries = q.memory.entries }
  pub other_entries : (x : ℕ) → x ≢ slot p.cr3 a → q.memory.entries x ≡ p.memory.entries x

-- The entry of a page that the kernel has written, with the modified bit taken off.
written_entry :
    (e : ℕ)
    → e < 2 ^ 32
    → has_bit perm_present e ≡ true
    → (entry_frame
          (bits_clear 32 (bits_or 32 (set_bit perm_modified (set_bit perm_used e)) 0) perm_modified)
        ≡ entry_frame e)
      × (has_bit perm_present (
            bits_clear 32
              (bits_or 32 (set_bit perm_modified (set_bit perm_used e)) 0)
              perm_modified)
          ≡ true)
written_entry e lt h =
    let w = set_bit perm_modified (set_bit perm_used e) in
    let small : w < 2 ^ 32 = ground (arith, lt) in
    let plain = bits_or_none 32 w small in
    let bit = bit_at-bits_clear 32 0 w perm_modified (omega arith) in
    (
      ap (λ k. entry_frame (bits_clear 32 k perm_modified)) plain
          ∙ frame_bits_clear w perm_modified small (omega arith)
          ∙ ground (arith, lt),
      ap (λ k. has_bit perm_present (bits_clear 32 k perm_modified)) plain
          ∙ ground (
            arith,
            h,
            bit,
            bit_at_zero w,
            bit_at_zero (bits_clear 32 w perm_modified),
            bit_at_zero perm_modified,
          ),
    )

module _ (D : Ide) (r : IsReliable D) (e a : ℕ) where
  read_dfn_lem :
      (dfn : ℕ) (p : PageFile D.State)
      → CanRead e a p
      → Returns
          (λ q.
            (q.0 ≡ 0) × (q.1.bytes (frame_at a p) ≡ r.contents p.disk (sector dfn)) × Stays a p q.1)
          (read_dfn D e a dfn p)
  unfolding read_dfn read_disk_page pt_set_page_permissions is_mapped
  read_dfn_lem dfn p c =
      let table : p.memory.has_table p.cr3 (pdx a) ≡ true = ground (arith, c.mapped) in
      let written =
        written_entry (p.memory.entries (slot p.cr3 a)) c.word (ground (arith, c.mapped)) in
      rw (c.mapped, c.writeable, r.reads, c.current, table)
        (
          _,
          refl,
          (
            refl,
            ground arith,
            record {
              still_mapped = ground (arith, table, written.1);
              same_frame = ground (arith, written.0);
              same_memory = refl;
              other_entries = λ x ne. ground (arith, ne);
            },
          ),
        )

  -- A page that the page file has.
  pub read_page_lem :
      (K : KernelHeap) (b : ℕ) (p : PageFile D.State)
      → FileValid p
      → CanRead e a p
      → view r p (slot e a) ≡ some b
      → Returns
          (λ q. (q.0 ≡ 0) × (q.1.bytes (frame_at a p) ≡ b) × Stays a p q.1)
          (read_page D K e a p)
  unfolding read_page get_disk_page_table view
  read_page_lem K b p v c h =
      let some_frame : p.page_dfns (slot e a) ≢ 0 = λ z. ground (arith, h, z) in
      let at : slot e a / 1024 ≡ table_slot e a = omega arith in
      let own : table_slot e a / 1024 ≡ e = omega (arith, c.user) in
      let table : p.disk_tables (table_slot e a) ≢ 0 = rw at at (v.held (slot e a) some_frame) in
      let root : (p.envs e).disk_env_pgdir ≢ 0 = rw own at (v.rooted (table_slot e a) table) in
      let low : leb user_top a ≡ false = ground (arith, c.user) in
      let (q, k, d) = read_dfn_lem (p.page_dfns (slot e a)) p c in
      let (z, w, stays) = d in
      rw (ne→== _ 0 root, ne→== _ 0 table, low, ne→== _ 0 table, ne→== _ 0 some_frame, k)
        (q, refl, (z, ground (arith, h, w, ne→== _ 0 some_frame), stays))

module _ (D : Ide) (r : IsReliable D) (K : KernelHeap) (G : GivesPages K page_size)
    (e a src : ℕ) where
  Added-CanRead :
      (p : PageFile D.State) (q : ℕ × PageFile D.State)
      → CanRead e a p
      → Added D r K G e a src p q
      → CanRead e a q.1
  Added-CanRead p q c w = record {
    current = w.directory e ∙ c.current ∙ sym w.cr3;
    mapped = w.mapped a c.mapped;
    writeable = ground (arith, w.entries a c.mapped, c.writeable);
    start = c.start;
    word = ground (arith, w.entries a c.mapped, c.word);
    user = c.user;
  }

  -- pf_add_env_page and then pf_read_env_page: with a free disk frame left, room for two pages in
  -- the heap and a disk that works, the page of the process holds what was added, whatever it held before.
  pub pf_read_env_page-pf_add_env_page :
      (p : PageFile D.State)
      → FileValid p
      → CanRead e a p
      → is_mapped src p ≡ true
      → p.disk_free_frame_list ≢ []
      → G.Room 2 p.memory
      → Returns
          (λ q. (q.0 ≡ 0) × (q.1.bytes (frame_at a p) ≡ p.bytes (frame_at src p)))
          (pf_add_env_page D K e a src p >>= λ q. pf_read_env_page D K e a q.1)
  unfolding pf_read_env_page rounddown
  pf_read_env_page-pf_add_env_page p v c h free room =
      let start : a - a % page_size ≡ a = omega (arith, c.start) in
      Returns-bind _ _ (pf_add_env_page D K e a src p) _
        (pf_add_env_page_lem D r K G e a src p v h c.user room)
        λ q w. elim w [
          | inl w ↦
              let (b, k, d) =
                read_page_lem D r e a K (p.bytes (frame_at src p)) q.1 w.valid
                  (Added-CanRead p q c w) (ground (arith, w.views (slot e a))) in
              rw start (b, k, (d.0, ground (arith, d.1, w.entries a c.mapped)))
          | inr f ↦ absurd (free f.1)
        ]
