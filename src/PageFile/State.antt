-- ===== src/PageFile/State.antt =====
-- kern/disk/pagefile_manager.h, kern/disk/pagefile_manager.c: the state of the page file, and the
-- transfers between disk and memory.
use fos_operational_system_f.Common.{
  ℕ, ◌+◌, ◌*◌, ◌%◌, ◌^◌, ◌&&◌, Bool, List, ◌==◌, if◌then◌else◌, update,
}
use fos_operational_system_f.Common.Outcome.{Outcome, ok, leaves, panic, fault}
use fos_operational_system_f.Mmu.{
  has_bit, set_bit, perm_present, perm_writeable, perm_used, perm_modified,
}
use fos_operational_system_f.Frames.State.{Memory, slot, pdx, set_entry}
use fos_operational_system_f.Frames.Table.{entry_frame}

-- The disk driver, which is not a part of the repository. The content of a page, or of the sectors
-- that hold one, is a number. `ide_read` is given the old content of the page, and yields the
-- return code and the content after it.
pub record Ide : Type 1 where
  pub State : Type 0
  pub ide_read : ℕ → State → ℕ → ℕ × ℕ
  pub ide_write : ℕ → ℕ → State → ℕ × State

-- The fields of `struct Env` that the page file works on. An address of 0 is NULL.
pub record DiskEnv : Type 0 where
  pub env_page_directory : ℕ
  pub disk_env_pgdir : ℕ
  pub disk_env_tabledir : ℕ
  pub init_num_stack_pages : ℕ
  pub n_page_in : ℕ
  pub n_page_out : ℕ
  pub n_new_page_added : ℕ

-- `bytes` is the content of each frame, and `cr3` the directory that the CPU translates by.
-- The entry of a disk page directory stands in `disk_tables` at `table_slot env va`: the kernel
-- address of the table, which the code reads back from the physical one. The entry of a disk page
-- table stands in `page_dfns` at `slot env va`, and counts only where there is the table; that of a
-- disk table directory stands in `table_dfns` at `table_slot env va`.
-- The lock of the free list is left out: each function takes and drops it round its body.
pub record PageFile (S : Type 0) : Type 0 where
  pub memory : Memory
  pub bytes : ℕ → ℕ
  pub cr3 : ℕ
  pub disk : S
  pub disk_free_frame_list : List ℕ
  pub envs : ℕ → DiskEnv
  pub disk_tables : ℕ → ℕ
  pub page_dfns : ℕ → ℕ
  pub table_dfns : ℕ → ℕ

abbrev pub table_slot : ℕ → ℕ → ℕ
table_slot env va = env * 1024 + pdx va

abbrev pub page_file_start_sector : ℕ
page_file_start_sector = 40960

abbrev pub pages_per_file : ℕ
pages_per_file = 133120

abbrev pub user_top : ℕ
user_top = 0xEEC00000

abbrev pub kernel_base : ℕ
kernel_base = 0xF0000000

-- Error codes, as the unsigned numbers of 32 bits that they are.
abbrev pub e_no_page_file_space : ℕ
e_no_page_file_space = 0xFFFFFFF8

abbrev pub e_page_not_exist_in_pf : ℕ
e_page_not_exist_in_pf = 0xFFFFFFF7

abbrev pub e_table_not_exist_in_pf : ℕ
e_table_not_exist_in_pf = 0xFFFFFFF6

abbrev pub e_no_vm : ℕ
e_no_vm = 0xFFFFFFEC

-- A call of the memory manager or the kernel heap.
abbrev pub lift_to : {S A : Type 0} → PageFile S → Outcome Memory A → Outcome (PageFile S) A
lift_to p (ok a) = ok a
lift_to p (leaves e m) = leaves e (record p { memory = m })
lift_to p panic = panic
lift_to p fault = fault

abbrev pub set_memory : {S : Type 0} → PageFile S → Memory → PageFile S
set_memory p m = record p { memory = m }

abbrev pub set_env : {S : Type 0} → PageFile S → ℕ → DiskEnv → PageFile S
set_env p e x = record p { envs = update p.envs e x }

-- Does the CPU translate the address?
unfoldable pub is_mapped : {S : Type 0} → ℕ → PageFile S → Bool
is_mapped va p =
    p.memory.has_table p.cr3 (pdx va) && has_bit perm_present (p.memory.entries (slot p.cr3 va))

-- The frame of a mapped page.
abbrev pub frame_at : {S : Type 0} → ℕ → PageFile S → ℕ
frame_at va p = entry_frame (p.memory.entries (slot p.cr3 va))

-- What the CPU does to the entry of a page that it reads, and of one that it writes.
abbrev pub mark_read : {S : Type 0} → ℕ → PageFile S → PageFile S
mark_read va p =
    let s = slot p.cr3 va in
    set_memory p (set_entry p.memory s (set_bit perm_used (p.memory.entries s)))

abbrev pub mark_written : {S : Type 0} → ℕ → PageFile S → PageFile S
mark_written va p =
    let s = slot p.cr3 va in
    set_memory p
      (set_entry p.memory s (set_bit perm_modified (set_bit perm_used (p.memory.entries s))))

module _ (D : Ide) where
  -- read_disk_page, with `va` at a page boundary. A page fault of the kernel itself is not followed.
  unfoldable pub read_disk_page :
      ℕ → ℕ → PageFile D.State → Outcome (PageFile D.State) (ℕ × PageFile D.State)
  read_disk_page dfn va p =
      let s = (page_file_start_sector + dfn * 8) % 2 ^ 32 in
      let f = frame_at va p in
      let r = D.ide_read s p.disk (p.bytes f) in
      if is_mapped va p && has_bit perm_writeable (p.memory.entries (slot p.cr3 va))
      then ok (r.0, record (mark_written va p) { bytes = update p.bytes f r.1 })
      else fault

  -- The end of write_disk_page, with the driver's answer.
  abbrev pub after_write :
      ℕ → PageFile D.State → ℕ × D.State → Outcome (PageFile D.State) (ℕ × PageFile D.State)
  after_write va p r = if r.0 == 0 then ok (0, record (mark_read va p) { disk = r.1 }) else panic

  unfoldable pub write_disk_page :
      ℕ → ℕ → PageFile D.State → Outcome (PageFile D.State) (ℕ × PageFile D.State)
  write_disk_page dfn va p =
      let s = (page_file_start_sector + dfn * 8) % 2 ^ 32 in
      if is_mapped va p
      then after_write va p (D.ide_write s (p.bytes (frame_at va p)) p.disk)
      else fault
