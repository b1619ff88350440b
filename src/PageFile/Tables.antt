-- ===== src/PageFile/Tables.antt =====
-- kern/disk/pagefile_manager.c: giving back all that a process has in the page file, counting it,
-- and the page tables that are kept there.
use fos_operational_system_f.Common.{
  ℕ, zero, suc, ◌+◌, ◌*◌, ◌/◌, ◌||◌, Option, none, some, ◌==◌, ltb, if◌then◌else◌, update, length,
}
use fos_operational_system_f.Common.Outcome.{Outcome, ok, fault, ◌>>=◌, assert_then}
use fos_operational_system_f.Mmu.{page_size}
use fos_operational_system_f.Frames.Map.{KernelHeap}
use fos_operational_system_f.PageFile.State.{
  Ide, PageFile, table_slot, kernel_base, e_no_page_file_space, e_table_not_exist_in_pf, e_no_vm,
  lift_to, set_memory, set_env, read_disk_page, write_disk_page,
}
use fos_operational_system_f.PageFile.Pages.{allocate_disk_frame, free_disk_frame}

-- PDX(USER_TOP)
abbrev pub user_tables : ℕ
user_tables = 955

module _ {S : Type 0} where
  -- The rounds of the loop over a disk page table, from the entry at `s` on.
  unfoldable pub free_entries : ℕ → ℕ → PageFile S → Outcome (PageFile S) (PageFile S)
  free_entries s zero p = ok p
  free_entries s (suc left) p =
      free_disk_frame (p.page_dfns s) (record p { page_dfns = update p.page_dfns s 0 })
      >>= free_entries (s + 1) left

  unfoldable pub count_entries : ℕ → ℕ → PageFile S → ℕ
  count_entries s zero p = 0
  count_entries s (suc left) p =
      if p.page_dfns s == 0
      then count_entries (s + 1) left p
      else suc (count_entries (s + 1) left p)

  -- The rounds of the loop over a disk page directory, from the table at `t` on.
  unfoldable pub count_tables : ℕ → ℕ → PageFile S → ℕ
  count_tables t zero p = 0
  count_tables t (suc left) p =
      if p.disk_tables t == 0
      then count_tables (t + 1) left p
      else count_entries (t * 1024) 1024 p + count_tables (t + 1) left p

  unfoldable pub pf_calculate_allocated_pages : ℕ → PageFile S → Outcome (PageFile S) ℕ
  pf_calculate_allocated_pages e p =
      if (p.envs e).disk_env_pgdir == 0 then fault else ok (count_tables (e * 1024) user_tables p)

  unfoldable pub pf_calculate_free_frames : PageFile S → ℕ
  pf_calculate_free_frames p = length p.disk_free_frame_list

  -- The rounds of the loop over a disk table directory.
  unfoldable pub free_table_entries : ℕ → ℕ → PageFile S → Outcome (PageFile S) (PageFile S)
  free_table_entries t zero p = ok p
  free_table_entries t (suc left) p =
      free_disk_frame (p.table_dfns t) (record p { table_dfns = update p.table_dfns t 0 })
      >>= free_table_entries (t + 1) left

  unfoldable pub pf_remove_env_all_tables : ℕ → PageFile S → Outcome (PageFile S) (PageFile S)
  pf_remove_env_all_tables e p =
      if (p.envs e).disk_env_tabledir == 0
      then ok p
      else free_table_entries (e * 1024) user_tables p

  unfoldable pub pf_remove_env_table : ℕ → ℕ → PageFile S → Outcome (PageFile S) (PageFile S)
  pf_remove_env_table e va p =
      let t = table_slot e va in
      if (p.envs e).disk_env_tabledir == 0
      then ok p
      else free_disk_frame (p.table_dfns t) (record p { table_dfns = update p.table_dfns t 0 })

  unfoldable pub new_table_directory : ℕ → ℕ → PageFile S → PageFile S
  new_table_directory e a p = record (set_env p e (record (p.envs e) { disk_env_tabledir = a })) {
    table_dfns = λ t. if t / 1024 == e then 0 else p.table_dfns t;
  }

module _ {S : Type 0} (K : KernelHeap) where
  abbrev pub kfree_in : ℕ → PageFile S → Outcome (PageFile S) (PageFile S)
  kfree_in a p = lift_to p (K.kfree a p.memory) >>= λ m. ok (set_memory p m)

  -- A round of the outer loop of pf_free_env.
  unfoldable pub free_table : ℕ → PageFile S → Outcome (PageFile S) (PageFile S)
  free_table t p =
      if p.disk_tables t == 0
      then ok p
      else free_entries (t * 1024) 1024 p >>= λ q.
          kfree_in (p.disk_tables t) (record q { disk_tables = update q.disk_tables t 0 })

  unfoldable pub free_tables : ℕ → ℕ → PageFile S → Outcome (PageFile S) (PageFile S)
  free_tables t zero p = ok p
  free_tables t (suc left) p = free_table t p >>= free_tables (t + 1) left

  -- The end of pf_free_env, which is about the page tables.
  unfoldable pub free_table_directory : ℕ → PageFile S → Outcome (PageFile S) (PageFile S)
  free_table_directory e p =
      if (p.envs e).disk_env_tabledir == 0
      then ok p
      else pf_remove_env_all_tables e p >>= λ q. kfree_in (q.envs e).disk_env_tabledir q >>= λ r.
          ok (set_env r e (record (r.envs e) { disk_env_tabledir = 0 }))

  -- pf_free_env; without a disk page directory it follows a null pointer.
  unfoldable pub pf_free_env : ℕ → PageFile S → Outcome (PageFile S) (PageFile S)
  pf_free_env e p =
      if (p.envs e).disk_env_pgdir == 0
      then fault
      else free_tables (e * 1024) user_tables p >>= λ q.
          kfree_in (q.envs e).disk_env_pgdir q >>= λ r.
          free_table_directory e (set_env r e (record (r.envs e) { disk_env_pgdir = 0 }))

  -- get_disk_table_directory, whose result its caller puts in disk_env_tabledir.
  unfoldable pub get_disk_table_directory : ℕ → PageFile S → Outcome (PageFile S) (ℕ × PageFile S)
  get_disk_table_directory e p =
      if (p.envs e).disk_env_tabledir == 0
      then (lift_to p (K.kmalloc page_size p.memory) >>= λ r.
          if r.0 == 0
          then ok (e_no_vm, set_memory p r.1)
          else ok (0, new_table_directory e r.0 (set_memory p r.1)))
      else ok (0, p)

module _ (D : Ide) where
  -- Taking a disk frame for the table, and writing it.
  abbrev pub put_table :
      ℕ
      → ℕ
      → PageFile D.State
      → Option (ℕ × PageFile D.State)
      → Outcome (PageFile D.State) (ℕ × PageFile D.State)
  put_table t src p none = ok (e_no_page_file_space, p)
  put_table t src p (some (d, q)) =
      write_disk_page D d src (record q { table_dfns = update q.table_dfns t d })

  -- The end of __pf_write_env_table, with the directory there or not.
  unfoldable pub write_table :
      ℕ → ℕ → ℕ → PageFile D.State → Outcome (PageFile D.State) (ℕ × PageFile D.State)
  write_table e va src p =
      let t = table_slot e va in
      if (p.envs e).disk_env_tabledir == 0
      then fault
      else if p.table_dfns t == 0
      then put_table t src p (allocate_disk_frame p)
      else write_disk_page D (p.table_dfns t) src p

  -- __pf_write_env_table
  unfoldable pub pf_write_env_table :
      KernelHeap → ℕ → ℕ → ℕ → PageFile D.State → Outcome (PageFile D.State) (ℕ × PageFile D.State)
  pf_write_env_table K e va src p =
      assert_then (ltb va kernel_base)
        (get_disk_table_directory K e p >>= λ a. write_table e va src a.1)

  -- __pf_read_env_table
  unfoldable pub pf_read_env_table :
      ℕ → ℕ → ℕ → PageFile D.State → Outcome (PageFile D.State) (ℕ × PageFile D.State)
  pf_read_env_table e va dst p =
      let dfn = p.table_dfns (table_slot e va) in
      if ((p.envs e).disk_env_tabledir == 0) || (dfn == 0)
      then ok (e_table_not_exist_in_pf, p)
      else read_disk_page D dfn dst p
