-- ===== src/PageFile/Invariant.antt =====
-- kern/disk/pagefile_manager.c: the page file is valid after boot and after any calls.
use fos_operational_system_f.Common.{
  ℕ, ◌*◌, ◌/◌, ◌<◌, ◌≡◌, ◌≢◌, Bool, ◌||◌, List, [], ◌∷◌, arith, ◌==◌, update, ==→ne, ==→eq, lt→ltb,
}
use fos_operational_system_f.Common.Outcome.{Outcome, ok, ◌>>=◌}
use fos_operational_system_f.Common.Ends.{Ends, Ends-ok, Ends-fault, Ends-bind, Ends-if}
use fos_operational_system_f.Mmu.{page_size}
use fos_operational_system_f.Frames.Map.{KernelHeap}
use fos_operational_system_f.PageFile.State.{Ide, PageFile, table_slot, user_top, set_memory}
use fos_operational_system_f.PageFile.Pages.{
  take_first, initialize_disk_page_file, free_disk_frame, pf_add_env_page, pf_add_empty_env_page,
  pf_update_env_page, pf_read_env_page, pf_remove_env_page,
}
use fos_operational_system_f.PageFile.Tables.{
  new_table_directory, get_disk_table_directory, put_table, write_table, pf_write_env_table,
  pf_read_env_table, pf_remove_env_table, pf_remove_env_all_tables, user_tables, free_table_entries,
}
use fos_operational_system_f.PageFile.Partition.{
  Partition, Partition-swap, Partition-ext, take-Partition, insert_disk_frames-Partition,
}
use fos_operational_system_f.PageFile.Valid.{FileValid}
use fos_operational_system_f.PageFile.Kept.{ValidNext, set_memory-FileValid, lift_to-FileValid}
use fos_operational_system_f.PageFile.Calls.{
  read_disk_page-FileValid, write_disk_page-FileValid, pf_add_env_page-FileValid,
  pf_add_empty_env_page-FileValid, pf_update_env_page-FileValid, pf_read_env_page-FileValid,
  pf_remove_env_page-FileValid,
}
use fos_operational_system_f.PageFile.Emptied.{
  clear_table_dfn-FileValid, free_table_dfn_lem, free_table_entries_lem,
}

module _ {S : Type 0} where
  new_table_directory-FileValid :
      (e a : ℕ) (p : PageFile S)
      → FileValid p
      → (p.envs e).disk_env_tabledir ≡ 0
      → FileValid (new_table_directory e a p)
  unfolding new_table_directory
  new_table_directory-FileValid e a p v z = record {
    partition =
        let q = new_table_directory e a p in
        let u = Partition-swap p.page_dfns p.table_dfns p.disk_free_frame_list v.partition in
        Partition-swap q.table_dfns q.page_dfns q.disk_free_frame_list (
          Partition-ext p.table_dfns q.table_dfns p.page_dfns p.disk_free_frame_list
            (λ t. ground (arith, v.table_rooted t, z)) u);
    held = v.held;
    rooted = λ t h. ground (arith, v.rooted t h);
    table_rooted = λ t h. ground (arith, v.table_rooted t, h);
    user = v.user;
    table_user = λ t h. ground (arith, v.table_user t, h);
  }

  get_disk_table_directory-FileValid :
      (K : KernelHeap) (e : ℕ) (p : PageFile S)
      → FileValid p
      → Ends FileValid ValidNext (get_disk_table_directory K e p)
  unfolding get_disk_table_directory
  get_disk_table_directory-FileValid K e p v =
      Ends-if _ _ _
        (λ z.
          Ends-bind (λ a. Unit {0}) _ _ (lift_to-FileValid p (K.kmalloc page_size p.memory) v)
            λ r _.
              Ends-if (r.0 == 0) _ _ (λ _. Ends-ok _ (set_memory-FileValid p r.1 v))
                λ _. Ends-ok _ (
                  new_table_directory-FileValid e r.0 (set_memory p r.1)
                    (set_memory-FileValid p r.1 v) (==→eq _ 0 z)))
        (λ _. Ends-ok _ v)

  remove_table-FileValid :
      (e va : ℕ) (p : PageFile S)
      → FileValid p
      → Ends FileValid FileValid (pf_remove_env_table e va p)
  unfolding pf_remove_env_table
  remove_table-FileValid e va p v =
      let t = table_slot e va in
      Ends-if ((p.envs e).disk_env_tabledir == 0) _
        (free_disk_frame (p.table_dfns t) (record p { table_dfns = update p.table_dfns t 0 }))
        (λ _. Ends-ok p v)
        (λ _. rw (free_table_dfn_lem t p v) (Ends-ok _ (clear_table_dfn-FileValid t p v)))

  remove_tables-FileValid :
      (e : ℕ) (p : PageFile S)
      → FileValid p
      → Ends FileValid FileValid (pf_remove_env_all_tables e p)
  unfolding pf_remove_env_all_tables
  remove_tables-FileValid e p v =
      let (q, k, f) = free_table_entries_lem (e * 1024) user_tables p v in
      Ends-if ((p.envs e).disk_env_tabledir == 0) _ (free_table_entries (e * 1024) user_tables p)
        (λ _. Ends-ok p v) (λ _. rw k (Ends-ok q f.valid))

module _ (D : Ide) where
  put_table-FileValid :
      (e va src : ℕ) (p : PageFile D.State) (l : List ℕ)
      → Partition p.page_dfns p.table_dfns l
      → FileValid p
      → (p.envs e).disk_env_tabledir ≢ 0
      → p.table_dfns (table_slot e va) ≡ 0
      → va < user_top
      → Ends FileValid ValidNext (put_table D (table_slot e va) src p (take_first p l))
  put_table-FileValid e va src p [] w v root z lt = Ends-ok _ v
  put_table-FileValid e va src p (d ∷ l) w v root z lt =
      write_disk_page-FileValid D d src _ record {
        partition =
            let u = Partition-swap p.page_dfns p.table_dfns (d ∷ l) w in
            Partition-swap _ _ _
              (take-Partition p.table_dfns p.page_dfns d (table_slot e va) l u z);
        held = v.held;
        rooted = v.rooted;
        table_rooted = λ t h.
            let at : table_slot e va / 1024 ≡ e = omega (arith, lt) in
            ground (arith, v.table_rooted t, h, at, root);
        user = v.user;
        table_user = λ t h. ground (arith, v.table_user t, h, lt);
      }

  write_table-FileValid :
      (e va src : ℕ) (p : PageFile D.State)
      → FileValid p
      → va < user_top
      → Ends FileValid ValidNext (write_table D e va src p)
  unfolding write_table
  write_table-FileValid e va src p v lt =
      Ends-if ((p.envs e).disk_env_tabledir == 0) _ _ (λ _. Ends-fault)
        λ root.
          Ends-if (p.table_dfns (table_slot e va) == 0) _ _
            (λ z.
              put_table-FileValid e va src p p.disk_free_frame_list v.partition v (==→ne _ 0 root)
                (==→eq _ 0 z) lt)
            (λ _. write_disk_page-FileValid D (p.table_dfns (table_slot e va)) src p v)

  pf_write_env_table-FileValid :
      (K : KernelHeap) (e va src : ℕ) (p : PageFile D.State)
      → FileValid p
      → va < user_top
      → Ends FileValid ValidNext (pf_write_env_table D K e va src p)
  unfolding pf_write_env_table
  pf_write_env_table-FileValid K e va src p v lt = rw (lt→ltb va 0xF0000000 (omega (arith, lt))) (
      Ends-bind ValidNext _ _ (get_disk_table_directory-FileValid K e p v)
        λ a w. write_table-FileValid e va src a.1 w lt)

  pf_read_env_table-FileValid :
      (e va dst : ℕ) (p : PageFile D.State)
      → FileValid p
      → Ends FileValid ValidNext (pf_read_env_table D e va dst p)
  unfolding pf_read_env_table
  pf_read_env_table-FileValid e va dst p v =
      Ends-if (((p.envs e).disk_env_tabledir == 0) || (p.table_dfns (table_slot e va) == 0)) _ _
        (λ _. Ends-ok _ v)
        (λ _. read_disk_page-FileValid D (p.table_dfns (table_slot e va)) dst p v)

-- The calls of the page file on a process, but pf_free_env.
pub data Call : Type 0 where
  add_page add_table read_table : ℕ → ℕ → Call
  add_empty_page : ℕ → Bool → Call
  update_page fetch_page remove_page remove_table : ℕ → Call
  remove_all_tables : Call

-- The address of the call is below the kernel's.
abbrev pub IsUser : Call → Type 0
IsUser (add_page va src) = va < user_top
IsUser (add_table va src) = va < user_top
IsUser (read_table va dst) = va < user_top
IsUser (add_empty_page va z) = va < user_top
IsUser (update_page va) = va < user_top
IsUser (fetch_page va) = va < user_top
IsUser (remove_page va) = va < user_top
IsUser (remove_table va) = va < user_top
IsUser remove_all_tables = Unit {0}

module _ (D : Ide) (K : KernelHeap) (element zero_page : ℕ) where
  abbrev no_code : PageFile D.State → Outcome (PageFile D.State) (ℕ × PageFile D.State)
  no_code p = ok (0, p)

  unfoldable pub perform :
      ℕ → Call → PageFile D.State → Outcome (PageFile D.State) (ℕ × PageFile D.State)
  perform e (add_page va src) p = pf_add_env_page D K e va src p
  perform e (add_table va src) p = pf_write_env_table D K e va src p
  perform e (read_table va dst) p = pf_read_env_table D e va dst p
  perform e (add_empty_page va z) p = pf_add_empty_env_page D K element zero_page e va z p
  perform e (update_page va) p = pf_update_env_page D K element zero_page e va p
  perform e (fetch_page va) p = pf_read_env_page D K e va p
  perform e (remove_page va) p = pf_remove_env_page K e va p >>= no_code
  perform e (remove_table va) p = pf_remove_env_table e va p >>= no_code
  perform e remove_all_tables p = pf_remove_env_all_tables e p >>= no_code

  -- Whatever the disk and the heap do, a call for an address below the kernel's leaves a valid
  -- page file valid, also where it fails or hands the CPU over: no disk frame is lost, free twice
  -- or held twice.
  pub perform-FileValid :
      (e : ℕ) (c : Call) (p : PageFile D.State)
      → FileValid p
      → IsUser c
      → Ends FileValid ValidNext (perform e c p)
  unfolding perform pf_remove_env_table pf_remove_env_all_tables
  perform-FileValid e (add_page va src) p v u = pf_add_env_page-FileValid D K e va src p v u
  perform-FileValid e (add_table va src) p v u = pf_write_env_table-FileValid D K e va src p v u
  perform-FileValid e (read_table va dst) p v u = pf_read_env_table-FileValid D e va dst p v
  perform-FileValid e (add_empty_page va z) p v u =
      pf_add_empty_env_page-FileValid D K element zero_page e va z p v u
  perform-FileValid e (update_page va) p v u =
      pf_update_env_page-FileValid D K element zero_page e va p v u
  perform-FileValid e (fetch_page va) p v u = pf_read_env_page-FileValid D K e va p v u
  perform-FileValid e (remove_page va) p v u =
      Ends-bind FileValid _ no_code (pf_remove_env_page-FileValid K e va p v u)
        (λ q w. Ends-ok (0, q) w)
  perform-FileValid e (remove_table va) p v u =
      Ends-bind FileValid _ no_code (remove_table-FileValid e va p v) (λ q w. Ends-ok (0, q) w)
  perform-FileValid e remove_all_tables p v u =
      Ends-bind FileValid _ no_code (remove_tables-FileValid e p v) (λ q w. Ends-ok (0, q) w)

-- initialize_disk_page_file, where no process has anything in the page file, makes it valid: all
-- disk frames but frame 0 are free.
pub initialize_disk_page_file-FileValid :
    {S : Type 0} (p : PageFile S)
    → ((s : ℕ) → p.page_dfns s ≡ 0)
    → ((t : ℕ) → p.table_dfns t ≡ 0)
    → ((t : ℕ) → p.disk_tables t ≡ 0)
    → FileValid (initialize_disk_page_file p)
unfolding initialize_disk_page_file
initialize_disk_page_file-FileValid p a b c = record {
  partition = insert_disk_frames-Partition 133119 p.page_dfns p.table_dfns (omega arith) a b;
  held = λ s h. absurd (h (a s));
  rooted = λ t h. absurd (h (c t));
  table_rooted = λ t h. absurd (h (b t));
  user = λ t h. absurd (h (c t));
  table_user = λ t h. absurd (h (b t));
}
